-- ===== src/Foundry/Mapping.antt =====
-- `validate_property_tests` of composer/foundry/state.py. The texts of the errors are left out: a
-- problem has the title and the test that its text names.
use certora_aicomposer.Prelude.{String, List, [], ◌∷◌, ◌||◌, if◌then◌else◌}
use mathlib.Core.List.{◌++◌}
use certora_aicomposer.Text.{strip, is_empty}
use certora_aicomposer.Sets.{text_eq, contains, add, set_of, minus}
use certora_aicomposer.Sorting.{text_le, sorted_by}
use certora_aicomposer.Generation.Types.{SkippedProperty}
use certora_aicomposer.Generation.Mapping.{titles_of}
use certora_aicomposer.Foundry.State.{PropertyTestMapping}

pub data TestProblem : Type 0 where
  unknown_title repeated_title skipped_title no_tests unaccounted untied : String → TestProblem
  not_run : String → String → TestProblem

-- The state of the loop over the mappings.
pub record TestProgress : Type 0 where
  pub errors : List TestProblem
  pub mapped : List String
  pub claimed_tests : List String

-- `[t.strip() for t in tests if t.strip()]`
unfoldable pub names_of : List String → List String
names_of [] = []
names_of (t ∷ tests) =
    let rest = names_of tests in if is_empty (strip t) then rest else strip t ∷ rest

abbrev pub problem : TestProblem → TestProgress → TestProgress
problem p st = record st { errors = st.errors ++ p ∷ [] }

module _ (valid_titles skipped_titles ran : List String) where
  -- The loop over the names of one property's tests.
  unfoldable pub claim : String → List String → TestProgress → TestProgress
  claim title [] st = st
  claim title (t ∷ names) st =
      let claimed : TestProgress = record st { claimed_tests = add st.claimed_tests t } in
      claim title names
        (if contains t ran then claimed else problem (TestProblem.not_run title t) claimed)

  abbrev pub claim_some : String → List String → TestProgress → TestProgress
  claim_some title [] st = problem (TestProblem.no_tests title) st
  claim_some title (t ∷ names) st = claim title (t ∷ names) st

  unfoldable pub check_test_mapping : PropertyTestMapping → TestProgress → TestProgress
  unfolding claim
  check_test_mapping m st =
      if contains m.property_title valid_titles
      then (if contains m.property_title st.mapped
          then problem (TestProblem.repeated_title m.property_title) st
          else (let taken : TestProgress = record st { mapped = add st.mapped m.property_title } in
              if contains m.property_title skipped_titles
              then problem (TestProblem.skipped_title m.property_title) taken
              else claim_some m.property_title (names_of m.tests) taken))
      else problem (TestProblem.unknown_title m.property_title) st

  unfoldable pub check_test_mappings : List PropertyTestMapping → TestProgress → TestProgress
  check_test_mappings [] st = st
  check_test_mappings (m ∷ ms) st = check_test_mappings ms (check_test_mapping m st)

  unfoldable pub check_test_titles : List String → TestProgress → TestProgress
  check_test_titles [] st = st
  check_test_titles (t ∷ titles) st = check_test_titles titles (
      if contains t skipped_titles || contains t st.mapped
      then st
      else problem (TestProblem.unaccounted t) st)

  unfoldable pub report_untied : List String → TestProgress → TestProgress
  report_untied [] st = st
  report_untied (t ∷ tests) st = report_untied tests (problem (TestProblem.untied t) st)

  -- `sorted(ran - claimed_tests)`
  abbrev pub untied_tests : TestProgress → TestProgress
  untied_tests st = report_untied (sorted_by text_le (minus ran st.claimed_tests)) st

unfoldable pub validate_property_tests :
    List PropertyTestMapping → List SkippedProperty → List String → List String → List TestProblem
validate_property_tests property_tests skipped titles ran_test_names =
    (untied_tests (set_of titles) (set_of (titles_of skipped)) (set_of ran_test_names) (
      check_test_titles (set_of titles) (set_of (titles_of skipped)) (set_of ran_test_names) titles
        (check_test_mappings (set_of titles) (set_of (titles_of skipped)) (set_of ran_test_names)
          property_tests (record { errors = []; mapped = []; claimed_tests = [] })))).errors
