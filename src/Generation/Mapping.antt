-- ===== src/Generation/Mapping.antt =====
-- `validate_property_rules` of composer/spec/cvl_generation.py. The texts of the errors are left out:
-- a problem has the title that its text names.
use certora_aicomposer.Prelude.{String, Bool, true, false, List, [], ◌∷◌, ◌||◌, map, if◌then◌else◌}
use mathlib.Core.List.{◌++◌}
use certora_aicomposer.Text.{strip, is_empty}
use certora_aicomposer.Sets.{text_eq, contains, add, set_of}
use certora_aicomposer.Generation.Types.{SkippedProperty, PropertyRuleMapping}

pub data Problem : Type 0 where
  unknown_title repeated_title skipped_title no_rules unaccounted : String → Problem

-- The state of the loop over the mappings.
pub record Progress : Type 0 where
  pub errors : List Problem
  pub mapped : List String

-- `any(r.strip() for r in rules)`
unfoldable pub any_named : List String → Bool
any_named [] = false
any_named (r ∷ rules) = let rest = any_named rules in if is_empty (strip r) then rest else true

abbrev pub report : Problem → Progress → Progress
report problem st = record st { errors = st.errors ++ problem ∷ [] }

abbrev pub titles_of : List SkippedProperty → List String
titles_of skips = map title skips
  where
    title : SkippedProperty → String
    title s = s.property_title

module _ (valid_titles skipped_titles : List String) where
  unfoldable pub check_mapping : PropertyRuleMapping → Progress → Progress
  check_mapping m st =
      if contains m.property_title valid_titles
      then (if contains m.property_title st.mapped
          then report (Problem.repeated_title m.property_title) st
          else (let taken : Progress = record st { mapped = add st.mapped m.property_title } in
              if contains m.property_title skipped_titles
              then report (Problem.skipped_title m.property_title) taken
              else (if any_named m.rules
                  then taken
                  else report (Problem.no_rules m.property_title) taken)))
      else report (Problem.unknown_title m.property_title) st

  unfoldable pub check_mappings : List PropertyRuleMapping → Progress → Progress
  check_mappings [] st = st
  check_mappings (m ∷ ms) st = check_mappings ms (check_mapping m st)

  -- The loop over the titles.
  unfoldable pub check_titles : List String → Progress → List Problem
  check_titles [] st = st.errors
  check_titles (t ∷ titles) st = check_titles titles (
      if contains t skipped_titles || contains t st.mapped
      then st
      else report (Problem.unaccounted t) st)

-- The problems, none if the mapping is valid.
unfoldable pub validate_property_rules :
    List PropertyRuleMapping → List SkippedProperty → List String → List Problem
validate_property_rules property_rules skipped titles =
    check_titles (set_of titles) (set_of (titles_of skipped)) titles (
      check_mappings (set_of titles) (set_of (titles_of skipped)) property_rules
        (record { errors = []; mapped = [] }))
