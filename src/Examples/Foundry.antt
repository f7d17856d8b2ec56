-- ===== src/Examples/Foundry.antt =====
-- A mapping of properties to tests that composer/foundry/state.py accepts.
use certora_aicomposer.Prelude.{List, [], ◌∷◌, ◌≡◌, refl}
use certora_aicomposer.Text.{strip}
use certora_aicomposer.Sets.{contains, add, add_all, minus}
use certora_aicomposer.Sorting.{sorted_by}
use certora_aicomposer.Generation.Types.{SkippedProperty}
use certora_aicomposer.Generation.Gate.{remove}
use certora_aicomposer.Generation.Mapping.{titles_of}
use certora_aicomposer.Foundry.State.{PropertyTestMapping, merge_expected_failures}
use certora_aicomposer.Foundry.Mapping.{
  names_of, claim, check_test_mapping, check_test_mappings, check_test_titles, report_untied,
  validate_property_tests,
}
use certora_aicomposer.Foundry.Tied.{Tied, validate_property_tests-Tied}

abbrev skips : List SkippedProperty
skips = record { property_title = "access"; reason = "no roles" } ∷ []

abbrev mapping : List PropertyTestMapping
mapping = record { property_title = "solvency"; tests = " test_solvent " ∷ "" ∷ [] } ∷ []

no_problems :
    validate_property_tests mapping skips ("solvency" ∷ "access" ∷ []) ("test_solvent" ∷ []) ≡ []
unfolding validate_property_tests check_test_mappings check_test_mapping check_test_titles
    report_untied names_of claim contains add add_all minus sorted_by strip
no_problems = refl

validate_property_tests-Tied_example :
    Tied mapping (titles_of skips) ("solvency" ∷ "access" ∷ []) ("test_solvent" ∷ [])
validate_property_tests-Tied_example =
    validate_property_tests-Tied mapping skips ("solvency" ∷ "access" ∷ []) ("test_solvent" ∷ [])
      no_problems

removed : merge_expected_failures (("test_a", "known") ∷ []) (("test_a", "") ∷ []) ≡ []
unfolding merge_expected_failures remove
removed = refl
