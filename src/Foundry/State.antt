-- ===== src/Foundry/State.antt =====
-- The state of the agent that writes tests, the reducer of the expected failures, the stamps and the
-- gate of composer/foundry/state.py. The hash is a parameter; the messages of the agent are left out.
use certora_aicomposer.Prelude.{String, Bool, List, [], ◌∷◌, Option, if◌then◌else◌}
use certora_aicomposer.Text.{is_empty}
use certora_aicomposer.Sets.{text_eq}
use certora_aicomposer.KeyMap.{put}
use certora_aicomposer.Generation.Types.{SkippedProperty}
use certora_aicomposer.Generation.Gate.{remove, Rejection, gate, compute_digest, text_or_empty}

pub record PropertyTestMapping : Type 0 where
  pub property_title : String
  pub tests : List String

-- An empty reason removes the entry.
unfoldable pub merge_expected_failures :
    List (String × String) → List (String × String) → List (String × String)
merge_expected_failures left [] = left
merge_expected_failures left ((k, v) ∷ right) =
    merge_expected_failures (if is_empty v then remove k left else put k v left) right

-- `FoundryGenerationExtra`, and the result of `FoundryGenerationState`
pub record FoundryState : Type 0 where
  pub curr_test : Option String
  pub skipped : List SkippedProperty
  pub property_tests : List PropertyTestMapping
  pub validations : List (String × String)
  pub required_validations : List String
  pub expected_failures : List (String × String)
  pub last_test_names : Option (List String)
  pub failed : Option Bool
  pub result : Option String

-- The gate is that of the specifications, with the test's text.
abbrev pub check_foundry_completion : (String → String) → FoundryState → Option Rejection
check_foundry_completion md5 state =
    gate md5 state.validations state.required_validations state.skipped state.curr_test

abbrev pub forge_test_validation_key : String
forge_test_validation_key = "forge_test"

abbrev pub feedback : String
feedback = "feedback"

-- `make_foundry_validation_stamper(key)`, whose digest is that of the specifications.
abbrev pub foundry_stamp : (String → String) → String → FoundryState → List (String × String)
foundry_stamp md5 key state =
    (key, compute_digest md5 (text_or_empty md5 state.curr_test) state.skipped) ∷ []
