-- ===== src/Foundry/Tools.antt =====
-- The tools of composer/foundry/author.py and `forge_test` of composer/foundry/runner.py, each a change
-- of the agent's state. An action has what comes from outside: the arguments of the agent, the answer
-- of the judge and what `forge` did. The messages to the agent are left out; a tool that only answers
-- leaves the state.
use certora_aicomposer.Prelude.{
  String, Bool, true, false, List, [], ◌∷◌, Option, none, some, ◌&&◌, if◌then◌else◌,
}
use certora_aicomposer.Text.{strip, is_empty}
use certora_aicomposer.Sets.{text_eq, contains}
use certora_aicomposer.Generation.Types.{SkippedProperty}
use certora_aicomposer.Generation.Gate.{merge_validation, merge_skips, Rejection}
use certora_aicomposer.Foundry.State.{
  PropertyTestMapping, FoundryState, merge_expected_failures, check_foundry_completion,
  forge_test_validation_key, feedback, foundry_stamp,
}
use certora_aicomposer.Foundry.Mapping.{TestProblem, validate_property_tests}
use certora_aicomposer.Foundry.Runner.{Loaded, Parsed, parse_forge_json, clean, test_names}

-- What a run of `forge` comes to: no project, no binary, no end within the time, or a return code, of
-- which only zero is told apart, and the text on the standard output.
pub data ForgeRun : Type 0 where
  no_project not_found timed_out : ForgeRun
  finished : Bool → String → ForgeRun

pub data Action : Type 0 where
  put_test_raw : String → Action
  record_skip : String → String → Action
  unskip_property : String → Action
  expect_test_failure : String → String → Action
  expect_test_passage : String → Action
  feedback_tool : Bool → Action
  forge_test : Option String → ForgeRun → Action
  publish : String → List PropertyTestMapping → Action
  give_up : String → Action

abbrev pub put_skip : String → String → FoundryState → FoundryState
put_skip title reason st = record st {
  skipped = merge_skips st.skipped (record { property_title = title; reason = reason } ∷ []);
}

abbrev pub skip_property : List String → String → String → FoundryState → FoundryState
skip_property titles title reason st =
    if contains title titles
    then (if is_empty (strip reason) then st else put_skip title reason st)
    else st

abbrev pub unskip : List String → String → FoundryState → FoundryState
unskip titles title st = if contains title titles then put_skip title "" st else st

abbrev pub expect_test : String → String → FoundryState → FoundryState
expect_test test_name reason st = record st {
  expected_failures = merge_expected_failures st.expected_failures ((test_name, reason) ∷ []);
}

abbrev pub expect_failure : String → String → FoundryState → FoundryState
expect_failure test_name reason st =
    if is_empty (strip reason) then st else expect_test test_name reason st

abbrev pub is_unseeded : Option String → Bool
is_unseeded none = true
is_unseeded (some seed) = false

module _ (md5 : String → String) (loads : String → Loaded) where
  abbrev pub put_stamp : String → FoundryState → FoundryState
  put_stamp key st = record st {
    validations = merge_validation st.validations (foundry_stamp md5 key st);
  }

  abbrev pub judged : Bool → Option String → FoundryState → FoundryState
  judged good none st = st
  judged good (some test) st = if good then put_stamp feedback st else st

  -- The update after a run whose output could be parsed or not.
  abbrev pub tested : Option String → Bool → Parsed → FoundryState → FoundryState
  tested seed exit_zero Parsed.unparsed st = record st { last_test_names = some [] }
  tested seed exit_zero Parsed.invalid st = st
  tested seed exit_zero (Parsed.parsed results) st =
      if is_unseeded seed && clean exit_zero st.expected_failures results
      then record (put_stamp forge_test_validation_key st) {
        last_test_names = some (test_names results);
      }
      else record st { last_test_names = some (test_names results) }

  abbrev pub run_forge : Option String → ForgeRun → Option String → FoundryState → FoundryState
  run_forge seed (ForgeRun.finished exit_zero stdout) (some test) st =
      tested seed exit_zero (parse_forge_json loads stdout) st
  run_forge seed _ _ st = st

  abbrev pub publish_mapped :
      String → List PropertyTestMapping → List TestProblem → FoundryState → FoundryState
  publish_mapped commentary property_tests [] st = record st {
    result = some commentary;
    property_tests = property_tests;
    failed = some false;
  }
  publish_mapped commentary property_tests (p ∷ problems) st = st

  abbrev pub publish_checked :
      String
      → List PropertyTestMapping
      → List String
      → Option Rejection
      → Option (List String)
      → FoundryState
      → FoundryState
  publish_checked commentary property_tests titles none (some ran) st =
      publish_mapped commentary property_tests
        (validate_property_tests property_tests st.skipped titles ran) st
  publish_checked commentary property_tests titles _ _ st = st

  unfoldable pub step : List String → Action → FoundryState → FoundryState
  step titles (Action.put_test_raw test_source) st = record st { curr_test = some test_source }
  step titles (Action.record_skip title reason) st = skip_property titles title reason st
  step titles (Action.unskip_property title) st = unskip titles title st
  step titles (Action.expect_test_failure test_name reason) st = expect_failure test_name reason st
  step titles (Action.expect_test_passage test_name) st = expect_test test_name "" st
  step titles (Action.feedback_tool good) st = judged good st.curr_test st
  step titles (Action.forge_test seed forge) st = run_forge seed forge st.curr_test st
  step titles (Action.publish commentary property_tests) st =
      publish_checked commentary property_tests titles (check_foundry_completion md5 st)
        st.last_test_names st
  step titles (Action.give_up reason) st = record st { failed = some true; result = some reason }

  unfoldable pub run : List String → List Action → FoundryState → FoundryState
  run titles [] st = st
  run titles (a ∷ actions) st = run titles actions (step titles a st)

-- The state with which `batch_foundry_test_generation` begins.
abbrev pub init_state : FoundryState
init_state = record {
  curr_test = none;
  skipped = [];
  property_tests = [];
  validations = [];
  required_validations = forge_test_validation_key ∷ feedback ∷ [];
  expected_failures = [];
  last_test_names = none;
  failed = none;
  result = none;
}

pub record GeneratedFoundryTest : Type 0 where
  pub commentary : String
  pub test_source : String
  pub skipped : List SkippedProperty
  pub property_tests : List PropertyTestMapping
  pub expected_failures : List (String × String)
  pub ran_tests : List String

-- `BatchFoundryResult`, or an assertion that fails.
pub data BatchFoundryResult : Type 0 where
  assertion_error : BatchFoundryResult
  gave_up : String → BatchFoundryResult
  generated : GeneratedFoundryTest → BatchFoundryResult

abbrev pub ran_or_none : Option (List String) → List String
ran_or_none none = []
ran_or_none (some ran) = ran

abbrev batch_outcome :
    Option String → Option Bool → Option String → FoundryState → BatchFoundryResult
batch_outcome (some result) (some true) draft st = BatchFoundryResult.gave_up result
batch_outcome (some result) (some false) (some draft) st = BatchFoundryResult.generated (record {
  commentary = result;
  test_source = draft;
  skipped = st.skipped;
  property_tests = st.property_tests;
  expected_failures = st.expected_failures;
  ran_tests = ran_or_none st.last_test_names;
})
batch_outcome _ _ _ st = BatchFoundryResult.assertion_error

-- The end of `batch_foundry_test_generation`.
unfoldable pub batch_result : FoundryState → BatchFoundryResult
batch_result st = batch_outcome st.result st.failed st.curr_test st
