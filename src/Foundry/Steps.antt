-- ===== src/Foundry/Steps.antt =====
-- Every tool of composer/foundry keeps the stamps and the names of tests backed by its history.
use certora_aicomposer.Prelude.{
  String, Bool, true, false, List, [], ◌∷◌, Option, none, some, ◌≡◌, refl, subst, ◌∙◌, ◌&&◌,
  append_assoc, if◌then◌else◌,
}
use mathlib.Core.List.{◌++◌}
use certora_aicomposer.Text.{strip, is_empty}
use certora_aicomposer.Sets.{text_eq, contains, All}
use certora_aicomposer.Generation.Gate.{Rejection}
use certora_aicomposer.Foundry.State.{
  PropertyTestMapping, FoundryState, check_foundry_completion, forge_test_validation_key,
}
use certora_aicomposer.Foundry.Mapping.{TestProblem, validate_property_tests}
use certora_aicomposer.Foundry.Runner.{
  TestResult, Loaded, Parsed, parse_forge_json, clean, test_names,
}
use certora_aicomposer.Foundry.Clean.{AsExpected, clean-AsExpected}
use certora_aicomposer.Foundry.Tools.{
  ForgeRun, Action, put_skip, skip_property, unskip, expect_test, expect_failure, is_unseeded,
  put_stamp, judged, tested, run_forge, publish_mapped, publish_checked, step, run,
}
use certora_aicomposer.Foundry.History.{
  Event, accepted_now, ran_now, forge_events, events_of, history, Backed, Kept, kept-Backed,
  judged-Backed, certified-Backed, named-Backed,
}

module _ (md5 : String → String) (loads : String → Loaded) (titles : List String) where
  abbrev Same : FoundryState → FoundryState → Type 0
  Same next st = Kept md5 loads titles next st

  skip_property-Same :
      (title reason : String) (st : FoundryState) → Same (skip_property titles title reason st) st
  skip_property-Same title reason st = either (contains title titles) (is_empty (strip reason))
    where
      either :
          (b c : Bool) → Same (if b then (if c then st else put_skip title reason st) else st) st
      either true true = (refl, refl, refl)
      either true false = (refl, refl, refl)
      either false true = (refl, refl, refl)
      either false false = (refl, refl, refl)

  unskip-Same : (title : String) (st : FoundryState) → Same (unskip titles title st) st
  unskip-Same title st = either (contains title titles)
    where
      either : (b : Bool) → Same (if b then put_skip title "" st else st) st
      either true = (refl, refl, refl)
      either false = (refl, refl, refl)

  expect_failure-Same :
      (test reason : String) (st : FoundryState) → Same (expect_failure test reason st) st
  expect_failure-Same test reason st = either (is_empty (strip reason))
    where
      either : (b : Bool) → Same (if b then st else expect_test test reason st) st
      either true = (refl, refl, refl)
      either false = (refl, refl, refl)

  publish_mapped-Same :
      (commentary : String) (ms : List PropertyTestMapping) (ps : List TestProblem)
      (st : FoundryState)
      → Same (publish_mapped md5 loads commentary ms ps st) st
  publish_mapped-Same commentary ms [] st = (refl, refl, refl)
  publish_mapped-Same commentary ms (p ∷ ps) st = (refl, refl, refl)

  publish-Same :
      (commentary : String) (ms : List PropertyTestMapping) (r : Option Rejection)
      (ran : Option (List String)) (st : FoundryState)
      → Same (publish_checked md5 loads commentary ms titles r ran st) st
  publish-Same commentary ms none none st = (refl, refl, refl)
  publish-Same commentary ms none (some ran) st =
      publish_mapped-Same commentary ms (validate_property_tests ms st.skipped titles ran) st
  publish-Same commentary ms (some r) ran st = (refl, refl, refl)

  abbrev Back : List Event → FoundryState → Type 0
  Back h st = Backed md5 loads titles h st

  keep : (h k : List Event) (st next : FoundryState) → Same next st → Back h st → Back (h ++ k) next
  keep = kept-Backed md5 loads titles

  judged-keeps :
      (h : List Event) (good : Bool) (o : Option String) (st : FoundryState)
      → st.curr_test ≡ o
      → Back h st
      → Back (h ++ (if good then accepted_now o st else [])) (judged md5 loads good o st)
  judged-keeps h true none st e b = keep h [] st st (refl, refl, refl) b
  judged-keeps h false none st e b = keep h [] st st (refl, refl, refl) b
  judged-keeps h false (some test) st e b = keep h [] st st (refl, refl, refl) b
  judged-keeps h true (some test) st e b = judged-Backed md5 loads titles h test st e b

  results-keep :
      (h : List Event) (seed : Option String) (exit_zero : Bool) (results : List TestResult)
      (test : String) (st : FoundryState)
      → st.curr_test ≡ some test
      → Back h st
      → Back
          (h
            ++ Event.ran test st.skipped (is_unseeded seed) exit_zero results st.expected_failures
              ∷ [])
          (tested md5 loads seed exit_zero (Parsed.parsed results) st)
  results-keep h seed exit_zero results test st e b =
      either (is_unseeded seed) exit_zero (clean exit_zero st.expected_failures results)
        (clean-AsExpected exit_zero st.expected_failures results)
    where
      either :
          (u z c : Bool)
          → (c ≡ true → (z ≡ true) × All (AsExpected st.expected_failures) results)
          → Back (h ++ Event.ran test st.skipped u z results st.expected_failures ∷ []) (
              if u && c
              then record (put_stamp md5 loads forge_test_validation_key st) {
                last_test_names = some (test_names results);
              }
              else record st { last_test_names = some (test_names results) })
      either true true true k = certified-Backed md5 loads titles h test results st e (k refl).1 b
      either true false true k = absurd (cc (k refl).0)
      either true z false k = named-Backed md5 loads titles h test true z results st b
      either false z c k = named-Backed md5 loads titles h test false z results st b

  tested-keeps :
      (h : List Event) (seed : Option String) (exit_zero : Bool) (p : Parsed) (test : String)
      (st : FoundryState)
      → st.curr_test ≡ some test
      → Back h st
      → Back (h ++ ran_now seed exit_zero p test st) (tested md5 loads seed exit_zero p st)
  tested-keeps h seed exit_zero Parsed.invalid test st e b = keep h [] st st (refl, refl, refl) b
  tested-keeps h seed exit_zero Parsed.unparsed test st e b =
      named-Backed md5 loads titles h test (is_unseeded seed) exit_zero [] st b
  tested-keeps h seed exit_zero (Parsed.parsed results) test st e b =
      results-keep h seed exit_zero results test st e b

  forge-keeps :
      (h : List Event) (seed : Option String) (forge : ForgeRun) (o : Option String)
      (st : FoundryState)
      → st.curr_test ≡ o
      → Back h st
      → Back (h ++ forge_events loads seed forge o st) (run_forge md5 loads seed forge o st)
  forge-keeps h seed ForgeRun.no_project o st e b = keep h [] st st (refl, refl, refl) b
  forge-keeps h seed ForgeRun.not_found o st e b = keep h [] st st (refl, refl, refl) b
  forge-keeps h seed ForgeRun.timed_out o st e b = keep h [] st st (refl, refl, refl) b
  forge-keeps h seed (ForgeRun.finished exit_zero stdout) none st e b =
      keep h [] st st (refl, refl, refl) b
  forge-keeps h seed (ForgeRun.finished exit_zero stdout) (some test) st e b =
      tested-keeps h seed exit_zero (parse_forge_json loads stdout) test st e b

  step-Backed :
      (h : List Event) (a : Action) (st : FoundryState)
      → Back h st
      → Back (h ++ events_of loads a st) (step md5 loads titles a st)
  unfolding step
  step-Backed h (Action.put_test_raw test) st b =
      keep h [] st (step md5 loads titles (Action.put_test_raw test) st) (refl, refl, refl) b
  step-Backed h (Action.record_skip title reason) st b =
      keep h [] st (skip_property titles title reason st) (skip_property-Same title reason st) b
  step-Backed h (Action.unskip_property title) st b =
      keep h [] st (unskip titles title st) (unskip-Same title st) b
  step-Backed h (Action.expect_test_failure test reason) st b =
      keep h [] st (expect_failure test reason st) (expect_failure-Same test reason st) b
  step-Backed h (Action.expect_test_passage test) st b =
      keep h [] st (expect_test test "" st) (refl, refl, refl) b
  step-Backed h (Action.feedback_tool good) st b = judged-keeps h good st.curr_test st refl b
  step-Backed h (Action.forge_test seed forge) st b =
      forge-keeps h seed forge st.curr_test st refl b
  step-Backed h (Action.publish commentary ms) st b =
      keep h [] st (step md5 loads titles (Action.publish commentary ms) st)
        (publish-Same commentary ms (check_foundry_completion md5 st) st.last_test_names st) b
  step-Backed h (Action.give_up reason) st b =
      keep h [] st (step md5 loads titles (Action.give_up reason) st) (refl, refl, refl) b

  pub run-Backed :
      (h : List Event) (actions : List Action) (st : FoundryState)
      → Back h st
      → Back (h ++ history md5 loads titles actions st) (run md5 loads titles actions st)
  unfolding run
  run-Backed h [] st b = keep h [] st st (refl, refl, refl) b
  run-Backed h (a ∷ actions) st b =
      subst (λ k. Back k (run md5 loads titles (a ∷ actions) st))
        (append_assoc h (events_of loads a st)
          (history md5 loads titles actions (step md5 loads titles a st)))
        (run-Backed (h ++ events_of loads a st) actions (step md5 loads titles a st)
          (step-Backed h a st b))

  judged-required :
      (good : Bool) (o : Option String) (st : FoundryState)
      → (judged md5 loads good o st).required_validations ≡ st.required_validations
  judged-required good none st = refl
  judged-required true (some test) st = refl
  judged-required false (some test) st = refl

  forge-required :
      (seed : Option String) (forge : ForgeRun) (o : Option String) (st : FoundryState)
      → (run_forge md5 loads seed forge o st).required_validations ≡ st.required_validations
  forge-required seed ForgeRun.no_project o st = refl
  forge-required seed ForgeRun.not_found o st = refl
  forge-required seed ForgeRun.timed_out o st = refl
  forge-required seed (ForgeRun.finished exit_zero stdout) none st = refl
  forge-required seed (ForgeRun.finished exit_zero stdout) (some test) st =
      parsed (parse_forge_json loads stdout)
    where
      parsed :
          (p : Parsed)
          → (tested md5 loads seed exit_zero p st).required_validations ≡ st.required_validations
      parsed Parsed.unparsed = refl
      parsed Parsed.invalid = refl
      parsed (Parsed.parsed results) =
          either (is_unseeded seed && clean exit_zero st.expected_failures results)
        where
          either :
              (b : Bool)
              → (if b
                  then record (put_stamp md5 loads forge_test_validation_key st) {
                    last_test_names = some (test_names results);
                  }
                  else record st {
                    last_test_names = some (test_names results);
                  }).required_validations
                ≡ st.required_validations
          either true = refl
          either false = refl

  step-required :
      (a : Action) (st : FoundryState)
      → (step md5 loads titles a st).required_validations ≡ st.required_validations
  unfolding step
  step-required (Action.put_test_raw test) st = refl
  step-required (Action.record_skip title reason) st = (skip_property-Same title reason st).1
  step-required (Action.unskip_property title) st = (unskip-Same title st).1
  step-required (Action.expect_test_failure test reason) st = (expect_failure-Same test reason st).1
  step-required (Action.expect_test_passage test) st = refl
  step-required (Action.feedback_tool good) st = judged-required good st.curr_test st
  step-required (Action.forge_test seed forge) st = forge-required seed forge st.curr_test st
  step-required (Action.publish commentary ms) st =
      (publish-Same commentary ms (check_foundry_completion md5 st) st.last_test_names st).1
  step-required (Action.give_up reason) st = refl

  pub run-required :
      (actions : List Action) (st : FoundryState)
      → (run md5 loads titles actions st).required_validations ≡ st.required_validations
  unfolding run
  run-required [] st = refl
  run-required (a ∷ actions) st =
      run-required actions (step md5 loads titles a st) ∙ step-required a st
