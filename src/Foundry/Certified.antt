-- ===== src/Foundry/Certified.antt =====
-- What a batch of composer/foundry/author.py returns: the tests that were published, with what the judge
-- and the runs of `forge` have said of the digest of the draft and its skips.
use certora_aicomposer.Prelude.{String, false, List, [], ◌∷◌, Option, none, some, ◌≡◌, refl, subst}
use certora_aicomposer.Sets.{text_eq, All}
use certora_aicomposer.KeyMap.{get}
use certora_aicomposer.Generation.Gate.{compute_digest, Rejection}
use certora_aicomposer.Generation.Mapping.{titles_of}
use certora_aicomposer.Generation.Published.{gate-none}
use certora_aicomposer.Foundry.State.{
  PropertyTestMapping, FoundryState, check_foundry_completion, forge_test_validation_key, feedback,
}
use certora_aicomposer.Foundry.Mapping.{TestProblem, validate_property_tests}
use certora_aicomposer.Foundry.Runner.{Loaded}
use certora_aicomposer.Foundry.Tied.{Tied, validate_property_tests-Tied}
use certora_aicomposer.Foundry.Tools.{
  Action, publish_mapped, publish_checked, step, run, init_state, BatchFoundryResult, batch_result,
}
use certora_aicomposer.Foundry.History.{Event, Accepted, Passed, Ran, history, Backed}
use certora_aicomposer.Foundry.Steps.{run-Backed, run-required}

module _ (md5 : String → String) (loads : String → Loaded) (titles : List String) where
  -- The batch returns the draft with its skips, its mapping and the names of the tests that ran.
  pub record Certified (h : List Event) (commentary : String) (ms : List PropertyTestMapping)
      (before after : FoundryState) : Type 0 where
    pub draft : String
    pub ran : List String
    pub written : before.curr_test ≡ some draft
    pub named : before.last_test_names ≡ some ran
    pub accepted : Accepted md5 loads titles h (compute_digest md5 draft before.skipped)
    pub passed : Passed md5 loads titles h (compute_digest md5 draft before.skipped)
    pub names_ran : Ran md5 loads titles h ran
    pub tied : Tied ms (titles_of before.skipped) titles ran
    pub returned :
        batch_result after
        ≡ BatchFoundryResult.generated (record {
          commentary = commentary;
          test_source = draft;
          skipped = before.skipped;
          property_tests = ms;
          expected_failures = before.expected_failures;
          ran_tests = ran;
        })

  mapped-accepted :
      (commentary : String) (ms : List PropertyTestMapping) (ps : List TestProblem)
      (st : FoundryState)
      → st.failed ≡ none
      → (publish_mapped md5 loads commentary ms ps st).failed ≡ some false
      → ps ≡ []
  mapped-accepted commentary ms [] st n h = refl
  mapped-accepted commentary ms (p ∷ ps) st n h = cc (n, h)

  checked-accepted :
      (commentary : String) (ms : List PropertyTestMapping) (r : Option Rejection)
      (names : Option (List String)) (st : FoundryState)
      → st.failed ≡ none
      → (publish_checked md5 loads commentary ms titles r names st).failed ≡ some false
      → (r ≡ none)
        × ((ran : List String) × (names ≡ some ran)
            × (validate_property_tests ms st.skipped titles ran ≡ []))
  checked-accepted commentary ms (some r) names st n h = cc (n, h)
  checked-accepted commentary ms none none st n h = cc (n, h)
  checked-accepted commentary ms none (some ran) st n h = (
    refl,
    (
      ran,
      refl,
      mapped-accepted commentary ms (validate_property_tests ms st.skipped titles ran) st n h,
    ),
  )

  returned-Draft :
      (commentary draft : String) (ms : List PropertyTestMapping) (ran : List String)
      (st : FoundryState)
      → st.curr_test ≡ some draft
      → st.last_test_names ≡ some ran
      → (r : Option Rejection) (names : Option (List String)) → r ≡ none
      → names ≡ some ran
      → validate_property_tests ms st.skipped titles ran ≡ []
      → batch_result (publish_checked md5 loads commentary ms titles r names st)
        ≡ BatchFoundryResult.generated (record {
          commentary = commentary;
          test_source = draft;
          skipped = st.skipped;
          property_tests = ms;
          expected_failures = st.expected_failures;
          ran_tests = ran;
        })
  unfolding batch_result
  returned-Draft commentary draft ms ran st w n r names e f v = rw (e, f, v, w, n) refl

  publish-Backed :
      (h : List Event) (commentary : String) (ms : List PropertyTestMapping) (st : FoundryState)
      → Backed md5 loads titles h st
      → st.required_validations ≡ forge_test_validation_key ∷ feedback ∷ []
      → st.failed ≡ none
      → (step md5 loads titles (Action.publish commentary ms) st).failed ≡ some false
      → Certified h commentary ms st (step md5 loads titles (Action.publish commentary ms) st)
  unfolding step
  publish-Backed h commentary ms st b required open_run done =
      let a : (check_foundry_completion md5 st ≡ none)
          × ((ran : List String) × (st.last_test_names ≡ some ran)
              × (validate_property_tests ms st.skipped titles ran ≡ [])) =
        checked-accepted commentary ms (check_foundry_completion md5 st) st.last_test_names st
          open_run done in
      let g : (test : String) × (st.curr_test ≡ some test)
          × All (λ key. get key st.validations ≡ some (compute_digest md5 test st.skipped))
              st.required_validations =
        gate-none md5 titles st.validations st.required_validations st.skipped st.curr_test a.0 in
      let all : All (λ key. get key st.validations ≡ some (compute_digest md5 g.0 st.skipped))
          (forge_test_validation_key ∷ feedback ∷ []) =
        subst (All (λ key. get key st.validations ≡ some (compute_digest md5 g.0 st.skipped)))
          required g.2 in
      record {
        draft = g.0;
        ran = a.1.0;
        written = g.1;
        named = a.1.1;
        accepted = b.judge (compute_digest md5 g.0 st.skipped) all.1.0;
        passed = b.forge (compute_digest md5 g.0 st.skipped) all.0;
        names_ran = b.names a.1.0 a.1.1;
        tied = validate_property_tests-Tied ms st.skipped titles a.1.0 a.1.2;
        returned =
            returned-Draft commentary g.0 ms a.1.0 st g.1 a.1.1 (check_foundry_completion md5 st)
              st.last_test_names a.0 a.1.1 a.1.2;
      }

  begin-Backed : Backed md5 loads titles [] init_state
  unfolding get
  begin-Backed = record { judge = λ d e. cc e; forge = λ d e. cc e; names = λ ran e. cc e }

  -- If the agent publishes after any calls of its tools, none of which has published or given up, then
  -- the batch returns the draft, the skips and the mapping of that moment; the judge has accepted
  -- a draft and skips with their digest; a run of `forge` without a seed on a draft and skips with
  -- their digest has ended with the code zero, every failed test marked as expected to fail at that
  -- time and no test that passed; every title of the batch is skipped or mapped, and none is mapped
  -- twice; and each mapped property is of the batch, is not skipped and has tests, which are together
  -- those that a run has named.
  pub publish-Certified :
      (actions : List Action) (commentary : String) (ms : List PropertyTestMapping)
      → (run md5 loads titles actions init_state).failed ≡ none
      → (step md5 loads titles
          (Action.publish commentary ms)
          (run md5 loads titles actions init_state)).failed
        ≡ some false
      → Certified
          (history md5 loads titles actions init_state)
          commentary
          ms
          (run md5 loads titles actions init_state)
          (step md5 loads titles
            (Action.publish commentary ms)
            (run md5 loads titles actions init_state))
  publish-Certified actions commentary ms open_run done =
      publish-Backed (history md5 loads titles actions init_state) commentary ms
        (run md5 loads titles actions init_state)
        (run-Backed md5 loads titles [] actions init_state begin-Backed)
        (run-required md5 loads titles actions init_state) open_run done
