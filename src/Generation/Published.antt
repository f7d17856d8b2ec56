-- ===== src/Generation/Published.antt =====
-- The gate of composer/spec/cvl_generation.py: a result is published only if the judge and the prover
-- have accepted the digest of the text and the skips at that time.
use text.Mathlib.TextEquality.{eq_iff}
use certora_aicomposer.Prelude.{
  String, true, false, List, [], ◌∷◌, Option, none, some, ◌≡◌, inl, inr, refl, ap, ◌∙◌, subst,
  Bool-cases, Option-cases,
}
use certora_aicomposer.Sets.{text_eq, All}
use certora_aicomposer.KeyMap.{get}
use certora_aicomposer.Generation.Types.{
  SkippedProperty, PropertyRuleMapping, ProverConfig, GenerationState,
}
use certora_aicomposer.Generation.Gate.{
  compute_digest, Rejection, satisfied, first_stale, gate, check_completion,
}
use certora_aicomposer.Generation.Mapping.{Problem, titles_of, validate_property_rules}
use certora_aicomposer.Generation.Mapped.{ValidMapping, validate_property_rules-ValidMapping}
use certora_aicomposer.Generation.Tools.{
  feedback_validation_key, validation_key, Action, publish_checked, step, run,
}
use certora_aicomposer.Generation.Approvals.{Approval, approvals, Backed, Stamped, run-Stamped}
use certora_aicomposer.Generation.Frame.{run-required}
use certora_aicomposer.Generation.Skips.{Declared, run-Declared}

module _ (md5 : String → String) (titles : List String) where
  -- What the gate tests of a key.
  satisfied-get :
      (validations : List (String × String)) (digest key : String)
      → satisfied md5 validations digest key ≡ true
      → get key validations ≡ some digest
  satisfied-get validations digest key h = elim (Option-cases (get key validations)) [
    | inl n ↦ cc (rw (satisfied, n) at h)
    | inr (stamped, n) ↦ n ∙ ap some ((eq_iff stamped digest).0 (rw (satisfied, n) at h))
  ]

  first_stale-satisfied :
      (validations : List (String × String)) (digest : String) (required : List String)
      → first_stale md5 validations digest required ≡ none
      → All (λ key. get key validations ≡ some digest) required
  unfolding first_stale
  first_stale-satisfied validations digest [] h = tt
  first_stale-satisfied validations digest (key ∷ required) h =
      elim (Bool-cases (satisfied md5 validations digest key)) [
        | inl t ↦ (
          satisfied-get validations digest key t,
          first_stale-satisfied validations digest required (rw t at h),
        )
        | inr f ↦ cc (rw f at h)
      ]

  All-Backed :
      (h : List Approval) (st : GenerationState) (digest : String) (required : List String)
      → Stamped md5 titles h st
      → All (λ key. get key st.validations ≡ some digest) required
      → All (λ key. Backed md5 titles h key digest) required
  unfolding Stamped
  All-Backed h st digest [] s a = tt
  All-Backed h st digest (key ∷ required) s a =
      (s key digest a.0, All-Backed h st digest required s a.1)

  -- A result is published: the text, its approvals and its mapping.
  pub record Published (history : List Approval) (st : GenerationState)
      (property_rules : List PropertyRuleMapping) : Type 0 where
    pub spec : String
    pub written : st.curr_spec ≡ some spec
    pub feedback :
        Backed md5 titles history feedback_validation_key (compute_digest md5 spec st.skipped)
    pub prover : Backed md5 titles history validation_key (compute_digest md5 spec st.skipped)
    pub mapping : ValidMapping property_rules (titles_of st.skipped) titles
    pub declared : Declared titles st.skipped

  -- The state with which `batch_cvl_generation` begins.
  abbrev pub begin : ProverConfig → GenerationState
  begin config = record {
    curr_spec = none;
    skipped = [];
    property_rules = [];
    validations = [];
    required_validations = feedback_validation_key ∷ validation_key ∷ [];
    rule_skips = [];
    config = config;
    prover_link = none;
    failed = none;
    result = none;
  }

  publish_checked-accepted :
      (commentary : String) (ms : List PropertyRuleMapping) (r : Option Rejection)
      (problems : List Problem) (st : GenerationState)
      → st.failed ≡ none
      → (publish_checked md5 commentary ms r problems st).failed ≡ some false
      → (r ≡ none) × (problems ≡ [])
  publish_checked-accepted commentary ms none [] st n h = (refl, refl)
  publish_checked-accepted commentary ms none (p ∷ ps) st n h = cc (n, h)
  publish_checked-accepted commentary ms (some r) ps st n h = cc (n, h)

  pub gate-none :
      (validations : List (String × String)) (required : List String) (skips : List SkippedProperty)
      (o : Option String)
      → gate md5 validations required skips o ≡ none
      → (spec : String) × (o ≡ some spec)
        × All (λ key. get key validations ≡ some (compute_digest md5 spec skips)) required
  gate-none validations required skips none h = cc h
  gate-none validations required skips (some spec) h =
      (spec, refl, first_stale-satisfied validations (compute_digest md5 spec skips) required h)

  publish-Published :
      (h : List Approval) (commentary : String) (ms : List PropertyRuleMapping)
      (st : GenerationState)
      → Stamped md5 titles h st
      → Declared titles st.skipped
      → st.required_validations ≡ feedback_validation_key ∷ validation_key ∷ []
      → st.failed ≡ none
      → (step md5 titles (Action.publish commentary ms) st).failed ≡ some false
      → Published h st ms
  unfolding step
  publish-Published h commentary ms st s declared required open_run done =
      let a : (check_completion md5 st ≡ none)
          × (validate_property_rules ms st.skipped titles ≡ []) =
        publish_checked-accepted commentary ms (check_completion md5 st)
          (validate_property_rules ms st.skipped titles) st open_run done in
      let g : (spec : String) × (st.curr_spec ≡ some spec)
          × All (λ key. get key st.validations ≡ some (compute_digest md5 spec st.skipped))
              st.required_validations =
        gate-none st.validations st.required_validations st.skipped st.curr_spec a.0 in
      let b : All (λ key. Backed md5 titles h key (compute_digest md5 g.0 st.skipped))
          (feedback_validation_key ∷ validation_key ∷ []) =
        subst (All (λ key. Backed md5 titles h key (compute_digest md5 g.0 st.skipped))) required
          (All-Backed h st (compute_digest md5 g.0 st.skipped) st.required_validations s g.2) in
      record {
        spec = g.0;
        written = g.1;
        feedback = b.0;
        prover = b.1.0;
        mapping = validate_property_rules-ValidMapping st.skipped titles ms a.1;
        declared = declared;
      }

  begin-Stamped : (config : ProverConfig) → Stamped md5 titles [] (begin config)
  unfolding Stamped get
  begin-Stamped config key digest e = cc e

  -- If the agent publishes a result after any calls of its tools, none of which has published or given
  -- up, then there is a text; the judge has accepted a text and skips with the digest of this text
  -- and the skips of the state, and so has the prover in a run of all rules; the mapping that is
  -- published is valid for the skips, which are of different properties of the batch, each with a
  -- reason.
  pub publish-Approved :
      (config : ProverConfig) (actions : List Action) (commentary : String)
      (ms : List PropertyRuleMapping)
      → (run md5 titles actions (begin config)).failed ≡ none
      → (step md5 titles
          (Action.publish commentary ms)
          (run md5 titles actions (begin config))).failed
        ≡ some false
      → Published
          (approvals md5 titles actions (begin config))
          (run md5 titles actions (begin config))
          ms
  publish-Approved config actions commentary ms open_run done =
      publish-Published (approvals md5 titles actions (begin config)) commentary ms
        (run md5 titles actions (begin config))
        (run-Stamped md5 titles [] actions (begin config) (begin-Stamped config))
        (run-Declared titles md5 actions (begin config)
          (record { once = tt; known = tt; reasoned = tt }))
        (run-required md5 titles actions (begin config)) open_run done
