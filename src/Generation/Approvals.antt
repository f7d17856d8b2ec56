-- ===== src/Generation/Approvals.antt =====
-- What the stamps of composer/spec/cvl_generation.py rest on: a stamp in the state is the digest of a
-- text and skips that the judge or the prover has accepted.
use certora_aicomposer.Prelude.{
  String, Bool, true, false, List, [], ◌∷◌, Option, none, some, ◌≡◌, inl, inr, refl, sym, ap, ◌∙◌,
  subst, ◌&&◌, Bool-cases, append_assoc, if◌then◌else◌,
}
use mathlib.Core.List.{◌++◌}
use certora_aicomposer.Sets.{text_eq, In, In-append_left, In-append_right}
use certora_aicomposer.KeyMap.{get, put_all, get-put_self, get-put_ne, same-ne}
use certora_aicomposer.Printer.File.{pretty_print}
use certora_aicomposer.Generation.Types.{SkippedProperty, GenerationState}
use certora_aicomposer.Generation.Gate.{compute_digest, check_completion}
use certora_aicomposer.Generation.Mapping.{validate_property_rules}
use certora_aicomposer.Generation.Frame.{
  update-same, put_printed-same, edit_spec-same, skip_title-same, unskip_title-same, publish-same,
  silent_run-same, message-same,
}
use certora_aicomposer.Generation.Tools.{
  feedback_validation_key, validation_key, ProverRun, Action, maybe_update_cvl, put_printed,
  edit_spec, skip_title, unskip_title, all_verified, is_none, put_stamp, judged, verified, step,
  run,
}

-- The judge or the prover has accepted a text with skips.
pub record Approval : Type 0 where
  pub by : String
  pub spec : String
  pub skips : List SkippedProperty

-- The approvals of an action: the judge's, and the prover's for a run of all rules in which those are
-- verified that are not expected to fail.
abbrev pub approval : String → GenerationState → Option String → List Approval
approval key st none = []
approval key st (some spec) = record { by = key; spec = spec; skips = st.skipped } ∷ []

abbrev pub approvals_of : Action → GenerationState → List Approval
approvals_of (Action.feedback_tool good) st =
    if good then approval feedback_validation_key st st.curr_spec else []
approvals_of (Action.verify_spec rules (ProverRun.report link statuses)) st =
    if is_none rules && all_verified st.rule_skips statuses
    then approval validation_key st st.curr_spec
    else []
approvals_of _ st = []

module _ (md5 : String → String) (titles : List String) where
  abbrev pub approvals : List Action → GenerationState → List Approval
  approvals [] st = []
  approvals (a ∷ actions) st = approvals_of a st ++ approvals actions (step md5 titles a st)

  -- There is an approval of a text and skips with the digest.
  pub record Backed (history : List Approval) (key digest : String) : Type 0 where
    pub approval : Approval
    pub listed : In approval history
    pub by_key : approval.by ≡ key
    pub same_digest : compute_digest md5 approval.spec approval.skips ≡ digest

  Backed-left :
      (h k : List Approval) (key digest : String) → Backed h key digest → Backed (h ++ k) key digest
  Backed-left h k key digest b = record {
    approval = b.approval;
    listed = In-append_left b.approval h k b.listed;
    by_key = b.by_key;
    same_digest = b.same_digest;
  }

  -- Every stamp of the state is backed.
  unfoldable pub Stamped : List Approval → GenerationState → Type 0
  Stamped h st = (key digest : String) → get key st.validations ≡ some digest → Backed h key digest

  more-Stamped : (h k : List Approval) (st : GenerationState) → Stamped h st → Stamped (h ++ k) st
  unfolding Stamped
  more-Stamped h k st s key digest e = Backed-left h k key digest (s key digest e)

  -- A stamp of the text and the skips of the state, with its approval.
  put_stamp-Stamped :
      (h : List Approval) (key spec : String) (st : GenerationState)
      → st.curr_spec ≡ some spec
      → Stamped h st
      → Stamped
          (h ++ record { by = key; spec = spec; skips = st.skipped } ∷ [])
          (put_stamp md5 key st)
  unfolding Stamped put_all
  put_stamp-Stamped h key spec st e s j digest g = elim (Bool-cases (text_eq.same key j)) [
    | inl t ↦
        let same : key ≡ j = text_eq.same→eq key j t in
        let own : get key (put_stamp md5 key st).validations
            ≡ some (compute_digest md5 spec st.skipped) =
          rw e (get-put_self key _ st.validations) in
        record {
          approval = record { by = key; spec = spec; skips = st.skipped };
          listed = In-append_right _ h _ (inl refl);
          by_key = same;
          same_digest = cc (own, g, ap (λ i. get i (put_stamp md5 key st).validations) same);
        }
    | inr f ↦
        Backed-left h _ j digest
          (s j digest (sym (get-put_ne key j _ st.validations (same-ne key j f)) ∙ g))
  ]

  -- An action without approvals that keeps the stamps.
  kept-Stamped :
      (h : List Approval) (st next : GenerationState)
      → next.validations ≡ st.validations
      → Stamped h st
      → Stamped (h ++ []) next
  unfolding Stamped
  kept-Stamped h st next e s key digest g =
      Backed-left h [] key digest (s key digest (ap (get key) (sym e) ∙ g))

  judged-Stamped :
      (h : List Approval) (good : Bool) (o : Option String) (st : GenerationState)
      → st.curr_spec ≡ o
      → Stamped h st
      → Stamped
          (h ++ (if good then approval feedback_validation_key st o else []))
          (judged md5 good o st)
  judged-Stamped h true none st e s = kept-Stamped h st st refl s
  judged-Stamped h false none st e s = kept-Stamped h st st refl s
  judged-Stamped h false (some spec) st e s = kept-Stamped h st st refl s
  judged-Stamped h true (some spec) st e s = put_stamp-Stamped h feedback_validation_key spec st e s

  linked-Stamped :
      (h : List Approval) (st : GenerationState) (link : Option String)
      → Stamped h st
      → Stamped h (record st { prover_link = link })
  unfolding Stamped
  linked-Stamped h st link s key digest g = s key digest g

  reported-Stamped :
      (h : List Approval) (rules : Option (List String)) (link : Option String)
      (statuses : List (String × Bool)) (o : Option String) (st : GenerationState)
      → st.curr_spec ≡ o
      → Stamped h st
      → Stamped
          (h
            ++ (if is_none rules && all_verified st.rule_skips statuses
                then approval validation_key st o
                else []))
          (verified md5 rules (ProverRun.report link statuses) o st)
  reported-Stamped h rules link statuses none st e s =
      none_left (is_none rules && all_verified st.rule_skips statuses)
    where
      none_left : (b : Bool) → Stamped (h ++ (if b then [] else [])) st
      none_left true = kept-Stamped h st st refl s
      none_left false = kept-Stamped h st st refl s
  reported-Stamped h rules link statuses (some spec) st e s =
      either (is_none rules && all_verified st.rule_skips statuses)
    where
      either :
          (b : Bool)
          → Stamped (h ++ (if b then approval validation_key st (some spec) else [])) (
              if b
              then record (put_stamp md5 validation_key st) { prover_link = link }
              else record st { prover_link = link })
      either true =
          linked-Stamped _ (put_stamp md5 validation_key st) link
            (put_stamp-Stamped h validation_key spec st e s)
      either false = kept-Stamped h st (record st { prover_link = link }) refl s

  step-Stamped :
      (h : List Approval) (a : Action) (st : GenerationState)
      → Stamped h st
      → Stamped (h ++ approvals_of a st) (step md5 titles a st)
  unfolding step
  step-Stamped h (Action.put_cvl file checked) st s =
      kept-Stamped h st (put_printed (pretty_print file) checked st)
        (put_printed-same md5 titles (pretty_print file) checked st).0 s
  step-Stamped h (Action.put_cvl_raw pp checked) st s =
      kept-Stamped h st (maybe_update_cvl pp checked st) (update-same md5 titles pp checked st).0 s
  step-Stamped h (Action.edit_cvl old new checked) st s =
      kept-Stamped h st (edit_spec old new checked st.curr_spec st)
        (edit_spec-same md5 titles old new checked st.curr_spec st).0 s
  step-Stamped h (Action.feedback_tool good) st s = judged-Stamped h good st.curr_spec st refl s
  step-Stamped h (Action.record_skip title reason) st s =
      kept-Stamped h st (skip_title titles title reason st)
        (skip_title-same md5 titles title reason st).0 s
  step-Stamped h (Action.unskip_property title) st s =
      kept-Stamped h st (unskip_title titles title st) (unskip_title-same md5 titles title st).0 s
  step-Stamped h (Action.verify_spec rules (ProverRun.report link statuses)) st s =
      reported-Stamped h rules link statuses st.curr_spec st refl s
  step-Stamped h (Action.verify_spec rules (ProverRun.summarized link)) st s =
      kept-Stamped h st _ (silent_run-same md5 titles rules link st.curr_spec st).0 s
  step-Stamped h (Action.verify_spec rules ProverRun.message) st s =
      kept-Stamped h st _ (message-same md5 titles rules st.curr_spec st).0 s
  step-Stamped h (Action.expect_rule_failure rule reason) st s =
      kept-Stamped h st (step md5 titles (Action.expect_rule_failure rule reason) st) refl s
  step-Stamped h (Action.expect_rule_passage rule) st s =
      kept-Stamped h st (step md5 titles (Action.expect_rule_passage rule) st) refl s
  step-Stamped h (Action.publish commentary ms) st s =
      kept-Stamped h st (step md5 titles (Action.publish commentary ms) st)
        (publish-same md5 titles commentary ms (check_completion md5 st)
          (validate_property_rules ms st.skipped titles) st).0
        s
  step-Stamped h (Action.give_up reason) st s =
      kept-Stamped h st (step md5 titles (Action.give_up reason) st) refl s

  pub run-Stamped :
      (h : List Approval) (actions : List Action) (st : GenerationState)
      → Stamped h st
      → Stamped (h ++ approvals actions st) (run md5 titles actions st)
  unfolding run
  run-Stamped h [] st s = more-Stamped h [] st s
  run-Stamped h (a ∷ actions) st s =
      subst (λ k. Stamped k (run md5 titles (a ∷ actions) st))
        (append_assoc h (approvals_of a st) (approvals actions (step md5 titles a st)))
        (run-Stamped (h ++ approvals_of a st) actions (step md5 titles a st)
          (step-Stamped h a st s))
