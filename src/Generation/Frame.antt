-- ===== src/Generation/Frame.antt =====
-- What the tools of composer/spec/source/author.py keep of the state.
use certora_aicomposer.Prelude.{
  String, Bool, true, false, List, [], ◌∷◌, Option, none, some, ◌≡◌, refl, ◌∙◌, ◌&&◌, if◌then◌else◌,
}
use certora_aicomposer.Text.{strip, is_empty}
use certora_aicomposer.Sets.{text_eq, contains}
use certora_aicomposer.Printer.Lines.{Result}
use certora_aicomposer.Printer.File.{pretty_print}
use certora_aicomposer.Generation.Types.{PropertyRuleMapping, GenerationState}
use certora_aicomposer.Generation.Gate.{Rejection, check_completion}
use certora_aicomposer.Generation.Mapping.{Problem, validate_property_rules}
use certora_aicomposer.Generation.Edit.{Edit, replace_unique}
use certora_aicomposer.Generation.Tools.{
  validation_key, SyntaxCheck, ProverRun, Action, maybe_update_cvl, put_printed, put_edited,
  edit_spec, put_skip, skip_title, unskip_title, all_verified, is_none, put_stamp, judged, verified,
  publish_checked, step, run,
}

module _ (md5 : String → String) (titles : List String) where
  -- The stamps, the keys that are required and the skips stay.
  abbrev pub Kept : GenerationState → GenerationState → Type 0
  Kept next st =
      (next.validations ≡ st.validations)
      × (next.required_validations ≡ st.required_validations)
      × (next.skipped ≡ st.skipped)

  -- The stamps and the keys that are required stay.
  abbrev pub Framed : GenerationState → GenerationState → Type 0
  Framed next st =
      (next.validations ≡ st.validations) × (next.required_validations ≡ st.required_validations)

  pub update-same :
      (pp : String) (checked : SyntaxCheck) (st : GenerationState)
      → Kept (maybe_update_cvl pp checked st) st
  update-same pp SyntaxCheck.accepted st = (refl, refl, refl)
  update-same pp SyntaxCheck.rejected st = (refl, refl, refl)
  update-same pp SyntaxCheck.not_launched st = (refl, refl, refl)

  pub put_printed-same :
      (r : Result String) (checked : SyntaxCheck) (st : GenerationState)
      → Kept (put_printed r checked st) st
  put_printed-same (Result.ok pp) checked st = update-same pp checked st
  put_printed-same (Result.raise e) checked st = (refl, refl, refl)

  put_edited-same :
      (e : Edit) (checked : SyntaxCheck) (st : GenerationState) → Kept (put_edited e checked st) st
  put_edited-same (Edit.edited text) checked st = update-same text checked st
  put_edited-same Edit.absent checked st = (refl, refl, refl)
  put_edited-same (Edit.ambiguous n) checked st = (refl, refl, refl)

  pub edit_spec-same :
      (old new : String) (checked : SyntaxCheck) (o : Option String) (st : GenerationState)
      → Kept (edit_spec old new checked o st) st
  edit_spec-same old new checked none st = (refl, refl, refl)
  edit_spec-same old new checked (some spec) st =
      put_edited-same (replace_unique spec old new) checked st

  pub skip_title-same :
      (title reason : String) (st : GenerationState) → Framed (skip_title titles title reason st) st
  skip_title-same title reason st = either (contains title titles) (is_empty (strip reason))
    where
      either :
          (b c : Bool) → Framed (if b then (if c then st else put_skip title reason st) else st) st
      either true true = (refl, refl)
      either true false = (refl, refl)
      either false true = (refl, refl)
      either false false = (refl, refl)

  pub unskip_title-same :
      (title : String) (st : GenerationState) → Framed (unskip_title titles title st) st
  unskip_title-same title st = either (contains title titles)
    where
      either : (b : Bool) → Framed (if b then put_skip title "" st else st) st
      either true = (refl, refl)
      either false = (refl, refl)

  pub publish-same :
      (commentary : String) (ms : List PropertyRuleMapping) (r : Option Rejection)
      (problems : List Problem) (st : GenerationState)
      → Kept (publish_checked md5 commentary ms r problems st) st
  publish-same commentary ms none [] st = (refl, refl, refl)
  publish-same commentary ms none (p ∷ ps) st = (refl, refl, refl)
  publish-same commentary ms (some r) ps st = (refl, refl, refl)

  pub silent_run-same :
      (rules : Option (List String)) (link : Option String) (o : Option String)
      (st : GenerationState)
      → Kept (verified md5 rules (ProverRun.summarized link) o st) st
  silent_run-same rules link none st = (refl, refl, refl)
  silent_run-same rules link (some spec) st = (refl, refl, refl)

  pub message-same :
      (rules : Option (List String)) (o : Option String) (st : GenerationState)
      → Kept (verified md5 rules ProverRun.message o st) st
  message-same rules none st = (refl, refl, refl)
  message-same rules (some spec) st = (refl, refl, refl)

  pub judged-same :
      (good : Bool) (o : Option String) (st : GenerationState)
      → ((judged md5 good o st).required_validations ≡ st.required_validations)
        × ((judged md5 good o st).skipped ≡ st.skipped)
  judged-same good none st = (refl, refl)
  judged-same true (some spec) st = (refl, refl)
  judged-same false (some spec) st = (refl, refl)

  pub reported-same :
      (rules : Option (List String)) (link : Option String) (statuses : List (String × Bool))
      (o : Option String) (st : GenerationState)
      → ((verified md5 rules (ProverRun.report link statuses) o st).required_validations
          ≡ st.required_validations)
        × ((verified md5 rules (ProverRun.report link statuses) o st).skipped ≡ st.skipped)
  reported-same rules link statuses none st = (refl, refl)
  reported-same rules link statuses (some spec) st =
      either (is_none rules && all_verified st.rule_skips statuses)
    where
      after : Bool → GenerationState
      after b =
          if b
          then record (put_stamp md5 validation_key st) { prover_link = link }
          else record st { prover_link = link }

      either :
          (b : Bool)
          → ((after b).required_validations ≡ st.required_validations)
            × ((after b).skipped ≡ st.skipped)
      either true = (refl, refl)
      either false = (refl, refl)

  step-required :
      (a : Action) (st : GenerationState)
      → (step md5 titles a st).required_validations ≡ st.required_validations
  unfolding step
  step-required (Action.put_cvl file checked) st =
      (put_printed-same (pretty_print file) checked st).1
  step-required (Action.put_cvl_raw pp checked) st = (update-same pp checked st).1
  step-required (Action.edit_cvl old new checked) st =
      (edit_spec-same old new checked st.curr_spec st).1
  step-required (Action.feedback_tool good) st = (judged-same good st.curr_spec st).0
  step-required (Action.record_skip title reason) st = (skip_title-same title reason st).1
  step-required (Action.unskip_property title) st = (unskip_title-same title st).1
  step-required (Action.verify_spec rules (ProverRun.report link statuses)) st =
      (reported-same rules link statuses st.curr_spec st).0
  step-required (Action.verify_spec rules (ProverRun.summarized link)) st =
      (silent_run-same rules link st.curr_spec st).1
  step-required (Action.verify_spec rules ProverRun.message) st =
      (message-same rules st.curr_spec st).1
  step-required (Action.expect_rule_failure rule reason) st = refl
  step-required (Action.expect_rule_passage rule) st = refl
  step-required (Action.publish commentary ms) st =
      (publish-same commentary ms (check_completion md5 st)
        (validate_property_rules ms st.skipped titles) st).1
  step-required (Action.give_up reason) st = refl

  pub run-required :
      (actions : List Action) (st : GenerationState)
      → (run md5 titles actions st).required_validations ≡ st.required_validations
  unfolding run
  run-required [] st = refl
  run-required (a ∷ actions) st = run-required actions (step md5 titles a st) ∙ step-required a st
