-- ===== src/Generation/Tools.antt =====
-- The tools of the agent that writes specifications for source code, each a change of its state:
-- composer/cvl/tools.py, composer/spec/cvl_generation.py, composer/spec/source/author.py and
-- `verify_spec` of composer/spec/source/prover.py. An action has what comes from outside, the
-- arguments of the agent and the answers of the parser, the judge and the prover. The messages to the
-- agent are left out; a tool that only answers leaves the state.
use certora_aicomposer.Prelude.{
  String, Bool, true, false, List, [], ◌∷◌, Option, none, some, ◌&&◌, if◌then◌else◌,
}
use certora_aicomposer.Text.{strip, is_empty}
use certora_aicomposer.Sets.{text_eq, contains}
use certora_aicomposer.KeyMap.{get}
use certora_aicomposer.Cvl.Block.{CvlFile}
use certora_aicomposer.Printer.Lines.{Result}
use certora_aicomposer.Printer.File.{pretty_print}
use certora_aicomposer.Generation.Types.{PropertyRuleMapping, GenerationState}
use certora_aicomposer.Generation.Gate.{
  merge_validation, delete_skip, merge_rule_skips, merge_skips, Rejection, check_completion, stamp,
}
use certora_aicomposer.Generation.Mapping.{Problem, validate_property_rules}
use certora_aicomposer.Generation.Edit.{Edit, replace_unique}

abbrev pub feedback_validation_key : String
feedback_validation_key = "feedback"

abbrev pub validation_key : String
validation_key = "prover"

-- The syntax checker could not be launched, or it ended with the status zero or not.
pub data SyntaxCheck : Type 0 where
  not_launched rejected accepted : SyntaxCheck

-- What `run_prover` gives: a message, `SummarizedReport` with its link, or the report with its link
-- and the status of each rule.
pub data ProverRun : Type 0 where
  message : ProverRun
  summarized : Option String → ProverRun
  report : Option String → List (String × Bool) → ProverRun

pub data Action : Type 0 where
  put_cvl : CvlFile → SyntaxCheck → Action
  put_cvl_raw : String → SyntaxCheck → Action
  edit_cvl : String → String → SyntaxCheck → Action
  feedback_tool : Bool → Action
  record_skip : String → String → Action
  unskip_property : String → Action
  verify_spec : Option (List String) → ProverRun → Action
  expect_rule_failure : String → String → Action
  expect_rule_passage : String → Action
  publish : String → List PropertyRuleMapping → Action
  give_up : String → Action

-- `maybe_update_cvl`
abbrev pub maybe_update_cvl : String → SyntaxCheck → GenerationState → GenerationState
maybe_update_cvl pp SyntaxCheck.accepted st = record st { curr_spec = some pp }
maybe_update_cvl pp _ st = st

-- `put_cvl`: a file that the printer rejects is not put.
abbrev pub put_printed : Result String → SyntaxCheck → GenerationState → GenerationState
put_printed (Result.ok pp) checked st = maybe_update_cvl pp checked st
put_printed (Result.raise _) checked st = st

abbrev pub put_edited : Edit → SyntaxCheck → GenerationState → GenerationState
put_edited (Edit.edited new_text) checked st = maybe_update_cvl new_text checked st
put_edited _ checked st = st

abbrev pub edit_spec :
    String → String → SyntaxCheck → Option String → GenerationState → GenerationState
edit_spec old new checked none st = st
edit_spec old new checked (some spec) st = put_edited (replace_unique spec old new) checked st

-- The reducer of `skipped`, for one entry.
abbrev pub put_skip : String → String → GenerationState → GenerationState
put_skip title reason st = record st {
  skipped = merge_skips st.skipped (record { property_title = title; reason = reason } ∷ []);
}

abbrev pub skip_title : List String → String → String → GenerationState → GenerationState
skip_title titles title reason st =
    if contains title titles
    then (if is_empty (strip reason) then st else put_skip title reason st)
    else st

abbrev pub unskip_title : List String → String → GenerationState → GenerationState
unskip_title titles title st = if contains title titles then put_skip title "" st else st

-- The loop over the statuses of the rules.
unfoldable pub all_verified : List (String × String) → List (String × Bool) → Bool
all_verified rule_skips [] = true
all_verified rule_skips ((r, stat) ∷ statuses) =
    let rest = all_verified rule_skips statuses in
    elim (get r rule_skips) [ some _ ↦ rest | none ↦ if stat then rest else false ]

abbrev pub is_none : Option (List String) → Bool
is_none none = true
is_none (some _) = false

module _ (md5 : String → String) where
  abbrev pub put_stamp : String → GenerationState → GenerationState
  put_stamp key st = record st { validations = merge_validation st.validations (stamp md5 key st) }

  abbrev pub judged : Bool → Option String → GenerationState → GenerationState
  judged good none st = st
  judged good (some spec) st = if good then put_stamp feedback_validation_key st else st

  abbrev pub reported : Option (List String) → ProverRun → GenerationState → GenerationState
  reported rules ProverRun.message st = st
  reported rules (ProverRun.summarized link) st = record st { prover_link = link }
  reported rules (ProverRun.report link statuses) st =
      if is_none rules && all_verified st.rule_skips statuses
      then record (put_stamp validation_key st) { prover_link = link }
      else record st { prover_link = link }

  abbrev pub verified :
      Option (List String) → ProverRun → Option String → GenerationState → GenerationState
  verified rules run none st = st
  verified rules run (some spec) st = reported rules run st

  abbrev pub publish_checked :
      String
      → List PropertyRuleMapping
      → Option Rejection
      → List Problem
      → GenerationState
      → GenerationState
  publish_checked commentary property_rules none [] st = record st {
    result = some commentary;
    property_rules = property_rules;
    failed = some false;
  }
  publish_checked commentary property_rules _ _ st = st

  unfoldable pub step : List String → Action → GenerationState → GenerationState
  step titles (Action.put_cvl file checked) st = put_printed (pretty_print file) checked st
  step titles (Action.put_cvl_raw pp checked) st = maybe_update_cvl pp checked st
  step titles (Action.edit_cvl old new checked) st = edit_spec old new checked st.curr_spec st
  step titles (Action.feedback_tool good) st = judged good st.curr_spec st
  step titles (Action.record_skip title reason) st = skip_title titles title reason st
  step titles (Action.unskip_property title) st = unskip_title titles title st
  step titles (Action.verify_spec rules run) st = verified rules run st.curr_spec st
  step titles (Action.expect_rule_failure rule reason) st = record st {
    rule_skips = merge_rule_skips st.rule_skips ((rule, reason) ∷ []);
  }
  step titles (Action.expect_rule_passage rule) st = record st {
    rule_skips = merge_rule_skips st.rule_skips ((rule, delete_skip) ∷ []);
  }
  step titles (Action.publish commentary property_rules) st =
      publish_checked commentary property_rules (check_completion md5 st)
        (validate_property_rules property_rules st.skipped titles) st
  step titles (Action.give_up reason) st = record st { result = some reason; failed = some true }

  unfoldable pub run : List String → List Action → GenerationState → GenerationState
  run titles [] st = st
  run titles (a ∷ actions) st = run titles actions (step titles a st)
