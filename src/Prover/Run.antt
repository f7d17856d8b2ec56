-- ===== src/Prover/Run.antt =====
-- composer/prover/core.py: the options of a run, `run_prover` with the callbacks that it makes, and the
-- status of each rule in its report. The process, the cloud, the directories of results, the analysis
-- of a counterexample, the template of the report, and times with the five minutes that are added to
-- one (`grace`) are parameters. The analyses run concurrently:
-- their callbacks are listed here rule by rule, and the messages of errors without their texts.
use text.Mathlib.Text.{◌==◌}
use mathlib.Core.List.{◌++◌}
use certora_aicomposer.Prelude.{
  ℕ, suc, String, Bool, true, false, not, List, [], ◌∷◌, Option, none, some, map, ltb,
  if◌then◌else◌,
}
use certora_aicomposer.Text.{rstrip_of}
use certora_aicomposer.Sets.{text_eq, contains}
use certora_aicomposer.KeyMap.{get, put, values_of}
use certora_aicomposer.Dict.{Dict}
use certora_aicomposer.Prover.Types.{StatusCodes, RuleResult, CallTraceModel}
use certora_aicomposer.Prover.TreeView.Flatten.{Result}
use certora_aicomposer.Prover.TreeView.Final.{StatusFile, RunResult, read_and_format_run_result}

pub record ProverOptions : Type 0 where
  pub extra_args : List String

abbrev pub cloud : ProverOptions → Bool
cloud opts = contains "--server" opts.extra_args

-- `extra_args[extra_args.index(flag) + 1]`; `none` for an index that is out of range.
unfoldable pub argument_of : String → List String → Option String
argument_of flag [] = none
argument_of flag (a ∷ args) =
    let later = argument_of flag args in
    if a == flag then elim args [ [] ↦ none | b ∷ rest ↦ some b ] else later

-- `ProverOptions.global_timeout`, by the parser of numbers; `none` for an error.
unfoldable pub global_timeout : {F : Type 0} → F → (String → Option F) → ProverOptions → Option F
global_timeout default to_float opts =
    if contains "--global_timeout" opts.extra_args
    then elim (argument_of "--global_timeout" opts.extra_args) [ none ↦ none | some t ↦ to_float t ]
    else some default

unfoldable pub make_prover_options : String → Bool → ProverOptions
make_prover_options server true = record {
  extra_args = "--global_timeout" ∷ "1200" ∷ "--server" ∷ server ∷ [];
}
make_prover_options server false = record { extra_args = [] }

-- composer/prover/prover_protocol.py: no result, a failure, or a success with its link.
pub data ProverResult : Type 0 where
  no_result : ProverResult
  failure : (exc_str : String) → ProverResult
  success : (is_local_link : Bool) (link : Option String) → ProverResult

-- The process has ended: its lines on the standard output, whether its code is zero, and its result.
pub record Process : Type 0 where
  pub lines : List String
  pub exit_zero : Bool
  pub run_result : ProverResult

-- A directory of results, as `read_and_format_run_result` reads it.
pub record ResultsDir : Type 0 where
  pub load : ℕ → StatusFile
  pub read_dump : String → Option (Option CallTraceModel)
  pub files : List (Option ℕ)

pub data Event : Type 0 where
  prover_run : List String → Event
  stdout_line : String → Event
  cloud_poll : String → String → Event
  prover_link : String → Event
  prover_result : Dict RuleResult → Event
  analysis_start : RuleResult → Event
  analysis_complete : RuleResult → String → Event
  rule_result : RuleResult → Option String → Event

-- Why a run returns a text or raises.
pub data Failure : Type 0 where
  verification_failed no_results prover_raised not_local not_parsed : Failure
  bad_timeout cloud_failed reading_failed : Failure

pub record ProverReport : Type 0 where
  pub report : String
  pub rule_status : List (String × Bool)
  pub link : String

pub data Outcome : Type 0 where
  message : Failure → Outcome
  raised : Failure → Outcome
  raw : ProverReport → Outcome
  summarized : ProverReport → String → Outcome

pub record Run : Type 0 where
  pub events : List Event
  pub outcome : Outcome

abbrev pub told : List Event → Run → Run
told es r = record { events = es ++ r.events; outcome = r.outcome }

abbrev pub ended : Outcome → Run
ended o = record { events = []; outcome = o }

abbrev pub is_verified : StatusCodes → Bool
is_verified StatusCodes.verified = true
is_verified _ = false

abbrev pub is_violated : StatusCodes → Bool
is_violated StatusCodes.violated = true
is_violated _ = false

-- `rule_name in prover_report and not prover_report[rule_name]`
abbrev pub is_falsified : Option Bool → Bool
is_falsified none = false
is_falsified (some b) = not b

unfoldable pub put_status : List (String × Bool) → RuleResult → List (String × Bool)
put_status prover_report i =
    if is_falsified (get i.path.rule prover_report)
    then prover_report
    else put i.path.rule (is_verified i.status) prover_report

unfoldable pub rule_statuses : List (String × Bool) → List RuleResult → List (String × Bool)
rule_statuses prover_report [] = prover_report
rule_statuses prover_report (i ∷ rest) = rule_statuses (put_status prover_report i) rest

unfoldable pub failed_count : List RuleResult → ℕ
failed_count [] = 0
failed_count (i ∷ rest) =
    let failed = failed_count rest in if is_verified i.status then failed else suc failed

-- `RawReport.all_verified`
unfoldable pub all_true : List (String × Bool) → Bool
all_true [] = true
all_true ((k, b) ∷ statuses) = let rest = all_true statuses in if b then rest else false

-- A handler of counterexamples, which may summarize a report with more failures than its threshold.
pub data CexHandler : Type 0 where
  plain : CexHandler
  summarizing : ℕ → (String → String) → CexHandler

unfoldable pub report_outcome : CexHandler → ℕ → ProverReport → Outcome
report_outcome CexHandler.plain failed r = Outcome.raw r
report_outcome (CexHandler.summarizing threshold summarize) failed r =
    if ltb threshold failed then Outcome.summarized r (summarize r.report) else Outcome.raw r

-- The callback of each line that is read.
abbrev pub line_events : List String → List Event
line_events lines = map (λ l. Event.stdout_line (rstrip_of 10 l)) lines

abbrev pub poll_callbacks : List (String × String) → List Event
poll_callbacks polls = map (λ p. Event.cloud_poll p.0 p.1) polls

module _ (analyze_cex : RuleResult → Option String)
    (render : List (RuleResult × Option String) → String) where
  -- `_analyze`
  unfoldable pub analyzed : RuleResult → Option String
  analyzed rule = if is_violated rule.status then analyze_cex rule else none

  abbrev completed : RuleResult → Option String → List Event
  completed rule none = []
  completed rule (some analysis) = Event.analysis_complete rule analysis ∷ []

  unfoldable pub analysis_events : RuleResult → List Event
  analysis_events rule =
      if is_violated rule.status
      then Event.analysis_start rule ∷ completed rule (analyze_cex rule)
      else []

  unfoldable pub all_analysis_events : List RuleResult → List Event
  all_analysis_events [] = []
  all_analysis_events (r ∷ rules) = analysis_events r ++ all_analysis_events rules

  abbrev pub with_analysis : List RuleResult → List (RuleResult × Option String)
  with_analysis rules = map (λ r. (r, analyzed r)) rules

  abbrev pub rule_events : List RuleResult → List Event
  rule_events rules = map (λ r. Event.rule_result r (analyzed r)) rules

  -- The report of the results that were read.
  abbrev pub report_of : String → List RuleResult → ProverReport
  report_of link rules = record {
    report = render (with_analysis rules);
    rule_status = rule_statuses [] rules;
    link = link;
  }

  abbrev pub reported : CexHandler → String → Dict RuleResult → Run
  reported cex link parsed =
      let rules : List RuleResult = values_of parsed in
      told (Event.prover_result parsed ∷ (all_analysis_events rules ++ rule_events rules))
        (ended (report_outcome cex (failed_count rules) (report_of link rules)))

  abbrev pub formatted : CexHandler → String → Result RunResult → Run
  formatted cex link (Result.raise e) = ended (Outcome.raised Failure.reading_failed)
  formatted cex link (Result.ok (RunResult.message text)) =
      ended (Outcome.message Failure.not_parsed)
  formatted cex link (Result.ok (RunResult.results parsed)) = reported cex link parsed

  abbrev pub read_from : CexHandler → String → ResultsDir → Run
  read_from cex link dir =
      formatted cex link (read_and_format_run_result dir.load dir.read_dump dir.files)

  module _ {F : Type 0} (default_global_timeout : F) (to_float : String → Option F) (grace : F → F)
      (spawn : List String → Process)
      (cloud_dir : F → String → List (String × String) × Option ResultsDir)
      (local_dir : String → ResultsDir) where
    abbrev pub polled_dir : CexHandler → String → List (String × String) × Option ResultsDir → Run
    polled_dir cex link (polls, none) =
        told (poll_callbacks polls) (ended (Outcome.raised Failure.cloud_failed))
    polled_dir cex link (polls, some dir) = told (poll_callbacks polls) (read_from cex link dir)

    abbrev pub retrieved_cloud : CexHandler → String → Option F → Run
    retrieved_cloud cex link none = ended (Outcome.raised Failure.bad_timeout)
    retrieved_cloud cex link (some timeout) = polled_dir cex link (cloud_dir (grace timeout) link)

    abbrev pub retrieved : ProverOptions → CexHandler → Bool → String → Run
    retrieved opts cex is_local link =
        if cloud opts
        then retrieved_cloud cex link (global_timeout default_global_timeout to_float opts)
        else (if is_local
            then read_from cex link (local_dir link)
            else ended (Outcome.message Failure.not_local))

    abbrev pub after_process : ProverOptions → CexHandler → ProverResult → Run
    after_process opts cex ProverResult.no_result = ended (Outcome.message Failure.no_results)
    after_process opts cex (ProverResult.failure exc_str) =
        ended (Outcome.message Failure.prover_raised)
    after_process opts cex (ProverResult.success is_local none) =
        ended (Outcome.message Failure.no_results)
    after_process opts cex (ProverResult.success is_local (some link)) =
        told (Event.prover_link link ∷ []) (retrieved opts cex is_local link)

    abbrev pub after_exit : ProverOptions → CexHandler → Bool → ProverResult → Run
    after_exit opts cex true run_result = after_process opts cex run_result
    after_exit opts cex false run_result = ended (Outcome.message Failure.verification_failed)

    unfoldable pub run_prover : List String → ProverOptions → CexHandler → Run
    run_prover args prover_opts cex =
        let effective_args : List String = args ++ prover_opts.extra_args in
        let proc : Process = spawn effective_args in
        told (Event.prover_run effective_args ∷ line_events proc.lines)
          (after_exit prover_opts cex proc.exit_zero proc.run_result)
