-- ===== src/Examples/ProverRun.antt =====
-- A run of the prover: composer/prover/core.py on a local directory with one rule, its stamp, and a job in
-- the cloud that succeeds at the second poll.
use certora_aicomposer.Prelude.{
  ℕ, zero, suc, String, Bool, true, false, List, [], ◌∷◌, Option, none, some, ◌≡◌, ◌≢◌, ◌↔◌, refl,
  sym, ap, ◌∙◌,
}
use certora_aicomposer.Text.{rstrip_of, lstrip_of}
use certora_aicomposer.Sets.{text_eq, contains}
use certora_aicomposer.KeyMap.{get, put, put_all}
use certora_aicomposer.Dict.{insert}
use certora_aicomposer.Prover.Types.{StatusCodes, RuleResult, RuleNodeModel, NodeList, pprint}
use certora_aicomposer.Prover.TreeView.Flatten.{
  flatten_tree_view_root, flatten_tree_view, node_results, to_status_string, failed_results, any_of,
  any_other, effective_path,
}
use certora_aicomposer.Prover.TreeView.Final.{
  StatusFile, final_index, keep_greater, get_final_treeview, format_rules, format_results,
  read_and_format_run_result,
}
use certora_aicomposer.Prover.Run.{
  ProverOptions, make_prover_options, cloud, argument_of, global_timeout, ProverResult, Process,
  ResultsDir, ProverReport, Run, CexHandler, put_status, rule_statuses, failed_count,
  report_outcome, analyzed, analysis_events, all_analysis_events, run_prover,
}
use certora_aicomposer.Prover.Statuses.{AllVerified, HasRule, rule_statuses-AllVerified}
use certora_aicomposer.Prover.Reading.{report_in}
use certora_aicomposer.Prover.Reported.{Reported, run_prover-Reported}
use certora_aicomposer.Prover.Cloud.{
  CloudJob, ParsedUrl, job_data_url, parse_cloud_link, path_parts, split_slash, non_empty, JobData,
  status_of, poll_job, Extracted, ResultsRoot, find_results_root, CloudResults, has_question,
  full_url, cloud_results, poll_events,
}
use certora_aicomposer.Prover.Polled.{Succeeded, cloud_results-Succeeded}
use certora_aicomposer.Generation.Types.{GenerationState}
use certora_aicomposer.Generation.Tools.{step, all_verified, is_none}
use certora_aicomposer.Generation.Verified.{verify_spec, Verified, verify_spec-Verified}

abbrev solvent : RuleNodeModel
solvent = RuleNodeModel.node "solvent" [] NodeList.no_nodes (some "VERIFIED") "ROOT" []

abbrev results_dir : String → ResultsDir
results_dir link = record {
  load = λ n. StatusFile.valid (solvent ∷ []);
  read_dump = λ f. some none;
  files = some 0 ∷ [];
}

abbrev no_cloud : ℕ → String → List (String × String) × Option ResultsDir
no_cloud timeout link = ([], none)

abbrev spawn : List String → Process
spawn args = record {
  lines = "started\n" ∷ [];
  exit_zero = true;
  run_result = ProverResult.success true (some "out");
}

abbrev no_cex : RuleResult → Option String
no_cex r = none

abbrev render : List (RuleResult × Option String) → String
render rs = "report"

abbrev no_number : String → Option ℕ
no_number s = none

abbrev same_time : ℕ → ℕ
same_time n = n

abbrev local : ProverOptions
local = record { extra_args = [] }

abbrev solvent_run : Run
solvent_run =
    run_prover no_cex render 1200 no_number same_time spawn no_cloud results_dir
      ("verify.conf" ∷ []) local CexHandler.plain

abbrev solvent_report : ProverReport
solvent_report = record { report = "report"; rule_status = ("solvent", true) ∷ []; link = "out" }

reported : report_in solvent_run.outcome ≡ some solvent_report
unfolding run_prover contains rstrip_of read_and_format_run_result get_final_treeview final_index
    keep_greater format_rules flatten_tree_view_root flatten_tree_view node_results to_status_string
    failed_results any_of any_other effective_path format_results insert pprint rule_statuses
    put_status get put failed_count report_outcome analyzed all_analysis_events analysis_events
reported = refl

run_prover-Reported_example :
    Reported no_cex render 1200 no_number same_time spawn no_cloud results_dir local
      CexHandler.plain true
      (ProverResult.success true (some "out"))
      solvent_run
      solvent_report
run_prover-Reported_example =
    run_prover-Reported no_cex render 1200 no_number same_time spawn no_cloud results_dir
      ("verify.conf" ∷ []) local CexHandler.plain solvent_report reported

abbrev solvent_state : GenerationState
solvent_state = record {
  curr_spec = some "rule solvent";
  skipped = [];
  property_rules = [];
  validations = [];
  required_validations = [];
  rule_skips = [];
  config = record { files = none; link = none };
  prover_link = none;
  failed = none;
  result = none;
}

abbrev same_text : String → String
same_text s = s

-- Whether there is a stamp.
abbrev any_stamp : List (String × String) → Bool
any_stamp [] = false
any_stamp (e ∷ stamps) = true

stamped :
    any_stamp (verify_spec same_text [] none solvent_run.outcome solvent_state).validations ≡ true
unfolding run_prover contains rstrip_of read_and_format_run_result get_final_treeview final_index
    keep_greater format_rules flatten_tree_view_root flatten_tree_view node_results to_status_string
    failed_results any_of any_other effective_path format_results insert pprint rule_statuses
    put_status get put put_all failed_count report_outcome analyzed all_analysis_events
    analysis_events verify_spec step all_verified
stamped = refl

changed :
    (verify_spec same_text [] none solvent_run.outcome solvent_state).validations
    ≢ solvent_state.validations
changed = λ e. cc (sym stamped ∙ ap any_stamp e)

verify_spec-Verified_example :
    (is_none none ≡ true) × Verified same_text [] solvent_state solvent_run
verify_spec-Verified_example =
    verify_spec-Verified same_text [] no_cex render 1200 no_number same_time spawn no_cloud
      results_dir none ("verify.conf" ∷ []) local CexHandler.plain solvent_state changed

abbrev two_results : List RuleResult
two_results =
    record {
      path = record { rule = "r"; contract = none; method = some "f()"; sanity = false };
      cex_dump = none;
      status = StatusCodes.verified;
      error_messages = [];
    }
    ∷ record {
      path = record { rule = "r"; contract = none; method = some "g()"; sanity = false };
      cex_dump = none;
      status = StatusCodes.timeout;
      error_messages = [];
    }
    ∷ []

timed_out : rule_statuses [] two_results ≡ ("r", false) ∷ []
unfolding rule_statuses put_status get put
timed_out = refl

rule_statuses-AllVerified_example :
    (get "r" (rule_statuses [] two_results) ≡ some true)
    ↔ (AllVerified "r" two_results × HasRule "r" two_results)
rule_statuses-AllVerified_example = rule_statuses-AllVerified "r" two_results

abbrev urlparse : String → ParsedUrl
urlparse link = record {
  scheme = "https";
  netloc = "prover.certora.com";
  path = "/jobStatus/7/abc";
  query = "anonymousKey=k";
}

abbrev parse_qs : String → List (String × List String)
parse_qs query = ("anonymousKey", "k" ∷ []) ∷ []

-- The first answer says that the job runs, and every later one that it has succeeded.
abbrev answers : String → ℕ → Option JobData
answers url zero = some (record { job_status = some "RUNNING"; zip_output_url = none })
answers url (suc n) = some (record { job_status = some "SUCCEEDED"; zip_output_url = some "z" })

abbrev download : String → Option Extracted
download url = some (record { children = ("TarName", true) ∷ []; has_reports = false })

abbrev job : CloudJob
job = record {
  base_url = "https://prover.certora.com";
  user_id = "7";
  job_id = "abc";
  anonymous_key = "k";
}

parsed_job : parse_cloud_link urlparse parse_qs "link" ≡ some job
unfolding parse_cloud_link path_parts split_slash non_empty lstrip_of rstrip_of get
parsed_job = refl

polled_twice : cloud_results download urlparse parse_qs answers 3 "link" ≡ (
  ("RUNNING", "Cloud job abc: RUNNING") ∷ ("SUCCEEDED", "Cloud job abc: SUCCEEDED") ∷ [],
  CloudResults.yielded (ResultsRoot.child "TarName"),
)
unfolding cloud_results parse_cloud_link path_parts split_slash non_empty lstrip_of rstrip_of get
    poll_job status_of contains poll_events has_question full_url find_results_root job_data_url
polled_twice = refl

cloud_results-Succeeded_example :
    Succeeded download
      (parse_cloud_link urlparse parse_qs "link")
      answers
      3
      (ResultsRoot.child "TarName")
cloud_results-Succeeded_example =
    cloud_results-Succeeded download urlparse parse_qs answers 3 "link"
      (ResultsRoot.child "TarName") (ap (λ p. p.1) polled_twice)

cloud_options :
    (cloud (make_prover_options "production" true) ≡ true)
    × (global_timeout 7 no_number (make_prover_options "production" false) ≡ some 7)
unfolding make_prover_options contains global_timeout argument_of
cloud_options = (refl, refl)
