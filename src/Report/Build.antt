-- ===== src/Report/Build.antt =====
-- `run_autoprove_report` of composer/spec/source/report/build.py. Parameters: those of
-- Report/Collect.antt, and the call of the language model, which has no result if it raises. The time
-- stamp and the log are left out.
use certora_aicomposer.Prelude.{
  String, Bool, true, false, List, [], ◌∷◌, Option, none, some, map, if◌then◌else◌,
}
use certora_aicomposer.Text.{truthy}
use certora_aicomposer.Dict.{Dict, insert}
use certora_aicomposer.Sets.{pair_eq}
use certora_aicomposer.KeyMap.{put_all}
use certora_aicomposer.Report.Verdict.{NodeStatus, CheckResult}
use certora_aicomposer.Report.Schema.{
  RuleRef, RuleVerdict, FormalizedProperty, PropertyGroup, CoverageReport, AutoProverReport,
}
use certora_aicomposer.Report.Grouping.{PropertyGroupDraft, build_groups, build_fallback_grouping}
use certora_aicomposer.Report.Coverage.{Validation, all_members, keyed, validate}
use certora_aicomposer.Report.Collect.{ReportComponentInput, rule_ref, Inputs, collect}

-- `{c.name: c.prover_link for c in components if c.prover_link}`
unfoldable pub prover_links : List ReportComponentInput → Dict String → Dict String
prover_links [] links = links
prover_links (c ∷ components) links =
    prover_links components
      (elim (truthy c.prover_link) [ some link ↦ insert c.name link links | none ↦ links ])

-- `not properties or grouped`
unfoldable pub covers_some : List FormalizedProperty → List PropertyGroup → Bool
covers_some [] groups = true
covers_some (p ∷ properties) groups = elim (all_members groups) [ [] ↦ false | _ ∷ _ ↦ true ]

module _ (Seconds : Type 0) where
  -- `{r.ref: r.status for r in rules}`
  abbrev pub statuses : List (RuleVerdict Seconds) → List (RuleRef × NodeStatus)
  statuses rules = put_all [] (map entry rules)
    where
      entry : RuleVerdict Seconds → RuleRef × NodeStatus
      entry r = (rule_ref Seconds r, r.status)

  module _ (inputs : Inputs Seconds) where
    abbrev pub groups_for : List PropertyGroupDraft → List PropertyGroup
    groups_for drafts = build_groups (keyed inputs.properties) (statuses inputs.rules) drafts

    abbrev pub check : List PropertyGroup → Validation
    check groups =
        validate inputs.properties inputs.rules groups inputs.skipped inputs.gave_up
          inputs.dropped_orphans

    -- The fallback: its second validation is outside the `try`.
    abbrev pub fallback_groups : List PropertyGroup
    fallback_groups = groups_for (build_fallback_grouping inputs.properties)

    abbrev pub warned : CoverageReport → CoverageReport
    warned coverage = record coverage { warnings = "FALLBACK GROUPING APPLIED" ∷ coverage.warnings }

    abbrev pub checked_fallback : Validation → Option (List PropertyGroup × CoverageReport)
    checked_fallback (Validation.valid coverage) = some (fallback_groups, warned coverage)
    checked_fallback _ = none

    unfoldable pub fall_back : Option (List PropertyGroup × CoverageReport)
    fall_back = checked_fallback (check fallback_groups)

    abbrev pub checked_groups :
        List PropertyGroup → Validation → Option (List PropertyGroup × CoverageReport)
    checked_groups groups (Validation.valid coverage) =
        if covers_some inputs.properties groups then some (groups, coverage) else fall_back
    checked_groups groups _ = fall_back

    unfoldable pub grouped :
        Option (List PropertyGroupDraft) → Option (List PropertyGroup × CoverageReport)
    grouped none = fall_back
    grouped (some drafts) = checked_groups (groups_for drafts) (check (groups_for drafts))

    abbrev pub report_of :
        String
        → List ReportComponentInput
        → List PropertyGroup × CoverageReport
        → AutoProverReport Seconds
    report_of contract_name components (groups, coverage) = record {
      contract_name = contract_name;
      prover_links = prover_links components [];
      properties = inputs.properties;
      rules = inputs.rules;
      groups = groups;
      skipped = inputs.skipped;
      gave_up_components = inputs.gave_up;
      coverage = coverage;
    }

  module _ (is_zero : Seconds → Bool) (basename : String → String)
      (get_all_checks : String → Option (List (CheckResult Seconds)))
      (call_grouping_llm : String
        → List FormalizedProperty
        → Option (List PropertyGroupDraft)) where
    -- `none` if the error of the second validation is raised.
    unfoldable pub run_autoprove_report :
        String → List ReportComponentInput → Option (AutoProverReport Seconds)
    run_autoprove_report contract_name components =
        let inputs : Inputs Seconds = collect Seconds is_zero basename get_all_checks components in
        elim (grouped inputs (call_grouping_llm contract_name inputs.properties)) [
          | some result ↦ some (report_of inputs contract_name components result)
          | none ↦ none
        ]
