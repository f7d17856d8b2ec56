-- ===== src/Report/Complete.antt =====
-- That the report of composer/spec/source/report/build.py is always built, and what it holds: no
-- error of the second validation is raised if no two properties have the same component and title.
use certora_aicomposer.Prelude.{
  String, Bool, true, false, List, Option, none, some, ◌≡◌, refl, sym, ap, subst, map, append-nil,
  if◌then◌else◌,
}
use mathlib.Core.List.{flat_map}
use certora_aicomposer.Sets.{pair_eq, text_eq, In, Distinct, All, All_of_In}
use certora_aicomposer.Report.Verdict.{CheckResult}
use certora_aicomposer.Report.Schema.{
  FormalizedProperty, key, PropertyGroup, CoverageReport, AutoProverReport,
}
use certora_aicomposer.Report.Grouping.{PropertyGroupDraft}
use certora_aicomposer.Report.Coverage.{Validation, covered}
use certora_aicomposer.Report.Partition.{Partition, validate-Partition, validate-covered}
use certora_aicomposer.Report.Collect.{ReportComponentInput, Inputs, collect}
use certora_aicomposer.Report.Resolved.{Resolved, collect-Resolved}
use certora_aicomposer.Report.Build.{
  covers_some, groups_for, check, fallback_groups, warned, checked_fallback, fall_back,
  checked_groups, grouped, report_of, run_autoprove_report,
}
use certora_aicomposer.Report.Keys.{input_keys, collect-Distinct}

module _ (Seconds : Type 0) where
  module _ (inputs : Inputs Seconds) where
    -- The groups of the report and its coverage.
    Sound : List PropertyGroup × CoverageReport → Type 0
    Sound (groups, coverage) = Partition inputs.properties groups coverage

    warned-Sound :
        (groups : List PropertyGroup) (coverage : CoverageReport)
        → Sound (groups, coverage)
        → Sound (groups, warned Seconds inputs coverage)
    unfolding Sound
    warned-Sound groups coverage h = record {
      once = h.once;
      existing = h.existing;
      left_out = h.left_out;
      accounted = h.accounted;
    }

    Result : Option (List PropertyGroup × CoverageReport) → Type 0
    Result o = (r : List PropertyGroup × CoverageReport) × (o ≡ some r) × Sound r

    accepted-Sound :
        (groups : List PropertyGroup) (coverage : CoverageReport)
        → check Seconds inputs groups ≡ Validation.valid coverage
        → Partition inputs.properties groups coverage
    accepted-Sound groups coverage e =
        validate-Partition inputs.properties inputs.rules groups inputs.skipped inputs.gave_up
          inputs.dropped_orphans coverage e

    abbrev whole : CoverageReport
    whole =
        covered inputs.properties inputs.rules (fallback_groups Seconds inputs) inputs.skipped
          inputs.gave_up inputs.dropped_orphans

    fallback-valid :
        Distinct (map key inputs.properties)
        → check Seconds inputs (fallback_groups Seconds inputs) ≡ Validation.valid whole
    unfolding flat_map
    fallback-valid h =
        validate-covered inputs.properties inputs.rules (fallback_groups Seconds inputs)
          inputs.skipped inputs.gave_up inputs.dropped_orphans
          (subst Distinct (sym (append-nil (map key inputs.properties))) h)
          (subst (All (λ k. In k (map key inputs.properties)))
            (sym (append-nil (map key inputs.properties)))
            (All_of_In (λ k. In k (map key inputs.properties)) (map key inputs.properties)
              (λ k m. m)))

    fall_back-Result : Distinct (map key inputs.properties) → Result (fall_back Seconds inputs)
    unfolding fall_back Result Sound
    fall_back-Result h = (
      (fallback_groups Seconds inputs, warned Seconds inputs whole),
      ap (checked_fallback Seconds inputs) (fallback-valid h),
      warned-Sound (fallback_groups Seconds inputs) whole
          (accepted-Sound (fallback_groups Seconds inputs) whole (fallback-valid h)),
    )

    checked_groups-Result :
        (groups : List PropertyGroup) (v : Validation)
        → check Seconds inputs groups ≡ v
        → Distinct (map key inputs.properties)
        → Result (checked_groups Seconds inputs groups v)
    unfolding Result Sound
    checked_groups-Result groups (Validation.multiple _) e h = fall_back-Result h
    checked_groups-Result groups (Validation.nonexistent _) e h = fall_back-Result h
    checked_groups-Result groups (Validation.valid coverage) e h =
        either (covers_some inputs.properties groups)
      where
        either :
            (b : Bool) → Result (if b then some (groups, coverage) else fall_back Seconds inputs)
        either true = ((groups, coverage), refl, accepted-Sound groups coverage e)
        either false = fall_back-Result h

    grouped-Result :
        (o : Option (List PropertyGroupDraft))
        → Distinct (map key inputs.properties)
        → Result (grouped Seconds inputs o)
    unfolding grouped
    grouped-Result none h = fall_back-Result h
    grouped-Result (some drafts) h =
        checked_groups-Result (groups_for Seconds inputs drafts)
          (check Seconds inputs (groups_for Seconds inputs drafts)) refl h

  -- A report is built, its groups are a partition of its properties, and its table has the rules of
  -- the properties.
  pub record Built (run : Option (AutoProverReport Seconds)) : Type 0 where
    pub report : AutoProverReport Seconds
    pub returned : run ≡ some report
    pub partition : Partition report.properties report.groups report.coverage
    pub resolved : Resolved Seconds report.properties report.rules

  module _ (is_zero : Seconds → Bool) (basename : String → String)
      (get_all_checks : String → Option (List (CheckResult Seconds)))
      (call_grouping_llm : String
        → List FormalizedProperty
        → Option (List PropertyGroupDraft)) where
    abbrev answer :
        String → List ReportComponentInput → Inputs Seconds → Option (AutoProverReport Seconds)
    answer contract_name components inputs =
        elim (grouped Seconds inputs (call_grouping_llm contract_name inputs.properties)) [
          | some result ↦ some (report_of Seconds inputs contract_name components result)
          | none ↦ none
        ]

    answer-Built :
        (contract_name : String) (components : List ReportComponentInput) (inputs : Inputs Seconds)
        → Resolved Seconds inputs.properties inputs.rules
        → Distinct (map key inputs.properties)
        → Built (answer contract_name components inputs)
    unfolding Result Sound
    answer-Built contract_name components inputs resolved distinct =
        let r : (p : List PropertyGroup × CoverageReport) × (grouped Seconds inputs
                (call_grouping_llm contract_name inputs.properties)
              ≡ some p)
            × Partition inputs.properties p.0 p.1 =
          grouped-Result inputs (call_grouping_llm contract_name inputs.properties) distinct in
        record {
          report = report_of Seconds inputs contract_name components r.0;
          returned =
              ap
                (λ o. elim o as (λ _. Option (AutoProverReport Seconds)) [
                  | some result ↦ some (report_of Seconds inputs contract_name components result)
                  | none ↦ none
                ])
                r.1;
          partition = r.2;
          resolved = resolved;
        }

    -- If no component brings two properties of one title, and no two components of one name bring
    -- them, then a report is built, whatever the language model answers: its groups hold no property
    -- twice and no unknown one, those in no group are listed, and every rule of a property is in the
    -- table of rules once.
    pub run_autoprove_report-Built :
        (contract_name : String) (components : List ReportComponentInput)
        → Distinct (input_keys components)
        → Built (
            run_autoprove_report Seconds is_zero basename get_all_checks call_grouping_llm
              contract_name components)
    unfolding run_autoprove_report
    run_autoprove_report-Built contract_name components h =
        answer-Built contract_name components
          (collect Seconds is_zero basename get_all_checks components)
          (collect-Resolved Seconds is_zero basename get_all_checks components)
          (collect-Distinct Seconds is_zero basename get_all_checks components h)
