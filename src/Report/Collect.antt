-- ===== src/Report/Collect.antt =====
-- `collect` of composer/spec/source/report/collect.py. Parameters: those of Report/Verdict.antt. The
-- sets are lists in the order of insertion; their order is not read, since the rules are sorted.
use certora_aicomposer.Prelude.{
  ℕ, suc, String, Bool, List, [], ◌∷◌, Option, none, some, map, if◌then◌else◌,
}
use mathlib.Core.List.{◌++◌}
use certora_aicomposer.Text.{truthy, strip, is_empty}
use certora_aicomposer.Dict.{Dict, lookup}
use certora_aicomposer.Sets.{pair_eq, text_eq, contains, add_all}
use certora_aicomposer.KeyMap.{get, put, put_all}
use certora_aicomposer.Sorting.{pair_le, sorted_by}
use certora_aicomposer.Generation.Types.{SkippedProperty, PropertyRuleMapping, GeneratedCvl}
use certora_aicomposer.Report.Verdict.{NodeStatus, Verdict, CheckResult, fetch_verdicts}
use certora_aicomposer.Report.Schema.{
  RuleRef, PropertyFormulation, RuleVerdict, FormalizedProperty, SkippedClaim, GaveUpComponent,
}

-- `GeneratedCVL | GaveUp | BaseException`
pub data Outcome : Type 0 where
  generated : GeneratedCvl → Outcome
  gave_up : String → Outcome
  crashed : String → Outcome

pub record ReportComponentInput : Type 0 where
  pub name : String
  pub spec_file : String
  pub props : List PropertyFormulation
  pub result : Outcome
  pub prover_link : Option String

-- `[rn for rn in rules if rn.strip()]`
unfoldable pub named_rules : List String → List String
named_rules [] = []
named_rules (r ∷ rules) =
    let rest = named_rules rules in if is_empty (strip r) then rest else r ∷ rest

unfoldable pub reasons_of : List SkippedProperty → List (String × String)
reasons_of skips = put_all [] (map entry skips)
  where
    entry : SkippedProperty → String × String
    entry s = (s.property_title, s.reason)

unfoldable pub rules_of : List PropertyRuleMapping → List (String × List String)
rules_of mappings = put_all [] (map entry mappings)
  where
    entry : PropertyRuleMapping → String × List String
    entry m = (m.property_title, m.rules)

module _ (Seconds : Type 0) where
  -- What the loop over the components has.
  pub record Collected : Type 0 where
    pub properties : List FormalizedProperty
    pub skipped : List SkippedClaim
    pub gave_up : List GaveUpComponent
    pub rules_by_key : List (RuleRef × RuleVerdict Seconds)
    pub referenced : List RuleRef

  -- The spec file that a verdict names, or the component's.
  abbrev pub file_or : String → Verdict Seconds → String
  file_or spec_file v = elim (truthy v.spec_file) [ some file ↦ file | none ↦ spec_file ]

  abbrev pub ref_of : String → Dict (Verdict Seconds) → String → RuleRef
  ref_of spec_file verdicts rule = elim (lookup rule verdicts) [
    | some v ↦ (file_or spec_file v, rule)
    | none ↦ (spec_file, rule)
  ]

  -- A property with its mapping, if it has one.
  unfoldable pub formalize :
      ReportComponentInput
      → Dict (Verdict Seconds)
      → PropertyFormulation
      → Option (List String)
      → Collected
      → Collected
  formalize inp verdicts prop none st = st
  formalize inp verdicts prop (some rules) st =
      let refs : List RuleRef = map (ref_of inp.spec_file verdicts) (named_rules rules) in
      let p : FormalizedProperty = record {
        formulation = prop;
        component = inp.name;
        rule_refs = refs;
      } in
      record st { properties = st.properties ++ p ∷ []; referenced = add_all st.referenced refs }

  unfoldable pub take_prop :
      ReportComponentInput
      → Dict (Verdict Seconds)
      → GeneratedCvl
      → PropertyFormulation
      → Collected
      → Collected
  unfolding formalize
  take_prop inp verdicts res prop st = elim (get prop.title (reasons_of res.skipped)) [
    | some reason ↦ record st {
      skipped =
          st.skipped ++ record { formulation = prop; component = inp.name; reason = reason } ∷ [];
    }
    | none ↦ formalize inp verdicts prop (get prop.title (rules_of res.property_rules)) st
  ]

  unfoldable pub take_props :
      ReportComponentInput
      → Dict (Verdict Seconds)
      → GeneratedCvl
      → List PropertyFormulation
      → Collected
      → Collected
  take_props inp verdicts res [] st = st
  take_props inp verdicts res (prop ∷ props) st =
      take_props inp verdicts res props (take_prop inp verdicts res prop st)

  -- `if key not in rules_by_key: rules_by_key[key] = rv`
  unfoldable pub put_absent :
      RuleRef
      → RuleVerdict Seconds
      → List (RuleRef × RuleVerdict Seconds)
      → List (RuleRef × RuleVerdict Seconds)
  put_absent k rv rules = elim (get k rules) [ some _ ↦ rules | none ↦ put k rv rules ]

  -- The first run that names a rule wins.
  unfoldable pub register :
      ReportComponentInput
      → List (String × Verdict Seconds)
      → List (RuleRef × RuleVerdict Seconds)
      → List (RuleRef × RuleVerdict Seconds)
  register inp [] rules = rules
  register inp ((rule, v) ∷ verdicts) rules =
      let file : String = file_or inp.spec_file v in
      let entry : RuleVerdict Seconds = record {
        name = rule;
        spec_file = file;
        status = v.status;
        line = v.line;
        duration_seconds = v.duration_seconds;
        prover_link = inp.prover_link;
      } in
      register inp verdicts (put_absent (file, rule) entry rules)

  unfoldable pub take_component :
      ReportComponentInput → Dict (Verdict Seconds) → Outcome → Collected → Collected
  take_component inp verdicts (Outcome.generated res) st =
      let done : Collected = take_props inp verdicts res inp.props st in
      record done { rules_by_key = register inp verdicts done.rules_by_key }
  take_component inp verdicts _ st = record st {
    gave_up = st.gave_up ++ record { component = inp.name; properties = inp.props } ∷ [];
  }

  -- A rule that no run reported.
  abbrev pub unreported : RuleRef → RuleVerdict Seconds
  unreported ref = record {
    name = ref.1;
    spec_file = ref.0;
    status = NodeStatus.unknown;
    line = none;
    duration_seconds = none;
    prover_link = none;
  }

  unfoldable pub fill :
      List RuleRef → List (RuleRef × RuleVerdict Seconds) → List (RuleRef × RuleVerdict Seconds)
  fill [] rules = rules
  fill (ref ∷ refs) rules = fill refs (put_absent ref (unreported ref) rules)

  -- The rules that a property refers to.
  unfoldable pub kept :
      List RuleRef → List (RuleRef × RuleVerdict Seconds) → List (RuleVerdict Seconds)
  kept referenced [] = []
  kept referenced ((k, rv) ∷ rules) =
      let rest = kept referenced rules in if contains k referenced then rv ∷ rest else rest

  unfoldable pub orphans : List RuleRef → List (RuleRef × RuleVerdict Seconds) → ℕ
  orphans referenced [] = 0
  orphans referenced ((k, rv) ∷ rules) =
      let rest = orphans referenced rules in if contains k referenced then rest else suc rest

  abbrev pub rule_ref : RuleVerdict Seconds → RuleRef
  rule_ref rv = (rv.spec_file, rv.name)

  abbrev pub ref_le : RuleVerdict Seconds → RuleVerdict Seconds → Bool
  ref_le a b = pair_le (rule_ref a) (rule_ref b)

  pub record Inputs : Type 0 where
    pub properties : List FormalizedProperty
    pub rules : List (RuleVerdict Seconds)
    pub skipped : List SkippedClaim
    pub gave_up : List GaveUpComponent
    pub dropped_orphans : ℕ

  abbrev pub finish : Collected → Inputs
  finish st = record {
    properties = st.properties;
    rules = sorted_by ref_le (kept st.referenced (fill st.referenced st.rules_by_key));
    skipped = st.skipped;
    gave_up = st.gave_up;
    dropped_orphans = orphans st.referenced (fill st.referenced st.rules_by_key);
  }

  abbrev pub nothing : Collected
  nothing = record {
    properties = [];
    skipped = [];
    gave_up = [];
    rules_by_key = [];
    referenced = [];
  }

  module _ (is_zero : Seconds → Bool) (basename : String → String)
      (get_all_checks : String → Option (List (CheckResult Seconds))) where
    abbrev fetched : Option String → Dict (Verdict Seconds)
    fetched none = []
    fetched (some link) = fetch_verdicts Seconds is_zero basename get_all_checks link

    -- Only a component with rules and a run has verdicts.
    unfoldable pub verdicts_for : ReportComponentInput → Outcome → Dict (Verdict Seconds)
    verdicts_for inp (Outcome.generated _) = fetched (truthy inp.prover_link)
    verdicts_for inp _ = []

    unfoldable pub take_components : List ReportComponentInput → Collected → Collected
    unfolding take_component
    take_components [] st = st
    take_components (inp ∷ inputs) st =
        take_components inputs (take_component inp (verdicts_for inp inp.result) inp.result st)

    unfoldable pub collect : List ReportComponentInput → Inputs
    collect inputs = finish (take_components inputs nothing)
