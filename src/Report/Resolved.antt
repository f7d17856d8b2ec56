-- ===== src/Report/Resolved.antt =====
-- What `collect` of composer/spec/source/report/collect.py gives: every rule that a property refers
-- to is in the table of rules once, and nothing else is.
use certora_aicomposer.Prelude.{
  String, Bool, List, [], ◌∷◌, Option, none, some, ◌⊎◌, inl, inr, map, Option-cases,
}
use mathlib.Core.List.{◌++◌}
use certora_aicomposer.Dict.{Dict}
use certora_aicomposer.Sets.{
  pair_eq, text_eq, In, Distinct, All, All_of_In, In-append_left, In-append_right, In-append_cases,
  add_all, add_all-new, add_all-old, add_all-cases,
}
use certora_aicomposer.KeyMap.{get}
use certora_aicomposer.Sorting.{sorted_by, sorted_by-Distinct}
use certora_aicomposer.Generation.Types.{GeneratedCvl}
use certora_aicomposer.Report.Verdict.{Verdict, CheckResult}
use certora_aicomposer.Report.Schema.{RuleRef, PropertyFormulation, RuleVerdict, FormalizedProperty}
use certora_aicomposer.Report.Collect.{
  Outcome, ReportComponentInput, named_rules, reasons_of, rules_of, Collected, ref_of, formalize,
  take_prop, take_props, take_component, fill, kept, rule_ref, ref_le, finish, nothing,
  verdicts_for, take_components, collect,
}
use certora_aicomposer.Report.Table.{
  Table, TableInv, register-TableInv, fill-TableInv, fill-new, kept-found, kept-used, kept-Distinct,
  In-refs_sorted, In-of_refs_sorted,
}

-- The rules that the properties refer to.
abbrev pub all_refs : List FormalizedProperty → List RuleRef
all_refs [] = []
all_refs (p ∷ properties) = p.rule_refs ++ all_refs properties

all_refs-snoc :
    (ref : RuleRef) (ps : List FormalizedProperty) (p : FormalizedProperty)
    → In ref (all_refs ps) ⊎ In ref p.rule_refs
    → In ref (all_refs (ps ++ p ∷ []))
all_refs-snoc ref [] p (inl m) = elim m [ ]
all_refs-snoc ref [] p (inr m) = In-append_left ref p.rule_refs [] m
all_refs-snoc ref (q ∷ ps) p (inr m) =
    In-append_right ref q.rule_refs (all_refs (ps ++ p ∷ [])) (all_refs-snoc ref ps p (inr m))
all_refs-snoc ref (q ∷ ps) p (inl m) = elim (In-append_cases ref q.rule_refs (all_refs ps) m) [
  | inl i ↦ In-append_left ref q.rule_refs (all_refs (ps ++ p ∷ [])) i
  | inr i ↦
      In-append_right ref q.rule_refs (all_refs (ps ++ p ∷ [])) (all_refs-snoc ref ps p (inl i))
]

all_refs-snoc_cases :
    (ref : RuleRef) (ps : List FormalizedProperty) (p : FormalizedProperty)
    → In ref (all_refs (ps ++ p ∷ []))
    → In ref (all_refs ps) ⊎ In ref p.rule_refs
all_refs-snoc_cases ref [] p m = elim (In-append_cases ref p.rule_refs [] m) [
  | inl i ↦ inr i
  | inr i ↦ elim i [ ]
]
all_refs-snoc_cases ref (q ∷ ps) p m =
    elim (In-append_cases ref q.rule_refs (all_refs (ps ++ p ∷ [])) m) [
      | inl i ↦ inl (In-append_left ref q.rule_refs (all_refs ps) i)
      | inr i ↦ elim (all_refs-snoc_cases ref ps p i) [
        | inl j ↦ inl (In-append_right ref q.rule_refs (all_refs ps) j)
        | inr j ↦ inr j
      ]
    ]

module _ (Seconds : Type 0) where
  -- The rules of the report: each that a property refers to, once, and no other.
  pub record Resolved (properties : List FormalizedProperty) (rules : List (RuleVerdict Seconds))
      : Type 0 where
    pub found : All (λ ref. In ref (map (rule_ref Seconds) rules)) (all_refs properties)
    pub used : All (λ ref. In ref (all_refs properties)) (map (rule_ref Seconds) rules)
    pub unique : Distinct (map (rule_ref Seconds) rules)

  record Inv (st : Collected Seconds) : Type 0 where
    table : TableInv Seconds st.rules_by_key
    forth : (ref : RuleRef) → In ref (all_refs st.properties) → In ref st.referenced
    back : (ref : RuleRef) → In ref st.referenced → In ref (all_refs st.properties)

  formalize-Inv :
      (inp : ReportComponentInput) (verdicts : Dict (Verdict Seconds)) (prop : PropertyFormulation)
      (o : Option (List String)) (st : Collected Seconds)
      → Inv st
      → Inv (formalize Seconds inp verdicts prop o st)
  unfolding formalize
  formalize-Inv inp verdicts prop none st h = h
  formalize-Inv inp verdicts prop (some rules) st h = record {
    table = h.table;
    forth = forth;
    back = back;
  }
    where
      refs : List RuleRef
      refs = map (ref_of Seconds inp.spec_file verdicts) (named_rules rules)

      p : FormalizedProperty
      p = record { formulation = prop; component = inp.name; rule_refs = refs }

      forth :
          (ref : RuleRef)
          → In ref (all_refs (st.properties ++ p ∷ []))
          → In ref (add_all st.referenced refs)
      forth ref m = elim (all_refs-snoc_cases ref st.properties p m) [
        | inl i ↦ add_all-old ref st.referenced refs (h.forth ref i)
        | inr i ↦ add_all-new ref st.referenced refs i
      ]

      back :
          (ref : RuleRef)
          → In ref (add_all st.referenced refs)
          → In ref (all_refs (st.properties ++ p ∷ []))
      back ref m = elim (add_all-cases ref st.referenced refs m) [
        | inl i ↦ all_refs-snoc ref st.properties p (inl (h.back ref i))
        | inr i ↦ all_refs-snoc ref st.properties p (inr i)
      ]

  take_prop-Inv :
      (inp : ReportComponentInput) (verdicts : Dict (Verdict Seconds)) (res : GeneratedCvl)
      (prop : PropertyFormulation) (st : Collected Seconds)
      → Inv st
      → Inv (take_prop Seconds inp verdicts res prop st)
  unfolding take_prop
  take_prop-Inv inp verdicts res prop st h =
      elim (Option-cases (get prop.title (reasons_of res.skipped))) [
        | inl e ↦
            rw (take_prop, e)
              (formalize-Inv inp verdicts prop (get prop.title (rules_of res.property_rules)) st h)
        | inr (reason, e) ↦
            rw (take_prop, e) (record { table = h.table; forth = h.forth; back = h.back })
      ]

  take_props-Inv :
      (inp : ReportComponentInput) (verdicts : Dict (Verdict Seconds)) (res : GeneratedCvl)
      (props : List PropertyFormulation) (st : Collected Seconds)
      → Inv st
      → Inv (take_props Seconds inp verdicts res props st)
  unfolding take_props
  take_props-Inv inp verdicts res [] st h = h
  take_props-Inv inp verdicts res (prop ∷ props) st h =
      take_props-Inv inp verdicts res props (take_prop Seconds inp verdicts res prop st)
        (take_prop-Inv inp verdicts res prop st h)

  take_component-Inv :
      (inp : ReportComponentInput) (verdicts : Dict (Verdict Seconds)) (result : Outcome)
      (st : Collected Seconds)
      → Inv st
      → Inv (take_component Seconds inp verdicts result st)
  unfolding take_component
  take_component-Inv inp verdicts (Outcome.gave_up _) st h = record {
    table = h.table;
    forth = h.forth;
    back = h.back;
  }
  take_component-Inv inp verdicts (Outcome.crashed _) st h = record {
    table = h.table;
    forth = h.forth;
    back = h.back;
  }
  take_component-Inv inp verdicts (Outcome.generated res) st h =
      let done : Inv (take_props Seconds inp verdicts res inp.props st) =
        take_props-Inv inp verdicts res inp.props st h in
      record {
        table = register-TableInv Seconds inp verdicts _ done.table;
        forth = done.forth;
        back = done.back;
      }

  finish-Resolved :
      (st : Collected Seconds)
      → Inv st
      → Resolved (finish Seconds st).properties (finish Seconds st).rules
  finish-Resolved st h = record {
    found =
        All_of_In (λ ref. In ref (map (rule_ref Seconds) (sorted_by (ref_le Seconds) left)))
          (all_refs st.properties)
          (λ ref m. In-refs_sorted Seconds ref left (
            kept-found Seconds ref st.referenced table filled.keyed (h.forth ref m)
              (fill-new Seconds ref st.referenced st.rules_by_key (h.forth ref m))));
    used =
        All_of_In (λ ref. In ref (all_refs st.properties))
          (map (rule_ref Seconds) (sorted_by (ref_le Seconds) left))
          (λ ref m.
            h.back ref
              (kept-used Seconds ref st.referenced table filled.keyed
                (In-of_refs_sorted Seconds ref left m)).0);
    unique =
        sorted_by-Distinct (ref_le Seconds) (rule_ref Seconds) left
          (kept-Distinct Seconds st.referenced table filled);
  }
    where
      table : Table Seconds
      table = fill Seconds st.referenced st.rules_by_key

      left : List (RuleVerdict Seconds)
      left = kept Seconds st.referenced table

      filled : TableInv Seconds table
      filled = fill-TableInv Seconds st.referenced st.rules_by_key h.table

  nothing-Inv : Inv (nothing Seconds)
  nothing-Inv = record {
    table = record { unique = tt; keyed = tt };
    forth = λ ref m. m;
    back = λ ref m. m;
  }

  module _ (is_zero : Seconds → Bool) (basename : String → String)
      (get_all_checks : String → Option (List (CheckResult Seconds))) where
    take_components-Inv :
        (inputs : List ReportComponentInput) (st : Collected Seconds)
        → Inv st
        → Inv (take_components Seconds is_zero basename get_all_checks inputs st)
    unfolding take_components
    take_components-Inv [] st h = h
    take_components-Inv (inp ∷ inputs) st h = take_components-Inv inputs _ (
        take_component-Inv inp (verdicts_for Seconds is_zero basename get_all_checks inp inp.result)
          inp.result st h)

    -- In the inputs of the report every rule that a property refers to has an entry, every entry is
    -- referred to by a property, and no rule has two entries.
    pub collect-Resolved :
        (inputs : List ReportComponentInput)
        → Resolved
            (collect Seconds is_zero basename get_all_checks inputs).properties
            (collect Seconds is_zero basename get_all_checks inputs).rules
    unfolding collect
    collect-Resolved inputs =
        finish-Resolved
          (take_components Seconds is_zero basename get_all_checks inputs (nothing Seconds))
          (take_components-Inv inputs (nothing Seconds) nothing-Inv)
