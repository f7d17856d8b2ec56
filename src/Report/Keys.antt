-- ===== src/Report/Keys.antt =====
-- The keys of the properties that `collect` of composer/spec/source/report/collect.py gives: no two are
-- the same if none are among what the components bring.
use certora_aicomposer.Prelude.{
  String, Bool, List, [], ◌∷◌, Option, none, some, inl, inr, sym, ap, ◌∙◌, subst, map, Option-cases,
  append_assoc, append-nil, map-append,
}
use mathlib.Core.List.{◌++◌}
use certora_aicomposer.Dict.{Dict}
use certora_aicomposer.Sets.{pair_eq, text_eq, NotIn, Distinct}
use certora_aicomposer.KeyMap.{get}
use certora_aicomposer.Generation.Types.{GeneratedCvl}
use certora_aicomposer.Report.Verdict.{Verdict, CheckResult}
use certora_aicomposer.Report.Schema.{PropertyKey, PropertyFormulation, key}
use certora_aicomposer.Report.Collect.{
  Outcome, ReportComponentInput, reasons_of, rules_of, Collected, formalize, take_prop, take_props,
  take_component, nothing, verdicts_for, take_components, collect,
}

-- The component and title of each of the properties that a component brings.
abbrev pub titles_of : String → List PropertyFormulation → List PropertyKey
titles_of name [] = []
titles_of name (prop ∷ props) = (name, prop.title) ∷ titles_of name props

abbrev pub input_keys : List ReportComponentInput → List PropertyKey
input_keys [] = []
input_keys (inp ∷ inputs) = titles_of inp.name inp.props ++ input_keys inputs

NotIn-drop :
    (x : PropertyKey) (y : PropertyKey) (xs ys : List PropertyKey)
    → NotIn x (xs ++ y ∷ ys)
    → NotIn x (xs ++ ys)
NotIn-drop x y [] ys h = h.1
NotIn-drop x y (z ∷ xs) ys h = (h.0, NotIn-drop x y xs ys h.1)

Distinct-drop :
    (y : PropertyKey) (xs ys : List PropertyKey) → Distinct (xs ++ y ∷ ys) → Distinct (xs ++ ys)
Distinct-drop y [] ys h = h.1
Distinct-drop y (x ∷ xs) ys h = (NotIn-drop x y xs ys h.0, Distinct-drop y xs ys h.1)

Distinct-drop_all :
    (zs xs ys : List PropertyKey) → Distinct (xs ++ (zs ++ ys)) → Distinct (xs ++ ys)
Distinct-drop_all [] xs ys h = h
Distinct-drop_all (z ∷ zs) xs ys h = Distinct-drop_all zs xs ys (Distinct-drop z xs (zs ++ ys) h)

module _ (Seconds : Type 0) where
  -- The keys that are taken, with those that are to come.
  Ahead : Collected Seconds → List PropertyKey → Type 0
  Ahead st later = Distinct (map key st.properties ++ later)

  formalize-Ahead :
      (inp : ReportComponentInput) (verdicts : Dict (Verdict Seconds)) (prop : PropertyFormulation)
      (o : Option (List String)) (st : Collected Seconds) (ahead : List PropertyKey)
      → Ahead st ((inp.name, prop.title) ∷ ahead)
      → Ahead (formalize Seconds inp verdicts prop o st) ahead
  unfolding formalize Ahead
  formalize-Ahead inp verdicts prop none st ahead h =
      Distinct-drop (inp.name, prop.title) (map key st.properties) ahead h
  formalize-Ahead inp verdicts prop (some rules) st ahead h =
      subst Distinct
        (sym (
          ap (λ ks. ks ++ ahead) (map-append key st.properties _)
          ∙ append_assoc (map key st.properties) ((inp.name, prop.title) ∷ []) ahead))
        h

  take_prop-Ahead :
      (inp : ReportComponentInput) (verdicts : Dict (Verdict Seconds)) (res : GeneratedCvl)
      (prop : PropertyFormulation) (st : Collected Seconds) (ahead : List PropertyKey)
      → Ahead st ((inp.name, prop.title) ∷ ahead)
      → Ahead (take_prop Seconds inp verdicts res prop st) ahead
  unfolding take_prop Ahead
  take_prop-Ahead inp verdicts res prop st ahead h =
      elim (Option-cases (get prop.title (reasons_of res.skipped))) [
        | inl e ↦
            rw (take_prop, e)
              (formalize-Ahead inp verdicts prop (get prop.title (rules_of res.property_rules)) st
                ahead h)
        | inr (reason, e) ↦
            rw (take_prop, e) (Distinct-drop (inp.name, prop.title) (map key st.properties) ahead h)
      ]

  take_props-Ahead :
      (inp : ReportComponentInput) (verdicts : Dict (Verdict Seconds)) (res : GeneratedCvl)
      (props : List PropertyFormulation) (st : Collected Seconds) (ahead : List PropertyKey)
      → Ahead st (titles_of inp.name props ++ ahead)
      → Ahead (take_props Seconds inp verdicts res props st) ahead
  unfolding take_props
  take_props-Ahead inp verdicts res [] st ahead h = h
  take_props-Ahead inp verdicts res (prop ∷ props) st ahead h =
      take_props-Ahead inp verdicts res props (take_prop Seconds inp verdicts res prop st) ahead
        (take_prop-Ahead inp verdicts res prop st (titles_of inp.name props ++ ahead) h)

  take_component-Ahead :
      (inp : ReportComponentInput) (verdicts : Dict (Verdict Seconds)) (result : Outcome)
      (st : Collected Seconds) (ahead : List PropertyKey)
      → Ahead st (titles_of inp.name inp.props ++ ahead)
      → Ahead (take_component Seconds inp verdicts result st) ahead
  unfolding take_component Ahead
  take_component-Ahead inp verdicts (Outcome.generated res) st ahead h =
      take_props-Ahead inp verdicts res inp.props st ahead h
  take_component-Ahead inp verdicts (Outcome.gave_up _) st ahead h =
      Distinct-drop_all (titles_of inp.name inp.props) (map key st.properties) ahead h
  take_component-Ahead inp verdicts (Outcome.crashed _) st ahead h =
      Distinct-drop_all (titles_of inp.name inp.props) (map key st.properties) ahead h

  module _ (is_zero : Seconds → Bool) (basename : String → String)
      (get_all_checks : String → Option (List (CheckResult Seconds))) where
    take_components-Ahead :
        (inputs : List ReportComponentInput) (st : Collected Seconds)
        → Ahead st (input_keys inputs)
        → Distinct
            (map key (take_components Seconds is_zero basename get_all_checks inputs st).properties)
    unfolding take_components Ahead
    take_components-Ahead [] st h = subst Distinct (append-nil (map key st.properties)) h
    take_components-Ahead (inp ∷ inputs) st h = take_components-Ahead inputs _ (
        take_component-Ahead inp
          (verdicts_for Seconds is_zero basename get_all_checks inp inp.result) inp.result st
          (input_keys inputs) h)

    pub collect-Distinct :
        (inputs : List ReportComponentInput)
        → Distinct (input_keys inputs)
        → Distinct (map key (collect Seconds is_zero basename get_all_checks inputs).properties)
    unfolding collect Ahead
    collect-Distinct inputs h = take_components-Ahead inputs (nothing Seconds) h
