-- ===== src/Generation/Skips.antt =====
-- The skips of the author's state in composer/spec/cvl_generation.py: each is of another property of
-- the batch, and has a reason.
use certora_aicomposer.Prelude.{
  String, true, false, List, [], ◌∷◌, ◌≡◌, ◌∙◌, inl, inr, refl, sym, subst, map, Bool-cases,
}
use certora_aicomposer.Text.{strip, is_empty}
use certora_aicomposer.Sets.{
  text_eq, In, NotIn, Distinct, All, All-In, All_of_In, contains, contains→In,
}
use certora_aicomposer.KeyMap.{put, put_all, keys_of, values_of, put-Distinct, All-put}
use certora_aicomposer.Sorting.{sorted_by, In-of_sorted_by, sorted_by-Distinct}
use certora_aicomposer.Printer.File.{pretty_print}
use certora_aicomposer.Generation.Types.{SkippedProperty, GenerationState}
use certora_aicomposer.Generation.Gate.{
  titled, with_reason, title_le, merge_skips, check_completion,
}
use certora_aicomposer.Generation.Mapping.{titles_of, validate_property_rules}
use certora_aicomposer.Generation.Tools.{
  ProverRun, Action, put_skip, skip_title, unskip_title, step, run,
}
use certora_aicomposer.Generation.Frame.{
  update-same, put_printed-same, edit_spec-same, publish-same, silent_run-same, message-same,
  judged-same, reported-same,
}

abbrev title_of : SkippedProperty → String
title_of s = s.property_title

module _ (titles : List String) where
  abbrev Known : SkippedProperty → Type 0
  Known s = In s.property_title titles

  -- The skips are of different properties of the batch, each with a reason.
  pub record Declared (skips : List SkippedProperty) : Type 0 where
    pub once : Distinct (titles_of skips)
    pub known : All (λ s. In s.property_title titles) skips
    pub reasoned : All (λ s. is_empty s.reason ≡ false) skips

  -- An entry of the table by titles.
  Entry : String × SkippedProperty → Type 0
  Entry (k, s) = (s.property_title ≡ k) × Known s

  titled-Entry : (skips : List SkippedProperty) → All Known skips → All Entry (titled skips)
  unfolding Entry
  titled-Entry [] a = tt
  titled-Entry (s ∷ skips) a = ((refl, a.0), titled-Entry skips a.1)

  put_all-Entry :
      (d pairs : List (String × SkippedProperty))
      → Distinct (keys_of d) × All Entry d
      → All Entry pairs
      → Distinct (keys_of (put_all d pairs)) × All Entry (put_all d pairs)
  unfolding put_all
  put_all-Entry d [] h a = h
  put_all-Entry d ((k, s) ∷ pairs) h a =
      put_all-Entry (put k s d) pairs (put-Distinct k s d h.0, All-put Entry k s d a.0 h.1) a.1

  with_reason-Known :
      (d : List (String × SkippedProperty)) → All Entry d → All Known (with_reason (values_of d))
  unfolding with_reason Entry
  with_reason-Known [] a = tt
  with_reason-Known ((k, s) ∷ d) a = elim (Bool-cases (is_empty s.reason)) [
    | inl t ↦ rw t (with_reason-Known d a.1)
    | inr f ↦ rw f (a.0.1, with_reason-Known d a.1)
  ]

  with_reason-NotIn :
      (j : String) (d : List (String × SkippedProperty))
      → All Entry d
      → NotIn j (keys_of d)
      → NotIn j (map title_of (with_reason (values_of d)))
  unfolding with_reason Entry
  with_reason-NotIn j [] a n = tt
  with_reason-NotIn j ((k, s) ∷ d) a n = elim (Bool-cases (is_empty s.reason)) [
    | inl t ↦ rw t (with_reason-NotIn j d a.1 n.1)
    | inr f ↦ rw f ((λ e. n.0 (sym a.0.0 ∙ e)), with_reason-NotIn j d a.1 n.1)
  ]

  with_reason-Distinct :
      (d : List (String × SkippedProperty))
      → All Entry d
      → Distinct (keys_of d)
      → Distinct (map title_of (with_reason (values_of d)))
  unfolding with_reason Entry
  with_reason-Distinct [] a n = tt
  with_reason-Distinct ((k, s) ∷ d) a n = elim (Bool-cases (is_empty s.reason)) [
    | inl t ↦ rw t (with_reason-Distinct d a.1 n.1)
    | inr f ↦ rw f (
      subst (λ j. NotIn j (map title_of (with_reason (values_of d)))) (sym a.0.0)
          (with_reason-NotIn k d a.1 n.0),
      with_reason-Distinct d a.1 n.1,
    )
  ]

  with_reason-reasoned :
      (skips : List SkippedProperty) → All (λ s. is_empty s.reason ≡ false) (with_reason skips)
  unfolding with_reason
  with_reason-reasoned [] = tt
  with_reason-reasoned (s ∷ skips) = elim (Bool-cases (is_empty s.reason)) [
    | inl t ↦ rw t (with_reason-reasoned skips)
    | inr f ↦ rw f (f, with_reason-reasoned skips)
  ]

  All-sorted :
      (P : SkippedProperty → Type 0) (skips : List SkippedProperty)
      → All P skips
      → All P (sorted_by title_le skips)
  All-sorted P skips a =
      All_of_In P (sorted_by title_le skips)
        (λ s m. All-In P s skips a (In-of_sorted_by title_le s skips m))

  merge_skips-Declared :
      (left right : List SkippedProperty)
      → All (λ s. In s.property_title titles) left
      → All (λ s. In s.property_title titles) right
      → Declared (merge_skips left right)
  unfolding merge_skips
  merge_skips-Declared left right l r =
      let first : Distinct (keys_of (put_all [] (titled left)))
          × All Entry (put_all [] (titled left)) =
        put_all-Entry [] (titled left) (tt, tt) (titled-Entry left l) in
      let d : List (String × SkippedProperty) = put_all (put_all [] (titled left)) (titled right) in
      let both : Distinct (keys_of d) × All Entry d =
        put_all-Entry (put_all [] (titled left)) (titled right) first (titled-Entry right r) in
      record {
        once =
            sorted_by-Distinct title_le title_of (with_reason (values_of d))
              (with_reason-Distinct d both.1 both.0);
        known = All-sorted Known (with_reason (values_of d)) (with_reason-Known d both.1);
        reasoned =
            All-sorted (λ s. is_empty s.reason ≡ false) (with_reason (values_of d))
              (with_reason-reasoned (values_of d));
      }

  put_skip-Declared :
      (title reason : String) (st : GenerationState)
      → contains title titles ≡ true
      → Declared st.skipped
      → Declared (put_skip title reason st).skipped
  put_skip-Declared title reason st e h =
      merge_skips-Declared st.skipped (record { property_title = title; reason = reason } ∷ [])
        h.known (contains→In title titles e, tt)

  skip_title-Declared :
      (title reason : String) (st : GenerationState)
      → Declared st.skipped
      → Declared (skip_title titles title reason st).skipped
  skip_title-Declared title reason st h = elim (Bool-cases (contains title titles)) [
    | inr f ↦ rw f h
    | inl t ↦ elim (Bool-cases (is_empty (strip reason))) [
      | inl b ↦ rw (t, b) h
      | inr b ↦ rw (t, b) (put_skip-Declared title reason st t h)
    ]
  ]

  unskip_title-Declared :
      (title : String) (st : GenerationState)
      → Declared st.skipped
      → Declared (unskip_title titles title st).skipped
  unskip_title-Declared title st h = elim (Bool-cases (contains title titles)) [
    | inr f ↦ rw f h
    | inl t ↦ rw t (put_skip-Declared title "" st t h)
  ]

  module _ (md5 : String → String) where
    kept-Declared :
        {skips next : List SkippedProperty} → next ≡ skips → Declared skips → Declared next
    kept-Declared e h = subst Declared (sym e) h

    step-Declared :
        (a : Action) (st : GenerationState)
        → Declared st.skipped
        → Declared (step md5 titles a st).skipped
    unfolding step
    step-Declared (Action.put_cvl file checked) st h =
        kept-Declared (put_printed-same md5 titles (pretty_print file) checked st).2 h
    step-Declared (Action.put_cvl_raw pp checked) st h =
        kept-Declared (update-same md5 titles pp checked st).2 h
    step-Declared (Action.edit_cvl old new checked) st h =
        kept-Declared (edit_spec-same md5 titles old new checked st.curr_spec st).2 h
    step-Declared (Action.feedback_tool good) st h =
        kept-Declared (judged-same md5 titles good st.curr_spec st).1 h
    step-Declared (Action.record_skip title reason) st h = skip_title-Declared title reason st h
    step-Declared (Action.unskip_property title) st h = unskip_title-Declared title st h
    step-Declared (Action.verify_spec rules (ProverRun.report link statuses)) st h =
        kept-Declared (reported-same md5 titles rules link statuses st.curr_spec st).1 h
    step-Declared (Action.verify_spec rules (ProverRun.summarized link)) st h =
        kept-Declared (silent_run-same md5 titles rules link st.curr_spec st).2 h
    step-Declared (Action.verify_spec rules ProverRun.message) st h =
        kept-Declared (message-same md5 titles rules st.curr_spec st).2 h
    step-Declared (Action.expect_rule_failure rule reason) st h = h
    step-Declared (Action.expect_rule_passage rule) st h = h
    step-Declared (Action.publish commentary ms) st h =
        kept-Declared
          (publish-same md5 titles commentary ms (check_completion md5 st)
            (validate_property_rules ms st.skipped titles) st).2
          h
    step-Declared (Action.give_up reason) st h = h

    pub run-Declared :
        (actions : List Action) (st : GenerationState)
        → Declared st.skipped
        → Declared (run md5 titles actions st).skipped
    unfolding run
    run-Declared [] st h = h
    run-Declared (a ∷ actions) st h =
        run-Declared actions (step md5 titles a st) (step-Declared a st h)
