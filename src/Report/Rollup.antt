-- ===== src/Report/Rollup.antt =====
-- The verdict that composer/spec/source/report/collect.py keeps for a rule of several checks.
use text.Mathlib.Text.{◌==◌}
use text.Mathlib.TextEquality.{eq_iff}
use certora_aicomposer.Prelude.{
  ℕ, ◌≤◌, String, Bool, false, List, [], ◌∷◌, Option, none, some, ◌≡◌, ◌≢◌, ◌⊎◌, inl, inr, refl,
  sym, ap, ◌∙◌, arith, leb, Bool-cases, subst,
}
use certora_aicomposer.Dict.{Dict, lookup, insert, lookup-insert}
use certora_aicomposer.Report.Verdict.{
  NodeStatus, status_priority, Verdict, merge, CheckResult, candidate, roll_up, fetch_verdicts,
}

module _ (Seconds : Type 0) where
  abbrev rank : Verdict Seconds → ℕ
  rank v = status_priority v.status

  merge-ge :
      (v : Verdict Seconds) (o : Option (Verdict Seconds)) → rank v ≤ rank (merge Seconds v o)
  unfolding merge
  merge-ge v none = omega arith
  merge-ge v (some w) = ground arith

  merge-ge_other : (v w : Verdict Seconds) → rank w ≤ rank (merge Seconds v (some w))
  unfolding merge
  merge-ge_other v w = ground arith

  merge-status :
      (v w : Verdict Seconds)
      → ((merge Seconds v (some w)).status ≡ v.status)
        ⊎ ((merge Seconds v (some w)).status ≡ w.status)
  unfolding merge
  merge-status v w = elim (Bool-cases (leb (rank w) (rank v))) [
    | inl above ↦ inl (rw above refl)
    | inr below ↦ inr (rw below refl)
  ]

  -- No check of the rule has a status of a higher priority.
  abbrev pub AtMost : String → NodeStatus → List (CheckResult Seconds) → Type 0
  AtMost rule s [] = Unit {0}
  AtMost rule s (c ∷ checks) =
      (c.rule_name ≡ rule → status_priority c.status ≤ status_priority s) × AtMost rule s checks

  -- A check of the rule has the status.
  abbrev pub Checked : String → NodeStatus → List (CheckResult Seconds) → Type 0
  Checked rule s [] = ⊥
  Checked rule s (c ∷ checks) = (c.rule_name ≡ rule) × (c.status ≡ s) ⊎ Checked rule s checks

  -- A rule is named by none of the checks.
  abbrev pub Unnamed : String → List (CheckResult Seconds) → Type 0
  Unnamed rule [] = Unit {0}
  Unnamed rule (c ∷ checks) = (c.rule_name ≢ rule) × Unnamed rule checks

  module _ (is_zero : Seconds → Bool) (basename : String → String)
      (get_all_checks : String → Option (List (CheckResult Seconds))) (rule : String) where
    abbrev roll : Dict (Verdict Seconds) → List (CheckResult Seconds) → Dict (Verdict Seconds)
    roll = roll_up Seconds is_zero basename get_all_checks

    abbrev cand : CheckResult Seconds → Verdict Seconds
    cand = candidate Seconds is_zero basename get_all_checks

    -- What a verdict that is kept owes to the one that was there before and to the checks.
    record Kept (o : Option (Verdict Seconds)) (checks : List (CheckResult Seconds))
        (v : Verdict Seconds) : Type 0 where
      above : (w : Verdict Seconds) → o ≡ some w → rank w ≤ rank v
      at_most : AtMost rule v.status checks
      from :
          ((w : Verdict Seconds) × (o ≡ some w) × (w.status ≡ v.status))
          ⊎ Checked rule v.status checks

    next : Dict (Verdict Seconds) → CheckResult Seconds → Dict (Verdict Seconds)
    next d c = insert c.rule_name (merge Seconds (cand c) (lookup c.rule_name d)) d

    some-injective : {v w : Verdict Seconds} → some v ≡ some w → v ≡ w
    some-injective h = cc

    Kept-same :
        (c : CheckResult Seconds) (checks : List (CheckResult Seconds))
        (o : Option (Verdict Seconds)) (v : Verdict Seconds)
        → c.rule_name ≡ rule
        → Kept (some (merge Seconds (cand c) o)) checks v
        → Kept o (c ∷ checks) v
    unfolding candidate merge
    Kept-same c checks none v e k = record {
      above = λ w e'. cc;
      at_most = (λ e'. k.above (cand c) refl, k.at_most);
      from = elim k.from [ inl (w, p, q) ↦ inr (inl (e, cc (p, q))) | inr found ↦ inr (inr found) ];
    }
    Kept-same c checks (some old) v e k =
        let m = merge Seconds (cand c) (some old) in
        record {
          above = λ w e'.
              subst (λ x. rank x ≤ rank v) (some-injective e')
                (omega (arith, merge-ge_other (cand c) old, k.above m refl));
          at_most = (λ e'. omega (arith, merge-ge (cand c) (some old), k.above m refl), k.at_most);
          from = elim k.from [
            | inl (w, p, q) ↦
                let s : m.status ≡ v.status = ap (λ x. x.status) (some-injective p) ∙ q in
                elim (merge-status (cand c) old) [
                  | inl new ↦ inr (inl (e, sym new ∙ s))
                  | inr kept ↦ inl (old, refl, sym kept ∙ s)
                ]
            | inr found ↦ inr (inr found)
          ];
        }

    Kept-other :
        (c : CheckResult Seconds) (checks : List (CheckResult Seconds))
        (o : Option (Verdict Seconds)) (v : Verdict Seconds)
        → c.rule_name ≢ rule
        → Kept o checks v
        → Kept o (c ∷ checks) v
    Kept-other c checks o v ne k = record {
      above = k.above;
      at_most = (λ e. absurd (ne e), k.at_most);
      from = elim k.from [ inl old ↦ inl old | inr found ↦ inr (inr found) ];
    }

    next-same :
        (d : Dict (Verdict Seconds)) (c : CheckResult Seconds)
        → c.rule_name ≡ rule
        → lookup rule (next d c) ≡ some (merge Seconds (cand c) (lookup rule d))
    unfolding next
    next-same d c e =
        lookup-insert c.rule_name rule _ d ∙ rw ((eq_iff c.rule_name rule).1 e, e) refl

    next-other :
        (d : Dict (Verdict Seconds)) (c : CheckResult Seconds)
        → (c.rule_name == rule) ≡ false
        → lookup rule (next d c) ≡ lookup rule d
    unfolding next
    next-other d c other = lookup-insert c.rule_name rule _ d ∙ rw other refl

    roll_up-Kept :
        (checks : List (CheckResult Seconds)) (d : Dict (Verdict Seconds)) (v : Verdict Seconds)
        → lookup rule (roll d checks) ≡ some v
        → Kept (lookup rule d) checks v
    unfolding roll_up next
    roll_up-Kept [] d v h = record {
      above = λ w e. subst (λ x. rank w ≤ rank x) (some-injective (sym e ∙ h)) (omega arith);
      at_most = tt;
      from = inl (v, h, refl);
    }
    roll_up-Kept (c ∷ checks) d v h =
        let k = roll_up-Kept checks (next d c) v h in
        elim (Bool-cases (c.rule_name == rule)) [
          | inl same ↦
              let e = (eq_iff c.rule_name rule).0 same in
              Kept-same c checks (lookup rule d) v e
                (subst (λ o. Kept o checks v) (next-same d c e) k)
          | inr other ↦
              Kept-other c checks (lookup rule d) v (λ e. cc ((eq_iff c.rule_name rule).1 e))
                (subst (λ o. Kept o checks v) (next-other d c other) k)
        ]

    roll_up-Unnamed :
        (checks : List (CheckResult Seconds)) (d : Dict (Verdict Seconds))
        → lookup rule (roll d checks) ≡ none
        → (lookup rule d ≡ none) × Unnamed rule checks
    unfolding roll_up next
    roll_up-Unnamed [] d h = (h, tt)
    roll_up-Unnamed (c ∷ checks) d h =
        let (missing, unnamed) = roll_up-Unnamed checks (next d c) h in
        elim (Bool-cases (c.rule_name == rule)) [
          | inl same ↦ absurd (cc (missing, next-same d c ((eq_iff c.rule_name rule).0 same)))
          | inr other ↦ (
            sym (next-other d c other) ∙ missing,
            (λ e. cc ((eq_iff c.rule_name rule).1 e), unnamed),
          )
        ]

  -- If the verdicts of a run have one for a rule, and the checks of the run can be had, its status
  -- is that of a check of the rule, and no check of the rule has a status of a higher priority.
  pub fetch_verdicts-greatest :
      (is_zero : Seconds → Bool) (basename : String → String)
      (get_all_checks : String → Option (List (CheckResult Seconds))) (link rule : String)
      (checks : List (CheckResult Seconds)) (v : Verdict Seconds)
      → get_all_checks link ≡ some checks
      → lookup rule (fetch_verdicts Seconds is_zero basename get_all_checks link) ≡ some v
      → Checked rule v.status checks × AtMost rule v.status checks
  unfolding fetch_verdicts lookup
  fetch_verdicts-greatest is_zero basename get_all_checks link rule checks v had h =
      let k =
        roll_up-Kept is_zero basename get_all_checks rule checks [] v
          (rw (had, fetch_verdicts) at h) in
      elim k.from [ inl (w, p, q) ↦ cc | inr found ↦ (found, k.at_most) ]

  -- If the checks of a run can be had, a rule that has no verdict is named by none of them.
  pub fetch_verdicts-Unnamed :
      (is_zero : Seconds → Bool) (basename : String → String)
      (get_all_checks : String → Option (List (CheckResult Seconds))) (link rule : String)
      (checks : List (CheckResult Seconds))
      → get_all_checks link ≡ some checks
      → lookup rule (fetch_verdicts Seconds is_zero basename get_all_checks link) ≡ none
      → Unnamed rule checks
  unfolding fetch_verdicts
  fetch_verdicts-Unnamed is_zero basename get_all_checks link rule checks had h =
      (roll_up-Unnamed is_zero basename get_all_checks rule checks []
        (rw (had, fetch_verdicts) at h)).1
