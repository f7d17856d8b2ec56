-- ===== src/Report/Table.antt =====
-- The table of rules in `collect` of composer/spec/source/report/collect.py: how it grows, and what is
-- kept of it.
use certora_aicomposer.Prelude.{
  String, List, [], ◌∷◌, some, ◌≡◌, ◌⊎◌, inl, inr, refl, sym, ap, ◌∙◌, subst, map, Option-cases,
  Bool-cases,
}
use certora_aicomposer.Sets.{
  pair_eq, text_eq, In, Distinct, All, NotIn_of_not, In-NotIn, contains, contains→In, In→contains,
  In-map, In-of_map,
}
use certora_aicomposer.KeyMap.{
  get, put, keys_of, put-Distinct, All-put, get-In, put-keys_new, put-keys_old,
}
use certora_aicomposer.Sorting.{sorted_by, In-sorted_by, In-of_sorted_by}
use certora_aicomposer.Report.Verdict.{Verdict}
use certora_aicomposer.Report.Schema.{RuleRef, RuleVerdict}
use certora_aicomposer.Report.Collect.{
  ReportComponentInput, file_or, register, unreported, put_absent, fill, kept, rule_ref, ref_le,
}

module _ (Seconds : Type 0) where
  abbrev pub Table : Type 0
  Table = List (RuleRef × RuleVerdict Seconds)

  pub Keyed : RuleRef × RuleVerdict Seconds → Type 0
  Keyed (k, rv) = rule_ref Seconds rv ≡ k

  -- The table has one entry for each key, which is the entry's rule.
  pub record TableInv (rules : Table) : Type 0 where
    pub unique : Distinct (keys_of rules)
    pub keyed : All Keyed rules

  put-TableInv :
      (k : RuleRef) (rv : RuleVerdict Seconds) (rules : Table)
      → rule_ref Seconds rv ≡ k
      → TableInv rules
      → TableInv (put k rv rules)
  unfolding Keyed
  put-TableInv k rv rules e h = record {
    unique = put-Distinct k rv rules h.unique;
    keyed = All-put Keyed k rv rules e h.keyed;
  }

  -- An entry is only put where there is none.
  put_absent-TableInv :
      (k : RuleRef) (rv : RuleVerdict Seconds) (rules : Table)
      → rule_ref Seconds rv ≡ k
      → TableInv rules
      → TableInv (put_absent Seconds k rv rules)
  unfolding put_absent
  put_absent-TableInv k rv rules e h = elim (Option-cases (get k rules)) [
    | inl n ↦ rw (put_absent, n) (put-TableInv k rv rules e h)
    | inr (_, n) ↦ rw (put_absent, n) h
  ]

  pub register-TableInv :
      (inp : ReportComponentInput) (verdicts : List (String × Verdict Seconds)) (rules : Table)
      → TableInv rules
      → TableInv (register Seconds inp verdicts rules)
  unfolding register
  register-TableInv inp [] rules h = h
  register-TableInv inp ((rule, v) ∷ verdicts) rules h =
      register-TableInv inp verdicts _
        (put_absent-TableInv (file_or Seconds inp.spec_file v, rule) _ rules refl h)

  pub fill-TableInv :
      (refs : List RuleRef) (rules : Table) → TableInv rules → TableInv (fill Seconds refs rules)
  unfolding fill
  fill-TableInv [] rules h = h
  fill-TableInv (ref ∷ refs) rules h =
      fill-TableInv refs _ (put_absent-TableInv ref (unreported Seconds ref) rules refl h)

  -- Filling keeps the keys, and puts those that are missing.
  get-keys :
      (k : RuleRef) (rv : RuleVerdict Seconds) (rules : Table)
      → get k rules ≡ some rv
      → In k (keys_of rules)
  get-keys k rv rules h = pairs k rv rules (get-In k rv rules h)
    where
      pairs :
          (k : RuleRef) (rv : RuleVerdict Seconds) (rules : Table)
          → In (k, rv) rules
          → In k (keys_of rules)
      pairs k rv [] m = m
      pairs k rv ((j, w) ∷ rules) (inl p) = inl (ap (λ q. q.0) p)
      pairs k rv ((j, w) ∷ rules) (inr m) = inr (pairs k rv rules m)

  put_absent-old :
      (b k : RuleRef) (rv : RuleVerdict Seconds) (rules : Table)
      → In b (keys_of rules)
      → In b (keys_of (put_absent Seconds k rv rules))
  unfolding put_absent
  put_absent-old b k rv rules m = elim (Option-cases (get k rules)) [
    | inl n ↦ rw (put_absent, n) (put-keys_old b k rv rules m)
    | inr (_, n) ↦ rw (put_absent, n) m
  ]

  put_absent-new :
      (k : RuleRef) (rv : RuleVerdict Seconds) (rules : Table)
      → In k (keys_of (put_absent Seconds k rv rules))
  unfolding put_absent
  put_absent-new k rv rules = elim (Option-cases (get k rules)) [
    | inl n ↦ rw (put_absent, n) (put-keys_new k rv rules)
    | inr (w, n) ↦ rw (put_absent, n) (get-keys k w rules n)
  ]

  fill-old :
      (ref : RuleRef) (refs : List RuleRef) (rules : Table)
      → In ref (keys_of rules)
      → In ref (keys_of (fill Seconds refs rules))
  unfolding fill
  fill-old ref [] rules m = m
  fill-old ref (r ∷ refs) rules m =
      fill-old ref refs (put_absent Seconds r (unreported Seconds r) rules)
        (put_absent-old ref r (unreported Seconds r) rules m)

  pub fill-new :
      (ref : RuleRef) (refs : List RuleRef) (rules : Table)
      → In ref refs
      → In ref (keys_of (fill Seconds refs rules))
  unfolding fill
  fill-new ref [] rules m = elim m [ ]
  fill-new ref (r ∷ refs) rules (inr m) =
      fill-new ref refs (put_absent Seconds r (unreported Seconds r) rules) m
  fill-new ref (r ∷ refs) rules (inl p) =
      subst (λ c. In c (keys_of (fill Seconds (r ∷ refs) rules))) p
        (fill-old r refs (put_absent Seconds r (unreported Seconds r) rules)
          (put_absent-new r (unreported Seconds r) rules))

  -- What is kept of a table.
  pub kept-found :
      (ref : RuleRef) (referenced : List RuleRef) (rules : Table)
      → All Keyed rules
      → In ref referenced
      → In ref (keys_of rules)
      → In ref (map (rule_ref Seconds) (kept Seconds referenced rules))
  unfolding kept Keyed
  kept-found ref referenced [] h r m = m
  kept-found ref referenced ((k, rv) ∷ rules) h r m = elim (Bool-cases (contains k referenced)) [
    | inl t ↦
        rw t
          (elim m [ inl p ↦ inl (h.0 ∙ p) | inr i ↦ inr (kept-found ref referenced rules h.1 r i) ])
    | inr f ↦ rw f (elim m [
      | inl p ↦ cc (In→contains ref referenced r, ap (λ c. contains c referenced) p, f)
      | inr i ↦ kept-found ref referenced rules h.1 r i
    ])
  ]

  pub kept-used :
      (ref : RuleRef) (referenced : List RuleRef) (rules : Table)
      → All Keyed rules
      → In ref (map (rule_ref Seconds) (kept Seconds referenced rules))
      → In ref referenced × In ref (keys_of rules)
  unfolding kept Keyed
  kept-used ref referenced [] h m = elim m [ ]
  kept-used ref referenced ((k, rv) ∷ rules) h m = elim (Bool-cases (contains k referenced)) [
    | inl t ↦
        let here : (rule_ref Seconds rv ≡ ref)
            ⊎ In ref (map (rule_ref Seconds) (kept Seconds referenced rules)) =
          (rw t at m) in
        elim here [
          | inl p ↦
              let e : k ≡ ref = sym h.0 ∙ p in
              (subst (λ c. In c referenced) e (contains→In k referenced t), inl e)
          | inr i ↦ (
            (kept-used ref referenced rules h.1 i).0,
            inr (kept-used ref referenced rules h.1 i).1,
          )
        ]
    | inr f ↦
        let there : In ref (map (rule_ref Seconds) (kept Seconds referenced rules)) = (rw f at m) in
        (
          (kept-used ref referenced rules h.1 there).0,
          inr (kept-used ref referenced rules h.1 there).1,
        )
  ]

  pub kept-Distinct :
      (referenced : List RuleRef) (rules : Table)
      → TableInv rules
      → Distinct (map (rule_ref Seconds) (kept Seconds referenced rules))
  unfolding kept Keyed
  kept-Distinct referenced [] h = tt
  kept-Distinct referenced ((k, rv) ∷ rules) h =
      let rest : Distinct (map (rule_ref Seconds) (kept Seconds referenced rules)) =
        kept-Distinct referenced rules (record { unique = h.unique.1; keyed = h.keyed.1 }) in
      elim (Bool-cases (contains k referenced)) [
        | inr f ↦ rw f rest
        | inl t ↦ rw t (
          NotIn_of_not (rule_ref Seconds rv) _ (λ m.
              In-NotIn k (keys_of rules)
                (subst (λ c. In c (keys_of rules)) h.keyed.0
                  (kept-used (rule_ref Seconds rv) referenced rules h.keyed.1 m).1)
                h.unique.0),
          rest,
        )
      ]

  -- Sorting keeps the rules.
  pub In-refs_sorted :
      (ref : RuleRef) (rules : List (RuleVerdict Seconds))
      → In ref (map (rule_ref Seconds) rules)
      → In ref (map (rule_ref Seconds) (sorted_by (ref_le Seconds) rules))
  In-refs_sorted ref rules m =
      let i : (rv : RuleVerdict Seconds) × In rv rules × (rule_ref Seconds rv ≡ ref) =
        In-of_map (rule_ref Seconds) ref rules m in
      subst (λ c. In c (map (rule_ref Seconds) (sorted_by (ref_le Seconds) rules))) i.2
        (In-map (rule_ref Seconds) i.0 (sorted_by (ref_le Seconds) rules)
          (In-sorted_by (ref_le Seconds) i.0 rules i.1))

  pub In-of_refs_sorted :
      (ref : RuleRef) (rules : List (RuleVerdict Seconds))
      → In ref (map (rule_ref Seconds) (sorted_by (ref_le Seconds) rules))
      → In ref (map (rule_ref Seconds) rules)
  In-of_refs_sorted ref rules m =
      let i : (rv : RuleVerdict Seconds) × In rv (sorted_by (ref_le Seconds) rules)
          × (rule_ref Seconds rv ≡ ref) =
        In-of_map (rule_ref Seconds) ref (sorted_by (ref_le Seconds) rules) m in
      subst (λ c. In c (map (rule_ref Seconds) rules)) i.2
        (In-map (rule_ref Seconds) i.0 rules (In-of_sorted_by (ref_le Seconds) i.0 rules i.1))
