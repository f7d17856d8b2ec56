-- ===== src/Report/Partition.antt =====
-- What composer/spec/source/report/coverage.py accepts: a grouping in which no property stands twice
-- and no member is unknown.
use certora_aicomposer.Prelude.{
  ℕ, ◌≤◌, ◌<◌, List, [], ◌∷◌, ◌≡◌, ◌⊎◌, inl, inr, refl, sym, subst, map, ltb, ltb→lt, le_of_not-ltb,
  Bool-cases, arith,
}
use certora_aicomposer.Sets.{
  pair_eq, In, NotIn, Distinct, All, All-In, All_of_In, NotIn_of_not, In-NotIn, contains,
  contains→In, contains→NotIn, set_of, add_all-new, add_all-cases, minus, In-minus, In-of_minus,
}
use certora_aicomposer.KeyMap.{keys_of}
use certora_aicomposer.Counter.{
  count_all, repeated, repeated-Distinct, Distinct-repeated, count_all-keys, count_all-new,
}
use certora_aicomposer.Sorting.{pair_le, In-sorted_by, In-of_sorted_by}
use certora_aicomposer.Report.Schema.{
  PropertyKey, RuleVerdict, FormalizedProperty, key, SkippedClaim, GaveUpComponent, PropertyGroup,
  CoverageReport,
}
use certora_aicomposer.Report.Coverage.{
  Validation, all_members, smallest, largest, min_size, max_size, sizes_of, excess, missing,
  covered, after_excess, after_multi, validate,
}

abbrev pub keys : List FormalizedProperty → List PropertyKey
keys properties = map key properties

-- The groups are a partition of the properties but for those that the report lists.
pub record Partition (properties : List FormalizedProperty) (groups : List PropertyGroup)
    (report : CoverageReport) : Type 0 where
  pub once : Distinct (all_members groups)
  pub existing : All (λ k. In k (keys properties)) (all_members groups)
  pub left_out :
      All (λ k. In k (keys properties) × NotIn k (all_members groups)) report.properties_in_no_group
  pub accounted :
      All (λ k. In k (all_members groups) ⊎ In k report.properties_in_no_group) (keys properties)

smallest-le : (n : ℕ) (ms : List ℕ) → (smallest n ms ≤ n) × All (λ m. smallest n ms ≤ m) ms
unfolding smallest
smallest-le n [] = (omega arith, tt)
smallest-le n (m ∷ ms) = elim (Bool-cases (ltb m n)) [
  | inl t ↦
      let ih : (smallest m ms ≤ m) × All (λ i. smallest m ms ≤ i) ms = smallest-le m ms in
      let same : smallest n (m ∷ ms) ≡ smallest m ms = rw t refl in
      let less : m < n = ltb→lt m n t in
      subst (λ v. (v ≤ n) × All (λ i. v ≤ i) (m ∷ ms)) (sym same)
        (omega (arith, ih.0, less), (ih.0, ih.1))
  | inr f ↦
      let ih : (smallest n ms ≤ n) × All (λ i. smallest n ms ≤ i) ms = smallest-le n ms in
      let same : smallest n (m ∷ ms) ≡ smallest n ms = rw f refl in
      let low : n ≤ m = le_of_not-ltb m n f in
      subst (λ v. (v ≤ n) × All (λ i. v ≤ i) (m ∷ ms)) (sym same)
        (ih.0, (omega (arith, ih.0, low), ih.1))
]

largest-ge : (n : ℕ) (ms : List ℕ) → (n ≤ largest n ms) × All (λ m. m ≤ largest n ms) ms
unfolding largest
largest-ge n [] = (omega arith, tt)
largest-ge n (m ∷ ms) = elim (Bool-cases (ltb n m)) [
  | inl t ↦
      let ih : (m ≤ largest m ms) × All (λ i. i ≤ largest m ms) ms = largest-ge m ms in
      let same : largest n (m ∷ ms) ≡ largest m ms = rw t refl in
      let less : n < m = ltb→lt n m t in
      subst (λ v. (n ≤ v) × All (λ i. i ≤ v) (m ∷ ms)) (sym same)
        (omega (arith, ih.0, less), (ih.0, ih.1))
  | inr f ↦
      let ih : (n ≤ largest n ms) × All (λ i. i ≤ largest n ms) ms = largest-ge n ms in
      let same : largest n (m ∷ ms) ≡ largest n ms = rw f refl in
      let low : m ≤ n = le_of_not-ltb n m f in
      subst (λ v. (n ≤ v) × All (λ i. i ≤ v) (m ∷ ms)) (sym same)
        (ih.0, (omega (arith, ih.0, low), ih.1))
]

-- A number between two others.
abbrev pub Within : ℕ → ℕ → ℕ → Type 0
Within low high n = (low ≤ n) × (n ≤ high)

sizes-Within : (sizes : List ℕ) → All (Within (min_size sizes) (max_size sizes)) sizes
unfolding min_size max_size
sizes-Within [] = tt
sizes-Within (n ∷ sizes) = (
  ((smallest-le n sizes).0, (largest-ge n sizes).0),
  All_of_In (Within (smallest n sizes) (largest n sizes)) sizes (λ m i. (
    All-In (λ j. smallest n sizes ≤ j) m sizes (smallest-le n sizes).1 i,
    All-In (λ j. j ≤ largest n sizes) m sizes (largest-ge n sizes).1 i,
  )),
)

module _ {Seconds : Type 0} (properties : List FormalizedProperty)
    (rules : List (RuleVerdict Seconds)) (groups : List PropertyGroup) (skipped : List SkippedClaim)
    (gave_up : List GaveUpComponent) (dropped : ℕ) where
  abbrev members : List PropertyKey
  members = all_members groups

  In-all_keys : (k : PropertyKey) → In k (keys properties) → In k (set_of (keys properties))
  In-all_keys k m = add_all-new k [] (keys properties) m

  In-of_all_keys : (k : PropertyKey) → In k (set_of (keys properties)) → In k (keys properties)
  In-of_all_keys k m = elim (add_all-cases k [] (keys properties) m) [
    | inl e ↦ elim e [ ]
    | inr i ↦ i
  ]

  In-of_appearance : (k : PropertyKey) → In k (keys_of (count_all [] members)) → In k members
  In-of_appearance k m = elim (count_all-keys k [] members m) [ inl e ↦ elim e [ ] | inr i ↦ i ]

  -- Every key of the groups is known, from the empty list of unknown ones.
  excess-existing :
      excess properties rules groups skipped gave_up dropped ≡ []
      → All (λ k. In k (keys properties)) members
  excess-existing h = All_of_In (λ k. In k (keys properties)) members known
    where
      known : (k : PropertyKey) → In k members → In k (keys properties)
      known k m = elim (Bool-cases (contains k (set_of (keys properties)))) [
        | inl t ↦ In-of_all_keys k (contains→In k (set_of (keys properties)) t)
        | inr f ↦ absurd (
            subst (In k) h (
              In-sorted_by pair_le k
                (minus (keys_of (count_all [] members)) (set_of (keys properties)))
                (In-minus k (keys_of (count_all [] members)) (set_of (keys properties))
                  (count_all-new k [] members m) (contains→NotIn k (set_of (keys properties)) f))))
      ]

  no_member : (xs : List PropertyKey) → ((k : PropertyKey) → ¬ In k xs) → xs ≡ []
  no_member [] h = refl
  no_member (x ∷ xs) h = absurd (h x (inl refl))

  existing-excess :
      All (λ k. In k (keys properties)) members
      → excess properties rules groups skipped gave_up dropped ≡ []
  existing-excess h = no_member (excess properties rules groups skipped gave_up dropped) (λ k m.
      let i : In k (keys_of (count_all [] members)) × NotIn k (set_of (keys properties)) =
        In-of_minus k (keys_of (count_all [] members)) (set_of (keys properties)) (
          In-of_sorted_by pair_le k
            (minus (keys_of (count_all [] members)) (set_of (keys properties))) m) in
      In-NotIn k (set_of (keys properties))
        (In-all_keys k (All-In (λ j. In j (keys properties)) k members h (In-of_appearance k i.0)))
        i.1)

  missing-left_out :
      All
        (λ k. In k (keys properties) × NotIn k members)
        (missing properties rules groups skipped gave_up dropped)
  missing-left_out =
      All_of_In (λ k. In k (keys properties) × NotIn k members)
        (missing properties rules groups skipped gave_up dropped)
        (λ k m.
          let i : In k (set_of (keys properties)) × NotIn k (keys_of (count_all [] members)) =
            In-of_minus k (set_of (keys properties)) (keys_of (count_all [] members)) (
              In-of_sorted_by pair_le k
                (minus (set_of (keys properties)) (keys_of (count_all [] members))) m) in
          (
            In-of_all_keys k i.0,
            NotIn_of_not k members (λ j.
                In-NotIn k (keys_of (count_all [] members)) (count_all-new k [] members j) i.1),
          ))

  missing-accounted :
      All
        (λ k. In k members ⊎ In k (missing properties rules groups skipped gave_up dropped))
        (keys properties)
  missing-accounted =
      All_of_In (λ k. In k members ⊎ In k (missing properties rules groups skipped gave_up dropped))
        (keys properties)
        (λ k m. elim (Bool-cases (contains k (keys_of (count_all [] members)))) [
          | inl t ↦ inl (In-of_appearance k (contains→In k (keys_of (count_all [] members)) t))
          | inr f ↦ inr (
              In-sorted_by pair_le k
                (minus (set_of (keys properties)) (keys_of (count_all [] members)))
                (In-minus k (set_of (keys properties)) (keys_of (count_all [] members))
                  (In-all_keys k m) (contains→NotIn k (keys_of (count_all [] members)) f)))
        ])

  after_excess-valid :
      (ks : List PropertyKey) (report : CoverageReport)
      → after_excess properties rules groups skipped gave_up dropped ks ≡ Validation.valid report
      → (ks ≡ []) × (covered properties rules groups skipped gave_up dropped ≡ report)
  after_excess-valid [] report h = (refl, cc h)
  after_excess-valid (k ∷ ks) report h = cc h

  after_multi-valid :
      (ks : List PropertyKey) (report : CoverageReport)
      → after_multi properties rules groups skipped gave_up dropped ks ≡ Validation.valid report
      → (ks ≡ [])
        × (after_excess properties rules groups skipped gave_up dropped
              (excess properties rules groups skipped gave_up dropped)
            ≡ Validation.valid report)
  after_multi-valid [] report h = (refl, h)
  after_multi-valid (k ∷ ks) report h = cc h

  -- A grouping that is accepted is a partition of the properties, but for those that the report
  -- lists in no group.
  pub validate-Partition :
      (report : CoverageReport)
      → validate properties rules groups skipped gave_up dropped ≡ Validation.valid report
      → Partition properties groups report
  unfolding validate
  validate-Partition report h =
      let m : (repeated (count_all [] members) ≡ [])
          × (after_excess properties rules groups skipped gave_up dropped
                (excess properties rules groups skipped gave_up dropped)
              ≡ Validation.valid report) =
        after_multi-valid (repeated (count_all [] members)) report h in
      let x : (excess properties rules groups skipped gave_up dropped ≡ [])
          × (covered properties rules groups skipped gave_up dropped ≡ report) =
        after_excess-valid (excess properties rules groups skipped gave_up dropped) report m.1 in
      subst (Partition properties groups) x.1 (record {
        once = repeated-Distinct members m.0;
        existing = excess-existing x.0;
        left_out = missing-left_out;
        accounted = missing-accounted;
      })

  -- A grouping without a property twice and without an unknown one is accepted, with the report of
  -- what it covers.
  pub validate-covered :
      Distinct (all_members groups)
      → All (λ k. In k (map key properties)) (all_members groups)
      → validate properties rules groups skipped gave_up dropped
        ≡ Validation.valid (covered properties rules groups skipped gave_up dropped)
  unfolding validate
  validate-covered once existing =
      rw (Distinct-repeated members once, existing-excess existing) refl

  -- If the grouping is accepted, then no group is smaller than the least size of the report or larger
  -- than the greatest.
  pub validate-Within :
      (report : CoverageReport)
      → validate properties rules groups skipped gave_up dropped ≡ Validation.valid report
      → All
          (Within report.properties_per_group_min report.properties_per_group_max)
          (sizes_of groups)
  unfolding validate
  validate-Within report h =
      let m : (repeated (count_all [] members) ≡ [])
          × (after_excess properties rules groups skipped gave_up dropped
                (excess properties rules groups skipped gave_up dropped)
              ≡ Validation.valid report) =
        after_multi-valid (repeated (count_all [] members)) report h in
      subst
        (λ r. All (Within r.properties_per_group_min r.properties_per_group_max) (sizes_of groups))
        (after_excess-valid (excess properties rules groups skipped gave_up dropped) report m.1).1
        (sizes-Within (sizes_of groups))
