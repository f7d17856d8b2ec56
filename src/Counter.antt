-- ===== src/Counter.antt =====
-- Python's `Counter` over a list: how often a value stands in it.
use certora_aicomposer.Prelude.{
  ℕ, ◌+◌, ◌≤◌, suc, List, [], ◌∷◌, Option, none, some, ◌≡◌, ◌⊎◌, inl, inr, refl, sym, ap, ltb,
  le_of_not-ltb, arith, Bool-cases, if◌then◌else◌,
}
use certora_aicomposer.Sets.{Eq, In, NotIn, Distinct}
use certora_aicomposer.KeyMap.{
  get, put, keys_of, get-put_self, get-put_ne, put-Distinct, same-ne, ne-same, put-keys,
  put-keys_new, put-keys_old,
}

abbrev pub or_zero : Option ℕ → ℕ
or_zero none = 0
or_zero (some n) = n

module _ {K : Type 0} where
  -- `[k for k, c in appearance.items() if c > 1]`
  unfoldable pub repeated : List (K × ℕ) → List K
  repeated [] = []
  repeated ((k, n) ∷ d) = let rest = repeated d in if ltb 1 n then k ∷ rest else rest

module _ {K : Type 0} ⦃e : Eq K⦄ where
  -- `appearance[k]`
  abbrev pub tally : K → List (K × ℕ) → ℕ
  tally k d = or_zero (get k d)

  -- `for k in ks: appearance[k] += 1`
  unfoldable pub count_all : List (K × ℕ) → List K → List (K × ℕ)
  count_all d [] = d
  count_all d (k ∷ ks) = count_all (put k (suc (tally k d)) d) ks

  -- How often a value stands in a list.
  unfoldable pub times_in : K → List K → ℕ
  times_in k [] = 0
  times_in k (x ∷ xs) = let rest = times_in k xs in if e.same x k then suc rest else rest

  tally-put :
      (j k : K) (d : List (K × ℕ))
      → tally k (put j (suc (tally j d)) d) ≡ (if e.same j k then suc (tally k d) else tally k d)
  tally-put j k d = elim (Bool-cases (e.same j k)) [
    | inl t ↦ rw (t, sym (e.same→eq j k t)) (ap or_zero (get-put_self j (suc (tally j d)) d))
    | inr f ↦ rw f (ap or_zero (get-put_ne j k (suc (tally j d)) d (same-ne j k f)))
  ]

  tally-count_all :
      (k : K) (d : List (K × ℕ)) (ks : List K)
      → tally k (count_all d ks) ≡ tally k d + times_in k ks
  unfolding count_all times_in
  tally-count_all k d [] = omega arith
  tally-count_all k d (j ∷ ks) =
      ground (arith, tally-put j k d, tally-count_all k (put j (suc (tally j d)) d) ks)

  count_all-Distinct :
      (d : List (K × ℕ)) (ks : List K) → Distinct (keys_of d) → Distinct (keys_of (count_all d ks))
  unfolding count_all
  count_all-Distinct d [] h = h
  count_all-Distinct d (k ∷ ks) h =
      count_all-Distinct (put k (suc (tally k d)) d) ks (put-Distinct k (suc (tally k d)) d h)

  times_in-zero : (k : K) (ks : List K) → times_in k ks ≡ 0 → NotIn k ks
  unfolding times_in
  times_in-zero k [] h = tt
  times_in-zero k (x ∷ xs) h = elim (Bool-cases (e.same x k)) [
    | inl t ↦ absurd (omega (arith, (rw t at h)))
    | inr f ↦ (same-ne x k f, times_in-zero k xs (rw f at h))
  ]

  NotIn-times_in : (k : K) (ks : List K) → NotIn k ks → times_in k ks ≡ 0
  unfolding times_in
  NotIn-times_in k [] h = refl
  NotIn-times_in k (x ∷ xs) h = rw (ne-same x k h.0) (NotIn-times_in k xs h.1)

  times_in-Distinct : (ks : List K) → ((k : K) → times_in k ks ≤ 1) → Distinct ks
  unfolding times_in
  times_in-Distinct [] h = tt
  times_in-Distinct (x ∷ xs) h =
      let here : suc (times_in x xs) ≤ 1 = (rw (e.same_refl x) at (h x)) in
      (times_in-zero x xs (omega arith), times_in-Distinct xs (λ k. below k (h k)))
    where
      below : (k : K) → times_in k (x ∷ xs) ≤ 1 → times_in k xs ≤ 1
      below k b = elim (Bool-cases (e.same x k)) [
        | inl t ↦ let c : suc (times_in k xs) ≤ 1 = (rw t at b) in omega arith
        | inr f ↦ rw f at b
      ]

  Distinct-times_in : (ks : List K) (k : K) → Distinct ks → times_in k ks ≤ 1
  unfolding times_in
  Distinct-times_in [] k h = omega arith
  Distinct-times_in (x ∷ xs) k h = elim (Bool-cases (e.same x k)) [
    | inl t ↦
        let none_left : times_in k xs ≡ 0 = rw (sym (e.same→eq x k t)) (NotIn-times_in x xs h.0) in
        rw (t, none_left) (omega arith)
    | inr f ↦ rw f (Distinct-times_in xs k h.1)
  ]

  repeated-tally : (d : List (K × ℕ)) (k : K) → repeated d ≡ [] → tally k d ≤ 1
  unfolding repeated get
  repeated-tally [] k h = omega arith
  repeated-tally ((j, n) ∷ d) k h = elim (Bool-cases (ltb 1 n)) [
    | inl t ↦ cc (rw t at h)
    | inr f ↦ elim (Bool-cases (e.same j k)) [
      | inl s ↦ rw s (le_of_not-ltb 1 n f)
      | inr s ↦ rw s (repeated-tally d k (rw f at h))
    ]
  ]

  absent-get : (d : List (K × ℕ)) (k : K) → NotIn k (keys_of d) → get k d ≡ none
  unfolding get
  absent-get [] k h = refl
  absent-get ((j, n) ∷ d) k h = rw (ne-same j k h.0) (absent-get d k h.1)

  tally-repeated :
      (d : List (K × ℕ)) → Distinct (keys_of d) → ((k : K) → tally k d ≤ 1) → repeated d ≡ []
  unfolding repeated get
  tally-repeated [] u h = refl
  tally-repeated ((j, n) ∷ d) u h =
      let low : n ≤ 1 = (rw (e.same_refl j) at (h j)) in
      let rest : repeated d ≡ [] = tally-repeated d u.1 (λ k. tail k (h k)) in ground (arith, rest)
    where
      tail : (k : K) → tally k ((j, n) ∷ d) ≤ 1 → tally k d ≤ 1
      tail k b = elim (Bool-cases (e.same j k)) [
        | inl t ↦ rw (sym (e.same→eq j k t), absent-get d j u.0) (omega arith)
        | inr f ↦ rw f at b
      ]

  tally-count : (k : K) (ks : List K) → tally k (count_all [] ks) ≡ times_in k ks
  unfolding get
  tally-count k ks =
      let whole : tally k (count_all [] ks) ≡ 0 + times_in k ks = tally-count_all k [] ks in
      omega arith

  -- No value is counted twice exactly if the values are distinct.
  pub repeated-Distinct : (ks : List K) → repeated (count_all [] ks) ≡ [] → Distinct ks
  repeated-Distinct ks h =
      times_in-Distinct ks (λ k. rw (sym (tally-count k ks)) (repeated-tally (count_all [] ks) k h))

  pub Distinct-repeated : (ks : List K) → Distinct ks → repeated (count_all [] ks) ≡ []
  Distinct-repeated ks h =
      tally-repeated (count_all [] ks) (count_all-Distinct [] ks tt)
        (λ k. rw (tally-count k ks) (Distinct-times_in ks k h))

  -- The counted values are those of the list.
  pub count_all-keys :
      (b : K) (d : List (K × ℕ)) (ks : List K)
      → In b (keys_of (count_all d ks))
      → In b (keys_of d) ⊎ In b ks
  unfolding count_all
  count_all-keys b d [] h = inl h
  count_all-keys b d (k ∷ ks) h = elim (count_all-keys b (put k (suc (tally k d)) d) ks h) [
    | inr i ↦ inr (inr i)
    | inl i ↦ elim (put-keys b k (suc (tally k d)) d i) [ inl p ↦ inr (inl p) | inr q ↦ inl q ]
  ]

  count_all-old :
      (b : K) (d : List (K × ℕ)) (ks : List K) → In b (keys_of d) → In b (keys_of (count_all d ks))
  unfolding count_all
  count_all-old b d [] h = h
  count_all-old b d (k ∷ ks) h =
      count_all-old b (put k (suc (tally k d)) d) ks (put-keys_old b k (suc (tally k d)) d h)

  pub count_all-new :
      (b : K) (d : List (K × ℕ)) (ks : List K) → In b ks → In b (keys_of (count_all d ks))
  unfolding count_all
  count_all-new b d [] h = elim h [ ]
  count_all-new b d (k ∷ ks) (inl p) =
      count_all-old b (put k (suc (tally k d)) d) ks
        (rw (sym p) (put-keys_new k (suc (tally k d)) d))
  count_all-new b d (k ∷ ks) (inr m) = count_all-new b (put k (suc (tally k d)) d) ks m
