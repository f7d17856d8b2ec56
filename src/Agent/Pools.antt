-- ===== src/Agent/Pools.antt =====
-- The pools of hits that `asearch` of composer/spec/agent_index.py merges: which hit is the best, and
-- what is left when it is popped.
use certora_aicomposer.Prelude.{
  ℕ, zero, suc, ◌+◌, Bool, true, false, List, [], ◌∷◌, none, some, ◌≡◌, ◌⊎◌, inl, inr, refl, sym,
  ap, arith, Bool-cases, if◌then◌else◌, subst,
}
use certora_aicomposer.Sets.{In, All}
use certora_aicomposer.Agent.Index.{Hit}
use certora_aicomposer.Agent.Merge.{peeks, best_from, best, pop_at, total}

-- `greater` is a strict order whose negation is transitive, as it is for numbers.
pub record ScoreOrder (Score : Type 0) (greater : Score → Score → Bool) : Type 0 where
  pub asymm : (a b : Score) → greater a b ≡ true → greater b a ≡ false
  pub trans : (a b c : Score) → greater a b ≡ false → greater b c ≡ false → greater a c ≡ false

module _ (Score : Type 0) (greater : Score → Score → Bool) where
  -- The pool with the index begins with the hit.
  abbrev pub Begins : ℕ → Hit Score → List (List (Hit Score)) → Type 0
  Begins i h [] = ⊥
  Begins zero h ([] ∷ pools) = ⊥
  Begins zero h ((g ∷ rest) ∷ pools) = g ≡ h
  Begins (suc i) h (pool ∷ pools) = Begins i h pools

  -- One of the pools has the hit.
  abbrev pub From : Hit Score → List (List (Hit Score)) → Type 0
  From y [] = ⊥
  From y (pool ∷ pools) = In y pool ⊎ From y pools

  -- No hit of the list has a greater score.
  abbrev pub Below : Score → List (Hit Score) → Type 0
  Below s = All (λ g. greater g.score s ≡ false)

  -- No hit is followed by one of a greater score.
  abbrev pub Descending : List (Hit Score) → Type 0
  Descending [] = Unit {0}
  Descending (h ∷ rest) = Below h.score rest × Descending rest

  pub total-pop_at :
      (i : ℕ) (h : Hit Score) (pools : List (List (Hit Score)))
      → Begins i h pools
      → total Score greater pools ≡ suc (total Score greater (pop_at Score greater i pools))
  unfolding total pop_at
  total-pop_at i h [] b = elim b [ ]
  total-pop_at zero h ([] ∷ pools) b = elim b [ ]
  total-pop_at zero h ((g ∷ rest) ∷ pools) b = omega arith
  total-pop_at (suc i) h (pool ∷ pools) b = omega (arith, total-pop_at i h pools b)

  -- What holds of all hits and is kept by `pop`.
  pub All-pop_at :
      (P : List (Hit Score) → Type 0)
      → ((h : Hit Score) (rest : List (Hit Score)) → P (h ∷ rest) → P rest)
      → (i : ℕ) (pools : List (List (Hit Score))) → All P pools
      → All P (pop_at Score greater i pools)
  unfolding pop_at
  All-pop_at P drop i [] a = tt
  All-pop_at P drop zero ([] ∷ pools) a = a
  All-pop_at P drop zero ((h ∷ rest) ∷ pools) a = (drop h rest a.0, a.1)
  All-pop_at P drop (suc i) (pool ∷ pools) a = (a.0, All-pop_at P drop i pools a.1)

  -- What holds of the popped hit and of all that are left holds of all.
  pub All_of_pop :
      (P : Hit Score → Type 0) (i : ℕ) (h : Hit Score) (pools : List (List (Hit Score)))
      → Begins i h pools
      → P h
      → All (All P) (pop_at Score greater i pools)
      → All (All P) pools
  unfolding pop_at
  All_of_pop P i h [] b p a = elim b [ ]
  All_of_pop P zero h ([] ∷ pools) b p a = elim b [ ]
  All_of_pop P zero h ((g ∷ rest) ∷ pools) b p a = ((subst P (sym b) p, a.0), a.1)
  All_of_pop P (suc i) h (pool ∷ pools) b p a = (a.0, All_of_pop P i h pools b p a.1)

  pub All-Begins :
      (P : Hit Score → Type 0) (i : ℕ) (h : Hit Score) (pools : List (List (Hit Score)))
      → All (All P) pools
      → Begins i h pools
      → P h
  All-Begins P i h [] a b = elim b [ ]
  All-Begins P zero h ([] ∷ pools) a b = elim b [ ]
  All-Begins P zero h ((g ∷ rest) ∷ pools) a b = subst P b a.0.0
  All-Begins P (suc i) h (pool ∷ pools) a b = All-Begins P i h pools a.1 b

  pub From-Begins :
      (i : ℕ) (h : Hit Score) (pools : List (List (Hit Score))) → Begins i h pools → From h pools
  From-Begins i h [] b = b
  From-Begins zero h ([] ∷ pools) b = elim b [ ]
  From-Begins zero h ((g ∷ rest) ∷ pools) b = inl (inl b)
  From-Begins (suc i) h (pool ∷ pools) b = inr (From-Begins i h pools b)

  pub From-pop_at :
      (i : ℕ) (y : Hit Score) (pools : List (List (Hit Score)))
      → From y (pop_at Score greater i pools)
      → From y pools
  unfolding pop_at
  From-pop_at i y [] m = m
  From-pop_at zero y ([] ∷ pools) m = m
  From-pop_at zero y ((h ∷ rest) ∷ pools) (inl k) = inl (inr k)
  From-pop_at zero y ((h ∷ rest) ∷ pools) (inr k) = inr k
  From-pop_at (suc i) y (pool ∷ pools) (inl k) = inl k
  From-pop_at (suc i) y (pool ∷ pools) (inr k) = inr (From-pop_at i y pools k)

  -- The entry is a peek of the pools, numbered from `k` on.
  abbrev Peek : ℕ → List (List (Hit Score)) → ℕ × Hit Score → Type 0
  Peek k pools x = (j : ℕ) × (x.0 ≡ k + j) × Begins j x.1 pools

  later :
      (k : ℕ) (pool : List (Hit Score)) (pools : List (List (Hit Score)))
      (xs : List (ℕ × Hit Score))
      → All (Peek (suc k) pools) xs
      → All (Peek k (pool ∷ pools)) xs
  later k pool pools [] a = tt
  later k pool pools (x ∷ xs) a =
      let (j, e, b) = a.0 in ((suc j, omega arith, b), later k pool pools xs a.1)

  peeks-Peek :
      (k : ℕ) (pools : List (List (Hit Score))) → All (Peek k pools) (peeks Score greater k pools)
  unfolding peeks
  peeks-Peek k [] = tt
  peeks-Peek k ([] ∷ pools) = later k [] pools _ (peeks-Peek (suc k) pools)
  peeks-Peek k ((h ∷ rest) ∷ pools) =
      ((0, omega arith, refl), later k (h ∷ rest) pools _ (peeks-Peek (suc k) pools))

  best_from-All :
      (P : ℕ × Hit Score → Type 0) (m : ℕ × Hit Score) (xs : List (ℕ × Hit Score))
      → P m
      → All P xs
      → P (best_from Score greater m xs)
  unfolding best_from
  best_from-All P m [] p a = p
  best_from-All P m (x ∷ xs) p a = elim (Bool-cases (greater x.1.score m.1.score)) [
    | inl t ↦ rw t (best_from-All P x xs a.0 a.1)
    | inr f ↦ rw f (best_from-All P m xs p a.1)
  ]

  some-injective : {a b : ℕ × Hit Score} → some a ≡ some b → a ≡ b
  some-injective h = cc

  best-All :
      (P : ℕ × Hit Score → Type 0) (xs : List (ℕ × Hit Score)) (b : ℕ × Hit Score)
      → best Score greater xs ≡ some b
      → All P xs
      → P b
  unfolding best
  best-All P [] b e a = cc
  best-All P (x ∷ xs) b e a = subst P (some-injective e) (best_from-All P x xs a.0 a.1)

  best_from_if :
      (m x : ℕ × Hit Score) (xs : List (ℕ × Hit Score)) {b : Bool}
      → greater x.1.score m.1.score ≡ b
      → best_from Score greater m (x ∷ xs) ≡ best_from Score greater (if b then x else m) xs
  unfolding best_from
  best_from_if m x xs e = ap (λ c. best_from Score greater (if c then x else m) xs) e

  module _ (order : ScoreOrder Score greater) where
    irrefl : (a : Score) → greater a a ≡ false
    irrefl a = elim (Bool-cases (greater a a)) [ inl t ↦ order.asymm a a t | inr f ↦ f ]

    Below-trans :
        (s t : Score) (pool : List (Hit Score)) → Below s pool → greater s t ≡ false → Below t pool
    Below-trans s t [] b h = tt
    Below-trans s t (g ∷ pool) b h = (order.trans g.score s t b.0 h, Below-trans s t pool b.1 h)

    -- No entry has a greater score than `b`.
    abbrev Top : List (ℕ × Hit Score) → ℕ × Hit Score → Type 0
    Top xs b = All (λ x. greater x.1.score b.1.score ≡ false) xs

    best_from-Top :
        (m : ℕ × Hit Score) (xs : List (ℕ × Hit Score))
        → Top (m ∷ xs) (best_from Score greater m xs)
    unfolding best_from
    best_from-Top m [] = (irrefl m.1.score, tt)
    best_from-Top m (x ∷ xs) = elim (Bool-cases (greater x.1.score m.1.score)) [
      | inl t ↦
          let (top, all) = best_from-Top x xs in
          subst (Top (m ∷ x ∷ xs)) (sym (best_from_if m x xs t))
            (order.trans _ _ _ (order.asymm _ _ t) top, (top, all))
      | inr f ↦
          let (top, all) = best_from-Top m xs in
          subst (Top (m ∷ x ∷ xs)) (sym (best_from_if m x xs f))
            (top, (order.trans _ _ _ f top, all))
    ]

    -- Where the pools descend, what is at least every peek is at least every hit.
    peeks-Below :
        (k : ℕ) (s : Score) (pools : List (List (Hit Score)))
        → All (λ x. greater x.1.score s ≡ false) (peeks Score greater k pools)
        → All Descending pools
        → All (Below s) pools
    unfolding peeks
    peeks-Below k s [] a d = tt
    peeks-Below k s ([] ∷ pools) a d = (tt, peeks-Below (suc k) s pools a d.1)
    peeks-Below k s ((h ∷ rest) ∷ pools) a d =
        ((a.0, Below-trans h.score s rest d.0.0 a.0), peeks-Below (suc k) s pools a.1 d.1)

    best-top_of :
        (xs : List (ℕ × Hit Score)) (b : ℕ × Hit Score)
        → best Score greater xs ≡ some b
        → All (λ x. greater x.1.score b.1.score ≡ false) xs
    unfolding best
    best-top_of [] b e = cc
    best-top_of (x ∷ xs) b e = subst (Top (x ∷ xs)) (some-injective e) (best_from-Top x xs)

    -- The best hit begins the pool with its index, and no hit of the pools has a greater score.
    pub best-top :
        (pools : List (List (Hit Score))) (i : ℕ) (h : Hit Score)
        → All Descending pools
        → best Score greater (peeks Score greater 0 pools) ≡ some (i, h)
        → Begins i h pools × All (Below h.score) pools
    best-top pools i h d e =
        let (j, q, b) = best-All (Peek 0 pools) _ (i, h) e (peeks-Peek 0 pools) in
        let same : i ≡ j = omega arith in
        (
          subst (λ n. Begins n h pools) (sym same) b,
          peeks-Below 0 h.score pools (best-top_of _ (i, h) e) d,
        )

  none_left :
      (k : ℕ) (pools : List (List (Hit Score))) (P : Hit Score → Type 0)
      → best Score greater (peeks Score greater k pools) ≡ none
      → All (All P) pools
  unfolding best peeks
  none_left k [] P e = tt
  none_left k ([] ∷ pools) P e = (tt, none_left (suc k) pools P e)
  none_left k ((h ∷ rest) ∷ pools) P e = cc

  pub best-eq-none :
      (pools : List (List (Hit Score))) (P : Hit Score → Type 0)
      → best Score greater (peeks Score greater 0 pools) ≡ none
      → All (All P) pools
  best-eq-none pools P e = none_left 0 pools P e
