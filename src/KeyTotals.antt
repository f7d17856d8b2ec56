-- ===== src/KeyTotals.antt =====
-- Sums over the values of a dictionary, and what a write or a `pop` does to them.
use certora_aicomposer.Prelude.{
  ℕ, ◌+◌, List, [], ◌∷◌, Option, none, some, ◌≡◌, refl, arith, inl, inr, Bool-cases, if◌then◌else◌,
}
use certora_aicomposer.Sets.{Eq}
use certora_aicomposer.KeyMap.{get, put}

module _ {K : Type 0} {V : Type 0} ⦃e : Eq K⦄ where
  -- `d.pop(k, default)` is `get` with this for the dictionary that stays.
  unfoldable pub pop : K → List (K × V) → List (K × V)
  pop k [] = []
  pop k ((j, v) ∷ d) = let rest = pop k d in if e.same j k then d else (j, v) ∷ rest

module _ {K : Type 0} {V : Type 0} (weight : V → ℕ) where
  abbrev pub total : List (K × V) → ℕ
  total [] = 0
  total ((k, v) ∷ d) = weight v + total d

abbrev pub weight_of : {V : Type 0} → (V → ℕ) → Option V → ℕ
weight_of weight none = 0
weight_of weight (some v) = weight v

module _ {K : Type 0} {V : Type 0} ⦃e : Eq K⦄ (weight : V → ℕ) where
  pub total-put :
      (k : K) (v : V) (d : List (K × V))
      → total weight (put k v d) + weight_of weight (get k d) ≡ total weight d + weight v
  unfolding get put
  total-put k v [] = omega arith
  total-put k v ((j, w) ∷ d) = elim (Bool-cases (e.same j k)) [
    | inl t ↦ rw t (omega arith)
    | inr f ↦ rw f (
        let ih : total weight (put k v d) + weight_of weight (get k d) ≡ total weight d + weight v =
          total-put k v d in
        omega arith)
  ]

  pub total-pop :
      (k : K) (d : List (K × V))
      → total weight (pop k d) + weight_of weight (get k d) ≡ total weight d
  unfolding get pop
  total-pop k [] = refl
  total-pop k ((j, w) ∷ d) = elim (Bool-cases (e.same j k)) [
    | inl t ↦ rw t (omega arith)
    | inr f ↦ rw f (
        let ih : total weight (pop k d) + weight_of weight (get k d) ≡ total weight d =
          total-pop k d in
        omega arith)
  ]
