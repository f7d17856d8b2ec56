-- ===== src/Dict.antt =====
-- Python's `dict` with texts for keys: an association list in the order of insertion. Writing to
-- a key that is there keeps its place.
use text.Mathlib.Text.{◌==◌}
use text.Mathlib.TextEquality.{eq_iff}
use text.Mathlib.TextPositions.{eq_refl}
use certora_aicomposer.Prelude.{
  String, false, List, [], ◌∷◌, Option, none, some, ◌≡◌, ◌≢◌, ◌⊎◌, inl, inr, refl, sym, ◌∙◌, arith,
  Bool-cases, if◌then◌else◌,
}

abbrev pub Dict {ℓ} : Type ℓ → Type ℓ
Dict V = List (String × V)

module _ {ℓ} {V : Type ℓ} where
  -- `d.get(k)`
  unfoldable pub lookup : String → Dict V → Option V
  lookup k [] = none
  lookup k ((j, v) ∷ d) = if j == k then some v else lookup k d

  -- `d[k] = v`
  unfoldable pub insert : String → V → Dict V → Dict V
  insert k v [] = (k, v) ∷ []
  insert k v ((j, w) ∷ d) = if j == k then (j, v) ∷ d else (j, w) ∷ insert k v d

  pub lookup-insert :
      (k j : String) (v : V) (d : Dict V)
      → lookup j (insert k v d) ≡ (if k == j then some v else lookup j d)
  unfolding lookup insert
  lookup-insert k j v [] = refl
  lookup-insert k j v ((i, w) ∷ d) =
      ground (arith, eq_iff k j, eq_iff i k, eq_iff i j, lookup-insert k j v d)

pub test-ne : (k j : String) → k ≢ j → (k == j) ≡ false
test-ne k j ne = elim (Bool-cases (k == j)) [
  | inl same ↦ absurd (ne ((eq_iff k j).0 same))
  | inr other ↦ other
]

module _ {ℓ} {V : Type ℓ} where
  pub lookup-insert_self : (k : String) (v : V) (d : Dict V) → lookup k (insert k v d) ≡ some v
  lookup-insert_self k v d = rw (lookup-insert k k v d, eq_refl k)

  pub lookup-insert_ne :
      (k j : String) (v : V) (d : Dict V) → k ≢ j → lookup j (insert k v d) ≡ lookup j d
  lookup-insert_ne k j v d ne = rw (lookup-insert k j v d, test-ne k j ne)

  -- What a lookup finds after a write is the value written, at its key, or what was there before.
  pub found-insert :
      (k j : String) (v w : V) (d : Dict V)
      → lookup j (insert k v d) ≡ some w
      → (k ≡ j) × (v ≡ w) ⊎ (k ≢ j) × (lookup j d ≡ some w)
  found-insert k j v w d h = elim (Bool-cases (k == j)) [
    | inl same ↦
        let e = (eq_iff k j).0 same in
        let here : lookup j (insert j v d) ≡ some w = rw e at h in
        inl (e, cc (lookup-insert_self j v d))
    | inr other ↦
        let ne : k ≢ j = λ e. cc ((eq_iff k j).1 e) in
        inr (ne, sym (lookup-insert_ne k j v d ne) ∙ h)
  ]
