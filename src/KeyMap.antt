-- ===== src/KeyMap.antt =====
-- Python's `dict` with keys of any type that has an equality, in the order of insertion, and sorting.
use certora_aicomposer.Prelude.{
  false, List, [], ◌∷◌, Option, none, some, ◌≡◌, ◌⊎◌, inl, inr, refl, sym, ap, ◌∙◌, subst,
  Bool-cases, if◌then◌else◌,
}
use certora_aicomposer.Sets.{Eq, In, NotIn, Distinct, All}

module _ {K : Type 0} {V : Type 0} ⦃e : Eq K⦄ where
  -- `d.get(k)`
  unfoldable pub get : K → List (K × V) → Option V
  get k [] = none
  get k ((j, v) ∷ d) = if e.same j k then some v else get k d

  -- `d[k] = v`
  unfoldable pub put : K → V → List (K × V) → List (K × V)
  put k v [] = (k, v) ∷ []
  put k v ((j, w) ∷ d) = if e.same j k then (j, v) ∷ d else (j, w) ∷ put k v d

  -- `{k: v for (k, v) in pairs}`, over what is there already.
  unfoldable pub put_all : List (K × V) → List (K × V) → List (K × V)
  put_all d [] = d
  put_all d ((k, v) ∷ pairs) = put_all (put k v d) pairs

module _ {K : Type 0} {V : Type 0} where
  abbrev pub keys_of : List (K × V) → List K
  keys_of [] = []
  keys_of ((k, v) ∷ d) = k ∷ keys_of d

  abbrev pub values_of : List (K × V) → List V
  values_of [] = []
  values_of ((k, v) ∷ d) = v ∷ values_of d

module _ {K : Type 0} ⦃e : Eq K⦄ where
  pub same-ne : (j k : K) → e.same j k ≡ false → ¬ (j ≡ k)
  same-ne j k f p = cc (ap (e.same j) p, e.same_refl j)

  pub ne-same : (j k : K) → ¬ (j ≡ k) → e.same j k ≡ false
  ne-same j k n = elim (Bool-cases (e.same j k)) [
    | inl t ↦ absurd (n (e.same→eq j k t))
    | inr f ↦ f
  ]

module _ {K : Type 0} {V : Type 0} ⦃e : Eq K⦄ where
  pub get-put_self : (k : K) (v : V) (d : List (K × V)) → get k (put k v d) ≡ some v
  unfolding get put
  get-put_self k v [] = rw (e.same_refl k) refl
  get-put_self k v ((j, w) ∷ d) = elim (Bool-cases (e.same j k)) [
    | inl t ↦ rw (t, t) refl
    | inr f ↦ rw (f, f) (get-put_self k v d)
  ]

  pub get-put_ne : (k j : K) (v : V) (d : List (K × V)) → ¬ (k ≡ j) → get j (put k v d) ≡ get j d
  unfolding get put
  get-put_ne k j v [] n = rw (ne-same k j n) refl
  get-put_ne k j v ((i, w) ∷ d) n = elim (Bool-cases (e.same i k)) [
    | inl t ↦
        let other : e.same i j ≡ false = ne-same i j (λ p. n (sym (e.same→eq i k t) ∙ p)) in
        rw (t, other) refl
    | inr f ↦ rw f (ap (λ o. if e.same i j then some w else o) (get-put_ne k j v d n))
  ]

  NotIn-put :
      (i k : K) (v : V) (d : List (K × V))
      → ¬ (k ≡ i)
      → NotIn i (keys_of d)
      → NotIn i (keys_of (put k v d))
  unfolding put
  NotIn-put i k v [] n h = (n, tt)
  NotIn-put i k v ((j, w) ∷ d) n h = elim (Bool-cases (e.same j k)) [
    | inl t ↦ rw t h
    | inr f ↦ rw f (h.0, NotIn-put i k v d n h.1)
  ]

  pub put-Distinct :
      (k : K) (v : V) (d : List (K × V)) → Distinct (keys_of d) → Distinct (keys_of (put k v d))
  unfolding put
  put-Distinct k v [] h = (tt, tt)
  put-Distinct k v ((j, w) ∷ d) h = elim (Bool-cases (e.same j k)) [
    | inl t ↦ rw t h
    | inr f ↦ rw f (NotIn-put j k v d (λ p. same-ne j k f (sym p)) h.0, put-Distinct k v d h.1)
  ]

  -- A property of the entries that a write keeps.
  pub All-put :
      (P : K × V → Type 0) (k : K) (v : V) (d : List (K × V))
      → P (k, v)
      → All P d
      → All P (put k v d)
  unfolding put
  All-put P k v [] p a = (p, tt)
  All-put P k v ((j, w) ∷ d) p a = elim (Bool-cases (e.same j k)) [
    | inl t ↦ rw t (subst (λ i. P (i, v)) (sym (e.same→eq j k t)) p, a.1)
    | inr f ↦ rw f (a.0, All-put P k v d p a.1)
  ]

  pub get-In : (k : K) (v : V) (d : List (K × V)) → get k d ≡ some v → In (k, v) d
  unfolding get
  get-In k v [] h = cc
  get-In k v ((j, w) ∷ d) h = elim (Bool-cases (e.same j k)) [
    | inl t ↦ inl (cc (e.same→eq j k t, rw t at h))
    | inr f ↦ inr (get-In k v d (rw f at h))
  ]

  pub put-keys :
      (b k : K) (v : V) (d : List (K × V)) → In b (keys_of (put k v d)) → (k ≡ b) ⊎ In b (keys_of d)
  unfolding put
  put-keys b k v [] h = h
  put-keys b k v ((j, w) ∷ d) h = elim (Bool-cases (e.same j k)) [
    | inl t ↦ inr (rw t at h)
    | inr f ↦
        let here : (j ≡ b) ⊎ In b (keys_of (put k v d)) = (rw f at h) in
        elim here [
          | inl p ↦ inr (inl p)
          | inr i ↦ elim (put-keys b k v d i) [ inl p ↦ inl p | inr q ↦ inr (inr q) ]
        ]
  ]

  pub put-keys_new : (k : K) (v : V) (d : List (K × V)) → In k (keys_of (put k v d))
  unfolding put
  put-keys_new k v [] = inl refl
  put-keys_new k v ((j, w) ∷ d) = elim (Bool-cases (e.same j k)) [
    | inl t ↦ rw t (inl (e.same→eq j k t))
    | inr f ↦ rw f (inr (put-keys_new k v d))
  ]

  pub put-keys_old :
      (b k : K) (v : V) (d : List (K × V)) → In b (keys_of d) → In b (keys_of (put k v d))
  unfolding put
  put-keys_old b k v [] h = inr h
  put-keys_old b k v ((j, w) ∷ d) h = elim (Bool-cases (e.same j k)) [
    | inl t ↦ rw t h
    | inr f ↦ rw f (elim h [ inl p ↦ inl p | inr q ↦ inr (put-keys_old b k v d q) ])
  ]
