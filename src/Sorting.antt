-- ===== src/Sorting.antt =====
-- Python's `sorted`: a stable sort of a list by an order that is given as a test.
use Prim.Native.String.{compare}
use Prim.Native.Nat.{Ordering}
use certora_aicomposer.Prelude.{
  String, Bool, true, false, List, [], ◌∷◌, ◌≡◌, ◌⊎◌, inl, inr, sym, Bool-cases, if◌then◌else◌,
}
use certora_aicomposer.Sets.{In, NotIn, Distinct}

-- `a <= b` for texts, by code points, and for tuples of two texts.
unfoldable pub text_le : String → String → Bool
text_le a b = elim (compare a b) [ Ordering.gt ↦ false | _ ↦ true ]

unfoldable pub pair_le : String × String → String × String → Bool
pair_le (a, b) (c, d) = elim (compare a c) [
  | Ordering.lt ↦ true
  | Ordering.eq ↦ text_le b d
  | Ordering.gt ↦ false
]

module _ {A : Type 0} (le : A → A → Bool) where
  -- In front of the first element that is not smaller.
  unfoldable pub insert_by : A → List A → List A
  insert_by a [] = a ∷ []
  insert_by a (x ∷ xs) = if le a x then a ∷ x ∷ xs else x ∷ insert_by a xs

  unfoldable pub sorted_by : List A → List A
  sorted_by [] = []
  sorted_by (x ∷ xs) = insert_by x (sorted_by xs)

  insert_by-In : (a x : A) (xs : List A) → (a ≡ x) ⊎ In x xs → In x (insert_by a xs)
  unfolding insert_by
  insert_by-In a x [] h = h
  insert_by-In a x (y ∷ ys) h = elim (Bool-cases (le a y)) [
    | inl t ↦ rw t h
    | inr f ↦ rw f (elim h [
      | inl p ↦ inr (insert_by-In a x ys (inl p))
      | inr m ↦ elim m [ inl p ↦ inl p | inr k ↦ inr (insert_by-In a x ys (inr k)) ]
    ])
  ]

  insert_by-In_cases : (a x : A) (xs : List A) → In x (insert_by a xs) → (a ≡ x) ⊎ In x xs
  unfolding insert_by
  insert_by-In_cases a x [] h = h
  insert_by-In_cases a x (y ∷ ys) h = elim (Bool-cases (le a y)) [
    | inl t ↦ rw t at h
    | inr f ↦ behind (insert_by-In_cases a x ys) (rw f at h)
  ]
    where
      behind :
          (In x (insert_by a ys) → (a ≡ x) ⊎ In x ys)
          → (y ≡ x) ⊎ In x (insert_by a ys)
          → (a ≡ x) ⊎ ((y ≡ x) ⊎ In x ys)
      behind ih (inl p) = inr (inl p)
      behind ih (inr m) = elim (ih m) [ inl p ↦ inl p | inr k ↦ inr (inr k) ]

  -- Sorting keeps what a list has.
  pub In-sorted_by : (x : A) (xs : List A) → In x xs → In x (sorted_by xs)
  unfolding sorted_by
  In-sorted_by x [] h = h
  In-sorted_by x (y ∷ ys) (inl p) = insert_by-In y x (sorted_by ys) (inl p)
  In-sorted_by x (y ∷ ys) (inr m) = insert_by-In y x (sorted_by ys) (inr (In-sorted_by x ys m))

  pub In-of_sorted_by : (x : A) (xs : List A) → In x (sorted_by xs) → In x xs
  unfolding sorted_by
  In-of_sorted_by x [] h = h
  In-of_sorted_by x (y ∷ ys) h = elim (insert_by-In_cases y x (sorted_by ys) h) [
    | inl p ↦ inl p
    | inr m ↦ inr (In-of_sorted_by x ys m)
  ]

  module _ {B : Type 0} (f : A → B) where
    -- The images of the elements.
    abbrev pub images : List A → List B
    images [] = []
    images (x ∷ xs) = f x ∷ images xs

    insert_by-NotIn :
        (b : B) (a : A) (xs : List A)
        → ¬ (f a ≡ b)
        → NotIn b (images xs)
        → NotIn b (images (insert_by a xs))
    unfolding insert_by
    insert_by-NotIn b a [] n h = (n, tt)
    insert_by-NotIn b a (y ∷ ys) n h = elim (Bool-cases (le a y)) [
      | inl t ↦ rw t (n, h)
      | inr e ↦ rw e (h.0, insert_by-NotIn b a ys n h.1)
    ]

    insert_by-Distinct :
        (a : A) (xs : List A)
        → NotIn (f a) (images xs)
        → Distinct (images xs)
        → Distinct (images (insert_by a xs))
    unfolding insert_by
    insert_by-Distinct a [] n h = (tt, tt)
    insert_by-Distinct a (y ∷ ys) n h = elim (Bool-cases (le a y)) [
      | inl t ↦ rw t (n, h)
      | inr e ↦
          rw e (insert_by-NotIn (f y) a ys (λ p. n.0 (sym p)) h.0, insert_by-Distinct a ys n.1 h.1)
    ]

    sorted_by-NotIn : (b : B) (xs : List A) → NotIn b (images xs) → NotIn b (images (sorted_by xs))
    unfolding sorted_by
    sorted_by-NotIn b [] h = tt
    sorted_by-NotIn b (x ∷ xs) h = insert_by-NotIn b x (sorted_by xs) h.0 (sorted_by-NotIn b xs h.1)

    pub sorted_by-Distinct : (xs : List A) → Distinct (images xs) → Distinct (images (sorted_by xs))
    unfolding sorted_by
    sorted_by-Distinct [] h = tt
    sorted_by-Distinct (x ∷ xs) h =
        insert_by-Distinct x (sorted_by xs) (sorted_by-NotIn (f x) xs h.0)
          (sorted_by-Distinct xs h.1)
