-- ===== src/Sets.antt =====
-- Python's sets and membership in lists: a set is a list in the order of insertion. The values have
-- an equality that is an instance argument.
use text.Mathlib.Text
use text.Mathlib.TextEquality.{eq_iff}
use text.Mathlib.TextPositions.{eq_refl}
use mathlib.Core.List.{◌++◌}
use certora_aicomposer.Prelude.{
  String, Bool, true, false, List, [], ◌∷◌, ◌≡◌, ◌≢◌, ◌⊎◌, inl, inr, refl, sym, ap, ◌&&◌, arith,
  map, subst, Bool-cases, if◌then◌else◌,
}

pub record Eq {ℓ} (A : Type ℓ) : Type ℓ where
  pub same : A → A → Bool
  pub same→eq : (a b : A) → same a b ≡ true → a ≡ b
  pub same_refl : (a : A) → same a a ≡ true

pub text_same→eq : (a b : String) → Text.◌==◌ a b ≡ true → a ≡ b
text_same→eq a b h = (eq_iff a b).0 h

instance abbrev pub text_eq : Eq String
text_eq = record { same = Text.◌==◌; same→eq = text_same→eq; same_refl = eq_refl }

-- A tuple of two texts.
unfoldable pub pair_same : String × String → String × String → Bool
pair_same (a, b) (c, d) = (Text.◌==◌ a c) && (Text.◌==◌ b d)

pub pair_same→eq : (p q : String × String) → pair_same p q ≡ true → p ≡ q
unfolding pair_same
pair_same→eq (a, b) (c, d) h = ground (arith, eq_iff a c, eq_iff b d)

pub pair_same_refl : (p : String × String) → pair_same p p ≡ true
unfolding pair_same
pair_same_refl (a, b) = rw (eq_refl a, eq_refl b)

instance abbrev pub pair_eq : Eq (String × String)
pair_eq = record { same = pair_same; same→eq = pair_same→eq; same_refl = pair_same_refl }

module _ {A : Type 0} where
  abbrev pub In : A → List A → Type 0
  In a [] = ⊥
  In a (x ∷ xs) = (x ≡ a) ⊎ In a xs

  abbrev pub NotIn : A → List A → Type 0
  NotIn a [] = Unit {0}
  NotIn a (x ∷ xs) = (x ≢ a) × NotIn a xs

  -- No value stands twice.
  abbrev pub Distinct : List A → Type 0
  Distinct [] = Unit {0}
  Distinct (x ∷ xs) = NotIn x xs × Distinct xs

  -- Everything in the list has the property.
  abbrev pub All : (A → Type 0) → List A → Type 0
  All P [] = Unit {0}
  All P (x ∷ xs) = P x × All P xs

  pub All-append : (P : A → Type 0) (xs ys : List A) → All P xs → All P ys → All P (xs ++ ys)
  All-append P [] ys h k = k
  All-append P (x ∷ xs) ys h k = (h.0, All-append P xs ys h.1 k)

  pub All-In : (P : A → Type 0) (a : A) (xs : List A) → All P xs → In a xs → P a
  All-In P a [] h m = elim m [ ]
  All-In P a (x ∷ xs) h (inl e) = subst P e h.0
  All-In P a (x ∷ xs) h (inr m) = All-In P a xs h.1 m

  pub All_of_In : (P : A → Type 0) (xs : List A) → ((a : A) → In a xs → P a) → All P xs
  All_of_In P [] h = tt
  All_of_In P (x ∷ xs) h = (h x (inl refl), All_of_In P xs (λ a m. h a (inr m)))

  pub In-append_left : (a : A) (xs ys : List A) → In a xs → In a (xs ++ ys)
  In-append_left a [] ys m = elim m [ ]
  In-append_left a (x ∷ xs) ys (inl e) = inl e
  In-append_left a (x ∷ xs) ys (inr m) = inr (In-append_left a xs ys m)

  pub In-append_right : (a : A) (xs ys : List A) → In a ys → In a (xs ++ ys)
  In-append_right a [] ys m = m
  In-append_right a (x ∷ xs) ys m = inr (In-append_right a xs ys m)

  pub In-append_cases : (a : A) (xs ys : List A) → In a (xs ++ ys) → In a xs ⊎ In a ys
  In-append_cases a [] ys m = inr m
  In-append_cases a (x ∷ xs) ys (inl e) = inl (inl e)
  In-append_cases a (x ∷ xs) ys (inr m) = elim (In-append_cases a xs ys m) [
    | inl k ↦ inl (inr k)
    | inr k ↦ inr k
  ]

  pub In-NotIn : (a : A) (xs : List A) → In a xs → NotIn a xs → ⊥
  In-NotIn a [] m h = m
  In-NotIn a (x ∷ xs) (inl e) h = h.0 e
  In-NotIn a (x ∷ xs) (inr m) h = In-NotIn a xs m h.1

  pub NotIn_of_not : (a : A) (xs : List A) → ¬ In a xs → NotIn a xs
  NotIn_of_not a [] h = tt
  NotIn_of_not a (x ∷ xs) h = (λ e. h (inl e), NotIn_of_not a xs (λ m. h (inr m)))

  pub NotIn-append : (a : A) (xs ys : List A) → NotIn a xs → NotIn a ys → NotIn a (xs ++ ys)
  NotIn-append a [] ys h k = k
  NotIn-append a (x ∷ xs) ys h k = (h.0, NotIn-append a xs ys h.1 k)

  -- Another value at the end.
  pub Distinct-snoc : (xs : List A) (a : A) → Distinct xs → NotIn a xs → Distinct (xs ++ a ∷ [])
  Distinct-snoc [] a d n = (tt, tt)
  Distinct-snoc (x ∷ xs) a d n =
      (NotIn-append x xs (a ∷ []) d.0 (λ e. n.0 (sym e), tt), Distinct-snoc xs a d.1 n.1)

module _ {A : Type 0} ⦃e : Eq A⦄ where
  -- `a in xs`
  unfoldable pub contains : A → List A → Bool
  contains a [] = false
  contains a (x ∷ xs) = let rest = contains a xs in if e.same x a then true else rest

  -- `xs.add(a)`
  unfoldable pub add : List A → A → List A
  add xs a = if contains a xs then xs else xs ++ a ∷ []

  pub contains→In : (a : A) (xs : List A) → contains a xs ≡ true → In a xs
  unfolding contains
  contains→In a [] h = cc
  contains→In a (x ∷ xs) h = elim (Bool-cases (e.same x a)) [
    | inl s ↦ inl (e.same→eq x a s)
    | inr n ↦ inr (contains→In a xs (rw n at h))
  ]

  pub In→contains : (a : A) (xs : List A) → In a xs → contains a xs ≡ true
  unfolding contains
  In→contains a [] m = elim m [ ]
  In→contains a (x ∷ xs) (inl p) = rw (p, e.same_refl a) refl
  In→contains a (x ∷ xs) (inr m) = rw (In→contains a xs m) (either (e.same x a))
    where
      either : (b : Bool) → (if b then true else true) ≡ true
      either true = refl
      either false = refl

  pub contains→NotIn : (a : A) (xs : List A) → contains a xs ≡ false → NotIn a xs
  contains→NotIn a xs h = NotIn_of_not a xs (λ m. cc (In→contains a xs m))

  pub NotIn→contains : (a : A) (xs : List A) → NotIn a xs → contains a xs ≡ false
  NotIn→contains a xs h = elim (Bool-cases (contains a xs)) [
    | inl t ↦ absurd (In-NotIn a xs (contains→In a xs t) h)
    | inr f ↦ f
  ]

  add-Distinct : (xs : List A) (a : A) → Distinct xs → Distinct (add xs a)
  unfolding add
  add-Distinct xs a d = elim (Bool-cases (contains a xs)) [
    | inl t ↦ rw t d
    | inr f ↦ rw f (Distinct-snoc xs a d (contains→NotIn a xs f))
  ]

  pub In-add : (xs : List A) (a : A) → In a (add xs a)
  unfolding add
  In-add xs a = elim (Bool-cases (contains a xs)) [
    | inl t ↦ rw t (contains→In a xs t)
    | inr f ↦ rw f (In-append_right a xs (a ∷ []) (inl refl))
  ]

  pub In-add_old : (xs : List A) (a b : A) → In b xs → In b (add xs a)
  unfolding add
  In-add_old xs a b m = elim (Bool-cases (contains a xs)) [
    | inl t ↦ rw t m
    | inr f ↦ rw f (In-append_left b xs (a ∷ []) m)
  ]

  pub In-add_cases : (xs : List A) (a b : A) → In b (add xs a) → In b xs ⊎ (a ≡ b)
  unfolding add
  In-add_cases xs a b m = elim (Bool-cases (contains a xs)) [
    | inl t ↦ inl (rw t at m)
    | inr f ↦ last (In-append_cases b xs (a ∷ []) (rw f at m))
  ]
    where
      last : In b xs ⊎ ((a ≡ b) ⊎ ⊥) → In b xs ⊎ (a ≡ b)
      last (inl k) = inl k
      last (inr (inl p)) = inr p
      last (inr (inr k)) = elim k [ ]

  -- `xs.update(ys)`
  unfoldable pub add_all : List A → List A → List A
  add_all xs [] = xs
  add_all xs (y ∷ ys) = add_all (add xs y) ys

  -- `set(xs)`
  abbrev pub set_of : List A → List A
  set_of xs = add_all [] xs

  -- `xs - ys`, in the order of `xs`
  unfoldable pub minus : List A → List A → List A
  minus [] ys = []
  minus (x ∷ xs) ys = let rest = minus xs ys in if contains x ys then rest else x ∷ rest

  pub add_all-old : (b : A) (xs ys : List A) → In b xs → In b (add_all xs ys)
  unfolding add_all
  add_all-old b xs [] m = m
  add_all-old b xs (y ∷ ys) m = add_all-old b (add xs y) ys (In-add_old xs y b m)

  pub add_all-new : (b : A) (xs ys : List A) → In b ys → In b (add_all xs ys)
  unfolding add_all
  add_all-new b xs [] m = elim m [ ]
  add_all-new b xs (y ∷ ys) (inl p) =
      add_all-old b (add xs y) ys (subst (λ c. In c (add xs y)) p (In-add xs y))
  add_all-new b xs (y ∷ ys) (inr m) = add_all-new b (add xs y) ys m

  pub add_all-cases : (b : A) (xs ys : List A) → In b (add_all xs ys) → In b xs ⊎ In b ys
  unfolding add_all
  add_all-cases b xs [] m = inl m
  add_all-cases b xs (y ∷ ys) m = elim (add_all-cases b (add xs y) ys m) [
    | inr k ↦ inr (inr k)
    | inl k ↦ elim (In-add_cases xs y b k) [ inl j ↦ inl j | inr p ↦ inr (inl p) ]
  ]

  pub In-minus : (a : A) (xs ys : List A) → In a xs → NotIn a ys → In a (minus xs ys)
  unfolding minus
  In-minus a [] ys m n = m
  In-minus a (x ∷ xs) ys (inl p) n =
      let absent : contains x ys ≡ false = rw p (NotIn→contains a ys n) in rw absent (inl p)
  In-minus a (x ∷ xs) ys (inr m) n = elim (Bool-cases (contains x ys)) [
    | inl t ↦ rw t (In-minus a xs ys m n)
    | inr f ↦ rw f (inr (In-minus a xs ys m n))
  ]

  pub In-of_minus : (a : A) (xs ys : List A) → In a (minus xs ys) → In a xs × NotIn a ys
  unfolding minus
  In-of_minus a [] ys m = elim m [ ]
  In-of_minus a (x ∷ xs) ys m = elim (Bool-cases (contains x ys)) [
    | inl t ↦ (inr (In-of_minus a xs ys (rw t at m)).0, (In-of_minus a xs ys (rw t at m)).1)
    | inr f ↦
        let here : (x ≡ a) ⊎ In a (minus xs ys) = (rw f at m) in
        elim here [
          | inl p ↦ (inl p, subst (λ c. NotIn c ys) p (contains→NotIn x ys f))
          | inr k ↦ (inr (In-of_minus a xs ys k).0, (In-of_minus a xs ys k).1)
        ]
  ]

module _ {A : Type 0} {B : Type 0} (f : A → B) where
  pub In-map : (a : A) (xs : List A) → In a xs → In (f a) (map f xs)
  In-map a [] m = m
  In-map a (x ∷ xs) (inl p) = inl (ap f p)
  In-map a (x ∷ xs) (inr m) = inr (In-map a xs m)

  pub In-of_map : (b : B) (xs : List A) → In b (map f xs) → (a : A) × In a xs × (f a ≡ b)
  In-of_map b [] m = elim m [ ]
  In-of_map b (x ∷ xs) (inl p) = (x, inl refl, p)
  In-of_map b (x ∷ xs) (inr m) =
      let i : (a : A) × In a xs × (f a ≡ b) = In-of_map b xs m in (i.0, inr i.1, i.2)
