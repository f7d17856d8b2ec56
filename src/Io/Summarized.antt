-- ===== src/Io/Summarized.antt =====
-- The test for a summarization in composer/io/thread_timeline.py, on the ids of two checkpoints.
use certora_aicomposer.Prelude.{
  String, true, false, List, [], ◌∷◌, ◌≡◌, refl, ◌⊎◌, inl, inr, subst, Bool-cases,
}
use certora_aicomposer.Sets.{
  text_eq, contains, add_all, set_of, In, NotIn, In-NotIn, contains→In, contains→NotIn, add_all-new,
  add_all-cases,
}
use certora_aicomposer.Io.Timeline.{is_any, is_disjoint, is_summarized}

-- Both have ids, and share none.
abbrev pub Replaced : List String → List String → Type 0
Replaced prev curr =
    ((i : String) × In i prev)
    × ((i : String) × In i curr)
    × ((i : String) → In i prev → ¬ In i curr)

-- One of them has no id, or they share one.
abbrev pub Kept : List String → List String → Type 0
Kept prev curr = (prev ≡ []) ⊎ (curr ≡ []) ⊎ ((i : String) × In i prev × In i curr)

In-of_set : (t : String) (ts : List String) → In t (set_of ts) → In t ts
In-of_set t ts m = elim (add_all-cases t [] ts m) [ inl e ↦ elim e [ ] | inr i ↦ i ]

is_any-cases :
    (ids : List String)
    → (is_any (set_of ids) ≡ true) × ((i : String) × In i ids)
      ⊎ (is_any (set_of ids) ≡ false) × (ids ≡ [])
unfolding add_all
is_any-cases [] = inr (refl, refl)
is_any-cases (i ∷ ids) =
    inl (some_any (set_of (i ∷ ids)) (add_all-new i [] (i ∷ ids) (inl refl)), (i, inl refl))
  where
    some_any : (xs : List String) → In i xs → is_any xs ≡ true
    some_any [] m = elim m [ ]
    some_any (x ∷ xs) m = refl

is_disjoint-cases :
    (xs ys : List String)
    → (is_disjoint xs ys ≡ true) × ((i : String) → In i xs → ¬ In i ys)
      ⊎ (is_disjoint xs ys ≡ false) × ((i : String) × In i xs × In i ys)
unfolding is_disjoint
is_disjoint-cases [] ys = inl (refl, (λ i m k. elim m [ ]))
is_disjoint-cases (x ∷ xs) ys = elim (Bool-cases (contains x ys)) [
  | inl t ↦ inr (rw t refl, (x, inl refl, contains→In x ys t))
  | inr f ↦ elim (is_disjoint-cases xs ys) [
    | inl p ↦ inl (
      rw (f, p.0) refl,
      (λ i m k. elim m [
        | inl e ↦ In-NotIn i ys k (subst (λ j. NotIn j ys) e (contains→NotIn x ys f))
        | inr n ↦ p.1 i n k
      ]),
    )
    | inr p ↦ inr (rw (f, p.0) refl, (p.1.0, inr p.1.1, p.1.2))
  ]
]

pub summarized-cases :
    (prev curr : List String)
    → (is_summarized (set_of prev) (set_of curr) ≡ true) × Replaced prev curr
      ⊎ (is_summarized (set_of prev) (set_of curr) ≡ false) × Kept prev curr
summarized-cases prev curr = elim (is_any-cases prev) [
  | inr p ↦ inr (rw p.0 refl, inl p.1)
  | inl p ↦ elim (is_any-cases curr) [
    | inr q ↦ inr (rw (p.0, q.0) refl, inr (inl q.1))
    | inl q ↦ elim (is_disjoint-cases (set_of prev) (set_of curr)) [
      | inl d ↦ inl (
        rw (p.0, q.0, d.0) refl,
        (p.1, q.1, (λ i m k. d.1 i (add_all-new i [] prev m) (add_all-new i [] curr k))),
      )
      | inr d ↦ inr (
        rw (p.0, q.0, d.0) refl,
        inr (inr (d.1.0, In-of_set d.1.0 prev d.1.1, In-of_set d.1.0 curr d.1.2)),
      )
    ]
  ]
]
