-- ===== src/Pipeline/Unique.antt =====
-- The properties that composer/spec/prop_inference.py extracts have different titles.
use mathlib.Core.List.{◌++◌, flat_map}
use certora_aicomposer.Prelude.{
  ℕ, zero, suc, String, Bool, true, false, List, [], ◌∷◌, Option, none, some, ◌≡◌, ◌≢◌, refl, sym,
  ap, ◌∙◌, subst, map-append, append-nil, append_assoc,
}
use certora_aicomposer.Sets.{
  text_eq, In, NotIn, Distinct, All, contains, contains→NotIn, add, In-add, In-add_old, In-NotIn,
  NotIn_of_not, NotIn-append, set_of, add_all-new,
}
use certora_aicomposer.Report.Schema.{PropertyFormulation}
use certora_aicomposer.Pipeline.Rounds.{
  TitleCheck, noted, titles_in, check_title, check_titles, checked, no_titles,
  unique_titles_validator, Extraction, taken, first_valid, all_items, after_round, bug_rounds,
  run_bug_analysis,
}

some-eq : {A : Type 0} (a b : A) → some a ≡ some b → a ≡ b
some-eq a b e = cc e

extracted-eq :
    (a b : List PropertyFormulation) → Extraction.extracted a ≡ Extraction.extracted b → a ≡ b
extracted-eq a b e = cc e

noted-none :
    (b : Bool) (xs : List String) (t : String) → noted b xs t ≡ [] → (b ≡ false) × (xs ≡ [])
noted-none false xs t h = (refl, h)
noted-none true xs t h = absurd (subst (In t) h (In-add xs t))

In-NotIn_other : (t u : String) (xs : List String) → In t xs → NotIn u xs → ¬ (u ≡ t)
In-NotIn_other t u xs m n e = In-NotIn t xs m (subst (λ v. NotIn v xs) e n)

-- The loop over the titles without a problem.
record Fresh (prior : List String) (titles : List String) (st : TitleCheck) : Type 0 where
  no_dupes : st.dupes ≡ []
  no_clashes : st.clashes ≡ []
  once : Distinct titles
  unseen : All (λ t. NotIn t st.seen) titles
  new : All (λ t. NotIn t prior) titles

unseen-head :
    (t : String) (seen titles : List String)
    → All (λ u. NotIn u (add seen t)) titles
    → NotIn t titles × All (λ u. NotIn u seen) titles
unseen-head t seen [] a = (tt, tt)
unseen-head t seen (u ∷ titles) a =
    let rest : NotIn t titles × All (λ v. NotIn v seen) titles = unseen-head t seen titles a.1 in
    (
      ((λ e. In-NotIn_other t u (add seen t) (In-add seen t) a.0 e), rest.0),
      (NotIn_of_not u seen (λ m. In-NotIn u (add seen t) (In-add_old seen t u m) a.0), rest.1),
    )

check_titles-Fresh :
    (prior titles : List String) (st : TitleCheck)
    → (check_titles prior titles st).dupes ≡ []
    → (check_titles prior titles st).clashes ≡ []
    → Fresh prior titles st
unfolding check_titles
check_titles-Fresh prior [] st d c = record {
  no_dupes = d;
  no_clashes = c;
  once = tt;
  unseen = tt;
  new = tt;
}
check_titles-Fresh prior (t ∷ titles) st d c =
    let rest : Fresh prior titles (check_title prior t st) =
      check_titles-Fresh prior titles (check_title prior t st) d c in
    let here : (contains t st.seen ≡ false) × (st.dupes ≡ []) =
      noted-none (contains t st.seen) st.dupes t rest.no_dupes in
    let apart : (contains t prior ≡ false) × (st.clashes ≡ []) =
      noted-none (contains t prior) st.clashes t rest.no_clashes in
    let heads : NotIn t titles × All (λ u. NotIn u st.seen) titles =
      unseen-head t st.seen titles rest.unseen in
    record {
      no_dupes = here.1;
      no_clashes = apart.1;
      once = (heads.0, rest.once);
      unseen = (contains→NotIn t st.seen here.0, heads.1);
      new = (contains→NotIn t prior apart.0, rest.new);
    }

checked-none :
    (prior : List String) (st : TitleCheck)
    → checked prior st ≡ none
    → (st.dupes ≡ []) × (st.clashes ≡ [])
checked-none prior st h = lists st.dupes st.clashes refl refl h
  where
    lists :
        (ds cs : List String)
        → st.dupes ≡ ds
        → st.clashes ≡ cs
        → checked prior (record { seen = st.seen; dupes = ds; clashes = cs }) ≡ none
        → (st.dupes ≡ []) × (st.clashes ≡ [])
    lists [] [] e f k = (e, f)
    lists (x ∷ ds) cs e f k = cc k
    lists [] (x ∷ cs) e f k = cc k

Distinct-append :
    (xs ys : List String)
    → Distinct xs
    → Distinct ys
    → All (λ y. NotIn y xs) ys
    → Distinct (xs ++ ys)
Distinct-append [] ys d e a = e
Distinct-append (x ∷ xs) ys d e a =
    (NotIn-append x xs ys d.0 (front ys a), Distinct-append xs ys d.1 e (back ys a))
  where
    front : (zs : List String) → All (λ y. NotIn y (x ∷ xs)) zs → NotIn x zs
    front [] b = tt
    front (z ∷ zs) b = ((λ p. b.0.0 (sym p)), front zs b.1)

    back : (zs : List String) → All (λ y. NotIn y (x ∷ xs)) zs → All (λ y. NotIn y xs) zs
    back [] b = tt
    back (z ∷ zs) b = (b.0.1, back zs b.1)

-- The titles of the rounds.
abbrev pub titles_of_rounds : List (List PropertyFormulation) → List String
titles_of_rounds prev = titles_in (flat_map (λ r. r) prev)

titles_of_rounds-snoc :
    (prev : List (List PropertyFormulation)) (items : List PropertyFormulation)
    → titles_of_rounds (prev ++ items ∷ []) ≡ titles_of_rounds prev ++ titles_in items
unfolding flat_map
titles_of_rounds-snoc prev items =
    ap titles_in (flat-snoc prev) ∙ map-append (λ p. p.title) (flat_map (λ r. r) prev) items
  where
    flat-snoc :
        (rs : List (List PropertyFormulation))
        → flat_map (λ r. r) (rs ++ items ∷ []) ≡ flat_map (λ r. r) rs ++ items
    flat-snoc [] = append-nil items
    flat-snoc (r ∷ rs) =
        ap (λ zs. r ++ zs) (flat-snoc rs) ∙ sym (append_assoc r (flat_map (λ r. r) rs) items)

accepted-Distinct :
    (prev : List (List PropertyFormulation)) (items : List PropertyFormulation)
    → unique_titles_validator prev items ≡ none
    → Distinct (titles_of_rounds prev)
    → Distinct (titles_of_rounds (prev ++ items ∷ []))
unfolding unique_titles_validator
accepted-Distinct prev items h d =
    let prior : List String = set_of (titles_of_rounds prev) in
    let ends : ((check_titles prior (titles_in items) (no_titles prior)).dupes ≡ [])
        × ((check_titles prior (titles_in items) (no_titles prior)).clashes ≡ []) =
      checked-none prior (check_titles prior (titles_in items) (no_titles prior)) h in
    let fresh : Fresh prior (titles_in items) (no_titles prior) =
      check_titles-Fresh prior (titles_in items) (no_titles prior) ends.0 ends.1 in
    subst Distinct (sym (titles_of_rounds-snoc prev items)) (
      Distinct-append (titles_of_rounds prev) (titles_in items) d fresh.once
        (apart (titles_in items) fresh.new))
  where
    apart :
        (ts : List String)
        → All (λ t. NotIn t (set_of (titles_of_rounds prev))) ts
        → All (λ t. NotIn t (titles_of_rounds prev)) ts
    apart [] a = tt
    apart (t ∷ ts) a = (
      NotIn_of_not t (titles_of_rounds prev) (λ m.
          In-NotIn t (set_of (titles_of_rounds prev)) (add_all-new t [] (titles_of_rounds prev) m)
            a.0),
      apart ts a.1,
    )

first_valid-accepted :
    (prev submitted : List (List PropertyFormulation)) (items : List PropertyFormulation)
    → first_valid prev submitted ≡ some items
    → unique_titles_validator prev items ≡ none
unfolding first_valid
first_valid-accepted prev [] items h = cc h
first_valid-accepted prev (r ∷ submitted) items h =
    one (unique_titles_validator prev r) refl (first_valid-accepted prev submitted items) h
  where
    one :
        (o : Option (List String × List String))
        → unique_titles_validator prev r ≡ o
        → (first_valid prev submitted ≡ some items → unique_titles_validator prev items ≡ none)
        → taken o r (first_valid prev submitted) ≡ some items
        → unique_titles_validator prev items ≡ none
    one none e ih k = subst (λ q. unique_titles_validator prev q ≡ none) (some-eq r items k) e
    one (some titles) e ih k = ih k

-- The first of the rounds has a property.
abbrev Filled : List (List PropertyFormulation) → Type 0
Filled [] = Unit {0}
Filled (r ∷ prev) = r ≢ []

Filled-snoc :
    (prev : List (List PropertyFormulation)) (p : PropertyFormulation)
    (items : List PropertyFormulation)
    → Filled prev
    → Filled (prev ++ (p ∷ items) ∷ [])
Filled-snoc [] p items f = λ e. cc e
Filled-snoc (r ∷ prev) p items f = f

-- Some property, and no title twice.
abbrev pub Unique : List PropertyFormulation → Type 0
Unique items = (items ≢ []) × Distinct (titles_in items)

all_items-Unique :
    (prev : List (List PropertyFormulation)) (items : List PropertyFormulation)
    → Filled prev
    → Distinct (titles_of_rounds prev)
    → all_items prev ≡ Extraction.extracted items
    → Unique items
unfolding flat_map
all_items-Unique [] items f d h = cc h
all_items-Unique ([] ∷ prev) items f d h = absurd (f refl)
all_items-Unique ((p ∷ r) ∷ prev) items f d h =
    subst Unique (extracted-eq (flat_map (λ q. q) ((p ∷ r) ∷ prev)) items h) ((λ e. cc e), d)

module _ (submitted : ℕ → List (List PropertyFormulation)) where
  rounds-Unique :
      (rounds i : ℕ) (prev : List (List PropertyFormulation)) (items : List PropertyFormulation)
      → Filled prev
      → Distinct (titles_of_rounds prev)
      → bug_rounds submitted rounds i prev ≡ Extraction.extracted items
      → Unique items
  unfolding bug_rounds
  rounds-Unique zero i prev items f d h = all_items-Unique prev items f d h
  rounds-Unique (suc rounds) i prev items f d h =
      one (first_valid prev (submitted i)) refl (λ next. rounds-Unique rounds (suc i) next items) h
    where
      one :
          (o : Option (List PropertyFormulation))
          → first_valid prev (submitted i) ≡ o
          → ((next : List (List PropertyFormulation))
              → Filled next
              → Distinct (titles_of_rounds next)
              → bug_rounds submitted rounds (suc i) next ≡ Extraction.extracted items
              → Unique items)
          → after_round prev o (λ next. bug_rounds submitted rounds (suc i) next)
            ≡ Extraction.extracted items
          → Unique items
      one none e ih k = cc k
      one (some []) e ih k = all_items-Unique prev items f d k
      one (some (p ∷ more)) e ih k =
          ih (prev ++ (p ∷ more) ∷ []) (Filled-snoc prev p more f)
            (accepted-Distinct prev (p ∷ more)
              (first_valid-accepted prev (submitted i) (p ∷ more) e) d)
            k

  -- If the extraction gives properties, whatever the agent submits in its rounds, then there is a property,
  -- and no two of them have one title.
  pub run_bug_analysis-Unique :
      (max_rounds : ℕ) (items : List PropertyFormulation)
      → run_bug_analysis submitted max_rounds ≡ Extraction.extracted items
      → Unique items
  unfolding flat_map
  run_bug_analysis-Unique max_rounds items h = rounds-Unique max_rounds 0 [] items tt tt h
