-- ===== src/Foundry/Tied.antt =====
-- What `validate_property_tests` of composer/foundry/state.py accepts: the tests that ran are those of
-- the mapped properties.
use certora_aicomposer.Prelude.{String, List, [], ◌∷◌, ◌≡◌, ◌⊎◌, inl, inr, subst, Bool-cases, ◌≢◌}
use certora_aicomposer.Sets.{
  text_eq, In, NotIn, Distinct, All, All-In, All_of_In, In-NotIn, contains, contains→In,
  contains→NotIn, set_of, add_all-new, add_all-cases, minus, In-minus, NotIn_of_not,
}
use certora_aicomposer.Sorting.{text_le, sorted_by, In-sorted_by}
use certora_aicomposer.Generation.Types.{SkippedProperty}
use certora_aicomposer.Generation.Mapping.{titles_of}
use certora_aicomposer.Foundry.State.{PropertyTestMapping}
use certora_aicomposer.Foundry.Mapping.{
  TestProgress, names_of, check_test_mappings, check_test_titles, validate_property_tests,
}
use certora_aicomposer.Foundry.Quiet.{
  claims, mapped_titles, Fine, AllQuiet, mappings-AllQuiet, Accounted, titles-Quiet, untied-Quiet,
}

-- Each mapping is of a property of the batch that is not skipped, and has tests, all of which ran.
abbrev pub Shown : List String → List String → List String → PropertyTestMapping → Type 0
Shown titles skipped ran m =
    In m.property_title titles
    × NotIn m.property_title skipped
    × (names_of m.tests ≢ [])
    × All (λ t. In t ran) (names_of m.tests)

pub record Tied (ms : List PropertyTestMapping) (skipped titles ran : List String) : Type 0 where
  pub once : Distinct (mapped_titles ms)
  pub accounted : All (λ t. In t skipped ⊎ In t (mapped_titles ms)) titles
  pub shown : All (Shown titles skipped ran) ms
  pub tied : All (λ t. In t (claims ms)) ran

In-of_set : (t : String) (ts : List String) → In t (set_of ts) → In t ts
In-of_set t ts m = elim (add_all-cases t [] ts m) [ inl e ↦ elim e [ ] | inr i ↦ i ]

Fine-Shown :
    (titles skipped ran : List String) (ms : List PropertyTestMapping)
    → All (Fine (set_of titles) (set_of skipped) (set_of ran)) ms
    → All (Shown titles skipped ran) ms
unfolding Fine
Fine-Shown titles skipped ran [] a = tt
Fine-Shown titles skipped ran (m ∷ ms) a = (
  (
    In-of_set m.property_title titles (contains→In m.property_title (set_of titles) a.0.0),
    NotIn_of_not m.property_title skipped (λ i.
        In-NotIn m.property_title (set_of skipped) (add_all-new m.property_title [] skipped i)
          (contains→NotIn m.property_title (set_of skipped) a.0.1)),
    a.0.2,
    All_of_In (λ t. In t ran) (names_of m.tests)
        (λ t i. In-of_set t ran (All-In (λ u. In u (set_of ran)) t (names_of m.tests) a.0.3 i)),
  ),
  Fine-Shown titles skipped ran ms a.1,
)

Accounted-In :
    (valid ran skips mapped ts : List String)
    → All (Accounted valid (set_of skips) ran mapped) ts
    → All (λ t. In t skips ⊎ In t mapped) ts
unfolding Accounted
Accounted-In valid ran skips mapped [] h = tt
Accounted-In valid ran skips mapped (t ∷ ts) h = (
  elim h.0 [
    | inl e ↦ inl (In-of_set t skips (contains→In t (set_of skips) e))
    | inr e ↦ inr (contains→In t mapped e)
  ],
  Accounted-In valid ran skips mapped ts h.1,
)

-- Every test that ran is claimed if none is left when the claimed ones are taken from them.
none-untied :
    (ran claimed : List String)
    → sorted_by text_le (minus (set_of ran) claimed) ≡ []
    → (t : String) → In t ran
    → In t claimed
none-untied ran claimed e t m = elim (Bool-cases (contains t claimed)) [
  | inl b ↦ contains→In t claimed b
  | inr b ↦ absurd (
      subst (In t) e (
        In-sorted_by text_le t (minus (set_of ran) claimed)
          (In-minus t (set_of ran) claimed (add_all-new t [] ran m) (contains→NotIn t claimed b))))
]

-- If the mapping has no problems, no property is mapped twice, every title of the batch is skipped or
-- mapped, each of the mapped properties is of the batch and not skipped and has tests, all of which
-- ran, and every test that ran is claimed by one of them.
pub validate_property_tests-Tied :
    (ms : List PropertyTestMapping) (skips : List SkippedProperty) (titles ran : List String)
    → validate_property_tests ms skips titles ran ≡ []
    → Tied ms (titles_of skips) titles ran
unfolding validate_property_tests
validate_property_tests-Tied ms skips titles ran h =
    let valid : List String = set_of titles in
    let skipped : List String = set_of (titles_of skips) in
    let start : TestProgress = record { errors = []; mapped = []; claimed_tests = [] } in
    let done : TestProgress = check_test_mappings valid skipped (set_of ran) ms start in
    let listed : TestProgress = check_test_titles valid skipped (set_of ran) titles done in
    let untied : (sorted_by text_le (minus (set_of ran) listed.claimed_tests) ≡ [])
        × (listed.errors ≡ []) =
      untied-Quiet valid skipped (set_of ran)
        (sorted_by text_le (minus (set_of ran) listed.claimed_tests)) listed h in
    let named : (listed ≡ done) × All (Accounted valid skipped (set_of ran) done.mapped) titles =
      titles-Quiet valid skipped (set_of ran) titles done untied.1 in
    let quiet : AllQuiet valid skipped (set_of ran) ms start done =
      mappings-AllQuiet valid skipped (set_of ran) ms start
        (subst (λ o. o.errors ≡ []) named.0 untied.1) in
    record {
      once = quiet.once tt;
      accounted =
          subst (λ l. All (λ t. In t (titles_of skips) ⊎ In t l) titles) quiet.mapped
            (Accounted-In valid (set_of ran) (titles_of skips) done.mapped titles named.1);
      shown = Fine-Shown titles (titles_of skips) ran ms quiet.fine;
      tied =
          All_of_In (λ t. In t (claims ms)) ran
            (λ t m.
              elim (quiet.source t (
                subst (λ o. In t o.claimed_tests) named.0
                  (none-untied ran listed.claimed_tests untied.0 t m))) [
                    | inl e ↦ elim e [ ]
                    | inr k ↦ k
                  ]);
    }
