-- ===== src/Foundry/Quiet.antt =====
-- The loops of `validate_property_tests` in composer/foundry/state.py where they find no problem.
use certora_aicomposer.Prelude.{
  String, Bool, true, false, List, [], ◌∷◌, ◌≡◌, ◌⊎◌, inl, inr, refl, subst, ◌||◌, if◌then◌else◌,
  ◌∙◌, ◌≢◌, sym, ap, append-nil, append_assoc,
}
use mathlib.Core.List.{◌++◌}
use certora_aicomposer.Sets.{
  text_eq, In, All, Distinct, Distinct-snoc, contains, contains→In, contains→NotIn, add,
  In-add_cases, In-append_left, In-append_right,
}
use certora_aicomposer.Foundry.State.{PropertyTestMapping}
use certora_aicomposer.Foundry.Mapping.{
  TestProblem, TestProgress, names_of, problem, claim, claim_some, check_test_mapping,
  check_test_mappings, check_test_titles, report_untied,
}

-- The names of the tests that the mappings claim.
abbrev pub claims : List PropertyTestMapping → List String
claims [] = []
claims (m ∷ ms) = names_of m.tests ++ claims ms

-- The titles of the mapped properties.
abbrev pub mapped_titles : List PropertyTestMapping → List String
mapped_titles [] = []
mapped_titles (m ∷ ms) = m.property_title ∷ mapped_titles ms

snoc_ne : {A : Type 0} (x : A) (xs : List A) → ¬ (xs ++ x ∷ [] ≡ [])
snoc_ne x [] e = cc e
snoc_ne x (y ∷ xs) e = cc e

module _ (valid skipped ran : List String) where
  -- A part of the loops without a problem: what it claims are the names, all of tests that ran.
  record Quiet (names : List String) (errors : List TestProblem) (claimed : List String)
      (after : TestProgress) : Type 0 where
    before : errors ≡ []
    ran_all : All (λ t. In t ran) names
    source : (t : String) → In t after.claimed_tests → In t claimed ⊎ In t names

  -- The state after one name, on the outcome of its test.
  abbrev named : Bool → String → String → TestProgress → TestProgress
  named b title t st =
      if b
      then record st { claimed_tests = add st.claimed_tests t }
      else problem (TestProblem.not_run title t)
          (record st { claimed_tests = add st.claimed_tests t })

  named-clean :
      (b : Bool) (title t : String) (st : TestProgress)
      → (named b title t st).errors ≡ []
      → (b ≡ true) × (st.errors ≡ [])
  named-clean true title t st h = (refl, h)
  named-clean false title t st h = absurd (snoc_ne (TestProblem.not_run title t) st.errors h)

  named-claimed :
      (b : Bool) (title t : String) (st : TestProgress)
      → (named b title t st).claimed_tests ≡ add st.claimed_tests t
  named-claimed true title t st = refl
  named-claimed false title t st = refl

  claim-Quiet :
      (title : String) (names : List String) (st : TestProgress)
      → (claim valid skipped ran title names st).errors ≡ []
      → Quiet names st.errors st.claimed_tests (claim valid skipped ran title names st)
  unfolding claim
  claim-Quiet title [] st h = record { before = h; ran_all = tt; source = λ t m. inl m }
  claim-Quiet title (t ∷ names) st h =
      let next : TestProgress = named (contains t ran) title t st in
      let rest : Quiet names next.errors next.claimed_tests
          (claim valid skipped ran title names next) =
        claim-Quiet title names next h in
      let here : (contains t ran ≡ true) × (st.errors ≡ []) =
        named-clean (contains t ran) title t st rest.before in
      record {
        before = here.1;
        ran_all = (contains→In t ran here.0, rest.ran_all);
        source = λ u m. elim (rest.source u m) [
          | inl k ↦
              elim (In-add_cases st.claimed_tests t u
                (subst (In u) (named-claimed (contains t ran) title t st) k)) [
                  | inl j ↦ inl j
                  | inr p ↦ inr (inl p)
                ]
          | inr k ↦ inr (inr k)
        ];
      }

  claim_some-Quiet :
      (title : String) (names : List String) (st : TestProgress)
      → (claim_some valid skipped ran title names st).errors ≡ []
      → (names ≢ [])
        × Quiet names st.errors st.claimed_tests (claim_some valid skipped ran title names st)
  claim_some-Quiet title [] st h = absurd (snoc_ne (TestProblem.no_tests title) st.errors h)
  claim_some-Quiet title (t ∷ names) st h = ((λ e. cc e), claim-Quiet title (t ∷ names) st h)

  claim-mapped :
      (title : String) (names : List String) (st : TestProgress)
      → (claim valid skipped ran title names st).mapped ≡ st.mapped
  unfolding claim
  claim-mapped title [] st = refl
  claim-mapped title (t ∷ names) st =
      claim-mapped title names (named (contains t ran) title t st) ∙ kept (contains t ran)
    where
      kept : (b : Bool) → (named b title t st).mapped ≡ st.mapped
      kept true = refl
      kept false = refl

  claim_some-mapped :
      (title : String) (names : List String) (st : TestProgress)
      → (claim_some valid skipped ran title names st).mapped ≡ st.mapped
  claim_some-mapped title [] st = refl
  claim_some-mapped title (t ∷ names) st = claim-mapped title (t ∷ names) st

  -- A mapping without a problem: its property is known, new and not skipped, and it has tests.
  record Taken (known repeated skip : Bool) (m : PropertyTestMapping) (st after : TestProgress)
      : Type 0 where
    listed : known ≡ true
    fresh : repeated ≡ false
    kept : skip ≡ false
    tested : names_of m.tests ≢ []
    quiet : Quiet (names_of m.tests) st.errors st.claimed_tests after
    mapped : after.mapped ≡ add st.mapped m.property_title

  -- The body of the loop over the mappings on the outcomes of its tests.
  abbrev branch : Bool → Bool → Bool → PropertyTestMapping → TestProgress → TestProgress
  branch known repeated skip m st =
      if known
      then (if repeated
          then problem (TestProblem.repeated_title m.property_title) st
          else (if skip
              then problem (TestProblem.skipped_title m.property_title)
                  (record st { mapped = add st.mapped m.property_title })
              else claim_some valid skipped ran m.property_title (names_of m.tests)
                  (record st { mapped = add st.mapped m.property_title })))
      else problem (TestProblem.unknown_title m.property_title) st

  branch-Taken :
      (known repeated skip : Bool) (m : PropertyTestMapping) (st : TestProgress)
      → (branch known repeated skip m st).errors ≡ []
      → Taken known repeated skip m st (branch known repeated skip m st)
  branch-Taken false repeated skip m st h =
      absurd (snoc_ne (TestProblem.unknown_title m.property_title) st.errors h)
  branch-Taken true true skip m st h =
      absurd (snoc_ne (TestProblem.repeated_title m.property_title) st.errors h)
  branch-Taken true false true m st h =
      absurd (snoc_ne (TestProblem.skipped_title m.property_title) st.errors h)
  branch-Taken true false false m st h =
      let taken : TestProgress = record st { mapped = add st.mapped m.property_title } in
      let q : (names_of m.tests ≢ [])
          × Quiet (names_of m.tests) st.errors st.claimed_tests (branch true false false m st) =
        claim_some-Quiet m.property_title (names_of m.tests) taken h in
      record {
        listed = refl;
        fresh = refl;
        kept = refl;
        tested = q.0;
        quiet = q.1;
        mapped = claim_some-mapped m.property_title (names_of m.tests) taken;
      }

  -- The mappings are of known properties that are not skipped, with tests that ran.
  unfoldable pub Fine : PropertyTestMapping → Type 0
  Fine m =
      (contains m.property_title valid ≡ true)
      × (contains m.property_title skipped ≡ false)
      × (names_of m.tests ≢ [])
      × All (λ t. In t ran) (names_of m.tests)

  -- The loop over the mappings without a problem: what it claims and maps is of the mappings, and no
  -- property is mapped twice.
  pub record AllQuiet (ms : List PropertyTestMapping) (st after : TestProgress) : Type 0 where
    pub fine : All Fine ms
    pub before : st.errors ≡ []
    pub source : (t : String) → In t after.claimed_tests → In t st.claimed_tests ⊎ In t (claims ms)
    pub mapped : after.mapped ≡ st.mapped ++ mapped_titles ms
    pub once : Distinct st.mapped → Distinct (st.mapped ++ mapped_titles ms)

  add_fresh :
      (t : String) (mapped : List String)
      → contains t mapped ≡ false
      → add mapped t ≡ mapped ++ t ∷ []
  unfolding add
  add_fresh t mapped f = rw f refl

  first-AllQuiet :
      (m : PropertyTestMapping) (ms : List PropertyTestMapping) (st next after : TestProgress)
      → Taken
          (contains m.property_title valid)
          (contains m.property_title st.mapped)
          (contains m.property_title skipped)
          m
          st
          next
      → AllQuiet ms next after
      → AllQuiet (m ∷ ms) st after
  unfolding Fine
  first-AllQuiet m ms st next after here rest =
      let grown : next.mapped ≡ st.mapped ++ m.property_title ∷ [] =
        here.mapped ∙ add_fresh m.property_title st.mapped here.fresh in
      let whole : next.mapped ++ mapped_titles ms ≡ st.mapped ++ mapped_titles (m ∷ ms) =
        ap (λ l. l ++ mapped_titles ms) grown
        ∙ append_assoc st.mapped (m.property_title ∷ []) (mapped_titles ms) in
      record {
        fine = ((here.listed, here.kept, here.tested, here.quiet.ran_all), rest.fine);
        before = here.quiet.before;
        source = λ t i. elim (rest.source t i) [
          | inr k ↦ inr (In-append_right t (names_of m.tests) (claims ms) k)
          | inl k ↦ elim (here.quiet.source t k) [
            | inl j ↦ inl j
            | inr j ↦ inr (In-append_left t (names_of m.tests) (claims ms) j)
          ]
        ];
        mapped = rest.mapped ∙ whole;
        once = λ d. subst Distinct whole (
            rest.once (
              subst Distinct (sym grown) (
                Distinct-snoc st.mapped m.property_title d
                  (contains→NotIn m.property_title st.mapped here.fresh))));
      }

  pub mappings-AllQuiet :
      (ms : List PropertyTestMapping) (st : TestProgress)
      → (check_test_mappings valid skipped ran ms st).errors ≡ []
      → AllQuiet ms st (check_test_mappings valid skipped ran ms st)
  unfolding check_test_mappings check_test_mapping
  mappings-AllQuiet [] st h = record {
    fine = tt;
    before = h;
    source = λ t m. inl m;
    mapped = sym (append-nil st.mapped);
    once = λ d. subst Distinct (sym (append-nil st.mapped)) d;
  }
  mappings-AllQuiet (m ∷ ms) st h =
      let next : TestProgress = check_test_mapping valid skipped ran m st in
      let rest : AllQuiet ms next (check_test_mappings valid skipped ran ms next) =
        mappings-AllQuiet ms next h in
      first-AllQuiet m ms st next (check_test_mappings valid skipped ran ms next)
        (branch-Taken (contains m.property_title valid) (contains m.property_title st.mapped)
          (contains m.property_title skipped) m st rest.before)
        rest

  -- A title of the batch that is skipped or mapped.
  unfoldable pub Accounted : List String → String → Type 0
  Accounted mapped t = (contains t skipped ≡ true) ⊎ (contains t mapped ≡ true)

  listed-clean :
      (a b : Bool) (t : String) (st : TestProgress)
      → (if a || b then st else problem (TestProblem.unaccounted t) st).errors ≡ []
      → ((if a || b then st else problem (TestProblem.unaccounted t) st) ≡ st)
        × ((a ≡ true) ⊎ (b ≡ true))
  listed-clean true b t st h = (refl, inl refl)
  listed-clean false true t st h = (refl, inr refl)
  listed-clean false false t st h = absurd (snoc_ne (TestProblem.unaccounted t) st.errors h)

  pub titles-Quiet :
      (titles : List String) (st : TestProgress)
      → (check_test_titles valid skipped ran titles st).errors ≡ []
      → (check_test_titles valid skipped ran titles st ≡ st) × All (Accounted st.mapped) titles
  unfolding check_test_titles Accounted
  titles-Quiet [] st h = (refl, tt)
  titles-Quiet (t ∷ titles) st h =
      let b : Bool = contains t skipped || contains t st.mapped in
      let next : TestProgress = if b then st else problem (TestProblem.unaccounted t) st in
      let rest : (check_test_titles valid skipped ran titles next ≡ next)
          × All (Accounted next.mapped) titles =
        titles-Quiet titles next h in
      let here : (next ≡ st) × ((contains t skipped ≡ true) ⊎ (contains t st.mapped ≡ true)) =
        listed-clean (contains t skipped) (contains t st.mapped) t st
          (subst (λ o. o.errors ≡ []) rest.0 h) in
      (rest.0 ∙ here.0, (here.1, subst (λ o. All (Accounted o.mapped) titles) here.0 rest.1))

  pub untied-Quiet :
      (tests : List String) (st : TestProgress)
      → (report_untied valid skipped ran tests st).errors ≡ []
      → (tests ≡ []) × (st.errors ≡ [])
  unfolding report_untied
  untied-Quiet [] st h = (refl, h)
  untied-Quiet (t ∷ tests) st h = absurd (
      snoc_ne (TestProblem.untied t) st.errors
        (untied-Quiet tests (problem (TestProblem.untied t) st) h).1)
