-- ===== src/Foundry/Clean.antt =====
-- What a clean run of composer/foundry/runner.py means for each test.
use text.Mathlib.TextEquality.{eq_iff}
use certora_aicomposer.Prelude.{
  String, Bool, true, false, not, List, [], ◌∷◌, ◌≡◌, inl, inr, refl, ◌&&◌, Bool-cases,
  if◌then◌else◌,
}
use certora_aicomposer.Sets.{text_eq, In, NotIn, All, contains→In, contains→NotIn}
use certora_aicomposer.KeyMap.{keys_of}
use certora_aicomposer.Foundry.Runner.{
  TestResult, in_expected, has_status, unexpected_failures, unexpected_passes, no_results, clean,
}

-- A failed test is marked as expected to fail, and a test that passed is not.
abbrev pub AsExpected : List (String × String) → TestResult → Type 0
AsExpected expected r =
    (r.status ≡ "Failure" → In r.name (keys_of expected))
    × (r.status ≡ "Success" → NotIn r.name (keys_of expected))

abbrev added : Bool → TestResult → List TestResult → List TestResult
added b r rest = if b then r ∷ rest else rest

added-none :
    (b : Bool) (r : TestResult) (rest : List TestResult)
    → no_results (added b r rest) ≡ true
    → (b ≡ false) × (no_results rest ≡ true)
added-none true r rest h = cc h
added-none false r rest h = (refl, h)

pub and-true : (a b : Bool) → (a && b) ≡ true → (a ≡ true) × (b ≡ true)
and-true true b h = (refl, h)
and-true false b h = cc h

failure-marked :
    (expected : List (String × String)) (r : TestResult)
    → (has_status "Failure" r && not (in_expected expected r)) ≡ false
    → r.status ≡ "Failure"
    → In r.name (keys_of expected)
failure-marked expected r h e = elim (Bool-cases (in_expected expected r)) [
  | inl t ↦ contains→In r.name (keys_of expected) t
  | inr f ↦
      let failed : has_status "Failure" r ≡ true = (eq_iff r.status "Failure").1 e in
      cc (rw (failed, f) at h)
]

success-unmarked :
    (expected : List (String × String)) (r : TestResult)
    → (has_status "Success" r && in_expected expected r) ≡ false
    → r.status ≡ "Success"
    → NotIn r.name (keys_of expected)
success-unmarked expected r h e = elim (Bool-cases (in_expected expected r)) [
  | inr f ↦ contains→NotIn r.name (keys_of expected) f
  | inl t ↦
      let passed : has_status "Success" r ≡ true = (eq_iff r.status "Success").1 e in
      cc (rw (passed, t) at h)
]

lists-AsExpected :
    (expected : List (String × String)) (results : List TestResult)
    → no_results (unexpected_failures expected results) ≡ true
    → no_results (unexpected_passes expected results) ≡ true
    → All (AsExpected expected) results
unfolding unexpected_failures unexpected_passes
lists-AsExpected expected [] f p = tt
lists-AsExpected expected (r ∷ results) f p =
    let fails : ((has_status "Failure" r && not (in_expected expected r)) ≡ false)
        × (no_results (unexpected_failures expected results) ≡ true) =
      added-none _ r (unexpected_failures expected results) f in
    let passes : ((has_status "Success" r && in_expected expected r) ≡ false)
        × (no_results (unexpected_passes expected results) ≡ true) =
      added-none _ r (unexpected_passes expected results) p in
    (
      (failure-marked expected r fails.0, success-unmarked expected r passes.0),
      lists-AsExpected expected results fails.1 passes.1,
    )

pub clean-AsExpected :
    (exit_zero : Bool) (expected : List (String × String)) (results : List TestResult)
    → clean exit_zero expected results ≡ true
    → (exit_zero ≡ true) × All (AsExpected expected) results
clean-AsExpected exit_zero expected results h =
    let outer : ((exit_zero && no_results (unexpected_failures expected results)) ≡ true)
        × (no_results (unexpected_passes expected results) ≡ true) =
      and-true _ (no_results (unexpected_passes expected results)) h in
    let inner : (exit_zero ≡ true) × (no_results (unexpected_failures expected results) ≡ true) =
      and-true exit_zero (no_results (unexpected_failures expected results)) outer.0 in
    (inner.0, lists-AsExpected expected results inner.1 outer.1)
