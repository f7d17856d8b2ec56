-- ===== src/Prover/TreeView/FinalLaws.antt =====
-- Which status file and which results composer/prover/results.py ends with.
use text.Mathlib.Text.{◌==◌}
use text.Mathlib.TextEquality.{eq_iff}
use certora_aicomposer.Prelude.{
  ℕ, ◌≤◌, String, false, List, [], ◌∷◌, Option, none, some, ◌≡◌, ◌⊎◌, inl, inr, refl, sym, ap, ◌∙◌,
  arith, ltb, ltb→lt, le_of_not-ltb, Bool-cases, if◌then◌else◌,
}
use certora_aicomposer.Dict.{Dict, lookup, insert, lookup-insert}
use certora_aicomposer.Prover.Types.{RuleResult, name, pprint}
use certora_aicomposer.Prover.TreeView.Final.{final_index, keep_greater, format_results}

-- `m` is at least every number of the files.
abbrev pub Bounds : ℕ → List (Option ℕ) → Type 0
Bounds m [] = Unit {0}
Bounds m (none ∷ files) = Bounds m files
Bounds m (some index ∷ files) = (index ≤ m) × Bounds m files

-- One of the files has the number `m`.
abbrev pub Listed : ℕ → List (Option ℕ) → Type 0
Listed m [] = ⊥
Listed m (none ∷ files) = Listed m files
Listed m (some index ∷ files) = (index ≡ m) ⊎ Listed m files

shift : {A B C : Type 0} → A ⊎ C → A ⊎ (B ⊎ C)
shift (inl a) = inl a
shift (inr c) = inr (inr c)

final_from :
    (start m : ℕ) (files : List (Option ℕ))
    → final_index (some start) files ≡ some m
    → (start ≤ m) × Bounds m files × ((start ≡ m) ⊎ Listed m files)
unfolding final_index keep_greater
final_from start m [] h = ground arith
final_from start m (none ∷ files) h = final_from start m files h
final_from start m (some index ∷ files) h = elim (Bool-cases (ltb index start)) [
  | inl less ↦
      let (above, bound, from) = final_from start m files (rw (less, final_index) at h) in
      (above, (omega (arith, ltb→lt index start less), bound), shift from)
  | inr more ↦
      let (above, bound, from) = final_from index m files (rw (more, final_index) at h) in
      (omega (arith, le_of_not-ltb index start more), (above, bound), inr from)
]

chosen-greatest :
    (m : ℕ) (files : List (Option ℕ))
    → final_index none files ≡ some m
    → Bounds m files × Listed m files
unfolding final_index keep_greater
chosen-greatest m [] h = cc
chosen-greatest m (none ∷ files) h = chosen-greatest m files h
chosen-greatest m (some index ∷ files) h =
    let (above, bound, from) = final_from index m files h in ((above, bound), from)

-- No file has a number.
abbrev pub Unnumbered : List (Option ℕ) → Type 0
Unnumbered [] = Unit {0}
Unnumbered (none ∷ files) = Unnumbered files
Unnumbered (some index ∷ files) = ⊥

final_index-some :
    (start : ℕ) (files : List (Option ℕ)) → (m : ℕ) × (final_index (some start) files ≡ some m)
unfolding final_index keep_greater
final_index-some start [] = (start, refl)
final_index-some start (none ∷ files) = final_index-some start files
final_index-some start (some index ∷ files) = elim (Bool-cases (ltb index start)) [
  | inl less ↦ rw less (final_index-some start files)
  | inr more ↦ rw more (final_index-some index files)
]

-- A status file is chosen unless no file has a number, and the chosen one has the greatest number
-- of all files, and is one of them.
pub final_index-greatest :
    (files : List (Option ℕ))
    → (final_index none files ≡ none) × Unnumbered files
      ⊎ ((m : ℕ) × (final_index none files ≡ some m) × Bounds m files × Listed m files)
unfolding final_index keep_greater
final_index-greatest [] = inl (refl, tt)
final_index-greatest (none ∷ files) = final_index-greatest files
final_index-greatest (some index ∷ files) =
    let (m, e) = final_index-some index files in
    let (bound, listed) = chosen-greatest m (some index ∷ files) e in inr (m, e, bound, listed)

-- The last result with a name, or what stood there before.
abbrev pub last_named : String → Option RuleResult → List RuleResult → Option RuleResult
last_named n before [] = before
last_named n before (r ∷ results) = last_named n (if name r == n then some r else before) results

-- Of the results that print to one name the last one is kept, and a name that no result has keeps
-- what it had.
pub format_results-last :
    (n : String) (results : List RuleResult) (to_ret : Dict RuleResult)
    → lookup n (format_results to_ret results) ≡ last_named n (lookup n to_ret) results
unfolding format_results
format_results-last n [] to_ret = refl
format_results-last n (r ∷ results) to_ret =
    rw (format_results-last n results (insert (name r) r to_ret), lookup-insert (name r) n r to_ret)

one_name :
    (rule method : String) (a b : Option String)
    → pprint (record { rule = rule; contract = a; method = some method; sanity = false })
      ≡ pprint (record { rule = rule; contract = b; method = some method; sanity = false })
unfolding pprint
one_name rule method none none = refl
one_name rule method none (some b) = refl
one_name rule method (some a) none = refl
one_name rule method (some a) (some b) = refl

-- Results of one rule and one method print to one name whatever contracts they are for, so the
-- second of two such results takes the place of the first in the dictionary.
pub contract_overwritten :
    (rule method : String) (a b : Option String) (r s : RuleResult) (to_ret : Dict RuleResult)
    → r.path ≡ record { rule = rule; contract = a; method = some method; sanity = false }
    → s.path ≡ record { rule = rule; contract = b; method = some method; sanity = false }
    → (lookup (name r) (format_results to_ret (r ∷ s ∷ [])) ≡ some s) × (name r ≡ name s)
contract_overwritten rule method a b r s to_ret p q =
    let same : name r ≡ name s = ap pprint p ∙ one_name rule method a b ∙ sym (ap pprint q) in
    (
      format_results-last (name r) (r ∷ s ∷ []) to_ret
          ∙ rw ((eq_iff (name s) (name r)).1 (sym same)),
      same,
    )
