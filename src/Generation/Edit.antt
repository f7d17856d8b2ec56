-- ===== src/Generation/Edit.antt =====
-- composer/core/edit.py: the replacement of the one occurrence of a text.
use Prim.Native.Char.{code}
use certora_aicomposer.Prelude.{
  ℕ, zero, suc, ◌-◌, ◌==◌, ◌≡◌, refl, String, Option, none, some, if◌then◌else◌,
}
use certora_aicomposer.Text.{◌++◌}

-- What follows a prefix of a text.
unfoldable pub after_prefix : String → String → Option String
after_prefix String.[] s = some s
after_prefix (String.◌∷◌ c old) String.[] = none
after_prefix (String.◌∷◌ c old) (String.◌∷◌ d s) =
    let rest = after_prefix old s in if code c == code d then rest else none

abbrev pub size : String → ℕ
size String.[] = 0
size (String.◌∷◌ c s) = suc (size s)

-- The occurrences that do not overlap, after as many characters as are skipped.
unfoldable pub count_after : String → ℕ → String → ℕ
unfolding after_prefix
count_after old skipped String.[] = 0
count_after old (suc skipped) (String.◌∷◌ c s) = count_after old skipped s
count_after old zero (String.◌∷◌ c s) =
    let there = count_after old (size old - 1) s in
    let later = count_after old zero s in
    elim (after_prefix old (String.◌∷◌ c s)) [ some _ ↦ suc there | none ↦ later ]

-- `buffer.count(old)`: the empty text stands between any two characters and at both ends.
unfoldable pub count : String → String → ℕ
unfolding count_after
count buffer String.[] = suc (size buffer)
count buffer (String.◌∷◌ c old) = count_after (String.◌∷◌ c old) 0 buffer

-- `buffer.replace(old, new, 1)`
unfoldable pub replace_first : String → String → String → String
unfolding after_prefix
replace_first old new String.[] = elim (after_prefix old "") [ some rest ↦ new ++ rest | none ↦ "" ]
replace_first old new (String.◌∷◌ c s) =
    let later = replace_first old new s in
    elim (after_prefix old (String.◌∷◌ c s)) [ some rest ↦ new ++ rest | none ↦ String.◌∷◌ c later ]

-- `EditErr` with the count that its message names, and `EditOk`
pub data Edit : Type 0 where
  absent : Edit
  ambiguous : ℕ → Edit
  edited : String → Edit

abbrev pub edit_of : ℕ → String → Edit
edit_of zero text = Edit.absent
edit_of (suc zero) text = Edit.edited text
edit_of (suc (suc n)) text = Edit.ambiguous (suc (suc n))

unfoldable pub replace_unique : String → String → String → Edit
unfolding count replace_first
replace_unique buffer old new = edit_of (count buffer old) (replace_first old new buffer)

edit_example : replace_unique "rule a; rule b" "rule b" "rule c" ≡ Edit.edited "rule a; rule c"
unfolding replace_unique
edit_example = refl

overlapping_example : replace_unique "aaa" "aa" "b" ≡ Edit.edited "ba"
unfolding replace_unique
overlapping_example = refl
