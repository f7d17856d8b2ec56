-- ===== src/Text.antt =====
-- Python's text: concatenation, join, repetition, the truth of an optional text, and numbers in
-- base ten. `String` is the native one; a text is empty if it is its constructor `[]`.
use certora_aicomposer.Prelude.{
  ℕ, zero, suc, ◌/◌, ◌%◌, String, Bool, true, false, List, [], ◌∷◌, Option, none, some, ◌≡◌, refl,
  sym, ap, ◌∙◌, ◌&&◌, ◌||◌, ◌==◌, leb, ltb, if◌then◌else◌,
}
use Prim.Native.Char.{Char, code}
pub use Prim.Native.String.{◌++◌}
use text.Mathlib.TextLemmas.{append_assoc, append-nil, nil-append, cons-append}

abbrev pub text_assoc : (a b c : String) → (a ++ b) ++ c ≡ a ++ (b ++ c)
text_assoc = append_assoc

abbrev pub text_nil : (a : String) → a ++ "" ≡ a
text_nil = append-nil

abbrev pub nil_text : (a : String) → "" ++ a ≡ a
nil_text = nil-append

abbrev pub is_empty : String → Bool
is_empty String.[] = true
is_empty (String.◌∷◌ c s) = false

-- `x if x else None` for an optional text: `None` and the empty text are false.
abbrev pub truthy : Option String → Option String
truthy none = none
truthy (some s) = if is_empty s then none else some s

-- `c.isspace()`, by the number of the character
unfoldable pub is_space : Char → Bool
is_space c =
    (leb 9 (code c) && leb (code c) 13)
    || (leb 28 (code c) && leb (code c) 32)
    || code c == 133
    || code c == 160
    || code c == 5760
    || (leb 8192 (code c) && leb (code c) 8202)
    || code c == 8232
    || code c == 8233
    || code c == 8239
    || code c == 8287
    || code c == 12288

unfoldable pub lstrip : String → String
lstrip String.[] = ""
lstrip (String.◌∷◌ c s) = let rest = lstrip s in if is_space c then rest else String.◌∷◌ c s

unfoldable pub rstrip : String → String
rstrip String.[] = ""
rstrip (String.◌∷◌ c s) =
    let rest = rstrip s in if is_empty rest && is_space c then "" else String.◌∷◌ c rest

-- `s.strip()`
unfoldable pub strip : String → String
unfolding lstrip rstrip is_space
strip s = rstrip (lstrip s)

-- `s.lstrip(c)` and `s.rstrip(c)` for the one character with the number
unfoldable pub lstrip_of : ℕ → String → String
lstrip_of n String.[] = ""
lstrip_of n (String.◌∷◌ c s) =
    let rest = lstrip_of n s in if code c == n then rest else String.◌∷◌ c s

unfoldable pub rstrip_of : ℕ → String → String
rstrip_of n String.[] = ""
rstrip_of n (String.◌∷◌ c s) =
    let rest = rstrip_of n s in if is_empty rest && code c == n then "" else String.◌∷◌ c rest

strip_example : strip "  a b " ≡ "a b"
unfolding strip
strip_example = refl

-- `delim.join(parts)`
unfoldable pub join : String → List String → String
join delim [] = ""
join delim (s ∷ []) = s
join delim (s ∷ t ∷ rest) = s ++ (delim ++ join delim (t ∷ rest))

-- `n * s`
unfoldable pub times : ℕ → String → String
times zero s = ""
times (suc n) s = s ++ times n s

abbrev digit : ℕ → String
digit zero = "0"
digit (suc zero) = "1"
digit (suc (suc zero)) = "2"
digit (suc (suc (suc zero))) = "3"
digit (suc (suc (suc (suc zero)))) = "4"
digit (suc (suc (suc (suc (suc zero))))) = "5"
digit (suc (suc (suc (suc (suc (suc zero)))))) = "6"
digit (suc (suc (suc (suc (suc (suc (suc zero))))))) = "7"
digit (suc (suc (suc (suc (suc (suc (suc (suc zero)))))))) = "8"
digit _ = "9"

pub times_comm : (n : ℕ) (s : String) → s ++ times n s ≡ times n s ++ s
unfolding times
times_comm zero s = text_nil s ∙ sym (nil_text s)
times_comm (suc n) s = ap (◌++◌ s) (times_comm n s) ∙ sym (text_assoc s (times n s) s)

-- The digits of `n`; one unit of fuel for each digit.
decimal_fuel : ℕ → ℕ → String
decimal_fuel zero n = ""
decimal_fuel (suc f) n =
    let front = decimal_fuel f (n / 10) in if ltb n 10 then digit n else front ++ digit (n % 10)

-- `str(n)` for a natural number, which has no more than `n + 1` digits.
unfoldable pub decimal : ℕ → String
unfolding decimal_fuel
decimal n = decimal_fuel (suc n) n

decimal_example : decimal 1024 ≡ "1024"
unfolding decimal
decimal_example = refl

join_example : join ", " ("a" ∷ "b" ∷ "c" ∷ []) ≡ "a, b, c"
unfolding join
join_example = refl

pub is_empty-append : (s t : String) → is_empty (s ++ t) ≡ is_empty s && is_empty t
is_empty-append String.[] t = ap is_empty (nil-append t)
is_empty-append (String.◌∷◌ c s) t = ap is_empty (cons-append c s t)
