-- ===== src/Printer/Lines.antt =====
-- `LineBuilder` and `LineInterleaver` of composer/cvl/pretty_print.py. A printing method is a
-- function on the builder that it writes to. The interleaver of an open line is the builder's
-- `child_line`; the builder that `indent` makes lives for the body of its `with` block.
use mathlib.Core.List.{◌++◌}
use certora_aicomposer.Prelude.{
  ℕ, zero, suc, ◌-◌, String, Bool, List, [], ◌∷◌, Option, none, some, not, ◌==◌, if◌then◌else◌,
}
use certora_aicomposer.Text.{is_empty}
use certora_aicomposer.Text

pub record LineBuilder : Type 0 where
  pub indent_amt : ℕ
  pub buffer : List String
  pub child_line : Option String

-- "Cannot build multiple lines at once"
pub data Error : Type 0 where
  runtime_error : Error

pub data Result {ℓ} (A : Type ℓ) : Type ℓ where
  ok : A → Result A
  raise : Error → Result A

abbrev pub bind {ℓ κ} : {A : Type ℓ} {B : Type κ} → Result A → (A → Result B) → Result B
bind (ok a) f = f a
bind (raise e) f = raise e

abbrev pub Printer : Type 0
Printer = LineBuilder → Result LineBuilder

infixr 5 ◌>>◌
abbrev pub ◌>>◌ : Printer → Printer → Printer
p >> q = λ b. bind (p b) q

abbrev pub skip : Printer
skip b = ok b

-- `(self.indent_amt * "  ") + line`
unfoldable pub padded : ℕ → String → String
padded amount text = Text.◌++◌ (Text.times amount "  ") text

abbrev add_line : LineBuilder → String → LineBuilder
add_line b text = record b { buffer = b.buffer ++ padded b.indent_amt text ∷ [] }

unfoldable pub line : String → Printer
line text b = ok (add_line b text)

-- `LineInterleaver.append`; the text of a line that is no longer open is never read.
unfoldable pub append : String → Printer
append content b = elim b.child_line [
  | none ↦ ok b
  | some string_buff ↦ ok (record b { child_line = some (Text.◌++◌ string_buff content) })
]

-- What `indent` does to an open line: it is written out if it is not empty.
unfoldable pub flush : LineBuilder → LineBuilder
flush b = elim b.child_line [
  | none ↦ b
  | some string_buff ↦
      if is_empty string_buff then b else record (add_line b string_buff) { child_line = some "" }
]

-- `with ident.indent() as nested: body`
unfoldable pub with_indent : Printer → Printer
unfolding flush
with_indent body b =
    let parent = flush b in
    let nested : LineBuilder = record {
      indent_amt = suc parent.indent_amt;
      buffer = [];
      child_line = none;
    } in
    bind (body nested) (λ done. ok (record parent { buffer = parent.buffer ++ done.buffer }))

unfoldable pub finalize_me : Printer
finalize_me b = elim b.child_line [
  | none ↦ ok b
  | some string_buff ↦
      ok (record (if is_empty string_buff then b else add_line b string_buff) { child_line = none })
]

-- `with ident.line_builder() as lb: body`
unfoldable pub with_line : Printer → Printer
unfolding finalize_me
with_line body b = elim b.child_line [
  | some _ ↦ raise runtime_error
  | none ↦ bind (body (record b { child_line = some "" })) finalize_me
]

-- `for x in xs: body(x)`
unfoldable pub for_each {ℓ} : {A : Type ℓ} → List A → (A → Printer) → Printer
for_each [] body = skip
for_each (x ∷ xs) body = body x >> for_each xs body

-- `for ind, x in enumerate(xs): body(ind, x)`, the first index given.
unfoldable pub for_enumerate {ℓ} : {A : Type ℓ} → ℕ → List A → (ℕ → A → Printer) → Printer
for_enumerate ind [] body = skip
for_enumerate ind (x ∷ xs) body = body ind x >> for_enumerate (suc ind) xs body

-- `ind != len(xs) - 1`, which is asked for the elements of a list that is not empty.
abbrev pub is_not_last : ℕ → ℕ → Bool
is_not_last ind total = not (ind == (total - 1))

abbrev pub when : Bool → Printer → Printer
when test body = if test then body else skip

abbrev pub unless : Bool → Printer → Printer
unless test body = if test then skip else body

abbrev pub when_some {ℓ} : {A : Type ℓ} → Option A → (A → Printer) → Printer
when_some none body = skip
when_some (some a) body = body a

unfoldable pub new_builder : LineBuilder
new_builder = record { indent_amt = zero; buffer = []; child_line = none }
