-- ===== src/Printer/Appends.antt =====
-- Rules for the parts of an open line, over the line builder of composer/cvl/pretty_print.py.
use certora_aicomposer.Prelude.{
  ℕ, suc, ◌+◌, String, Bool, true, false, List, [], ◌∷◌, Option, none, some, ◌≡◌, sym, subst,
  if◌then◌else◌, arith, length,
}
use certora_aicomposer.Text.{is_empty, text_assoc, text_nil, nil_text}
use certora_aicomposer.Text
use certora_aicomposer.Printer.Lines.{
  Printer, ◌>>◌, skip, line, append, with_line, for_enumerate, is_not_last, unless, when, when_some,
}
use certora_aicomposer.Printer.Emits.{
  as_line, Emits, Fills, skip-Emits, line-Emits, seq-Emits, line-Fills, skip-Fills, append-Fills,
  seq-Fills,
}

-- `p` adds `text` to the open line and writes no line.
pub record Appends (p : Printer) (text : String) : Type 0 where
  pub fill : (s : String) → Fills p s [] (Text.◌++◌ s text)

pub Fills-as :
    {p : Printer} {s t u : String} {ls : List String} → t ≡ u → Fills p s ls t → Fills p s ls u
Fills-as {p} {s} {ls} e h = subst (Fills p s ls) e h

pub skip-Appends : Appends skip ""
skip-Appends = record { fill = λ s. Fills-as (sym (text_nil s)) skip-Fills }

pub append-Appends : (text : String) → Appends (append text) text
append-Appends text = record { fill = λ s. append-Fills text }

pub seq-Appends :
    {p q : Printer} {t u : String} → Appends p t → Appends q u → Appends (p >> q) (Text.◌++◌ t u)
seq-Appends {t} {u} h k = record {
  fill = λ s. Fills-as (text_assoc s t u) (seq-Fills (h.fill s) (k.fill (Text.◌++◌ s t)));
}

pub unless-Appends :
    (test : Bool) {p : Printer} {t : String}
    → Appends p t
    → Appends (unless test p) (if test then "" else t)
unless-Appends true h = skip-Appends
unless-Appends false h = h

pub when-Appends :
    (test : Bool) {p : Printer} {t : String}
    → Appends p t
    → Appends (when test p) (if test then t else "")
when-Appends true h = h
when-Appends false h = skip-Appends

-- The text of an optional part.
abbrev pub optional {ℓ} : {A : Type ℓ} → Option A → (A → String) → String
optional none f = ""
optional (some a) f = f a

pub when_some-Appends {ℓ} :
    {A : Type ℓ} (o : Option A) {body : A → Printer} {f : A → String}
    → ((a : A) → Appends (body a) (f a))
    → Appends (when_some o body) (optional o f)
when_some-Appends none h = skip-Appends
when_some-Appends (some a) h = h a

-- A text that begins with a text that is not empty is a line.
pub as_line-append :
    (s t : String) → is_empty s ≡ false → as_line (Text.◌++◌ s t) ≡ Text.◌++◌ s t ∷ []
as_line-append s t e = rw (Text.is_empty-append s t, e)

-- A line that is opened, filled and closed.
pub line-Appends : {p : Printer} {t : String} → Appends p t → Emits (with_line p) (as_line t)
line-Appends {p} {t} h =
    subst (λ u. Emits (with_line p) (as_line u)) (nil_text t) (line-Fills (h.fill ""))

-- The texts of a list, each told whether another one follows.
unfoldable pub separated {ℓ} : {A : Type ℓ} → (A → Bool → String) → List A → List String
separated f [] = []
separated f (x ∷ []) = f x false ∷ []
separated f (x ∷ y ∷ rest) = f x true ∷ separated f (y ∷ rest)

is_not_last-last : (ind total : ℕ) → total ≡ ind + 1 → is_not_last ind total ≡ false
is_not_last-last ind total e = ground arith

is_not_last-more : (ind total k : ℕ) → total ≡ ind + suc (suc k) → is_not_last ind total ≡ true
is_not_last-more ind total k e = ground arith

-- The loop over a list `xs` that starts at `ind` and prints a line for each element, told by
-- `is_not_last` whether another one follows, writes the lines of `separated`, if the total that it
-- is given is `ind` and the number of elements: every element but the last is told that one follows.
pub for_enumerate-Emits {ℓ} :
    {A : Type ℓ} (f : A → Bool → String) (total ind : ℕ) (xs : List A)
    → total ≡ ind + length xs
    → Emits (for_enumerate ind xs (λ i x. line (f x (is_not_last i total)))) (separated f xs)
unfolding for_enumerate separated
for_enumerate-Emits f total ind [] e = skip-Emits
for_enumerate-Emits f total ind (x ∷ []) e =
    rw (is_not_last-last ind total e) (seq-Emits (line-Emits (f x false)) skip-Emits)
for_enumerate-Emits f total ind (x ∷ y ∷ rest) e = rw (is_not_last-more ind total (length rest) e) (
    seq-Emits (line-Emits (f x true))
      (for_enumerate-Emits f total (suc ind) (y ∷ rest) (omega arith)))
