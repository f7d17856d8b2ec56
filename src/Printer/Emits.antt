-- ===== src/Printer/Emits.antt =====
-- Rules for what a printing method writes, over the line builder of
-- composer/cvl/pretty_print.py.
use mathlib.Core.List.{◌++◌, flat_map}
use certora_aicomposer.Prelude.{
  ℕ, suc, String, List, [], ◌∷◌, Option, none, some, map, ◌≡◌, refl, append-nil, append_assoc,
  map-append, if◌then◌else◌,
}
use certora_aicomposer.Text.{is_empty, text_assoc}
use certora_aicomposer.Text
use certora_aicomposer.Printer.Lines.{
  LineBuilder, ok, Printer, ◌>>◌, skip, line, append, padded, with_indent, with_line, flush,
  finalize_me, for_each,
}

abbrev pub at : ℕ → List String → Option String → LineBuilder
at n buf child = record { indent_amt = n; buffer = buf; child_line = child }

-- One level of indentation more.
abbrev pub nest : List String → List String
nest ls = map (Text.◌++◌ "  ") ls

-- The lines of a pending text: none if it is empty.
abbrev pub as_line : String → List String
as_line s = if is_empty s then [] else s ∷ []

-- With no line open, `p` writes the lines `ls` at the builder's indentation and does not raise.
pub record Emits (p : Printer) (ls : List String) : Type 0 where
  pub run :
      (n : ℕ) (buf : List String) → p (at n buf none) ≡ ok (at n (buf ++ map (padded n) ls) none)

-- With `s` in the open line, `p` writes the lines `ls` and leaves `t` in it.
pub record Fills (p : Printer) (s : String) (ls : List String) (t : String) : Type 0 where
  pub run :
      (n : ℕ) (buf : List String)
      → p (at n buf (some s)) ≡ ok (at n (buf ++ map (padded n) ls) (some t))

padded-suc : (n : ℕ) (l : String) → padded (suc n) l ≡ padded n (Text.◌++◌ "  " l)
unfolding padded Text.times
padded-suc n l = rw Text.times_comm (text_assoc _ _ _)

map-padded-suc : (n : ℕ) (ls : List String) → map (padded (suc n)) ls ≡ map (padded n) (nest ls)
map-padded-suc n [] = refl
map-padded-suc n (l ∷ ls) = cc (padded-suc n l, map-padded-suc n ls)

pub skip-Emits : Emits skip []
skip-Emits = record { run = λ n buf. rw append-nil }

pub line-Emits : (text : String) → Emits (line text) (text ∷ [])
unfolding line
line-Emits text = record { run = λ n buf. refl }

pub seq-Emits :
    {p q : Printer} {xs ys : List String} → Emits p xs → Emits q ys → Emits (p >> q) (xs ++ ys)
seq-Emits {p} {q} {xs} {ys} h k = record {
  run = λ n buf. rw (h.run n buf, k.run n (buf ++ map (padded n) xs), map-append, append_assoc);
}

pub indent-Emits : {p : Printer} {xs : List String} → Emits p xs → Emits (with_indent p) (nest xs)
unfolding with_indent flush
indent-Emits {p} {xs} h = record { run = λ n buf. rw (h.run (suc n) [], map-padded-suc n xs) }

pub for_each-Emits {ℓ} :
    {A : Type ℓ} {body : A → Printer} {f : A → List String} (xs : List A)
    → ((x : A) → Emits (body x) (f x))
    → Emits (for_each xs body) (flat_map f xs)
unfolding for_each flat_map
for_each-Emits [] h = skip-Emits
for_each-Emits (x ∷ xs) h = seq-Emits (h x) (for_each-Emits xs h)

pub skip-Fills : {s : String} → Fills skip s [] s
skip-Fills = record { run = λ n buf. rw append-nil }

pub append-Fills : {s : String} (text : String) → Fills (append text) s [] (Text.◌++◌ s text)
unfolding append
append-Fills text = record { run = λ n buf. rw append-nil }

pub seq-Fills :
    {p q : Printer} {s t u : String} {xs ys : List String}
    → Fills p s xs t
    → Fills q t ys u
    → Fills (p >> q) s (xs ++ ys) u
seq-Fills {xs} {ys} h k = record {
  run = λ n buf. rw (h.run n buf, k.run n (buf ++ map (padded n) xs), map-append, append_assoc);
}

pub indent-Fills :
    {p : Printer} {xs : List String} (s : String)
    → Emits p xs
    → Fills (with_indent p) s (as_line s ++ nest xs) ""
unfolding with_indent flush
indent-Fills {xs} String.[] h = record { run = λ n buf. rw (h.run (suc n) [], map-padded-suc n xs) }
indent-Fills {xs} (String.◌∷◌ c s) h = record {
  run = λ n buf. rw (h.run (suc n) [], map-padded-suc n xs, append_assoc);
}

finalize_me-as_line :
    (t : String) (n : ℕ) (buf ls : List String)
    → finalize_me (at n (buf ++ map (padded n) ls) (some t))
      ≡ ok (at n (buf ++ map (padded n) (ls ++ as_line t)) none)
unfolding finalize_me
finalize_me-as_line String.[] n buf ls = rw append-nil
finalize_me-as_line (String.◌∷◌ c t) n buf ls = rw (map-append, append_assoc)

pub line-Fills :
    {p : Printer} {ls : List String} {t : String}
    → Fills p "" ls t
    → Emits (with_line p) (ls ++ as_line t)
unfolding with_line
line-Fills {ls} {t} h = record { run = λ n buf. rw (h.run n buf) (finalize_me-as_line t n buf ls) }
