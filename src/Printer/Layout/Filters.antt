-- ===== src/Printer/Layout/Filters.antt =====
-- The filters of rules and invariants in composer/cvl/pretty_print.py.
use mathlib.Core.List.{◌++◌}
use certora_aicomposer.Prelude.{
  String, false, List, [], ◌∷◌, Option, none, some, ◌≡◌, refl, sym, subst, length, arith, ◌∙◌, ap,
  append-nil,
}
use certora_aicomposer.Text.{is_empty, text_assoc, text_nil, nil_text}
use certora_aicomposer.Text
use certora_aicomposer.Cvl.Expression.{FilteredBlock}
use certora_aicomposer.Printer.Block.{is_nil, filtered_line, print_filtered_block, print_filters}
use certora_aicomposer.Printer.Lines.{
  Printer, ◌>>◌, append, with_indent, with_line, unless, when_some,
}
use certora_aicomposer.Printer.Emits.{
  as_line, nest, Emits, Fills, line-Emits, indent-Fills, skip-Fills, append-Fills, seq-Fills,
  line-Fills,
}
use certora_aicomposer.Printer.Appends.{as_line-append, separated, for_enumerate-Emits}
use certora_aicomposer.Printer.Layout.Block.{filtered_head, one_filter}

-- The lines that a filter writes when it follows the text `s`, and the text that it leaves open.
abbrev pub filter_lines : String → List String → List String
filter_lines s [] = []
filter_lines s (l ∷ ls) = as_line (Text.◌++◌ s " filtered {") ++ nest (l ∷ ls)

abbrev pub filter_rest : String → List String → String
filter_rest s [] = s
filter_rest s (l ∷ ls) = "}"

-- ` filtered {`, a body and `}`.
pub filter-Fills :
    (body : Printer) (l : String) (ls : List String)
    → Emits body (l ∷ ls)
    → (s : String)
    → Fills (append " filtered {" >> with_indent body >> append "}") s (filter_lines s (l ∷ ls)) "}"
filter-Fills body l ls h s =
    subst (λ lines. Fills (append " filtered {" >> with_indent body >> append "}") s lines "}")
      (append-nil _)
      (seq-Fills (append-Fills " filtered {") (seq-Fills (indent-Fills _ h) (append-Fills "}")))

pub filtered_head-lines :
    (s last : String) (ls : List String)
    → is_empty s ≡ false
    → filter_lines s ls ++ as_line (Text.◌++◌ (filter_rest s ls) last) ≡ filtered_head s ls last
filtered_head-lines s last [] e = as_line-append s last e
filtered_head-lines s last (l ∷ ls) e =
    rw (as_line-append s " filtered {" e, as_line-append "}" last refl)

-- `q` writes the filters `ls` after whatever stands in the open line.
pub record FilterPart (q : Printer) (ls : List String) : Type 0 where
  pub fill : (s : String) → Fills q s (filter_lines s ls) (filter_rest s ls)

pub filters-FilterPart :
    (filters : List FilteredBlock)
    → FilterPart (unless (is_nil filters) (print_filters filters)) (separated filtered_line filters)
unfolding separated print_filtered_block
filters-FilterPart [] = record { fill = λ s. skip-Fills }
filters-FilterPart (f ∷ []) = record {
  fill = filter-Fills _ _ _ (for_enumerate-Emits filtered_line 1 0 (f ∷ []) refl);
}
filters-FilterPart (f ∷ g ∷ rest) = record {
  fill =
      filter-Fills _ _ _
        (for_enumerate-Emits filtered_line (length (f ∷ g ∷ rest)) 0 (f ∷ g ∷ rest) (omega arith));
}

pub filter-FilterPart :
    (filter : Option FilteredBlock)
    → FilterPart
        (when_some filter
          λ f. append " filtered {" >> with_indent (print_filtered_block f false) >> append "}")
        (one_filter filter)
unfolding print_filtered_block
filter-FilterPart none = record { fill = λ s. skip-Fills }
filter-FilterPart (some f) = record {
  fill = filter-Fills _ (filtered_line f false) [] (line-Emits (filtered_line f false));
}

-- The same where the open text is known as another text.
pub from-Fills :
    {q : Printer} {ls : List String} (s h : String)
    → s ≡ h
    → FilterPart q ls
    → Fills q s (filter_lines h ls) (filter_rest h ls)
from-Fills {q} {ls} s h e part =
    subst (λ t. Fills q s (filter_lines t ls) (filter_rest t ls)) e (part.fill s)

-- A line made of a head, the filters and a last text.
pub filter_line-Emits :
    {body : Printer} (h : String) (ls : List String) (last : String)
    → is_empty h ≡ false
    → Fills body "" (filter_lines h ls ++ []) (Text.◌++◌ (filter_rest h ls) last)
    → Emits (with_line body) (filtered_head h ls last)
filter_line-Emits {body} h ls last e f =
    subst (Emits (with_line body))
      (ap (λ lines. lines ++ as_line (Text.◌++◌ (filter_rest h ls) last)) (append-nil _)
        ∙ filtered_head-lines h last ls e)
      (line-Fills f)

-- The same with no last text.
pub filter_only-Emits :
    {body : Printer} (h : String) (ls : List String)
    → is_empty h ≡ false
    → Fills body "" (filter_lines h ls) (filter_rest h ls)
    → Emits (with_line body) (filtered_head h ls "")
filter_only-Emits {body} h ls e f =
    subst (Emits (with_line body))
      (ap (λ t. filter_lines h ls ++ as_line t) (sym (text_nil (filter_rest h ls)))
        ∙ filtered_head-lines h "" ls e)
      (line-Fills f)
