-- ===== src/Printer/Layout/Starts.antt =====
-- Lines whose text begins with a text that is not empty, in composer/cvl/pretty_print.py.
use mathlib.Core.List.{◌++◌}
use certora_aicomposer.Prelude.{String, false, List, [], ◌∷◌, ◌≡◌, subst, append-nil}
use certora_aicomposer.Text.{is_empty, truthy, is_empty-append, nil_text, text_assoc}
use certora_aicomposer.Text
use certora_aicomposer.Printer.Lines.{Printer, with_line}
use certora_aicomposer.Printer.Emits.{as_line, Emits}
use certora_aicomposer.Printer.Appends.{Appends, line-Appends, as_line-append}

-- An open line whose text begins with a text that is not empty.
pub starting_line-Emits :
    {p : Printer} (s t : String)
    → is_empty s ≡ false
    → Appends p (Text.◌++◌ s t)
    → Emits (with_line p) (Text.◌++◌ s t ∷ [])
starting_line-Emits {p} s t e h =
    subst (Emits (with_line p)) (as_line-append s t e) (line-Appends h)

pub as_line-full : (s : String) → is_empty s ≡ false → as_line s ≡ s ∷ []
as_line-full s e = rw e

-- A head that was flushed by a body, and the text that follows the body.
pub opened-lines :
    (s h t u : String) (ls : List String)
    → s ≡ h
    → t ≡ u
    → is_empty h ≡ false
    → is_empty u ≡ false
    → ((as_line s ++ ls) ++ []) ++ as_line t ≡ h ∷ (ls ++ u ∷ [])
opened-lines s h t u ls p q e f = rw (p, q, e, f, append-nil)

pub starts-with : (s t : String) → is_empty s ≡ false → is_empty (Text.◌++◌ s t) ≡ false
starts-with s t e = rw (is_empty-append s t, e)
