-- ===== src/Printer/Layout/RefinesMethod.antt =====
-- The printers of method entries in composer/cvl/pretty_print.py write their layout.
use certora_aicomposer.Prelude.{String, false, ◌≡◌, refl, subst, length, arith}
use certora_aicomposer.Text.{is_empty, truthy, is_empty-append, nil_text, text_assoc}
use certora_aicomposer.Text
use certora_aicomposer.Cvl.Block.{MethodEntry, DispatchList, UnresolvedInTarget}
use certora_aicomposer.Printer.Method.{print_method_pattern, print_method_entry}
use certora_aicomposer.Printer.Emits.{Emits, append-Fills, seq-Fills, indent-Fills, line-Fills}
use certora_aicomposer.Printer.Appends.{
  append-Appends, seq-Appends, when_some-Appends, for_enumerate-Emits,
}
use certora_aicomposer.Printer.Layout.Parts.{
  catch_all_text, imported_text, dispatch_head, dispatch_end,
}
use certora_aicomposer.Printer.Layout.Block.{layout_entry}
use certora_aicomposer.Printer.Layout.Starts.{starting_line-Emits, opened-lines, starts-with}

three_parts :
    (a b c : String) → Text.◌++◌ (Text.◌++◌ (Text.◌++◌ "" a) b) c ≡ Text.◌++◌ a (Text.◌++◌ b c)
three_parts a b c = simp (nil_text, text_assoc)

dispatch_end-starts : (summ : DispatchList) → is_empty (dispatch_end summ) ≡ false
unfolding dispatch_end
dispatch_end-starts summ = starts-with "]" _ refl

dispatch_head-starts :
    (method_ref : UnresolvedInTarget) (summ : DispatchList)
    → is_empty (dispatch_head method_ref summ) ≡ false
unfolding dispatch_head
dispatch_head-starts method_ref summ = starts-with "unresolved external in " _ refl

dispatch-Emits :
    (method_ref : UnresolvedInTarget) (summ : DispatchList)
    → Emits
        (print_method_entry (MethodEntry.unresolved_dynamic method_ref summ))
        (layout_entry (MethodEntry.unresolved_dynamic method_ref summ))
unfolding print_method_entry layout_entry dispatch_head dispatch_end
dispatch-Emits method_ref summ =
    subst (Emits (print_method_entry (MethodEntry.unresolved_dynamic method_ref summ)))
      (opened-lines _ (dispatch_head method_ref summ) _ (dispatch_end summ) _ (three_parts _ _ _)
        (nil_text _) (dispatch_head-starts method_ref summ) (dispatch_end-starts summ))
      (line-Fills (
        seq-Fills (append-Fills _) (
          seq-Fills (append-Fills _) (
            seq-Fills (append-Fills _) (
              seq-Fills
                (indent-Fills _ (
                  for_enumerate-Emits print_method_pattern (length summ.patterns) 0 summ.patterns
                    (omega arith)))
                ((seq-Appends (append-Appends "]") (
                    seq-Appends (when_some-Appends summ.default_summary (λ d. append-Appends _))
                      (append-Appends ";"))).fill
                  ""))))))

pub entry-Emits : (entry : MethodEntry) → Emits (print_method_entry entry) (layout_entry entry)
unfolding print_method_entry layout_entry catch_all_text imported_text
entry-Emits (MethodEntry.unresolved_dynamic method_ref summ) = dispatch-Emits method_ref summ
entry-Emits (MethodEntry.catch_all contract_name summary) =
    starting_line-Emits _ _ (starts-with "function " _ refl)
      (seq-Appends (append-Appends _) (seq-Appends (append-Appends _) (append-Appends _)))
entry-Emits (MethodEntry.imported_function signature summary with_env) =
    starting_line-Emits "function " _ refl (
      seq-Appends (append-Appends _) (
        seq-Appends (append-Appends _) (
          seq-Appends (when_some-Appends (truthy with_env) (λ env. append-Appends _)) (
            seq-Appends
              (when_some-Appends summary
                (λ summ. seq-Appends (append-Appends _) (append-Appends _)))
              (append-Appends _)))))
