-- ===== src/Printer/Layout/Block.antt =====
-- The lines of top-level blocks, for composer/cvl/pretty_print.py.
use mathlib.Core.List.{◌++◌, flat_map}
use certora_aicomposer.Prelude.{String, Bool, List, [], ◌∷◌, Option, none, some, if◌then◌else◌}
use certora_aicomposer.Text
use certora_aicomposer.Cvl.Expression.{FilteredBlock}
use certora_aicomposer.Cvl.Block.{
  RuleBlock, ProofBlock, Invariant, GhostDef, HookDef, MethodEntry, BasicBlock,
}
use certora_aicomposer.Printer.Block.{
  filtered_line, filled, is_nil, function_open, ghost_axiom_line, macro_line,
}
use certora_aicomposer.Printer.Method.{print_method_pattern}
use certora_aicomposer.Printer.Emits.{nest}
use certora_aicomposer.Printer.Appends.{separated}
use certora_aicomposer.Printer.Layout.Command.{layout_commands}
use certora_aicomposer.Printer.Layout.Parts.{
  rule_head, proof_head, invariant_head, ghost_head, hook_text, dispatch_head, dispatch_end,
  catch_all_text, imported_text,
}

-- A body between braces.
abbrev pub braces : String → List String → List String
braces head body = head ∷ (nest body ++ "}" ∷ [])

-- The lines of a head that ends with `last`; a filter stands in braces between the two.
abbrev pub filtered_head : String → List String → String → List String
filtered_head head [] last = Text.◌++◌ head last ∷ []
filtered_head head (f ∷ fs) last =
    Text.◌++◌ head " filtered {" ∷ (nest (f ∷ fs) ++ Text.◌++◌ "}" last ∷ [])

unfoldable pub layout_rule : RuleBlock → List String
unfolding flat_map
layout_rule rule =
    filtered_head (rule_head rule) (separated filtered_line (filled rule.filtered_block)) " {"
    ++ (nest (layout_commands rule.block) ++ "}" ∷ [])

unfoldable pub layout_proof : ProofBlock → List String
layout_proof proof = braces (proof_head proof) (layout_commands proof.block)

abbrev pub one_filter : Option FilteredBlock → List String
one_filter none = []
one_filter (some filter) = filtered_line filter Bool.false ∷ []

unfoldable pub layout_invariant : Invariant → List String
layout_invariant inv =
    if is_nil inv.proofs
    then filtered_head (invariant_head inv) (one_filter inv.filter) ""
    else filtered_head (invariant_head inv) (one_filter inv.filter) " {"
      ++ (nest (flat_map layout_proof inv.proofs) ++ "}" ∷ [])

unfoldable pub layout_ghost : GhostDef → List String
layout_ghost ghost =
    if is_nil ghost.axioms
    then Text.◌++◌ (ghost_head ghost) ";" ∷ []
    else braces (Text.◌++◌ (ghost_head ghost) " {")
        (flat_map (λ ax. ghost_axiom_line ax ∷ []) ghost.axioms)

unfoldable pub layout_hook : HookDef → List String
layout_hook hook =
    braces (Text.◌++◌ "hook " (Text.◌++◌ (hook_text hook.pattern) " {"))
      (layout_commands hook.block)

unfoldable pub layout_entry : MethodEntry → List String
layout_entry (MethodEntry.unresolved_dynamic method_ref summ) =
    dispatch_head method_ref summ
    ∷ (nest (separated print_method_pattern summ.patterns) ++ dispatch_end summ ∷ [])
layout_entry (MethodEntry.catch_all contract_name summary) =
    catch_all_text contract_name summary ∷ []
layout_entry (MethodEntry.imported_function signature summary with_env) =
    imported_text signature summary with_env ∷ []

unfoldable pub layout_block : BasicBlock → List String
layout_block (BasicBlock.rule block) = layout_rule block
layout_block (BasicBlock.func_def block) =
    braces (function_open block) (layout_commands block.block)
layout_block (BasicBlock.invariant block) = layout_invariant block
layout_block (BasicBlock.sort_decl block) = Text.◌++◌ "sort " (Text.◌++◌ block.sort_name ";") ∷ []
layout_block (BasicBlock.ghost_def block) = layout_ghost block
layout_block (BasicBlock.macro_def block) = macro_line block ∷ []
layout_block (BasicBlock.hook_def block) = layout_hook block
layout_block (BasicBlock.methods_block method_entries) =
    braces "methods {" (flat_map layout_entry method_entries)
