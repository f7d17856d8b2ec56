-- ===== src/Printer/File.antt =====
-- `print_basic_block` and `pretty_print` of composer/cvl/pretty_print.py.
use mathlib.Core.List.{◌++◌}
use certora_aicomposer.Prelude.{String, List, [], ◌∷◌, map}
use certora_aicomposer.Text.{join}
use certora_aicomposer.Cvl.Block.{BasicBlock, CvlFile}
use certora_aicomposer.Printer.Lines.{Printer, Result, ok, bind, new_builder}
use certora_aicomposer.Printer.Block.{
  print_rule_block, print_function_def, print_invariant, print_sort_def, print_ghost_def,
  print_macro_def, print_hook_def,
}
use certora_aicomposer.Printer.Method.{
  print_methods_block, print_spec_import, print_contract_import,
}

unfoldable pub print_block_into : BasicBlock → Printer
print_block_into (BasicBlock.rule block) = print_rule_block block
print_block_into (BasicBlock.func_def block) = print_function_def block
print_block_into (BasicBlock.invariant block) = print_invariant block
print_block_into (BasicBlock.sort_decl block) = print_sort_def block
print_block_into (BasicBlock.ghost_def block) = print_ghost_def block
print_block_into (BasicBlock.macro_def block) = print_macro_def block
print_block_into (BasicBlock.hook_def block) = print_hook_def block
print_block_into (BasicBlock.methods_block method_entries) = print_methods_block method_entries

unfoldable pub print_basic_block : BasicBlock → Result String
unfolding new_builder print_block_into
print_basic_block block =
    bind (print_block_into block new_builder) (λ builder. ok (join "\n" builder.buffer))

-- The loop over the blocks: each adds its text and an empty line to `to_ret`.
unfoldable pub print_blocks : List String → List BasicBlock → Result (List String)
print_blocks to_ret [] = ok to_ret
print_blocks to_ret (bb ∷ rest) =
    bind (print_basic_block bb) (λ text. print_blocks (to_ret ++ text ∷ "" ∷ []) rest)

unfoldable pub pretty_print : CvlFile → Result String
pretty_print obj =
    bind
      (print_blocks
        (map print_spec_import obj.import_specs ++ map print_contract_import obj.import_contract)
        obj.blocks)
      (λ to_ret. ok (join "\n" to_ret))
