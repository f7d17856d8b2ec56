-- ===== src/Printer/Layout/Whole.antt =====
-- `print_basic_block` and `pretty_print` of composer/cvl/pretty_print.py give the reference text.
use mathlib.Core.List.{◌++◌, flat_map}
use certora_aicomposer.Prelude.{
  ℕ, String, List, [], ◌∷◌, none, map, ◌≡◌, refl, append-nil, append_assoc, ap, ◌∙◌,
}
use certora_aicomposer.Text.{join, nil_text}
use certora_aicomposer.Text
use certora_aicomposer.Cvl.Block.{BasicBlock, CvlFile}
use certora_aicomposer.Printer.Lines.{
  ok, raise, runtime_error, Printer, ◌>>◌, with_line, padded, new_builder,
}
use certora_aicomposer.Printer.Method.{print_spec_import, print_contract_import}
use certora_aicomposer.Printer.File.{print_basic_block, print_blocks, pretty_print}
use certora_aicomposer.Printer.Emits.{at, Fills}
use certora_aicomposer.Printer.Layout.Block.{layout_block}
use certora_aicomposer.Printer.Layout.RefinesBlock.{block-Emits}

map-padded-zero : (ls : List String) → map (padded 0) ls ≡ ls
unfolding padded Text.times
map-padded-zero [] = refl
map-padded-zero (l ∷ ls) = cc (nil_text l, map-padded-zero ls)

-- The text of a top-level block is its layout, line by line; the line builder never raises.
pub print_basic_block-layout :
    (block : BasicBlock) → print_basic_block block ≡ ok (join "\n" (layout_block block))
unfolding print_basic_block new_builder
print_basic_block-layout block =
    rw ((block-Emits block).run 0 [], map-padded-zero (layout_block block))

abbrev block_parts : BasicBlock → List String
block_parts block = join "\n" (layout_block block) ∷ "" ∷ []

print_blocks-parts :
    (done : List String) (blocks : List BasicBlock)
    → print_blocks done blocks ≡ ok (done ++ flat_map block_parts blocks)
unfolding print_blocks flat_map
print_blocks-parts done [] = rw append-nil
print_blocks-parts done (block ∷ blocks) = rw (print_basic_block-layout block) (
    print_blocks-parts (done ++ block_parts block) blocks
    ∙ ap ok (append_assoc done (block_parts block) (flat_map block_parts blocks)))

-- The reference: the imports, then each block's text and an empty line, joined by line ends.
unfoldable pub layout_file : CvlFile → List String
layout_file obj =
    (map print_spec_import obj.import_specs ++ map print_contract_import obj.import_contract)
    ++ flat_map block_parts obj.blocks

-- `pretty_print` raises for no file, and its text is that of the reference layout.
pub pretty_print-layout : (obj : CvlFile) → pretty_print obj ≡ ok (join "\n" (layout_file obj))
unfolding pretty_print layout_file
pretty_print-layout obj = rw (print_blocks-parts _ obj.blocks)

-- Opening a line while another one is open raises, whatever was written to the open line before
-- and whatever is to be written to the new one.
pub with_line_nested :
    (first body rest : Printer) (n : ℕ) (buf ls : List String) (t : String)
    → Fills first "" ls t
    → with_line (first >> with_line body >> rest) (at n buf none) ≡ raise runtime_error
unfolding with_line
with_line_nested first body rest n buf ls t h = rw (h.run n buf)
