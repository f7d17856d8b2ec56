-- ===== src/Examples/Printer.antt =====
-- The pretty printer of composer/cvl/pretty_print.py on a small file.
use certora_aicomposer.Printer.Block.{
  print_rule_block, print_filtered_block, filtered_line, print_sort_def,
}
use certora_aicomposer.Printer.Types.{print_and_join, print_type_and_id, print_cvl_type}
use certora_aicomposer.Printer.Method.{print_spec_import}
use certora_aicomposer.Prelude.{
  String, Bool, ltb, if◌then◌else◌, true, false, [], ◌∷◌, none, some, ◌≡◌, ◌≢◌, refl,
}
use certora_aicomposer.Text.{◌++◌, join, times}
use certora_aicomposer.Cvl.Types.{CvlType}
use certora_aicomposer.Cvl.Expression.{Expression, Expressions, BinaryOperator, UnaryOperator}
use certora_aicomposer.Cvl.Command.{Command, IfCmd, ElseBlock, Commands}
use certora_aicomposer.Cvl.Block.{BasicBlock, CvlFile}
use certora_aicomposer.Printer.Precedence.{needs_parentheses, get_precedence}
use certora_aicomposer.Printer.Lines.{
  ok, append, with_line, line, for_enumerate, with_indent, finalize_me, flush, padded,
}
use certora_aicomposer.Printer.Expression.{
  print_expression, print_expression_inner, print_expression_as, print_identifier,
  print_binary_operator, print_unary_operator,
}
use certora_aicomposer.Printer.Command.{
  print_command, print_commands, if_line, print_checked_cmd, print_return_cmd, print_revert_cmd,
}
use certora_aicomposer.Printer.File.{print_basic_block, pretty_print, print_blocks}
use certora_aicomposer.Printer.Emits.{Emits}
use certora_aicomposer.Printer.Layout.Command.{layout_command}
use certora_aicomposer.Printer.Layout.Block.{layout_block}
use certora_aicomposer.Printer.Layout.Refines.{print_command-Emits}
use certora_aicomposer.Printer.Layout.Whole.{
  print_basic_block-layout, layout_file, pretty_print-layout,
}
use certora_aicomposer.Printer.Grammar.{part_level, needs_parentheses-level}
use certora_aicomposer.Printer.Ambiguity.{conditional_ambiguous}

abbrev var : String → Expression
var x = Expression.identifier x none

abbrev op : BinaryOperator → Expression → Expression → Expression
op = Expression.binary_op

-- a - (b - c)
abbrev difference : Expression
difference = op BinaryOperator.sub (var "a") (op BinaryOperator.sub (var "b") (var "c"))

-- (x => y) => !(x && z)
abbrev implication : Expression
implication =
    op BinaryOperator.implies (op BinaryOperator.implies (var "x") (var "y"))
      (Expression.unary_op UnaryOperator.not (op BinaryOperator.and (var "x") (var "z")))

abbrev right_part : Expression
right_part = op BinaryOperator.sub (var "b") (var "c")

-- (p ? a - (b - c) : a) in a place of its own
abbrev choice : Expression
choice = Expression.conditional (var "p") difference (var "a")

abbrev comma_after : String → Bool → String
comma_after x comma = if comma then x ++ "," else x

abbrev branching : Command
branching = Command.if_ (
    IfCmd.if_cmd implication
      (Commands.one_more (Command.assert difference "fine") Commands.no_commands)
      (ElseBlock.else_if (
        IfCmd.if_cmd (var "q")
          (Commands.one_more (Command.return Expressions.no_expressions) Commands.no_commands)
          (ElseBlock.else_ (Commands.one_more (Command.revert none) Commands.no_commands)))))

abbrev sample_rule : BasicBlock
sample_rule = BasicBlock.rule (record {
  rule_name = "sane";
  rule_params = record { decl_type = CvlType.primitive "method"; id = "f" } ∷ [];
  filtered_block = some (
      record { e = var "p"; method_param = "f" } ∷ record { e = var "q"; method_param = "g" } ∷ []);
  block = Commands.one_more branching Commands.no_commands;
})

abbrev sample_file : CvlFile
sample_file = record {
  import_specs = record { spec_file = "base.spec" } ∷ [];
  import_contract = [];
  blocks = sample_rule ∷ BasicBlock.sort_decl (record { sort_name = "Key" }) ∷ [];
}

-- The text of the sample file.
sample_text :
    pretty_print sample_file
    ≡ ok (
        join "\n" (
          "import \"base.spec\";" ∷ "rule sane(method f) filtered {" ∷ "  f -> p," ∷ "  g -> q"
          ∷ "} {" ∷ "  if((x => y) => ! (x && z)) {" ∷ "    assert(a - (b - c), \"fine\");"
          ∷ "  } else if(q) {" ∷ "    return;" ∷ "  } else {" ∷ "    revert;" ∷ "  }" ∷ "}" ∷ ""
          ∷ "sort Key;" ∷ "" ∷ []))
unfolding pretty_print print_basic_block with_line append join needs_parentheses line for_enumerate
    print_blocks print_rule_block print_and_join print_type_and_id print_cvl_type with_indent
    finalize_me flush print_filtered_block filtered_line print_commands if_line print_checked_cmd
    print_return_cmd print_revert_cmd print_sort_def print_spec_import padded print_expression_inner
    print_expression_as times print_expression print_identifier print_binary_operator
    print_unary_operator
sample_text = refl

pretty_print-layout_example : pretty_print sample_file ≡ ok (join "\n" (layout_file sample_file))
pretty_print-layout_example = pretty_print-layout sample_file

print_basic_block-layout_example :
    print_basic_block sample_rule ≡ ok (join "\n" (layout_block sample_rule))
print_basic_block-layout_example = print_basic_block-layout sample_rule

print_command-Emits_example : Emits (print_command branching) (layout_command branching)
print_command-Emits_example = print_command-Emits branching

needs_parentheses-level_example :
    needs_parentheses right_part difference true
    ≡ ltb (get_precedence right_part) (part_level difference true)
needs_parentheses-level_example = needs_parentheses-level right_part difference true

conditional_ambiguous_example :
    (print_expression
        (Expression.conditional
          (Expression.conditional (var "a") (var "b") (var "c"))
          (var "d")
          (var "e"))
        none
        false
      ≡ print_expression
          (Expression.conditional
            (var "a")
            (var "b")
            (Expression.conditional (var "c") (var "d") (var "e")))
          none
          false)
    × (Expression.conditional
          (Expression.conditional (var "a") (var "b") (var "c"))
          (var "d")
          (var "e")
        ≢ Expression.conditional
            (var "a")
            (var "b")
            (Expression.conditional (var "c") (var "d") (var "e")))
conditional_ambiguous_example =
    conditional_ambiguous (var "a") (var "b") (var "c") (var "d") (var "e")
