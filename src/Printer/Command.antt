-- ===== src/Printer/Command.antt =====
-- The printers of commands in composer/cvl/pretty_print.py.
use certora_aicomposer.Prelude.{
  String, Bool, true, false, List, [], ◌∷◌, Option, none, some, map, if◌then◌else◌,
}
use certora_aicomposer.Text.{◌++◌, join, truthy}
use certora_aicomposer.Cvl.Types.{TypeAndId}
use certora_aicomposer.Cvl.Expression.{Expression, Expressions, LeftHandSide}
use certora_aicomposer.Cvl.Command.{Command, IfCmd, ElseBlock, Commands, CodeBlock}
use certora_aicomposer.Printer.Types.{print_type_and_id}
use certora_aicomposer.Printer.Expression.{
  print_top, print_expressions, print_function_application, print_left_hand_side,
}
use certora_aicomposer.Printer.Lines.{Printer, ◌>>◌, skip, line, with_indent}

unfoldable pub print_declaration_cmd : TypeAndId → Option Expression → String
print_declaration_cmd variable none = print_type_and_id variable ++ ";"
print_declaration_cmd variable (some initial_value) =
    print_type_and_id variable ++ " = " ++ print_top initial_value ++ ";"

-- `values[0]` for one value, else the values in parentheses; `none` if there is no value.
abbrev tuple_text : List String → String
tuple_text (only ∷ []) = only
tuple_text values = "(" ++ join ", " values ++ ")"

unfoldable pub print_assignment_cmd : List LeftHandSide → Expression → String
print_assignment_cmd left_hand_sides expression =
    tuple_text (map print_left_hand_side left_hand_sides) ++ " = " ++ print_top expression ++ ";"

assuming : Option Expression → String
assuming none = ""
assuming (some assumption) = " assuming " ++ print_top assumption

unfoldable pub print_havoc_cmd : List LeftHandSide → Option Expression → String
unfolding assuming
print_havoc_cmd targets assumption =
    "havoc " ++ join ", " (map print_left_hand_side targets) ++ assuming assumption ++ ";"

-- `require`, `assert` and `satisfy` differ in the keyword.
unfoldable pub print_checked_cmd : String → Expression → String → String
print_checked_cmd keyword expression message =
    keyword ++ "(" ++ print_top expression ++ ", \"" ++ message ++ "\");"

argument_list : List String → String
argument_list [] = ""
argument_list args = "(" ++ join ", " args ++ ")"

unfoldable pub print_assume_invariant_cmd : String → Expressions → String
unfolding argument_list
print_assume_invariant_cmd invariant_name arguments =
    "requireInvariant " ++ invariant_name ++ argument_list (print_expressions arguments) ++ ";"

returned : List String → String
returned [] = "return;"
returned values = "return " ++ tuple_text values ++ ";"

unfoldable pub print_return_cmd : Expressions → String
unfolding returned
print_return_cmd values = returned (print_expressions values)

reverted : Option String → String
reverted none = "revert;"
reverted (some message) = "revert(\"" ++ message ++ "\");"

unfoldable pub print_revert_cmd : Option String → String
unfolding reverted
print_revert_cmd message = reverted (truthy message)

unfoldable pub if_line : Expression → Bool → String
if_line condition is_elseif =
    let opening = "if(" ++ print_top condition ++ ") {" in
    if is_elseif then "} else " ++ opening else opening

unfoldable mutual
  pub print_command : Command → Printer
  print_command (Command.declaration variable initial_value) =
      line (print_declaration_cmd variable initial_value)
  print_command (Command.assignment left_hand_sides expression) =
      line (print_assignment_cmd left_hand_sides expression)
  print_command (Command.havoc targets assumption) = line (print_havoc_cmd targets assumption)
  print_command (Command.assume expression message) =
      line (print_checked_cmd "require" expression message)
  print_command (Command.assume_invariant invariant_name arguments) =
      line (print_assume_invariant_cmd invariant_name arguments)
  print_command (Command.apply target) = line (print_function_application target ++ ";")
  print_command (Command.reset_storage target) = line ("reset_storage " ++ print_top target ++ ";")
  print_command (Command.assert expression message) =
      line (print_checked_cmd "assert" expression message)
  print_command (Command.satisfy expression message) =
      line (print_checked_cmd "satisfy" expression message)
  print_command (Command.return values) = line (print_return_cmd values)
  print_command (Command.revert message) = line (print_revert_cmd message)
  print_command (Command.if_ cmd) = print_if_cmd cmd false
  print_command (Command.block commands) = do
    line "{"
    with_indent (print_commands commands)
    line "}"

  pub print_if_cmd : IfCmd → Bool → Printer
  print_if_cmd (IfCmd.if_cmd condition then_cmd else_block) is_elseif = do
    line (if_line condition is_elseif)
    with_indent (print_commands then_cmd)
    print_elif else_block

  -- `_print_elif`, and the closing line where there is no `else_block`.
  pub print_elif : ElseBlock → Printer
  print_elif ElseBlock.no_else = line "}"
  print_elif (ElseBlock.else_if cmd) = print_if_cmd cmd true
  print_elif (ElseBlock.else_ commands) = do
    line "} else {"
    with_indent (print_commands commands)
    line "}"

  -- `for c in commands: self.print_command(c, ident)`
  pub print_commands : Commands → Printer
  print_commands Commands.no_commands = skip
  print_commands (Commands.one_more first rest) = print_command first >> print_commands rest

-- `_print_code_block`
abbrev pub print_code_block : CodeBlock → Printer
print_code_block = print_commands
