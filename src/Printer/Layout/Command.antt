-- ===== src/Printer/Layout/Command.antt =====
-- The lines of commands, for composer/cvl/pretty_print.py.
use mathlib.Core.List.{◌++◌}
use certora_aicomposer.Prelude.{String, Bool, true, false, List, [], ◌∷◌}
use certora_aicomposer.Text
use certora_aicomposer.Cvl.Command.{Command, IfCmd, ElseBlock, Commands}
use certora_aicomposer.Printer.Expression.{print_top, print_function_application}
use certora_aicomposer.Printer.Command.{
  print_declaration_cmd, print_assignment_cmd, print_havoc_cmd, print_checked_cmd,
  print_assume_invariant_cmd, print_return_cmd, print_revert_cmd, if_line,
}
use certora_aicomposer.Printer.Emits.{nest}

unfoldable mutual
  pub layout_command : Command → List String
  layout_command (Command.declaration variable initial_value) =
      print_declaration_cmd variable initial_value ∷ []
  layout_command (Command.assignment left_hand_sides expression) =
      print_assignment_cmd left_hand_sides expression ∷ []
  layout_command (Command.havoc targets assumption) = print_havoc_cmd targets assumption ∷ []
  layout_command (Command.assume expression message) =
      print_checked_cmd "require" expression message ∷ []
  layout_command (Command.assume_invariant invariant_name arguments) =
      print_assume_invariant_cmd invariant_name arguments ∷ []
  layout_command (Command.apply target) = Text.◌++◌ (print_function_application target) ";" ∷ []
  layout_command (Command.reset_storage target) =
      Text.◌++◌ "reset_storage " (Text.◌++◌ (print_top target) ";") ∷ []
  layout_command (Command.assert expression message) =
      print_checked_cmd "assert" expression message ∷ []
  layout_command (Command.satisfy expression message) =
      print_checked_cmd "satisfy" expression message ∷ []
  layout_command (Command.return values) = print_return_cmd values ∷ []
  layout_command (Command.revert message) = print_revert_cmd message ∷ []
  layout_command (Command.if_ cmd) = layout_if cmd false
  layout_command (Command.block commands) = "{" ∷ (nest (layout_commands commands) ++ "}" ∷ [])

  pub layout_if : IfCmd → Bool → List String
  layout_if (IfCmd.if_cmd condition then_cmd else_block) is_elseif =
      if_line condition is_elseif ∷ (nest (layout_commands then_cmd) ++ layout_else else_block)

  pub layout_else : ElseBlock → List String
  layout_else ElseBlock.no_else = "}" ∷ []
  layout_else (ElseBlock.else_if cmd) = layout_if cmd true
  layout_else (ElseBlock.else_ commands) =
      "} else {" ∷ (nest (layout_commands commands) ++ "}" ∷ [])

  pub layout_commands : Commands → List String
  layout_commands Commands.no_commands = []
  layout_commands (Commands.one_more first rest) = layout_command first ++ layout_commands rest
