-- ===== src/Printer/Layout/Refines.antt =====
-- The command printers of composer/cvl/pretty_print.py write their layout.
use certora_aicomposer.Prelude.{Bool, true, false}
use certora_aicomposer.Cvl.Command.{Command, IfCmd, ElseBlock, Commands}
use certora_aicomposer.Printer.Command.{print_command, print_if_cmd, print_elif, print_commands}
use certora_aicomposer.Printer.Emits.{Emits, skip-Emits, line-Emits, seq-Emits, indent-Emits}
use certora_aicomposer.Printer.Layout.Command.{
  layout_command, layout_if, layout_else, layout_commands,
}

mutual
  unfolding print_command layout_command

  command-Emits : (cmd : Command) → Emits (print_command cmd) (layout_command cmd)
  command-Emits (Command.if_ cmd) = if-Emits cmd false
  command-Emits (Command.block commands) =
      seq-Emits (line-Emits "{")
        (seq-Emits (indent-Emits (commands-Emits commands)) (line-Emits "}"))
  command-Emits _ = line-Emits _

  if-Emits :
      (cmd : IfCmd) (is_elseif : Bool)
      → Emits (print_if_cmd cmd is_elseif) (layout_if cmd is_elseif)
  if-Emits (IfCmd.if_cmd condition then_cmd else_block) is_elseif =
      seq-Emits (line-Emits _)
        (seq-Emits (indent-Emits (commands-Emits then_cmd)) (else-Emits else_block))

  else-Emits : (else_block : ElseBlock) → Emits (print_elif else_block) (layout_else else_block)
  else-Emits ElseBlock.no_else = line-Emits "}"
  else-Emits (ElseBlock.else_if cmd) = if-Emits cmd true
  else-Emits (ElseBlock.else_ commands) =
      seq-Emits (line-Emits _) (seq-Emits (indent-Emits (commands-Emits commands)) (line-Emits "}"))

  commands-Emits : (cmds : Commands) → Emits (print_commands cmds) (layout_commands cmds)
  commands-Emits Commands.no_commands = skip-Emits
  commands-Emits (Commands.one_more first rest) =
      seq-Emits (command-Emits first) (commands-Emits rest)

-- Printing a command on a builder with no open line succeeds, adds the lines of its layout at the
-- builder's indentation, and leaves the rest of the builder as it was.
pub print_command-Emits : (cmd : Command) → Emits (print_command cmd) (layout_command cmd)
print_command-Emits cmd = command-Emits cmd

pub print_commands-Emits : (cmds : Commands) → Emits (print_commands cmds) (layout_commands cmds)
print_commands-Emits cmds = commands-Emits cmds
