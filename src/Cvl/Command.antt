-- ===== src/Cvl/Command.antt =====
-- Commands (composer/cvl/schema.py). `Commands` is `list[Command]`, `no_else` is an `else_block`
-- of `None`.
use certora_aicomposer.Prelude.{String, List, Option}
use certora_aicomposer.Cvl.Types.{TypeAndId}
use certora_aicomposer.Cvl.Expression.{Expression, Expressions, FunctionApplication, LeftHandSide}

mutual
  pub data Command : Type 0 where
    declaration : (variable : TypeAndId) (initial_value : Option Expression) → Command
    assignment : (left_hand_sides : List LeftHandSide) (expression : Expression) → Command
    havoc : (targets : List LeftHandSide) (assumption : Option Expression) → Command
    assume : (expression : Expression) (message : String) → Command
    assume_invariant : (invariant_name : String) (arguments : Expressions) → Command
    apply : (target : FunctionApplication) → Command
    reset_storage : (target : Expression) → Command
    assert : (expression : Expression) (message : String) → Command
    satisfy : (expression : Expression) (message : String) → Command
    return : (values : Expressions) → Command
    revert : (message : Option String) → Command
    if_ : IfCmd → Command
    block : (commands : Commands) → Command

  pub data IfCmd : Type 0 where
    if_cmd : (condition : Expression) (then_cmd : Commands) (else_block : ElseBlock) → IfCmd

  pub data ElseBlock : Type 0 where
    no_else : ElseBlock
    else_if : IfCmd → ElseBlock
    else_ : (commands : Commands) → ElseBlock

  pub data Commands : Type 0 where
    no_commands : Commands
    one_more : (first : Command) (rest : Commands) → Commands

abbrev pub CodeBlock : Type 0
CodeBlock = Commands
