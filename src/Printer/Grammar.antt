-- ===== src/Printer/Grammar.antt =====
-- The CVL expression grammar by precedence levels, as the comment at the top of
-- composer/cvl/pretty_print.py and its table give it, and when an operand needs parentheses in it.
pub mod Derivation
use certora_aicomposer.Prelude.{
  ℕ, suc, ◌≤◌, String, Bool, true, false, List, [], ◌∷◌, Option, none, some, ◌≡◌, refl, map, arith,
  if◌then◌else◌, ltb, Bool-cases, inl, inr,
}
use certora_aicomposer.Text.{◌++◌, join, truthy}
use certora_aicomposer.Cvl.Types.{TypeAndId, VmType}
use certora_aicomposer.Cvl.Expression.{
  Expression, Expressions, FunctionApplication, BinaryOperator, UnaryOperator, OldOrNew,
  RevertAnnotation, MethodReference,
}
use certora_aicomposer.Printer.Precedence.{
  binary_precedence, unary_precedence, is_right_associative, get_precedence, associates_away,
  needs_parentheses,
}
use certora_aicomposer.Printer.Types.{print_type_and_id, print_vm_type, suffixed}
use certora_aicomposer.Printer.Expression.{
  print_binary_operator, print_unary_operator, print_identifier, print_annotation,
  print_method_reference, print_expression_as, print_expression_inner, print_function_application,
  print_expressions,
}

-- The level that an operator asks of an operand: on the side away from which it associates, one
-- more than its own.
unfoldable pub operand_level : BinaryOperator → Bool → ℕ
operand_level operator is_right =
    let own = binary_precedence operator in
    if is_right_associative operator
    then (if is_right then own else suc own)
    else (if is_right then suc own else own)

-- The level that an expression asks of a part that is printed within it.
unfoldable pub part_level : Expression → Bool → ℕ
unfolding operand_level
part_level (Expression.binary_op operator _ _) is_right = operand_level operator is_right
part_level parent is_right = get_precedence parent

binary_level :
    (operator : BinaryOperator) (left right expr : Expression) (is_right : Bool)
    → needs_parentheses expr (Expression.binary_op operator left right) is_right
      ≡ ltb (get_precedence expr) (operand_level operator is_right)
unfolding needs_parentheses operand_level
binary_level operator left right expr is_right = ground arith

-- A part is put in parentheses exactly if its precedence is below the level that its place asks.
pub needs_parentheses-level :
    (expr parent : Expression) (is_right : Bool)
    → needs_parentheses expr parent is_right
      ≡ ltb (get_precedence expr) (part_level parent is_right)
unfolding needs_parentheses part_level
needs_parentheses-level expr (Expression.binary_op operator left right) is_right =
    binary_level operator left right expr is_right
needs_parentheses-level expr (Expression.unary_op operator operand) is_right = ground arith
needs_parentheses-level expr parent is_right = ground arith

-- `Derives n s e`: at level `n` of the grammar the text `s` is an expression with the tree `e`.
mutual
  pub data Derives : ℕ → String → Expression → Type 0 where
    loosen : {m n : ℕ} {s : String} {e : Expression} → m ≤ n → Derives n s e → Derives m s e
    parenthesised : {s : String} {e : Expression} → Derives 0 s e → Derives 16 ("(" ++ s ++ ")") e
    true_ : Derives 16 "true" (Expression.bool_literal true)
    false_ : Derives 16 "false" (Expression.bool_literal false)
    number : (value : String) → Derives 16 value (Expression.number_literal value)
    hex : (value : String) → Derives 16 value (Expression.hex_literal value)
    quoted : (value : String) → Derives 16 ("\"" ++ value ++ "\"") (Expression.string_literal value)
    array :
        {ss : List String} {es : Expressions}
        → DerivesAll ss es
        → Derives 16 ("[" ++ join ", " ss ++ "]") (Expression.array_literal es)
    name :
        (x : String) (annotation : Option OldOrNew)
        → Derives 16 (print_identifier x annotation) (Expression.identifier x annotation)
    binary :
        (operator : BinaryOperator) {s t : String} {l r : Expression}
        → Derives (operand_level operator false) s l
        → Derives (operand_level operator true) t r
        → Derives
            (binary_precedence operator)
            (s ++ " " ++ print_binary_operator operator ++ " " ++ t)
            (Expression.binary_op operator l r)
    unary :
        (operator : UnaryOperator) {s : String} {e : Expression}
        → Derives (unary_precedence operator) s e
        → Derives
            (unary_precedence operator)
            (print_unary_operator operator ++ " " ++ s)
            (Expression.unary_op operator e)
    -- The condition of `?:` is an expression of the next level.
    conditional :
        {s t u : String} {c e f : Expression}
        → Derives 1 s c
        → Derives 0 t e
        → Derives 0 u f
        → Derives 0 (s ++ " ? " ++ t ++ " : " ++ u) (Expression.conditional c e f)
    quantified :
        (is_forall : Bool) (variable : TypeAndId) {s : String} {e : Expression}
        → Derives 0 s e
        → Derives 0
            ((if is_forall then "forall" else "exists")
              ++ " "
              ++ print_type_and_id variable
              ++ "."
              ++ s)
            (Expression.quantifier is_forall variable e)
    summed :
        (is_unsigned : Bool) (variables : List TypeAndId) {s : String} {e : Expression}
        → Derives 0 s e
        → Derives 0
            ((if is_unsigned then "usum" else "sum")
              ++ " "
              ++ join ", " (map print_type_and_id variables)
              ++ "."
              ++ s)
            (Expression.sum is_unsigned variables e)
    indexed :
        {s t : String} {e f : Expression}
        → Derives 15 s e
        → Derives 0 t f
        → Derives 15 (s ++ "[" ++ t ++ "]") (Expression.array_access e f)
    member :
        {s : String} {e : Expression} (field : String)
        → Derives 15 s e
        → Derives 15 (s ++ "." ++ field) (Expression.field_access e field)
    call :
        (annotation : Option RevertAnnotation) (f : String) (host state : Option String)
        {ss : List String} {es : Expressions}
        → DerivesAll ss es
        → Derives 15
            (suffixed (truthy host) "."
              ++ f
              ++ print_annotation annotation
              ++ "("
              ++ join ", " ss
              ++ ")")
            (Expression.function_call (FunctionApplication.apply annotation f host es state))
    signature :
        (ref : MethodReference) (types : List VmType)
        → Derives 16
            ("sig:"
              ++ print_method_reference ref
              ++ "("
              ++ join ", " (map print_vm_type types)
              ++ ")")
            (Expression.signature_literal ref types)

  -- Each text of a list derives the expression at its place.
  pub data DerivesAll : List String → Expressions → Type 0 where
    none_left : DerivesAll [] Expressions.no_expressions
    and_then :
        {s : String} {e : Expression} {ss : List String} {es : Expressions}
        → Derives 0 s e
        → DerivesAll ss es
        → DerivesAll (s ∷ ss) (Expressions.one_more e es)
