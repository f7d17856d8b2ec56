-- ===== src/Printer/Precedence.antt =====
-- `PRECEDENCE`, `get_precedence` and `needs_parentheses` of composer/cvl/pretty_print.py.
use certora_aicomposer.Prelude.{ℕ, Bool, true, false, not, ltb, ◌==◌, if◌then◌else◌}
use certora_aicomposer.Cvl.Expression.{Expression, BinaryOperator, UnaryOperator}

-- The table's entries for binary operators.
unfoldable pub binary_precedence : BinaryOperator → ℕ
binary_precedence BinaryOperator.iff = 1
binary_precedence BinaryOperator.implies = 2
binary_precedence BinaryOperator.or = 3
binary_precedence BinaryOperator.and = 4
binary_precedence BinaryOperator.eq = 5
binary_precedence BinaryOperator.ne = 5
binary_precedence BinaryOperator.lt = 5
binary_precedence BinaryOperator.le = 5
binary_precedence BinaryOperator.gt = 5
binary_precedence BinaryOperator.ge = 5
binary_precedence BinaryOperator.bw_or = 6
binary_precedence BinaryOperator.bw_xor = 7
binary_precedence BinaryOperator.bw_and = 8
binary_precedence BinaryOperator.bw_lshift = 9
binary_precedence BinaryOperator.bw_rshift = 9
binary_precedence BinaryOperator.bw_rshift_wzeros = 9
binary_precedence BinaryOperator.add = 10
binary_precedence BinaryOperator.sub = 10
binary_precedence BinaryOperator.mul = 11
binary_precedence BinaryOperator.div = 11
binary_precedence BinaryOperator.mod' = 11
binary_precedence BinaryOperator.exponent = 13
binary_precedence BinaryOperator.in_set = 14

-- Every unary operator has the table's entry 12.
unfoldable pub unary_precedence : UnaryOperator → ℕ
unary_precedence UnaryOperator.not = 12
unary_precedence UnaryOperator.bw_not = 12
unary_precedence UnaryOperator.uminus = 12

-- Every expression type has an entry, so the `ValueError` is never raised.
unfoldable pub get_precedence : Expression → ℕ
unfolding binary_precedence unary_precedence
get_precedence (Expression.binary_op operator _ _) = binary_precedence operator
get_precedence (Expression.unary_op operator _) = unary_precedence operator
get_precedence (Expression.conditional _ _ _) = 0
get_precedence (Expression.quantifier _ _ _) = 0
get_precedence (Expression.sum _ _ _) = 0
get_precedence (Expression.array_access _ _) = 15
get_precedence (Expression.field_access _ _) = 15
get_precedence (Expression.function_call _) = 15
get_precedence (Expression.bool_literal _) = 16
get_precedence (Expression.number_literal _) = 16
get_precedence (Expression.hex_literal _) = 16
get_precedence (Expression.string_literal _) = 16
get_precedence (Expression.array_literal _) = 16
get_precedence (Expression.identifier _ _) = 16
get_precedence (Expression.signature_literal _ _) = 16

-- `operator in ["implies", "iff", "exponent"]`
unfoldable pub is_right_associative : BinaryOperator → Bool
is_right_associative BinaryOperator.implies = true
is_right_associative BinaryOperator.iff = true
is_right_associative BinaryOperator.exponent = true
is_right_associative _ = false

-- The associativity check, made where the two precedences are equal.
unfoldable pub associates_away : Expression → Bool → Bool
unfolding is_right_associative
associates_away (Expression.binary_op operator _ _) is_right_operand =
    if is_right_associative operator then not is_right_operand else is_right_operand
associates_away _ is_right_operand = false

unfoldable pub needs_parentheses : Expression → Expression → Bool → Bool
unfolding get_precedence associates_away
needs_parentheses expr parent_expr is_right_operand =
    if ltb (get_precedence expr) (get_precedence parent_expr)
    then true
    else if get_precedence expr == get_precedence parent_expr
    then associates_away parent_expr is_right_operand
    else false
