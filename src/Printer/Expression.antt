-- ===== src/Printer/Expression.antt =====
-- The printers of expressions and left-hand sides in composer/cvl/pretty_print.py.
use certora_aicomposer.Prelude.{
  String, Bool, true, false, List, [], ◌∷◌, Option, none, some, map, if◌then◌else◌,
}
use certora_aicomposer.Text.{◌++◌, join, truthy}
use certora_aicomposer.Cvl.Expression.{
  Expression, Expressions, FunctionApplication, BinaryOperator, UnaryOperator, OldOrNew,
  RevertAnnotation, MethodReference, LeftHandSide,
}
use certora_aicomposer.Printer.Precedence.{needs_parentheses}
use certora_aicomposer.Printer.Types.{print_type_and_id, print_vm_type, maybe_contract, suffixed}

unfoldable pub print_binary_operator : BinaryOperator → String
print_binary_operator BinaryOperator.add = "+"
print_binary_operator BinaryOperator.and = "&&"
print_binary_operator BinaryOperator.bw_and = "&"
print_binary_operator BinaryOperator.bw_or = "|"
print_binary_operator BinaryOperator.bw_lshift = "<<"
print_binary_operator BinaryOperator.bw_rshift = ">>"
print_binary_operator BinaryOperator.bw_rshift_wzeros = ">>>"
print_binary_operator BinaryOperator.bw_xor = "xor"
print_binary_operator BinaryOperator.div = "/"
print_binary_operator BinaryOperator.exponent = "^"
print_binary_operator BinaryOperator.eq = "=="
print_binary_operator BinaryOperator.ge = ">="
print_binary_operator BinaryOperator.gt = ">"
print_binary_operator BinaryOperator.iff = "<=>"
print_binary_operator BinaryOperator.implies = "=>"
print_binary_operator BinaryOperator.in_set = "in"
print_binary_operator BinaryOperator.le = "<="
print_binary_operator BinaryOperator.lt = "<"
print_binary_operator BinaryOperator.mod' = "%"
print_binary_operator BinaryOperator.mul = "*"
print_binary_operator BinaryOperator.ne = "!="
print_binary_operator BinaryOperator.or = "||"
print_binary_operator BinaryOperator.sub = "-"

unfoldable pub print_unary_operator : UnaryOperator → String
print_unary_operator UnaryOperator.bw_not = "~"
print_unary_operator UnaryOperator.not = "!"
print_unary_operator UnaryOperator.uminus = "-"

-- `print_expression` once the text of `expr` alone is known.
unfoldable pub print_expression_as : String → Expression → Option Expression → Bool → String
print_expression_as inner expr none is_right_operand = inner
print_expression_as inner expr (some parent_expr) is_right_operand =
    if needs_parentheses expr parent_expr is_right_operand then "(" ++ inner ++ ")" else inner

unfoldable pub print_identifier : String → Option OldOrNew → String
print_identifier name none = name
print_identifier name (some OldOrNew.old) = name ++ "@old"
print_identifier name (some OldOrNew.new) = name ++ "@new"

unfoldable pub print_annotation : Option RevertAnnotation → String
print_annotation none = ""
print_annotation (some RevertAnnotation.withrevert) = "@withrevert"
print_annotation (some RevertAnnotation.norevert) = "@norevert"

unfoldable pub print_method_reference : MethodReference → String
unfolding maybe_contract
print_method_reference ref = maybe_contract ref.contract ++ ref.method_name

unfoldable mutual
  -- `_print_expression_inner`, with the printers of the expression types that it calls.
  pub print_expression_inner : Expression → String
  print_expression_inner (Expression.bool_literal value) = if value then "true" else "false"
  print_expression_inner (Expression.number_literal value) = value
  print_expression_inner (Expression.string_literal value) = "\"" ++ value ++ "\""
  print_expression_inner (Expression.array_literal elements) =
      "[" ++ join ", " (print_expressions elements) ++ "]"
  print_expression_inner (Expression.identifier name annotation) = print_identifier name annotation
  print_expression_inner (Expression.binary_op operator left right) =
      let expr = Expression.binary_op operator left right in
      print_expression_as (print_expression_inner left) left (some expr) false
      ++ " "
      ++ print_binary_operator operator
      ++ " "
      ++ print_expression_as (print_expression_inner right) right (some expr) true
  print_expression_inner (Expression.unary_op operator operand) =
      let expr = Expression.unary_op operator operand in
      print_unary_operator operator
      ++ " "
      ++ print_expression_as (print_expression_inner operand) operand (some expr) false
  print_expression_inner (Expression.conditional condition then_expr else_expr) =
      let expr = Expression.conditional condition then_expr else_expr in
      print_expression_as (print_expression_inner condition) condition (some expr) false
      ++ " ? "
      ++ print_expression_as (print_expression_inner then_expr) then_expr (some expr) false
      ++ " : "
      ++ print_expression_as (print_expression_inner else_expr) else_expr (some expr) false
  print_expression_inner (Expression.quantifier is_forall variable body) =
      let expr = Expression.quantifier is_forall variable body in
      (if is_forall then "forall" else "exists")
      ++ " "
      ++ print_type_and_id variable
      ++ "."
      ++ print_expression_as (print_expression_inner body) body (some expr) false
  print_expression_inner (Expression.sum is_unsigned variables body) =
      let expr = Expression.sum is_unsigned variables body in
      (if is_unsigned then "usum" else "sum")
      ++ " "
      ++ join ", " (map print_type_and_id variables)
      ++ "."
      ++ print_expression_as (print_expression_inner body) body (some expr) false
  print_expression_inner (Expression.array_access base index) =
      let expr = Expression.array_access base index in
      print_expression_as (print_expression_inner base) base (some expr) false
      ++ "["
      ++ print_expression_inner index
      ++ "]"
  print_expression_inner (Expression.field_access base field_name) =
      let expr = Expression.field_access base field_name in
      print_expression_as (print_expression_inner base) base (some expr) false ++ "." ++ field_name
  print_expression_inner (Expression.function_call application) =
      print_function_application application
  print_expression_inner (Expression.signature_literal method_ref parameter_types) =
      "sig:"
      ++ print_method_reference method_ref
      ++ "("
      ++ join ", " (map print_vm_type parameter_types)
      ++ ")"
  print_expression_inner (Expression.hex_literal value) = value

  -- The `state` of an application is not printed.
  pub print_function_application : FunctionApplication → String
  print_function_application
        (FunctionApplication.apply annotation name host_contract params state) =
      suffixed (truthy host_contract) "."
      ++ name
      ++ print_annotation annotation
      ++ "("
      ++ join ", " (print_expressions params)
      ++ ")"

  -- `[self.print_expression(e) for e in …]`
  pub print_expressions : Expressions → List String
  print_expressions Expressions.no_expressions = []
  print_expressions (Expressions.one_more first rest) =
      print_expression_inner first ∷ print_expressions rest

unfoldable pub print_expression : Expression → Option Expression → Bool → String
unfolding print_expression_as
print_expression expr parent_expr is_right_operand =
    print_expression_as (print_expression_inner expr) expr parent_expr is_right_operand

-- `print_expression(expr)`
abbrev pub print_top : Expression → String
print_top expr = print_expression expr none false

unfoldable pub print_left_hand_side : LeftHandSide → String
print_left_hand_side (LeftHandSide.id name) = name
print_left_hand_side (LeftHandSide.array_access base index) =
    print_left_hand_side base ++ "[" ++ print_top index ++ "]"
print_left_hand_side (LeftHandSide.field_access base field_name) =
    print_left_hand_side base ++ "." ++ field_name
