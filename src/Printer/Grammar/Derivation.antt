-- ===== src/Printer/Grammar/Derivation.antt =====
-- What `print_expression` of composer/cvl/pretty_print.py prints is an expression of the grammar.
use certora_aicomposer.Prelude.{
  ℕ, ◌≤◌, String, Bool, true, false, some, ◌≡◌, sym, ◌∙◌, arith, ltb, Bool-cases, inl, inr,
}
use certora_aicomposer.Cvl.Expression.{
  Expression, Expressions, FunctionApplication, BinaryOperator, UnaryOperator,
}
use certora_aicomposer.Printer.Precedence.{binary_precedence, get_precedence, needs_parentheses}
use certora_aicomposer.Printer.Expression.{
  print_expression_as, print_expression_inner, print_expressions,
}
use certora_aicomposer.Printer.Grammar.{
  operand_level, part_level, needs_parentheses-level, Derives, DerivesAll, loosen, parenthesised,
  true_, false_, number, hex, quoted, array, name, binary, unary, conditional, quantified, summed,
  indexed, member, call, signature, none_left, and_then,
}

-- In every `?:` within the expression the condition is no `?:`, quantifier or sum itself.
abbrev mutual
  pub PlainConditions : Expression → Type 0
  PlainConditions (Expression.array_literal elements) = AllPlain elements
  PlainConditions (Expression.binary_op _ left right) = PlainConditions left × PlainConditions right
  PlainConditions (Expression.unary_op _ operand) = PlainConditions operand
  PlainConditions (Expression.conditional c e f) =
      (1 ≤ get_precedence c) × PlainConditions c × PlainConditions e × PlainConditions f
  PlainConditions (Expression.quantifier _ _ body) = PlainConditions body
  PlainConditions (Expression.sum _ _ body) = PlainConditions body
  PlainConditions (Expression.array_access base index) =
      PlainConditions base × PlainConditions index
  PlainConditions (Expression.field_access base _) = PlainConditions base
  PlainConditions (Expression.function_call application) = PlainApplication application
  PlainConditions _ = Unit {0}

  pub PlainApplication : FunctionApplication → Type 0
  PlainApplication (FunctionApplication.apply _ _ _ params _) = AllPlain params

  pub AllPlain : Expressions → Type 0
  AllPlain Expressions.no_expressions = Unit {0}
  AllPlain (Expressions.one_more first rest) = PlainConditions first × AllPlain rest

binary_precedence-le : (operator : BinaryOperator) → binary_precedence operator ≤ 14
unfolding binary_precedence
binary_precedence-le BinaryOperator.add = omega arith
binary_precedence-le _ = omega arith

operand_level-le :
    (operator : BinaryOperator) (is_right : Bool) → operand_level operator is_right ≤ 16
unfolding operand_level
operand_level-le operator is_right = ground (arith, binary_precedence-le operator)

part_level-le : (parent : Expression) (is_right : Bool) → part_level parent is_right ≤ 16
unfolding part_level get_precedence
part_level-le (Expression.binary_op operator _ _) is_right = operand_level-le operator is_right
part_level-le (Expression.unary_op UnaryOperator.not _) is_right = omega arith
part_level-le (Expression.unary_op _ _) is_right = omega arith
part_level-le _ is_right = omega arith

-- A part is printed at the level that its place asks.
part-Derives :
    (parent e : Expression) (is_right : Bool) (s : String)
    → Derives (get_precedence e) s e
    → Derives (part_level parent is_right) (print_expression_as s e (some parent) is_right) e
unfolding print_expression_as
part-Derives parent e is_right s d = elim (Bool-cases (needs_parentheses e parent is_right)) [
  | inl yes' ↦
      rw yes' (loosen (part_level-le parent is_right) (parenthesised (loosen (omega arith) d)))
  | inr no' ↦ rw no' (loosen (at_level (sym (needs_parentheses-level e parent is_right) ∙ no')) d)
]
  where
    at_level :
        ltb (get_precedence e) (part_level parent is_right) ≡ false
        → part_level parent is_right ≤ get_precedence e
    at_level h = ground arith

get_precedence-le : (e : Expression) → get_precedence e ≤ 16
unfolding get_precedence
get_precedence-le (Expression.binary_op operator _ _) = omega (arith, binary_precedence-le operator)
get_precedence-le (Expression.unary_op UnaryOperator.not _) = omega arith
get_precedence-le (Expression.unary_op _ _) = omega arith
get_precedence-le _ = omega arith

-- Parentheses never lower the level of a part.
kept-Derives :
    (parent e : Expression) (is_right : Bool) (s : String)
    → Derives (get_precedence e) s e
    → Derives (get_precedence e) (print_expression_as s e (some parent) is_right) e
unfolding print_expression_as
kept-Derives parent e is_right s d = elim (Bool-cases (needs_parentheses e parent is_right)) [
  | inl yes' ↦ rw yes' (loosen (get_precedence-le e) (parenthesised (loosen (omega arith) d)))
  | inr no' ↦ rw no' d
]

-- At the lowest level, where no parentheses are ever asked for.
anywhere : {n : ℕ} {s : String} {e : Expression} → Derives n s e → Derives 0 s e
anywhere d = loosen (omega arith) d

mutual
  unfolding get_precedence part_level print_expression_inner

  inner-Derives :
      (e : Expression) → PlainConditions e → Derives (get_precedence e) (print_expression_inner e) e
  inner-Derives (Expression.bool_literal true) h = true_
  inner-Derives (Expression.bool_literal false) h = false_
  inner-Derives (Expression.number_literal value) h = number value
  inner-Derives (Expression.hex_literal value) h = hex value
  inner-Derives (Expression.string_literal value) h = quoted value
  inner-Derives (Expression.array_literal elements) h = array (all-Derives elements h)
  inner-Derives (Expression.identifier x annotation) h = name x annotation
  inner-Derives (Expression.binary_op operator left right) (h, k) =
      let whole = Expression.binary_op operator left right in
      binary operator (part-Derives whole left false _ (inner-Derives left h))
        (part-Derives whole right true _ (inner-Derives right k))
  inner-Derives (Expression.unary_op operator operand) h = unary operator (
      part-Derives (Expression.unary_op operator operand) operand false _ (inner-Derives operand h))
  inner-Derives (Expression.conditional c e f) (q, h, k, l) =
      let whole = Expression.conditional c e f in
      conditional (loosen q (kept-Derives whole c false _ (inner-Derives c h)))
        (part-Derives whole e false _ (inner-Derives e k))
        (part-Derives whole f false _ (inner-Derives f l))
  inner-Derives (Expression.quantifier is_forall variable body) h = quantified is_forall variable (
      part-Derives (Expression.quantifier is_forall variable body) body false _
        (inner-Derives body h))
  inner-Derives (Expression.sum is_unsigned variables body) h =
      summed is_unsigned variables (
        part-Derives (Expression.sum is_unsigned variables body) body false _
          (inner-Derives body h))
  inner-Derives (Expression.array_access base index) (h, k) =
      indexed
        (part-Derives (Expression.array_access base index) base false _ (inner-Derives base h))
        (anywhere (inner-Derives index k))
  inner-Derives (Expression.field_access base field) h =
      member field
        (part-Derives (Expression.field_access base field) base false _ (inner-Derives base h))
  inner-Derives
        (Expression.function_call (FunctionApplication.apply annotation f host params state)) h =
      call annotation f host state (all-Derives params h)
  inner-Derives (Expression.signature_literal ref types) h = signature ref types

  all-Derives : (es : Expressions) → AllPlain es → DerivesAll (print_expressions es) es
  all-Derives Expressions.no_expressions h = none_left
  all-Derives (Expressions.one_more first rest) (h, k) =
      and_then (anywhere (inner-Derives first h)) (all-Derives rest k)
