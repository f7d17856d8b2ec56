-- ===== src/Printer/Ambiguity.antt =====
-- Different trees that composer/cvl/pretty_print.py prints alike.
use certora_aicomposer.Prelude.{ℕ, suc, String, false, none, some, ◌≡◌, ◌≢◌, ap, arith}
use certora_aicomposer.Text.{◌++◌, text_assoc}
use certora_aicomposer.Cvl.Expression.{Expression}
use certora_aicomposer.Printer.Precedence.{get_precedence}
use certora_aicomposer.Printer.Grammar.{part_level, needs_parentheses-level}
use certora_aicomposer.Printer.Expression.{
  print_expression, print_expression_as, print_expression_inner,
}

unparenthesised :
    (e c d f : Expression) (s : String)
    → print_expression_as s e (some (Expression.conditional c d f)) false ≡ s
unfolding print_expression_as part_level get_precedence
unparenthesised e c d f s =
    ground (arith, needs_parentheses-level e (Expression.conditional c d f) false)

print-conditional :
    (c e f : Expression)
    → print_expression_inner (Expression.conditional c e f)
      ≡ print_expression_inner c
        ++ " ? "
        ++ print_expression_inner e
        ++ " : "
        ++ print_expression_inner f
unfolding print_expression_inner
print-conditional c e f = rw (
  unparenthesised c c e f (print_expression_inner c),
  unparenthesised e c e f (print_expression_inner e),
  unparenthesised f c e f (print_expression_inner f),
)

-- How many `?:` stand one in the condition of the other.
abbrev nesting : Expression → ℕ
nesting (Expression.conditional c _ _) = suc (nesting c)
nesting _ = 0

conditional-ne :
    (a b c d e : Expression)
    → Expression.conditional (Expression.conditional a b c) d e
      ≢ Expression.conditional a b (Expression.conditional c d e)
conditional-ne a b c d e h = omega (arith, ap nesting h)

-- A conditional in the condition of a conditional is printed without parentheses: for all
-- `a` to `e` the different trees `(a ? b : c) ? d : e` and `a ? b : (c ? d : e)` are printed as
-- the same text.
pub conditional_ambiguous :
    (a b c d e : Expression)
    → (print_expression (Expression.conditional (Expression.conditional a b c) d e) none false
        ≡ print_expression (Expression.conditional a b (Expression.conditional c d e)) none false)
      × (Expression.conditional (Expression.conditional a b c) d e
          ≢ Expression.conditional a b (Expression.conditional c d e))
unfolding print_expression print_expression_as
conditional_ambiguous a b c d e = (simp (print-conditional, text_assoc), conditional-ne a b c d e)
