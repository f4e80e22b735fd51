-- ===== src/Expression/Print/Tests.antt =====
-- Printing, with natural numbers for the `f64` values.
use vegafusion.Expression.Parser.Parse.{parse_tokens}
use vegafusion.Expression.Parser.Precedence.{name, token_of}
use vegafusion.Expression.Print.Chain.{display-parse_tokens, spaced}
use vegafusion.Expression.Print.{display, token_text}
use vegafusion.Expression.Result.{ok}
use vegafusion.Expression.Syntax.{Expression, expression, Expr, BinaryOperator, UnaryOperator}
use vegafusion.Expression.Token.{Token}
use vegafusion.Prelude.{ℕ, [], ◌∷◌, String, some, ◌≡◌, refl}

abbrev no_number : ℕ → String
no_number n = "0"

abbrev at : ℕ → ℕ → Expr ℕ → Expression ℕ
at start end e = expression e (some (record { start = start; end = end }))

-- `(a + b) * c`
abbrev product : Expression ℕ
product = at 0 11 (
    Expr.binary
      (at 1 6 (
        Expr.binary (at 1 2 (Expr.identifier "a")) BinaryOperator.plus
          (at 5 6 (Expr.identifier "b"))))
      BinaryOperator.mult (at 10 11 (Expr.identifier "c")))

product_printed : display no_number product ≡ "(a + b) * c"
unfolding display
product_printed = refl

-- `-(-x)` is printed with two signs in a row, which the tokenizer refuses.
minus_printed :
    display no_number (
      at 0 5 (
        Expr.unary UnaryOperator.neg
          (at 2 4 (Expr.unary UnaryOperator.neg (at 3 4 (Expr.identifier "x"))))))
    ≡ "--x"
unfolding display
minus_printed = refl

-- `a + b * c`, with the positions of its tokens.
display-parse_tokens_example :
    (e : Expression ℕ) × (parse_tokens (
        name ("a", 0, 1)
        ∷ (Token.plus, 2, 3)
        ∷ name ("b", 4, 5)
        ∷ (Token.asterisk, 6, 7)
        ∷ name ("c", 8, 9)
        ∷ [])
      ≡ ok e)
    × (display no_number e ≡ spaced "a" "+" "b" "*" "c")
unfolding token_of token_text
display-parse_tokens_example =
    display-parse_tokens no_number ("a", 0, 1) ("b", 4, 5) ("c", 8, 9) BinaryOperator.plus
      BinaryOperator.mult 2 3 6 7
