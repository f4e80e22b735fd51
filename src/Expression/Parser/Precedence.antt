-- ===== src/Expression/Parser/Precedence.antt =====
-- How the parser groups two operators in a row.
use vegafusion.Expression.Parser.Atoms.{Parse, remove_first, span_end, spanned, parse_atom}
use vegafusion.Expression.Parser.Forms.{parse_form}
use vegafusion.Expression.Parser.Infix.{operand, parse_binary, extend_form}
use vegafusion.Expression.Parser.Parse.{extend, perform_parse, parse_tokens, finish}
use vegafusion.Expression.Power.{infix_binding_power}
use vegafusion.Expression.Result.{ok, ◌>>=◌}
use vegafusion.Expression.Syntax.{BinaryOperator, Expression, Expr, Text, as_i32}
use vegafusion.Expression.Token.{Token, Tokens, closes, is_atom, binary_op_from_token}
use vegafusion.Prelude.{
  ℕ, suc, [], ◌∷◌, ◌≡◌, refl, false, arith, ltb, if◌then◌else◌, Bool-cases, inl, inr,
}

-- The token of a binary operator.
unfoldable pub token_of : {F : Type 0} → BinaryOperator → Token F
token_of BinaryOperator.equals = Token.double_equals
token_of BinaryOperator.not_equals = Token.exclamation_equals
token_of BinaryOperator.strict_equals = Token.triple_equals
token_of BinaryOperator.not_strict_equals = Token.exclamation_double_equals
token_of BinaryOperator.less_than = Token.less_than
token_of BinaryOperator.less_than_equal = Token.less_than_equals
token_of BinaryOperator.greater_than = Token.greater_than
token_of BinaryOperator.greater_than_equal = Token.greater_than_equals
token_of BinaryOperator.plus = Token.plus
token_of BinaryOperator.minus = Token.minus
token_of BinaryOperator.mult = Token.asterisk
token_of BinaryOperator.div = Token.slash
token_of BinaryOperator.mod_op = Token.percent
token_of BinaryOperator.bitwise_and = Token.bitwise_and
token_of BinaryOperator.bitwise_or = Token.bitwise_or
token_of BinaryOperator.bitwise_xor = Token.bitwise_xor
token_of BinaryOperator.bitwise_shift_left = Token.bitwise_shift_left
token_of BinaryOperator.bitwise_shift_right = Token.bitwise_shift_right

ltb-zero : (n : ℕ) → ltb n 0 ≡ false
ltb-zero n = ground arith

module _ {F : Type 0} where
  -- A round of the loop at a binary operator.
  extend-operator :
      (parse : Parse F) (fuel : ℕ) (lhs : Expression F) (bp : ℕ) (op : BinaryOperator) (s e : ℕ)
      (rest : Tokens F)
      → extend parse (suc fuel) lhs bp ((token_of op, s, e) ∷ rest) ≡ (
          if ltb (infix_binding_power op).0 bp
          then ok (lhs, (token_of op, s, e) ∷ rest)
          else (operand parse
                (λ rhs. Expr.binary lhs op rhs)
                (infix_binding_power op).1
                s
                ((token_of op, s, e) ∷ rest)
              >>= λ (new_lhs, rest'). extend parse fuel new_lhs bp rest'))
  unfolding extend extend_form parse_binary closes binary_op_from_token token_of infix_binding_power
  extend-operator parse fuel lhs bp BinaryOperator.equals s e rest = ground arith
  extend-operator parse fuel lhs bp _ s e rest = ground arith

  extend-nil :
      (parse : Parse F) (fuel : ℕ) (lhs : Expression F) (bp : ℕ)
      → extend parse (suc fuel) lhs bp [] ≡ ok (lhs, [])
  unfolding extend
  extend-nil parse fuel lhs bp = refl

  -- A name with its positions, as a token and as an expression.
  abbrev pub name : Text × ℕ × ℕ → Token F × ℕ × ℕ
  name (x, s, e) = (Token.identifier x, s, e)

  abbrev pub named : Text × ℕ × ℕ → Expression F
  named (x, s, e) = spanned (Expr.identifier x) s (as_i32 e)

  -- Of three names with two binary operators between them, the first two belong together if the
  -- second operator's left power is below the first one's right power, and else the last two. The
  -- span of an operation begins at its operator.
  pub parse_tokens-chain :
      (a b c : Text × ℕ × ℕ) (op₁ op₂ : BinaryOperator) (s₁ e₁ s₂ e₂ : ℕ)
      → parse_tokens
          (name a ∷ (token_of op₁, s₁, e₁) ∷ name b ∷ (token_of op₂, s₂, e₂) ∷ name c ∷ [])
        ≡ (if ltb (infix_binding_power op₂).0 (infix_binding_power op₁).1
            then ok (
                spanned
                  (Expr.binary
                    (spanned (Expr.binary (named a) op₁ (named b)) s₁ (as_i32 b.2))
                    op₂
                    (named c))
                  s₂
                  (as_i32 c.2))
            else ok (
                spanned
                  (Expr.binary
                    (named a)
                    op₁
                    (spanned (Expr.binary (named b) op₂ (named c)) s₂ (as_i32 c.2)))
                  s₁
                  (as_i32 c.2)))
  unfolding parse_tokens perform_parse parse_form parse_atom operand remove_first span_end is_atom
      finish
  parse_tokens-chain a b c op₁ op₂ s₁ e₁ s₂ e₂ =
      elim (Bool-cases (ltb (infix_binding_power op₂).0 (infix_binding_power op₁).1)) [
        | inl h ↦ simp (
          extend-operator (perform_parse 5) 4,
          ltb-zero,
          extend-operator (perform_parse 4) 3,
          extend-operator (perform_parse 5) 3,
          extend-nil (perform_parse 4) 3,
          extend-nil (perform_parse 5) 2,
          h,
        )
        | inr h ↦ simp (
          extend-operator (perform_parse 5) 4,
          ltb-zero,
          extend-operator (perform_parse 4) 3,
          extend-nil (perform_parse 3) 2,
          extend-nil (perform_parse 4) 2,
          extend-nil (perform_parse 5) 3,
          h,
        )
      ]
