-- ===== src/Expression/Parser/Parse.antt =====
-- `perform_parse` and `parse`.
use vegafusion.Expression.Parser.Atoms.{Parse}
use vegafusion.Expression.Parser.Forms.{parse_form}
use vegafusion.Expression.Parser.Infix.{extend_form}
use vegafusion.Expression.Result.{Result, Error, ok, err, out_of_fuel, ◌>>=◌}
use vegafusion.Expression.Syntax.{Expression}
use vegafusion.Expression.Token.{Tokens, closes}
use vegafusion.Prelude.{ℕ, zero, suc, true, false, [], ◌∷◌, none, some, length}

module _ {F : Type 0} where
  -- The loop of `perform_parse`.
  unfoldable pub extend :
      Parse F → ℕ → Expression F → ℕ → Tokens F → Result (Expression F × Tokens F)
  extend parse zero lhs min_bp tokens = out_of_fuel
  extend parse (suc fuel) lhs min_bp [] = ok (lhs, [])
  extend parse (suc fuel) lhs min_bp ((token, start, end) ∷ rest) = elim (closes token) [
    | true ↦ ok (lhs, (token, start, end) ∷ rest)
    | false ↦ elim (extend_form parse fuel token lhs min_bp start ((token, start, end) ∷ rest)) [
      | none ↦ ok (lhs, (token, start, end) ∷ rest)
      | some result ↦ result >>= λ (new_lhs, rest'). extend parse fuel new_lhs min_bp rest'
    ]
  ]

  unfoldable pub perform_parse : ℕ → Parse F
  perform_parse zero min_bp tokens = out_of_fuel
  perform_parse (suc fuel) min_bp [] = err Error.unexpected_end
  perform_parse (suc fuel) min_bp ((token, start, end) ∷ rest) = do
    (lhs, rest') ← parse_form (perform_parse fuel) fuel token start end rest
    extend (perform_parse fuel) fuel lhs min_bp rest'

  -- `parse`, behind `tokenize`: no token may be left.
  unfoldable pub finish : Expression F × Tokens F → Result (Expression F)
  finish (result, []) = ok result
  finish (result, _ ∷ _) = err Error.unexpected_token

  unfoldable pub parse_tokens : Tokens F → Result (Expression F)
  unfolding finish
  parse_tokens tokens = perform_parse (suc (length tokens)) 0 tokens >>= finish
