-- ===== src/Expression/Parser/Arrays.antt =====
-- Array literals, closed and left open.
use vegafusion.Expression.Parser.Atoms.{expect_token, skip_comma, spanned, parse_atom}
use vegafusion.Expression.Parser.Forms.{parse_elements, parse_array, parse_form}
use vegafusion.Expression.Parser.Parse.{extend, perform_parse, parse_tokens, finish}
use vegafusion.Expression.Parser.Precedence.{name, named}
use vegafusion.Expression.Result.{ok, panic}
use vegafusion.Expression.Syntax.{Expr, Text, as_i32, Expressions, no_expressions, push_expression}
use vegafusion.Expression.Token.{Token, Tokens, closes, is_atom, token_eq, unary_op_from_token}
use vegafusion.Prelude.{
  ℕ, zero, suc, ◌≤◌, ◌<◌, List, [], ◌∷◌, ◌++◌, ◌≡◌, refl, arith, length, length-append, append-nil,
  subst,
}

module _ {F : Type 0} where
  -- Names with a comma behind each, as tokens and as expressions. Positions do not matter, so the
  -- commas stand at 0.
  unfoldable pub separated : List (Text × ℕ × ℕ) → Tokens F
  separated [] = []
  separated (x ∷ xs) = name x ∷ (Token.comma, 0, 0) ∷ separated xs

  unfoldable pub names : List (Text × ℕ × ℕ) → Expressions F
  names [] = no_expressions
  names (x ∷ xs) = push_expression (named x) (names xs)

  -- What may stand behind the last element.
  data Stops : Tokens F → Type 0 where
    at_end : Stops []
    at_close : (s e : ℕ) (rest : Tokens F) → Stops ((Token.close_square, s, e) ∷ rest)

  perform_parse-name :
      (g : ℕ) (x : Text × ℕ × ℕ) (rest : Tokens F)
      → perform_parse (suc (suc g)) 10 (name x ∷ (Token.comma, 0, 0) ∷ rest)
        ≡ ok (named x, (Token.comma, 0, 0) ∷ rest)
  unfolding perform_parse extend parse_form parse_atom is_atom closes
  perform_parse-name g x rest = refl

  parse_elements-separated :
      (xs : List (Text × ℕ × ℕ)) (g fuel : ℕ) (tail : Tokens F)
      → Stops tail
      → length (separated xs) ≤ g
      → length (separated xs) < fuel
      → parse_elements (perform_parse g) Token.close_square fuel (separated xs ++ tail)
        ≡ ok (names xs, tail)
  unfolding parse_elements separated names token_eq skip_comma
  parse_elements-separated xs g zero tail stops h k = absurd (omega arith)
  parse_elements-separated [] g (suc fuel) _ at_end h k = refl
  parse_elements-separated [] g (suc fuel) _ (at_close s e rest) h k = refl
  parse_elements-separated (x ∷ xs) zero (suc fuel) tail stops h k = absurd (omega arith)
  parse_elements-separated (x ∷ xs) (suc zero) (suc fuel) tail stops h k = absurd (omega arith)
  parse_elements-separated (x ∷ xs) (suc (suc g)) (suc fuel) tail stops h k =
      rw (perform_parse-name g x (separated xs ++ tail))
        (rw (parse_elements-separated xs (suc (suc g)) fuel tail stops (omega arith) (omega arith)))

  -- An array literal of any number of names, with a comma behind each, parses to the array of the
  -- names, over the span from its bracket to its bracket. Without the closing bracket it panics.
  pub parse_tokens-array :
      (xs : List (Text × ℕ × ℕ)) (s e s' e' : ℕ)
      → (parse_tokens
            ((Token.open_square, s, e) ∷ (separated xs ++ (Token.close_square, s', e') ∷ []))
          ≡ ok (spanned (Expr.array (names xs)) s (as_i32 e')))
        × (parse_tokens ((Token.open_square, s, e) ∷ separated xs) ≡ panic)
  unfolding parse_tokens perform_parse parse_form parse_array is_atom unary_op_from_token token_eq
      expect_token extend finish
  parse_tokens-array xs s e s' e' =
      let close : Tokens F = (Token.close_square, s', e') ∷ [] in
      let n = length (separated xs ++ close) in
      let m = length (separated xs) in
      let long = length-append (separated xs) close in
      (
        rw (
            parse_elements-separated xs (suc n) (suc n) close (at_close s' e' [])
              (omega (arith, long)) (omega (arith, long))),
        rw (
            subst
              (λ ts.
                parse_elements (perform_parse (suc m)) Token.close_square (suc m) ts
                ≡ ok (names xs, []))
              (append-nil (separated xs))
              (parse_elements-separated xs (suc m) (suc m) [] at_end (omega arith) (omega arith))),
      )
