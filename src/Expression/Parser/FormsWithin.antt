-- ===== src/Expression/Parser/FormsWithin.antt =====
-- The forms that begin an expression leave no more tokens than they are given, and have fuel enough.
use vegafusion.Expression.Parser.Branches.{Within-if, Within-elim, Within-maybe, Within-try_new}
use vegafusion.Expression.Parser.Atoms.{Parse, skip_comma, parse_atom, atom}
use vegafusion.Expression.Parser.Forms.{
  parse_unary, parse_paren_grouping, parse_elements, parse_array, parse_properties, parse_object,
  parse_form,
}
use vegafusion.Expression.Power.{unary_binding_power}
use vegafusion.Expression.Parser.Within.{
  Within, Within-bind, Within-weaken, Within-span_end, Within-expect_token, length-skip_comma-le,
}
use vegafusion.Expression.Token.{Token, Tokens, token_eq, is_atom, unary_op_from_token}
use vegafusion.Prelude.{ℕ, zero, suc, ◌-◌, ◌≤◌, ◌<◌, Option-cases, inl, inr, [], ◌∷◌, length, arith}

-- `parse` does its work on up to `k` tokens.
module _ {F : Type 0} (parse : Parse F) (k : ℕ)
    (reads : (bp : ℕ) (tokens : Tokens F)
      → length tokens ≤ k
      → Within (length tokens - 1) (parse bp tokens)) where
  pub parse_elements-Within :
      (close : Token F) (fuel : ℕ) (tokens : Tokens F)
      → length tokens ≤ k
      → length tokens < fuel
      → Within (length tokens) (parse_elements parse close fuel tokens)
  unfolding parse_elements
  parse_elements-Within close zero tokens h g = absurd (omega arith)
  parse_elements-Within close (suc fuel) [] h g = omega arith
  parse_elements-Within close (suc fuel) ((token, s, e) ∷ rest) h g =
      let tokens : Tokens F = (token, s, e) ∷ rest in
      let steps =
        Within-bind (length rest) (length tokens) (parse 10 tokens) _
          (Within-weaken (length tokens - 1) (length rest) (parse 10 tokens) (omega arith)
            (reads 10 tokens h))
          (λ element t₁ h₁.
            Within-bind (length (skip_comma t₁)) (length tokens)
              (parse_elements parse close fuel (skip_comma t₁)) _
              (parse_elements-Within close fuel (skip_comma t₁)
                (omega (arith, length-skip_comma-le t₁)) (omega (arith, length-skip_comma-le t₁)))
              (λ elements t₂ h₂. omega (arith, length-skip_comma-le t₁))) in
      Within-elim (length tokens) (token_eq token close) _ _ (omega arith) steps

  parse_properties-Within :
      (fuel : ℕ) (tokens : Tokens F)
      → length tokens ≤ k
      → length tokens < fuel
      → Within (length tokens) (parse_properties parse fuel tokens)
  unfolding parse_properties
  parse_properties-Within zero tokens h g = absurd (omega arith)
  parse_properties-Within (suc fuel) [] h g = omega arith
  parse_properties-Within (suc fuel) ((token, s, e) ∷ rest) h g =
      let tokens : Tokens F = (token, s, e) ∷ rest in
      Within-elim (length tokens) (token_eq token Token.close_curly) _ _ (omega arith) (
        Within-bind (length rest) (length tokens) (parse 10 tokens) _
          (Within-weaken (length tokens - 1) (length rest) (parse 10 tokens) (omega arith)
            (reads 10 tokens h))
          (λ key t₁ h₁.
            (Within-expect_token (length tokens) Token.colon t₁ _ (λ _ _ t₂ h₂.
              Within-bind (length t₂ - 1) (length tokens) (parse 10 t₂) _
                (reads 10 t₂ (omega arith))
                (λ value t₃ h₃. Within-try_new (length tokens) key _ (λ property.
                  Within-bind (length (skip_comma t₃)) (length tokens)
                    (parse_properties parse fuel (skip_comma t₃)) _
                    (parse_properties-Within fuel (skip_comma t₃)
                      (omega (arith, length-skip_comma-le t₃))
                      (omega (arith, length-skip_comma-le t₃)))
                    (λ properties t₄ h₄. omega (arith, length-skip_comma-le t₃)))))).0))

  -- The forms that begin an expression leave no more tokens than stand behind its first one.
  pub parse_form-Within :
      (fuel : ℕ) (token : Token F) (start end : ℕ) (tokens : Tokens F)
      → length tokens ≤ k
      → length tokens < fuel
      → Within (length tokens) (parse_form parse fuel token start end tokens)
  unfolding parse_form parse_atom parse_unary parse_paren_grouping parse_array parse_object
  parse_form-Within fuel token start end tokens h g =
      let n = length tokens in
      Within-if n (is_atom token) _ _
        (elim (Option-cases (atom token)) [
          | inl none_here ↦ rw (none_here, Within) tt
          | inr (a, here) ↦ rw (here, Within) (omega arith)
        ])
        (Within-maybe n (unary_op_from_token token) _ _
          (λ op.
            Within-bind (n - 1) n (parse (unary_binding_power op) tokens) _
              (reads (unary_binding_power op) tokens h)
              (λ rhs rest h₁. Within-span_end n rhs _ (λ _. omega arith)))
          (Within-if n (token_eq token Token.open_paren) _ _
            (Within-bind (n - 1) n (parse 0 tokens) _ (reads 0 tokens h) (λ lhs rest h₁.
              (Within-expect_token n Token.close_paren rest _ (λ _ _ _ last. omega arith)).0))
            (Within-if n (token_eq token Token.open_square) _ _
              (Within-bind n n (parse_elements parse Token.close_square fuel tokens) _
                (parse_elements-Within Token.close_square fuel tokens h g)
                (λ es rest h₁.
                  (Within-expect_token n Token.close_square rest _ (λ _ _ _ last. omega arith)).1))
              (Within-if n (token_eq token Token.open_curly) _ _
                (Within-bind n n (parse_properties parse fuel tokens) _
                  (parse_properties-Within fuel tokens h g)
                  (λ ps rest h₁.
                    (Within-expect_token n Token.close_curly rest _ (λ _ _ _ last. omega arith)).1))
                tt))))
