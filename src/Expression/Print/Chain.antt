-- ===== src/Expression/Print/Chain.antt =====
-- Two operators in a row, read and printed again.
use Prim.Native.String.{◌++◌}
use text.Mathlib.TextLemmas.{append_assoc}
use vegafusion.Expression.Parser.Atoms.{spanned}
use vegafusion.Expression.Parser.Parse.{parse_tokens}
use vegafusion.Expression.Parser.Precedence.{name, named, parse_tokens-chain, token_of}
use vegafusion.Expression.Power.{infix_binding_power}
use vegafusion.Expression.Print.{display, binding_power, token_text, binary_text}
use vegafusion.Expression.Result.{ok}
use vegafusion.Expression.Syntax.{Text, BinaryOperator, Expression, Expr, as_i32}
use vegafusion.Prelude.{
  ℕ, [], ◌∷◌, ◌≡◌, refl, true, false, arith, ltb, String, Bool-cases, if◌then◌else◌, inl, inr, ap,
  ◌∙◌,
}

token_text-token_of :
    {F : Type 0} (n : F → String) (op : BinaryOperator)
    → token_text n (token_of op) ≡ binary_text op
unfolding token_text token_of binary_text
token_text-token_of n BinaryOperator.equals = refl
token_text-token_of n _ = ground arith

-- A name needs no parentheses.
name-bare :
    (op : BinaryOperator)
    → (ltb 10000 (infix_binding_power op).0 ≡ false)
      × (ltb 10000 (infix_binding_power op).1 ≡ false)
unfolding infix_binding_power
name-bare BinaryOperator.equals = ground arith
name-bare _ = ground arith

-- The text with one blank between any two tokens.
abbrev pub spaced : String → String → String → String → String → String
spaced a op₁ b op₂ c = a ++ (" " ++ (op₁ ++ (" " ++ (b ++ (" " ++ (op₂ ++ (" " ++ c)))))))

not-above : (i j : ℕ) → ltb i j ≡ true → ltb j i ≡ false
not-above i j h = ground arith

module _ {F : Type 0} (n : F → String) (a b c : Text × ℕ × ℕ) (op₁ op₂ : BinaryOperator)
    (s₁ e₁ s₂ e₂ : ℕ) where
  abbrev chain_text : String
  chain_text = spaced a.0 (binary_text op₁) b.0 (binary_text op₂) c.0

  abbrev left_tree : Expression F
  left_tree =
      spanned
        (Expr.binary (spanned (Expr.binary (named a) op₁ (named b)) s₁ (as_i32 b.2)) op₂ (named c))
        s₂ (as_i32 c.2)

  abbrev right_tree : Expression F
  right_tree =
      spanned
        (Expr.binary (named a) op₁ (spanned (Expr.binary (named b) op₂ (named c)) s₂ (as_i32 c.2)))
        s₁ (as_i32 c.2)

  -- The first two names belong together.
  display-left :
      ltb (infix_binding_power op₂).0 (infix_binding_power op₁).1 ≡ true
      → display n left_tree ≡ chain_text
  unfolding display binding_power
  display-left h =
      rw
        (
          not-above (infix_binding_power op₂).0 (infix_binding_power op₁).1 h,
          (name-bare op₁).0,
          (name-bare op₁).1,
          (name-bare op₂).1,
        )
        (simp append_assoc)

  -- The last two names belong together.
  display-right :
      ltb (infix_binding_power op₂).0 (infix_binding_power op₁).1 ≡ false
      → display n right_tree ≡ chain_text
  unfolding display binding_power
  display-right h = rw (h, (name-bare op₁).0, (name-bare op₂).0, (name-bare op₂).1)

-- Three names with two binary operators between them are parsed, however the operators group, and
-- what is printed of the result is the text of the tokens again, without parentheses.
pub display-parse_tokens :
    {F : Type 0} (n : F → String) (a b c : Text × ℕ × ℕ) (op₁ op₂ : BinaryOperator)
    (s₁ e₁ s₂ e₂ : ℕ)
    → (e : Expression F) × (parse_tokens
          (name a ∷ (token_of op₁, s₁, e₁) ∷ name b ∷ (token_of op₂, s₂, e₂) ∷ name c ∷ [])
        ≡ ok e)
      × (display n e
          ≡ spaced a.0 (token_text n (token_of op₁)) b.0 (token_text n (token_of op₂)) c.0)
unfolding display
display-parse_tokens {F} n a b c op₁ op₂ s₁ e₁ s₂ e₂ =
    let parsed = parse_tokens-chain {F = F} a b c op₁ op₂ s₁ e₁ s₂ e₂ in
    let left : Expression F = left_tree n a b c op₁ op₂ s₁ e₁ s₂ e₂ in
    let right : Expression F = right_tree n a b c op₁ op₂ s₁ e₁ s₂ e₂ in
    let texts : chain_text n a b c op₁ op₂ s₁ e₁ s₂ e₂
        ≡ spaced a.0 (token_text n (token_of op₁)) b.0 (token_text n (token_of op₂)) c.0 =
      rw (token_text-token_of n op₁, token_text-token_of n op₂) in
    elim (Bool-cases (ltb (infix_binding_power op₂).0 (infix_binding_power op₁).1)) [
      | inl h ↦ (
        left,
        parsed ∙ ap (λ t. if t then ok left else ok right) h,
        display-left n a b c op₁ op₂ s₁ e₁ s₂ e₂ h ∙ texts,
      )
      | inr h ↦ (
        right,
        parsed ∙ ap (λ t. if t then ok left else ok right) h,
        display-right n a b c op₁ op₂ s₁ e₁ s₂ e₂ h ∙ texts,
      )
    ]
