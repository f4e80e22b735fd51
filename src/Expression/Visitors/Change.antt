-- ===== src/Expression/Visitors/Change.antt =====
-- `MutExpressionVisitor`, with its state passed on, `Expression::walk_mut` and `clear_spans`. A method
-- takes the fields of a node and gives those that it leaves. The identifier that
-- `visit_called_identifier` gets is a copy; a visitor that replaces the arguments there is left out.
use vegafusion.Expression.Syntax.{
  Text, Literal, Key, UnaryOperator, LogicalOperator, BinaryOperator, Expression, expression, Expr,
  identifier, literal, binary, logical, unary, conditional, call, array, object, member,
  Expressions, no_expressions, push_expression, Properties, no_properties, push_property,
}
use vegafusion.Prelude.{Bool, none}

pub record MutVisitor (F S : Type 0) : Type 0 where
  pub visit_expression : Expression F → S → Expression F × S
  pub visit_identifier : Text → S → Text × S
  pub visit_called_identifier : Text → Expressions F → S → S
  pub visit_literal : Literal F → S → Literal F × S
  pub visit_binary :
      Expression F
      → BinaryOperator
      → Expression F
      → S
      → (Expression F × BinaryOperator × Expression F) × S
  pub visit_logical :
      Expression F
      → LogicalOperator
      → Expression F
      → S
      → (Expression F × LogicalOperator × Expression F) × S
  pub visit_unary : UnaryOperator → Expression F → S → (UnaryOperator × Expression F) × S
  pub visit_conditional :
      Expression F
      → Expression F
      → Expression F
      → S
      → (Expression F × Expression F × Expression F) × S
  pub visit_member :
      Expression F → Expression F → Bool → S → (Expression F × Expression F × Bool) × S
  pub visit_call : Text → Expressions F → S → (Text × Expressions F) × S
  pub visit_array : Expressions F → S → Expressions F × S
  pub visit_object : Properties F → S → Properties F × S
  pub visit_object_key : Key F → S → Key F × S
  pub visit_static_member_identifier : Text → S → Text × S

-- The methods that a visitor inherits: they change nothing.
abbrev pub no_changes : {F S : Type 0} → MutVisitor F S
no_changes = record {
  visit_expression = λ e s. (e, s);
  visit_identifier = λ n s. (n, s);
  visit_called_identifier = λ _ _ s. s;
  visit_literal = λ l s. (l, s);
  visit_binary = λ l op r s. ((l, op, r), s);
  visit_logical = λ l op r s. ((l, op, r), s);
  visit_unary = λ op e s. ((op, e), s);
  visit_conditional = λ t c a s. ((t, c, a), s);
  visit_member = λ o p c s. ((o, p, c), s);
  visit_call = λ n es s. ((n, es), s);
  visit_array = λ es s. (es, s);
  visit_object = λ ps s. (ps, s);
  visit_object_key = λ k s. (k, s);
  visit_static_member_identifier = λ n s. (n, s);
}

unfoldable mutual
  pub walk_mut : {F S : Type 0} → MutVisitor F S → Expression F → S → Expression F × S
  walk_mut v (expression e span) s =
      let (e', s') = walk_expr_mut v e s in v.visit_expression (expression e' span) s'

  pub walk_expr_mut : {F S : Type 0} → MutVisitor F S → Expr F → S → Expr F × S
  walk_expr_mut v (binary l op r) s =
      let (l', s₁) = walk_mut v l s in
      let (r', s₂) = walk_mut v r s₁ in
      let ((l'', op', r''), s₃) = v.visit_binary l' op r' s₂ in (binary l'' op' r'', s₃)
  walk_expr_mut v (logical l op r) s =
      let (l', s₁) = walk_mut v l s in
      let (r', s₂) = walk_mut v r s₁ in
      let ((l'', op', r''), s₃) = v.visit_logical l' op r' s₂ in (logical l'' op' r'', s₃)
  walk_expr_mut v (unary op e) s =
      let (e', s₁) = walk_mut v e s in
      let ((op', e''), s₂) = v.visit_unary op e' s₁ in (unary op' e'', s₂)
  walk_expr_mut v (conditional t c a) s =
      let (t', s₁) = walk_mut v t s in
      let (c', s₂) = walk_mut v c s₁ in
      let (a', s₃) = walk_mut v a s₂ in
      let ((t'', c'', a''), s₄) = v.visit_conditional t' c' a' s₃ in (conditional t'' c'' a'', s₄)
  walk_expr_mut v (literal l) s = let (l', s') = v.visit_literal l s in (literal l', s')
  walk_expr_mut v (identifier name) s =
      let (name', s') = v.visit_identifier name s in (identifier name', s')
  walk_expr_mut v (call callee args) s =
      let (args', s₁) = walk_all_mut v args (v.visit_called_identifier callee args s) in
      let ((callee', args''), s₂) = v.visit_call callee args' s₁ in (call callee' args'', s₂)
  walk_expr_mut v (array elements) s =
      let (elements', s₁) = walk_all_mut v elements s in
      let (elements'', s₂) = v.visit_array elements' s₁ in (array elements'', s₂)
  walk_expr_mut v (object properties) s =
      let (properties', s₁) = walk_properties_mut v properties s in
      let (properties'', s₂) = v.visit_object properties' s₁ in (object properties'', s₂)
  walk_expr_mut v (member o (expression (identifier name) span) computed) s =
      let (o', s₁) = walk_mut v o s in
      let (name', s₂) = v.visit_static_member_identifier name s₁ in
      let ((o'', p', computed'), s₃) =
        v.visit_member o' (expression (identifier name') span) computed s₂ in
      (member o'' p' computed', s₃)
  walk_expr_mut v (member o p computed) s =
      let (o', s₁) = walk_mut v o s in
      let (p', s₂) = walk_mut v p s₁ in
      let ((o'', p'', computed'), s₃) = v.visit_member o' p' computed s₂ in
      (member o'' p'' computed', s₃)

  pub walk_all_mut : {F S : Type 0} → MutVisitor F S → Expressions F → S → Expressions F × S
  walk_all_mut v no_expressions s = (no_expressions, s)
  walk_all_mut v (push_expression e es) s =
      let (e', s₁) = walk_mut v e s in
      let (es', s₂) = walk_all_mut v es s₁ in (push_expression e' es', s₂)

  pub walk_properties_mut : {F S : Type 0} → MutVisitor F S → Properties F → S → Properties F × S
  walk_properties_mut v no_properties s = (no_properties, s)
  walk_properties_mut v (push_property key value ps) s =
      let (key', s₁) = v.visit_object_key key s in
      let (value', s₂) = walk_mut v value s₁ in
      let (ps', s₃) = walk_properties_mut v ps s₂ in (push_property key' value' ps', s₃)

module _ {F : Type 0} where
  -- `span.take()`
  unfoldable pub take_span : Expression F → Expression F
  take_span (expression e span) = expression e none

  -- `ClearSpansVisitor`
  abbrev pub clear_spans_visitor : MutVisitor F (Unit {0})
  unfolding take_span
  clear_spans_visitor = record no_changes {
    visit_expression = λ e s. (take_span e, s);
    visit_member = λ o p computed s. ((o, take_span p, computed), s);
  }

  unfoldable pub clear_spans : Expression F → Expression F
  unfolding walk_mut take_span
  clear_spans e = (walk_mut clear_spans_visitor e tt).0
