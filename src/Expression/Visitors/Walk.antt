-- ===== src/Expression/Visitors/Walk.antt =====
-- `ExpressionVisitor`, with its state passed on, and `Expression::walk`. A node is given by its
-- fields.
use vegafusion.Expression.Syntax.{
  Text, Literal, Key, UnaryOperator, LogicalOperator, BinaryOperator, Expression, expression, Expr,
  identifier, literal, binary, logical, unary, conditional, call, array, object, member,
  Expressions, no_expressions, push_expression, Properties, no_properties, push_property,
}
use vegafusion.Prelude.{Bool}

pub record Visitor (F S : Type 0) : Type 0 where
  pub visit_expression : Expression F → S → S
  pub visit_identifier : Text → S → S
  pub visit_called_identifier : Text → Expressions F → S → S
  pub visit_literal : Literal F → S → S
  pub visit_binary : Expression F → BinaryOperator → Expression F → S → S
  pub visit_logical : Expression F → LogicalOperator → Expression F → S → S
  pub visit_unary : UnaryOperator → Expression F → S → S
  pub visit_conditional : Expression F → Expression F → Expression F → S → S
  pub visit_member : Expression F → Expression F → Bool → S → S
  pub visit_call : Text → Expressions F → S → S
  pub visit_array : Expressions F → S → S
  pub visit_object : Properties F → S → S
  pub visit_object_key : Key F → S → S
  pub visit_static_member_identifier : Text → S → S

-- The methods that a visitor inherits: they do nothing.
abbrev pub no_visits : {F S : Type 0} → Visitor F S
no_visits = record {
  visit_expression = λ _ s. s;
  visit_identifier = λ _ s. s;
  visit_called_identifier = λ _ _ s. s;
  visit_literal = λ _ s. s;
  visit_binary = λ _ _ _ s. s;
  visit_logical = λ _ _ _ s. s;
  visit_unary = λ _ _ s. s;
  visit_conditional = λ _ _ _ s. s;
  visit_member = λ _ _ _ s. s;
  visit_call = λ _ _ s. s;
  visit_array = λ _ s. s;
  visit_object = λ _ s. s;
  visit_object_key = λ _ s. s;
  visit_static_member_identifier = λ _ s. s;
}

unfoldable mutual
  pub walk : {F S : Type 0} → Visitor F S → Expression F → S → S
  walk v (expression e span) s = v.visit_expression (expression e span) (walk_expr v e s)

  pub walk_expr : {F S : Type 0} → Visitor F S → Expr F → S → S
  walk_expr v (binary l op r) s = v.visit_binary l op r (walk v r (walk v l s))
  walk_expr v (logical l op r) s = v.visit_logical l op r (walk v r (walk v l s))
  walk_expr v (unary op e) s = v.visit_unary op e (walk v e s)
  walk_expr v (conditional t c a) s = v.visit_conditional t c a (walk v a (walk v c (walk v t s)))
  walk_expr v (literal l) s = v.visit_literal l s
  walk_expr v (identifier name) s = v.visit_identifier name s
  walk_expr v (call callee args) s =
      v.visit_call callee args (walk_all v args (v.visit_called_identifier callee args s))
  walk_expr v (array elements) s = v.visit_array elements (walk_all v elements s)
  walk_expr v (object properties) s = v.visit_object properties (walk_properties v properties s)
  walk_expr v (member o (expression (identifier name) span) computed) s =
      v.visit_member o (expression (identifier name) span) computed
        (v.visit_static_member_identifier name (walk v o s))
  walk_expr v (member o p computed) s = v.visit_member o p computed (walk v p (walk v o s))

  pub walk_all : {F S : Type 0} → Visitor F S → Expressions F → S → S
  walk_all v no_expressions s = s
  walk_all v (push_expression e es) s = walk_all v es (walk v e s)

  pub walk_properties : {F S : Type 0} → Visitor F S → Properties F → S → S
  walk_properties v no_properties s = s
  walk_properties v (push_property key value ps) s =
      walk_properties v ps (walk v value (v.visit_object_key key s))
