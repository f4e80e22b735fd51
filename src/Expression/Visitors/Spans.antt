-- ===== src/Expression/Visitors/Spans.antt =====
-- What `clear_spans` leaves.
use vegafusion.Expression.Syntax.{
  Expression, expression, Expr, identifier, literal, binary, logical, unary, conditional, call,
  array, object, member, Expressions, no_expressions, push_expression, Properties, no_properties,
  push_property,
}
use vegafusion.Expression.Visitors.Change.{
  walk_mut, walk_expr_mut, walk_all_mut, walk_properties_mut, take_span, clear_spans_visitor,
  clear_spans,
}
use vegafusion.Prelude.{Bool, none, ◌≡◌, refl, ap, ◌∙◌}

-- The same expression without a span at any node.
unfoldable mutual
  pub unspanned : {F : Type 0} → Expression F → Expression F
  unspanned (expression e span) = expression (unspanned_expr e) none

  pub unspanned_expr : {F : Type 0} → Expr F → Expr F
  unspanned_expr (identifier name) = identifier name
  unspanned_expr (literal l) = literal l
  unspanned_expr (binary l op r) = binary (unspanned l) op (unspanned r)
  unspanned_expr (logical l op r) = logical (unspanned l) op (unspanned r)
  unspanned_expr (unary op e) = unary op (unspanned e)
  unspanned_expr (conditional t c a) = conditional (unspanned t) (unspanned c) (unspanned a)
  unspanned_expr (call callee args) = call callee (unspanned_all args)
  unspanned_expr (array elements) = array (unspanned_all elements)
  unspanned_expr (object properties) = object (unspanned_properties properties)
  unspanned_expr (member o p computed) = member (unspanned o) (unspanned p) computed

  pub unspanned_all : {F : Type 0} → Expressions F → Expressions F
  unspanned_all no_expressions = no_expressions
  unspanned_all (push_expression e es) = push_expression (unspanned e) (unspanned_all es)

  pub unspanned_properties : {F : Type 0} → Properties F → Properties F
  unspanned_properties no_properties = no_properties
  unspanned_properties (push_property key value ps) =
      push_property key (unspanned value) (unspanned_properties ps)

-- A span that is taken twice is taken once.
take_span-unspanned : {F : Type 0} (e : Expression F) → take_span (unspanned e) ≡ unspanned e
unfolding take_span unspanned
take_span-unspanned (expression e span) = refl

-- A member whose property is walked.
member_lem :
    {F : Type 0} (o p : Expression F) (computed : Bool) (s : Unit {0})
    → (walk_mut clear_spans_visitor o s).0 ≡ unspanned o
    → (walk_mut clear_spans_visitor p (walk_mut clear_spans_visitor o s).1).0 ≡ unspanned p
    → member
        (walk_mut clear_spans_visitor o s).0
        (take_span (walk_mut clear_spans_visitor p (walk_mut clear_spans_visitor o s).1).0)
        computed
      ≡ member (unspanned o) (unspanned p) computed
member_lem o p computed s e f =
    ap
      (λ o'.
        member o'
          (take_span (walk_mut clear_spans_visitor p (walk_mut clear_spans_visitor o s).1).0)
          computed)
      e
    ∙ ap (λ p'. member (unspanned o) (take_span p') computed) f
    ∙ ap (λ p'. member (unspanned o) p' computed) (take_span-unspanned p)

mutual
  unfolding walk_mut unspanned take_span

  walk_mut_lem :
      {F : Type 0} (e : Expression F) (s : Unit {0})
      → (walk_mut clear_spans_visitor e s).0 ≡ unspanned e
  walk_mut_lem (expression e span) s = ap (λ e. expression e none) (walk_expr_mut_lem e s)

  walk_expr_mut_lem :
      {F : Type 0} (e : Expr F) (s : Unit {0})
      → (walk_expr_mut clear_spans_visitor e s).0 ≡ unspanned_expr e
  walk_expr_mut_lem (identifier name) s = refl
  walk_expr_mut_lem (literal l) s = refl
  walk_expr_mut_lem (binary l op r) s =
      ap (λ l. binary l op (walk_mut clear_spans_visitor r _).0) (walk_mut_lem l s)
      ∙ ap (binary (unspanned l) op) (walk_mut_lem r _)
  walk_expr_mut_lem (logical l op r) s =
      ap (λ l. logical l op (walk_mut clear_spans_visitor r _).0) (walk_mut_lem l s)
      ∙ ap (logical (unspanned l) op) (walk_mut_lem r _)
  walk_expr_mut_lem (unary op e) s = ap (unary op) (walk_mut_lem e s)
  walk_expr_mut_lem (conditional t c a) s =
      let e = walk_mut_lem t s in
      let f = walk_mut_lem c (walk_mut clear_spans_visitor t s).1 in
      let g =
        walk_mut_lem a (walk_mut clear_spans_visitor c (walk_mut clear_spans_visitor t s).1).1 in
      rw (e, f, g)
  walk_expr_mut_lem (call callee args) s = ap (call callee) (walk_all_mut_lem args s)
  walk_expr_mut_lem (array elements) s = ap array (walk_all_mut_lem elements s)
  walk_expr_mut_lem (object properties) s = ap object (walk_properties_mut_lem properties s)
  walk_expr_mut_lem (member o (expression (identifier name) span) computed) s =
      ap (λ o. member o (expression (identifier name) none) computed) (walk_mut_lem o s)
  walk_expr_mut_lem (member o (expression (literal l) span) computed) s =
      member_lem o (expression (literal l) span) computed s (walk_mut_lem o s)
        (walk_mut_lem (expression (literal l) span) (walk_mut clear_spans_visitor o s).1)
  walk_expr_mut_lem (member o (expression (binary l op r) span) computed) s =
      member_lem o (expression (binary l op r) span) computed s (walk_mut_lem o s)
        (walk_mut_lem (expression (binary l op r) span) (walk_mut clear_spans_visitor o s).1)
  walk_expr_mut_lem (member o (expression (logical l op r) span) computed) s =
      member_lem o (expression (logical l op r) span) computed s (walk_mut_lem o s)
        (walk_mut_lem (expression (logical l op r) span) (walk_mut clear_spans_visitor o s).1)
  walk_expr_mut_lem (member o (expression (unary op e) span) computed) s =
      member_lem o (expression (unary op e) span) computed s (walk_mut_lem o s)
        (walk_mut_lem (expression (unary op e) span) (walk_mut clear_spans_visitor o s).1)
  walk_expr_mut_lem (member o (expression (conditional t c a) span) computed) s =
      member_lem o (expression (conditional t c a) span) computed s (walk_mut_lem o s)
        (walk_mut_lem (expression (conditional t c a) span) (walk_mut clear_spans_visitor o s).1)
  walk_expr_mut_lem (member o (expression (call callee args) span) computed) s =
      member_lem o (expression (call callee args) span) computed s (walk_mut_lem o s)
        (walk_mut_lem (expression (call callee args) span) (walk_mut clear_spans_visitor o s).1)
  walk_expr_mut_lem (member o (expression (array elements) span) computed) s =
      member_lem o (expression (array elements) span) computed s (walk_mut_lem o s)
        (walk_mut_lem (expression (array elements) span) (walk_mut clear_spans_visitor o s).1)
  walk_expr_mut_lem (member o (expression (object properties) span) computed) s =
      member_lem o (expression (object properties) span) computed s (walk_mut_lem o s)
        (walk_mut_lem (expression (object properties) span) (walk_mut clear_spans_visitor o s).1)
  walk_expr_mut_lem (member o (expression (member o' p' computed') span) computed) s =
      member_lem o (expression (member o' p' computed') span) computed s (walk_mut_lem o s) (
        walk_mut_lem (expression (member o' p' computed') span)
          (walk_mut clear_spans_visitor o s).1)

  walk_all_mut_lem :
      {F : Type 0} (es : Expressions F) (s : Unit {0})
      → (walk_all_mut clear_spans_visitor es s).0 ≡ unspanned_all es
  walk_all_mut_lem no_expressions s = refl
  walk_all_mut_lem (push_expression e es) s =
      let f = walk_mut_lem e s in
      let g = walk_all_mut_lem es (walk_mut clear_spans_visitor e s).1 in rw (f, g)

  walk_properties_mut_lem :
      {F : Type 0} (ps : Properties F) (s : Unit {0})
      → (walk_properties_mut clear_spans_visitor ps s).0 ≡ unspanned_properties ps
  walk_properties_mut_lem no_properties s = refl
  walk_properties_mut_lem (push_property key value ps) s =
      let f = walk_mut_lem value s in
      let g = walk_properties_mut_lem ps (walk_mut clear_spans_visitor value s).1 in rw (f, g)

-- `clear_spans` takes the spans of all nodes of an expression, those of the properties of members
-- included, and changes nothing else.
pub clear_spans_lem : {F : Type 0} (e : Expression F) → clear_spans e ≡ unspanned e
unfolding clear_spans
clear_spans_lem e = walk_mut_lem e tt
