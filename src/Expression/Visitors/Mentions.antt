-- ===== src/Expression/Visitors/Mentions.antt =====
-- The names that the traversal shows to a visitor of names.
use vegafusion.Expression.Syntax.{
  Text, Expression, expression, Expr, identifier, literal, binary, logical, unary, conditional,
  call, array, object, member, Expressions, no_expressions, push_expression, Properties,
  no_properties, push_property,
}
use vegafusion.Expression.Visitors.Walk.{
  Visitor, no_visits, walk, walk_expr, walk_all, walk_properties,
}
use vegafusion.Prelude.{Bool, false, ◌||◌, ◌≡◌, arith, subst}

-- A name for which the test passes stands in the expression as a variable: not as a callee, not as
-- a key, and not as the property of a member, computed or not.
unfoldable mutual
  pub mentions : {F : Type 0} → (Text → Bool) → Expression F → Bool
  mentions p (expression e _) = mentions_expr p e

  pub mentions_expr : {F : Type 0} → (Text → Bool) → Expr F → Bool
  mentions_expr p (binary l _ r) = mentions p l || mentions p r
  mentions_expr p (logical l _ r) = mentions p l || mentions p r
  mentions_expr p (unary _ e) = mentions p e
  mentions_expr p (conditional t c a) = mentions p t || (mentions p c || mentions p a)
  mentions_expr p (literal _) = false
  mentions_expr p (identifier name) = p name
  mentions_expr p (call _ args) = mentions_any p args
  mentions_expr p (array elements) = mentions_any p elements
  mentions_expr p (object properties) = mentions_values p properties
  mentions_expr p (member o (expression (identifier _) _) _) = mentions p o
  mentions_expr p (member o property _) = mentions p o || mentions p property

  pub mentions_any : {F : Type 0} → (Text → Bool) → Expressions F → Bool
  mentions_any p no_expressions = false
  mentions_any p (push_expression e es) = mentions p e || mentions_any p es

  pub mentions_values : {F : Type 0} → (Text → Bool) → Properties F → Bool
  mentions_values p no_properties = false
  mentions_values p (push_property _ value ps) = mentions p value || mentions_values p ps

-- A visitor of identifiers and called identifiers alone.
abbrev pub names_visitor :
    {F S : Type 0} → (Text → S → S) → (Text → Expressions F → S → S) → Visitor F S
names_visitor f g = record no_visits { visit_identifier = f; visit_called_identifier = g }

or_false : (a : Bool) → a ≡ (a || false)
or_false a = ground arith

or_next : (a b c m n : Bool) → b ≡ (a || m) → c ≡ (b || n) → c ≡ (a || (m || n))
or_next a b c m n h k = ground arith

module _ {F S : Type 0} (f : Text → S → S) (g : Text → Expressions F → S → S) (holds : S → Bool)
    (p : Text → Bool) (at_name : (n : Text) (s : S) → holds (f n s) ≡ (holds s || p n))
    (at_call : (n : Text) (es : Expressions F) (s : S) → holds (g n es s) ≡ holds s) where
  mutual
    unfolding walk mentions

    walk_lem :
        (e : Expression F) (s : S)
        → holds (walk (names_visitor f g) e s) ≡ (holds s || mentions p e)
    walk_lem (expression e _) s = walk_expr_lem e s

    walk_expr_lem :
        (e : Expr F) (s : S)
        → holds (walk_expr (names_visitor f g) e s) ≡ (holds s || mentions_expr p e)
    walk_expr_lem (binary l _ r) s = or_next (holds s) _ _ _ _ (walk_lem l s) (walk_lem r _)
    walk_expr_lem (logical l _ r) s = or_next (holds s) _ _ _ _ (walk_lem l s) (walk_lem r _)
    walk_expr_lem (unary _ e) s = walk_lem e s
    walk_expr_lem (conditional t c a) s =
        or_next (holds s) _ _ _ _ (walk_lem t s) (or_next _ _ _ _ _ (walk_lem c _) (walk_lem a _))
    walk_expr_lem (literal _) s = or_false (holds s)
    walk_expr_lem (identifier name) s = at_name name s
    walk_expr_lem (call name args) s =
        subst
          (λ b.
            holds (walk_all (names_visitor f g) args (g name args s)) ≡ (b || mentions_any p args))
          (at_call name args s) (walk_all_lem args (g name args s))
    walk_expr_lem (array elements) s = walk_all_lem elements s
    walk_expr_lem (object properties) s = walk_properties_lem properties s
    walk_expr_lem (member o (expression (identifier _) _) _) s = walk_lem o s
    walk_expr_lem (member o property _) s =
        or_next (holds s) _ _ _ _ (walk_lem o s) (walk_lem property _)

    walk_all_lem :
        (es : Expressions F) (s : S)
        → holds (walk_all (names_visitor f g) es s) ≡ (holds s || mentions_any p es)
    walk_all_lem no_expressions s = or_false (holds s)
    walk_all_lem (push_expression e es) s =
        or_next (holds s) _ _ _ _ (walk_lem e s) (walk_all_lem es _)

    walk_properties_lem :
        (ps : Properties F) (s : S)
        → holds (walk_properties (names_visitor f g) ps s) ≡ (holds s || mentions_values p ps)
    walk_properties_lem no_properties s = or_false (holds s)
    walk_properties_lem (push_property _ value ps) s =
        or_next (holds s) _ _ _ _ (walk_lem value s) (walk_properties_lem ps _)

  pub walk-mentions :
      (e : Expression F) (s : S) → holds (walk (names_visitor f g) e s) ≡ (holds s || mentions p e)
  walk-mentions e s = walk_lem e s
