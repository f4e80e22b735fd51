-- ===== src/Expression/Visitors/Checks.antt =====
-- What `is_supported` comes to: a check of each call and of each member, and no other state.
use vegafusion.Expression.Syntax.{
  Text, Expression, expression, Expr, identifier, literal, binary, logical, unary, conditional,
  call, array, object, member, Expressions, no_expressions, push_expression, Properties,
  no_properties, push_property,
}
use vegafusion.Expression.Visitors.Supported.{
  check_call, check_member, check_supported, is_supported, count, indexof_arguments,
  format_arguments, is_datum, is_number, supported_data_fns, supported_scale_fns,
  supported_expression_fns,
}
use vegafusion.Expression.Visitors.Variables.{all_data_fns, all_scale_fns, implicit_vars}
use vegafusion.Expression.Visitors.Walk.{walk, walk_expr, walk_all, walk_properties}
use vegafusion.Prelude.Sets.{contains}
use vegafusion.Prelude.{
  Bool, true, false, ◌&&◌, ◌||◌, not, ◌≡◌, arith, if◌then◌else◌, ◌==◌, text_key, ltb,
}

-- Every call in the expression passes its check, and so does every member.
unfoldable mutual
  pub all_checks : {F : Type 0} → Expression F → Bool
  all_checks (expression e _) = all_checks_expr e

  pub all_checks_expr : {F : Type 0} → Expr F → Bool
  all_checks_expr (binary l _ r) = all_checks l && all_checks r
  all_checks_expr (logical l _ r) = all_checks l && all_checks r
  all_checks_expr (unary _ e) = all_checks e
  all_checks_expr (conditional t c a) = all_checks t && (all_checks c && all_checks a)
  all_checks_expr (literal _) = true
  all_checks_expr (identifier _) = true
  all_checks_expr (call name args) = check_call name args true && all_checks_each args
  all_checks_expr (array elements) = all_checks_each elements
  all_checks_expr (object properties) = all_checks_values properties
  all_checks_expr (member o (expression (identifier name) span) computed) =
      all_checks o && check_member o (expression (identifier name) span) computed true
  all_checks_expr (member o property computed) =
      all_checks o && (all_checks property && check_member o property computed true)

  pub all_checks_each : {F : Type 0} → Expressions F → Bool
  all_checks_each no_expressions = true
  all_checks_each (push_expression e es) = all_checks e && all_checks_each es

  pub all_checks_values : {F : Type 0} → Properties F → Bool
  all_checks_values no_properties = true
  all_checks_values (push_property _ value ps) = all_checks value && all_checks_values ps

and_true : (a : Bool) → a ≡ (a && true)
and_true a = ground arith

and_next : (a b c m n : Bool) → b ≡ (a && m) → c ≡ (b && n) → c ≡ (a && (m && n))
and_next a b c m n h k = ground arith

-- The nested tests of the visitor's methods, over the values that they test: a flag that is down
-- stays down.
stays_down :
    (a b c d e f g h i j : Bool)
    → (if a
        then (if b then false else if c then false else false)
        else if d
        then (if e then false else false)
        else if f
        then false
        else if g
        then (if h then false else false)
        else if i
        then (if j then false else false)
        else false)
      ≡ false
stays_down a b c d e f g h i j = ground arith

down_twice : (a b : Bool) → (if b then false else if a then false else false) ≡ false
down_twice a b = ground arith

module _ {F : Type 0} where
  check_call_flag :
      (name : Text) (args : Expressions F) (s : Bool)
      → check_call name args s ≡ (s && check_call name args true)
  unfolding check_call
  check_call_flag name args true = ground arith
  check_call_flag name args false =
      stays_down (contains name all_data_fns) (name == "vlSelectionResolve" && ltb 2 (count args))
        (not (contains name supported_data_fns)) (contains name all_scale_fns)
        (not (contains name supported_scale_fns)) (not (contains name supported_expression_fns))
        (name == "indexof") (not (indexof_arguments args)) (name == "format")
        (not (format_arguments args))

  check_member_flag :
      (o p : Expression F) (computed s : Bool)
      → check_member o p computed s ≡ (s && check_member o p computed true)
  unfolding check_member
  check_member_flag o p computed true = ground arith
  check_member_flag o p computed false =
      down_twice (computed && contains "datum" (implicit_vars p))
        (contains "datum" (implicit_vars o) && not (is_datum o || is_number p))

  mutual
    unfolding walk all_checks check_supported

    walk_lem : (e : Expression F) (s : Bool) → walk check_supported e s ≡ (s && all_checks e)
    walk_lem (expression e _) s = walk_expr_lem e s

    walk_expr_lem :
        (e : Expr F) (s : Bool) → walk_expr check_supported e s ≡ (s && all_checks_expr e)
    walk_expr_lem (binary l _ r) s = and_next s _ _ _ _ (walk_lem l s) (walk_lem r _)
    walk_expr_lem (logical l _ r) s = and_next s _ _ _ _ (walk_lem l s) (walk_lem r _)
    walk_expr_lem (unary _ e) s = walk_lem e s
    walk_expr_lem (conditional t c a) s =
        and_next s _ _ _ _ (walk_lem t s) (and_next _ _ _ _ _ (walk_lem c _) (walk_lem a _))
    walk_expr_lem (literal _) s = and_true s
    walk_expr_lem (identifier _) s = and_true s
    walk_expr_lem (call name args) s =
        and_next s _ _ _ _ (check_call_flag name args s) (walk_all_lem args _)
    walk_expr_lem (array elements) s = walk_all_lem elements s
    walk_expr_lem (object properties) s = walk_properties_lem properties s
    walk_expr_lem (member o (expression (identifier name) span) computed) s =
        and_next s _ _ _ _ (walk_lem o s)
          (check_member_flag o (expression (identifier name) span) computed _)
    walk_expr_lem (member o property computed) s =
        let s₁ = walk check_supported o s in
        let s₂ = walk check_supported property s₁ in
        let own = check_member o property computed true in
        let last = check_member o property computed s₂ in
        and_next s s₁ last (all_checks o) (all_checks property && own) (walk_lem o s) (
          and_next s₁ s₂ last (all_checks property) own (walk_lem property s₁)
            (check_member_flag o property computed s₂))

    walk_all_lem :
        (es : Expressions F) (s : Bool) → walk_all check_supported es s ≡ (s && all_checks_each es)
    walk_all_lem no_expressions s = and_true s
    walk_all_lem (push_expression e es) s = and_next s _ _ _ _ (walk_lem e s) (walk_all_lem es _)

    walk_properties_lem :
        (ps : Properties F) (s : Bool)
        → walk_properties check_supported ps s ≡ (s && all_checks_values ps)
    walk_properties_lem no_properties s = and_true s
    walk_properties_lem (push_property _ value ps) s =
        and_next s _ _ _ _ (walk_lem value s) (walk_properties_lem ps _)

  -- An expression is supported exactly if each call in it and each member in it passes its check.
  pub is_supported_lem : (e : Expression F) → is_supported e ≡ all_checks e
  unfolding is_supported
  is_supported_lem e = walk_lem e true
