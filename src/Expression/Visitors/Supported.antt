-- ===== src/Expression/Visitors/Supported.antt =====
-- `CheckSupportedExprVisitor`: its state is the flag `supported`.
use vegafusion.Expression.Syntax.{
  Text, Value, Expression, expression, Expr, Expressions, no_expressions, push_expression,
}
use vegafusion.Expression.Visitors.Variables.{all_data_fns, all_scale_fns, implicit_vars}
use vegafusion.Expression.Visitors.Walk.{Visitor, no_visits, walk}
use vegafusion.Prelude.Sets.{contains}
use vegafusion.Prelude.{
  ℕ, zero, suc, Bool, true, false, ◌&&◌, ◌||◌, not, List, [], ◌∷◌, text_key, if◌then◌else◌, ◌==◌,
  ltb,
}

-- supported.rs
abbrev pub supported_data_fns : List Text
supported_data_fns = "data" ∷ "vlSelectionTest" ∷ "vlSelectionResolve" ∷ []

abbrev pub supported_scale_fns : List Text
supported_scale_fns = []

abbrev pub supported_expression_fns : List Text
supported_expression_fns =
    "abs" ∷ "acos" ∷ "asin" ∷ "atan" ∷ "ceil" ∷ "cos" ∷ "exp" ∷ "floor" ∷ "round" ∷ "sin" ∷ "sqrt"
    ∷ "tan" ∷ "log" ∷ "pow" ∷ "isNaN" ∷ "isFinite" ∷ "isValid" ∷ "isDate" ∷ "length" ∷ "span"
    ∷ "indexof" ∷ "year" ∷ "quarter" ∷ "month" ∷ "day" ∷ "date" ∷ "dayofyear" ∷ "hours" ∷ "minutes"
    ∷ "seconds" ∷ "milliseconds" ∷ "utcyear" ∷ "utcquarter" ∷ "utcmonth" ∷ "utcday" ∷ "utcdate"
    ∷ "utcdayofyear" ∷ "utchours" ∷ "utcminutes" ∷ "utcseconds" ∷ "utcmilliseconds" ∷ "datetime"
    ∷ "utc" ∷ "time" ∷ "format" ∷ "timeFormat" ∷ "utcFormat" ∷ "timeOffset" ∷ "toBoolean" ∷ "toDate"
    ∷ "toNumber" ∷ "toString" ∷ "if" ∷ []

module _ {F : Type 0} where
  -- `args.len()`
  abbrev pub count : Expressions F → ℕ
  count no_expressions = zero
  count (push_expression _ es) = suc (count es)

  abbrev pub is_array : Expression F → Bool
  is_array (expression (Expr.array _) _) = true
  is_array _ = false

  abbrev pub is_empty_string : Expression F → Bool
  is_empty_string (expression (Expr.literal l) _) = elim l.value [
    | Value.string v ↦ v == ""
    | _ ↦ false
  ]
  is_empty_string _ = false

  abbrev pub is_number : Expression F → Bool
  is_number (expression (Expr.literal l) _) = elim l.value [ Value.number _ ↦ true | _ ↦ false ]
  is_number _ = false

  abbrev pub is_datum : Expression F → Bool
  is_datum (expression (Expr.identifier name) _) = name == "datum"
  is_datum _ = false

  -- `indexof` takes two arguments, an array first; `format` two, an empty string last.
  abbrev pub indexof_arguments : Expressions F → Bool
  indexof_arguments (push_expression e (push_expression _ no_expressions)) = is_array e
  indexof_arguments _ = false

  abbrev pub format_arguments : Expressions F → Bool
  format_arguments (push_expression _ (push_expression e no_expressions)) = is_empty_string e
  format_arguments _ = false

  unfoldable pub check_call : Text → Expressions F → Bool → Bool
  unfolding contains
  check_call name args s =
      if contains name all_data_fns
      then (if name == "vlSelectionResolve" && ltb 2 (count args)
          then false
          else if not (contains name supported_data_fns)
          then false
          else s)
      else if contains name all_scale_fns
      then (if not (contains name supported_scale_fns) then false else s)
      else if not (contains name supported_expression_fns)
      then false
      else if name == "indexof"
      then (if not (indexof_arguments args) then false else s)
      else if name == "format"
      then (if not (format_arguments args) then false else s)
      else s

  unfoldable pub check_member : Expression F → Expression F → Bool → Bool → Bool
  unfolding contains implicit_vars
  check_member object property computed s =
      let s₁ = if computed && contains "datum" (implicit_vars property) then false else s in
      if contains "datum" (implicit_vars object) && not (is_datum object || is_number property)
      then false
      else s₁

  unfoldable pub check_supported : Visitor F Bool
  unfolding check_call check_member
  check_supported = record no_visits {
    visit_called_identifier = check_call;
    visit_member = check_member;
  }

  unfoldable pub is_supported : Expression F → Bool
  unfolding walk check_supported
  is_supported e = walk check_supported e true
