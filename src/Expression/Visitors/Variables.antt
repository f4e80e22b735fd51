-- ===== src/Expression/Visitors/Variables.antt =====
-- The visitors that collect variables. The results are sets; the source sorts their elements.
use vegafusion.Expression.Syntax.{
  Text, Value, Expression, Expressions, no_expressions, push_expression, as_literal,
}
use vegafusion.Expression.Visitors.Walk.{Visitor, no_visits, walk}
use vegafusion.Prelude.Sets.{contains, insert}
use vegafusion.Prelude.{
  Bool, true, false, ◌&&◌, not, List, [], ◌∷◌, ◌≡◌, ◌↔◌, arith, Option, none, some, KeyEq, text_key,
  if◌then◌else◌, ◌==◌,
}
use vegafusion.Scope.Variable.{
  Variable, new_signal, new_data, new_scale, variable_key, same_variable, same_variable_iff,
}

-- supported.rs
abbrev pub implicit_names : List Text
implicit_names = "datum" ∷ "event" ∷ "parent" ∷ []

abbrev pub all_data_fns : List Text
all_data_fns =
    "data" ∷ "indata" ∷ "vlSelectionTest" ∷ "vlSelectionIdTest" ∷ "vlSelectionResolve" ∷ "modify"
    ∷ []

abbrev pub all_scale_fns : List Text
all_scale_fns = "scale" ∷ "invert" ∷ "domain" ∷ "range" ∷ "bandwidth" ∷ "gradient" ∷ []

abbrev pub all_expression_constants : List Text
all_expression_constants =
    "NaN" ∷ "E" ∷ "LN2" ∷ "LOG2E" ∷ "LOG10E" ∷ "MAX_VALUE" ∷ "MIN_VALUE" ∷ "PI" ∷ "SQRT1_2"
    ∷ "SQRT2" ∷ []

pub record InputVariable : Type 0 where
  pub var : Variable
  pub propagate : Bool

abbrev same_flag : Bool → Bool → Bool
same_flag true b = b
same_flag false b = not b

abbrev same_input : InputVariable → InputVariable → Bool
same_input a b = same_variable a.var b.var && same_flag a.propagate b.propagate

same_flag_iff : (a b : Bool) → (same_flag a b ≡ true) ↔ (a ≡ b)
same_flag_iff a b = ground arith

pub same_input_iff : (a b : InputVariable) → (same_input a b ≡ true) ↔ (a ≡ b)
same_input_iff a b =
    ground (arith, same_variable_iff a.var b.var, same_flag_iff a.propagate b.propagate)

instance abbrev pub input_key : KeyEq InputVariable
input_key = record { test = same_input; test_iff = same_input_iff }

pub record GetInputVariables : Type 0 where
  pub input_variables : List InputVariable
  pub expression_fns : List Text
  pub data_fns : List Text
  pub scale_fns : List Text

-- The string in the first argument.
unfoldable pub first_string : {F : Type 0} → Expressions F → Option Text
unfolding as_literal
first_string no_expressions = none
first_string (push_expression e _) = elim (as_literal e) [
  | none ↦ none
  | some l ↦ elim l.value [ Value.string name ↦ some name | _ ↦ none ]
]

abbrev pub add_input : Variable → Bool → GetInputVariables → GetInputVariables
add_input var propagate s = record s {
  input_variables = insert (record { var = var; propagate = propagate }) s.input_variables;
}

unfoldable pub add_argument : Text → Option Text → GetInputVariables → GetInputVariables
unfolding contains insert new_data new_scale
add_argument name none s = s
add_argument name (some arg0) s =
    let s₁ =
      if contains name all_data_fns
      then add_input (new_data arg0) (not (name == "modify")) s
      else s in
    if contains name all_scale_fns then add_input (new_scale arg0) true s₁ else s₁

unfoldable pub add_function : Text → GetInputVariables → GetInputVariables
unfolding contains insert
add_function name s =
    if contains name all_data_fns
    then record s { data_fns = insert name s.data_fns }
    else if contains name all_scale_fns
    then record s { scale_fns = insert name s.scale_fns }
    else record s { expression_fns = insert name s.expression_fns }

unfoldable pub get_input_variables : {F : Type 0} → Visitor F GetInputVariables
unfolding contains insert new_signal add_argument add_function first_string
get_input_variables = record no_visits {
  visit_identifier = λ name s.
      if not (contains name implicit_names) && not (contains name all_expression_constants)
      then add_input (new_signal name) true s
      else s;
  visit_called_identifier =
      λ name args s. add_function name (add_argument name (first_string args) s);
}

unfoldable pub update_variables : {F : Type 0} → Visitor F (List Variable)
unfolding insert new_data first_string
update_variables = record no_visits {
  visit_called_identifier = λ name args s.
      if name == "modify"
      then elim (first_string args) [ none ↦ s | some arg0 ↦ insert (new_data arg0) s ]
      else s;
}

unfoldable pub implicit_variables : {F : Type 0} → Visitor F (List Text)
unfolding contains insert
implicit_variables = record no_visits {
  visit_identifier = λ name s. if contains name implicit_names then insert name s else s;
}

module _ {F : Type 0} where
  unfoldable pub input_vars : Expression F → List InputVariable
  unfolding walk get_input_variables
  input_vars e =
      (walk get_input_variables e (record {
        input_variables = [];
        expression_fns = [];
        data_fns = [];
        scale_fns = [];
      })).input_variables

  unfoldable pub update_vars : Expression F → List Variable
  unfolding walk update_variables
  update_vars e = walk update_variables e []

  unfoldable pub implicit_vars : Expression F → List Text
  unfolding walk implicit_variables
  implicit_vars e = walk implicit_variables e []
