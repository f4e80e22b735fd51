-- ===== src/Expression/Visitors/Members.antt =====
-- Which names the collected variables are.
use vegafusion.Expression.Syntax.{Text, Expression}
use vegafusion.Expression.Visitors.Mentions.{mentions, walk-mentions}
use vegafusion.Expression.Visitors.Variables.{
  implicit_names, all_data_fns, all_scale_fns, all_expression_constants, InputVariable, input_key,
  GetInputVariables, first_string, add_input, add_argument, add_function, get_input_variables,
  implicit_variables, input_vars, implicit_vars,
}
use vegafusion.Prelude.Sets.{contains, insert, contains-insert, contains-insert_ne}
use vegafusion.Prelude.{
  Bool, true, false, ◌&&◌, ◌||◌, not, List, [], ◌≡◌, ◌≢◌, refl, ap, ◌∙◌, arith, Option, none, some,
  KeyEq, text_key, if◌then◌else◌, ◌==◌,
}
use vegafusion.Scope.Variable.{
  Variable, data_ns, scale, new_signal, new_data, new_scale, same_namespace,
}

contains-if :
    {K : Type 0} ⦃key : KeyEq K⦄ (test : Bool) (x y : K) (xs : List K)
    → contains y (if test then insert x xs else xs) ≡ (contains y xs || (test && x == y))
contains-if true x y xs = contains-insert x y xs
contains-if false x y xs = ground arith

-- The test for an implicit name, and for a name that stands for a signal.
abbrev pub is_implicit : Text → Text → Bool
is_implicit x name = contains name implicit_names && name == x

abbrev pub is_signal : Text → Text → Bool
is_signal x name =
    (not (contains name implicit_names) && not (contains name all_expression_constants))
    && name == x

abbrev pub as_input : Text → InputVariable
as_input x = record { var = new_signal x; propagate = true }

true_ne_false : true ≡ false → ⊥
true_ne_false h = cc

data_ne_signal :
    (a x : Text) (flag : Bool)
    → ◌≢◌ {A = InputVariable} (record { var = new_data a; propagate = flag }) (as_input x)
unfolding new_data new_signal
data_ne_signal a x flag h = true_ne_false (ap (λ i. same_namespace i.var.ns data_ns) h)

scale_ne_signal :
    (a x : Text) (flag : Bool)
    → ◌≢◌ {A = InputVariable} (record { var = new_scale a; propagate = flag }) (as_input x)
unfolding new_scale new_signal
scale_ne_signal a x flag h = true_ne_false (ap (λ i. same_namespace i.var.ns scale) h)

-- Another input does not make a signal one.
contains-add_input :
    (test : Bool) (v : Variable) (flag : Bool) (x : Text) (s : GetInputVariables)
    → ◌≢◌ {A = InputVariable} (record { var = v; propagate = flag }) (as_input x)
    → contains (as_input x) (if test then add_input v flag s else s).input_variables
      ≡ contains (as_input x) s.input_variables
contains-add_input true v flag x s h =
    contains-insert_ne (record { var = v; propagate = flag }) (as_input x) s.input_variables h
contains-add_input false v flag x s h = refl

contains-add_argument :
    (x name : Text) (o : Option Text) (s : GetInputVariables)
    → contains (as_input x) (add_argument name o s).input_variables
      ≡ contains (as_input x) s.input_variables
unfolding add_argument
contains-add_argument x name none s = refl
contains-add_argument x name (some a) s =
    contains-add_input (contains name all_scale_fns) (new_scale a) true x _
      (scale_ne_signal a x true)
    ∙ contains-add_input (contains name all_data_fns) (new_data a) (not (name == "modify")) x s
        (data_ne_signal a x _)

inputs-if :
    (data_fn scale_fn : Bool) (ds ss es : List Text) (s : GetInputVariables)
    → (if data_fn
        then record s { data_fns = ds }
        else if scale_fn
        then record s { scale_fns = ss }
        else record s { expression_fns = es }).input_variables
      ≡ s.input_variables
inputs-if true scale_fn ds ss es s = refl
inputs-if false true ds ss es s = refl
inputs-if false false ds ss es s = refl

inputs-add_function :
    (name : Text) (s : GetInputVariables)
    → (add_function name s).input_variables ≡ s.input_variables
unfolding add_function
inputs-add_function name s =
    inputs-if (contains name all_data_fns) (contains name all_scale_fns) _ _ _ s

contains-visit :
    (test : Bool) (x name : Text) (s : GetInputVariables)
    → contains (as_input x) (if test then add_input (new_signal name) true s else s).input_variables
      ≡ (contains (as_input x) s.input_variables || (test && name == x))
unfolding new_signal
contains-visit true x name s =
    contains-insert (as_input name) (as_input x) s.input_variables
    ∙ ap (◌||◌ (contains (as_input x) s.input_variables)) (flags (name == x))
  where
    flags : (b : Bool) → (b && true) ≡ b
    flags b = ground arith
contains-visit false x name s = ground arith

module _ {F : Type 0} where
  -- The implicit variables of an expression are the implicit names that stand in it as variables; a
  -- name that is the property of a member, computed or not, does not count.
  pub implicit_vars-mentions :
      (x : Text) (e : Expression F) → contains x (implicit_vars e) ≡ mentions (is_implicit x) e
  unfolding implicit_vars implicit_variables
  implicit_vars-mentions x e =
      walk-mentions (λ name s. if contains name implicit_names then insert name s else s)
        (λ _ _ s. s) (contains x) (is_implicit x)
        (λ name s. contains-if (contains name implicit_names) name x s) (λ _ _ _. refl) e []

  -- The signals that an expression takes for inputs are the names that stand in it as variables and
  -- are neither implicit nor constants; a name that is the property of a member, computed or not,
  -- does not count.
  pub input_vars-mentions :
      (x : Text) (e : Expression F)
      → contains (as_input x) (input_vars e) ≡ mentions (is_signal x) e
  unfolding input_vars get_input_variables
  input_vars-mentions x e =
      walk-mentions
        (λ name s.
          if not (contains name implicit_names) && not (contains name all_expression_constants)
          then add_input (new_signal name) true s
          else s)
        (λ name args s. add_function name (add_argument name (first_string args) s))
        (λ s. contains (as_input x) s.input_variables) (is_signal x)
        (λ name s.
          contains-visit
            (not (contains name implicit_names) && not (contains name all_expression_constants)) x
            name s)
        (λ name args s.
          ap (contains (as_input x))
            (inputs-add_function name (add_argument name (first_string args) s))
          ∙ contains-add_argument x name (first_string args) s)
        e (record { input_variables = []; expression_fns = []; data_fns = []; scale_fns = [] })
