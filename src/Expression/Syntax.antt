-- ===== src/Expression/Syntax.antt =====
-- The expression tree of proto/expression.proto, and the accessors of ast/expression.rs.
use vegafusion.Prelude.{ℕ, String, Bool, Option, none, some, ◌%◌, ◌^◌}

abbrev pub Text : Type 0
Text = String

-- `n as i32`, as a bit pattern.
unfoldable pub as_i32 : ℕ → ℕ
as_i32 n = n % 2 ^ 32

pub record Span : Type 0 where
  pub start : ℕ
  pub end : ℕ

pub data UnaryOperator : Type 0 where
  pos neg not_op : UnaryOperator

pub data LogicalOperator : Type 0 where
  or_op and_op : LogicalOperator

pub data BinaryOperator : Type 0 where
  equals not_equals strict_equals not_strict_equals : BinaryOperator
  less_than less_than_equal greater_than greater_than_equal : BinaryOperator
  plus minus mult div mod_op : BinaryOperator
  bitwise_and bitwise_or bitwise_xor bitwise_shift_left bitwise_shift_right : BinaryOperator

-- The numbers are `f64` values, a type of the model's caller.
pub data Value (F : Type 0) : Type 0 where
  string : Text → Value F
  boolean : Bool → Value F
  number : F → Value F
  null : Value F

pub record Literal (F : Type 0) : Type 0 where
  pub raw : Text
  pub value : Value F

-- The key of an object's property.
pub data Key (F : Type 0) : Type 0 where
  literal_key : Literal F → Key F
  identifier_key : Text → Key F

-- `Expressions` and `Properties` are the lists inside a call, an array and an object.
mutual
  pub data Expression (F : Type 0) : Type 0 where
    expression : Expr F → Option Span → Expression F

  pub data Expr (F : Type 0) : Type 0 where
    identifier : Text → Expr F
    literal : Literal F → Expr F
    binary : Expression F → BinaryOperator → Expression F → Expr F
    logical : Expression F → LogicalOperator → Expression F → Expr F
    unary : UnaryOperator → Expression F → Expr F
    conditional : Expression F → Expression F → Expression F → Expr F
    call : Text → Expressions F → Expr F
    array : Expressions F → Expr F
    object : Properties F → Expr F
    -- object, property, computed
    member : Expression F → Expression F → Bool → Expr F

  pub data Expressions (F : Type 0) : Type 0 where
    no_expressions : Expressions F
    push_expression : Expression F → Expressions F → Expressions F

  pub data Properties (F : Type 0) : Type 0 where
    no_properties : Properties F
    push_property : Key F → Expression F → Properties F → Properties F

module _ {F : Type 0} where
  -- `Expression::as_identifier` and `as_literal`, with the error left to the caller.
  unfoldable pub as_identifier : Expression F → Option Text
  as_identifier (expression (identifier name) _) = some name
  as_identifier _ = none

  unfoldable pub as_literal : Expression F → Option (Literal F)
  as_literal (expression (literal v) _) = some v
  as_literal _ = none
