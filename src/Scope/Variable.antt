-- ===== src/Scope/Variable.antt =====
-- `Variable` of proto/tasks.proto (vegafusion-core/src/variable/mod.rs).
use text.Mathlib.Text.{◌==◌ as text_test}
use text.Mathlib.TextEquality.{eq_iff}
use vegafusion.Prelude.{KeyEq, String, Bool, true, false, ◌&&◌, ◌≡◌, ◌↔◌, arith}

pub data VariableNamespace : Type 0 where
  signal data_ns scale : VariableNamespace

pub record Variable : Type 0 where
  pub name : String
  pub ns : VariableNamespace

unfoldable pub new_signal : String → Variable
new_signal name = record { name = name; ns = signal }

unfoldable pub new_data : String → Variable
new_data name = record { name = name; ns = data_ns }

unfoldable pub new_scale : String → Variable
new_scale name = record { name = name; ns = scale }

abbrev pub same_namespace : VariableNamespace → VariableNamespace → Bool
same_namespace signal signal = true
same_namespace data_ns data_ns = true
same_namespace scale scale = true
same_namespace _ _ = false

-- The derived `==`.
abbrev pub same_variable : Variable → Variable → Bool
same_variable v w = same_namespace v.ns w.ns && text_test v.name w.name

same_namespace_iff : (a b : VariableNamespace) → (same_namespace a b ≡ true) ↔ (a ≡ b)
same_namespace_iff signal signal = ground arith
same_namespace_iff data_ns data_ns = ground arith
same_namespace_iff scale scale = ground arith
same_namespace_iff _ _ = ground arith

pub same_variable_iff : (v w : Variable) → (same_variable v w ≡ true) ↔ (v ≡ w)
same_variable_iff v w = ground (arith, eq_iff v.name w.name, same_namespace_iff v.ns w.ns)

instance abbrev pub variable_key : KeyEq Variable
variable_key = record { test = same_variable; test_iff = same_variable_iff }
