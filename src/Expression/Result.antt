-- ===== src/Expression/Result.antt =====
-- `Result<T>` of the parser, less the texts of the messages and the contexts that callers add; a
-- panic of an `unwrap`; and, of the model's own, fuel that ran out.
use vegafusion.Prelude.{Option, none, some}

pub data Error : Type 0 where
  unexpected_end unexpected_token expected_reached_end expected_received : Error
  not_an_atom not_callable not_an_identifier not_an_object_key : Error
  bad_consequent bad_alternate : Error

pub data Result {ℓ} (A : Type ℓ) : Type ℓ where
  ok : A → Result A
  err : Error → Result A
  panic out_of_fuel : Result A

infixl 5 ◌>>=◌
abbrev pub ◌>>=◌ {ℓ κ} : {A : Type ℓ} {B : Type κ} → Result A → (A → Result B) → Result B
ok a >>= f = f a
err e >>= f = err e
panic >>= f = panic
out_of_fuel >>= f = out_of_fuel

-- `.unwrap()` on a result.
abbrev pub unwrap {ℓ} : {A : Type ℓ} → Result A → Result A
unwrap (err e) = panic
unwrap r = r

-- `.ok_or(…)?` on an option.
abbrev pub ok_or {ℓ} : {A : Type ℓ} → Error → Option A → Result A
ok_or e none = err e
ok_or e (some a) = ok a

-- Another error in the place of any.
abbrev pub or_err {ℓ} : {A : Type ℓ} → Error → Result A → Result A
or_err e (err _) = err e
or_err e r = r
