-- ===== src/Expression/Parser/Branches.antt =====
-- `Within` through the tests and the options of the parser.
use vegafusion.Expression.Parser.Atoms.{try_new}
use vegafusion.Expression.Parser.Within.{Within, WithinSome, Within-bind}
use vegafusion.Expression.Result.{Result, ok, ◌>>=◌}
use vegafusion.Expression.Syntax.{Expression, Key, as_identifier, as_literal}
use vegafusion.Expression.Token.{Tokens}
use vegafusion.Prelude.{
  ℕ, ◌≤◌, Bool, true, false, Option-cases, inl, inr, Option, none, some, length, if◌then◌else◌,
}

-- Within a test both branches do.
module _ {F A : Type 0} (n : ℕ) where
  pub WithinSome-if :
      (b : Bool) (x y : Option (Result (A × Tokens F)))
      → WithinSome n x
      → WithinSome n y
      → WithinSome n (if b then x else y)
  WithinSome-if true x y h k = h
  WithinSome-if false x y h k = k

  pub Within-if :
      (b : Bool) (x y : Result (A × Tokens F))
      → Within n x
      → Within n y
      → Within n (if b then x else y)
  Within-if true x y h k = h
  Within-if false x y h k = k

  pub Within-elim :
      (b : Bool) (x y : Result (A × Tokens F))
      → Within n x
      → Within n y
      → Within n (elim b [ true ↦ x | false ↦ y ])
  Within-elim true x y h k = h
  Within-elim false x y h k = k

  pub Within-maybe :
      {B : Type 0} (o : Option B) (f : B → Result (A × Tokens F)) (x : Result (A × Tokens F))
      → ((b : B) → Within n (f b))
      → Within n x
      → Within n (elim o [ some b ↦ f b | none ↦ x ])
  Within-maybe none f x h k = k
  Within-maybe (some b) f x h k = h b

  pub WithinSome-maybe :
      {B : Type 0} (o : Option B) (f : B → Option (Result (A × Tokens F)))
      (x : Option (Result (A × Tokens F)))
      → ((b : B) → WithinSome n (f b))
      → WithinSome n x
      → WithinSome n (elim o [ some b ↦ f b | none ↦ x ])
  WithinSome-maybe none f x h k = k
  WithinSome-maybe (some b) f x h k = h b

  -- A round of a loop that may break.
  pub Within-round :
      (m : ℕ) (o : Option (Result (A × Tokens F))) (stop : A × Tokens F)
      (f : A × Tokens F → Result (A × Tokens F))
      → Within n (ok stop)
      → WithinSome m o
      → ((a : A) (rest : Tokens F) → length rest ≤ m → Within n (f (a, rest)))
      → Within n (elim o [ none ↦ ok stop | some r ↦ r >>= f ])
  Within-round m none stop f h k g = h
  Within-round m (some r) stop f h k g = Within-bind m n r f k g

pub Within-try_new :
    {F A : Type 0} (m : ℕ) (key : Expression F) (f : Key F → Result (A × Tokens F))
    → ((property : Key F) → Within m (f property))
    → Within m (try_new key >>= f)
unfolding try_new
Within-try_new m key f h = elim (Option-cases (as_identifier key)) [
  | inr (name, here) ↦ rw (here, Within) (h _)
  | inl absent ↦ elim (Option-cases (as_literal key)) [
    | inr (v, here) ↦ rw (absent, here, Within) (h _)
    | inl none_here ↦ rw (absent, none_here, Within) tt
  ]
]
