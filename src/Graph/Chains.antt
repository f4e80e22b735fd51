-- ===== src/Graph/Chains.antt =====
-- Chains of attempts.
use vegafusion.Graph.Build.{unwrap, or_err}
use vegafusion.Graph.State.{GraphError, Attempt, ok, err, panic, ◌>>=◌}
use vegafusion.Prelude.{Option, none, some, ◌≡◌, ◌≢◌, refl}

-- What a chain that succeeds went through.
pub bind-ok :
    {A B : Type 0} (a : Attempt A) (f : A → Attempt B) (b : B)
    → (a >>= f) ≡ ok b
    → (x : A) × (a ≡ ok x) × (f x ≡ ok b)
bind-ok (ok x) f b h = (x, refl, h)
bind-ok (err e) f b h = cc
bind-ok panic f b h = cc

-- A chain without a panic, from its parts.
pub bind-ne-panic :
    {A B : Type 0} (a : Attempt A) (f : A → Attempt B)
    → a ≢ panic
    → ((x : A) → a ≡ ok x → f x ≢ panic)
    → (a >>= f) ≢ panic
bind-ne-panic (ok x) f h k e = k x refl e
bind-ne-panic (err x) f h k e = cc
bind-ne-panic panic f h k e = h refl

pub unwrap-ok : {A : Type 0} (o : Option A) (a : A) → unwrap o ≡ ok a → o ≡ some a
unwrap-ok none a h = cc
unwrap-ok (some b) a h = cc

pub unwrap-ne-panic : {A : Type 0} (o : Option A) (a : A) → o ≡ some a → unwrap o ≢ panic
unwrap-ne-panic none a h e = cc
unwrap-ne-panic (some b) a h e = cc

pub or_err-ok :
    {A : Type 0} (e : GraphError) (o : Option A) (a : A) → or_err e o ≡ ok a → o ≡ some a
or_err-ok e none a h = cc
or_err-ok e (some b) a h = cc

pub or_err-ne-panic : {A : Type 0} (e : GraphError) (o : Option A) → or_err e o ≢ panic
or_err-ne-panic e none h = cc
or_err-ne-panic e (some b) h = cc

pub ok-injective : {A : Type 0} {a b : A} → ◌≡◌ {A = Attempt A} (ok a) (ok b) → a ≡ b
ok-injective h = cc
