-- ===== src/Prelude/Results.antt =====
-- `Result` with the operator `?`, as a monad.
use actix_net.Prelude.Outcomes.{Result, ok, err}

infixl 5 ◌>>=◌
abbrev pub ◌>>=◌ {ℓ κ ι} :
    {E : Type ι} {A : Type ℓ} {B : Type κ} → Result E A → (A → Result E B) → Result E B
ok a >>= f = f a
err e >>= f = err e
