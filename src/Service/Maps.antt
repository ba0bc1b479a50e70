-- ===== src/Service/Maps.antt =====
-- actix-service/src/map.rs, map_err.rs, map_init_err.rs and transform_err.rs: a response, an error or
-- the error of a start is changed by a function. The functions are total and have no state.
use actix_net.Prelude.{ℕ, ◌≡◌, refl, Result, ok, err, Poll, pending, ready}
use actix_net.Prelude.Panics.{Outcome, done}
use actix_net.Prelude.Futures.{Fut, resolved, later, never, poll_fut, then_fut}
use actix_net.Prelude.Tasks.{run, await, Passes, run-Passes}
use actix_net.Service.{Service}

-- `Result::map`, `Result::map_err` and `Poll::map_err`.
abbrev pub map_ok {ℓ κ ι} :
    {E : Type ι} {A : Type ℓ} {B : Type κ} → (A → B) → Result E A → Result E B
map_ok f (ok a) = ok (f a)
map_ok f (err e) = err e

abbrev pub map_err {ℓ κ ι} :
    {A : Type ι} {E : Type ℓ} {G : Type κ} → (E → G) → Result E A → Result G A
map_err f (ok a) = ok a
map_err f (err e) = err (f e)

abbrev pub poll_map_err {ℓ κ ι} :
    {A : Type ι} {E : Type ℓ} {G : Type κ} → (E → G) → Poll (Result E A) → Poll (Result G A)
poll_map_err f pending = pending
poll_map_err f (ready r) = ready (map_err f r)

-- `Map` and `MapErr`: a service with a function.
pub record Map {ℓ} (S A B : Type ℓ) : Type ℓ where
  pub service : S
  pub f : A → B

-- The futures of this file: another future, and the function for its result.
pub record MapFuture {ℓ} (R A B : Type ℓ) : Type ℓ where
  pub f : A → B
  pub fut : Fut R

module _ {ℓ} {E A B : Type ℓ} where
  abbrev pub on_map :
      (A → B)
      → Fut (Result E A) × Poll (Result E A)
      → Outcome (MapFuture (Result E A) A B × Poll (Result E B))
  on_map f (fut, ready (ok resp)) = done (record { f = f; fut = fut }, ready (ok (f resp)))
  on_map f (fut, ready (err e)) = done (record { f = f; fut = fut }, ready (err e))
  on_map f (fut, pending) = done (record { f = f; fut = fut }, pending)

  -- `MapFuture::poll`.
  unfoldable pub poll_map :
      MapFuture (Result E A) A B → Outcome (MapFuture (Result E A) A B × Poll (Result E B))
  poll_map m = on_map m.f (poll_fut m.fut)

  poll_map-Passes :
      (f : A → B) (fut : Fut (Result E A))
      → Passes poll_map
          (map_ok f)
          (λ g. record { f = f; fut = g })
          (poll_map (record { f = f; fut = fut }))
          fut
  unfolding poll_map
  poll_map-Passes f (resolved (ok a)) = (_, refl)
  poll_map-Passes f (resolved (err e)) = (_, refl)
  poll_map-Passes f (later fut) = refl
  poll_map-Passes f never = refl

module _ {ℓ} {S Req A B E : Type ℓ} (a : Service S Req A E) where
  -- `Map::poll_ready` and `Map::call`.
  unfoldable pub poll_ready_map : Map S A B → Map S A B × Poll (Result E (Unit {0}))
  poll_ready_map m = let (s, answer) = a.poll_ready m.service in (record m { service = s }, answer)

  unfoldable pub call_map : Map S A B → Req → Map S A B × MapFuture (Result E A) A B
  call_map m req =
      let (s, fut) = a.call m.service req in
      (record m { service = s }, record { f = m.f; fut = fut })

  -- Polls of a call of the mapped service answer as the service's own future does, its response
  -- changed by the function and its error kept.
  pub run-call_map :
      (n : ℕ) (m : Map S A B) (req : Req)
      → run poll_map n (call_map m req).1
        ≡ done (await n (then_fut (a.call m.service req).1 λ r. resolved (map_ok m.f r)))
  unfolding call_map
  run-call_map n m req =
      run-Passes poll_map (map_ok m.f) (λ g. record { f = m.f; fut = g }) (poll_map-Passes m.f) n
        (a.call m.service req).1

module _ {ℓ} {E G A : Type ℓ} where
  abbrev pub on_map_err :
      (E → G)
      → Fut (Result E A) × Poll (Result E A)
      → Outcome (MapFuture (Result E A) E G × Poll (Result G A))
  on_map_err f (fut, answer) = done (record { f = f; fut = fut }, poll_map_err f answer)

  -- `MapErrFuture::poll` and `MapInitErrFuture::poll`.
  unfoldable pub poll_mapped_err :
      MapFuture (Result E A) E G → Outcome (MapFuture (Result E A) E G × Poll (Result G A))
  poll_mapped_err m = on_map_err m.f (poll_fut m.fut)

  pub poll_mapped_err-Passes :
      (f : E → G) (fut : Fut (Result E A))
      → Passes poll_mapped_err
          (map_err f)
          (λ g. record { f = f; fut = g })
          (poll_mapped_err (record { f = f; fut = fut }))
          fut
  unfolding poll_mapped_err
  poll_mapped_err-Passes f (resolved r) = (_, refl)
  poll_mapped_err-Passes f (later fut) = refl
  poll_mapped_err-Passes f never = refl

  -- `TransformMapInitErrFuture::poll`.
  abbrev pub on_transform_err :
      (E → G)
      → Fut (Result E A) × Poll (Result E A)
      → Outcome (MapFuture (Result E A) E G × Poll (Result G A))
  on_transform_err f (fut, ready res) = done (record { f = f; fut = fut }, ready (map_err f res))
  on_transform_err f (fut, pending) = done (record { f = f; fut = fut }, pending)

  unfoldable pub poll_transform_err :
      MapFuture (Result E A) E G → Outcome (MapFuture (Result E A) E G × Poll (Result G A))
  poll_transform_err m = on_transform_err m.f (poll_fut m.fut)

  pub poll_transform_err-Passes :
      (f : E → G) (fut : Fut (Result E A))
      → Passes poll_transform_err
          (map_err f)
          (λ g. record { f = f; fut = g })
          (poll_transform_err (record { f = f; fut = fut }))
          fut
  unfolding poll_transform_err
  poll_transform_err-Passes f (resolved r) = (_, refl)
  poll_transform_err-Passes f (later fut) = refl
  poll_transform_err-Passes f never = refl

module _ {ℓ} {S Req A E G : Type ℓ} (a : Service S Req A E) where
  -- `MapErr::poll_ready` and `MapErr::call`.
  unfoldable pub poll_ready_map_err : Map S E G → Map S E G × Poll (Result G (Unit {0}))
  poll_ready_map_err m =
      let (s, answer) = a.poll_ready m.service in
      (record m { service = s }, poll_map_err m.f answer)

  unfoldable pub call_map_err : Map S E G → Req → Map S E G × MapFuture (Result E A) E G
  call_map_err m req =
      let (s, fut) = a.call m.service req in
      (record m { service = s }, record { f = m.f; fut = fut })

  -- Polls of a call of the service answer as its own future does, its error changed by the function.
  pub run-call_map_err :
      (n : ℕ) (m : Map S E G) (req : Req)
      → run poll_mapped_err n (call_map_err m req).1
        ≡ done (await n (then_fut (a.call m.service req).1 λ r. resolved (map_err m.f r)))
  unfolding call_map_err
  run-call_map_err n m req =
      run-Passes poll_mapped_err (map_err m.f) (λ g. record { f = m.f; fut = g })
        (poll_mapped_err-Passes m.f) n (a.call m.service req).1
