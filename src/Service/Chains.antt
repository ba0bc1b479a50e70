-- ===== src/Service/Chains.antt =====
-- actix-service/src/and_then.rs and then.rs: a response is handed to a second service.
use actix_net.Prelude.{ℕ, zero, suc, ◌≡◌, refl, Option, some, Result, ok, err, Poll, pending, ready}
use actix_net.Prelude.Panics.{Outcome, done, out_of_fuel}
use actix_net.Prelude.Futures.{Fut, resolved, later, never, poll_fut, then_fut, try_fut}
use actix_net.Prelude.Tasks.{run, await, Steps, run-worth}
use actix_net.Service.{Service}

-- The state of the response: the first service's future, or the second one's.
pub data State {ℓ} (A B : Type ℓ) : Type ℓ where
  first : Fut A → State A B
  second : Fut B → State A B

module _ {ℓ} {S T Req A B E : Type ℓ} (a : Service S Req A E) (b : Service T A B E) where
  abbrev pub AndThen : Type ℓ
  AndThen = T × State (Result E A) (Result E B)

  -- `AndThenService::call`; the state is of both services.
  unfoldable pub call_and_then : S × T → Req → S × AndThen
  call_and_then (s, t) req = let (s', fut) = a.call s req in (s', (t, first fut))

  abbrev pub and_then_next :
      (AndThen → Outcome (AndThen × Poll (Result E B)))
      → T
      → Fut (Result E A) × Poll (Result E A)
      → Outcome (AndThen × Poll (Result E B))
  and_then_next again t (fut, pending) = done ((t, first fut), pending)
  and_then_next again t (fut, ready (err e)) = done ((t, first fut), ready (err e))
  and_then_next again t (fut, ready (ok res)) =
      let (t', next) = b.call t res in again (t', second next)

  -- `AndThenServiceResponse::poll`, with fuel for its loop.
  unfoldable pub poll_and_then : ℕ → AndThen → Outcome (AndThen × Poll (Result E B))
  poll_and_then zero s = out_of_fuel
  poll_and_then (suc n) (t, first fut) = and_then_next (λ s. poll_and_then n s) t (poll_fut fut)
  poll_and_then (suc n) (t, second fut) =
      let (fut', answer) = poll_fut fut in done ((t, second fut'), answer)

  and_then_worth : AndThen → Option (Fut (Result E B))
  and_then_worth (t, first fut) = some (try_fut fut λ res. (b.call t res).1)
  and_then_worth (t, second fut) = some fut

  second-Steps :
      (n m : ℕ) (t : T) (fut : Fut (Result E B))
      → Steps (poll_and_then n) and_then_worth (poll_and_then (suc m) (t, second fut)) (some fut)
  unfolding poll_and_then and_then_worth
  second-Steps n m t (resolved r) = (_, refl)
  second-Steps n m t (later f) = (_, refl, refl)
  second-Steps n m t never = (_, refl, refl)

  poll_and_then-Steps :
      (n : ℕ) (s : AndThen)
      → Steps
          (poll_and_then (suc (suc n)))
          and_then_worth
          (poll_and_then (suc (suc n)) s)
          (and_then_worth s)
  unfolding poll_and_then and_then_worth
  poll_and_then-Steps n (t, first (resolved (ok res))) =
      second-Steps (suc (suc n)) n (b.call t res).0 (b.call t res).1
  poll_and_then-Steps n (t, first (resolved (err e))) = (_, refl)
  poll_and_then-Steps n (t, first (later f)) = (_, refl, refl)
  poll_and_then-Steps n (t, first never) = (_, refl, refl)
  poll_and_then-Steps n (t, second fut) = second-Steps (suc (suc n)) (suc n) t fut

  -- Polls of the response of `and_then`, with two rounds of its loop or more for each, answer exactly
  -- as the first service's future awaited, and then that of the second service's call with its
  -- response; an error of the first is the answer, without a call of the second.
  pub run-and_then :
      (rounds n : ℕ) (s : S) (t : T) (req : Req)
      → run (poll_and_then (suc (suc rounds))) n (call_and_then (s, t) req).1
        ≡ done (await n (try_fut (a.call s req).1 λ res. (b.call t res).1))
  unfolding call_and_then and_then_worth
  run-and_then rounds n s t req =
      run-worth (poll_and_then (suc (suc rounds))) and_then_worth (poll_and_then-Steps rounds) n
        (call_and_then (s, t) req).1 _ refl

module _ {ℓ} {S T Req A B E : Type ℓ} (a : Service S Req A E) (b : Service T (Result E A) B E) where
  abbrev pub Then : Type ℓ
  Then = T × State (Result E A) (Result E B)

  -- `ThenService::call`.
  unfoldable pub call_then : S × T → Req → S × Then
  call_then (s, t) req = let (s', fut) = a.call s req in (s', (t, first fut))

  abbrev pub then_next :
      (Then → Outcome (Then × Poll (Result E B)))
      → T
      → Fut (Result E A) × Poll (Result E A)
      → Outcome (Then × Poll (Result E B))
  then_next again t (fut, pending) = done ((t, first fut), pending)
  then_next again t (fut, ready res) = let (t', next) = b.call t res in again (t', second next)

  -- `ThenServiceResponse::poll`, with fuel for its loop.
  unfoldable pub poll_then : ℕ → Then → Outcome (Then × Poll (Result E B))
  poll_then zero s = out_of_fuel
  poll_then (suc n) (t, first fut) = then_next (λ s. poll_then n s) t (poll_fut fut)
  poll_then (suc n) (t, second fut) =
      let (fut', answer) = poll_fut fut in done ((t, second fut'), answer)

  then_worth : Then → Option (Fut (Result E B))
  then_worth (t, first fut) = some (then_fut fut λ res. (b.call t res).1)
  then_worth (t, second fut) = some fut

  then_second-Steps :
      (n m : ℕ) (t : T) (fut : Fut (Result E B))
      → Steps (poll_then n) then_worth (poll_then (suc m) (t, second fut)) (some fut)
  unfolding poll_then then_worth
  then_second-Steps n m t (resolved r) = (_, refl)
  then_second-Steps n m t (later f) = (_, refl, refl)
  then_second-Steps n m t never = (_, refl, refl)

  poll_then-Steps :
      (n : ℕ) (s : Then)
      → Steps (poll_then (suc (suc n))) then_worth (poll_then (suc (suc n)) s) (then_worth s)
  unfolding poll_then then_worth
  poll_then-Steps n (t, first (resolved res)) =
      then_second-Steps (suc (suc n)) n (b.call t res).0 (b.call t res).1
  poll_then-Steps n (t, first (later f)) = (_, refl, refl)
  poll_then-Steps n (t, first never) = (_, refl, refl)
  poll_then-Steps n (t, second fut) = then_second-Steps (suc (suc n)) (suc n) t fut

  -- Polls of the response of `then`, with two rounds of its loop or more for each, answer exactly as
  -- the first service's future awaited, and then that of the second service's call with its result,
  -- a response or an error.
  pub run-then :
      (rounds n : ℕ) (s : S) (t : T) (req : Req)
      → run (poll_then (suc (suc rounds))) n (call_then (s, t) req).1
        ≡ done (await n (then_fut (a.call s req).1 λ res. (b.call t res).1))
  unfolding call_then then_worth
  run-then rounds n s t req =
      run-worth (poll_then (suc (suc rounds))) then_worth (poll_then-Steps rounds) n
        (call_then (s, t) req).1 _ refl
