-- ===== src/Service/CombinatorTests.antt =====
-- Runs of the combinators of actix-service/src at concrete inputs.
use actix_net.Prelude.{ℕ, zero, suc, ◌+◌, ◌≡◌, refl, some, Result, ok, Poll, pending, ready}
use actix_net.Prelude.Panics.{done}
use actix_net.Prelude.Futures.{Fut, resolved, later, then_fut, try_fut}
use actix_net.Prelude.Tasks.{run, await}
use actix_net.Service.{Service, ServiceFactory}
use actix_net.Service.Maps.{Map, call_map, poll_map}
use actix_net.Service.Applied.Configured.{
  Readies, new_configuring, poll_configuring, made, run-new_configuring,
}

abbrev after : ℕ → ℕ × Poll (Result ℕ (Unit {0}))
after zero = (0, ready (ok tt))
after (suc n) = (n, pending)

-- Is ready when it has counted down.
abbrev counting : Service ℕ ℕ ℕ ℕ
counting = record { poll_ready = after; call = λ n req. (n + 1, later (resolved (ok (n + req)))) }

-- What the readiness of each state comes to.
abbrev wait : ℕ → Fut (Result ℕ ℕ)
wait zero = resolved (ok 0)
wait (suc n) = later (wait n)

counting-Readies : (n : ℕ) → Readies counting wait (counting.poll_ready n) (wait n)
counting-Readies zero = refl
counting-Readies (suc n) = (n, refl, refl)

abbrev from_two : ServiceFactory (Unit {0}) ℕ ℕ
from_two = record { new_service = λ x. later (resolved (ok 2)) }

abbrev configure : ℕ → ℕ → Fut (Result ℕ ℕ)
configure cfg svc = later (resolved (ok (cfg + svc)))

run-new_configuring_example :
    run
      (poll_configuring counting (λ e. e) configure 3)
      5
      (new_configuring counting (λ e. e) configure from_two 7)
    ≡ done (
        await 5 (
          try_fut
            (from_two.new_service tt)
            λ svc. then_fut (wait svc) (made counting (λ e. e) configure 7)))
run-new_configuring_example =
    run-new_configuring counting (λ e. e) configure wait counting-Readies 0 5 from_two 7

configuring_test :
    run
      (poll_configuring counting (λ e. e) configure 3)
      5
      (new_configuring counting (λ e. e) configure from_two 7)
    ≡ done (some (ok 7))
unfolding poll_configuring new_configuring
configuring_test = refl

abbrev doubled : Map ℕ ℕ ℕ
doubled = record { service = 3; f = λ n. n + n }

map_test : run poll_map 2 (call_map counting doubled 4).1 ≡ done (some (ok 14))
unfolding poll_map call_map
map_test = refl
