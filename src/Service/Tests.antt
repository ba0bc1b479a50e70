-- ===== src/Service/Tests.antt =====
-- Runs of chained services (actix-service/src) at concrete inputs.
use actix_net.Prelude.{ℕ, ◌+◌, ◌≡◌, refl, some, Result, ok, err, pending, ready, ltb, if◌then◌else◌}
use actix_net.Prelude.Panics.{done}
use actix_net.Prelude.Futures.{resolved, later, after_polls, try_fut}
use actix_net.Prelude.Tasks.{run, await}
use actix_net.Service.{Service}
use actix_net.Service.Chains.{poll_and_then, call_and_then, run-and_then, poll_then, call_then}
use actix_net.Service.Readiness.{poll_ready_both}
use actix_net.Service.Factories.{new_response, poll_factory, joined, run-joined}

-- Counts its calls, is pending once, and refuses a request of ten or more.
abbrev limited : Service ℕ ℕ ℕ ℕ
limited = record {
  poll_ready = λ calls. (calls, ready (ok tt));
  call = λ calls req. (calls + 1, later (resolved (if ltb req 10 then ok req else err req)));
}

-- Adds the number of its calls.
abbrev adding : Service ℕ ℕ ℕ ℕ
adding = record {
  poll_ready = λ calls. (calls, pending);
  call = λ calls req. (calls + 1, later (resolved (ok (req + calls))));
}

abbrev answer : ℕ → Result ℕ ℕ → ℕ
answer calls (ok a) = a
answer calls (err e) = calls

-- Takes errors too.
abbrev mending : Service ℕ (Result ℕ ℕ) ℕ ℕ
mending = record {
  poll_ready = λ calls. (calls, ready (ok tt));
  call = λ calls req. (calls + 1, resolved (ok (answer calls req)));
}

run-and_then_example :
    run (poll_and_then limited adding 2) 3 (call_and_then limited adding (0, 5) 7).1
    ≡ done (await 3 (try_fut (limited.call 0 7).1 λ res. (adding.call 5 res).1))
run-and_then_example = run-and_then limited adding 0 3 0 5 7

and_then_test :
    run (poll_and_then limited adding 2) 3 (call_and_then limited adding (0, 5) 7).1
    ≡ done (some (ok 12))
unfolding poll_and_then call_and_then
and_then_test = refl

then_test :
    run (poll_then limited mending 2) 2 (call_then limited mending (0, 5) 17).1 ≡ done (some (ok 5))
unfolding poll_then call_then
then_test = refl

poll_ready_both_test : (poll_ready_both limited adding (0, 5)).1 ≡ pending
unfolding poll_ready_both
poll_ready_both_test = refl

abbrev made : ℕ → Result ℕ ℕ
made n = ok n

run-joined_example :
    run poll_factory 4 (new_response (after_polls 1 (made 7)) (after_polls 3 (made 8)))
    ≡ done (await 4 (joined 1 3 (made 7) (made 8)))
run-joined_example = run-joined 4 1 3 (made 7) (made 8)
