-- ===== src/Rt/Tests.antt =====
-- Runs of arbiters and of the system's controller (actix-rt/src) at concrete inputs.
use actix_net.Prelude.{
  ℕ, ◌≡◌, refl, true, false, not, ◌&&◌, List, [], ◌∷◌, ◌++◌, none, some, get_elem?, Result, ok, err,
  arith,
}
use actix_net.Rt.Arbiter.{
  ArbiterRunner, new_runner, poll_runner, spawn, stop_arbiter, poll_commands,
}
use actix_net.Rt.Arbiter.Order.{
  Act, spawns, stops, polls, acts, polled, sent, before_stop, has_stop, polled-acts,
}
use actix_net.Rt.System.{
  System, exit, register_arbiter, deregister_arbiter, on_commands, with_tokio_rt, poll_wait, run,
}
use actix_net.Rt.System.Acts.{SystemAct, sends, drops, on_arbiter, polled_system, system_acts}
use actix_net.Rt.System.Acts
use actix_net.Rt.System.Exits.{IsAnswer, poll_wait-acts}
use actix_net.Rt.System.Stops.{register-exit}

abbrev busy : List (Act ℕ)
busy = spawns 7 ∷ polls ∷ spawns 8 ∷ stops ∷ spawns 9 ∷ []

polled-acts_example :
    ((polled (acts new_runner busy)).spawned ≡ before_stop (sent new_runner busy))
    × ((acts new_runner busy).alive ≡ true
        → (polled (acts new_runner busy)).alive
          ≡ ((acts new_runner busy).senders && not (has_stop (sent new_runner busy))))
polled-acts_example = polled-acts busy

-- The task after the stop is not spawned, and later ones are refused.
busy_test : (polled (acts new_runner busy)).spawned ≡ 7 ∷ 8 ∷ []
unfolding new_runner poll_runner spawn stop_arbiter poll_commands
busy_test = refl

abbrev story : List (SystemAct ℕ)
story =
    sends (register_arbiter 3 0)
    ∷ Acts.polls
    ∷ on_arbiter 0 (spawns 7)
    ∷ sends (exit 5)
    ∷ sends (exit 0)
    ∷ []

poll_wait-acts_example :
    IsAnswer true (some 5) (poll_wait (polled_system (system_acts with_tokio_rt story)))
poll_wait-acts_example = poll_wait-acts story

abbrev two_arbiters : System ℕ
two_arbiters = record {
  runners = new_runner ∷ new_runner ∷ [];
  cmd_rx = [];
  arbiters = [];
  stop_tx = true;
  stop_rx = none;
  running = true;
  senders = true;
}

register-exit_example :
    (r' : ArbiterRunner ℕ) × (get_elem?
        (on_commands two_arbiters
          (register_arbiter 3 1 ∷ (deregister_arbiter 0 ∷ []) ++ exit 2 ∷ [])).runners
        1
      ≡ some r')
    × ((hs : List (Act ℕ)) → (polled (acts r' hs)).alive ≡ false)
register-exit_example =
    register-exit two_arbiters 3 1 2 (deregister_arbiter 0 ∷ []) [] new_runner refl
      (ground arith, tt)

abbrev fine : Result ℕ (Unit {0})
fine = ok tt

run_test : (run (λ (c : ℕ). c) (ok 3) ≡ err 3) × (run (λ (c : ℕ). c) (ok 0) ≡ ok tt)
unfolding run
run_test = (refl, refl)
