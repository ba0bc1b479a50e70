-- ===== src/Server/Tests.antt =====
-- Runs of the accept thread and its workers' counters at concrete inputs.
use actix_net.Prelude.{ℕ, zero, suc, ◌<◌, ◌≡◌, refl, true, false, [], ◌∷◌, none, arith}
use actix_net.Prelude.{List, Bool, some, All, inl, inr, ap, subst, length}
use actix_net.Server.Listeners.{ServerSocketInfo, process_timeout, on_pause}
use actix_net.Server.Listeners.Timeouts.{IsKept, IsDue, process_timeout-IsDue}
use actix_net.Server.Listeners.Pauses.{IsQuiet, on_pause-IsQuiet}
use actix_net.Prelude.Digits.{digit}
use actix_net.Prelude.Panics.{done, out_of_fuel, ◌>>=◌}
use actix_net.Server.Availability.{Availability, default, max_workers, set_available}
use actix_net.Server.Availability.Laws.{
  is_set, IsUpdated, set_available-IsUpdated, default-IsValid, default-is_set,
}
use actix_net.Server.Handle.{Conn, WorkerHandle}
use actix_net.Server.Accept.Reached.{
  AcceptAct, connected, joined, ArePossible, accept_acts, Reaches, new_accept-Reaches,
}
use actix_net.Server.Accept.{Accept, send_connection, accept_one, new_accept}
use actix_net.Server.Accept.Start.{new_accept-IsSound}
use actix_net.Server.Accept.Sound.{At, IsSound, SendEnds}
use actix_net.Server.Accept.Stuck.{IsStuck, accept_one_stuck}
use actix_net.Server.Accept.Send.{send_connection-SendEnds}
use actix_net.Server.Accept.Dispatch.{Ends, accept_one-Ends}

set_available-IsUpdated_example :
    (a : Availability) × (set_available default 200 true ≡ done a) × IsUpdated default 200 true a
set_available-IsUpdated_example =
    set_available-IsUpdated default 200 true default-IsValid (omega arith)

-- A worker that is gone, and one that is there, with room for two connections.
abbrev dead : WorkerHandle
dead = record { idx = 0; counter = record { raw = 1; limit = 2 }; open_rx = false; queue = [] }

abbrev live : WorkerHandle
live = record { idx = 1; counter = record { raw = 1; limit = 2 }; open_rx = true; queue = [] }

abbrev conn : Conn
conn = record { io = 7; token = 0 }

-- Both workers, the live one next, under some marks.
abbrev two_workers : Availability → Accept
two_workers v = record {
  waker_queue = [];
  handles = dead ∷ live ∷ [];
  srv = [];
  next_worker = 1;
  next_listener = 0;
  avail = v;
  timeout = none;
  paused = false;
}

workers_small : (p : ℕ) (h : WorkerHandle) → At (dead ∷ live ∷ []) p h → h.idx < max_workers
workers_small zero h at = ground arith
workers_small (suc zero) h at = ground arith
workers_small (suc (suc p)) h at = absurd (ground arith)

two_workers-IsSound : IsSound (two_workers default)
two_workers-IsSound = record {
  valid = default-IsValid;
  small = workers_small;
  owned = λ i g e. absurd (ground (arith, default-is_set i g));
  in_range = λ _. omega arith;
  at_start = λ e. absurd (omega (arith, e));
}

send_connection-SendEnds_example :
    SendEnds (two_workers default) conn (send_connection (two_workers default) conn)
send_connection-SendEnds_example =
    send_connection-SendEnds (two_workers default) conn two_workers-IsSound (omega arith)

-- The live worker is passed over, the dead one is removed, and the live one takes the connection.
accept_one-Ends_example : Ends (two_workers default) conn (accept_one 6 (two_workers default) conn)
accept_one-Ends_example =
    accept_one-Ends 6 (two_workers default) conn two_workers-IsSound (omega arith) (omega arith)

-- A mark at 384, and no worker of that index.
abbrev stray : Availability
stray = record { words = 0 ∷ 0 ∷ 0 ∷ 1 ∷ [] }

stray_bits : (is_set stray 0 ≡ false) × (is_set stray 1 ≡ false) × (is_set stray 384 ≡ true)
unfolding is_set digit
stray_bits = (refl, refl, refl)

workers_unmarked :
    (p : ℕ) (h : WorkerHandle) → At (dead ∷ live ∷ []) p h → is_set stray h.idx ≡ false
workers_unmarked zero h at = ground (arith, stray_bits.0)
workers_unmarked (suc zero) h at = ground (arith, stray_bits.1)
workers_unmarked (suc (suc p)) h at = absurd (ground arith)

two_workers-IsStuck : IsStuck (two_workers stray)
two_workers-IsStuck = record {
  valid = record { four = refl; fits = omega arith };
  in_range = omega arith;
  small = workers_small;
  unmarked = workers_unmarked;
  stray = (384, omega arith, stray_bits.2);
}

accept_one_stuck_example : accept_one 1000 (two_workers stray) conn ≡ out_of_fuel
accept_one_stuck_example = accept_one_stuck 1000 (two_workers stray) conn two_workers-IsStuck

-- A listener that rests until 700, and one that is registered.
abbrev listeners : List ServerSocketInfo
listeners =
    record { token = 0; timeout = some 700; registered = false }
    ∷ record { token = 1; timeout = none; registered = true }
    ∷ []

abbrev with_timeout : Accept
with_timeout = record (two_workers default) { timeout = some 510 }

abbrev always : ServerSocketInfo → Bool
always info = true

process_timeout-IsDue_example :
    All IsKept (process_timeout always 600 with_timeout listeners).1
    × All
        (IsDue 600 (process_timeout always 600 with_timeout listeners).0.timeout)
        (process_timeout always 600 with_timeout listeners).1
process_timeout-IsDue_example =
    process_timeout-IsDue always (λ _. refl) 600 with_timeout 510 listeners refl refl
      (inr (700, refl), (inl refl, tt))

on_pause-IsQuiet_example :
    ((on_pause always with_timeout listeners).0.paused ≡ true)
    × All IsQuiet (on_pause always with_timeout listeners).1
    × ((process_timeout always 900
          (on_pause always with_timeout listeners).0
          (on_pause always with_timeout listeners).1).1
        ≡ (on_pause always with_timeout listeners).1)
on_pause-IsQuiet_example =
    on_pause-IsQuiet always always (λ _. refl) 900 with_timeout listeners refl
      (λ i e. refl, (λ i e. absurd (ground arith), tt))

-- One future that is pending once, and one that is ready.
abbrev pending_once : List (ℕ × ℕ)
pending_once = (1, 7) ∷ (0, 8) ∷ []

-- A connection comes to two workers, and a third one joins.
abbrev joining : List AcceptAct
joining =
    connected conn
    ∷ joined
        (record { idx = 2; counter = record { raw = 1; limit = 4 }; open_rx = true; queue = [] })
    ∷ []

joining-ArePossible :
    (a : Accept) → new_accept [] (dead ∷ live ∷ []) [] ≡ done a → ArePossible a joining
joining-ArePossible a e =
    let (b, f, hs, s) =
      new_accept-IsSound [] (dead ∷ live ∷ []) [] (omega arith, (omega arith, tt)) in
    let same : b ≡ a = cc (e, f) in
    (
      subst (λ (c : Accept). 0 < length c.handles) same (ground (arith, ap (λ ws. length ws) hs)),
      λ c g. (omega arith, λ d h. tt),
    )

new_accept-Reaches_example :
    Reaches (new_accept [] (dead ∷ live ∷ []) [] >>= λ a. accept_acts a joining)
new_accept-Reaches_example =
    new_accept-Reaches [] (dead ∷ live ∷ []) [] joining (omega arith, (omega arith, tt))
      joining-ArePossible
