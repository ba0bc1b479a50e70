-- ===== src/Server/Accept.antt =====
-- actix-server/src/accept.rs: the state of the accept thread, and the dispatch of one connection.
-- The loops that retry have fuel. Between two lines of one call no worker step is interleaved: what
-- workers do stands between the calls.
pub mod Removal
pub mod Sound
mod Live
mod Gone
pub mod Send
pub mod Start
pub mod Stuck
mod Rounds
pub mod Dispatch
pub mod Reached
use actix_net.Prelude.{
  ℕ, zero, suc, ◌+◌, ◌-◌, ◌%◌, Bool, true, false, List, [], ◌∷◌, ◌++◌, Option, none, some, length,
  get_elem?, set, take, last?, map, is_empty, leb, ltb, ◌==◌, if◌then◌else◌, Result, ok, err,
}
use actix_net.Prelude.Panics.{Outcome, done, panicked, out_of_fuel, ◌>>=◌}
use actix_net.Server.Availability.{
  Availability, default, available, get_available, set_available, set_available_all,
}
use actix_net.Server.Handle.{Conn, WorkerHandle, send}

-- What other threads ask of the accept thread.
pub data WakerInterest : Type 0 where
  worker_available : ℕ → WakerInterest
  pause resume stop : WakerInterest
  worker : WorkerHandle → WakerInterest

-- `srv` is what `worker_faulted` has sent to the server; `timeout` counts milliseconds.
pub record Accept : Type 0 where
  pub waker_queue : List WakerInterest
  pub handles : List WorkerHandle
  pub srv : List ℕ
  pub next_worker : ℕ
  pub next_listener : ℕ
  pub avail : Availability
  pub timeout : Option ℕ
  pub paused : Bool

abbrev pub or_panic {ℓ} : {A : Type ℓ} → Option A → Outcome A
or_panic none = panicked
or_panic (some a) = done a

-- The state that `new_with_sockets` sets up, without the sockets.
unfoldable pub new_accept : List WakerInterest → List WorkerHandle → List ℕ → Outcome Accept
new_accept waker_queue handles srv = do
  avail ← set_available_all default (map (λ h. h.idx) handles)
  done (record {
    waker_queue = waker_queue;
    handles = handles;
    srv = srv;
    next_worker = 0;
    next_listener = 0;
    avail = avail;
    timeout = none;
    paused = false;
  })

-- `Vec::swap_remove`: the last element takes the place.
unfoldable pub swap_remove {ℓ} : {A : Type ℓ} → List A → ℕ → List A
swap_remove xs i = elim (last? xs) [ none ↦ [] | some l ↦ set (take (length xs - 1) xs) i l ]

unfoldable pub next : Accept → Outcome WorkerHandle
next a = or_panic (get_elem? a.handles a.next_worker)

-- The remainder by zero panics.
unfoldable pub set_next : Accept → Outcome Accept
set_next a =
    if length a.handles == 0
    then panicked
    else done (record a { next_worker = (a.next_worker + 1) % length a.handles })

unfoldable pub mark : Accept → ℕ → Bool → Outcome Accept
mark a idx b = do avail ← set_available a.avail idx b; done (record a { avail = avail })

-- What `handle_waker` does with `WakerInterest::WorkerAvailable` and with `WakerInterest::Worker`,
-- before `accept_all`.
unfoldable pub on_worker_available : Accept → ℕ → Outcome Accept
on_worker_available a idx = mark a idx true

unfoldable pub on_worker : Accept → WorkerHandle → Outcome Accept
on_worker a h = do b ← mark a h.idx true; done (record b { handles = b.handles ++ h ∷ [] })

unfoldable pub remove_next : Accept → Outcome Accept
remove_next a = do
  h ← next a
  mark (record a { handles = swap_remove a.handles a.next_worker; srv = a.srv ++ h.idx ∷ [] }) h.idx
      false

-- The arm `Ok(available)` of `send_connection`.
unfoldable pub after_sent : Accept → ℕ → Bool → Outcome (Accept × Result Conn (Unit {0}))
after_sent a idx more = do
  b ← if more then done a else mark a idx false
  c ← set_next b
  done (c, ok tt)

-- The end of the arm `Err(conn)`: with no worker left the connection is dropped.
unfoldable pub after_removed : Accept → Conn → Accept × Result Conn (Unit {0})
after_removed a conn =
    if length a.handles == 0
    then (a, ok tt)
    else if leb (length a.handles) a.next_worker
    then (record a { next_worker = 0 }, err conn)
    else (a, err conn)

unfoldable pub after_failed : Accept → Conn → Outcome (Accept × Result Conn (Unit {0}))
after_failed a conn = do b ← remove_next a; done (after_removed b conn)

abbrev pub on_send : Accept → ℕ → Result Conn Bool → Outcome (Accept × Result Conn (Unit {0}))
on_send a idx (ok more) = after_sent a idx more
on_send a idx (err conn) = after_failed a conn

unfoldable pub send_connection : Accept → Conn → Outcome (Accept × Result Conn (Unit {0}))
send_connection a conn = do
  h ← next a
  let (h', r) = send h conn
  on_send (record a { handles = set a.handles a.next_worker h' }) h.idx r

-- What both loops do with the answer of `send_connection`: end, or go on with the connection.
abbrev pub on_reply :
    (Accept → Conn → Outcome Accept) → Accept × Result Conn (Unit {0}) → Outcome Accept
on_reply again (b, ok x) = done b
on_reply again (b, err c) = again b c

-- `while let Err(c) = self.send_connection(conn)`
unfoldable pub send_until : ℕ → Accept → Conn → Outcome Accept
send_until zero a conn = out_of_fuel
send_until (suc n) a conn = send_connection a conn >>= on_reply (λ b c. send_until n b c)

unfoldable pub accept_one : ℕ → Accept → Conn → Outcome Accept
accept_one zero a conn = out_of_fuel
accept_one (suc n) a conn = do
  h ← next a
  marked ← get_available a.avail h.idx
  elim marked [
    | true ↦ send_connection a conn >>= on_reply (λ b c. accept_one n b c)
    | false ↦ do
      b ← mark a h.idx false
      c ← set_next b
      elim (available c.avail) [ true ↦ accept_one n c conn | false ↦ send_until n c conn ]
  ]
