-- ===== src/Server/Waking.antt =====
-- The accept thread at work (actix-server/src/accept.rs): what it accepts from its listeners, and what
-- it does with the waker queue. A listener is what its calls of `accept` will answer; the time is one
-- for a whole call, and no interest is added during it.

pub mod Paused
mod Tests
use actix_net.Prelude.{
  ℕ, zero, suc, ◌+◌, ◌%◌, ◌==◌, Bool, true, false, List, [], ◌∷◌, map, length, get_elem?, set,
  if◌then◌else◌,
}
use actix_net.Prelude.Panics.{Outcome, done, panicked, ◌>>=◌}
use actix_net.Server.Availability.{available}
use actix_net.Server.Handle.{Conn}
use actix_net.Server.Accept.{
  WakerInterest, worker_available, worker, pause, resume, stop, Accept, or_panic,
  on_worker_available, on_worker, accept_one,
}
use actix_net.Server.Listeners.{
  ServerSocketInfo, register_logged, deregister_all, on_accept_error, on_pause,
}

-- An answer of a listener; `fails` is an error that is not the connection's.
pub data Incoming : Type 0 where
  connects : ℕ → Incoming
  would_block fails_one fails : Incoming

-- `arrivals` has the answers of each listener, at its token.
pub record AcceptThread : Type 0 where
  pub thread : Accept
  pub sockets : List ServerSocketInfo
  pub arrivals : List (List Incoming)

abbrev pub with_thread : AcceptThread → Accept → AcceptThread
with_thread t a = record t { thread = a }

module _ (releases : ServerSocketInfo → Bool) where
  abbrev pub on_stop_interest : AcceptThread → AcceptThread
  on_stop_interest t =
      if t.thread.paused then t else record t { sockets = deregister_all releases t.sockets }

  abbrev pub on_pause_interest : AcceptThread → AcceptThread
  on_pause_interest t =
      let (a, sockets) = on_pause releases t.thread t.sockets in
      record t { thread = a; sockets = sockets }

-- What is left of a listener after its turn.
pub record Turn : Type 0 where
  pub thread : Accept
  pub info : ServerSocketInfo
  pub left : List Incoming

module _ (takes releases : ServerSocketInfo → Bool) (fuel now : ℕ) where
  -- The loop of `accept`, by recursion on the answers; its calls of `accept_one` have the fuel.
  unfoldable pub accept_loop : List Incoming → Accept → ServerSocketInfo → ℕ → Outcome Turn
  accept_loop [] a info token = done (record { thread = a; info = info; left = [] })
  accept_loop (x ∷ xs) a info token = elim (available a.avail) [
    | false ↦ done (record { thread = a; info = info; left = x ∷ xs })
    | true ↦ elim x [
      | connects io ↦
          accept_one fuel a (record { io = io; token = token }) >>= λ b. accept_loop xs b info token
      | would_block ↦ done (record { thread = a; info = info; left = xs })
      | fails_one ↦ accept_loop xs a info token
      | fails ↦
          let (b, info') = on_accept_error releases now a info in
          done (record { thread = b; info = info'; left = xs })
    ]
  ]

  unfoldable pub accept : AcceptThread → ℕ → Outcome AcceptThread
  accept t token = elim (available t.thread.avail) [
    | false ↦ done t
    | true ↦ do
      info ← or_panic (get_elem? t.sockets token)
      xs ← or_panic (get_elem? t.arrivals token)
      r ← accept_loop xs t.thread info token
      done (record {
        thread = r.thread;
        sockets = set t.sockets token r.info;
        arrivals = set t.arrivals token r.left;
      })
  ]

  abbrev pub accept_at : AcceptThread → ℕ → Outcome AcceptThread
  accept_at t idx = or_panic (get_elem? t.sockets idx) >>= λ info. accept t info.token

  -- The loop of `accept_all`: so many listeners, from an offset on.
  unfoldable pub scan : ℕ → ℕ → ℕ → AcceptThread → Outcome AcceptThread
  scan zero start offset t = done t
  scan (suc n) start offset t =
      accept_at t ((start + offset) % length t.sockets) >>= λ u. scan n start (offset + 1) u

  abbrev pub rotated : ℕ → AcceptThread → AcceptThread
  rotated start t =
      with_thread t (record (t.thread) { next_listener = (start + 1) % length t.sockets })

  -- Without listeners the remainder by zero panics.
  unfoldable pub accept_all : AcceptThread → Outcome AcceptThread
  accept_all t =
      if length t.sockets == 1
      then accept_at t 0
      else if length t.sockets == 0
      then panicked
      else (scan (length t.sockets) t.thread.next_listener 0 t >>= λ u.
          done (rotated t.thread.next_listener u))

  abbrev pub unless_paused : AcceptThread → Outcome AcceptThread
  unless_paused t = if t.thread.paused then done t else accept_all t

  unfoldable pub on_resume : AcceptThread → Outcome AcceptThread
  on_resume t = elim (t.thread.paused) [
    | false ↦ done t
    | true ↦ accept_all (record t {
      thread = record (t.thread) { paused = false };
      sockets = map (register_logged takes) t.sockets;
    })
  ]

  -- The loop of `handle_waker`, by recursion on the queue; `true` ends the thread.
  unfoldable pub drain : List WakerInterest → AcceptThread → Outcome (AcceptThread × Bool)
  drain [] t = done (t, false)
  drain (i ∷ queue) t =
      let u = with_thread t (record (t.thread) { waker_queue = queue }) in
      elim i [
        | worker_available idx ↦ on_worker_available u.thread idx >>= λ a.
            unless_paused (with_thread u a) >>= λ v. drain queue v
        | worker h ↦
            on_worker u.thread h >>= λ a. unless_paused (with_thread u a) >>= λ v. drain queue v
        | pause ↦ drain queue (on_pause_interest releases u)
        | resume ↦ on_resume u >>= λ v. drain queue v
        | stop ↦ done (on_stop_interest releases u, true)
      ]

  unfoldable pub handle_waker : AcceptThread → Outcome (AcceptThread × Bool)
  handle_waker t = drain t.thread.waker_queue t
