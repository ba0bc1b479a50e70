-- ===== src/Server/Accept/Live.antt =====
-- `send_connection` of actix-server/src/accept.rs when the next worker is alive.
use actix_net.Prelude.{◌+◌, ◌%◌, ◌<◌, ◌≡◌, refl, Bool, true, false, length, arith, inl}
use actix_net.Prelude.Access.{length-set, get_elem?-set, get_elem?-lt}
use actix_net.Prelude.Panics.{done}
use actix_net.Server.Availability.{Availability}
use actix_net.Server.Availability.Laws.{IsUpdated}
use actix_net.Server.Handle.{Conn, WorkerHandle}
use actix_net.Server.Accept.{Accept, next, mark, after_sent}
use actix_net.Server.Accept.Sound.{
  At, IsSound, with_conn, SendEnds, marked, mark_lem, unmark-IsSound, set_next_lem,
  next_worker-IsSound, put, put-IsSound,
}

pub next_lem : (a : Accept) (h : WorkerHandle) → At a.handles a.next_worker h → next a ≡ done h
unfolding next
next_lem a h at = rw at refl

-- A live worker: the connection is queued, and the worker is unmarked if it is full.
module _ (a : Accept) (h : WorkerHandle) (conn : Conn) (s : IsSound a)
    (at : At a.handles a.next_worker h) where
  lt : a.next_worker < length a.handles
  lt = get_elem?-lt a.handles a.next_worker {v = h} at

  abbrev queued : Accept
  queued = put a (with_conn h conn)

  queued-IsSound : IsSound queued
  queued-IsSound = put-IsSound a h (with_conn h conn) s at refl

  sent_at : At queued.handles a.next_worker (with_conn h conn)
  sent_at =
      ground (arith, get_elem?-set a.handles a.next_worker a.next_worker (with_conn h conn) lt)

  advanced-IsSound :
      (b : Accept)
      → IsSound b
      → length b.handles ≡ length a.handles
      → IsSound (record b { next_worker = (b.next_worker + 1) % length b.handles })
  advanced-IsSound b sb e = next_worker-IsSound b _ sb (omega (arith, e, lt))

  pub after_sent-SendEnds :
      h.open_rx ≡ true → (more : Bool) → SendEnds a conn (after_sent queued h.idx more)
  unfolding after_sent
  after_sent-SendEnds live true =
      rw
        (set_next_lem queued
          (omega (arith, length-set a.handles a.next_worker (with_conn h conn), lt)))
        (
          advanced-IsSound queued queued-IsSound
              (length-set a.handles a.next_worker (with_conn h conn)),
          inl (a.next_worker, h, a.next_worker, at, live, sent_at),
        )
  after_sent-SendEnds live false =
      unmarked (mark_lem queued h.idx false s.valid (s.small a.next_worker h at))
    where
      unmarked :
          (v : Availability) × (mark queued h.idx false ≡ done (marked queued v))
            × IsUpdated a.avail h.idx false v
          → SendEnds a conn (after_sent queued h.idx false)
      unmarked (v, e, u) =
          rw
            (
              e,
              set_next_lem (marked queued v)
                  (omega (arith, length-set a.handles a.next_worker (with_conn h conn), lt)),
            )
            (
              advanced-IsSound (marked queued v) (unmark-IsSound queued h.idx v queued-IsSound u)
                  (length-set a.handles a.next_worker (with_conn h conn)),
              inl (a.next_worker, h, a.next_worker, at, live, sent_at),
            )
