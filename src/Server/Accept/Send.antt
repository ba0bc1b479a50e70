-- ===== src/Server/Accept/Send.antt =====
-- `send_connection` of actix-server/src/accept.rs: to a live worker, and to one that is gone.
use actix_net.Prelude.{◌<◌, ◌≡◌, refl, true, false, length, ok, err, arith, Bool-cases, inl, inr}
use actix_net.Prelude.Access.{get_elem?-set, get_elem?-lt, get_elem?-some}
use actix_net.Prelude.Panics.{done}
use actix_net.Server.Handle.{Conn, WorkerHandle, inc, dec, send}
use actix_net.Server.Accept.{Accept, next, remove_next, after_failed, send_connection}
use actix_net.Server.Accept.Sound.{At, IsSound, with_conn, SendEnds, mark_lem, put}
use actix_net.Server.Accept.Live.{next_lem, after_sent-SendEnds}
use actix_net.Server.Accept.Gone.{removed, after_removed-SendEnds}

send_live :
    (h : WorkerHandle) (conn : Conn)
    → h.open_rx ≡ true
    → send h conn ≡ (with_conn h conn, ok (inc h.counter).1)
unfolding send inc
send_live h conn e = rw e refl

-- The handle after a send that has failed.
abbrev uncounted : WorkerHandle → WorkerHandle
uncounted h = record h { counter = (dec (inc h.counter).0).0 }

send_gone :
    (h : WorkerHandle) (conn : Conn) → h.open_rx ≡ false → send h conn ≡ (uncounted h, err conn)
unfolding send inc dec
send_gone h conn e = rw e refl

module _ (a : Accept) (h : WorkerHandle) (conn : Conn) (s : IsSound a)
    (at : At a.handles a.next_worker h) where
  next-uncounted : next (put a (uncounted h)) ≡ done (uncounted h)
  next-uncounted = next_lem (put a (uncounted h)) (uncounted h) (
      ground (
        arith,
        get_elem?-set a.handles a.next_worker a.next_worker (uncounted h)
            (get_elem?-lt a.handles a.next_worker {v = h} at),
      ))

  after_failed-SendEnds :
      h.open_rx ≡ false → SendEnds a conn (after_failed (put a (uncounted h)) conn)
  unfolding after_failed remove_next
  after_failed-SendEnds gone =
      let r = removed a h (uncounted h) s at refl gone in
      let (v, e, u) = mark_lem r h.idx false s.valid (s.small a.next_worker h at) in
      rw (next-uncounted, e) (after_removed-SendEnds a h (uncounted h) s at refl gone conn v u)

-- Whatever the worker's state, a call of `send_connection` returns, and delivers the connection,
-- drops it with the last worker, or hands it back with a dead worker removed.
pub send_connection-SendEnds :
    (a : Accept) (conn : Conn)
    → IsSound a
    → 0 < length a.handles
    → SendEnds a conn (send_connection a conn)
unfolding send_connection
send_connection-SendEnds a conn s n = found (get_elem?-some a.handles a.next_worker (s.in_range n))
  where
    found :
        (h : WorkerHandle) × At a.handles a.next_worker h → SendEnds a conn (send_connection a conn)
    found (h, at) = elim (Bool-cases h.open_rx) [
      | inl live ↦
          rw (next_lem a h at, send_live h conn live)
            (after_sent-SendEnds a h conn s at live (inc h.counter).1)
      | inr gone ↦
          rw (next_lem a h at, send_gone h conn gone) (after_failed-SendEnds a h conn s at gone)
    ]
