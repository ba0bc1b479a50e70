-- ===== src/Server/Accept/Dispatch.antt =====
-- The loops of `accept_one` in actix-server/src/accept.rs, and what they leave.
use actix_net.Prelude.{
  ℕ, zero, suc, ◌-◌, ◌≤◌, ◌<◌, ◌≡◌, ap, true, false, length, Result, ok, err, arith, Bool-cases,
  inl, inr,
}
use actix_net.Prelude.Access.{get_elem?-some}
use actix_net.Prelude.Panics.{Outcome, done, panicked, out_of_fuel, ◌>>=◌}
use actix_net.Server.Availability.{Availability, available, get_available}
use actix_net.Server.Availability.Laws.{is_set, IsUpdated}
use actix_net.Server.Handle.{Conn, WorkerHandle}
use actix_net.Server.Accept.{Accept, mark, send_connection}
use actix_net.Server.Availability.Laws.{available-is_set, get_available-is_set}
use actix_net.Server.Accept.{send_until, accept_one, on_reply}
use actix_net.Server.Accept.Sound.{
  At, IsSound, Delivered, IsRemoved, SendEnds, marked, mark_lem, unmark-IsSound, set_next_lem,
  next_worker-IsSound,
}
use actix_net.Server.Accept.Live.{next_lem}
use actix_net.Server.Accept.Rounds.{
  enough, IsReady, none_marked, ready, passed, passed-IsAhead, passed-available,
}
use actix_net.Server.Accept.Send.{send_connection-SendEnds}

abbrev pub Ends : Accept → Conn → Outcome Accept → Type 0
Ends a conn (done b) = IsSound b × Delivered a conn b
Ends a conn panicked = ⊥
Ends a conn out_of_fuel = ⊥

pub Ends-removed :
    (a b : Accept) (conn : Conn) (o : Outcome Accept)
    → IsRemoved a b
    → Ends b conn o
    → Ends a conn o
Ends-removed a b conn (done c) r (s, inl (q, h, p, e, live, f)) =
    let (q', e') = r.old q h e in (s, inl (q', h, p, e', live, f))
Ends-removed a b conn (done c) r (s, inr (none_left, dead)) =
    (s, inr (none_left, λ q h e. elim (r.kept q h e) [ inl d ↦ d | inr (p, f) ↦ dead p h f ]))
Ends-removed a b conn panicked r e = elim e [ ]
Ends-removed a b conn out_of_fuel r e = elim e [ ]

pub on_reply-Ends :
    (a : Accept) (conn : Conn) (again : Accept → Conn → Outcome Accept)
    (o : Outcome (Accept × Result Conn (Unit {0})))
    → ((b : Accept) → IsSound b → IsRemoved a b → Ends b conn (again b conn))
    → SendEnds a conn o
    → Ends a conn (o >>= on_reply again)
on_reply-Ends a conn again (done (b, ok x)) go e = e
on_reply-Ends a conn again (done (b, err c)) go (s, same, r) =
    rw same (Ends-removed a b conn (again b conn) r (go b s r))
on_reply-Ends a conn again panicked go e = elim e [ ]
on_reply-Ends a conn again out_of_fuel go e = elim e [ ]

-- The loop that sends whatever the marks say ends with fuel for each handle.
pub send_until-Ends :
    (n : ℕ) (a : Accept) (conn : Conn)
    → IsSound a
    → 0 < length a.handles
    → length a.handles ≤ n
    → Ends a conn (send_until n a conn)
unfolding send_until
send_until-Ends zero a conn s l g = absurd (omega arith)
send_until-Ends (suc n) a conn s l g =
    on_reply-Ends a conn _ (send_connection a conn)
      (λ b t r. send_until-Ends n b conn t r.some_left (omega (arith, r.fewer)))
      (send_connection-SendEnds a conn s l)

passed-IsSound :
    (a : Accept) (h : WorkerHandle) (v : Availability)
    → IsSound a
    → 0 < length a.handles
    → IsUpdated a.avail h.idx false v
    → IsSound (passed a v)
passed-IsSound a h v s l u =
    next_worker-IsSound (marked a v) _ (unmark-IsSound a h.idx v s u) (omega (arith, l))

-- One round, given that the rounds after it end.
module _ (n : ℕ) (a : Accept) (conn : Conn) (s : IsSound a) (l : 0 < length a.handles)
    (rec : (b : Accept)
      → IsSound b
      → 0 < length b.handles
      → IsReady b n
      → Ends b conn (accept_one n b conn)) where
  seen :
      (h : WorkerHandle)
      → At a.handles a.next_worker h
      → get_available a.avail h.idx ≡ done (is_set a.avail h.idx)
  seen h at = get_available-is_set a.avail h.idx s.valid (s.small a.next_worker h at)

  sends :
      (h : WorkerHandle)
      → At a.handles a.next_worker h
      → is_set a.avail h.idx ≡ true
      → IsReady a (suc n)
      → Ends a conn (accept_one (suc n) a conn)
  unfolding accept_one
  sends h at y (inr (e, f)) =
      absurd (ground (arith, none_marked a h.idx s.valid (s.small a.next_worker h at) e))
  sends h at y (inl (d, r, f)) =
      rw (next_lem a h at, seen h at, y)
        (on_reply-Ends a conn _ (send_connection a conn) again
          (send_connection-SendEnds a conn s l))
    where
      again : (b : Accept) → IsSound b → IsRemoved a b → Ends b conn (accept_one n b conn)
      again b t w =
          let less : length a.handles - 1 ≡ length b.handles = omega (arith, w.fewer) in
          rec b t w.some_left (ready b n t w.some_left (omega (arith, ap enough less, f)))

  passes :
      (h : WorkerHandle)
      → At a.handles a.next_worker h
      → is_set a.avail h.idx ≡ false
      → IsReady a (suc n)
      → (v : Availability) × (mark a h.idx false ≡ done (marked a v))
        × IsUpdated a.avail h.idx false v
      → Ends a conn (accept_one (suc n) a conn)
  unfolding accept_one available
  passes h at y (inl (d, r, f)) (v, e, u) =
      let (k, less, r') = passed-IsAhead a h v d s at y u r in
      let still : available v ≡ true =
        (available-is_set v u.valid).1
          (r'.handle.idx, s.small r'.place r'.handle r'.at, r'.is_marked) in
      rw (next_lem a h at, seen h at, y, e, set_next_lem (marked a v) l, still)
        (rec (passed a v) (passed-IsSound a h v s l u) l (inl (k, r', omega (arith, less, f))))
  passes h at y (inr (off, f)) (v, e, u) =
      rw
        (
          next_lem a h at,
          seen h at,
          y,
          e,
          set_next_lem (marked a v) l,
          passed-available a h v s u off,
        )
        (send_until-Ends n (passed a v) conn (passed-IsSound a h v s l u) l (omega (arith, f)))

  round-Ends : IsReady a (suc n) → Ends a conn (accept_one (suc n) a conn)
  round-Ends r =
      let (h, at) = get_elem?-some a.handles a.next_worker (s.in_range l) in
      elim (Bool-cases (is_set a.avail h.idx)) [
        | inl y ↦ sends h at y r
        | inr y ↦ passes h at y r (mark_lem a h.idx false s.valid (s.small a.next_worker h at))
      ]

ready-Ends :
    (n : ℕ) (a : Accept) (conn : Conn)
    → IsSound a
    → 0 < length a.handles
    → IsReady a n
    → Ends a conn (accept_one n a conn)
ready-Ends zero a conn s l (inl (d, r, f)) = absurd (omega arith)
ready-Ends zero a conn s l (inr (e, f)) = absurd (omega arith)
ready-Ends (suc n) a conn s l r = round-Ends n a conn s l (λ b t m w. ready-Ends n b conn t m w) r

-- With sound marks and a worker, `accept_one` ends: it does not panic, and fuel `enough` is enough.
-- The state is sound again, and the connection is in the queue of a live worker, or every worker
-- was dead and none is left.
pub accept_one-Ends :
    (n : ℕ) (a : Accept) (conn : Conn)
    → IsSound a
    → 0 < length a.handles
    → enough (length a.handles) ≤ n
    → Ends a conn (accept_one n a conn)
accept_one-Ends n a conn s l f = ready-Ends n a conn s l (ready a n s l f)
