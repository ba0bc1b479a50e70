-- ===== src/Server/Accept/Stuck.antt =====
-- `accept_one` of actix-server/src/accept.rs with a mark that belongs to no handle.
use actix_net.Prelude.{ℕ, zero, suc, ◌<◌, ◌≡◌, refl, true, false, length, arith}
use actix_net.Prelude.Access.{get_elem?-some}
use actix_net.Prelude.Panics.{out_of_fuel, ◌>>=◌}
use actix_net.Server.Availability.{Availability, max_workers, available}
use actix_net.Server.Availability.Laws.{IsValid, is_set, IsUpdated}
use actix_net.Server.Handle.{Conn, WorkerHandle}
use actix_net.Server.Accept.{Accept}
use actix_net.Server.Availability.Laws.{available-is_set, get_available-is_set}
use actix_net.Server.Accept.{accept_one}
use actix_net.Server.Accept.Sound.{At, marked, mark_lem, set_next_lem}
use actix_net.Server.Accept.Live.{next_lem}
use actix_net.Server.Accept.Rounds.{passed}
use actix_net.Server.Accept.Rounds.{passed}

-- Every handle is unmarked, and some other index is marked.
pub record IsStuck (a : Accept) : Type 0 where
  pub valid : IsValid a.avail
  pub in_range : a.next_worker < length a.handles
  pub small : (p : ℕ) (h : WorkerHandle) → At a.handles p h → h.idx < max_workers
  pub unmarked : (p : ℕ) (h : WorkerHandle) → At a.handles p h → is_set a.avail h.idx ≡ false
  pub stray : (i : ℕ) × (i < max_workers) × (is_set a.avail i ≡ true)

passed-IsStuck :
    (a : Accept) (h : WorkerHandle) (v : Availability)
    → IsStuck a
    → At a.handles a.next_worker h
    → IsUpdated a.avail h.idx false v
    → IsStuck (passed a v)
passed-IsStuck a h v s at u = record {
  valid = u.valid;
  in_range = omega (arith, s.in_range);
  small = s.small;
  unmarked = λ p k e. ground (arith, u.marks k.idx (s.small p k e), s.unmarked p k e);
  stray =
      let (i, g, e) = s.stray in (i, g, ground (arith, u.marks i g, s.unmarked a.next_worker h at));
}

stuck_round :
    (n : ℕ) (a : Accept) (conn : Conn)
    → IsStuck a
    → ((b : Accept) → IsStuck b → accept_one n b conn ≡ out_of_fuel)
    → accept_one (suc n) a conn ≡ out_of_fuel
unfolding accept_one
stuck_round n a conn s rec =
    let (h, at) = get_elem?-some a.handles a.next_worker s.in_range in
    let small : h.idx < max_workers = s.small a.next_worker h at in
    let (v, e, u) = mark_lem a h.idx false s.valid small in
    let b : IsStuck (passed a v) = passed-IsStuck a h v s at u in
    let (i, g, m) = b.stray in
    let still : available v ≡ true = (available-is_set v u.valid).1 (i, g, m) in
    rw
      (
        next_lem a h at,
        get_available-is_set a.avail h.idx s.valid small,
        s.unmarked a.next_worker h at,
        e,
        set_next_lem (marked a v) (omega (arith, s.in_range)),
      )
      (rw (still, ◌>>=◌) (rec (passed a v) b))

-- If no handle is marked but an index without a handle is, `accept_one` goes round the handles and
-- does not end, whatever the fuel.
pub accept_one_stuck :
    (n : ℕ) (a : Accept) (conn : Conn) → IsStuck a → accept_one n a conn ≡ out_of_fuel
unfolding accept_one
accept_one_stuck zero a conn s = refl
accept_one_stuck (suc n) a conn s = stuck_round n a conn s (λ b t. accept_one_stuck n b conn t)
