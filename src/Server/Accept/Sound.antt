-- ===== src/Server/Accept/Sound.antt =====
-- What holds of the accept thread between two calls (actix-server/src/accept.rs), and the steps of
-- `send_connection`.
use actix_net.Prelude.{
  ℕ, suc, ◌+◌, ◌%◌, ◌<◌, ◌≡◌, refl, Bool, true, false, List, [], ◌∷◌, ◌++◌, some, length, get_elem?,
  set, ◌==◌, Result, ok, err, arith, Bool-cases, inl, inr, ◌⊎◌,
}
use actix_net.Prelude.Access.{length-set, get_elem?-set, get_elem?-lt}
use actix_net.Prelude.Panics.{Outcome, done, panicked, out_of_fuel}
use actix_net.Server.Availability.{Availability, max_workers}
use actix_net.Server.Availability.Laws.{IsValid, is_set, IsUpdated, set_available-IsUpdated}
use actix_net.Server.Handle.{Conn, WorkerHandle, inc}
use actix_net.Server.Accept.{Accept, set_next, mark}

-- A handle at a position.
abbrev pub At : List WorkerHandle → ℕ → WorkerHandle → Type 0
At hs p h = get_elem? hs p ≡ some h

-- Some handle has the index.
abbrev pub Owned : List WorkerHandle → ℕ → Type 0
Owned hs i = (p : ℕ) × (h : WorkerHandle) × At hs p h × (h.idx ≡ i)

-- The marks are well formed, every mark belongs to a handle, and the next worker is a handle,
-- or the first place when there is none.
pub record IsSound (a : Accept) : Type 0 where
  pub valid : IsValid a.avail
  pub small : (p : ℕ) (h : WorkerHandle) → At a.handles p h → h.idx < max_workers
  pub owned : (i : ℕ) → i < max_workers → is_set a.avail i ≡ true → Owned a.handles i
  pub in_range : 0 < length a.handles → a.next_worker < length a.handles
  pub at_start : length a.handles ≡ 0 → a.next_worker ≡ 0

-- The handle after a connection has been put in its queue.
abbrev pub with_conn : WorkerHandle → Conn → WorkerHandle
with_conn h conn = record h { counter = (inc h.counter).0; queue = h.queue ++ conn ∷ [] }

-- The connection has gone to a live worker, or there was none.
abbrev pub Delivered : Accept → Conn → Accept → Type 0
Delivered a conn b =
    ((q : ℕ) × (h : WorkerHandle) × (p : ℕ) × At a.handles q h
      × (h.open_rx ≡ true)
      × At b.handles p (with_conn h conn))
    ⊎ ((length b.handles ≡ 0) × ((q : ℕ) (h : WorkerHandle) → At a.handles q h → h.open_rx ≡ false))

-- A dead worker has been removed, and the others are there as before.
pub record IsRemoved (a b : Accept) : Type 0 where
  pub fewer : suc (length b.handles) ≡ length a.handles
  pub some_left : 0 < length b.handles
  pub kept :
      (q : ℕ) (h : WorkerHandle)
      → At a.handles q h
      → (h.open_rx ≡ false) ⊎ ((p : ℕ) × At b.handles p h)
  pub old : (p : ℕ) (h : WorkerHandle) → At b.handles p h → (q : ℕ) × At a.handles q h

abbrev pub SendEnds : Accept → Conn → Outcome (Accept × Result Conn (Unit {0})) → Type 0
SendEnds a conn (done (b, ok x)) = IsSound b × Delivered a conn b
SendEnds a conn (done (b, err c)) = IsSound b × (c ≡ conn) × IsRemoved a b
SendEnds a conn panicked = ⊥
SendEnds a conn out_of_fuel = ⊥

abbrev pub marked : Accept → Availability → Accept
marked a v = record a { avail = v }

pub mark_lem :
    (a : Accept) (i : ℕ) (b : Bool)
    → IsValid a.avail
    → i < max_workers
    → (v : Availability) × (mark a i b ≡ done (marked a v)) × IsUpdated a.avail i b v
unfolding mark
mark_lem a i b valid h =
    let (v, e, u) = set_available-IsUpdated a.avail i b valid h in (v, rw e refl, u)

-- Taking a mark away keeps the state sound.
pub unmark-IsSound :
    (a : Accept) (i : ℕ) (v : Availability)
    → IsSound a
    → IsUpdated a.avail i false v
    → IsSound (marked a v)
unmark-IsSound a i v s u = record {
  valid = u.valid;
  small = s.small;
  owned = λ j h e. s.owned j h (ground (arith, u.marks j h));
  in_range = s.in_range;
  at_start = s.at_start;
}

pub set_next_lem :
    (a : Accept)
    → 0 < length a.handles
    → set_next a ≡ done (record a { next_worker = (a.next_worker + 1) % length a.handles })
unfolding set_next
set_next_lem a h = ground arith

pub next_worker-IsSound :
    (a : Accept) (n : ℕ) → IsSound a → n < length a.handles → IsSound (record a { next_worker = n })
next_worker-IsSound a n s h = record {
  valid = s.valid;
  small = s.small;
  owned = s.owned;
  in_range = λ _. h;
  at_start = λ e. absurd (omega (arith, e, h));
}

-- A handle may be replaced by one of the same index.
abbrev pub put : Accept → WorkerHandle → Accept
put a h = record a { handles = set a.handles a.next_worker h }

pub put-IsSound :
    (a : Accept) (h h' : WorkerHandle)
    → IsSound a
    → At a.handles a.next_worker h
    → h'.idx ≡ h.idx
    → IsSound (put a h')
put-IsSound a h h' s at same = record {
  valid = s.valid;
  small = λ p k e. ground (
    arith,
    get_elem?-set a.handles a.next_worker p h' lt,
    s.small p k,
    s.small a.next_worker h at,
  );
  owned = λ i g e. moved (s.owned i g e);
  in_range = λ _. omega (arith, length-set a.handles a.next_worker h', lt);
  at_start = λ e. absurd (omega (arith, e, length-set a.handles a.next_worker h', lt));
}
  where
    lt : a.next_worker < length a.handles
    lt = get_elem?-lt a.handles a.next_worker {v = h} at

    moved : {i : ℕ} → Owned a.handles i → Owned (set a.handles a.next_worker h') i
    moved {i} (p, k, e, x) = elim (Bool-cases (p == a.next_worker)) [
      | inl y ↦ (p, h', ground (arith, get_elem?-set a.handles a.next_worker p h' lt), ground arith)
      | inr n ↦ (p, k, ground (arith, get_elem?-set a.handles a.next_worker p h' lt), x)
    ]
