-- ===== src/Server/Accept/Rounds.antt =====
-- The rounds of `accept_one` (actix-server/src/accept.rs) over the handles: how far a marked one is.
use actix_net.Prelude.{
  ℕ, zero, suc, ◌+◌, ◌-◌, ◌%◌, ◌≤◌, ◌<◌, ◌≡◌, refl, ap, true, false, length, get_elem?, leb, arith,
  Bool-cases, inl, inr, ◌⊎◌,
}
use actix_net.Prelude.Access.{get_elem?-lt}
use actix_net.Server.Availability.{Availability, max_workers, available}
use actix_net.Server.Availability.Laws.{IsValid, is_set, IsUpdated}
use actix_net.Server.Handle.{WorkerHandle}
use actix_net.Server.Accept.{Accept}
use actix_net.Server.Availability.Laws.{available-is_set}
use actix_net.Server.Accept.Sound.{At, IsSound}
use native.Mathlib.Nat.{mod-eq_of_lt, mod_self}
use actix_net.Prelude.{ltb}

-- Fuel for `accept_one` with so many handles: a round to find a marked one, then a removal.
abbrev pub enough : ℕ → ℕ
enough zero = 1
enough (suc m) = suc (suc m) + enough m

enough-gt : (m : ℕ) → m < enough m
enough-gt zero = omega arith
enough-gt (suc m) = omega (arith, enough-gt m)

-- A marked handle lies `d` places ahead of the next worker, round the end of the list.
pub record IsAhead (a : Accept) (d : ℕ) : Type 0 where
  pub place : ℕ
  pub handle : WorkerHandle
  pub at : At a.handles place handle
  pub is_marked : is_set a.avail handle.idx ≡ true
  pub distance : (place ≡ a.next_worker + d) ⊎ (place + length a.handles ≡ a.next_worker + d)

-- There is fuel to reach a marked handle, or none is marked and there is fuel for each handle.
abbrev pub IsReady : Accept → ℕ → Type 0
IsReady a n =
    ((d : ℕ) × IsAhead a d × (suc d + enough (length a.handles - 1) ≤ n))
    ⊎ ((available a.avail ≡ false) × (length a.handles < n))

enough-suc : (m : ℕ) → 0 < m → enough m ≡ suc m + enough (m - 1)
enough-suc zero h = absurd (omega arith)
enough-suc (suc m) h = let e : suc m - 1 ≡ m = omega arith in rw e refl

pub none_marked :
    (a : Accept) (i : ℕ)
    → IsValid a.avail
    → i < max_workers
    → available a.avail ≡ false
    → is_set a.avail i ≡ false
none_marked a i v h e = elim (Bool-cases (is_set a.avail i)) [
  | inl y ↦ absurd (ground (arith, (available-is_set a.avail v).1 (i, h, y)))
  | inr y ↦ y
]

pub ready :
    (a : Accept) (n : ℕ)
    → IsSound a
    → 0 < length a.handles
    → enough (length a.handles) ≤ n
    → IsReady a n
ready a n s l f = elim (Bool-cases (available a.avail)) [
  | inr y ↦ inr (y, omega (arith, enough-gt (length a.handles)))
  | inl y ↦
      let (i, g, e) = (available-is_set a.avail s.valid).0 y in
      let (p, h, at, same) = s.owned i g e in ahead p h at (rw same e)
]
  where
    ahead :
        (p : ℕ) (h : WorkerHandle) → At a.handles p h → is_set a.avail h.idx ≡ true → IsReady a n
    ahead p h at e =
        let lt : p < length a.handles = get_elem?-lt a.handles p {v = h} at in
        elim (Bool-cases (leb a.next_worker p)) [
          | inl y ↦ inl (
            p - a.next_worker,
            record { place = p; handle = h; at = at; is_marked = e; distance = inl (ground arith) },
            ground (arith, enough-suc (length a.handles) l),
          )
          | inr y ↦ inl (
            p + length a.handles - a.next_worker,
            record {
              place = p;
              handle = h;
              at = at;
              is_marked = e;
              distance = inr (ground (arith, s.in_range l));
            },
            ground (arith, enough-suc (length a.handles) l),
          )
        ]

wrap : (i m : ℕ) → i < m → ((i + 1 < m) × ((i + 1) % m ≡ i + 1)) ⊎ ((i + 1 ≡ m) × ((i + 1) % m ≡ 0))
wrap i m h = elim (Bool-cases (ltb (i + 1) m)) [
  | inl y ↦ let lt : i + 1 < m = ground arith in inl (lt, mod-eq_of_lt lt)
  | inr y ↦ let e : i + 1 ≡ m = ground arith in inr (e, rw e (mod_self m))
]

-- What remains after an unmarked handle has been passed over.
abbrev pub passed : Accept → Availability → Accept
passed a v = record a { avail = v; next_worker = (a.next_worker + 1) % length a.handles }

pub passed-IsAhead :
    (a : Accept) (h : WorkerHandle) (v : Availability) (d : ℕ)
    → IsSound a
    → At a.handles a.next_worker h
    → is_set a.avail h.idx ≡ false
    → IsUpdated a.avail h.idx false v
    → IsAhead a d
    → (k : ℕ) × (d ≡ suc k) × IsAhead (passed a v) k
passed-IsAhead a h v zero s at unset u r = elim r.distance [
  | inr y ↦ absurd (omega (arith, get_elem?-lt a.handles a.next_worker {v = h} at))
  | inl y ↦
      let here : r.place ≡ a.next_worker = omega arith in
      absurd (ground (arith, ap (get_elem? a.handles) here))
]
passed-IsAhead a h v (suc d) s at unset u r = (
  d,
  refl,
  record {
    place = r.place;
    handle = r.handle;
    at = r.at;
    is_marked = ground (arith, u.marks r.handle.idx (s.small r.place r.handle r.at));
    distance =
        elim (wrap a.next_worker (length a.handles)
          (get_elem?-lt a.handles a.next_worker {v = h} at)) [
            | inl (g, e) ↦ elim r.distance [
              | inl y ↦ inl (omega (arith, e))
              | inr y ↦ inr (omega (arith, e))
            ]
            | inr (g, e) ↦ elim r.distance [
              | inl y ↦ absurd (omega (arith, get_elem?-lt a.handles r.place {v = r.handle} r.at))
              | inr y ↦ inl (omega (arith, e))
            ]
          ];
  },
)

-- Passing over an unmarked handle marks no other.
pub passed-available :
    (a : Accept) (h : WorkerHandle) (v : Availability)
    → IsSound a
    → IsUpdated a.avail h.idx false v
    → available a.avail ≡ false
    → available v ≡ false
passed-available a h v s u e = elim (Bool-cases (available v)) [
  | inr y ↦ y
  | inl y ↦
      let (i, g, m) = (available-is_set v u.valid).0 y in
      absurd (ground (arith, u.marks i g, none_marked a i s.valid g e))
]
