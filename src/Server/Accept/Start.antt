-- ===== src/Server/Accept/Start.antt =====
-- The accept thread's state at the start, and with a worker added (actix-server/src/accept.rs).
use actix_net.Prelude.{
  ℕ, zero, suc, ◌<◌, ◌≡◌, refl, true, false, List, [], ◌∷◌, ◌++◌, map, All, length-append, none,
  length, ◌==◌, arith, Bool-cases, inl, inr, ◌⊎◌, ==_iff,
}
use actix_net.Prelude.Panics.{done}
use actix_net.Server.Availability.{Availability, max_workers}
use actix_net.Server.Availability.Laws.{IsValid, is_set, IsUpdated, set_available-IsUpdated}
use actix_net.Server.Handle.{WorkerHandle}
use actix_net.Server.Accept.{Accept}
use actix_net.Server.Availability.Laws.{default-IsValid, default-is_set}
use actix_net.Server.Accept.{WakerInterest, new_accept, on_worker, on_worker_available}
use actix_net.Server.Accept.Sound.{At, Owned, IsSound, marked, mark_lem}
use actix_net.Server.Availability.{default, set_available_all}

abbrev pub IsSmall : WorkerHandle → Type 0
IsSmall h = h.idx < max_workers

-- Every new mark belongs to a handle.
abbrev MarksOnly : Availability → List WorkerHandle → Availability → Type 0
MarksOnly v hs w = (j : ℕ) → j < max_workers → is_set w j ≡ true → (is_set v j ≡ true) ⊎ Owned hs j

set_available_all-MarksOnly :
    (hs : List WorkerHandle) (v : Availability)
    → IsValid v
    → All IsSmall hs
    → (w : Availability) × (set_available_all v (map (λ h. h.idx) hs) ≡ done w)
      × IsValid w
      × MarksOnly v hs w
unfolding set_available_all
set_available_all-MarksOnly [] v ok_v small = (v, refl, ok_v, λ j g e. inl e)
set_available_all-MarksOnly (h ∷ hs) v ok_v small =
    let (v', e, u) = set_available-IsUpdated v h.idx true ok_v small.0 in
    let (w, f, ok_w, only) = set_available_all-MarksOnly hs v' u.valid small.1 in
    (w, rw e f, ok_w, λ j g m. back v' u j g (only j g m))
  where
    back :
        (v' : Availability)
        → IsUpdated v h.idx true v'
        → (j : ℕ) → j < max_workers
        → (is_set v' j ≡ true) ⊎ Owned hs j
        → (is_set v j ≡ true) ⊎ Owned (h ∷ hs) j
    back v' u j g (inr (p, k, at, same)) = inr (suc p, k, at, same)
    back v' u j g (inl m) = elim (Bool-cases (j == h.idx)) [
      | inl y ↦ inr (0, h, refl, ground arith)
      | inr y ↦ inl (ground (arith, u.marks j g))
    ]

All-At :
    (hs : List WorkerHandle) (p : ℕ) (h : WorkerHandle) → All IsSmall hs → At hs p h → IsSmall h
All-At [] p h a at = absurd (ground arith)
All-At (k ∷ hs) zero h a at = ground (arith, a.0)
All-At (k ∷ hs) (suc p) h a at = All-At hs p h a.1 at

-- With worker indices below the maximum, the accept thread starts in a sound state.
pub new_accept-IsSound :
    (queue : List WakerInterest) (hs : List WorkerHandle) (srv : List ℕ)
    → All IsSmall hs
    → (a : Accept) × (new_accept queue hs srv ≡ done a) × (a.handles ≡ hs) × IsSound a
unfolding new_accept
new_accept-IsSound queue hs srv small =
    let (w, e, ok_w, only) = set_available_all-MarksOnly hs default default-IsValid small in
    (
      started w,
      rw e refl,
      refl,
      record {
        valid = ok_w;
        small = λ p h at. All-At hs p h small at;
        owned = λ i g m. elim (only i g m) [
          | inl y ↦ absurd (ground (arith, default-is_set i g))
          | inr o ↦ o
        ];
        in_range = λ l. l;
        at_start = λ e. refl;
      },
    )
  where
    started : Availability → Accept
    started w = record {
      waker_queue = queue;
      handles = hs;
      srv = srv;
      next_worker = 0;
      next_listener = 0;
      avail = w;
      timeout = none;
      paused = false;
    }

snoc_at : (hs : List WorkerHandle) (k h : WorkerHandle) (p : ℕ) → At hs p h → At (hs ++ k ∷ []) p h
snoc_at [] k h p at = absurd (ground arith)
snoc_at (x ∷ hs) k h zero at = at
snoc_at (x ∷ hs) k h (suc p) at = snoc_at hs k h p at

snoc_last : (hs : List WorkerHandle) (k : WorkerHandle) → At (hs ++ k ∷ []) (length hs) k
snoc_last [] k = refl
snoc_last (x ∷ hs) k = snoc_last hs k

snoc_old :
    (hs : List WorkerHandle) (k h : WorkerHandle) (p : ℕ)
    → At (hs ++ k ∷ []) p h
    → (k ≡ h) ⊎ At hs p h
snoc_old [] k h zero at = inl (ground arith)
snoc_old [] k h (suc p) at = absurd (ground arith)
snoc_old (x ∷ hs) k h zero at = inr at
snoc_old (x ∷ hs) k h (suc p) at = snoc_old hs k h p at

-- A new worker's handle keeps the state sound.
pub on_worker-IsSound :
    (a : Accept) (k : WorkerHandle)
    → IsSound a
    → k.idx < max_workers
    → (b : Accept) × (on_worker a k ≡ done b)
      × (b.handles ≡ a.handles ++ k ∷ [])
      × (is_set b.avail k.idx ≡ true)
      × IsSound b
unfolding on_worker
on_worker-IsSound a k s small =
    let (v, e, u) = mark_lem a k.idx true s.valid small in
    let b = record (marked a v) { handles = a.handles ++ k ∷ [] } in
    (
      b,
      rw e refl,
      refl,
      ground (arith, u.marks k.idx small),
      record {
        valid = u.valid;
        small = λ p h at. elim (snoc_old a.handles k h p at) [
          | inl y ↦ ground arith
          | inr y ↦ s.small p h y
        ];
        owned = λ i g m. elim (Bool-cases (i == k.idx)) [
          | inl y ↦ (length a.handles, k, snoc_last a.handles k, ground arith)
          | inr y ↦
              let (p, h, at, same) = s.owned i g (ground (arith, u.marks i g)) in
              (p, h, snoc_at a.handles k h p at, same)
        ];
        in_range = λ _. ground (arith, length-append a.handles (k ∷ []), s.in_range, s.at_start);
        at_start = λ e. absurd (omega (arith, e, length-append a.handles (k ∷ [])));
      },
    )

-- A wake-up by a worker that still has a handle keeps the state sound, and marks it.
pub on_worker_available-IsSound :
    (a : Accept) (idx : ℕ)
    → IsSound a
    → idx < max_workers
    → Owned a.handles idx
    → (b : Accept) × (on_worker_available a idx ≡ done b) × (is_set b.avail idx ≡ true) × IsSound b
unfolding on_worker_available
on_worker_available-IsSound a idx s small o =
    let (v, e, u) = mark_lem a idx true s.valid small in
    (
      marked a v,
      rw e refl,
      ground (arith, u.marks idx small),
      record {
        valid = u.valid;
        small = s.small;
        owned = λ i g m. elim (Bool-cases (i == idx)) [
          | inl y ↦ rw ((==_iff i idx).0 y) o
          | inr y ↦ s.owned i g (ground (arith, u.marks i g))
        ];
        in_range = s.in_range;
        at_start = s.at_start;
      },
    )
