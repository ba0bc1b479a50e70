-- ===== src/Server/Accept/Reached.antt =====
-- The states that the accept thread reaches (actix-server/src/accept.rs), from its start through
-- connections, new workers, wake-ups and what workers do to their handles in between.
use actix_net.Prelude.{ℕ, ◌<◌, ◌≡◌, refl, sym, subst, ◌∙◌, ap, List, [], ◌∷◌, All, length, arith}
use actix_net.Prelude.Panics.{Outcome, done, panicked, out_of_fuel, ◌>>=◌}
use actix_net.Server.Availability.{max_workers}
use actix_net.Server.Handle.{Conn, WorkerHandle}
use actix_net.Server.Accept.{
  Accept, WakerInterest, accept_one, on_worker, on_worker_available, new_accept,
}
use actix_net.Server.Accept.Sound.{At, Owned, IsSound}
use actix_net.Server.Accept.Rounds.{enough}
use actix_net.Server.Accept.Dispatch.{Ends, accept_one-Ends}
use actix_net.Server.Accept.Start.{
  IsSmall, new_accept-IsSound, on_worker-IsSound, on_worker_available-IsSound,
}

-- `changed` is what the workers do: their counters, queues and ends.
pub data AcceptAct : Type 0 where
  connected : Conn → AcceptAct
  joined : WorkerHandle → AcceptAct
  freed : ℕ → AcceptAct
  changed : List WorkerHandle → AcceptAct

abbrev pub accept_act : Accept → AcceptAct → Outcome Accept
accept_act a (connected conn) = accept_one (enough (length a.handles)) a conn
accept_act a (joined h) = on_worker a h
accept_act a (freed idx) = on_worker_available a idx
accept_act a (changed hs) = done (record a { handles = hs })

abbrev pub accept_acts : Accept → List AcceptAct → Outcome Accept
accept_acts a [] = done a
accept_acts a (h ∷ hs) = accept_act a h >>= λ b. accept_acts b hs

-- Each handle of the first list has one with its index in the second list.
abbrev pub Covers : List WorkerHandle → List WorkerHandle → Type 0
Covers hs ks = (p : ℕ) (h : WorkerHandle) → At hs p h → Owned ks h.idx

-- A connection comes while there is a worker, a new worker has an index below the maximum, a worker
-- that wakes the thread has a handle, and what workers do keeps their handles' indices.
abbrev pub IsPossible : Accept → AcceptAct → Type 0
IsPossible a (connected conn) = 0 < length a.handles
IsPossible a (joined h) = h.idx < max_workers
IsPossible a (freed idx) = (idx < max_workers) × Owned a.handles idx
IsPossible a (changed hs) =
    (length hs ≡ length a.handles) × Covers a.handles hs × Covers hs a.handles

abbrev pub ArePossible : Accept → List AcceptAct → Type 0
ArePossible a [] = Unit
ArePossible a (h ∷ hs) =
    IsPossible a h × ((b : Accept) → accept_act a h ≡ done b → ArePossible b hs)

changed-IsSound :
    (a : Accept) (hs : List WorkerHandle)
    → IsSound a
    → IsPossible a (changed hs)
    → IsSound (record a { handles = hs })
changed-IsSound a hs s (same, there, back) = record {
  valid = s.valid;
  small = λ p h at.
      let (q, k, at', e) = back p h at in subst (λ i. i < max_workers) e (s.small q k at');
  owned = λ i g m. let (p, h, at, e) = s.owned i g m in subst (Owned hs) e (there p h at);
  in_range = λ l. ground (arith, s.in_range, same, l);
  at_start = λ e. s.at_start (sym same ∙ e);
}

abbrev pub Reaches : Outcome Accept → Type 0
Reaches o = (b : Accept) × (o ≡ done b) × IsSound b

ended-Reaches : (a : Accept) (conn : Conn) (o : Outcome Accept) → Ends a conn o → Reaches o
ended-Reaches a conn (done b) h = (b, refl, h.0)
ended-Reaches a conn panicked h = absurd h
ended-Reaches a conn out_of_fuel h = absurd h

act-Reaches : (a : Accept) (h : AcceptAct) → IsSound a → IsPossible a h → Reaches (accept_act a h)
act-Reaches a (connected conn) s v =
    ended-Reaches a conn _ (accept_one-Ends (enough (length a.handles)) a conn s v (omega arith))
act-Reaches a (joined h) s v = let (b, e, hs, m, t) = on_worker-IsSound a h s v in (b, e, t)
act-Reaches a (freed idx) s (small, o) =
    let (b, e, m, t) = on_worker_available-IsSound a idx s small o in (b, e, t)
act-Reaches a (changed hs) s v = (record a { handles = hs }, refl, changed-IsSound a hs s v)

acts-Reaches :
    (hs : List AcceptAct) (a : Accept) → IsSound a → ArePossible a hs → Reaches (accept_acts a hs)
acts-Reaches [] a s v = (a, refl, s)
acts-Reaches (h ∷ hs) a s (v, vs) =
    let (b, e, t) = act-Reaches a h s v in
    let (c, f, u) = acts-Reaches hs b t (vs b e) in
    (c, ap (λ o. o >>= λ b'. accept_acts b' hs) e ∙ f, u)

-- The accept thread starts over workers with indices below the maximum, and any acts that are
-- possible where they come, connections while there is a worker, new workers, wake-ups by workers that
-- have a handle, and what workers do to their handles, end without a panic in a sound state.
pub new_accept-Reaches :
    (queue : List WakerInterest) (ws : List WorkerHandle) (srv : List ℕ) (hs : List AcceptAct)
    → All IsSmall ws
    → ((a : Accept) → new_accept queue ws srv ≡ done a → ArePossible a hs)
    → Reaches (new_accept queue ws srv >>= λ a. accept_acts a hs)
new_accept-Reaches queue ws srv hs small v =
    let (a, e, f, s) = new_accept-IsSound queue ws srv small in
    let (b, g, t) = acts-Reaches hs a s (v a e) in
    (b, ap (λ o. o >>= λ a'. accept_acts a' hs) e ∙ g, t)
