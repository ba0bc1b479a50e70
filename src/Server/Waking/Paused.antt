-- ===== src/Server/Waking/Paused.antt =====
-- The waker queue of an accept thread that is paused (actix-server/src/accept.rs).
use actix_net.Prelude.{
  ℕ, ◌<◌, ◌≡◌, refl, ap, sym, ◌∙◌, ◌==◌, Bool, true, false, ◌||◌, List, [], ◌∷◌, ◌++◌, append-nil,
  append_assoc, All, if◌then◌else◌, if_true,
}
use actix_net.Prelude.Panics.{Outcome, done, panicked, out_of_fuel}
use actix_net.Server.Availability.{max_workers}
use actix_net.Server.Availability.Laws.{IsValid, is_set, set_available-IsUpdated}
use actix_net.Server.Handle.{WorkerHandle}
use actix_net.Server.Accept.{
  WakerInterest, worker_available, worker, pause, resume, stop, Accept, mark, on_worker_available,
  on_worker,
}
use actix_net.Server.Listeners.{ServerSocketInfo, on_pause, deregister_all}
use actix_net.Server.Waking.{
  AcceptThread, with_thread, on_pause_interest, accept_all, unless_paused, drain, handle_waker,
}

-- The interests of a queue without a resume, with indices of workers that can be.
abbrev pub IsCalm : WakerInterest → Type 0
IsCalm (worker_available idx) = idx < max_workers
IsCalm pause = Unit
IsCalm resume = ⊥
IsCalm stop = Unit
IsCalm (worker h) = h.idx < max_workers

abbrev pub has_stop : List WakerInterest → Bool
has_stop [] = false
has_stop (stop ∷ q) = true
has_stop (worker_available idx ∷ q) = has_stop q
has_stop (pause ∷ q) = has_stop q
has_stop (resume ∷ q) = has_stop q
has_stop (worker h ∷ q) = has_stop q

-- The new workers, up to a stop.
abbrev pub new_workers : List WakerInterest → List WorkerHandle
new_workers [] = []
new_workers (stop ∷ q) = []
new_workers (worker_available idx ∷ q) = new_workers q
new_workers (pause ∷ q) = new_workers q
new_workers (resume ∷ q) = new_workers q
new_workers (worker h ∷ q) = h ∷ new_workers q

-- Whether an interest before a stop names the index.
abbrev pub names : ℕ → List WakerInterest → Bool
names j [] = false
names j (stop ∷ q) = false
names j (worker_available idx ∷ q) = (j == idx) || names j q
names j (pause ∷ q) = names j q
names j (resume ∷ q) = names j q
names j (worker h ∷ q) = (j == h.idx) || names j q

-- Nothing is accepted and no listener touched; new workers are added, and the named ones marked.
pub record IsResting (t t' : AcceptThread) (q : List WakerInterest) : Type 0 where
  pub sockets : t'.sockets ≡ t.sockets
  pub arrivals : t'.arrivals ≡ t.arrivals
  pub paused : t'.thread.paused ≡ true
  pub handles : t'.thread.handles ≡ t.thread.handles ++ new_workers q
  pub marks :
      (j : ℕ) → j < max_workers → is_set t'.thread.avail j ≡ (is_set t.thread.avail j || names j q)

abbrev pub Rests : AcceptThread → List WakerInterest → Outcome (AcceptThread × Bool) → Type 0
Rests t q (done (t', exit)) = (exit ≡ has_stop q) × IsResting t t' q
Rests t q panicked = ⊥
Rests t q out_of_fuel = ⊥

-- The thread after one interest: workers added, and indices marked.
record IsStep (t u : AcceptThread) (hs : List WorkerHandle) (named : ℕ → Bool) : Type 0 where
  sockets : u.sockets ≡ t.sockets
  arrivals : u.arrivals ≡ t.arrivals
  handles : u.thread.handles ≡ t.thread.handles ++ hs
  marks : (j : ℕ) → j < max_workers → is_set u.thread.avail j ≡ (is_set t.thread.avail j || named j)

or_assoc : (a b c : Bool) → ((a || b) || c) ≡ (a || (b || c))
or_assoc true b c = refl
or_assoc false b c = refl

or_false : (a : Bool) → (a || false) ≡ a
or_false true = refl
or_false false = refl

marked : (same a : Bool) → (if same then true else a) ≡ (a || same)
marked true true = refl
marked true false = refl
marked false true = refl
marked false false = refl

-- One interest, and then the rest of the queue.
Rests-step :
    (t u : AcceptThread) (q q' : List WakerInterest) (hs : List WorkerHandle) (named : ℕ → Bool)
    → IsStep t u hs named
    → has_stop q' ≡ has_stop q
    → new_workers q' ≡ hs ++ new_workers q
    → ((j : ℕ) → names j q' ≡ (named j || names j q))
    → (o : Outcome (AcceptThread × Bool)) → Rests u q o
    → Rests t q' o
Rests-step t u q q' hs named s e h n (done (v, exit)) (x, r) = (
  x ∙ sym e,
  record {
    sockets = r.sockets ∙ s.sockets;
    arrivals = r.arrivals ∙ s.arrivals;
    paused = r.paused;
    handles =
        r.handles
        ∙ ap (λ l. l ++ new_workers q) s.handles
        ∙ append_assoc t.thread.handles hs (new_workers q)
        ∙ ap (λ l. t.thread.handles ++ l) (sym h);
    marks = λ j l.
        r.marks j l
        ∙ ap (λ b. b || names j q) (s.marks j l)
        ∙ or_assoc _ (named j) (names j q)
        ∙ ap (λ b. is_set t.thread.avail j || b) (sym (n j));
  },
)
Rests-step t u q q' hs named s e h n panicked r = r
Rests-step t u q q' hs named s e h n out_of_fuel r = r

on_pause-paused :
    (releases : ServerSocketInfo → Bool) (t : AcceptThread)
    → t.thread.paused ≡ true
    → on_pause_interest releases t ≡ t
unfolding on_pause
on_pause-paused releases t p =
    ap (λ (r : Accept × List ServerSocketInfo). record t { thread = r.0; sockets = r.1 })
      (if_true t.thread.paused _ _ p)

module _ (takes releases : ServerSocketInfo → Bool) (fuel now : ℕ) where
  unless_paused-paused :
      (t : AcceptThread) → t.thread.paused ≡ true → unless_paused takes releases fuel now t ≡ done t
  unless_paused-paused t p =
      if_true t.thread.paused (done t) (accept_all takes releases fuel now t) p

  drain-Rests :
      (q : List WakerInterest) (t : AcceptThread)
      → t.thread.paused ≡ true
      → IsValid t.thread.avail
      → All IsCalm q
      → Rests t q (drain takes releases fuel now q t)
  unfolding drain mark on_worker_available on_worker
  drain-Rests [] t p v c = (
    refl,
    record {
      sockets = refl;
      arrivals = refl;
      paused = p;
      handles = sym (append-nil _);
      marks = λ j l. sym (or_false _);
    },
  )
  drain-Rests (worker_available idx ∷ q) t p v (l, c) =
      let (a', e, u) = set_available-IsUpdated t.thread.avail idx true v l in
      let t' : AcceptThread = with_thread t (record (t.thread) { waker_queue = q; avail = a' }) in
      rw (e, unless_paused-paused t' p)
        (Rests-step t t' q (worker_available idx ∷ q) [] (λ j. j == idx)
          (record {
            sockets = refl;
            arrivals = refl;
            handles = sym (append-nil _);
            marks = λ j m. u.marks j m ∙ marked (j == idx) _;
          })
          refl refl (λ j. refl) _ (drain-Rests q t' p u.valid c))
  drain-Rests (pause ∷ q) t p v (l, c) =
      let u = with_thread t (record (t.thread) { waker_queue = q }) in
      rw (on_pause-paused releases u p) (
        Rests-step t u q (pause ∷ q) [] (λ j. false)
          (record {
            sockets = refl;
            arrivals = refl;
            handles = sym (append-nil _);
            marks = λ j m. sym (or_false _);
          })
          refl refl (λ j. refl) _ (drain-Rests q u p v c))
  drain-Rests (resume ∷ q) t p v (l, c) = absurd l
  drain-Rests (stop ∷ q) t p v (l, c) =
      let u = with_thread t (record (t.thread) { waker_queue = q }) in
      rw (if_true t.thread.paused u (record u { sockets = deregister_all releases t.sockets }) p) (
        refl,
        record {
          sockets = refl;
          arrivals = refl;
          paused = p;
          handles = sym (append-nil _);
          marks = λ j l. sym (or_false _);
        },
      )
  drain-Rests (worker h ∷ q) t p v (l, c) =
      let (a', e, u) = set_available-IsUpdated t.thread.avail h.idx true v l in
      let t' : AcceptThread =
        with_thread t (record (t.thread) {
          waker_queue = q;
          avail = a';
          handles = t.thread.handles ++ h ∷ [];
        }) in
      rw (e, unless_paused-paused t' p)
        (Rests-step t t' q (worker h ∷ q) (h ∷ []) (λ j. j == h.idx)
          (record {
            sockets = refl;
            arrivals = refl;
            handles = refl;
            marks = λ j m. u.marks j m ∙ marked (j == h.idx) _;
          })
          refl refl (λ j. refl) _ (drain-Rests q t' p u.valid c))

  -- While the accept thread is paused, and nobody resumes it, it handles the waker queue without a
  -- panic, if the words of its marks are valid and the indices below the maximum: nothing is accepted
  -- and no listener touched, the workers that come before a stop are added in their order, the
  -- indices named before it are marked, and the thread ends exactly at a stop.
  pub handle_waker-Rests :
      (t : AcceptThread)
      → t.thread.paused ≡ true
      → IsValid t.thread.avail
      → All IsCalm t.thread.waker_queue
      → Rests t t.thread.waker_queue (handle_waker takes releases fuel now t)
  unfolding handle_waker
  handle_waker-Rests t p v c = drain-Rests t.thread.waker_queue t p v c
