-- ===== src/Server/Worker/Serving.antt =====
-- A worker that serves (actix-server/src/worker.rs): its services are healthy and nobody stops it.
use actix_net.Prelude.{
  ℕ, suc, ◌+◌, ◌≤◌, false, length-append, ◌<◌, ◌≡◌, refl, sym, subst, ap, ◌∙◌, Bool, true, false,
  List, [], ◌∷◌, ◌++◌, append-nil, append_assoc, length, All, ok, pending, ready, ◌==◌,
  if◌then◌else◌, arith, inl, inr, ◌⊎◌,
}
use actix_net.Prelude.Panics.{done, panicked, out_of_fuel}
use actix_net.Server.Handle.{Conn}
use actix_net.Server.Worker.{WorkerService, WorkerState, ServerWorker, check_readiness}
use actix_net.Server.Worker.Readiness.{
  IsHealthy, answers_of, all_ready, calls_at, IsChecked, check_from-IsChecked,
}
use actix_net.Server.Worker.Polling.{Polled}
use actix_net.Server.Worker.Checks.{asked, credit, ready_checks, asked_add, ready_checks_add}

-- The connections of a service.
abbrev pub for_token : ℕ → List Conn → List Conn
for_token i [] = []
for_token i (c ∷ cs) = if c.token == i then c ∷ for_token i cs else for_token i cs

-- In the course of `n` checks a first part of the queue has been dispatched, each connection to its
-- service, in the order of the queue, and no more connections than checks that found every service
-- ready; `c` and `c'` are such checks before and after that no connection has taken.
pub record IsServed (c : ℕ) (w : ServerWorker) (n c' : ℕ) (w' : ServerWorker) : Type 0 where
  pub served : List Conn
  pub answered : answers_of w'.services ≡ asked n (answers_of w.services)
  pub granted : length served + c' ≤ ready_checks n (answers_of w.services) + c
  pub queue : w.conn_rx ≡ served ++ w'.conn_rx
  pub calls : (i : ℕ) → calls_at w'.services i ≡ calls_at w.services i ++ for_token i served

-- Nobody stops the worker, and each of its services is healthy and each connection has one.
pub record IsFit (w : ServerWorker) : Type 0 where
  pub healthy : All IsHealthy w.services
  pub nonempty : 0 < length w.services
  pub tokens : All (λ (c : Conn). c.token < length w.services) w.conn_rx
  pub unstopped : w.stop_rx ≡ []

-- The last check, after `r` others: every service was ready, nothing waits and the worker is
-- available, or one was not and the worker is unavailable.
abbrev pub EndsWith : ServerWorker → ServerWorker → ℕ → Type 0
EndsWith w w' r =
    ((all_ready (asked r (answers_of w.services)) ≡ true)
      × (w'.conn_rx ≡ [])
      × (w'.state ≡ WorkerState.available))
    ⊎ ((all_ready (asked r (answers_of w.services)) ≡ false) × (w'.state ≡ WorkerState.unavailable))

-- The poll ends, pending, after one check or more, and as the last one says.
abbrev pub Serves : ServerWorker → Polled → Type 0
Serves w (done (w', pending)) = IsFit w' × (r : ℕ) × IsServed 0 w (suc r) 0 w' × EndsWith w w' r
Serves w (done (w', ready x)) = ⊥
Serves w panicked = ⊥
Serves w out_of_fuel = ⊥

pub for_token-append :
    (i : ℕ) (xs ys : List Conn) → for_token i (xs ++ ys) ≡ for_token i xs ++ for_token i ys
for_token-append i [] ys = refl
for_token-append i (x ∷ xs) ys = ground (arith, for_token-append i xs ys)

pub IsServed-trans :
    (a b c j k : ℕ) (u v w : ServerWorker)
    → IsServed a u j b v
    → IsServed b v k c w
    → IsServed a u (j + k) c w
IsServed-trans a b c j k u v w p q = record {
  served = p.served ++ q.served;
  answered = q.answered ∙ ap (asked k) p.answered ∙ sym (asked_add j k (answers_of u.services));
  granted =
      let all = ready_checks_add j k (answers_of u.services) in
      let later = ap (ready_checks k) p.answered in
      omega (arith, p.granted, q.granted, all, later, length-append p.served q.served);
  queue =
      p.queue ∙ ap (λ l. p.served ++ l) q.queue ∙ sym (append_assoc p.served q.served w.conn_rx);
  calls = λ i.
      q.calls i
      ∙ ap (λ l. l ++ for_token i q.served) (p.calls i)
      ∙ append_assoc (calls_at u.services i) _ _
      ∙ ap (λ l. calls_at u.services i ++ l) (sym (for_token-append i p.served q.served));
}

EndsWith-after :
    (u v w : ServerWorker) (k r : ℕ) → IsServed 0 u k 0 v → EndsWith v w r → EndsWith u w (k + r)
EndsWith-after u v w k r p e =
    let same : asked r (answers_of v.services) ≡ asked (k + r) (answers_of u.services) =
      ap (asked r) p.answered ∙ sym (asked_add k r (answers_of u.services)) in
    elim e [
      | inl (h, i, l) ↦ inl (ap all_ready (sym same) ∙ h, i, l)
      | inr (h, i) ↦ inr (ap all_ready (sym same) ∙ h, i)
    ]

pub Serves-trans :
    (k : ℕ) (u v : ServerWorker) (o : Polled) → IsServed 0 u k 0 v → Serves v o → Serves u o
Serves-trans k u v (done (w, pending)) p (f, r, s, h) =
    let last : k + suc r ≡ suc (k + r) = omega arith in
    (
      f,
      k + r,
      subst (λ n. IsServed 0 u n 0 w) last (IsServed-trans 0 0 0 k (suc r) u v w p s),
      EndsWith-after u v w k r p h,
    )
Serves-trans k u v (done (w, ready x)) p h = h
Serves-trans k u v panicked p h = h
Serves-trans k u v out_of_fuel p h = h

-- The worker after a check that has changed its services.
abbrev pub with_services : ServerWorker → List WorkerService → ServerWorker
with_services w ss = record w { services = ss }

pub tokens-length :
    (m n : ℕ) (cs : List Conn)
    → m ≡ n
    → All (λ (c : Conn). c.token < n) cs
    → All (λ (c : Conn). c.token < m) cs
tokens-length m n cs e h = rw e h

-- A check finds every service ready for one connection, or for none.
pub checked-IsFit :
    (w : ServerWorker) (ss : List WorkerService) (b : Bool) (st : WorkerState) (c' : ℕ)
    → IsFit w
    → IsChecked w.services ss b
    → c' ≤ credit b
    → IsFit (record w { services = ss; state = st })
      × IsServed 0 w 1 c' (record w { services = ss; state = st })
checked-IsFit w ss b st c' f c l = (
  record {
    healthy = c.healthy;
    nonempty = omega (arith, c.as_many, f.nonempty);
    tokens = tokens-length _ _ w.conn_rx c.as_many f.tokens;
    unstopped = f.unstopped;
  },
  record {
    served = [];
    answered = c.rest;
    granted = omega (arith, l, ap credit c.told);
    queue = refl;
    calls = λ i. c.calls i ∙ sym (append-nil _);
  },
)

pub check_readiness_lem :
    (w : ServerWorker)
    → All IsHealthy w.services
    → (ss : List WorkerService) × (b : Bool) × (check_readiness w ≡ (with_services w ss, ok b))
      × IsChecked w.services ss b
unfolding check_readiness
check_readiness_lem w h =
    let (ss, b, e, c) = check_from-IsChecked 0 w.services h in
    (ss, b, ap (λ r. (with_services w r.0, r.1)) e, c)
