-- ===== src/Server/Worker/Readiness.antt =====
-- `check_readiness` of actix-server/src/worker.rs on services whose readiness does not fail.
use actix_net.Prelude.{
  ℕ, zero, suc, ◌+◌, ◌≤◌, ◌≡◌, refl, ap, Bool, true, ◌&&◌, List, [], ◌∷◌, Option, none, some,
  length, get_elem?, All, Result, ok, err, pending, ready, arith, inl, inr, cases_of, map, sym,
  false, ◌∙◌,
}
use actix_net.Server.Handle.{Conn}
use actix_net.Server.Worker.{
  BoxedService, WorkerService, Answer, is_polled, poll_service, with_answer, check_service,
  check_from,
}

-- An answer that is no error.
abbrev pub IsCalm : Answer → Type 0
IsCalm pending = Unit
IsCalm (ready (ok x)) = Unit
IsCalm (ready (err x)) = ⊥

-- The service is polled for its readiness, which does not fail.
abbrev pub IsHealthy : WorkerService → Type 0
IsHealthy s = (is_polled s.status ≡ true) × All IsCalm s.service.answers

-- The answers that the services will give.
abbrev pub answers_left : List WorkerService → ℕ
answers_left [] = 0
answers_left (s ∷ ss) = length s.service.answers + answers_left ss

-- The answers of each service, one check later, and whether all the next ones are that it is ready; a
-- service that has no answer left is not ready.
abbrev pub answers_of : List WorkerService → List (List Answer)
answers_of ss = map (λ (s : WorkerService). s.service.answers) ss

abbrev pub rest_of : List Answer → List Answer
rest_of [] = []
rest_of (a ∷ rest) = rest

abbrev pub says_ready : List Answer → Bool
says_ready [] = false
says_ready (pending ∷ rest) = false
says_ready (ready (ok x) ∷ rest) = true
says_ready (ready (err x) ∷ rest) = false

abbrev pub all_ready : List (List Answer) → Bool
all_ready [] = true
all_ready (answers ∷ rest) = says_ready answers && all_ready rest

abbrev pub calls_of : Option WorkerService → List Conn
calls_of none = []
calls_of (some s) = s.service.calls

-- The connections that the service at an index was called with.
abbrev pub calls_at : List WorkerService → ℕ → List Conn
calls_at ss i = calls_of (get_elem? ss i)

-- What a check leaves: the calls, healthy services with an answer less each, and fewer answers if all
-- were ready, which each service's next answer tells.
pub record IsChecked (ss ss' : List WorkerService) (b : Bool) : Type 0 where
  pub healthy : All IsHealthy ss'
  pub as_many : length ss' ≡ length ss
  pub calls : (i : ℕ) → calls_at ss' i ≡ calls_at ss i
  pub fewer : answers_left ss' ≤ answers_left ss
  pub used : b ≡ true → answers_left ss' + length ss ≤ answers_left ss
  pub rest : answers_of ss' ≡ map rest_of (answers_of ss)
  pub told : b ≡ all_ready (answers_of ss)

abbrev Checked : WorkerService → WorkerService × Result (Unit {0}) Bool → Type 0
Checked s (s', ok b) =
    IsHealthy s'
    × (s'.service.calls ≡ s.service.calls)
    × (length s'.service.answers ≤ length s.service.answers)
    × (b ≡ true → length s'.service.answers + 1 ≤ length s.service.answers)
    × (s'.service.answers ≡ rest_of s.service.answers)
    × (b ≡ says_ready s.service.answers)
Checked s (s', err x) = ⊥

poll_service-nil : (b : BoxedService) → b.answers ≡ [] → poll_service b ≡ (b, pending)
unfolding poll_service
poll_service-nil b e = rw e refl

pub poll_service-cons :
    (b : BoxedService) (a : Answer) (rest : List Answer)
    → b.answers ≡ a ∷ rest
    → poll_service b ≡ (record b { answers = rest }, a)
unfolding poll_service
poll_service-cons b a rest e = rw e refl

with_answer-Checked :
    (s : WorkerService) (a : Answer) (rest : List Answer)
    → s.service.answers ≡ a ∷ rest
    → All IsCalm (a ∷ rest)
    → Checked s (with_answer s (record (s.service) { answers = rest }) a)
with_answer-Checked s pending rest e h = (
  (refl, h.1),
  refl,
  omega (arith, ap length e),
  λ q. cc,
  sym (ap rest_of e),
  sym (ap says_ready e),
)
with_answer-Checked s (ready (ok x)) rest e h = (
  (refl, h.1),
  refl,
  omega (arith, ap length e),
  λ q. omega (arith, ap length e),
  sym (ap rest_of e),
  sym (ap says_ready e),
)
with_answer-Checked s (ready (err x)) rest e h = h.0

check_service-Checked : (s : WorkerService) → IsHealthy s → Checked s (check_service s)
unfolding check_service
check_service-Checked s (p, h) = elim (cases_of s.service.answers) [
  | inl e ↦
      rw (p, poll_service-nil s.service e)
        ((refl, h), refl, omega arith, λ q. cc, e ∙ sym (ap rest_of e), sym (ap says_ready e))
  | inr (a, rest, e) ↦
      rw (p, poll_service-cons s.service a rest e) (with_answer-Checked s a rest e (rw e at h))
]

check_from-cons :
    (idx : ℕ) (s s' : WorkerService) (ss ss' : List WorkerService) (b b' : Bool)
    → check_service s ≡ (s', ok b)
    → check_from (idx + 1) ss ≡ (ss', ok b')
    → check_from idx (s ∷ ss) ≡ (s' ∷ ss', ok (b && b'))
unfolding check_from
check_from-cons idx s s' ss ss' b b' e e' =
    rw (e, e', check_from) (ap (λ r. (r.0 ∷ ss', ok (b && b'))) e)

-- The check of all services, if none fails: an answer for each, and nothing else changes.
pub check_from-IsChecked :
    (idx : ℕ) (ss : List WorkerService)
    → All IsHealthy ss
    → (ss' : List WorkerService) × (b : Bool) × (check_from idx ss ≡ (ss', ok b))
      × IsChecked ss ss' b
unfolding check_from
check_from-IsChecked idx [] h = (
  [],
  true,
  refl,
  record {
    healthy = tt;
    as_many = refl;
    calls = λ i. refl;
    fewer = omega arith;
    used = λ q. omega arith;
    rest = refl;
    told = refl;
  },
)
check_from-IsChecked idx (s ∷ ss) h =
    with_rest (check_service s) (check_service-Checked s h.0) refl
      (check_from-IsChecked (idx + 1) ss h.1)
  where
    with_rest :
        (r : WorkerService × Result (Unit {0}) Bool)
        → Checked s r
        → check_service s ≡ r
        → (ss' : List WorkerService) × (b : Bool) × (check_from (idx + 1) ss ≡ (ss', ok b))
          × IsChecked ss ss' b
        → (ss' : List WorkerService) × (b : Bool) × (check_from idx (s ∷ ss) ≡ (ss', ok b))
          × IsChecked (s ∷ ss) ss' b
    with_rest (s', err x) k e _ = elim k [ ]
    with_rest (s', ok b) k e (ss', b', e', c) = (
      s' ∷ ss',
      b && b',
      check_from-cons idx s s' ss ss' b b' e e',
      record {
        healthy = (k.0, c.healthy);
        as_many = omega (arith, c.as_many);
        calls = same;
        fewer = omega (arith, k.2, c.fewer);
        used = λ q. ground (arith, k.3, c.used);
        rest = ap (λ xs. xs ∷ answers_of ss') k.4 ∙ ap (◌∷◌ (rest_of s.service.answers)) c.rest;
        told = ap (λ x. x && b') k.5 ∙ ap (λ x. says_ready s.service.answers && x) c.told;
      },
    )
      where
        same : (i : ℕ) → calls_at (s' ∷ ss') i ≡ calls_at (s ∷ ss) i
        same zero = k.1
        same (suc i) = c.calls i
