-- ===== src/Server/Listeners/Timeouts.antt =====
-- `process_timeout` of actix-server/src/accept.rs: the listeners whose deadline has passed, and the rest.
use actix_net.Prelude.{
  ℕ, ◌+◌, ◌-◌, ◌≤◌, ◌≡◌, refl, Bool, true, false, ◌||◌, List, [], ◌∷◌, Option, none, some, ltb, All,
  arith, Bool-cases, inl, inr, ◌⊎◌,
}
use actix_net.Server.Accept.{Accept}
use actix_net.Server.Listeners.{
  ServerSocketInfo, set_timeout, register_logged, retry, retry_all, process_timeout,
}

-- A listener is registered or has a deadline.
abbrev pub IsKept : ServerSocketInfo → Type 0
IsKept info = (info.registered ≡ true) ⊎ ((inst : ℕ) × (info.timeout ≡ some inst))

-- The next poll ends no later than at the listener's deadline.
abbrev pub IsDue : ℕ → Option ℕ → ServerSocketInfo → Type 0
IsDue now t info = (inst : ℕ) → info.timeout ≡ some inst → (d : ℕ) × (t ≡ some d) × (now + d ≤ inst)

-- The second timeout is no later.
abbrev IsSooner : Option ℕ → Option ℕ → Type 0
IsSooner t t' = (d : ℕ) → t ≡ some d → (e : ℕ) × (t' ≡ some e) × (e ≤ d)

set_timeout-le :
    (t : Option ℕ) (d : ℕ)
    → ((e : ℕ) × (set_timeout t d ≡ some e) × (e ≤ d)) × IsSooner t (set_timeout t d)
unfolding set_timeout
set_timeout-le none d = ((d, refl, omega arith), λ x k. absurd (ground arith))
set_timeout-le (some t) d = elim (Bool-cases (ltb d t)) [
  | inl y ↦ rw y ((d, refl, omega arith), λ x k. (d, refl, ground arith))
  | inr n ↦ rw n ((t, refl, ground arith), λ x k. (t, refl, ground arith))
]

or_true : (b : Bool) → (b || true) ≡ true
or_true true = refl
or_true false = refl

pub cases_of : {A : Type 0} (x : Option A) → (x ≡ none) ⊎ ((a : A) × (x ≡ some a))
cases_of none = inl refl
cases_of (some a) = inr (a, refl)

module _ (takes : ServerSocketInfo → Bool)
    (all_taken : (info : ServerSocketInfo) → takes info ≡ true) where
  abbrev Retried : ℕ → Option ℕ → Option ℕ × ServerSocketInfo → Type 0
  Retried now t (t', info) = IsSooner t t' × IsKept info × IsDue now t' info

  retry-Retried :
      (now : ℕ) (t : Option ℕ) (info : ServerSocketInfo)
      → IsKept info
      → Retried now t (retry takes false now t info)
  unfolding retry register_logged
  retry-Retried now t info k = elim (cases_of info.timeout) [
    | inl e ↦ rw e (
      λ d q. (d, q, omega arith),
      elim k [ inl r ↦ inl r | inr (i, x) ↦ absurd (ground arith) ],
      λ i x. absurd (ground arith),
    )
    | inr (inst, e) ↦ elim (Bool-cases (ltb now inst)) [
      | inl y ↦
          let ((d, q, le), sooner) = set_timeout-le t (inst - now) in
          rw (e, y) (sooner, inr (inst, refl), λ i x. (d, q, ground arith))
      | inr n ↦
          rw (e, n)
            (
              λ d q. (d, q, omega arith),
              inl (rw (all_taken (record info { timeout = none })) (or_true info.registered)),
              λ i x. absurd (ground arith),
            )
    ]
  ]

  abbrev AllRetried : ℕ → Option ℕ → Option ℕ × List ServerSocketInfo → Type 0
  AllRetried now t (t', infos) = IsSooner t t' × All IsKept infos × All (IsDue now t') infos

  retry_all-AllRetried :
      (now : ℕ) (t : Option ℕ) (infos : List ServerSocketInfo)
      → All IsKept infos
      → AllRetried now t (retry_all takes false now t infos)
  unfolding retry_all
  retry_all-AllRetried now t [] k = (λ d q. (d, q, omega arith), tt, tt)
  retry_all-AllRetried now t (info ∷ infos) k =
      let (s, kept, due) = retry-Retried now t info k.0 in
      let (s', kept', due') = retry_all-AllRetried now (retry takes false now t info).0 infos k.1 in
      (
        λ d q.
            let (x, e, le) = s d q in let (y, e', le') = s' x e in (y, e', omega (arith, le, le')),
        (kept, kept'),
        (
          λ i q.
              let (d, e, le) = due i q in
              let (y, e', le') = s' d e in (y, e', omega (arith, le, le')),
          due',
        ),
      )

  -- When the server is not paused, the registry takes every listener, and each listener is registered
  -- or has a deadline, then `process_timeout` with a timeout set leaves each listener registered or
  -- with a deadline, and the next poll ends no later than at any deadline.
  pub process_timeout-IsDue :
      (now : ℕ) (a : Accept) (d : ℕ) (sockets : List ServerSocketInfo)
      → a.paused ≡ false
      → a.timeout ≡ some d
      → All IsKept sockets
      → All IsKept (process_timeout takes now a sockets).1
        × All
            (IsDue now (process_timeout takes now a sockets).0.timeout)
            (process_timeout takes now a sockets).1
  unfolding process_timeout
  process_timeout-IsDue now a d sockets running set k =
      let r = retry_all-AllRetried now none sockets k in rw (set, running) (r.1, r.2)
