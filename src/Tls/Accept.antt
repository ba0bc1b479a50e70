-- ===== src/Tls/Accept.antt =====
-- actix-tls/src/accept/mod.rs, and the acceptor of accept/rustls_0_23.rs, whose code those of the other
-- versions of rustls repeat. The handshake and the sleep are parameters; the guard of a handshake is
-- one of the counter's in Local/Guards.antt.
use actix_net.Prelude.{
  ℕ, zero, suc, ◌≡◌, refl, ap, ◌∙◌, Bool, true, false, leb, Result, ok, err, Poll, pending, ready,
  arith,
}
use actix_net.Prelude.Panics.{Outcome, done}
use actix_net.Prelude.Futures.{Fut, poll_fut, after_polls}
use actix_net.Prelude.Tasks.{run, await}
use actix_net.Local.Guards.{CounterInner, inc_guards, has_room}

-- `TlsError`.
pub data TlsError {ℓ κ} (T : Type ℓ) (S : Type κ) : Type (ℓ ⊔ κ) where
  timeout : TlsError T S
  tls : T → TlsError T S
  service : S → TlsError T S

-- `TlsError::into_service_error`, from the error that there is none of.
unfoldable pub into_service_error {ℓ κ} : {T : Type ℓ} {S : Type κ} → TlsError T ⊥ → TlsError T S
into_service_error timeout = timeout
into_service_error (tls e) = tls e
into_service_error (service e) = absurd e

abbrev pub default_tls_handshake_timeout : ℕ
default_tls_handshake_timeout = 3000

-- `AcceptFut`, less its guard.
pub record AcceptFut {ℓ} (S E : Type ℓ) : Type ℓ where
  pub fut : Fut (Result E S)
  pub timeout : Fut (Unit {0})

-- `AcceptorService`; the times are in milliseconds.
pub record AcceptorService (W : Type 0) : Type 0 where
  pub conns : CounterInner W
  pub handshake_timeout : ℕ

abbrev pub room_answer : {E : Type 0} → Bool → Poll (Result E (Unit {0}))
room_answer true = ready (ok tt)
room_answer false = pending

module _ {W : Type 0} where
  -- `Acceptor::new_service`, with the counter of the thread, and `Acceptor::set_handshake_timeout`.
  unfoldable pub new_acceptor : CounterInner W → AcceptorService W
  new_acceptor conns = record { conns = conns; handshake_timeout = default_tls_handshake_timeout }

  unfoldable pub set_handshake_timeout : AcceptorService W → ℕ → AcceptorService W
  set_handshake_timeout a dur = record a { handshake_timeout = dur }

  -- `AcceptorService::poll_ready`.
  unfoldable pub poll_ready_acceptor :
      {E : Type 0}
      → (W → W → Bool)
      → AcceptorService W
      → W
      → AcceptorService W × Poll (Result E (Unit {0}))
  poll_ready_acceptor will_wake a w =
      let (conns, room) = has_room will_wake a.conns w in
      (record a { conns = conns }, room_answer room)

  -- `AcceptorService::call`.
  unfoldable pub call_acceptor :
      {IO S E : Type 0}
      → (IO → Fut (Result E S))
      → (ℕ → Fut (Unit {0}))
      → AcceptorService W
      → IO
      → AcceptorService W × AcceptFut S E
  call_acceptor accept sleep a req = (
    record a { conns = inc_guards a.conns },
    record { fut = accept req; timeout = sleep a.handshake_timeout },
  )

abbrev pub AcceptPoll {ℓ} : (S E : Type ℓ) → Type ℓ
AcceptPoll S E = Outcome (AcceptFut S E × Poll (Result (TlsError E ⊥) S))

module _ {ℓ} {S E : Type ℓ} where
  abbrev pub on_timeout : Fut (Result E S) → Fut (Unit {0}) × Poll (Unit {0}) → AcceptPoll S E
  on_timeout fut (t, pending) = done (record { fut = fut; timeout = t }, pending)
  on_timeout fut (t, ready x) = done (record { fut = fut; timeout = t }, ready (err timeout))

  abbrev pub on_accept : Fut (Unit {0}) → Fut (Result E S) × Poll (Result E S) → AcceptPoll S E
  on_accept t (fut, ready (ok stream)) = done (record { fut = fut; timeout = t }, ready (ok stream))
  on_accept t (fut, ready (err e)) = done (record { fut = fut; timeout = t }, ready (err (tls e)))
  on_accept t (fut, pending) = on_timeout fut (poll_fut t)

  -- `AcceptFut::poll`.
  unfoldable pub poll_accept : AcceptFut S E → AcceptPoll S E
  poll_accept a = on_accept a.timeout (poll_fut a.fut)

  abbrev pub shaken : Result E S → Result (TlsError E ⊥) S
  shaken (ok stream) = ok stream
  shaken (err e) = err (tls e)

  -- The handshake's result, unless the timeout comes first.
  abbrev pub in_time : Bool → ℕ → ℕ → Result E S → Fut (Result (TlsError E ⊥) S)
  in_time true i j r = after_polls i (shaken r)
  in_time false i j r = after_polls j (err timeout)

  later_in_time :
      (b : Bool) (n i j : ℕ) (r : Result E S)
      → await n (in_time b i j r) ≡ await (suc n) (in_time b (suc i) (suc j) r)
  later_in_time true n i j r = refl
  later_in_time false n i j r = refl

  -- When the handshake comes to its result after `i` pending polls, and the timeout after `j`, polls of
  -- the acceptor's future come to the result of the handshake if `i` is at most `j`, and otherwise to
  -- the timeout's error, each at its poll.
  pub run-accept :
      (n i j : ℕ) (r : Result E S)
      → run poll_accept n (record { fut = after_polls i r; timeout = after_polls j tt })
        ≡ done (await n (in_time (leb i j) i j r))
  unfolding poll_accept
  run-accept zero i j r = refl
  run-accept (suc n) zero j (ok s) = let e : leb 0 j ≡ true = ground arith in rw e refl
  run-accept (suc n) zero j (err x) = let e : leb 0 j ≡ true = ground arith in rw e refl
  run-accept (suc n) (suc i) zero r = let e : leb (suc i) 0 ≡ false = ground arith in rw e refl
  run-accept (suc n) (suc i) (suc j) r =
      let e : leb (suc i) (suc j) ≡ leb i j = ground arith in
      rw e (run-accept n i j r ∙ ap done (later_in_time (leb i j) n i j r))
