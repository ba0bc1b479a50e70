-- ===== src/Server/Signals.antt =====
-- actix-server/src/signals.rs: the signals that stop a server, on Unix. The registration of a signal's
-- handler is a parameter.
use actix_net.Prelude.{
  ℕ, ◌≡◌, refl, ap, subst, List, [], ◌∷◌, Option, none, some, Poll, pending, ready,
}
use actix_net.Prelude.Panics.{Outcome, done}
use actix_net.Prelude.Futures.{Fut, resolved, later, never, poll_fut, then_fut}
use actix_net.Prelude.Tasks.{run, await, Answers, run-await}
use actix_net.Server.Commands.{SignalKind}

-- `OsSignals`: each kind with the next receipt of its signal.
abbrev pub OsSignals : Type 0
OsSignals = List (SignalKind × Fut (Unit {0}))

abbrev pub kept_signal : SignalKind → Option (Fut (Unit {0})) → OsSignals → OsSignals
kept_signal sig none rest = rest
kept_signal sig (some fut) rest = (sig, fut) ∷ rest

-- `OsSignals::new`; a signal that cannot be registered is left out.
unfoldable pub new_os_signals : (SignalKind → Option (Fut (Unit {0}))) → OsSignals
new_os_signals register = kept_signal SignalKind.os_int (register SignalKind.os_int) (
    kept_signal SignalKind.os_term (register SignalKind.os_term)
      (kept_signal SignalKind.os_quit (register SignalKind.os_quit) []))

abbrev pub on_receipt :
    SignalKind
    → OsSignals
    → OsSignals × Poll SignalKind
    → Fut (Unit {0}) × Poll (Unit {0})
    → OsSignals × Poll SignalKind
on_receipt sig rest later_ones (fut, ready x) = ((sig, fut) ∷ rest, ready sig)
on_receipt sig rest (rest', answer) (fut, pending) = ((sig, fut) ∷ rest', answer)

-- `OsSignals::poll`: the first one of the list that has been received.
unfoldable pub poll_os_signals : OsSignals → OsSignals × Poll SignalKind
poll_os_signals [] = ([], pending)
poll_os_signals ((sig, fut) ∷ rest) = on_receipt sig rest (poll_os_signals rest) (poll_fut fut)

-- `StopSignal`.
pub data StopSignal : Type 0 where
  os : OsSignals → StopSignal
  cancel : Fut (Unit {0}) → StopSignal

abbrev pub to_os : OsSignals × Poll SignalKind → Outcome (StopSignal × Poll SignalKind)
to_os (sigs, answer) = done (os sigs, answer)

abbrev pub to_cancel : Fut (Unit {0}) × Poll (Unit {0}) → Outcome (StopSignal × Poll SignalKind)
to_cancel (fut, pending) = done (cancel fut, pending)
to_cancel (fut, ready x) = done (cancel fut, ready SignalKind.cancel)

-- `StopSignal::poll`.
unfoldable pub poll_stop_signal : StopSignal → Outcome (StopSignal × Poll SignalKind)
poll_stop_signal (os sigs) = to_os (poll_os_signals sigs)
poll_stop_signal (cancel fut) = to_cancel (poll_fut fut)

-- Of two futures the one that is ready first, and of both at once the left one.
abbrev pub race {ℓ} : {A : Type ℓ} → Fut A → Fut A → Fut A
race (resolved a) g = resolved a
race (later f) (resolved b) = resolved b
race (later f) (later g) = later (race f g)
race (later f) never = later (race f never)
race never g = g

-- The signal that comes first, as a future.
abbrev pub kind_of : SignalKind → Unit {0} → Fut SignalKind
kind_of sig x = resolved sig

abbrev pub first_signal : OsSignals → Fut SignalKind
first_signal [] = never
first_signal ((sig, fut) ∷ rest) = race (then_fut fut (kind_of sig)) (first_signal rest)

abbrev pub stop_future : StopSignal → Fut SignalKind
stop_future (os sigs) = first_signal sigs
stop_future (cancel fut) = then_fut fut (kind_of SignalKind.cancel)

-- A poll of signals answers as their race does.
abbrev Follows : OsSignals × Poll SignalKind → Fut SignalKind → Type 0
Follows p (resolved sig) = p.1 ≡ ready sig
Follows p (later f) = (p.1 ≡ pending) × (first_signal p.0 ≡ f)
Follows p never = (p.1 ≡ pending) × (first_signal p.0 ≡ never)

on_receipt-Follows :
    (sig : SignalKind) (rest : OsSignals) (fut : Fut (Unit {0})) (p : OsSignals × Poll SignalKind)
    (f : Fut SignalKind)
    → Follows p f
    → Follows (on_receipt sig rest p (poll_fut fut)) (race (then_fut fut (kind_of sig)) f)
on_receipt-Follows sig rest (resolved x) p f h = refl
on_receipt-Follows sig rest (later g) p (resolved b) h = h
on_receipt-Follows sig rest (later g) p (later f) (h, k) =
    (h, ap (race (then_fut g (kind_of sig))) k)
on_receipt-Follows sig rest (later g) p never (h, k) = (h, ap (race (then_fut g (kind_of sig))) k)
on_receipt-Follows sig rest never p (resolved b) h = h
on_receipt-Follows sig rest never p (later f) h = h
on_receipt-Follows sig rest never p never h = h

poll_os_signals-Follows : (sigs : OsSignals) → Follows (poll_os_signals sigs) (first_signal sigs)
unfolding poll_os_signals
poll_os_signals-Follows [] = (refl, refl)
poll_os_signals-Follows ((sig, fut) ∷ rest) =
    on_receipt-Follows sig rest fut (poll_os_signals rest) (first_signal rest)
      (poll_os_signals-Follows rest)

abbrev IsFuture : StopSignal → Fut SignalKind → Type 0
IsFuture s f = stop_future s ≡ f

os-Answers :
    (p : OsSignals × Poll SignalKind) (f : Fut SignalKind)
    → Follows p f
    → Answers poll_stop_signal IsFuture (to_os p) f
os-Answers p (resolved sig) h = (os p.0, ap (λ a. done (os p.0, a)) h)
os-Answers p (later f) (h, k) = (os p.0, ap (λ a. done (os p.0, a)) h, k)
os-Answers p never (h, k) = (os p.0, ap (λ a. done (os p.0, a)) h, k)

cancel-Answers :
    (fut : Fut (Unit {0}))
    → Answers poll_stop_signal IsFuture
        (to_cancel (poll_fut fut))
        (then_fut fut (kind_of SignalKind.cancel))
cancel-Answers (resolved x) = (_, refl)
cancel-Answers (later fut) = (_, refl, refl)
cancel-Answers never = (_, refl, refl)

stop_signal-Answers :
    (s : StopSignal) (f : Fut SignalKind)
    → IsFuture s f
    → Answers poll_stop_signal IsFuture (poll_stop_signal s) f
unfolding poll_stop_signal
stop_signal-Answers (os sigs) f e =
    subst (Answers poll_stop_signal IsFuture (to_os (poll_os_signals sigs))) e
      (os-Answers (poll_os_signals sigs) (first_signal sigs) (poll_os_signals-Follows sigs))
stop_signal-Answers (cancel fut) f e =
    subst (Answers poll_stop_signal IsFuture (to_cancel (poll_fut fut))) e (cancel-Answers fut)

-- Polls of a stop signal answer as a future does: with the signal that is received first, of several
-- at once the interrupt before the termination before the quit, or with the cancellation.
pub run-stop_signal :
    (n : ℕ) (s : StopSignal) → run poll_stop_signal n s ≡ done (await n (stop_future s))
run-stop_signal n s =
    run-await poll_stop_signal IsFuture stop_signal-Answers n s (stop_future s) refl
