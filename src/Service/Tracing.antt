-- ===== src/Service/Tracing.antt =====
-- actix-tracing/src/lib.rs: a service whose calls run in a span. A future in a span is a parameter; by
-- its documentation it answers as the future does.
use actix_net.Prelude.{ℕ, zero, suc, ◌≡◌, refl, ap, ◌∙◌, Option, none, some, Result, ok, Poll}
use actix_net.Prelude.Panics.{Outcome, done}
use actix_net.Prelude.Futures.{Fut, resolved, later, never, poll_fut}
use actix_net.Prelude.Tasks.{run, await, await-never}
use actix_net.Local.Futures.{Either, left, right, poll_either, run-left, run-right}
use actix_net.Service.{Service, ServiceFactory, Transform}
use actix_net.Service.Applied.Transformed.{ApplyTransform, apply}

-- `TracingService`.
pub record TracingService {ℓ} (S Req Span : Type ℓ) : Type ℓ where
  pub inner : S
  pub make_span : Req → Option Span

module _ {ℓ} {S Req A E Span : Type ℓ} (a : Service S Req A E)
    (instrument : Span → Fut (Result E A) → Fut (Result E A)) where
  abbrev pub in_span : Option Span → Fut (Result E A) → Either (Fut (Result E A)) (Fut (Result E A))
  in_span none fut = left fut
  in_span (some span) fut = right (instrument span fut)

  -- `TracingService::poll_ready` and `TracingService::call`.
  unfoldable pub poll_ready_traced :
      TracingService S Req Span → TracingService S Req Span × Poll (Result E (Unit {0}))
  poll_ready_traced t = let (s, answer) = a.poll_ready t.inner in (record t { inner = s }, answer)

  unfoldable pub call_traced :
      TracingService S Req Span
      → Req
      → TracingService S Req Span × Either (Fut (Result E A)) (Fut (Result E A))
  call_traced t req =
      let (s, fut) = a.call t.inner req in (record t { inner = s }, in_span (t.make_span req) fut)

  abbrev pub poll_plain : Fut (Result E A) → Outcome (Fut (Result E A) × Poll (Result E A))
  poll_plain fut = done (poll_fut fut)

  run-plain : (n : ℕ) (fut : Fut (Result E A)) → run poll_plain n fut ≡ done (await n fut)
  run-plain zero fut = refl
  run-plain (suc n) (resolved r) = refl
  run-plain (suc n) (later fut) = run-plain n fut
  run-plain (suc n) never = run-plain n never ∙ ap done (await-never n)

  run-in_span :
      ((span : Span) (fut : Fut (Result E A)) → instrument span fut ≡ fut)
      → (n : ℕ) (o : Option Span) (fut : Fut (Result E A))
      → run (poll_either poll_plain poll_plain) n (in_span o fut) ≡ done (await n fut)
  run-in_span same n none fut = run-left poll_plain poll_plain n fut ∙ run-plain n fut
  run-in_span same n (some span) fut =
      run-right poll_plain poll_plain n (instrument span fut)
      ∙ run-plain n (instrument span fut)
      ∙ ap (λ f. done (await n f)) (same span fut)

  -- When a future in a span answers as the future does, polls of a call of the traced service answer
  -- as the service's own future, with a span and without.
  pub run-call_traced :
      ((span : Span) (fut : Fut (Result E A)) → instrument span fut ≡ fut)
      → (n : ℕ) (t : TracingService S Req Span) (req : Req)
      → run (poll_either poll_plain poll_plain) n (call_traced t req).1
        ≡ done (await n (a.call t.inner req).1)
  unfolding call_traced
  run-call_traced same n t req = run-in_span same n (t.make_span req) (a.call t.inner req).1

module _ {ℓ} {S Req Span I : Type ℓ} where
  -- `TracingTransform::new_transform`.
  unfoldable pub tracing_transform : (Req → Option Span) → Transform S (TracingService S Req Span) I
  tracing_transform make_span = record {
    new_transform = λ service. resolved (ok (record { inner = service; make_span = make_span }));
  }

  -- `trace`.
  unfoldable pub trace :
      {Cfg : Type ℓ}
      → ServiceFactory Cfg S I
      → (Req → Option Span)
      → ApplyTransform Cfg S (TracingService S Req Span) I
  unfolding tracing_transform
  trace service_factory make_span = apply (tracing_transform make_span) service_factory
