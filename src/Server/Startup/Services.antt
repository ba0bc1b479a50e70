-- ===== src/Server/Startup/Services.antt =====
-- The start of a worker for a valid builder (actix-server/src/worker.rs): its services stand in the
-- order of their tokens, so the assertion on tokens holds.
use actix_net.Prelude.{
  ℕ, zero, suc, ◌+◌, ◌≡◌, refl, ap, sym, subst, ◌∙◌, List, [], ◌∷◌, ◌++◌, append_assoc, append-nil,
  map, Option, none, some, Result, ok, length, arith, ◌==◌, ==_self, if_true,
}
use actix_net.Prelude.Panics.{done, ◌>>=◌}
use actix_net.Prelude.Futures.{Fut, resolved, later, never, then_fut}
use actix_net.Server.Worker.{WorkerService, BoxedService}
use actix_net.Server.Builder.{StreamNewService, ServerBuilder}
use actix_net.Server.Builder.Tokens.{IsValid, upto, factory_tokens}
use actix_net.Server.Startup.{
  create_service, create_from, create_services, wrap_from, wrap_worker_services, new_service_of,
}

-- What a future comes to when it is polled long enough.
abbrev pub value {ℓ} : {A : Type ℓ} → Fut A → Option A
value (resolved a) = some a
value (later f) = value f
value never = none

value-then_fut {ℓ κ} :
    {A : Type ℓ} {B : Type κ} (f : Fut A) (k : A → Fut B) (a : A)
    → value f ≡ some a
    → value (then_fut f k) ≡ value (k a)
value-then_fut (resolved b) k a e = let same : b ≡ a = cc e in ap (λ x. value (k x)) same
value-then_fut (later f) k a e = value-then_fut f k a e
value-then_fut never k a e = absurd (cc e)

-- The numbers from one on.
abbrev counted : ℕ → ℕ → List ℕ
counted k zero = []
counted k (suc n) = k ∷ counted (k + 1) n

counted-last : (k n : ℕ) → counted k n ++ (k + n) ∷ [] ≡ counted k (suc n)
counted-last k zero = let e : k + 0 ≡ k = omega arith in rw e refl
counted-last k (suc n) =
    let e : k + suc n ≡ (k + 1) + n = omega arith in rw e (ap (◌∷◌ k) (counted-last (k + 1) n))

counted-upto : (n : ℕ) → upto n ≡ counted 0 n
counted-upto zero = refl
counted-upto (suc n) =
    let e : 0 + n ≡ n = omega arith in
    ap (λ xs. xs ++ n ∷ []) (counted-upto n)
    ∙ subst (λ m. counted 0 n ++ m ∷ [] ≡ counted 0 (suc n)) e (counted-last 0 n)

-- Each factory's future comes to a service.
abbrev pub Creates :
    {F A I : Type 0}
    → (F → Fut (Result I BoxedService))
    → List (StreamNewService F A)
    → List BoxedService
    → Type 0
Creates new_service [] [] = Unit
Creates new_service [] (s ∷ ss) = ⊥
Creates new_service (f ∷ fs) [] = ⊥
Creates new_service (f ∷ fs) (s ∷ ss) =
    (value (new_service f.inner) ≡ some (ok s)) × Creates new_service fs ss

-- The services with their positions, which are their factories' and their tokens too.
abbrev pub numbered : ℕ → List BoxedService → List (ℕ × ℕ × BoxedService)
numbered idx [] = []
numbered idx (s ∷ ss) = (idx, idx, s) ∷ numbered (idx + 1) ss

module _ {F A I : Type 0} (new_service : F → Fut (Result I BoxedService)) where
  create_from_lem :
      (fs : List (StreamNewService F A)) (ss : List BoxedService) (idx : ℕ)
      (acc : List (ℕ × ℕ × BoxedService))
      → map (λ (f : StreamNewService F A). f.token) fs ≡ counted idx (length fs)
      → Creates new_service fs ss
      → value (create_from new_service idx acc fs) ≡ some (ok (acc ++ numbered idx ss))
  unfolding create_from create_service
  create_from_lem [] [] idx acc t c = rw (append-nil acc) refl
  create_from_lem [] (s ∷ ss) idx acc t c = absurd c
  create_from_lem (f ∷ fs) [] idx acc t c = absurd c
  create_from_lem (f ∷ fs) (s ∷ ss) idx acc t (e, c) =
      let token : f.token ≡ idx = cc t in
      let rest : map (λ (g : StreamNewService F A). g.token) fs ≡ counted (idx + 1) (length fs) =
        cc t in
      let made : value (create_service new_service f) ≡ some (ok (idx, s)) =
        value-then_fut (new_service f.inner) _ (ok s) e ∙ ap (λ n. some (ok (n, s))) token in
      value-then_fut (create_service new_service f) _ (ok (idx, s)) made
      ∙ create_from_lem fs ss (idx + 1) (acc ++ (idx, idx, s) ∷ []) rest c
      ∙ ap (λ xs. some (ok xs)) (append_assoc acc ((idx, idx, s) ∷ []) (numbered (idx + 1) ss))

length-counted : (k n : ℕ) → length (counted k n) ≡ n
length-counted k zero = refl
length-counted k (suc n) = ap suc (length-counted (k + 1) n)

length-map {ℓ κ} :
    {A : Type ℓ} {B : Type κ} (f : A → B) (xs : List A) → length (map f xs) ≡ length xs
length-map f [] = refl
length-map f (x ∷ xs) = ap suc (length-map f xs)

all_counted :
    {F A : Type 0} (fs : List (StreamNewService F A)) (n : ℕ)
    → map (λ (f : StreamNewService F A). f.token) fs ≡ counted 0 n
    → map (λ (f : StreamNewService F A). f.token) fs ≡ counted 0 (length fs)
all_counted fs n e =
    let same : n ≡ length fs = sym (length-counted 0 n) ∙ ap length (sym e) ∙ length-map _ fs in
    e ∙ ap (counted 0) same

Creates-length :
    {F A I : Type 0} (new_service : F → Fut (Result I BoxedService))
    (fs : List (StreamNewService F A)) (ss : List BoxedService)
    → Creates new_service fs ss
    → length fs ≡ length ss
Creates-length new_service [] [] c = refl
Creates-length new_service [] (s ∷ ss) c = absurd c
Creates-length new_service (f ∷ fs) [] c = absurd c
Creates-length new_service (f ∷ fs) (s ∷ ss) (e, c) = ap suc (Creates-length new_service fs ss c)

wrap_from_lem :
    (ss : List BoxedService) (idx : ℕ)
    → (ws : List WorkerService) × (wrap_from idx (numbered idx ss) ≡ done ws)
      × (map (λ (w : WorkerService). w.service) ws ≡ ss)
      × (map (λ (w : WorkerService). w.factory_idx) ws ≡ counted idx (length ss))
unfolding wrap_from
wrap_from_lem [] idx = ([], refl, refl, refl)
wrap_from_lem (s ∷ ss) idx =
    let (ws, e, f, g) = wrap_from_lem ss (idx + 1) in
    (
      new_service_of idx s ∷ ws,
      if_true (idx == idx) _ _ (==_self idx)
          ∙ ap (λ o. o >>= λ vs. done (new_service_of idx s ∷ vs)) e,
      ap (◌∷◌ s) f,
      ap (◌∷◌ idx) g,
    )

-- When each factory of a valid builder comes to a service, the creation of the worker's services comes
-- to them all, and `wrap_worker_services` does not panic: the worker has the services in the order of
-- the factories, each with the index of its factory, which is its token.
pub wrap-create_services :
    {F A L I : Type 0} (new_service : F → Fut (Result I BoxedService)) (b : ServerBuilder F A L)
    (ss : List BoxedService)
    → IsValid b
    → Creates new_service b.factories ss
    → (created : List (ℕ × ℕ × BoxedService)) × (ws : List WorkerService) × (value
          (create_services new_service b.factories)
        ≡ some (ok created))
      × (wrap_worker_services created ≡ done ws)
      × (map (λ (w : WorkerService). w.service) ws ≡ ss)
      × (map (λ (w : WorkerService). w.factory_idx) ws ≡ factory_tokens b)
unfolding create_services wrap_worker_services
wrap-create_services new_service b ss v c =
    let (ws, e, f, g) = wrap_from_lem ss 0 in
    let t = all_counted b.factories b.token (v.factories ∙ counted-upto b.token) in
    (
      numbered 0 ss,
      ws,
      create_from_lem new_service b.factories ss 0 [] t c,
      e,
      f,
      g ∙ ap (counted 0) (sym (Creates-length new_service b.factories ss c)) ∙ sym t,
    )
