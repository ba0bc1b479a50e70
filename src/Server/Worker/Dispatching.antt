-- ===== src/Server/Worker/Dispatching.antt =====
-- The dispatch of a connection to the service of its token (actix-server/src/worker.rs).
use actix_net.Prelude.{
  ℕ, zero, suc, ◌+◌, false, ◌<◌, ◌≡◌, refl, sym, ap, ◌∙◌, true, false, List, [], ◌∷◌, ◌++◌,
  append-nil, some, length, get_elem?, set, All, ◌==◌, if◌then◌else◌, arith, inl, inr, ◌⊎◌,
  Bool-cases, ==_iff,
}
use actix_net.Prelude.Access.{
  length-set, get_elem?-set, get_elem?-some, get_elem?-lt, All-get_elem?, All-set,
}
use actix_net.Prelude.Panics.{done}
use actix_net.Server.Handle.{Conn}
use actix_net.Server.Worker.{WorkerService, ServerWorker}
use actix_net.Server.Worker.Readiness.{IsHealthy, answers_left, answers_of, calls_of, calls_at}
use actix_net.Server.Worker.Polling.{dispatch}
use actix_net.Server.Worker.Serving.{for_token, IsServed, IsFit, tokens-length}

abbrev called : WorkerService → Conn → WorkerService
called s c = record s { service = record (s.service) { calls = s.service.calls ++ c ∷ [] } }

answers_left-set :
    (ss : List WorkerService) (i : ℕ) (s : WorkerService) (c : Conn)
    → get_elem? ss i ≡ some s
    → answers_left (set ss i (called s c)) ≡ answers_left ss
answers_left-set [] i s c e = refl
answers_left-set (x ∷ ss) zero s c e =
    let same : x ≡ s = cc in
    ap (λ (k : WorkerService). length k.service.answers + answers_left ss) (sym same)
answers_left-set (x ∷ ss) (suc i) s c e = omega (arith, answers_left-set ss i s c e)

answers_of-set :
    (ss : List WorkerService) (i : ℕ) (s : WorkerService) (c : Conn)
    → get_elem? ss i ≡ some s
    → answers_of (set ss i (called s c)) ≡ answers_of ss
answers_of-set [] i s c e = refl
answers_of-set (x ∷ ss) zero s c e =
    let same : x ≡ s = cc in
    ap (λ (k : WorkerService). k.service.answers ∷ answers_of ss) (sym same)
answers_of-set (x ∷ ss) (suc i) s c e = ap (◌∷◌ (x.service.answers)) (answers_of-set ss i s c e)

calls_at-set :
    (ss : List WorkerService) (i j : ℕ) (s : WorkerService) (c : Conn)
    → get_elem? ss i ≡ some s
    → c.token ≡ i
    → calls_at (set ss i (called s c)) j ≡ calls_at ss j ++ for_token j (c ∷ [])
calls_at-set ss i j s c e t =
    ap calls_of (get_elem?-set ss i j (called s c) (get_elem?-lt ss i {v = s} e))
    ∙ split (Bool-cases (j == i))
  where
    split :
        ((j == i) ≡ true) ⊎ ((j == i) ≡ false)
        → calls_of (if j == i then some (called s c) else get_elem? ss j)
          ≡ calls_at ss j ++ for_token j (c ∷ [])
    split (inl y) =
        let q : j ≡ i = (==_iff j i).0 y in
        let here : get_elem? ss j ≡ some s = rw q e in
        let mine : (c.token == j) ≡ true = ground arith in rw (y, mine, here) refl
    split (inr n) =
        let other : (c.token == j) ≡ false = ground arith in
        rw (n, other) (sym (append-nil (calls_at ss j)))

dispatch-called :
    (w : ServerWorker) (c : Conn) (s : WorkerService)
    → get_elem? w.services c.token ≡ some s
    → dispatch w c ≡ done (record w { services = set w.services c.token (called s c) })
unfolding dispatch
dispatch-called w c s e = rw e refl

pub dispatch_lem :
    (w : ServerWorker) (c : Conn) (cs : List Conn)
    → IsFit w
    → w.conn_rx ≡ c ∷ cs
    → (w' : ServerWorker) × (dispatch (record w { conn_rx = cs }) c ≡ done w')
      × IsFit w'
      × IsServed 1 w 0 0 w'
      × (w'.conn_rx ≡ cs)
      × (w'.state ≡ w.state)
      × (answers_left w'.services ≡ answers_left w.services)
dispatch_lem w c cs f q =
    let tokens : All (λ (d : Conn). d.token < length w.services) (c ∷ cs) = rw q at f.tokens in
    let (s, e) = get_elem?-some w.services c.token tokens.0 in
    let ss = set w.services c.token (called s c) in
    let same : length ss ≡ length w.services = length-set w.services c.token (called s c) in
    (
      record w { conn_rx = cs; services = ss },
      dispatch-called (record w { conn_rx = cs }) c s e,
      record {
        healthy =
            All-set IsHealthy w.services c.token (called s c) f.healthy
              (All-get_elem? IsHealthy w.services c.token s f.healthy e);
        nonempty = omega (arith, same, f.nonempty);
        tokens = tokens-length _ _ cs same tokens.1;
        unstopped = f.unstopped;
      },
      record {
        served = c ∷ [];
        answered = answers_of-set w.services c.token s c e;
        granted = omega arith;
        queue = q;
        calls = λ j. calls_at-set w.services c.token j s c e refl;
      },
      refl,
      refl,
      answers_left-set w.services c.token s c e,
    )
