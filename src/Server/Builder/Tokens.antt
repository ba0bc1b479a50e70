-- ===== src/Server/Builder/Tokens.antt =====
-- The tokens of the services that are bound to a builder (actix-server/src/builder.rs): any sequence
-- of calls numbers the factories and the sockets alike.
use actix_net.Prelude.{
  ℕ, zero, suc, ◌+◌, ◌≤◌, ◌≡◌, refl, ap, ◌∙◌, List, [], ◌∷◌, ◌++◌, map, Option, Result, ok, err,
  ◌==◌, leb, arith, if_elim, sym,
}
use mathlib.Core.List.{map-append}
use actix_net.Prelude.Results.{◌>>=◌}
use actix_net.Prelude.Panics.{Outcome, done, panicked, out_of_fuel}
use actix_net.Prelude.Futures.{Fut}
use actix_net.Server.Availability.{max_workers}
use actix_net.Server.Sockets.{Net, MpTcp, MioListener, tcp_listener, uds_listener}
use actix_net.Server.Builder.{
  Name, ServerBuilder, StreamNewService, parallelism, default_config, with_default_workers, new,
  workers, worker_max_blocking_threads, set_backlog, set_mptcp, max_concurrent_connections,
  system_exit, disable_signals, set_shutdown_signal, set_shutdown_timeout, next_token,
}
use actix_net.Server.Builder.Binding.{
  push, push_all, bind, listen, listen_uds, bind_uds, bind_addr, removed,
}

-- The numbers below one, in order.
abbrev pub upto : ℕ → List ℕ
upto zero = []
upto (suc n) = upto n ++ n ∷ []

module _ {F A L : Type 0} where
  abbrev pub factory_tokens : ServerBuilder F A L → List ℕ
  factory_tokens b = map (λ (s : StreamNewService F A). s.token) b.factories

  abbrev pub factory_names : ServerBuilder F A L → List Name
  factory_names b = map (λ (s : StreamNewService F A). s.name) b.factories

  abbrev pub socket_tokens : ServerBuilder F A L → List ℕ
  socket_tokens b = map (λ (t : ℕ × Name × MioListener L). t.0) b.sockets

  abbrev pub socket_names : ServerBuilder F A L → List Name
  socket_names b = map (λ (t : ℕ × Name × MioListener L). t.1) b.sockets

-- The i-th factory and the i-th socket have the token i and the same name, and the workers' number
-- and their connections have their bounds.
pub record IsValid {F A L : Type 0} (b : ServerBuilder F A L) : Type 0 where
  pub factories : factory_tokens b ≡ upto b.token
  pub sockets : socket_tokens b ≡ upto b.token
  pub names : factory_names b ≡ socket_names b
  pub some_threads : 1 ≤ b.threads
  pub few_threads : b.threads ≤ max_workers
  pub some_connections : 1 ≤ b.worker_config.max_concurrent_connections

-- The calls that configure a builder.
pub data Call (F A L P E : Type 0) : Type 0 where
  call_workers call_blocking_threads call_backlog call_connections call_timeout : ℕ → Call F A L P E
  call_mptcp : MpTcp → Call F A L P E
  call_exit call_no_signals : Call F A L P E
  call_signal : Fut (Unit {0}) → Call F A L P E
  call_bind : Name → Result E (List A) → F → Call F A L P E
  call_listen call_listen_uds : Name → L → F → Call F A L P E
  call_bind_uds : Name → P → F → Call F A L P E

-- A change that leaves what the invariant reads of the services.
kept :
    {F A L : Type 0} (b b' : ServerBuilder F A L)
    → (b'.factories ≡ b.factories)
    → (b'.sockets ≡ b.sockets)
    → (b'.token ≡ b.token)
    → 1 ≤ b'.threads
    → b'.threads ≤ max_workers
    → 1 ≤ b'.worker_config.max_concurrent_connections
    → IsValid b
    → IsValid b'
kept b b' f s t some few conns v = record {
  factories =
      ap (λ fs. map (λ (x : StreamNewService _ _). x.token) fs) f ∙ v.factories ∙ ap upto (sym t);
  sockets =
      ap (λ ss. map (λ (x : ℕ × Name × MioListener _). x.0) ss) s ∙ v.sockets ∙ ap upto (sym t);
  names =
      ap (λ fs. map (λ (x : StreamNewService _ _). x.name) fs) f
      ∙ v.names
      ∙ sym (ap (λ ss. map (λ (x : ℕ × Name × MioListener _). x.1) ss) s);
  some_threads = some;
  few_threads = few;
  some_connections = conns;
}

module _ {F A L P E : Type 0} (net : Net A L P E) where
  abbrev pub fine : Outcome (ServerBuilder F A L) → Outcome (Result E (ServerBuilder F A L))
  fine (done b) = done (ok b)
  fine panicked = panicked
  fine out_of_fuel = out_of_fuel

  abbrev pub step : ServerBuilder F A L → Call F A L P E → Outcome (Result E (ServerBuilder F A L))
  step b (call_workers n) = fine (workers b n)
  step b (call_blocking_threads n) = done (ok (worker_max_blocking_threads b n))
  step b (call_backlog n) = done (ok (set_backlog b n))
  step b (call_connections n) = fine (max_concurrent_connections b n)
  step b (call_timeout n) = done (ok (set_shutdown_timeout b n))
  step b (call_mptcp pref) = done (ok (set_mptcp b pref))
  step b call_exit = done (ok (system_exit b))
  step b call_no_signals = done (ok (disable_signals b))
  step b (call_signal s) = done (ok (set_shutdown_signal b s))
  step b (call_bind name addrs f) = done (bind net b name addrs f)
  step b (call_listen name lst f) = done (listen net b name lst f)
  step b (call_listen_uds name lst f) = done (listen_uds net b name lst f)
  step b (call_bind_uds name path f) = done (bind_uds net b name path f)

  -- A sequence of calls, up to the first panic or error.
  abbrev pub go_on :
      (ServerBuilder F A L → Outcome (Result E (ServerBuilder F A L)))
      → Outcome (Result E (ServerBuilder F A L))
      → Outcome (Result E (ServerBuilder F A L))
  go_on k (done (ok b)) = k b
  go_on k (done (err e)) = done (err e)
  go_on k panicked = panicked
  go_on k out_of_fuel = out_of_fuel

  abbrev pub steps :
      ServerBuilder F A L → List (Call F A L P E) → Outcome (Result E (ServerBuilder F A L))
  steps b [] = done (ok b)
  steps b (c ∷ cs) = go_on (λ b'. steps b' cs) (step b c)

  -- The builder that a result holds is valid, if it holds one.
  abbrev pub IsFine : Result E (ServerBuilder F A L) → Type 0
  IsFine (ok b) = IsValid b
  IsFine (err e) = Unit

  abbrev pub IsSafe : Outcome (Result E (ServerBuilder F A L)) → Type 0
  IsSafe (done r) = IsFine r
  IsSafe panicked = Unit
  IsSafe out_of_fuel = Unit

  then-IsFine :
      {X : Type 0} (r : Result E X) (k : X → Result E (ServerBuilder F A L))
      → ((x : X) → IsFine (k x))
      → IsFine (r >>= k)
  then-IsFine (ok x) k h = h x
  then-IsFine (err e) k h = tt

  push-IsValid :
      (b : ServerBuilder F A L) (name : Name) (f : F) (addr : A) (lst : MioListener L)
      → IsValid b
      → IsValid (push net b name f addr lst)
  unfolding push next_token
  push-IsValid b name f addr lst v = record {
    factories =
        map-append _ b.factories _ ∙ ap (λ ts. ts ++ b.token ∷ []) v.factories ∙ next b.token;
    sockets = map-append _ b.sockets _ ∙ ap (λ ts. ts ++ b.token ∷ []) v.sockets ∙ next b.token;
    names =
        map-append _ b.factories _
        ∙ ap (λ ns. ns ++ name ∷ []) v.names
        ∙ sym (map-append _ b.sockets _);
    some_threads = v.some_threads;
    few_threads = v.few_threads;
    some_connections = v.some_connections;
  }
    where
      next : (n : ℕ) → upto n ++ n ∷ [] ≡ upto (n + 1)
      next n = let e : n + 1 ≡ suc n = omega arith in rw e refl

  push_all-IsFine :
      (name : Name) (f : F) (ls : List L) (b : ServerBuilder F A L)
      → IsValid b
      → IsFine (push_all net name f b ls)
  unfolding push_all
  push_all-IsFine name f [] b v = v
  push_all-IsFine name f (lst ∷ ls) b v =
      then-IsFine (net.local_addr lst) _
        λ addr. push_all-IsFine name f ls _ (push-IsValid b name f addr (tcp_listener lst) v)

  listen_uds-IsFine :
      (b : ServerBuilder F A L) (name : Name) (lst : L) (f : F)
      → IsValid b
      → IsFine (listen_uds net b name lst f)
  unfolding listen_uds
  listen_uds-IsFine b name lst f v =
      then-IsFine (net.set_nonblocking lst) _
        λ l. push-IsValid b name f net.uds_addr (uds_listener l) v

  workers-IsSafe : (b : ServerBuilder F A L) (n : ℕ) → IsValid b → IsSafe (fine (workers b n))
  unfolding workers
  workers-IsSafe b n v =
      if_elim (λ o. IsSafe (fine o)) (n == 0) _ _ (λ e. tt)
        λ some.
          if_elim (λ o. IsSafe (fine o)) (leb n max_workers) _ _
            (λ few. kept b _ refl refl refl (ground arith) (ground arith) v.some_connections v)
            (λ e. tt)

  max_concurrent_connections-IsSafe :
      (b : ServerBuilder F A L) (n : ℕ) → IsValid b → IsSafe (fine (max_concurrent_connections b n))
  unfolding max_concurrent_connections
  max_concurrent_connections-IsSafe b n v =
      if_elim (λ o. IsSafe (fine o)) (n == 0) _ _ (λ e. tt)
        λ some. kept b _ refl refl refl v.some_threads v.few_threads (ground arith) v

  step-IsSafe : (b : ServerBuilder F A L) (c : Call F A L P E) → IsValid b → IsSafe (step b c)
  unfolding worker_max_blocking_threads set_backlog set_mptcp system_exit disable_signals
      set_shutdown_signal set_shutdown_timeout bind listen bind_uds
  step-IsSafe b (call_workers n) v = workers-IsSafe b n v
  step-IsSafe b (call_blocking_threads n) v =
      kept b _ refl refl refl v.some_threads v.few_threads v.some_connections v
  step-IsSafe b (call_backlog n) v =
      kept b _ refl refl refl v.some_threads v.few_threads v.some_connections v
  step-IsSafe b (call_connections n) v = max_concurrent_connections-IsSafe b n v
  step-IsSafe b (call_timeout n) v =
      kept b _ refl refl refl v.some_threads v.few_threads v.some_connections v
  step-IsSafe b (call_mptcp pref) v =
      kept b _ refl refl refl v.some_threads v.few_threads v.some_connections v
  step-IsSafe b call_exit v =
      kept b _ refl refl refl v.some_threads v.few_threads v.some_connections v
  step-IsSafe b call_no_signals v =
      kept b _ refl refl refl v.some_threads v.few_threads v.some_connections v
  step-IsSafe b (call_signal s) v =
      kept b _ refl refl refl v.some_threads v.few_threads v.some_connections v
  step-IsSafe b (call_bind name addrs f) v =
      then-IsFine (bind_addr net addrs b.backlog b.mptcp) _ λ ls. push_all-IsFine name f ls b v
  step-IsSafe b (call_listen name lst f) v =
      then-IsFine (net.set_nonblocking lst) _
        λ l. then-IsFine (net.local_addr l) _ λ addr. push-IsValid b name f addr (tcp_listener l) v
  step-IsSafe b (call_listen_uds name lst f) v = listen_uds-IsFine b name lst f v
  step-IsSafe b (call_bind_uds name path f) v =
      then-IsFine (removed net (net.remove_file path)) _
        λ gone. then-IsFine (net.bind_unix path) _ λ lst. listen_uds-IsFine b name lst f v

  go_on-IsSafe :
      (k : ServerBuilder F A L → Outcome (Result E (ServerBuilder F A L)))
      (o : Outcome (Result E (ServerBuilder F A L)))
      → ((b : ServerBuilder F A L) → IsValid b → IsSafe (k b))
      → IsSafe o
      → IsSafe (go_on k o)
  go_on-IsSafe k (done (ok b)) h v = h b v
  go_on-IsSafe k (done (err e)) h v = tt
  go_on-IsSafe k panicked h v = tt
  go_on-IsSafe k out_of_fuel h v = tt

  steps-IsSafe :
      (cs : List (Call F A L P E)) (b : ServerBuilder F A L) → IsValid b → IsSafe (steps b cs)
  steps-IsSafe [] b v = v
  steps-IsSafe (c ∷ cs) b v =
      go_on-IsSafe (λ b'. steps b' cs) (step b c) (λ b' w. steps-IsSafe cs b' w) (step-IsSafe b c v)

  -- A builder that any sequence of calls gives, from a new one with at least one detected processor,
  -- numbers its factories and its sockets from zero in the order of their binding, each factory with
  -- the token and the name of its socket; it has between one worker and the maximum, and at least one
  -- connection for each.
  pub steps-new :
      (detected : Option ℕ) (cs : List (Call F A L P E))
      → 1 ≤ parallelism detected
      → IsSafe (steps (new detected) cs)
  unfolding new with_default_workers default_config
  steps-new detected cs some = steps-IsSafe cs _ (record {
    factories = refl;
    sockets = refl;
    names = refl;
    some_threads = ground arith;
    few_threads = ground arith;
    some_connections = ground arith;
  })
