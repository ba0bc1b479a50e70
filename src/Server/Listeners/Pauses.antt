-- ===== src/Server/Listeners/Pauses.antt =====
-- Pausing the accept thread (actix-server/src/accept.rs), and the timeouts that pass meanwhile.
use actix_net.Prelude.{
  ℕ, ◌≡◌, refl, ap, Bool, true, false, ◌&&◌, not, List, [], ◌∷◌, Option, none, some, All, arith,
  inl, inr,
}
use actix_net.Server.Accept.{Accept}
use actix_net.Server.Listeners.{
  ServerSocketInfo, retry, retry_all, process_timeout, deregister_logged, deregister_one,
  deregister_all, on_pause,
}
use actix_net.Server.Listeners.Timeouts.{cases_of}

-- A listener that has a deadline is not registered.
abbrev pub IsResting : ServerSocketInfo → Type 0
IsResting info = (inst : ℕ) → info.timeout ≡ some inst → info.registered ≡ false

abbrev pub IsQuiet : ServerSocketInfo → Type 0
IsQuiet info = (info.registered ≡ false) × (info.timeout ≡ none)

and_not : (b c : Bool) → c ≡ true → (b && not c) ≡ false
and_not b c e = ground arith

module _ (releases : ServerSocketInfo → Bool)
    (all_released : (info : ServerSocketInfo) → releases info ≡ true) where
  deregister_one-IsQuiet :
      (info : ServerSocketInfo) → IsResting info → IsQuiet (deregister_one releases info)
  unfolding deregister_one deregister_logged
  deregister_one-IsQuiet info rest = elim (cases_of info.timeout) [
    | inl e ↦ rw e (and_not info.registered _ (all_released (record info { timeout = none })), refl)
    | inr (inst, e) ↦ rw e (rest inst e, refl)
  ]

  deregister_all-IsQuiet :
      (infos : List ServerSocketInfo)
      → All IsResting infos
      → All IsQuiet (deregister_all releases infos)
  unfolding deregister_all
  deregister_all-IsQuiet [] r = tt
  deregister_all-IsQuiet (info ∷ infos) r =
      (deregister_one-IsQuiet info r.0, deregister_all-IsQuiet infos r.1)

module _ (takes : ServerSocketInfo → Bool) where
  retry-quiet :
      (paused : Bool) (now : ℕ) (t : Option ℕ) (info : ServerSocketInfo)
      → info.timeout ≡ none
      → retry takes paused now t info ≡ (t, info)
  unfolding retry
  retry-quiet paused now t info e = rw e refl

  retry_all-IsQuiet :
      (paused : Bool) (now : ℕ) (t : Option ℕ) (infos : List ServerSocketInfo)
      → All IsQuiet infos
      → (retry_all takes paused now t infos).1 ≡ infos
  unfolding retry_all
  retry_all-IsQuiet paused now t [] q = refl
  retry_all-IsQuiet paused now t (info ∷ infos) q =
      rw (retry-quiet paused now t info q.0.1)
        (ap (◌∷◌ info) (retry_all-IsQuiet paused now t infos q.1))

  process_timeout-IsQuiet :
      (now : ℕ) (a : Accept) (infos : List ServerSocketInfo)
      → All IsQuiet infos
      → (process_timeout takes now a infos).1 ≡ infos
  unfolding process_timeout
  process_timeout-IsQuiet now a infos q = elim (cases_of a.timeout) [
    | inl e ↦ rw e refl
    | inr (d, e) ↦ rw e (retry_all-IsQuiet a.paused now none infos q)
  ]

  -- When the accept thread is not paused, no listener with a deadline is registered, and the registry
  -- releases every listener, then a pause leaves the thread paused and every listener unregistered
  -- without a deadline, and `process_timeout` at any later time changes no listener.
  pub on_pause-IsQuiet :
      (releases : ServerSocketInfo → Bool)
      → ((info : ServerSocketInfo) → releases info ≡ true)
      → (later : ℕ) (a : Accept) (sockets : List ServerSocketInfo) → a.paused ≡ false
      → All IsResting sockets
      → ((on_pause releases a sockets).0.paused ≡ true)
        × All IsQuiet (on_pause releases a sockets).1
        × ((process_timeout takes later
              (on_pause releases a sockets).0
              (on_pause releases a sockets).1).1
            ≡ (on_pause releases a sockets).1)
  unfolding on_pause
  on_pause-IsQuiet releases all_released later a sockets running rest =
      let quiet = deregister_all-IsQuiet releases all_released sockets rest in
      rw running (refl, quiet, process_timeout-IsQuiet later (record a { paused = true }) _ quiet)
