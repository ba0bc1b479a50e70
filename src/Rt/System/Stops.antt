-- ===== src/Rt/System/Stops.antt =====
-- What an exit does to the arbiters (actix-rt/src/system.rs): each one that is registered ends.
use actix_net.Prelude.{
  ℕ, ◌≡◌, ◌≢◌, refl, ap, ◌∙◌, sym, subst, Bool, true, false, ◌||◌, ◌&&◌, not, List, [], ◌∷◌, ◌++◌,
  Option, none, some, get_elem?, Bool-cases, inl, inr, ◌⊎◌, if_elim, if_true, if_false, ◌==◌, arith,
  All, ==_self,
}
use actix_net.Prelude.Access.{get_elem?-set, get_elem?-lt}
use actix_net.Rt.Arbiter.{ArbiterRunner, stop, execute, stop_arbiter, poll_runner, spawn}
use actix_net.Rt.Arbiter.Order.{
  Act, spawns, stops, polls, handles_dropped, act, acts, polled, has_stop, has_stop-append,
  poll_commands_lem,
}
use actix_net.Rt.System.{
  SystemCommand, exit, register_arbiter, deregister_arbiter, System, on_command, on_commands,
  remove, stop_at, stop_found, stop_all,
}

module _ {ℓ} {T : Type ℓ} where
  -- An arbiter that has ended, or that will at its next poll.
  abbrev pub IsStopping : ArbiterRunner T → Type 0
  IsStopping r = (r.alive ≡ false) ⊎ (has_stop r.rx ≡ true)

  stop_arbiter-IsStopping : (r : ArbiterRunner T) → IsStopping (stop_arbiter r).0
  unfolding stop_arbiter
  stop_arbiter-IsStopping r =
      if_elim (λ (p : ArbiterRunner T × Bool). IsStopping p.0) r.alive _ _
        (λ e. inr (has_stop-append r.rx (stop ∷ []) ∙ or_true (has_stop r.rx))) (λ e. inl e)
    where
      or_true : (b : Bool) → (b || true) ≡ true
      or_true true = refl
      or_true false = refl

  -- The next poll of a stopping arbiter ends it.
  pub ends_polled : (r : ArbiterRunner T) → IsStopping r → (polled r).alive ≡ false
  unfolding poll_runner
  ends_polled r s =
      if_elim (λ (r' : ArbiterRunner T). r'.alive ≡ false) r.alive _ _
        (λ e. elim s [
          | inl g ↦ absurd (cc (e, g))
          | inr h ↦
              (poll_commands_lem r.rx r.senders r.spawned).1
              ∙ ap (λ b. r.senders && not b) h
              ∙ and_false r.senders
        ])
        (λ e. e)
    where
      and_false : (b : Bool) → (b && false) ≡ false
      and_false true = refl
      and_false false = refl

  -- Further acts on it do not change that.
  act-IsStopping : (r : ArbiterRunner T) (a : Act T) → IsStopping r → IsStopping (act r a)
  unfolding spawn
  act-IsStopping r stops s = stop_arbiter-IsStopping r
  act-IsStopping r handles_dropped s = s
  act-IsStopping r (spawns t) s =
      if_elim (λ (p : ArbiterRunner T × Bool). IsStopping p.0) r.alive _ _
        (λ e. elim s [
          | inl g ↦ absurd (cc (e, g))
          | inr h ↦ inr (has_stop-append r.rx (execute t ∷ []) ∙ ap (λ b. b || false) h)
        ])
        (λ e. inl e)
  act-IsStopping r polls s = inl (ends_polled r s)

  acts-IsStopping :
      (hs : List (Act T)) (r : ArbiterRunner T) → IsStopping r → IsStopping (acts r hs)
  acts-IsStopping [] r s = s
  acts-IsStopping (a ∷ rest) r s = acts-IsStopping rest (act r a) (act-IsStopping r a s)

  -- A property of the arbiter at a place that a stop keeps, is kept by the stops of all.
  abbrev At : (ArbiterRunner T → Type 0) → List (ArbiterRunner T) → ℕ → Type ℓ
  At P rs arb = (r : ArbiterRunner T) × (get_elem? rs arb ≡ some r) × P r

  stop_found-At :
      (P : ArbiterRunner T → Type 0)
      → ((r : ArbiterRunner T) → P r → P (stop_arbiter r).0)
      → (rs : List (ArbiterRunner T)) (i arb : ℕ) (o : Option (ArbiterRunner T))
      → get_elem? rs i ≡ o
      → At P rs arb
      → At P (stop_found rs i o) arb
  stop_found-At P keeps rs i arb none e v = v
  stop_found-At P keeps rs i arb (some q) e (r, at, p) = elim (Bool-cases (arb == i)) [
    | inl same ↦ (
      (stop_arbiter q).0,
      get_elem?-set rs i arb _ (get_elem?-lt rs i e) ∙ if_true (arb == i) _ _ same,
      keeps q (subst P (one rs i arb q r e at same) p),
    )
    | inr other ↦
        (r, get_elem?-set rs i arb _ (get_elem?-lt rs i e) ∙ if_false (arb == i) _ _ other ∙ at, p)
  ]
    where
      one :
          (rs : List (ArbiterRunner T)) (i arb : ℕ) (q r : ArbiterRunner T)
          → get_elem? rs i ≡ some q
          → get_elem? rs arb ≡ some r
          → (arb == i) ≡ true
          → r ≡ q
      one rs i arb q r e at same =
          let eq : arb ≡ i = ground arith in
          let both : some r ≡ some q = sym at ∙ ap (get_elem? rs) eq ∙ e in cc both

  stop_all-At :
      (P : ArbiterRunner T → Type 0)
      → ((r : ArbiterRunner T) → P r → P (stop_arbiter r).0)
      → (arbiters : List (ℕ × ℕ)) (rs : List (ArbiterRunner T)) (arb : ℕ) → At P rs arb
      → At P (stop_all rs arbiters) arb
  unfolding stop_all
  stop_all-At P keeps [] rs arb v = v
  stop_all-At P keeps ((id, i) ∷ rest) rs arb v =
      stop_all-At P keeps rest (stop_at rs i) arb
        (stop_found-At P keeps rs i arb (get_elem? rs i) refl v)

-- The map has an arbiter under an index.
abbrev pub Has : ℕ → ℕ → List (ℕ × ℕ) → Type 0
Has id arb [] = ⊥
Has id arb ((k, a) ∷ rest) = ((k ≡ id) × (a ≡ arb)) ⊎ Has id arb rest

-- A command that does not take the index away.
abbrev pub Keeps : ℕ → SystemCommand → Type 0
Keeps id (exit code) = Unit
Keeps id (register_arbiter k arb) = k ≢ id
Keeps id (deregister_arbiter k) = k ≢ id

remove-Has :
    (id arb k : ℕ) (arbiters : List (ℕ × ℕ))
    → k ≢ id
    → Has id arb arbiters
    → Has id arb (remove k arbiters)
remove-Has id arb k [] ne h = h
remove-Has id arb k ((j, a) ∷ rest) ne (inl (e, f)) =
    if_elim (Has id arb) (j == k) _ _ (λ same. absurd (ne (ground arith))) (λ other. inl (e, f))
remove-Has id arb k ((j, a) ∷ rest) ne (inr h) =
    if_elim (Has id arb) (j == k) _ _ (λ same. remove-Has id arb k rest ne h)
      (λ other. inr (remove-Has id arb k rest ne h))

module _ {ℓ} {T : Type ℓ} where
  abbrev IsPresent : ArbiterRunner T → Type 0
  IsPresent r = Unit

  stop_at-IsStopping :
      (rs : List (ArbiterRunner T)) (arb : ℕ)
      → At IsPresent rs arb
      → At IsStopping (stop_at rs arb) arb
  stop_at-IsStopping rs arb (r, at, p) = (
    (stop_arbiter r).0,
    ap (λ o. get_elem? (stop_found rs arb o) arb) at
        ∙ get_elem?-set rs arb arb _ (get_elem?-lt rs arb at)
        ∙ if_true (arb == arb) _ _ (==_self arb),
    stop_arbiter-IsStopping r,
  )

  stop_all-IsStopping :
      (arbiters : List (ℕ × ℕ)) (rs : List (ArbiterRunner T)) (id arb : ℕ)
      → Has id arb arbiters
      → At IsPresent rs arb
      → At IsStopping (stop_all rs arbiters) arb
  unfolding stop_all
  stop_all-IsStopping [] rs id arb h v = absurd h
  stop_all-IsStopping ((k, a) ∷ rest) rs id arb (inl (e, f)) v =
      stop_all-At IsStopping (λ r s. stop_arbiter-IsStopping r) rest (stop_at rs a) arb
        (subst (λ i. At IsStopping (stop_at rs i) arb) (sym f) (stop_at-IsStopping rs arb v))
  stop_all-IsStopping ((k, a) ∷ rest) rs id arb (inr h) v =
      stop_all-IsStopping rest (stop_at rs a) id arb h
        (stop_found-At IsPresent (λ r s. tt) rs a arb (get_elem? rs a) refl v)

  command-At :
      (P : ArbiterRunner T → Type 0)
      → ((r : ArbiterRunner T) → P r → P (stop_arbiter r).0)
      → (cmd : SystemCommand) (s : System T) (arb : ℕ) → At P s.runners arb
      → At P (on_command s cmd).runners arb
  unfolding on_command
  command-At P keeps (exit code) s arb v =
      if_elim (λ (s' : System T). At P s'.runners arb) s.stop_tx _ _
        (λ e. stop_all-At P keeps s.arbiters s.runners arb v)
        (λ e. stop_all-At P keeps s.arbiters s.runners arb v)
  command-At P keeps (register_arbiter k a) s arb v = v
  command-At P keeps (deregister_arbiter k) s arb v = v

  command-Has :
      (cmd : SystemCommand) (s : System T) (id arb : ℕ)
      → Keeps id cmd
      → Has id arb s.arbiters
      → Has id arb (on_command s cmd).arbiters
  unfolding on_command
  command-Has (exit code) s id arb k h =
      if_elim (λ (s' : System T). Has id arb s'.arbiters) s.stop_tx _ _ (λ e. h) (λ e. h)
  command-Has (register_arbiter j a) s id arb k h = inr (remove-Has id arb j s.arbiters k h)
  command-Has (deregister_arbiter j) s id arb k h = remove-Has id arb j s.arbiters k h

  commands-At :
      (cmds : List SystemCommand) (s : System T) (arb : ℕ)
      → At IsStopping s.runners arb
      → At IsStopping (on_commands s cmds).runners arb
  commands-At [] s arb v = v
  commands-At (cmd ∷ cmds) s arb v =
      commands-At cmds (on_command s cmd) arb
        (command-At IsStopping (λ r h. stop_arbiter-IsStopping r) cmd s arb v)

  exit-IsStopping :
      (s : System T) (id arb code : ℕ)
      → Has id arb s.arbiters
      → At IsPresent s.runners arb
      → At IsStopping (on_command s (exit code)).runners arb
  unfolding on_command
  exit-IsStopping s id arb code h v =
      if_elim (λ (s' : System T). At IsStopping s'.runners arb) s.stop_tx _ _
        (λ e. stop_all-IsStopping s.arbiters s.runners id arb h v)
        (λ e. stop_all-IsStopping s.arbiters s.runners id arb h v)

  until_exit :
      (before : List SystemCommand) (s : System T) (id arb code : ℕ) (after : List SystemCommand)
      → All (Keeps id) before
      → Has id arb s.arbiters
      → At IsPresent s.runners arb
      → At IsStopping (on_commands s (before ++ exit code ∷ after)).runners arb
  until_exit [] s id arb code after k h v =
      commands-At after (on_command s (exit code)) arb (exit-IsStopping s id arb code h v)
  until_exit (cmd ∷ cmds) s id arb code after (k, ks) h v =
      until_exit cmds (on_command s cmd) id arb code after ks (command-Has cmd s id arb k h)
        (command-At IsPresent (λ r p. tt) cmd s arb v)

  -- When the controller takes the registration of an arbiter and then, before the index is registered
  -- again or deregistered, an exit, the arbiter's loop ends: whatever is done to the arbiter
  -- afterwards, it has ended once it is polled.
  pub register-exit :
      (s : System T) (id arb code : ℕ) (between after : List SystemCommand) (r : ArbiterRunner T)
      → get_elem? s.runners arb ≡ some r
      → All (Keeps id) between
      → (r' : ArbiterRunner T) × (get_elem?
            (on_commands s (register_arbiter id arb ∷ between ++ exit code ∷ after)).runners
            arb
          ≡ some r')
        × ((hs : List (Act T)) → (polled (acts r' hs)).alive ≡ false)
  unfolding on_command
  register-exit s id arb code between after r at keeps =
      let (r', at', stopping) =
        until_exit between (on_command s (register_arbiter id arb)) id arb code after keeps
          (inl (refl, refl)) (r, at, tt) in
      (r', at', λ hs. ends_polled (acts r' hs) (acts-IsStopping hs r' stopping))
