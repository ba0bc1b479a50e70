-- ===== src/Local/Guards.antt =====
-- actix-utils/src/counter.rs: a count of guards that wakes a task when there is room again. The
-- count is a number without a bound: more guards than `usize` holds would not fit in memory.
use actix_net.Prelude.{
  ℕ, zero, suc, ◌+◌, ◌-◌, ◌≤◌, ◌≡◌, refl, ◌∙◌, Bool, true, false, List, [], ◌∷◌, Option, none, some,
  ltb, ◌==◌, if◌then◌else◌, arith, Bool-cases, inl, inr,
}
use actix_net.Local.Waker.{register, wake}

pub record CounterInner (W : Type 0) : Type 0 where
  pub count : ℕ
  pub capacity : ℕ
  pub task : Option W

-- What the holders of the counter do: take a guard, drop one, ask for room.
pub data Use (W : Type 0) : Type 0 where
  get : Use W
  drop_guard : Use W
  ask : W → Use W

module _ {W : Type 0} where
  unfoldable pub counter : ℕ → CounterInner W
  counter capacity = record { count = 0; capacity = capacity; task = none }

  unfoldable pub inc_guards : CounterInner W → CounterInner W
  inc_guards c = record c { count = c.count + 1 }

  unfoldable pub dec_guards : CounterInner W → CounterInner W × List W
  unfolding wake
  dec_guards c =
      let num = c.count in
      let (task, woken) = wake c.task in
      if num == c.capacity
      then (record c { count = num - 1; task = task }, woken)
      else (record c { count = num - 1 }, [])

  unfoldable pub has_room : (W → W → Bool) → CounterInner W → W → CounterInner W × Bool
  has_room will_wake c w =
      if ltb c.count c.capacity
      then (c, true)
      else (record c { task = (register will_wake c.task w).0 }, false)

  module _ (will_wake : W → W → Bool) where
    unfoldable pub use_counter : CounterInner W → Use W → CounterInner W
    use_counter c get = inc_guards c
    use_counter c drop_guard = (dec_guards c).0
    use_counter c (ask w) = (has_room will_wake c w).0

    unfoldable pub use_all : CounterInner W → List (Use W) → CounterInner W
    use_all c [] = c
    use_all c (u ∷ us) = use_all (use_counter c u) us

  -- The guards that are held after the uses, if no more are dropped than were taken.
  abbrev pub held : ℕ → List (Use W) → Option ℕ
  held n [] = some n
  held n (get ∷ us) = held (n + 1) us
  held zero (drop_guard ∷ us) = none
  held (suc n) (drop_guard ∷ us) = held n us
  held n (ask w ∷ us) = held n us

  -- A task waits only while there is no room.
  abbrev pub IsFair : CounterInner W → Type 0
  IsFair c = (w : W) → c.task ≡ some w → c.capacity ≤ c.count

  dec_guards-IsFair :
      (c : CounterInner W) (n : ℕ)
      → c.count ≡ suc n
      → IsFair c
      → ((dec_guards c).0.count ≡ n) × IsFair (dec_guards c).0
  unfolding dec_guards wake
  dec_guards-IsFair c n e f = elim (Bool-cases (c.count == c.capacity)) [
    | inl y ↦ rw y (omega (arith, e), λ w k. absurd (ground arith))
    | inr y ↦ rw y (omega (arith, e), λ w k. ground (arith, f w k))
  ]

  has_room-IsFair :
      (will_wake : W → W → Bool) (c : CounterInner W) (v : W)
      → IsFair c
      → ((has_room will_wake c v).0.count ≡ c.count) × IsFair (has_room will_wake c v).0
  unfolding has_room
  has_room-IsFair will_wake c v f = elim (Bool-cases (ltb c.count c.capacity)) [
    | inl y ↦ rw y (refl, f)
    | inr y ↦ rw y (refl, λ w k. ground arith)
  ]

  module _ (will_wake : W → W → Bool) where
    use_all-IsFair :
        (us : List (Use W)) (c : CounterInner W) (n m : ℕ)
        → c.count ≡ n
        → IsFair c
        → held n us ≡ some m
        → ((use_all will_wake c us).count ≡ m) × IsFair (use_all will_wake c us)
    unfolding use_all use_counter inc_guards
    use_all-IsFair [] c n m e f h = (ground arith, f)
    use_all-IsFair (get ∷ us) c n m e f h =
        use_all-IsFair us _ (n + 1) m (omega arith) (λ w k. omega (arith, f w k)) h
    use_all-IsFair (drop_guard ∷ us) c zero m e f h = absurd (ground arith)
    use_all-IsFair (drop_guard ∷ us) c (suc n) m e f h =
        let (e', f') = dec_guards-IsFair c n e f in use_all-IsFair us (dec_guards c).0 n m e' f' h
    use_all-IsFair (ask v ∷ us) c n m e f h =
        let (e', f') = has_room-IsFair will_wake c v f in
        use_all-IsFair us (has_room will_wake c v).0 n m (e' ∙ e) f' h

    -- From a new counter, after any uses that drop no more guards than were taken, the count is the
    -- number of guards held, and a task is registered only while the count is at least the capacity.
    pub counter-IsFair :
        (capacity : ℕ) (us : List (Use W)) (m : ℕ)
        → held 0 us ≡ some m
        → ((use_all will_wake (counter capacity) us).count ≡ m)
          × IsFair (use_all will_wake (counter capacity) us)
    unfolding counter
    counter-IsFair capacity us m h = use_all-IsFair us _ 0 m refl (λ w k. absurd (ground arith)) h
