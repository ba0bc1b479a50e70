-- ===== src/Local/Waker.antt =====
-- local-waker/src/lib.rs: a place for the waker of one task. `Waker::will_wake` is a parameter.
use actix_net.Prelude.{
  ◌≡◌, refl, Bool, true, false, List, [], ◌∷◌, Option, none, some, if◌then◌else◌, Bool-cases, inl,
  inr, map,
}

module _ {W : Type 0} where
  -- The waker that is kept, and whether one was there before.
  unfoldable pub register : (W → W → Bool) → Option W → W → Option W × Bool
  register will_wake none w = (some w, false)
  register will_wake (some prev) w = if will_wake w prev then (some prev, true) else (some w, true)

  unfoldable pub take_waker : Option W → Option W × Option W
  take_waker s = (none, s)

  abbrev pub wake_each : Option W → List W
  wake_each none = []
  wake_each (some w) = w ∷ []

  -- The second component is the wakers whose tasks are woken.
  unfoldable pub wake : Option W → Option W × List W
  unfolding take_waker
  wake s = let (rest, w) = take_waker s in (rest, wake_each w)

  module _ {K : Type 0} (task : W → K) (will_wake : W → W → Bool)
      (same_task : (w v : W) → will_wake w v ≡ true → task w ≡ task v) where
    -- After a task has registered, a wake-up reaches this task alone, once: the next one reaches
    -- none, and the place is empty.
    pub wake-register :
        (s : Option W) (w : W)
        → (map task (wake (register will_wake s w).0).1 ≡ task w ∷ [])
          × (wake (wake (register will_wake s w).0).0 ≡ (none, []))
    unfolding register wake
    wake-register none w = (refl, refl)
    wake-register (some prev) w = elim (Bool-cases (will_wake w prev)) [
      | inl y ↦ rw y (rw (same_task w prev y) refl, refl)
      | inr n ↦ rw n (refl, refl)
    ]
