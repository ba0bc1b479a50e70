-- ===== src/Server/Joins.antt =====
-- actix-server/src/join_all.rs: the results of several futures, which are polled together.
use actix_net.Prelude.{
  ℕ, zero, suc, ◌-◌, ◌≡◌, refl, ap, ◌∙◌, max, Bool, true, false, ◌&&◌, List, [], ◌∷◌, map, Option,
  none, some, Poll, pending, ready, ◌==◌, arith, Bool-cases, inl, inr, ==_iff,
}
use actix_net.Prelude.Panics.{Outcome, done, panicked, ◌>>=◌}
use actix_net.Prelude.Futures.{Fut, poll_fut, after_polls}
use actix_net.Prelude.Tasks.{run, await}

pub data JoinFuture {ℓ} (T : Type ℓ) : Type ℓ where
  future : Fut T → JoinFuture T
  result : Option T → JoinFuture T

-- A state of the poll: how many polls a future is still pending, its value, and whether it has been
-- ready already.
abbrev pub Items {ℓ} : Type ℓ → Type ℓ
Items U = List (ℕ × (U × Bool))

module _ {ℓ} {T : Type ℓ} where
  unfoldable pub join_all : List (Fut T) → List (JoinFuture T)
  join_all fs = map future fs

  abbrev pub joined_poll : Fut T × Poll T → JoinFuture T × Bool
  joined_poll (f, pending) = (future f, false)
  joined_poll (f, ready t) = (result (some t), true)

  -- One future's turn: what is left, and whether it is ready.
  abbrev pub poll_one : JoinFuture T → JoinFuture T × Bool
  poll_one (future f) = joined_poll (poll_fut f)
  poll_one (result o) = (result o, true)

  -- The first loop of the poll.
  unfoldable pub poll_each : List (JoinFuture T) → List (JoinFuture T) × Bool
  poll_each [] = ([], true)
  poll_each (j ∷ js) =
      let (j', here) = poll_one j in let (js', rest) = poll_each js in (j' ∷ js', here && rest)

  abbrev pub take_one : Option T → List T → Outcome (List T)
  take_one none res = panicked
  take_one (some t) res = done (t ∷ res)

  -- The second loop: a result is taken, and the `unwrap` panics on one that has been.
  unfoldable pub take_results : List (JoinFuture T) → Outcome (List T)
  take_results [] = done []
  take_results (future f ∷ js) = take_results js
  take_results (result o ∷ js) = take_results js >>= take_one o

  abbrev pub taken : JoinFuture T → JoinFuture T
  taken (future f) = future f
  taken (result o) = result none

  abbrev pub all_polled : List (JoinFuture T) × Bool → Outcome (List (JoinFuture T) × Poll (List T))
  all_polled (js, false) = done (js, pending)
  all_polled (js, true) = take_results js >>= λ res. done (map taken js, ready res)

  unfoldable pub poll_all : List (JoinFuture T) → Outcome (List (JoinFuture T) × Poll (List T))
  poll_all js = all_polled (poll_each js)

  -- What the futures are: each is pending so many times, and then its value.
  abbrev pub delayed : List (ℕ × T) → List (Fut T)
  delayed [] = []
  delayed ((k, t) ∷ ks) = after_polls k t ∷ delayed ks

  abbrev pub latest : List (ℕ × T) → ℕ
  latest [] = 0
  latest ((k, t) ∷ ks) = max k (latest ks)

  abbrev pub values : List (ℕ × T) → List T
  values [] = []
  values ((k, t) ∷ ks) = t ∷ values ks

  abbrev pub state_of : Items T → List (JoinFuture T)
  state_of [] = []
  state_of ((k, (t, false)) ∷ is) = future (after_polls k t) ∷ state_of is
  state_of ((k, (t, true)) ∷ is) = result (some t) ∷ state_of is

  abbrev pub still : Items T → ℕ
  still [] = 0
  still ((k, (t, false)) ∷ is) = max k (still is)
  still ((k, (t, true)) ∷ is) = still is

  abbrev pub items_values : Items T → List T
  items_values [] = []
  items_values ((k, (t, b)) ∷ is) = t ∷ items_values is

  abbrev pub polled : Items T → Items T
  polled [] = []
  polled ((zero, (t, false)) ∷ is) = (zero, (t, true)) ∷ polled is
  polled ((suc k, (t, false)) ∷ is) = (k, (t, false)) ∷ polled is
  polled ((k, (t, true)) ∷ is) = (k, (t, true)) ∷ polled is

  poll_each-polled :
      (is : Items T) → poll_each (state_of is) ≡ (state_of (polled is), still is == 0)
  unfolding poll_each
  poll_each-polled [] = refl
  poll_each-polled ((zero, (t, false)) ∷ is) =
      let none_left : max 0 (still is) ≡ still is = omega arith in
      rw (poll_each-polled is, none_left) refl
  poll_each-polled ((suc k, (t, false)) ∷ is) =
      let some_left : (max (suc k) (still is) == 0) ≡ false = ground arith in
      rw (poll_each-polled is, some_left) refl
  poll_each-polled ((k, (t, true)) ∷ is) = rw (poll_each-polled is) refl

  still-polled : (is : Items T) → still (polled is) ≡ still is - 1
  still-polled [] = omega arith
  still-polled ((zero, (t, false)) ∷ is) = omega (arith, still-polled is)
  still-polled ((suc k, (t, false)) ∷ is) = omega (arith, still-polled is)
  still-polled ((k, (t, true)) ∷ is) = still-polled is

  pub items_values-polled : (is : Items T) → items_values (polled is) ≡ items_values is
  items_values-polled [] = refl
  items_values-polled ((zero, (t, false)) ∷ is) = ap (◌∷◌ t) (items_values-polled is)
  items_values-polled ((suc k, (t, false)) ∷ is) = ap (◌∷◌ t) (items_values-polled is)
  items_values-polled ((k, (t, true)) ∷ is) = ap (◌∷◌ t) (items_values-polled is)

  take_results-polled :
      (is : Items T) → still is ≡ 0 → take_results (state_of (polled is)) ≡ done (items_values is)
  unfolding take_results
  take_results-polled [] e = refl
  take_results-polled ((zero, (t, false)) ∷ is) e = rw (take_results-polled is (omega arith)) refl
  take_results-polled ((suc k, (t, false)) ∷ is) e = absurd (omega arith)
  take_results-polled ((k, (t, true)) ∷ is) e = rw (take_results-polled is e) refl

  run-items :
      (n : ℕ) (is : Items T)
      → run poll_all n (state_of is) ≡ done (await n (after_polls (still is) (items_values is)))
  unfolding poll_all
  run-items zero is = refl
  run-items (suc n) is = elim (Bool-cases (still is == 0)) [
    | inl y ↦
        let e : still is ≡ 0 = (==_iff _ 0).0 y in
        rw (poll_each-polled is, y, take_results-polled is e, e) refl
    | inr more ↦
        let e : still is ≡ suc (still (polled is)) = ground (arith, still-polled is) in
        rw (poll_each-polled is, more, e)
          (run-items n (polled is)
            ∙ ap (λ v. done (await n (after_polls (still (polled is)) v))) (items_values-polled is))
  ]

  -- One poll: ready when nothing is pending any more, and else one poll nearer to it.
  abbrev pub ItemsStep : Items T → ℕ → Type ℓ
  ItemsStep is zero =
      (js : List (JoinFuture T)) × (poll_all (state_of is) ≡ done (js, ready (items_values is)))
  ItemsStep is (suc k) =
      (poll_all (state_of is) ≡ done (state_of (polled is), pending)) × (still (polled is) ≡ k)

  pub poll_all-ItemsStep : (is : Items T) (k : ℕ) → still is ≡ k → ItemsStep is k
  unfolding poll_all
  poll_all-ItemsStep is zero e =
      let y : (still is == 0) ≡ true = ground arith in
      (map taken (state_of (polled is)), rw (poll_each-polled is, y, take_results-polled is e) refl)
  poll_all-ItemsStep is (suc k) e =
      let more : (still is == 0) ≡ false = ground arith in
      (rw (poll_each-polled is, more) refl, omega (arith, still-polled is))

  abbrev pub begun_items : List (ℕ × T) → Items T
  begun_items [] = []
  begun_items ((k, t) ∷ ks) = (k, (t, false)) ∷ begun_items ks

  pub state_of-begun_items :
      (ks : List (ℕ × T)) → state_of (begun_items ks) ≡ map future (delayed ks)
  state_of-begun_items [] = refl
  state_of-begun_items ((k, t) ∷ ks) = ap (◌∷◌ (future (after_polls k t))) (state_of-begun_items ks)

  pub still-begun_items : (ks : List (ℕ × T)) → still (begun_items ks) ≡ latest ks
  still-begun_items [] = refl
  still-begun_items ((k, t) ∷ ks) = ap (max k) (still-begun_items ks)

  items_values-begun_items : (ks : List (ℕ × T)) → items_values (begun_items ks) ≡ values ks
  items_values-begun_items [] = refl
  items_values-begun_items ((k, t) ∷ ks) = ap (◌∷◌ t) (items_values-begun_items ks)

  -- Polls of the joined future, when each of the futures is pending some times: it is ready with the
  -- last of them, with the values in the order of the futures, and does not panic.
  pub run-join_all :
      (n : ℕ) (ks : List (ℕ × T))
      → run poll_all n (join_all (delayed ks))
        ≡ done (await n (after_polls (latest ks) (values ks)))
  unfolding join_all
  run-join_all n ks =
      rw (← state_of-begun_items ks, ← still-begun_items ks, ← items_values-begun_items ks)
        (run-items n (begun_items ks))
