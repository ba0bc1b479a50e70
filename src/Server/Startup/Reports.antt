-- ===== src/Server/Startup/Reports.antt =====
-- The wait of `Accept::start` for the workers (actix-server/src/accept.rs) against a plain description.
use actix_net.Prelude.{
  ℕ, zero, suc, ◌≡◌, refl, Bool, true, false, List, [], ◌∷◌, take, length, ltb, ◌==◌, Option, none,
  some, Result, ok, err, arith, ◌⊎◌, inl, inr, Bool-cases, ==_iff,
}
use actix_net.Server.Startup.{all_but, await_reports}

-- The second list is the first one without the index, in the same order.
abbrev pub IsWithout : ℕ → List ℕ → List ℕ → Type 0
IsWithout idx [] js = js ≡ []
IsWithout idx (i ∷ is) js =
    ((i ≡ idx) × IsWithout idx is js)
    ⊎ ((¬ (i ≡ idx)) × (js' : List ℕ) × (js ≡ i ∷ js') × IsWithout idx is js')

all_but-IsWithout : (idx : ℕ) (is : List ℕ) → IsWithout idx is (all_but idx is)
all_but-IsWithout idx [] = refl
all_but-IsWithout idx (i ∷ is) = elim (Bool-cases (i == idx)) [
  | inl e ↦ rw e (inl ((==_iff i idx).0 e, all_but-IsWithout idx is))
  | inr e ↦ rw e (
      inr
        (λ same. absurd (ground (arith, same, e)), all_but idx is, refl, all_but-IsWithout idx is))
]

module _ {E : Type 0} (exited : E) where
  abbrev pub or_error : ℕ → Result E (Unit {0}) → Option (ℕ × E) → Option (ℕ × E)
  or_error idx (ok x) rest = rest
  or_error idx (err e) rest = some (idx, e)

  abbrev pub first_error : List (ℕ × Result E (Unit {0})) → Option (ℕ × E)
  first_error [] = none
  first_error ((idx, r) ∷ reports) = or_error idx r (first_error reports)

  -- What follows from the first error of the awaited reports, and from whether reports are missing:
  -- the workers that are stopped, and the result.
  abbrev pub IsVerdict : List ℕ → Bool → Option (ℕ × E) → List ℕ × Result E (Unit {0}) → Type 0
  IsVerdict handles missing (some (idx, e)) (stopped, r) =
      IsWithout idx handles stopped × (r ≡ err e)
  IsVerdict handles true none (stopped, r) = (stopped ≡ handles) × (r ≡ err exited)
  IsVerdict handles false none (stopped, r) = (stopped ≡ []) × (r ≡ ok tt)

  -- Of the reports that are awaited, the first error is the result, and every worker but the one that
  -- failed is stopped, in their order; without an error, all the workers are stopped with an error
  -- when a report is missing, and none, with success, when all are there.
  pub await_reports_lem :
      (handles : List ℕ) (awaiting : ℕ) (reports : List (ℕ × Result E (Unit {0})))
      → IsVerdict handles
          (ltb (length reports) awaiting)
          (first_error (take awaiting reports))
          (await_reports exited handles awaiting reports)
  unfolding await_reports
  await_reports_lem handles zero [] = (refl, refl)
  await_reports_lem handles zero (r ∷ rs) =
      let e : ltb (suc (length rs)) 0 ≡ false = ground arith in rw e (refl, refl)
  await_reports_lem handles (suc n) [] =
      let e : ltb 0 (suc n) ≡ true = ground arith in rw e (refl, refl)
  await_reports_lem handles (suc n) ((idx, ok x) ∷ rs) =
      let e : ltb (suc (length rs)) (suc n) ≡ ltb (length rs) n = ground arith in
      rw e (await_reports_lem handles n rs)
  await_reports_lem handles (suc n) ((idx, err x) ∷ rs) = (all_but-IsWithout idx handles, refl)
