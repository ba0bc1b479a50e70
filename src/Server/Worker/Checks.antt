-- ===== src/Server/Worker/Checks.antt =====
-- Successive readiness checks of a worker's services (actix-server/src/worker.rs), by the answers that
-- the services will give.
use actix_net.Prelude.{ℕ, zero, suc, ◌+◌, false, map, ◌≡◌, ap, ◌∙◌, Bool, true, false, List, arith}
use actix_net.Server.Worker.{Answer}
use actix_net.Server.Worker.Readiness.{rest_of, all_ready}

-- The answers that the services will give after a number of checks, and how many of these checks find
-- every service ready.
abbrev pub asked : ℕ → List (List Answer) → List (List Answer)
asked zero answers = answers
asked (suc k) answers = asked k (map rest_of answers)

abbrev pub credit : Bool → ℕ
credit true = 1
credit false = 0

abbrev pub ready_checks : ℕ → List (List Answer) → ℕ
ready_checks zero answers = 0
ready_checks (suc k) answers = credit (all_ready answers) + ready_checks k (map rest_of answers)

pub asked_add :
    (j k : ℕ) (answers : List (List Answer)) → asked (j + k) answers ≡ asked k (asked j answers)
asked_add zero k answers = let none : 0 + k ≡ k = omega arith in ap (λ n. asked n answers) none
asked_add (suc j) k answers =
    let one : suc j + k ≡ suc (j + k) = omega arith in
    ap (λ n. asked n answers) one ∙ asked_add j k (map rest_of answers)

pub ready_checks_add :
    (j k : ℕ) (answers : List (List Answer))
    → ready_checks (j + k) answers ≡ ready_checks j answers + ready_checks k (asked j answers)
ready_checks_add zero k answers =
    let none : 0 + k ≡ k = omega arith in omega (arith, ap (λ n. ready_checks n answers) none)
ready_checks_add (suc j) k answers =
    let one : suc j + k ≡ suc (j + k) = omega arith in
    omega (arith, ap (λ n. ready_checks n answers) one, ready_checks_add j k (map rest_of answers))
