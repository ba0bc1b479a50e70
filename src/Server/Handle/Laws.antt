-- ===== src/Server/Handle/Laws.antt =====
-- The connection counter of actix-server/src/worker.rs as a number of connections.
use actix_net.Prelude.{ℕ, ◌+◌, ◌-◌, ◌%◌, ◌<◌, ◌≡◌, ◌↔◌, refl, true, false, err, arith}
use actix_net.Server.Handle.{
  usize_mod, Counter, new_counter, inc, dec, total, Conn, WorkerHandle, send,
}

-- The counter stands for `n` connections.
pub record IsLoad (c : Counter) (n : ℕ) : Type 0 where
  pub raw : c.raw ≡ n + 1
  pub fits : n + 2 < usize_mod

pub new_counter-IsLoad : (limit : ℕ) → IsLoad (new_counter limit) 0
unfolding new_counter
new_counter-IsLoad limit = record { raw = refl; fits = omega arith }

-- `inc` counts one more, and says that the worker is full exactly when the limit is reached.
pub inc_lem :
    (c : Counter) (n : ℕ)
    → IsLoad c n
    → n + 3 < usize_mod
    → IsLoad (inc c).0 (n + 1) × ((inc c).0.limit ≡ c.limit) × ((inc c).1 ≡ false ↔ n + 1 ≡ c.limit)
unfolding inc
inc_lem c n l f =
    (record { raw = omega (arith, l.raw); fits = omega arith }, refl, (ground arith, ground arith))

-- `dec` counts one less, and asks for a wake-up exactly when the count was at the limit.
pub dec_lem :
    (c : Counter) (n : ℕ)
    → IsLoad c (n + 1)
    → IsLoad (dec c).0 n × ((dec c).0.limit ≡ c.limit) × ((dec c).1 ≡ true ↔ n + 1 ≡ c.limit)
unfolding dec
dec_lem c n l = (
  record { raw = omega (arith, l.raw); fits = omega (arith, l.fits) },
  refl,
  (ground (arith, l.raw), ground (arith, l.raw, l.fits)),
)

-- The total is the number of connections.
pub total-IsLoad : (c : Counter) (n : ℕ) → IsLoad c n → total c ≡ n
unfolding total
total-IsLoad c n l = omega (arith, l.raw, l.fits)

-- A send to a worker that is gone leaves its count as it was.
pub send_keeps :
    (h : WorkerHandle) (conn : Conn) (n : ℕ)
    → IsLoad h.counter n
    → h.open_rx ≡ false
    → send h conn ≡ (h, err conn)
unfolding send inc dec
send_keeps h conn n l gone =
    let back : ((h.counter.raw + 1) % usize_mod + (usize_mod - 1)) % usize_mod ≡ h.counter.raw =
      omega (arith, l.raw, l.fits) in
    rw (gone, back) refl
