-- ===== src/Server/Handle.antt =====
-- actix-server/src/worker.rs: the connection counter, and the handle by which the accept thread
-- sends connections to a worker. The counter is an `AtomicUsize` of 64 bits, which wraps.
pub mod Laws
use actix_net.Prelude.{
  ℕ, ◌+◌, ◌-◌, ◌%◌, ◌^◌, Bool, true, false, not, ◌&&◌, List, [], ◌∷◌, ◌++◌, ltb, ◌==◌,
  if◌then◌else◌, Result, ok, err,
}

abbrev pub usize_mod : ℕ
usize_mod = 2 ^ 64

-- `raw` is one more than the number of connections.
pub record Counter : Type 0 where
  pub raw : ℕ
  pub limit : ℕ

unfoldable pub new_counter : ℕ → Counter
new_counter limit = record { raw = 1; limit = limit }

-- `fetch_add`; the result tells whether capacity remains.
unfoldable pub inc : Counter → Counter × Bool
inc c = (record c { raw = (c.raw + 1) % usize_mod }, not (c.raw == c.limit))

-- `fetch_sub`; the result tells whether the count drops below the limit. `checked_add` has no
-- value at the largest limit.
unfoldable pub dec : Counter → Counter × Bool
dec c = (
  record c { raw = (c.raw + (usize_mod - 1)) % usize_mod },
  ltb (c.limit + 1) usize_mod && (c.raw == c.limit + 1),
)

-- `Counter::total`, with the wrapping subtraction of a release build.
unfoldable pub total : Counter → ℕ
total c = (c.raw + (usize_mod - 1)) % usize_mod

pub record Conn : Type 0 where
  pub io : ℕ
  pub token : ℕ

-- The handle, with the channel behind `conn_tx`: whether its receiver is alive, and what is queued.
pub record WorkerHandle : Type 0 where
  pub idx : ℕ
  pub counter : Counter
  pub open_rx : Bool
  pub queue : List Conn

-- `WorkerHandleAccept::send`. The connection is counted before it is visible to the worker.
unfoldable pub send : WorkerHandle → Conn → WorkerHandle × Result Conn Bool
unfolding inc dec
send h conn =
    let (counted, more) = inc h.counter in
    if h.open_rx
    then (record h { counter = counted; queue = h.queue ++ conn ∷ [] }, ok more)
    else (record h { counter = (dec counted).0 }, err conn)
