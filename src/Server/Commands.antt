-- ===== src/Server/Commands.antt =====
-- actix-server/src/server.rs: the commands of the server. What a command does outside the server is
-- the list of its effects. The answers of workers to a stop, the sleep before the system's stop and
-- the start of a worker are parameters; the accept thread ends when it is joined.
pub mod Stops
mod Tests
use actix_net.Prelude.{
  ℕ, zero, suc, ◌+◌, ◌==◌, ◌≡◌, refl, sym, ap, ◌∙◌, Bool, true, false, not, ◌||◌, List, [], ◌∷◌,
  ◌++◌, map, append_assoc, Option, none, some, Poll, pending, ready, if◌then◌else◌,
}
use actix_net.Prelude.Panics.{Outcome, done, panicked, ◌>>=◌}
use actix_net.Prelude.Futures.{Fut, poll_fut}
use actix_net.Server.Handle.{WorkerHandle}
use actix_net.Server.Accept.{WakerInterest, worker}
use actix_net.Server.Joins.{JoinFuture, join_all, poll_all}

pub data SignalKind : Type 0 where
  cancel os_int os_term os_quit : SignalKind

-- Who is told of the completion is a number.
pub record StopCommand : Type 0 where
  pub graceful : Bool
  pub completion : Option ℕ
  pub force_system_stop : Bool

pub data ServerCommand : Type 0 where
  worker_faulted pause resume : ℕ → ServerCommand
  stop : StopCommand → ServerCommand

-- `stop_tx` names the worker that a stop message reaches.
pub record WorkerHandleServer : Type 0 where
  pub idx : ℕ
  pub stop_tx : ℕ

pub data Effect : Type 0 where
  woke : WakerInterest → Effect
  told_graceful joined_accept stopped_system : Effect
  stopped_worker : ℕ → Bool → Effect
  answered : ℕ → Effect

pub record ServerInner : Type 0 where
  pub worker_handles : List WorkerHandleServer
  pub accept_handle : Bool
  pub system_stop : Bool
  pub stopping : Bool
  pub effects : List Effect

abbrev pub emit : ServerInner → List Effect → ServerInner
emit s es = record s { effects = s.effects ++ es }

-- `ServerInner::map_signal`.
abbrev pub forced_stop : Bool → ServerCommand
forced_stop graceful =
    ServerCommand.stop (record { graceful = graceful; completion = none; force_system_stop = true })

unfoldable pub map_signal : SignalKind → ServerCommand
map_signal cancel = forced_stop true
map_signal os_int = forced_stop false
map_signal os_term = forced_stop true
map_signal os_quit = forced_stop false

abbrev pub any_idx : ℕ → List WorkerHandleServer → Bool
any_idx idx [] = false
any_idx idx (h ∷ hs) = (h.idx == idx) || any_idx idx hs

-- The first handle of an index is written over.
abbrev pub replace_idx : ℕ → WorkerHandleServer → List WorkerHandleServer → List WorkerHandleServer
replace_idx idx new [] = []
replace_idx idx new (h ∷ hs) =
    let rest = replace_idx idx new hs in if h.idx == idx then new ∷ hs else h ∷ rest

abbrev pub restarted : ServerInner → ℕ → Option (WorkerHandle × WorkerHandleServer) → ServerInner
restarted s idx none = s
restarted s idx (some (accept, server)) =
    emit (record s { worker_handles = replace_idx idx server s.worker_handles })
      (woke (worker accept) ∷ [])

-- The start of the arm `ServerCommand::Stop`, up to the wait for the workers.
abbrev pub graceful_notice : Bool → List Effect
graceful_notice true = told_graceful ∷ []
graceful_notice false = []

unfoldable pub begin_stop : ServerInner → StopCommand → ServerInner
begin_stop s c =
    let s1 = emit (record s { stopping = true }) (graceful_notice c.graceful) in
    let s2 = emit s1 (woke WakerInterest.stop ∷ []) in
    emit s2 (map (λ h. stopped_worker h.stop_tx c.graceful) s.worker_handles)

-- The arms of `handle_cmd`, an `async fn`, as what its first poll finds and where it waits.
pub data Handling : Type 0 where
  begun : ServerInner → ServerCommand → Handling
  waiting : List (JoinFuture Bool) → ServerInner → StopCommand → Handling
  sleeping : Fut (Unit {0}) → ServerInner → Handling

abbrev pub HandlingPoll : Type 0
HandlingPoll = Outcome (Handling × Poll ServerInner)

abbrev pub answer_to : Option ℕ → List Effect
answer_to none = []
answer_to (some tx) = answered tx ∷ []

abbrev pub on_slept : ServerInner → Fut (Unit {0}) × Poll (Unit {0}) → HandlingPoll
on_slept s (fut, pending) = done (sleeping fut s, pending)
on_slept s (fut, ready x) =
    let s' = emit s (stopped_system ∷ []) in done (sleeping fut s', ready s')

module _ (stop_answer : ℕ → Fut Bool) (sleep : Fut (Unit {0}))
    (start : ℕ → Option (WorkerHandle × WorkerHandleServer)) where
  -- The arm `ServerCommand::Stop` after the workers.
  unfoldable pub after_workers : ServerInner → StopCommand → HandlingPoll
  after_workers s c =
      if s.accept_handle
      then (let s1 = emit (record s { accept_handle = false }) (joined_accept ∷ []) in
          let s2 = emit s1 (answer_to c.completion) in
          if s2.system_stop || c.force_system_stop
          then on_slept s2 (poll_fut sleep)
          else done (sleeping sleep s2, ready s2))
      else panicked

  abbrev pub on_workers :
      ServerInner → StopCommand → List (JoinFuture Bool) × Poll (List Bool) → HandlingPoll
  on_workers s c (js, pending) = done (waiting js s c, pending)
  on_workers s c (js, ready res) = after_workers s c

  abbrev pub stop_answers : ServerInner → List (Fut Bool)
  stop_answers s = map (λ h. stop_answer h.stop_tx) s.worker_handles

  unfoldable pub on_stop_command : ServerInner → StopCommand → HandlingPoll
  on_stop_command s c =
      if c.graceful
      then (poll_all (join_all (stop_answers s)) >>= on_workers (begin_stop s c) c)
      else after_workers (begin_stop s c) c

  abbrev pub at_once : ServerInner → HandlingPoll
  at_once s = done (sleeping sleep s, ready s)

  -- `ServerInner::handle_cmd`.
  unfoldable pub poll_handling : Handling → HandlingPoll
  poll_handling (begun s (pause tx)) =
      at_once (emit s (woke WakerInterest.pause ∷ answered tx ∷ []))
  poll_handling (begun s (resume tx)) =
      at_once (emit s (woke WakerInterest.resume ∷ answered tx ∷ []))
  poll_handling (begun s (worker_faulted idx)) =
      if any_idx idx s.worker_handles then at_once (restarted s idx (start idx)) else panicked
  poll_handling (begun s (ServerCommand.stop c)) = on_stop_command s c
  poll_handling (waiting js s c) = poll_all js >>= on_workers s c
  poll_handling (sleeping fut s) = on_slept s (poll_fut fut)

-- `ServerInner::drop`.
abbrev pub stop_unless : Bool → List Effect
stop_unless true = []
stop_unless false = woke WakerInterest.stop ∷ []

unfoldable pub drop_server : ServerInner → ServerInner
drop_server s =
    if s.accept_handle
    then emit
        (emit (emit (record s { accept_handle = false }) (stop_unless s.stopping))
          (map (λ h. stopped_worker h.stop_tx false) s.worker_handles))
        (joined_accept ∷ [])
    else s
