-- ===== src/Server/Waking/Tests.antt =====
-- Runs of the accept thread's waker queue (actix-server/src/accept.rs) at concrete inputs.
use actix_net.Prelude.{◌≡◌, refl, true, false, List, [], ◌∷◌, none, arith, Bool, map}
use actix_net.Prelude.Panics.{Outcome, done, panicked, out_of_fuel}
use actix_net.Server.Availability.{
  default, set_available, set_bit, offset, available, any_nonzero, get_bit, get_available,
}
use actix_net.Server.Availability.Laws.{default-IsValid}
use actix_net.Server.Handle.{Conn, WorkerHandle, send, inc}
use actix_net.Server.Accept.{
  worker_available, worker, pause, resume, stop, mark, next, set_next, send_connection, accept_one,
  after_sent, on_worker,
}
use actix_net.Server.Listeners.{ServerSocketInfo, register_logged}
use actix_net.Server.Waking.{
  AcceptThread, connects, handle_waker, drain, on_resume, accept_all, accept, accept_loop,
}
use actix_net.Server.Waking.Paused.{Rests, handle_waker-Rests}

abbrev handle : WorkerHandle
handle = record { idx = 3; counter = record { raw = 1; limit = 2 }; open_rx = true; queue = [] }

abbrev listener : ServerSocketInfo
listener = record { token = 0; timeout = none; registered = false }

-- Paused, with a new worker, a worker that is available again, and a stop in the queue.
abbrev paused_thread : AcceptThread
paused_thread = record {
  thread = record {
    waker_queue = worker handle ∷ worker_available 1 ∷ pause ∷ stop ∷ [];
    handles = [];
    srv = [];
    next_worker = 0;
    next_listener = 0;
    avail = default;
    timeout = none;
    paused = true;
  };
  sockets = listener ∷ [];
  arrivals = (connects 7 ∷ []) ∷ [];
}

handle_waker-Rests_example :
    Rests paused_thread paused_thread.thread.waker_queue
      (handle_waker (λ info. true) (λ info. true) 9 0 paused_thread)
handle_waker-Rests_example =
    handle_waker-Rests (λ info. true) (λ info. true) 9 0 paused_thread refl default-IsValid
      (omega arith, (omega arith, (tt, (tt, tt))))

-- The same thread, resumed with a worker that is available: the connection that waits goes to it.
abbrev resumed_thread : AcceptThread
resumed_thread = record paused_thread {
  thread = record (paused_thread.thread) { waker_queue = worker handle ∷ resume ∷ [] };
}

abbrev sent_to : Outcome (AcceptThread × Bool) → List (List Conn)
sent_to (done (t, exit)) = map (λ h. h.queue) t.thread.handles
sent_to panicked = []
sent_to out_of_fuel = []

handle_waker_test :
    sent_to (handle_waker (λ info. true) (λ info. true) 9 0 resumed_thread)
    ≡ (record { io = 7; token = 0 } ∷ []) ∷ []
unfolding handle_waker drain mark on_worker set_available offset set_bit available any_nonzero
    get_available get_bit next set_next send_connection accept_one after_sent send inc on_resume
    accept_all accept accept_loop register_logged default
handle_waker_test = refl
