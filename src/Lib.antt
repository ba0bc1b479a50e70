-- ===== src/Lib.antt =====
-- Verification of actix-net: the parts of the repository that carry its own logic, translated into
-- total functions, with the theorems that make them correct.
--
-- actix-codec (actix-codec/src)
--   Codec/Utf8.antt       `String::from_utf8`: which byte sequences are texts
--   Codec/Utf8/*          Boundaries (where a text can be cut)
--   Codec/Newline.antt    the first newline of a buffer: the documented behaviour of `memchr`
--   Codec/Lines.antt      lines.rs: `LinesCodec`, `encode`, `decode`, `decode_eof`
--   Codec/Lines/*         Refinement (decode against its plain description), Bounds, Chunks
--   Codec/Framed.antt     framed.rs: the fields and the small methods
--   Codec/Framed/*        Read (`next_item`), Write (`write`, `flush`, `close`), Delivery (theorems)
--   Codec/LineStream/*    `Framed` over `LinesCodec`: streams cut into reads, written and read back
--   Codec/BytesCodec.antt bcodec.rs: `BytesCodec`
--
-- A `BytesMut` is the list of the bytes that it holds, so `split_to`, `advance` and `put_slice` are
-- `take`, `drop` and `++`; capacities do not change a content and are left out. `memchr` is a
-- parameter with its documentation as a hypothesis. A transport is the list of its answers.
-- `next_item` and `flush` recur on those answers and need no fuel; `poll_all`, a task that polls
-- until the stream ends, has fuel, and one more than the bytes and answers is enough.
--
-- actix-server (actix-server/src)
--   Server/Availability.antt  availability.rs: the marks of the workers, 512 bits in four words
--   Server/Handle.antt    worker.rs: the connection counter and the accept thread's worker handle
--   Server/Accept.antt    accept.rs: the accept thread's state and the dispatch of a connection
--   Server/Accept/*       Removal (`swap_remove`), Sound (the invariant), Live, Gone and Send
--                         (`send_connection`), Rounds and Dispatch (`accept_one`), Start, Reached, Stuck
--   Server/Listeners.antt accept.rs: the listeners, their registration and their timeouts
--   Server/Listeners/*    Timeouts (`process_timeout`), Pauses (`WakerInterest::Pause`)
--   Server/Waking.antt    accept.rs: `accept`, `accept_all` and `handle_waker` over the listeners
--   Server/Waking/*       Paused (the queue of a paused thread)
--   Server/Worker.antt    worker.rs: the services of a worker, their readiness, the worker's state
--   Server/Worker/*       Polling (`ServerWorker::poll`), Readiness, Checks, Serving, Dispatching
--                         and Serves (a worker that serves), Stops, Shutdowns and StopRequests (stopping), Crashes (restarts)
--   Server/Joins.antt     join_all.rs: futures polled together
--   Server/Commands.antt  server.rs: `ServerInner::handle_cmd`, `map_signal`, the drop of the server
--   Server/Commands/*     Stops (a stop, its order and its end)
--   Server/Running.antt   server.rs: `ServerEventMultiplexer` and the loop of `ServerInner::run`;
--                         handle.rs: the commands of a `ServerHandle`
--   Server/Running/*      Queue (commands handled at once), Ends (the end of a server that is told
--                         to stop)
--   Server/Signals.antt   signals.rs: `OsSignals` and `StopSignal`, on Unix
--   Server/Sockets.antt   socket.rs: `create_mio_tcp_listener`, with the fall-back from MPTCP
--   Server/Streams.antt   socket.rs: listeners and streams; service.rs: `StreamService`
--   Server/Builder.antt   builder.rs: `ServerBuilder`; worker.rs: `ServerWorkerConfig`
--   Server/Builder/*      Binding (`bind`, `listen` and the forms for paths), Tokens (the invariant)
--   Server/Startup.antt   service.rs and worker.rs: the services of a worker are created and wrapped;
--                         accept.rs: the workers' reports and the registration of the sockets
--   Server/Startup/*      Services and Reports (theorems), Launch (worker.rs: the start of a worker's
--                         thread, which a stop cuts short) and Once (what it reports)
--
-- Panics are an outcome, and so is the end of the fuel that the loops of `accept_one` have. The
-- channel to a worker is a queue with a flag that tells whether its receiver is alive; connections
-- are numbers. `send_until` needs as much fuel as there are handles, `accept_one` the sum `enough`.
-- No step of another thread falls between two lines of one operation. The runtimes of
-- the workers, `run_sync`, the shutdown notice of shutdown.rs and the mio poll are not modelled; a listener is the list of its answers, whether the registry takes or releases a listener is a parameter, and a clock value
-- is an argument. A worker's service is the list of its answers to `poll_ready` and of the
-- connections that it was called with; the future that a factory returns is a parameter.
-- A receive from a channel of tokio is pending only when its queue is empty, here and in the other
-- parts: that tokio may also answer so when a task has used up its budget, or spuriously, and wakes the
-- task again, is left out: a poll may then leave a rest in the queue, of a worker that is available
-- too, and what a theorem says of one poll may take more than one.
-- `ServerWorker::poll` calls itself: it has fuel, and twice the services' answers and two more are
-- enough when no service fails. A poll of the server has fuel for its loop: a command that needs no
-- waiting takes two rounds, and two more are enough for a stop. The calls of the operating system and
-- of mio that the builder makes are the record `Net`.
--
-- actix-service (actix-service/src)
--   Service.antt          lib.rs: the trait `Service`, over a state of the service
--   Service/*             Chains (and_then.rs and then.rs: the responses), Readiness, Factories
--   Service/Maps.antt     map.rs, map_err.rs, map_init_err.rs, transform_err.rs: a mapped answer
--   Service/Creation.antt the factories of those combinators
--   Service/Applied.antt  apply.rs: a function around a service's call
--   Service/Applied/*     Transformed (transform.rs), Configured (apply_cfg.rs)
--   Service/Functions.antt fn_service.rs, map_config.rs, boxed.rs
--   Service/Tracing.antt  actix-tracing/src/lib.rs: a service whose calls run in a span
--
-- The state of two chained services is a pair; the response's future shares the second service, so
-- its state is beside the future's. The loop of a response has fuel, and two rounds are enough, as
-- they are for the transform of a factory; the response of apply_cfg.rs needs three. ext.rs,
-- pipeline.rs and macros.rs, which call and name these, are not modelled.
--
-- actix-tls (actix-tls/src/connect and actix-tls/src/accept)
--   Tls/Host.antt         host.rs: hostname and port of a text, `u16::from_str`, numbers printed
--   Tls/Host/*            Ports (numbers read back), Splits (texts cut), Names (hosts read back)
--   Tls/Info.antt         info.rs, connect_addrs.rs: a request, its addresses and their iterators
--   Tls/Info/*            Iteration
--   Tls/Resolver.antt     resolver.rs: `ResolverService::call`, `ResolverFut::poll`
--   Tls/Tcp.antt          tcp.rs: `TcpConnectorFut`, the addresses tried in turn; `connect`
--   Tls/Connector.antt    connector.rs: `ConnectServiceResponse::poll`
--   Tls/Connector/*       Meaning (the plain description), Lookups, Attempts, Runs (the theorems)
--   Tls/Uri.antt          connect/uri.rs: the hosts of the http crates, the ports of the schemes
--   Tls/Handshakes.antt   connect/connection.rs: `Connection`; connect/rustls_0_23.rs: the connector
--   Tls/Accept.antt       accept/mod.rs: `TlsError`; accept/rustls_0_23.rs: the acceptor
--
-- A future is what its polls answer (Prelude/Futures.antt), and a state machine is run by polling it
-- (Prelude/Tasks.antt). Lookups, sockets and the parsing of an IP address are parameters. The loop of
-- `ConnectServiceResponse::poll` has fuel, and two rounds are enough. The handshakes
-- of the TLS libraries, the fields of a URI and the sleep of a timeout are parameters; the modules for
-- openssl and native-tls are not modelled, and those for other versions of rustls repeat the code.
--
-- local-waker, local-channel, actix-utils (their src/)
--   Local/Waker.antt      local-waker lib.rs: `LocalWaker`
--   Local/Channel.antt    local-channel mpsc.rs: the shared state, senders and receiver; acts on it
--   Local/Guards.antt     actix-utils counter.rs: the count of guards
--   Local/Futures.antt    actix-utils future/either.rs, poll_fn.rs and ready.rs
--
-- These run on one thread, so a sequence of acts is any list of them. A waker is of any type;
-- `will_wake` is a parameter. An `Rc`'s strong count is the number of senders and the receiver.
--
-- actix-rt (actix-rt/src)
--   Rt/Arbiter.antt       arbiter.rs: `ArbiterCommand`, `ArbiterHandle`, `ArbiterRunner::poll`
--   Rt/Arbiter/*          Order (which tasks an arbiter spawns)
--   Rt/System.antt        system.rs: `SystemController::poll`, `wait_for_stop`, `System`'s commands;
--                         arbiter.rs: the start and the end of an arbiter
--   Rt/System/*           Acts (what happens to a system), Exits (the exit code), Stops (the arbiters
--                         stop)
--
-- A channel is a queue with flags that tell whether its receiver and a sender are left. The local set
-- is the list of the tasks that have been given to `spawn_local`; whether and when they run is left
-- out: an arbiter's thread ends with the poll that takes a stop, so what is given in it need not run.
-- Threads and the tokio runtime are not modelled.
--
-- bytestring (bytestring/src/lib.rs)
--   Bytestring.antt       `ByteString`: its construction, views, comparison and `split_at`
--   Bytestring/*          Checked (`TryFrom`), Splits (`split_at`)
--
-- A `Bytes` is the list of its bytes. `slice_ref`, which compares addresses, is not modelled, nor are
-- the printing and the macros of actix-macros.
pub mod Prelude
pub mod Codec
pub mod Server
pub mod Local
pub mod Tls
pub mod Service
pub mod Rt
pub mod Bytestring
