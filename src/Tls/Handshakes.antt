-- ===== src/Tls/Handshakes.antt =====
-- actix-tls/src/connect/connection.rs, and the connector of connect/rustls_0_23.rs, whose code those
-- of the other versions of rustls repeat. The check of a server name and the handshake are parameters.
use actix_net.Prelude.{ℕ, ◌≡◌, refl, Option, none, some, Result, ok, err, Poll, pending, ready}
use actix_net.Prelude.Panics.{Outcome, done, panicked}
use actix_net.Prelude.Futures.{Fut, resolved, later, never, poll_fut, then_fut}
use actix_net.Prelude.Tasks.{run, await, Steps, run-worth}
use actix_net.Tls.Host.{Text, Host}

-- `Connection`.
pub record Connection {ℓ} (R IO : Type ℓ) : Type ℓ where
  pub req : R
  pub io : IO

module _ {ℓ} {R IO : Type ℓ} where
  unfoldable pub new_connection : R → IO → Connection R IO
  new_connection req io = record { req = req; io = io }

  unfoldable pub into_parts : Connection R IO → IO × R
  into_parts c = (c.io, c.req)

  unfoldable pub replace_io : {S : Type ℓ} → Connection R IO → S → IO × Connection R S
  replace_io c io = (c.io, record { req = c.req; io = io })

  unfoldable pub request : Connection R IO → R
  request c = c.req

  unfoldable pub connection_hostname : Host R → Connection R IO → Text
  connection_hostname host c = host.hostname c.req

-- `ConnectFut`.
pub data ConnectFut {ℓ} (R S E : Type ℓ) : Type ℓ where
  invalid_server_name : ConnectFut R S E
  connecting : Fut (Result E S) → Option (Connection R (Unit {ℓ})) → ConnectFut R S E

module _ {ℓ} {R IO S E N : Type ℓ} (host : Host R) (server_name : Text → Option N)
    (handshake : N → IO → Fut (Result E S)) (invalid : E) where
  abbrev pub begin : IO → Connection R (Unit {ℓ}) → Option N → ConnectFut R S E
  begin io conn none = invalid_server_name
  begin io conn (some name) = connecting (handshake name io) (some conn)

  -- `TlsConnectorService::call`.
  unfoldable pub call_tls : Connection R IO → ConnectFut R S E
  unfolding replace_io connection_hostname
  call_tls connection =
      let (stream, conn) = replace_io connection tt in
      begin stream conn (server_name (connection_hostname host conn))

  abbrev pub TlsPoll : Type ℓ
  TlsPoll = Outcome (ConnectFut R S E × Poll (Result E (Connection R S)))

  abbrev pub shaken : Fut (Result E S) → S → Option (Connection R (Unit {ℓ})) → TlsPoll
  shaken fut stream none = panicked
  shaken fut stream (some conn) =
      done (connecting fut none, ready (ok (record { req = conn.req; io = stream })))

  abbrev pub on_handshake :
      Option (Connection R (Unit {ℓ})) → Fut (Result E S) × Poll (Result E S) → TlsPoll
  on_handshake conn (fut, pending) = done (connecting fut conn, pending)
  on_handshake conn (fut, ready (err e)) = done (connecting fut conn, ready (err e))
  on_handshake conn (fut, ready (ok stream)) = shaken fut stream conn

  -- `ConnectFut::poll`.
  unfoldable pub poll_tls : ConnectFut R S E → TlsPoll
  poll_tls invalid_server_name = done (invalid_server_name, ready (err invalid))
  poll_tls (connecting fut conn) = on_handshake conn (poll_fut fut)

  -- The connection with the stream of the handshake, for the same request.
  abbrev pub secured : R → Result E S → Result E (Connection R S)
  secured req (ok stream) = ok (record { req = req; io = stream })
  secured req (err e) = err e

  tls_worth : ConnectFut R S E → Option (Fut (Result E (Connection R S)))
  tls_worth invalid_server_name = some (resolved (err invalid))
  tls_worth (connecting fut none) = none
  tls_worth (connecting fut (some conn)) = some (then_fut fut λ r. resolved (secured conn.req r))

  poll_tls-Steps : (s : ConnectFut R S E) → Steps poll_tls tls_worth (poll_tls s) (tls_worth s)
  unfolding poll_tls tls_worth
  poll_tls-Steps invalid_server_name = (_, refl)
  poll_tls-Steps (connecting fut none) = tt
  poll_tls-Steps (connecting (resolved (ok s)) (some conn)) = (_, refl)
  poll_tls-Steps (connecting (resolved (err e)) (some conn)) = (_, refl)
  poll_tls-Steps (connecting (later fut) (some conn)) = (_, refl, refl)
  poll_tls-Steps (connecting never (some conn)) = (_, refl, refl)

  -- What a call comes to, by the name that the request's host is.
  abbrev pub secure : Connection R IO → Option N → Fut (Result E (Connection R S))
  secure connection none = resolved (err invalid)
  secure connection (some name) =
      then_fut (handshake name connection.io) λ r. resolved (secured connection.req r)

  run-begin :
      (n : ℕ) (connection : Connection R IO) (o : Option N)
      → run poll_tls n (begin connection.io (record { req = connection.req; io = tt }) o)
        ≡ done (await n (secure connection o))
  unfolding tls_worth
  run-begin n connection none =
      run-worth poll_tls tls_worth poll_tls-Steps n invalid_server_name _ refl
  run-begin n connection (some name) =
      run-worth poll_tls tls_worth poll_tls-Steps n (connecting _ (some _)) _ refl

  -- Polls of the connector's future answer as the handshake over the request's transport, with the
  -- request's host as the server's name; its stream takes the transport's place for the same request. A
  -- host that is no server name is an error, without a handshake.
  pub run-call_tls :
      (n : ℕ) (connection : Connection R IO)
      → run poll_tls n (call_tls connection)
        ≡ done (await n (secure connection (server_name (host.hostname connection.req))))
  unfolding call_tls replace_io connection_hostname
  run-call_tls n connection = run-begin n connection (server_name (host.hostname connection.req))
