-- ===== src/Server/Builder/Binding.antt =====
-- actix-server/src/builder.rs: `bind`, `listen`, `bind_uds`, `listen_uds` and `bind_addr`.
pub mod Addresses
use actix_net.Prelude.{ℕ, List, [], ◌∷◌, ◌++◌, Option, none, some, Result, ok, err, if◌then◌else◌}
use actix_net.Prelude.Results.{◌>>=◌}
use actix_net.Server.Sockets.{
  Net, MpTcp, MioListener, tcp_listener, uds_listener, create_mio_tcp_listener,
}
use actix_net.Server.Builder.{Name, ServerBuilder, StreamNewService, next_token}

module _ {A L P E : Type 0} (net : Net A L P E) where
  -- What one address adds to the loop of `bind_addr`: the sockets and the last error.
  abbrev pub bound : List L × Option E → Result E L → List L × Option E
  bound (sockets, opt_err) (ok lst) = (sockets ++ lst ∷ [], opt_err)
  bound (sockets, opt_err) (err e) = (sockets, some e)

  unfoldable pub bind_each : ℕ → MpTcp → List L × Option E → List A → List L × Option E
  bind_each backlog pref acc [] = acc
  bind_each backlog pref acc (addr ∷ addrs) =
      bind_each backlog pref (bound acc (create_mio_tcp_listener net addr backlog pref)) addrs

  -- The end of `bind_addr`: `success` says that there is a socket.
  abbrev pub bind_end : List L × Option E → Result E (List L)
  bind_end (lst ∷ sockets, opt_err) = ok (lst ∷ sockets)
  bind_end ([], some e) = err e
  bind_end ([], none) = err net.cannot_bind

  -- `bind_addr`, given what `to_socket_addrs` answers.
  unfoldable pub bind_addr : Result E (List A) → ℕ → MpTcp → Result E (List L)
  bind_addr resolved backlog pref = do
    addrs ← resolved
    bind_end (bind_each backlog pref ([], none) addrs)

  -- A missing file is no error.
  abbrev pub removed : Result E (Unit {0}) → Result E (Unit {0})
  removed (ok x) = ok x
  removed (err e) = if net.is_not_found e then ok tt else err e

module _ {F A L P E : Type 0} (net : Net A L P E) where
  -- A service and its socket, with the next token.
  unfoldable pub push : ServerBuilder F A L → Name → F → A → MioListener L → ServerBuilder F A L
  unfolding next_token
  push b name factory addr lst =
      let (b', token) = next_token b in
      record b' {
        factories =
            b'.factories
            ++ record { name = name; inner = factory; token = token; addr = addr } ∷ [];
        sockets = b'.sockets ++ (token, name, lst) ∷ [];
      }

  -- The loop of `bind`; a listener without an address ends it.
  unfoldable pub push_all : Name → F → ServerBuilder F A L → List L → Result E (ServerBuilder F A L)
  push_all name factory b [] = ok b
  push_all name factory b (lst ∷ ls) = do
    addr ← net.local_addr lst
    push_all name factory (push b name factory addr (tcp_listener lst)) ls

  -- `ServerBuilder::bind`.
  unfoldable pub bind :
      ServerBuilder F A L → Name → Result E (List A) → F → Result E (ServerBuilder F A L)
  bind b name resolved factory = do
    sockets ← bind_addr net resolved b.backlog b.mptcp
    push_all name factory b sockets

  -- `ServerBuilder::listen`.
  unfoldable pub listen : ServerBuilder F A L → Name → L → F → Result E (ServerBuilder F A L)
  listen b name lst0 factory = do
    lst ← net.set_nonblocking lst0
    addr ← net.local_addr lst
    ok (push b name factory addr (tcp_listener lst))

  -- `ServerBuilder::listen_uds`, whose address is a fixed one.
  unfoldable pub listen_uds : ServerBuilder F A L → Name → L → F → Result E (ServerBuilder F A L)
  listen_uds b name lst0 factory = do
    lst ← net.set_nonblocking lst0
    ok (push b name factory net.uds_addr (uds_listener lst))

  -- `ServerBuilder::bind_uds`.
  unfoldable pub bind_uds : ServerBuilder F A L → Name → P → F → Result E (ServerBuilder F A L)
  bind_uds b name path factory = do
    gone ← removed net (net.remove_file path)
    lst ← net.bind_unix path
    listen_uds b name lst factory
