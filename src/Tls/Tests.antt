-- ===== src/Tls/Tests.antt =====
-- Runs of the connectors (actix-tls/src/connect) at concrete inputs.
use actix_net.Prelude.{
  ℕ, ◌≡◌, refl, [], ◌∷◌, ◌==◌, if◌then◌else◌, none, some, Result, ok, err, arith,
}
use actix_net.Prelude.Panics.{done}
use actix_net.Prelude.Futures.{Fut, resolved, later, never, after_polls}
use actix_net.Prelude.Tasks.{run, await}
use actix_net.Tls.Host.{Text, text_host, host_name, host_port, colon}
use actix_net.Tls.Host.Names.{show_info-split_host}
use actix_net.Tls.Info.{
  IpAddr, v4, SocketAddr, ConnectAddrs, ConnectInfo, set_addrs, addrs, take_addrs, info_port,
  show_info,
}
use actix_net.Tls.Info.Iteration.{Yields, set_addrs-Yields}
use actix_net.Tls.Resolver.{ResolverKind}
use actix_net.Tls.Tcp.{connect}
use actix_net.Tls.Connector.{Env, call_connector, poll_response}
use actix_net.Tls.Connector.Meaning.{meaning}
use actix_net.Tls.Connector.Runs.{run-meaning}
use actix_net.Tls.Accept.{AcceptFut, poll_accept, run-accept}

abbrev address : ℕ → SocketAddr
address n = record { ip = v4 n; port = 80 }

-- The first address refuses after a while, the second one takes the connection.
abbrev dialled : ℕ → Fut (Result ℕ ℕ)
dialled n = if n == 1 then later (resolved (err 111)) else resolved (ok n)

abbrev number : IpAddr → ℕ
number (v4 n) = n
number (IpAddr.v6 n) = n

abbrev env : Env Text ℕ ℕ ℕ
env = record {
  host = text_host;
  parse_ip = λ t. none;
  to_socket_addrs = λ t. later (resolved (ok (ok (address 1 ∷ address 2 ∷ []))));
  kind = ResolverKind.default;
  net = record {
    new_v4 = err 0;
    new_v6 = err 0;
    bind = λ s a. err 0;
    socket_connect = λ s a. never;
    stream_connect = λ a. dialled (number (a.ip));
  };
}

-- The host `a:7`.
abbrev request : ConnectInfo Text
request = record {
  request = 97 ∷ colon ∷ 55 ∷ [];
  port = 0;
  addr = ConnectAddrs.unresolved;
  local_addr = none;
}

run-meaning_example :
    run (poll_response env 2) 3 (call_connector env request) ≡ done (await 3 (meaning env request))
run-meaning_example = run-meaning env 0 3 request tt

meaning_test : await 3 (meaning env request) ≡ some (ok (97 ∷ colon ∷ 55 ∷ [], 2))
unfolding connect
meaning_test = refl

set_addrs-Yields_example :
    Yields (addrs (set_addrs request (address 1 ∷ address 2 ∷ []))) (address 1 ∷ address 2 ∷ [])
    × Yields
        (take_addrs (set_addrs request (address 1 ∷ address 2 ∷ []))).1
        (address 1 ∷ address 2 ∷ [])
    × Yields (addrs (take_addrs (set_addrs request (address 1 ∷ address 2 ∷ []))).0) []
set_addrs-Yields_example = set_addrs-Yields request (address 1 ∷ address 2 ∷ [])

show_info-split_host_example :
    (host_name (show_info text_host request) ≡ host_name request.request)
    × (host_port (show_info text_host request) ≡ some (info_port text_host request))
show_info-split_host_example = show_info-split_host request (omega arith)

-- A handshake that ends before its timeout, which comes two polls later.
abbrev shaking : AcceptFut ℕ ℕ
shaking = record { fut = after_polls 1 (ok 5); timeout = after_polls 3 tt }

run-accept_example : run poll_accept 4 shaking ≡ done (some (ok 5))
run-accept_example = run-accept 4 1 3 (ok 5)
