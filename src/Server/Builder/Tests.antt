-- ===== src/Server/Builder/Tests.antt =====
-- Builders at concrete inputs (actix-server/src/builder.rs).
use actix_net.Prelude.{
  ℕ, ◌≡◌, refl, List, [], ◌∷◌, some, Result, ok, err, ◌==◌, if◌then◌else◌, arith, ltb,
}
use actix_net.Server.Sockets.{Net, Protocol, tcp, mptcp, tcp_fallback, create_mio_tcp_listener}
use actix_net.Server.Builder.{new}
use actix_net.Server.Builder.Binding.{bind_addr}
use actix_net.Server.Builder.Binding.Addresses.{
  outcome, bindable, last_failure, create_here, bind_addr_lem,
}
use actix_net.Server.Builder.Tokens.{
  Call, call_workers, call_bind, call_bind_uds, call_mptcp, steps, IsSafe, steps-new,
}

abbrev supported : Protocol → ℕ → Result ℕ ℕ
supported tcp addr = ok addr
supported mptcp addr = err 93

-- No multipath sockets, no addresses above 9, and no file but 4.
abbrev small_net : Net ℕ ℕ ℕ ℕ
small_net = record {
  new_socket = λ addr p. supported p addr;
  set_reuse_address = λ l. ok l;
  set_nonblocking = λ l. ok l;
  bind_socket = λ addr l. if ltb addr 10 then ok l else err addr;
  listen_socket = λ backlog l. ok l;
  local_addr = λ l. ok l;
  remove_file = λ p. if p == 4 then ok tt else err 2;
  is_not_found = λ e. e == 2;
  bind_unix = λ p. ok p;
  cannot_bind = 0;
  uds_addr = 127;
}

abbrev calls : List (Call ℕ ℕ ℕ ℕ ℕ)
calls =
    call_workers 4
    ∷ call_mptcp tcp_fallback
    ∷ call_bind (97 ∷ []) (ok (3 ∷ 12 ∷ 5 ∷ [])) 1
    ∷ call_bind_uds (98 ∷ []) 6 2
    ∷ []

steps-new_example : IsSafe small_net (steps small_net (new (some 8)) calls)
steps-new_example = steps-new small_net (some 8) calls (ground arith)

bind_addr_lem_example :
    bind_addr small_net (ok (3 ∷ 12 ∷ 5 ∷ [])) 128 tcp_fallback
    ≡ outcome 0
        (bindable (create_here small_net 128 tcp_fallback) (3 ∷ 12 ∷ 5 ∷ []))
        (last_failure (create_here small_net 128 tcp_fallback) (3 ∷ 12 ∷ 5 ∷ []))
bind_addr_lem_example = bind_addr_lem small_net 128 tcp_fallback (ok (3 ∷ 12 ∷ 5 ∷ []))

bind_addr_test : bindable (create_here small_net 128 tcp_fallback) (3 ∷ 12 ∷ 5 ∷ []) ≡ 3 ∷ 5 ∷ []
unfolding create_mio_tcp_listener
bind_addr_test = refl
