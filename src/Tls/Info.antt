-- ===== src/Tls/Info.antt =====
-- actix-tls/src/connect/info.rs and connect_addrs.rs: a request to connect, and its addresses.
pub mod Iteration
use actix_net.Prelude.{
  ℕ, zero, suc, ◌+◌, ltb, Bool, true, false, not, List, [], ◌∷◌, ◌++◌, Option, none, some, length,
  if◌then◌else◌,
}
use actix_net.Tls.Host.{Text, Host, colon, show_u16}

-- An address of a host; `u32` and `u128` as numbers.
pub data IpAddr : Type 0 where
  v4 v6 : ℕ → IpAddr

pub record SocketAddr : Type 0 where
  pub ip : IpAddr
  pub port : ℕ

pub data ConnectAddrs : Type 0 where
  unresolved : ConnectAddrs
  one : SocketAddr → ConnectAddrs
  multi : List SocketAddr → ConnectAddrs

abbrev pub is_unresolved : ConnectAddrs → Bool
is_unresolved unresolved = true
is_unresolved (one a) = false
is_unresolved (multi xs) = false

unfoldable pub is_resolved : ConnectAddrs → Bool
is_resolved a = not (is_unresolved a)

-- `From<Option<SocketAddr>>`.
abbrev pub from_addr : Option SocketAddr → ConnectAddrs
from_addr none = unresolved
from_addr (some a) = one a

-- The iterators over a deque are the addresses that are left.
pub data ConnectAddrsIter : Type 0 where
  iter_none : ConnectAddrsIter
  iter_one : SocketAddr → ConnectAddrsIter
  iter_multi iter_multi_owned : List SocketAddr → ConnectAddrsIter

abbrev pub next_addr : ConnectAddrsIter → ConnectAddrsIter × Option SocketAddr
next_addr iter_none = (iter_none, none)
next_addr (iter_one a) = (iter_none, some a)
next_addr (iter_multi []) = (iter_multi [], none)
next_addr (iter_multi (a ∷ xs)) = (iter_multi xs, some a)
next_addr (iter_multi_owned []) = (iter_multi_owned [], none)
next_addr (iter_multi_owned (a ∷ xs)) = (iter_multi_owned xs, some a)

abbrev pub size_hint : ConnectAddrsIter → ℕ × Option ℕ
size_hint iter_none = (0, some 0)
size_hint (iter_one a) = (1, some 1)
size_hint (iter_multi xs) = (length xs, some (length xs))
size_hint (iter_multi_owned xs) = (length xs, some (length xs))

abbrev pub addrs_iter : ConnectAddrs → ConnectAddrsIter
addrs_iter unresolved = iter_none
addrs_iter (one a) = iter_one a
addrs_iter (multi xs) = iter_multi xs

abbrev pub addrs_into_iter : ConnectAddrs → ConnectAddrsIter
addrs_into_iter unresolved = iter_none
addrs_into_iter (one a) = iter_one a
addrs_into_iter (multi xs) = iter_multi_owned xs

abbrev pub pop_front {ℓ} : {A : Type ℓ} → List A → List A × Option A
pop_front [] = ([], none)
pop_front (a ∷ xs) = (xs, some a)

pub record ConnectInfo {ℓ} (R : Type ℓ) : Type ℓ where
  pub request : R
  pub port : ℕ
  pub addr : ConnectAddrs
  pub local_addr : Option IpAddr

abbrev pub unwrap_or {ℓ} : {A : Type ℓ} → Option A → A → A
unwrap_or none d = d
unwrap_or (some a) d = a

module _ {ℓ} {R : Type ℓ} where
  unfoldable pub set_port : ConnectInfo R → ℕ → ConnectInfo R
  set_port c port = record c { port = port }

  unfoldable pub set_addr : ConnectInfo R → Option SocketAddr → ConnectInfo R
  set_addr c a = record c { addr = from_addr a }

  unfoldable pub set_addrs : ConnectInfo R → List SocketAddr → ConnectInfo R
  set_addrs c xs = record c {
    addr = if ltb (length xs) 2 then from_addr (pop_front xs).1 else multi xs;
  }

  unfoldable pub set_local_addr : ConnectInfo R → IpAddr → ConnectInfo R
  set_local_addr c a = record c { local_addr = some a }

  unfoldable pub addrs : ConnectInfo R → ConnectAddrsIter
  addrs c = addrs_iter c.addr

  -- `mem::take` leaves the default, no address.
  unfoldable pub take_addrs : ConnectInfo R → ConnectInfo R × ConnectAddrsIter
  take_addrs c = (record c { addr = unresolved }, addrs_into_iter c.addr)

  module _ (host : Host R) where
    unfoldable pub new_info : R → ConnectInfo R
    new_info r = record {
      request = r;
      port = unwrap_or (host.port r) 0;
      addr = unresolved;
      local_addr = none;
    }

    unfoldable pub with_addr : R → SocketAddr → ConnectInfo R
    with_addr r a = record { request = r; port = 0; addr = one a; local_addr = none }

    -- `ConnectInfo::port`: the request's own port is preferred to the one that was set.
    unfoldable pub info_port : ConnectInfo R → ℕ
    info_port c = unwrap_or (host.port c.request) c.port

    -- `Display`, and the text that the default resolver looks up.
    unfoldable pub show_info : ConnectInfo R → Text
    unfolding info_port show_u16
    show_info c = host.hostname c.request ++ colon ∷ show_u16 (info_port c)
