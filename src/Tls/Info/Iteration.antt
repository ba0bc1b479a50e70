-- ===== src/Tls/Info/Iteration.antt =====
-- The iterators over the addresses of a request (actix-tls/src/connect/connect_addrs.rs, info.rs).
use actix_net.Prelude.{◌≡◌, refl, ltb, false, List, [], ◌∷◌, none, some, length, arith}
use actix_net.Tls.Info.{
  SocketAddr, ConnectAddrsIter, iter_multi, iter_multi_owned, next_addr, size_hint, ConnectInfo,
  set_addrs, addrs, take_addrs,
}

-- The iterator gives the addresses in order and then none, and says at each how many are left.
abbrev pub Yields : ConnectAddrsIter → List SocketAddr → Type 0
Yields it [] = ((next_addr it).1 ≡ none) × (size_hint it ≡ (0, some 0))
Yields it (x ∷ xs) =
    ((next_addr it).1 ≡ some x)
    × (size_hint it ≡ (length (x ∷ xs), some (length (x ∷ xs))))
    × Yields (next_addr it).0 xs

iter_multi-Yields : (xs : List SocketAddr) → Yields (iter_multi xs) xs
iter_multi-Yields [] = (refl, refl)
iter_multi-Yields (x ∷ xs) = (refl, refl, iter_multi-Yields xs)

iter_multi_owned-Yields : (xs : List SocketAddr) → Yields (iter_multi_owned xs) xs
iter_multi_owned-Yields [] = (refl, refl)
iter_multi_owned-Yields (x ∷ xs) = (refl, refl, iter_multi_owned-Yields xs)

module _ {ℓ} {R : Type ℓ} where
  -- A request whose addresses have been set gives them back in their order, borrowed and owned, with
  -- their number at each step, and has none after they have been taken.
  pub set_addrs-Yields :
      (c : ConnectInfo R) (xs : List SocketAddr)
      → Yields (addrs (set_addrs c xs)) xs
        × Yields (take_addrs (set_addrs c xs)).1 xs
        × Yields (addrs (take_addrs (set_addrs c xs)).0) []
  unfolding set_addrs addrs take_addrs
  set_addrs-Yields c [] = ((refl, refl), (refl, refl), (refl, refl))
  set_addrs-Yields c (x ∷ []) =
      ((refl, refl, (refl, refl)), (refl, refl, (refl, refl)), (refl, refl))
  set_addrs-Yields c (x ∷ y ∷ xs) =
      let several : ltb (length (x ∷ y ∷ xs)) 2 ≡ false = ground arith in
      rw several
        (iter_multi-Yields (x ∷ y ∷ xs), iter_multi_owned-Yields (x ∷ y ∷ xs), (refl, refl))
