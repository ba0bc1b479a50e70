-- ===== src/Server/Builder/Binding/Addresses.antt =====
-- `bind_addr` of actix-server/src/builder.rs against a plain description of what it binds.
use actix_net.Prelude.{
  ℕ, ◌≡◌, refl, ap, ◌∙◌, List, [], ◌∷◌, ◌++◌, append_assoc, append-nil, Option, none, some, Result,
  ok, err,
}
use actix_net.Server.Sockets.{Net, MpTcp, create_mio_tcp_listener}
use actix_net.Server.Builder.Binding.{bound, bind_each, bind_end, bind_addr}

module _ {L E : Type 0} where
  abbrev pub with_socket : Result E L → List L → List L
  with_socket (ok lst) ls = lst ∷ ls
  with_socket (err e) ls = ls

  abbrev pub or_error : Result E L → Option E → Option E
  or_error r (some e) = some e
  or_error (ok lst) none = none
  or_error (err e) none = some e

module _ {A L E : Type 0} (create : A → Result E L) where
  -- The sockets of the addresses that can be bound, in their order.
  abbrev pub bindable : List A → List L
  bindable [] = []
  bindable (addr ∷ addrs) = with_socket (create addr) (bindable addrs)

  -- The error of the last address that cannot be bound.
  abbrev pub last_failure : List A → Option E
  last_failure [] = none
  last_failure (addr ∷ addrs) = or_error (create addr) (last_failure addrs)

-- What binding gives: the sockets, if there is one, or else the last error, or else `other`.
abbrev pub outcome : {L E : Type 0} → E → List L → Option E → Result E (List L)
outcome other (lst ∷ ls) failure = ok (lst ∷ ls)
outcome other [] (some e) = err e
outcome other [] none = err other

module _ {A L P E : Type 0} (net : Net A L P E) (backlog : ℕ) (pref : MpTcp) where
  abbrev pub create_here : A → Result E L
  create_here addr = create_mio_tcp_listener net addr backlog pref

  abbrev later_error : Option E → Option E → Option E
  later_error first none = first
  later_error first (some e) = some e

  abbrev extended : List L × Option E → List L → Option E → List L × Option E
  extended (sockets, opt_err) ls failure = (sockets ++ ls, later_error opt_err failure)

  bind_each_step :
      (acc : List L × Option E) (r : Result E L) (ls : List L) (failure : Option E)
      → extended (bound net acc r) ls failure ≡ extended acc (with_socket r ls) (or_error r failure)
  bind_each_step (sockets, opt_err) (ok lst) ls none = rw (append_assoc sockets (lst ∷ []) ls) refl
  bind_each_step (sockets, opt_err) (ok lst) ls (some e) =
      rw (append_assoc sockets (lst ∷ []) ls) refl
  bind_each_step (sockets, opt_err) (err e) ls none = refl
  bind_each_step (sockets, opt_err) (err e) ls (some f) = refl

  bind_each_lem :
      (addrs : List A) (acc : List L × Option E)
      → bind_each net backlog pref acc addrs
        ≡ extended acc (bindable create_here addrs) (last_failure create_here addrs)
  unfolding bind_each
  bind_each_lem [] (sockets, opt_err) = rw (append-nil sockets) refl
  bind_each_lem (addr ∷ addrs) acc =
      bind_each_lem addrs (bound net acc (create_here addr))
      ∙ bind_each_step acc (create_here addr) (bindable create_here addrs)
          (last_failure create_here addrs)

  bind_end_lem : (r : List L × Option E) → bind_end net r ≡ outcome net.cannot_bind r.0 r.1
  bind_end_lem (lst ∷ ls, e) = refl
  bind_end_lem ([], some e) = refl
  bind_end_lem ([], none) = refl

  later_none : (o : Option E) → later_error none o ≡ o
  later_none none = refl
  later_none (some e) = refl

  -- With the addresses resolved, `bind_addr` gives the sockets of all the addresses that can be bound,
  -- in their order, when there is one; otherwise the error of the last address, or the one for no
  -- address at all. An error of the resolution is passed on.
  pub bind_addr_lem :
      (resolved : Result E (List A))
      → bind_addr net resolved backlog pref ≡ elim resolved [
        | ok addrs ↦
            outcome net.cannot_bind (bindable create_here addrs) (last_failure create_here addrs)
        | err e ↦ err e
      ]
  unfolding bind_addr
  bind_addr_lem (err e) = refl
  bind_addr_lem (ok addrs) =
      ap (bind_end net) (bind_each_lem addrs ([], none))
      ∙ bind_end_lem _
      ∙ ap (outcome net.cannot_bind (bindable create_here addrs)) (later_none _)
