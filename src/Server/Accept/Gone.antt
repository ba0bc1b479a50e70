-- ===== src/Server/Accept/Gone.antt =====
-- `send_connection` of actix-server/src/accept.rs when the next worker is gone.
use actix_net.Prelude.{
  ℕ, suc, ◌<◌, ◌≡◌, ◌≢◌, refl, ap, true, false, [], ◌∷◌, ◌++◌, length, get_elem?, set, leb, ◌==◌,
  arith, Bool-cases, inl, inr, ◌⊎◌, ==_iff,
}
use actix_net.Prelude.Access.{length-set, get_elem?-set, get_elem?-lt}
use actix_net.Prelude.Panics.{done}
use actix_net.Server.Availability.{Availability, max_workers}
use actix_net.Server.Availability.Laws.{is_set, IsUpdated}
use actix_net.Server.Handle.{Conn, WorkerHandle}
use actix_net.Server.Accept.{Accept, swap_remove, after_removed}
use actix_net.Server.Accept.Removal.{
  new_place, old_place, length-swap_remove, swap_remove-keeps, swap_remove-old,
}
use actix_net.Server.Accept.Sound.{At, Owned, IsSound, IsRemoved, SendEnds, marked, put}

-- A worker that is gone: its handle is removed and reported. `h'` is the handle after the failed
-- send, which has counted up and down.
module _ (a : Accept) (h h' : WorkerHandle) (s : IsSound a) (at : At a.handles a.next_worker h)
    (same : h'.idx ≡ h.idx) (gone : h.open_rx ≡ false) where
  abbrev pub removed : Accept
  removed = record (put a h') {
    handles = swap_remove (set a.handles a.next_worker h') a.next_worker;
    srv = a.srv ++ h'.idx ∷ [];
  }

  lt_set : a.next_worker < length (set a.handles a.next_worker h')
  lt_set = omega (
    arith,
    length-set a.handles a.next_worker h',
    get_elem?-lt a.handles a.next_worker {v = h} at,
  )

  length-removed : suc (length removed.handles) ≡ length a.handles
  length-removed = omega (
    arith,
    length-swap_remove (set a.handles a.next_worker h') a.next_worker lt_set,
    length-set a.handles a.next_worker h',
    lt_set,
  )

  -- The place of a handle before the removal, for each handle that is left.
  removed-old :
      (p : ℕ) (k : WorkerHandle)
      → At removed.handles p k
      → (q : ℕ) × At a.handles q k × (q ≢ a.next_worker)
  removed-old p k e =
      let (f, ne) = swap_remove-old (set a.handles a.next_worker h') a.next_worker p k lt_set e in
      let q = old_place (length (set a.handles a.next_worker h')) a.next_worker p in
      (
        q,
        ground (
          arith,
          get_elem?-set a.handles a.next_worker q h'
              (omega (arith, get_elem?-lt a.handles a.next_worker {v = h} at)),
        ),
        ne,
      )

  removed-keeps :
      (q : ℕ) (k : WorkerHandle)
      → At a.handles q k
      → q ≢ a.next_worker
      → (p : ℕ) × At removed.handles p k
  removed-keeps q k e ne = (
    new_place (length (set a.handles a.next_worker h')) a.next_worker q,
    swap_remove-keeps (set a.handles a.next_worker h') a.next_worker q k lt_set ne (
        ground (
          arith,
          get_elem?-set a.handles a.next_worker q h'
              (omega (arith, get_elem?-lt a.handles a.next_worker {v = h} at)),
        )),
  )

  removed-Owned :
      (v : Availability)
      → IsUpdated a.avail h'.idx false v
      → (i : ℕ) → i < max_workers
      → is_set v i ≡ true
      → Owned removed.handles i
  removed-Owned v u i g e = stays (s.owned i g (ground (arith, u.marks i g)))
    where
      stays : Owned a.handles i → Owned removed.handles i
      stays (q, k, f, x) = let (p, w) = removed-keeps q k f (other_place q k f x) in (p, k, w, x)
        where
          other_place :
              (q : ℕ) (k : WorkerHandle) → At a.handles q k → k.idx ≡ i → q ≢ a.next_worker
          other_place q k f x y = ground (arith, u.marks i g, ap (get_elem? a.handles) y)

  removed-IsSound :
      (v : Availability) (n : ℕ)
      → IsUpdated a.avail h'.idx false v
      → (0 < length removed.handles → n < length removed.handles)
      → (length removed.handles ≡ 0 → n ≡ 0)
      → IsSound (record (marked removed v) { next_worker = n })
  removed-IsSound v n u r z = record {
    valid = u.valid;
    small = λ p k e. let (q, f, _) = removed-old p k e in s.small q k f;
    owned = removed-Owned v u;
    in_range = r;
    at_start = z;
  }

  only_dead :
      length removed.handles ≡ 0 → (q : ℕ) (k : WorkerHandle) → At a.handles q k → k.open_rx ≡ false
  only_dead none_left q k e =
      let here : q ≡ a.next_worker = omega (
        arith,
        length-removed,
        get_elem?-lt a.handles q {v = k} e,
        get_elem?-lt a.handles a.next_worker {v = h} at,
      ) in
      ground (arith, ap (get_elem? a.handles) here)

  gone-IsRemoved :
      (b : Accept) → b.handles ≡ removed.handles → 0 < length removed.handles → IsRemoved a b
  gone-IsRemoved b e left = record {
    fewer = rw e length-removed;
    some_left = rw e left;
    kept = λ q k f. rw e (stays q k f);
    old = λ p k f. let (q, g, _) = removed-old p k (rw e at f) in (q, g);
  }
    where
      stays :
          (q : ℕ) (k : WorkerHandle)
          → At a.handles q k
          → (k.open_rx ≡ false) ⊎ ((p : ℕ) × At removed.handles p k)
      stays q k f = elim (Bool-cases (q == a.next_worker)) [
        | inl y ↦ inl (ground (arith, ap (get_elem? a.handles) ((==_iff q a.next_worker).0 y)))
        | inr n ↦ inr (removed-keeps q k f (ground arith))
      ]

  pub after_removed-SendEnds :
      (conn : Conn) (v : Availability)
      → IsUpdated a.avail h'.idx false v
      → SendEnds a conn (done (after_removed (marked removed v) conn))
  unfolding after_removed
  after_removed-SendEnds conn v u = elim (Bool-cases (length removed.handles == 0)) [
    | inl e ↦
        let none_left : length removed.handles ≡ 0 = (==_iff _ 0).0 e in
        rw e (
          removed-IsSound v a.next_worker u (λ g. absurd (omega arith))
              (λ g. omega (arith, length-removed, get_elem?-lt a.handles a.next_worker {v = h} at)),
          inr (none_left, only_dead none_left),
        )
    | inr e ↦
        let left : 0 < length removed.handles = ground arith in
        elim (Bool-cases (leb (length removed.handles) a.next_worker)) [
          | inl w ↦
              rw (e, w)
                (removed-IsSound v 0 u (λ g. g) (λ g. refl), refl, gone-IsRemoved _ refl left)
          | inr w ↦
              rw (e, w)
                (
                  removed-IsSound v a.next_worker u (λ g. ground arith)
                      (λ g. absurd (omega (arith, g, left))),
                  refl,
                  gone-IsRemoved _ refl left,
                )
        ]
  ]
