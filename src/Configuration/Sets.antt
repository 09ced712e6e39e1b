-- ===== src/Configuration/Sets.antt =====
-- The peer sets of cpp/configuration.h: sorted, without repeats, and with the members that the
-- operations say.
use hit_consistency.Prelude.{
  [], ◌∷◌, List, refl, arith, Eq, Bool, ◌≡◌, contains, Distinct, true, false, ◌==◌, ◌&&◌, ◌||◌, not,
}
use hit_consistency.Configuration.{
  set_insert, set_erase, set_find, insert_all, erase_all, of_vector, add_peer, remove_peer, diffs,
}
use hit_consistency.Configuration.Peers.{StrictOrder}

module _ {P : Type 0} ⦃e : Eq P⦄ (less : P → P → Bool) (o : StrictOrder less) where
  -- Every element is greater than `p`.
  abbrev pub AllGreater : P → List P → Type 0
  AllGreater p [] = Unit {0}
  AllGreater p (q ∷ qs) = (less p q ≡ true) × AllGreater p qs

  abbrev pub Sorted : List P → Type 0
  Sorted [] = Unit {0}
  Sorted (p ∷ ps) = AllGreater p ps × Sorted ps

  AllGreater-trans : (p q : P) (qs : List P) → less p q ≡ true → AllGreater q qs → AllGreater p qs
  AllGreater-trans p q [] h a = tt
  AllGreater-trans p q (r ∷ rs) h a = (o.trans p q r h a.0, AllGreater-trans p q rs h a.1)

  asym : (p q : P) → less p q ≡ true → less q p ≡ false
  asym p q h = ground (arith, o.trans p q p h, o.irrefl p)

  ne_of_less : (p q : P) → less p q ≡ true → ((p == q) ≡ false) × ((q == p) ≡ false)
  ne_of_less p q h = ground (arith, e.beq_iff p q, e.beq_iff q p, o.irrefl p)

  -- A peer that is less than all is not among them.
  AllGreater-absent : (p : P) (qs : List P) → AllGreater p qs → contains qs p ≡ false
  AllGreater-absent p [] a = refl
  AllGreater-absent p (q ∷ qs) a = ground (arith, ne_of_less p q a.0, AllGreater-absent p qs a.1)

  -- A sorted list repeats nothing: the hypothesis of the ballots.
  pub Sorted-Distinct : (conf : List P) → Sorted conf → Distinct conf
  Sorted-Distinct [] s = tt
  Sorted-Distinct (p ∷ ps) s = (AllGreater-absent p ps s.0, Sorted-Distinct ps s.1)

  AllGreater-insert :
      (p q : P) (qs : List P)
      → less p q ≡ true
      → AllGreater p qs
      → AllGreater p (set_insert less q qs)
  unfolding set_insert
  AllGreater-insert p q [] h a = (h, tt)
  AllGreater-insert p q (r ∷ rs) h a = ground (arith, AllGreater-insert p q rs h a.1)

  insert-Sorted : (p : P) (qs : List P) → Sorted qs → Sorted (set_insert less p qs)
  unfolding set_insert
  insert-Sorted p [] s = (tt, tt)
  insert-Sorted p (q ∷ qs) s =
      ground (arith, AllGreater-trans p q qs, AllGreater-insert q p qs, insert-Sorted p qs s.1)

  AllGreater-erase : (p q : P) (qs : List P) → AllGreater p qs → AllGreater p (set_erase less q qs)
  unfolding set_erase
  AllGreater-erase p q [] a = tt
  AllGreater-erase p q (r ∷ rs) a = ground (arith, AllGreater-erase p q rs a.1)

  erase-Sorted : (p : P) (qs : List P) → Sorted qs → Sorted (set_erase less p qs)
  unfolding set_erase
  erase-Sorted p [] s = tt
  erase-Sorted p (q ∷ qs) s = ground (arith, AllGreater-erase q p qs, erase-Sorted p qs s.1)

  insert-contains :
      (p r : P) (qs : List P) → contains (set_insert less p qs) r ≡ (p == r || contains qs r)
  unfolding set_insert
  insert-contains p r [] = ground arith
  insert-contains p r (q ∷ qs) =
      ground (arith, o.total p q, insert-contains p r qs, e.beq_iff p r, e.beq_iff q r)

  erase-contains :
      (p r : P) (qs : List P)
      → Sorted qs
      → contains (set_erase less p qs) r ≡ (contains qs r && not (p == r))
  unfolding set_erase
  erase-contains p r [] s = refl
  erase-contains p r (q ∷ qs) s = ground (
    arith,
    o.total p q,
    erase-contains p r qs s.1,
    e.beq_iff p r,
    e.beq_iff q r,
    AllGreater-absent q qs s.0,
    AllGreater-absent p (q ∷ qs),
    AllGreater-trans p q qs,
  )

  find-contains : (p : P) (qs : List P) → Sorted qs → set_find less p qs ≡ contains qs p
  unfolding set_find
  find-contains p [] s = refl
  find-contains p (q ∷ qs) s = ground (
    arith,
    o.total p q,
    find-contains p qs s.1,
    e.beq_iff q p,
    AllGreater-absent p (q ∷ qs),
    AllGreater-trans p q qs,
    o.irrefl p,
  )

  -- add_peer and remove_peer on a sorted list of peers keep it sorted; afterwards exactly the added
  -- peer and the old members, or exactly the old members but the removed peer, are members; and
  -- they report whether the peer was missing, or present.
  pub add-remove_lem :
      (conf : List P) (p : P)
      → Sorted conf
      → Sorted (add_peer less conf p).0
        × ((r : P) → contains (add_peer less conf p).0 r ≡ (p == r || contains conf r))
        × ((add_peer less conf p).1 ≡ not (contains conf p))
        × Sorted (remove_peer less conf p).0
        × ((r : P) → contains (remove_peer less conf p).0 r ≡ (contains conf r && not (p == r)))
        × ((remove_peer less conf p).1 ≡ contains conf p)
  unfolding add_peer remove_peer
  add-remove_lem conf p s = (
    insert-Sorted p conf s,
    (λ r. insert-contains p r conf),
    rw (find-contains p conf s),
    erase-Sorted p conf s,
    (λ r. erase-contains p r conf s),
    find-contains p conf s,
  )

  insert_all_lem :
      (ps conf : List P)
      → Sorted conf
      → Sorted (insert_all less ps conf)
        × ((r : P) → contains (insert_all less ps conf) r ≡ (contains ps r || contains conf r))
  unfolding insert_all
  insert_all_lem [] conf s = (s, λ r. refl)
  insert_all_lem (p ∷ ps) conf s =
      let (s', c) = insert_all_lem ps (set_insert less p conf) (insert-Sorted p conf s) in
      (s', λ r. ground (arith, c r, insert-contains p r conf))

  erase_all_lem :
      (ps conf : List P)
      → Sorted conf
      → Sorted (erase_all less ps conf)
        × ((r : P) → contains (erase_all less ps conf) r ≡ (contains conf r && not (contains ps r)))
  unfolding erase_all
  erase_all_lem [] conf s = (s, λ r. ground arith)
  erase_all_lem (p ∷ ps) conf s =
      let (s', c) = erase_all_lem ps (set_erase less p conf) (erase-Sorted p conf s) in
      (s', λ r. ground (arith, c r, erase-contains p r conf s))

  -- A configuration made from any vector of peers is sorted and has exactly the vector's members.
  pub of_vector_lem :
      (peers : List P)
      → Sorted (of_vector less peers)
        × ((r : P) → contains (of_vector less peers) r ≡ contains peers r)
  unfolding of_vector
  of_vector_lem peers = let (s, c) = insert_all_lem peers [] tt in (s, λ r. ground (arith, c r))

  -- diffs gives, sorted, the members of the one configuration that the other lacks, and the other
  -- way round.
  pub diffs_lem :
      (conf rhs : List P)
      → Sorted conf
      → Sorted rhs
      → let (included, excluded) = diffs less conf rhs in
        Sorted included
        × Sorted excluded
        × ((r : P) → contains included r ≡ (contains conf r && not (contains rhs r)))
        × ((r : P) → contains excluded r ≡ (contains rhs r && not (contains conf r)))
  unfolding diffs
  diffs_lem conf rhs s s' =
      let (a, b) = erase_all_lem rhs conf s in
      let (c, d) = erase_all_lem conf rhs s' in (a, c, b, d)
