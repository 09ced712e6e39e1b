-- ===== src/Ballot/Tally.antt =====
-- The votes seen: what a ballot of cpp/ballot.cc holds after the calls of `grant`, and that the
-- position hint changes nothing.
use hit_consistency.Prelude.{
  ℕ, zero, suc, ◌≡◌, refl, ap, sym, ◌∙◌, true, false, Option, none, some, List, [], ◌∷◌, length,
  get_elem?, set, Eq, ◌==◌, eq_refl, eq_sym, contains, Distinct, count_if, ℤ, pos, negsuc, arith,
  Bool-cases, inl, inr,
}
use hit_consistency.Ballot.{UnfoundPeerId, scan, hinted, find_peer}

module _ {P : Type 0} ⦃e : Eq P⦄ where
  -- Each peer of a configuration, marked if it is among the voters.
  abbrev pub tally : List P → List P → List (UnfoundPeerId P)
  tally vs [] = []
  tally vs (p ∷ ps) = record { peer_id = p; found = contains vs p } ∷ tally vs ps

  abbrev pub votes : List P → List P → ℕ
  votes vs conf = count_if (contains vs) conf

  pub length-tally : (vs conf : List P) → length (tally vs conf) ≡ length conf
  length-tally vs [] = refl
  length-tally vs (p ∷ ps) = ap suc (length-tally vs ps)

  -- A peer that does not stand in the list is not at any place of it.
  absent_elem :
      (vs conf : List P) (p : P) (h : ℕ) {u : UnfoundPeerId P}
      → contains conf p ≡ false
      → get_elem? (tally vs conf) h ≡ some u
      → (u.peer_id == p) ≡ false
  absent_elem vs [] p h a g = ground arith
  absent_elem vs (q ∷ ps) p zero a g = ground arith
  absent_elem vs (q ∷ ps) p (suc h) a g = absent_elem vs ps p h (ground arith) g

  -- Where the hint points at the peer, the scan finds the same place.
  scan_hit :
      (vs conf : List P) (p : P) (h : ℕ) {u : UnfoundPeerId P}
      → Distinct conf
      → get_elem? (tally vs conf) h ≡ some u
      → (u.peer_id == p) ≡ true
      → scan p (tally vs conf) ≡ h
  unfolding scan
  scan_hit vs [] p h d g m = ground arith
  scan_hit vs (q ∷ ps) p zero d g m = ground arith
  scan_hit vs (q ∷ ps) p (suc h) {u} d g m = elim (Bool-cases (q == p)) [
    | inl same ↦
        let q≡p : q ≡ p = (e.beq_iff q p).0 same in
        let off : (u.peer_id == p) ≡ false =
          absent_elem vs ps p h (ap (contains ps) (sym q≡p) ∙ d.0) g in
        ground arith
    | inr other ↦ rw other (ap suc (scan_hit vs ps p h d.1 g m))
  ]

  hinted_lem :
      (vs conf : List P) (p : P) (h : ℕ) (o : Option (UnfoundPeerId P))
      → Distinct conf
      → get_elem? (tally vs conf) h ≡ o
      → hinted p (tally vs conf) h o ≡ scan p (tally vs conf)
  hinted_lem vs conf p h none d g = refl
  hinted_lem vs conf p h (some u) d g = elim (Bool-cases (u.peer_id == p)) [
    | inl hit ↦ rw hit (sym (scan_hit vs conf p h d g hit))
    | inr miss ↦ rw miss
  ]

  pub find_peer_lem :
      (vs conf : List P) (p : P) (hint : ℤ)
      → Distinct conf
      → find_peer p (tally vs conf) hint ≡ scan p (tally vs conf)
  unfolding find_peer
  find_peer_lem vs conf p (negsuc h) d = refl
  find_peer_lem vs conf p (pos h) d = hinted_lem vs conf p h _ d refl

  -- The place that the scan finds, for a peer of the configuration and for any other.
  pub scan_absent :
      (vs conf : List P) (p : P)
      → contains conf p ≡ false
      → get_elem? (tally vs conf) (scan p (tally vs conf)) ≡ none
  unfolding scan
  scan_absent vs [] p a = refl
  scan_absent vs (q ∷ ps) p a = ground (arith, scan_absent vs ps p)

  pub scan_present :
      (vs conf : List P) (p : P)
      → contains conf p ≡ true
      → get_elem? (tally vs conf) (scan p (tally vs conf))
        ≡ some (record { peer_id = p; found = contains vs p })
  unfolding scan
  scan_present vs [] p a = cc
  scan_present vs (q ∷ ps) p a = ground (arith, e.beq_iff q p, scan_present vs ps p)

  -- A vote changes nothing for a peer outside the configuration or that has voted.
  pub tally_absent :
      (vs conf : List P) (p : P)
      → contains conf p ≡ false
      → (tally (p ∷ vs) conf ≡ tally vs conf) × (votes (p ∷ vs) conf ≡ votes vs conf)
  tally_absent vs [] p a = (refl, refl)
  tally_absent vs (q ∷ ps) p a = ground (arith, eq_sym p q, tally_absent vs ps p)

  pub tally_voted :
      (vs conf : List P) (p : P)
      → contains vs p ≡ true
      → (tally (p ∷ vs) conf ≡ tally vs conf) × (votes (p ∷ vs) conf ≡ votes vs conf)
  tally_voted vs [] p a = (refl, refl)
  tally_voted vs (q ∷ ps) p a = ground (arith, e.beq_iff p q, tally_voted vs ps p)

  -- A first vote marks one place and counts once.
  pub tally_new :
      (vs conf : List P) (p : P)
      → Distinct conf
      → contains conf p ≡ true
      → contains vs p ≡ false
      → (set (tally vs conf) (scan p (tally vs conf)) (record { peer_id = p; found = true })
          ≡ tally (p ∷ vs) conf)
        × (votes (p ∷ vs) conf ≡ suc (votes vs conf))
  unfolding scan
  tally_new vs [] p d a n = cc
  tally_new vs (q ∷ ps) p d a n = elim (Bool-cases (q == p)) [
    | inl same ↦
        let q≡p : q ≡ p = (e.beq_iff q p).0 same in
        ground
          (arith, eq_refl p, eq_sym p q, tally_absent vs ps p (ap (contains ps) (sym q≡p) ∙ d.0))
    | inr other ↦ ground (arith, eq_sym p q, tally_new vs ps p d.1)
  ]
