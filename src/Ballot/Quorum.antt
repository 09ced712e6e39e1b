-- ===== src/Ballot/Quorum.antt =====
-- cpp/ballot.cc: when a ballot is granted, and that two granted ballots share a voter.
use hit_consistency.Prelude.{
  ℕ, ◌+◌, ◌*◌, ◌/◌, ◌≤◌, ◌<◌, ◌≡◌, refl, ap, sym, ◌∙◌, ◌↔◌, true, false, ◌&&◌, Option, none, some,
  List, [], ◌∷◌, length, Eq, eq_refl, contains, Distinct, count_if, ℤ, pos, negsuc, ◌-ℤ◌, sub_ℕ,
  sub_ℕ-suc, arith, Bool-cases, inl, inr,
}
use hit_consistency.Ballot.{
  PosHint, Ballot, scan, unfound, init, granted, grant_in, grant_hinted, grant, grant_all, no_hint,
}
use hit_consistency.Ballot.Tally.{
  tally, votes, find_peer_lem, scan_absent, scan_present, tally_absent, tally_voted, tally_new,
  length-tally,
}

-- More than half of the configuration.
abbrev pub Majority : {P : Type 0} ⦃e : Eq P⦄ → List P → List P → Type 0
Majority vs conf = length conf < 2 * votes vs conf

module _ {P : Type 0} ⦃e : Eq P⦄ where
  -- The count that is left after the votes of `vs`.
  abbrev pub left : List P → List P → ℤ
  left vs conf = sub_ℕ (length conf / 2 + 1) (votes vs conf)

  grant_in_absent :
      (vs conf : List P) (p : P) (q hint : ℤ)
      → Distinct conf
      → contains conf p ≡ false
      → grant_in p (tally vs conf) q hint ≡ (tally vs conf, q, negsuc 0)
  unfolding grant_in
  grant_in_absent vs conf p q hint d a =
      rw (find_peer_lem vs conf p hint d, scan_absent vs conf p a)

  grant_in_voted :
      (vs conf : List P) (p : P) (q hint : ℤ)
      → Distinct conf
      → contains conf p ≡ true
      → contains vs p ≡ true
      → grant_in p (tally vs conf) q hint ≡ (tally vs conf, q, pos (scan p (tally vs conf)))
  unfolding grant_in
  grant_in_voted vs conf p q hint d a v =
      rw (find_peer_lem vs conf p hint d, scan_present vs conf p a, v)

  grant_in_new :
      (vs conf : List P) (p : P) (q hint : ℤ)
      → Distinct conf
      → contains conf p ≡ true
      → contains vs p ≡ false
      → grant_in p (tally vs conf) q hint
        ≡ (tally (p ∷ vs) conf, q -ℤ pos 1, pos (scan p (tally vs conf)))
  unfolding grant_in
  grant_in_new vs conf p q hint d a v =
      rw (find_peer_lem vs conf p hint d, scan_present vs conf p a, v)
        (ap (λ l. (l, q -ℤ pos 1, pos (scan p (tally vs conf)))) (tally_new vs conf p d a v).0)

  -- One vote, counted in one list; the hint changes nothing but the hint.
  pub grant_in_lem :
      (vs conf : List P) (p : P) (hint : ℤ)
      → Distinct conf
      → (hint' : ℤ) × (grant_in p (tally vs conf) (left vs conf) hint
          ≡ (tally (p ∷ vs) conf, left (p ∷ vs) conf, hint'))
  grant_in_lem vs conf p hint d = elim (Bool-cases (contains conf p)) [
    | inl present ↦ elim (Bool-cases (contains vs p)) [
      | inl voted ↦ (
        pos (scan p (tally vs conf)),
        rw ((tally_voted vs conf p voted).0, (tally_voted vs conf p voted).1)
            (grant_in_voted vs conf p (left vs conf) hint d present voted),
      )
      | inr fresh ↦ (
        pos (scan p (tally vs conf)),
        grant_in_new vs conf p (left vs conf) hint d present fresh
            ∙ rw (
              (tally_new vs conf p d present fresh).1,
              ← sub_ℕ-suc (length conf / 2 + 1) (votes vs conf),
            ),
      )
    ]
    | inr absent ↦ (
      negsuc 0,
      rw ((tally_absent vs conf p absent).0, (tally_absent vs conf p absent).1)
          (grant_in_absent vs conf p (left vs conf) hint d absent),
    )
  ]

  -- The second configuration of a joint change, `[]` if there is none.
  abbrev pub old_list : Option (List P) → List P
  old_list none = []
  old_list (some old_conf) = old_conf

  abbrev pub old_left : List P → Option (List P) → ℤ
  old_left vs none = pos 0
  old_left vs (some old_conf) = left vs old_conf

  -- The ballot of a configuration, or of two, after the votes of `vs`.
  abbrev pub after : List P → List P → Option (List P) → Ballot P
  after vs conf old = record {
    peers = tally vs conf;
    quorum = left vs conf;
    old_peers = tally vs (old_list old);
    old_quorum = old_left vs old;
  }

  unfound-tally : (conf : List P) → (unfound conf ≡ tally [] conf) × (votes [] conf ≡ 0)
  unfound-tally [] = (refl, refl)
  unfound-tally (p ∷ ps) = (
    ap (λ l. record { peer_id = p; found = false } ∷ l) (unfound-tally ps).0,
    (unfound-tally ps).1,
  )

  left_nil : (conf : List P) → pos (length (unfound conf) / 2 + 1) ≡ left [] conf
  left_nil conf =
      rw ((unfound-tally conf).0, (unfound-tally conf).1, length-tally [] conf) (ground arith)

  init_lem : (conf : List P) (old : Option (List P)) → init conf old ≡ after [] conf old
  unfolding init
  init_lem conf none = λ i. record {
    peers = (unfound-tally conf).0 i;
    quorum = left_nil conf i;
    old_peers = [];
    old_quorum = pos 0;
  }
  init_lem conf (some old) = λ i. record {
    peers = (unfound-tally conf).0 i;
    quorum = left_nil conf i;
    old_peers = (unfound-tally old).0 i;
    old_quorum = left_nil old i;
  }

  grant_after :
      (vs conf : List P) (old : Option (List P)) (p : P) (hint : PosHint)
      → Distinct conf
      → Distinct (old_list old)
      → (grant_hinted p (after vs conf old) hint).0 ≡ after (p ∷ vs) conf old
  unfolding grant_hinted
  grant_after vs conf none p hint d o =
      let (h, eq) = grant_in_lem vs conf p hint.pos0 d in rw (eq, grant_hinted)
  grant_after vs conf (some []) p hint d o =
      let (h, eq) = grant_in_lem vs conf p hint.pos0 d in rw (eq, grant_hinted)
  grant_after vs conf (some (q ∷ qs)) p hint d o =
      let (h, eq) = grant_in_lem vs conf p hint.pos0 d in
      let (h', eq') = grant_in_lem vs (q ∷ qs) p hint.pos1 o in rw (eq, grant_hinted, eq')

  grant_all_lem :
      (vs conf : List P) (old : Option (List P))
      → Distinct conf
      → Distinct (old_list old)
      → grant_all vs (init conf old) ≡ after vs conf old
  unfolding grant_all grant
  grant_all_lem [] conf old d o = init_lem conf old
  grant_all_lem (v ∷ vs) conf old d o =
      rw (grant_all_lem vs conf old d o) (grant_after vs conf old v no_hint d o)

  -- The calls of grant(peer, hint) with any hints at all give the ballot that grant(peer) gives
  -- with none, where no peer stands twice in a configuration.
  pub grant-hint_irrelevant :
      (vs conf : List P) (old : Option (List P)) (p : P) (hint : PosHint)
      → Distinct conf
      → Distinct (old_list old)
      → (grant_hinted p (grant_all vs (init conf old)) hint).0
        ≡ grant p (grant_all vs (init conf old))
  unfolding grant
  grant-hint_irrelevant vs conf old p hint d o =
      rw (grant_all_lem vs conf old d o)
        (grant_after vs conf old p hint d o ∙ sym (grant_after vs conf old p no_hint d o))

  -- A majority of each configuration that there is.
  abbrev pub Elected : List P → List P → Option (List P) → Type 0
  Elected vs conf none = Majority vs conf
  Elected vs conf (some old_conf) = Majority vs conf × Majority vs old_conf

  -- After the votes of `vs`, in any order and with any repeats, the ballot is granted exactly
  -- when the voters are more than half of the configuration and, in a joint change, also more
  -- than half of the old one. No peer stands twice in a configuration.
  pub granted_iff :
      (vs conf : List P) (old : Option (List P))
      → Distinct conf
      → Distinct (old_list old)
      → (granted (grant_all vs (init conf old)) ≡ true) ↔ Elected vs conf old
  unfolding granted
  granted_iff vs conf none d o = rw (grant_all_lem vs conf none d o) (ground arith)
  granted_iff vs conf (some old) d o = rw (grant_all_lem vs conf (some old) d o) (ground arith)

  both : List P → List P → List P → ℕ
  both vs ws conf = count_if (λ p. contains vs p && contains ws p) conf

  votes-add : (vs ws conf : List P) → votes vs conf + votes ws conf ≤ both vs ws conf + length conf
  unfolding both
  votes-add vs ws [] = omega arith
  votes-add vs ws (p ∷ ps) = ground (arith, votes-add vs ws ps)

  both_witness :
      (vs ws conf : List P)
      → 0 < both vs ws conf
      → (p : P) × (contains conf p ≡ true) × (contains vs p ≡ true) × (contains ws p ≡ true)
  unfolding both
  both_witness vs ws [] h = absurd (omega arith)
  both_witness vs ws (p ∷ ps) h = elim (Bool-cases (contains vs p && contains ws p)) [
    | inl hit ↦ (p, ground (arith, eq_refl p), ground arith, ground arith)
    | inr miss ↦ let (q, i, v, w) = both_witness vs ws ps (rw miss at h) in (q, ground arith, v, w)
  ]

  Elected-Majority :
      (vs conf : List P) (old : Option (List P)) → Elected vs conf old → Majority vs conf
  Elected-Majority vs conf none h = h
  Elected-Majority vs conf (some old) h = h.0

  -- Two ballots of the same configuration that are both granted have a common voter, a member of
  -- that configuration, also where each or one of them is a ballot of a joint change.
  pub granted-intersect :
      (vs ws conf : List P) (old old' : Option (List P))
      → Distinct conf
      → Distinct (old_list old)
      → Distinct (old_list old')
      → granted (grant_all vs (init conf old)) ≡ true
      → granted (grant_all ws (init conf old')) ≡ true
      → (p : P) × (contains conf p ≡ true) × (contains vs p ≡ true) × (contains ws p ≡ true)
  granted-intersect vs ws conf old old' d o o' g g' = both_witness vs ws conf (
      omega (
        arith,
        votes-add vs ws conf,
        Elected-Majority vs conf old ((granted_iff vs conf old d o).0 g),
        Elected-Majority ws conf old' ((granted_iff ws conf old' d o').0 g'),
      ))
