-- ===== src/Ballot/Monotone.antt =====
-- A ballot of cpp/ballot.cc that is granted stays granted.
use hit_consistency.Prelude.{
  [], ◌∷◌, List, arith, ℕ, true, Option, none, some, Eq, ◌≡◌, ◌-ℤ◌, leb_ℤ, pos, ℤ, get_elem?,
}
use hit_consistency.Ballot.{
  Ballot, grant, granted, grant_hinted, grant_in, grant_old, mark, UnfoundPeerId, find_peer,
  PosHint, no_hint,
}

module _ {P : Type 0} ⦃e : Eq P⦄ where
  mark_lem :
      (peers : List (UnfoundPeerId P)) (quorum : ℤ) (i : ℕ) (u : Option (UnfoundPeerId P))
      → leb_ℤ quorum (pos 0) ≡ true
      → leb_ℤ (mark peers quorum i u).1 (pos 0) ≡ true
  unfolding ◌-ℤ◌
  mark_lem peers quorum i none h = h
  mark_lem peers quorum i (some u) h = ground arith

  grant_in_mono :
      (p : P) (peers : List (UnfoundPeerId P)) (quorum hint : ℤ)
      → leb_ℤ quorum (pos 0) ≡ true
      → leb_ℤ (grant_in p peers quorum hint).1 (pos 0) ≡ true
  unfolding grant_in
  grant_in_mono p peers quorum hint h =
      let i = find_peer p peers hint in mark_lem peers quorum i (get_elem? peers i) h

  grant_old_mono :
      (p : P) (b : Ballot P) (hint : PosHint) (us : List (UnfoundPeerId P))
      → granted b ≡ true
      → granted (grant_old p b hint us).0 ≡ true
  unfolding granted
  grant_old_mono p b hint [] h = h
  grant_old_mono p b hint (u ∷ us) h =
      ground (arith, grant_in_mono p (u ∷ us) b.old_quorum hint.pos1)

  first_mono :
      (p : P) (b : Ballot P)
      → granted b ≡ true
      → let (peers, quorum, pos0) = grant_in p b.peers b.quorum no_hint.pos0 in
        granted (record b { peers = peers; quorum = quorum }) ≡ true
  unfolding granted
  first_mono p b h = ground (arith, grant_in_mono p b.peers b.quorum no_hint.pos0)

  pub granted_mono : (p : P) (b : Ballot P) → granted b ≡ true → granted (grant p b) ≡ true
  unfolding grant grant_hinted
  granted_mono p b h =
      let (peers, quorum, pos0) = grant_in p b.peers b.quorum no_hint.pos0 in
      grant_old_mono p (record b { peers = peers; quorum = quorum })
        (record no_hint { pos0 = pos0 }) b.old_peers (first_mono p b h)
