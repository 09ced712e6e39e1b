-- ===== src/Ballot.antt =====
-- cpp/ballot.h and cpp/ballot.cc: the count of the votes of a configuration, or of two in a joint
-- change. `P` is PeerId with its operator==; a configuration is the list that its iterators give.
pub mod Tally
pub mod Quorum
pub mod Monotone
use hit_consistency.Prelude.{
  ℕ, zero, suc, ◌+◌, ◌/◌, Bool, true, false, ◌&&◌, Option, none, some, List, [], ◌∷◌, map, length,
  get_elem?, set, Eq, ◌==◌, if◌then◌else◌, ℤ, pos, negsuc, ◌-ℤ◌, leb_ℤ,
}

pub record UnfoundPeerId (P : Type 0) : Type 0 where
  pub peer_id : P
  pub found : Bool

pub record PosHint : Type 0 where
  pub pos0 : ℤ
  pub pos1 : ℤ

-- `_quorum` and `_old_quorum` are `int` and can fall below 0.
pub record Ballot (P : Type 0) : Type 0 where
  pub peers : List (UnfoundPeerId P)
  pub quorum : ℤ
  pub old_peers : List (UnfoundPeerId P)
  pub old_quorum : ℤ

abbrev pub no_hint : PosHint
no_hint = record { pos0 = negsuc 0; pos1 = negsuc 0 }

module _ {P : Type 0} where
  unfoldable pub new : Ballot P
  new = record { peers = []; quorum = pos 0; old_peers = []; old_quorum = pos 0 }

  abbrev pub unfound : List P → List (UnfoundPeerId P)
  unfound = map (λ p. record { peer_id = p; found = false })

  unfoldable pub init : List P → Option (List P) → Ballot P
  init conf none = record {
    peers = unfound conf;
    quorum = pos (length (unfound conf) / 2 + 1);
    old_peers = [];
    old_quorum = pos 0;
  }
  init conf (some old_conf) = record {
    peers = unfound conf;
    quorum = pos (length (unfound conf) / 2 + 1);
    old_peers = unfound old_conf;
    old_quorum = pos (length (unfound old_conf) / 2 + 1);
  }

  unfoldable pub granted : Ballot P → Bool
  granted b = leb_ℤ b.quorum (pos 0) && leb_ℤ b.old_quorum (pos 0)

module _ {P : Type 0} ⦃e : Eq P⦄ where
  -- The loop of `find_peer`; the length of the list is `end()`.
  unfoldable pub scan : P → List (UnfoundPeerId P) → ℕ
  scan peer [] = zero
  scan peer (u ∷ us) = if u.peer_id == peer then zero else suc (scan peer us)

  abbrev hinted : P → List (UnfoundPeerId P) → ℕ → Option (UnfoundPeerId P) → ℕ
  hinted peer peers h none = scan peer peers
  hinted peer peers h (some u) = if u.peer_id == peer then h else scan peer peers

  unfoldable pub find_peer : P → List (UnfoundPeerId P) → ℤ → ℕ
  find_peer peer peers (negsuc h) = scan peer peers
  find_peer peer peers (pos h) = hinted peer peers h (get_elem? peers h)

  abbrev mark :
      List (UnfoundPeerId P) → ℤ → ℕ → Option (UnfoundPeerId P) → List (UnfoundPeerId P) × ℤ × ℤ
  mark peers quorum i none = (peers, quorum, negsuc 0)
  mark peers quorum i (some u) =
      if u.found
      then (peers, quorum, pos i)
      else (set peers i (record u { found = true }), quorum -ℤ pos 1, pos i)

  -- What `grant` does to one of the two lists, its count and its hint.
  unfoldable pub grant_in : P → List (UnfoundPeerId P) → ℤ → ℤ → List (UnfoundPeerId P) × ℤ × ℤ
  unfolding find_peer
  grant_in peer peers quorum hint =
      let i = find_peer peer peers hint in mark peers quorum i (get_elem? peers i)

  abbrev grant_old : P → Ballot P → PosHint → List (UnfoundPeerId P) → Ballot P × PosHint
  grant_old peer b hint [] = (b, record hint { pos1 = negsuc 0 })
  grant_old peer b hint (u ∷ us) =
      let (old_peers, old_quorum, pos1) = grant_in peer (u ∷ us) b.old_quorum hint.pos1 in
      (record b { old_peers = old_peers; old_quorum = old_quorum }, record hint { pos1 = pos1 })

  -- `grant(peer, hint)`.
  unfoldable pub grant_hinted : P → Ballot P → PosHint → Ballot P × PosHint
  unfolding grant_in
  grant_hinted peer b hint =
      let (peers, quorum, pos0) = grant_in peer b.peers b.quorum hint.pos0 in
      grant_old peer (record b { peers = peers; quorum = quorum }) (record hint { pos0 = pos0 })
        b.old_peers

  -- `grant(peer)`.
  unfoldable pub grant : P → Ballot P → Ballot P
  unfolding grant_hinted
  grant peer b = (grant_hinted peer b no_hint).0

  -- The votes of a list of peers, one call of `grant` each; the first stands last.
  unfoldable pub grant_all : List P → Ballot P → Ballot P
  grant_all [] b = b
  grant_all (v ∷ vs) b = grant v (grant_all vs b)
