-- ===== src/MetaStorage.antt =====
-- cpp/raft_meta.h and cpp/raft_meta.cc: the term and the vote that a node keeps on disk. Writing the
-- file is the system's: `writable` says whether it succeeds. A result code 0 is `true`.
use hit_consistency.Prelude.{ℕ, Bool, true, false, Option, none, some, if◌then◌else◌}

pub record MetaStorage (P : Type 0) : Type 0 where
  pub is_inited : Bool
  pub term : ℕ
  pub votedfor : P
  pub disk : Option (ℕ × P)
  pub writable : Bool

module _ {P : Type 0} where
  unfoldable pub save : MetaStorage P → MetaStorage P × Bool
  save m = if m.writable then (record m { disk = some (m.term, m.votedfor) }, true) else (m, false)

  unfoldable pub load : MetaStorage P → MetaStorage P
  load m = elim m.disk [
    | none ↦ m
    | some (term, votedfor) ↦ record m { term = term; votedfor = votedfor }
  ]

  unfoldable pub set_term : MetaStorage P → ℕ → MetaStorage P × Bool
  unfolding save
  set_term m term = if m.is_inited then save (record m { term = term }) else (m, false)

  unfoldable pub set_votedfor : MetaStorage P → P → MetaStorage P × Bool
  unfolding save
  set_votedfor m peer_id =
      if m.is_inited then save (record m { votedfor = peer_id }) else (m, false)

  unfoldable pub set_term_and_votedfor : MetaStorage P → ℕ → P → MetaStorage P × Bool
  unfolding save
  set_term_and_votedfor m term peer_id =
      if m.is_inited then save (record m { term = term; votedfor = peer_id }) else (m, false)
