-- ===== src/ConfigurationManager.antt =====
-- cpp/configuration_manager.h and cpp/configuration_manager.cc: the history of the configurations.
-- A configuration is the list of its peers; a failed CHECK is logged and the call goes on.
pub mod History
pub mod Lookup
use hit_consistency.Configuration.{insert_all}
use hit_consistency.Prelude.{
  ℕ, Bool, true, false, ◌||◌, Option, none, some, List, [], ◌∷◌, ◌++◌, last?, ltb, leb,
  if◌then◌else◌, Eq, contains,
}
use hit_consistency.LogEntry.{LogId, LogEntry, zero_id}

pub record ConfigurationEntry (P : Type 0) : Type 0 where
  pub id : LogId
  pub conf : List P
  pub old_conf : List P

pub record ConfigurationManager (P : Type 0) : Type 0 where
  pub configurations : List (ConfigurationEntry P)
  pub snapshot : ConfigurationEntry P

abbrev no_peers : {P : Type 0} → List P → Bool
no_peers [] = true
no_peers (p ∷ ps) = false

abbrev listed : {P : Type 0} → Option (List P) → List P
listed none = []
listed (some ps) = ps

module _ {P : Type 0} where
  unfoldable pub empty_entry : ConfigurationEntry P
  empty_entry = record { id = zero_id; conf = []; old_conf = [] }

  -- The entry of a configuration log entry.
  unfoldable pub of_log_entry : {D : Type 0} → LogEntry P D → ConfigurationEntry P
  of_log_entry entry = record {
    id = entry.id;
    conf = listed entry.peers;
    old_conf = listed entry.old_peers;
  }

  unfoldable pub stable : ConfigurationEntry P → Bool
  stable c = no_peers c.old_conf

  unfoldable pub new : ConfigurationManager P
  unfolding empty_entry
  new = record { configurations = []; snapshot = empty_entry }

  -- The code 0 is `true`, -1 is `false`.
  unfoldable pub add : ConfigurationManager P → ConfigurationEntry P → ConfigurationManager P × Bool
  add m entry =
      let added = record m { configurations = m.configurations ++ entry ∷ [] } in
      elim (last? m.configurations) [
        | none ↦ (added, true)
        | some back ↦ if leb entry.id.index back.id.index then (m, false) else (added, true)
      ]

  unfoldable pub drop_front : ℕ → List (ConfigurationEntry P) → List (ConfigurationEntry P)
  drop_front kept [] = []
  drop_front kept (c ∷ cs) =
      let rest = drop_front kept cs in if ltb c.id.index kept then rest else c ∷ cs

  unfoldable pub truncate_prefix : ConfigurationManager P → ℕ → ConfigurationManager P
  unfolding drop_front
  truncate_prefix m first_index_kept = record m {
    configurations = drop_front first_index_kept m.configurations;
  }

  -- The loop that pops the back: an entry stays if one behind it stays, or if it is not above.
  unfoldable pub drop_back : ℕ → List (ConfigurationEntry P) → List (ConfigurationEntry P)
  drop_back kept [] = []
  drop_back kept (c ∷ cs) = elim (drop_back kept cs) [
    | [] ↦ if ltb kept c.id.index then [] else c ∷ []
    | d ∷ ds ↦ c ∷ (d ∷ ds)
  ]

  unfoldable pub truncate_suffix : ConfigurationManager P → ℕ → ConfigurationManager P
  unfolding drop_back
  truncate_suffix m last_index_kept = record m {
    configurations = drop_back last_index_kept m.configurations;
  }

  -- The entry before the first that lies above the index; `before` is the one last passed.
  unfoldable pub last_upto :
      ConfigurationEntry P → ℕ → List (ConfigurationEntry P) → ConfigurationEntry P
  last_upto before index [] = before
  last_upto before index (c ∷ cs) =
      let rest = last_upto c index cs in if ltb index c.id.index then before else rest

  unfoldable pub get : ConfigurationManager P → ℕ → ConfigurationEntry P
  unfolding last_upto
  get m last_included_index = last_upto m.snapshot last_included_index m.configurations

  unfoldable pub last_configuration : ConfigurationManager P → ConfigurationEntry P
  last_configuration m = elim (last? m.configurations) [ none ↦ m.snapshot | some back ↦ back ]

module _ {P : Type 0} ⦃e : Eq P⦄ where
  unfoldable pub entry_contains : ConfigurationEntry P → P → Bool
  entry_contains c peer = contains c.conf peer || contains c.old_conf peer

module _ {P : Type 0} (less : P → P → Bool) where
  -- list_peers: the set of the peers of both configurations.
  unfoldable pub list_peers : ConfigurationEntry P → List P
  unfolding insert_all
  list_peers c = insert_all less c.old_conf (insert_all less c.conf [])
