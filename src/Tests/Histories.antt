-- ===== src/Tests/Histories.antt =====
-- A history of two configurations.
use hit_consistency.Prelude.{[], ◌∷◌, List, arith, ℕ, nat_eq, ◌≡◌}
use hit_consistency.ConfigurationManager.{
  ConfigurationEntry, ConfigurationManager, add, truncate_prefix, get,
}
use hit_consistency.ConfigurationManager.History.{Rising, add_lem, truncate_lem}
use hit_consistency.ConfigurationManager.Lookup.{get_lem}

abbrev entry : ℕ → List ℕ → ConfigurationEntry ℕ
entry index conf = record { id = record { index = index; term = 1 }; conf = conf; old_conf = [] }

abbrev history : ConfigurationManager ℕ
history = record {
  configurations = entry 3 (1 ∷ 2 ∷ []) ∷ entry 8 (1 ∷ []) ∷ [];
  snapshot = entry 0 [];
}

rises : Rising history.configurations
rises = omega arith

add_lem_example : Rising (add history (entry 8 [])).0.configurations
add_lem_example = (add_lem history (entry 8 []) rises).0

truncate_lem_example :
    truncate_prefix history 5 ≡ record history { configurations = entry 8 (1 ∷ []) ∷ [] }
truncate_lem_example = (truncate_lem history 5 rises).0

get_lem_example : get history 7 ≡ entry 3 (1 ∷ 2 ∷ [])
get_lem_example = get_lem history 7 rises
