-- ===== src/Tests/Logs.antt =====
-- A follower's log of the entries 1 to 5.
use hit_consistency.Prelude.{
  [], ◌∷◌, refl, arith, ℕ, false, none, some, nat_eq, ◌≡◌, ◌↔◌, ◌⊎◌, ◌^◌, if◌then◌else◌, leb,
}
use hit_consistency.ConfigurationManager
use hit_consistency.LogEntry.{LogEntry, data_entry}
use hit_consistency.LogManager.{
  LogManager, cut_suffix, unsafe_truncate_suffix, drop_after, get_term, get_entry_from_memory,
  set_disk_id,
}
use hit_consistency.LogManager.Appending.{insert_entries}
use hit_consistency.LogManager.Memory.{Aligned, get_entry_from_memory_lem, set_id_lem}
use hit_consistency.LogManager.Entries.{Fits, Inserted, insert_entries_lem}
use hit_consistency.LogManager.Truncation.{truncation-Aligned}
use hit_consistency.LogManager.Waiting.{remove_waiter, notify_on_new_log}
use hit_consistency.LogManager.Suffix.{Full, unsafe_truncate_suffix_lem}
use hit_consistency.ConfigurationManager.{truncate_suffix}
use hit_consistency.LogManager.Waiters.{waiter_lem}

abbrev entry : ℕ → ℕ → LogEntry ℕ ℕ
entry index term = record {
  type = data_entry;
  id = record { index = index; term = term };
  dependency = 0;
  peers = none;
  old_peers = none;
  payload = 0;
}

abbrev log : LogManager ℕ ℕ ℕ ℕ
log = record {
  config_manager = record {
    configurations = [];
    snapshot = record { id = record { index = 0; term = 0 }; conf = []; old_conf = [] };
  };
  disk_queue = [];
  wait_map = [];
  stopped = false;
  has_error = false;
  next_wait_id = 0;
  dependency_look_back = 64;
  disk_id = record { index = 0; term = 0 };
  applied_id = record { index = 0; term = 0 };
  logs_in_memory =
      some (entry 1 1)
      ∷ some (entry 2 1)
      ∷ some (entry 3 1)
      ∷ some (entry 4 1)
      ∷ some (entry 5 1)
      ∷ [];
  first_log_index = 1;
  last_log_index = 5;
  max_log_index = 5;
  dependency_bitmap = 31;
  last_snapshot_id = record { index = 0; term = 0 };
}

abbrev fits : Fits 1 log
fits = record { aligned = (refl, (refl, (refl, (refl, (refl, tt))))); ends = refl }

-- Entry 8 comes early: it leaves two holes.
insert_entries_lem_example :
    (m : LogManager ℕ ℕ ℕ ℕ) × (insert_entries log (entry 8 1) [] ≡ some m)
    × Inserted 1 8 log m (entry 8 1 ∷ [])
insert_entries_lem_example =
    insert_entries_lem 1 8 log (entry 8 1) [] fits (refl, tt) (omega arith) (omega arith)
      (omega arith) (omega arith) (omega arith)

-- The entries 4 and 5 are dropped, and the greatest index stays 5.
abbrev cut_log : LogManager ℕ ℕ ℕ ℕ
cut_log = record log {
  logs_in_memory = some (entry 1 1) ∷ some (entry 2 1) ∷ some (entry 3 1) ∷ [];
  last_log_index = 3;
  disk_queue = cut_suffix 3 1 ∷ [];
}

cut_done : unsafe_truncate_suffix (λ i. 1) log 3 ≡ some cut_log
unfolding unsafe_truncate_suffix drop_after get_term get_entry_from_memory
    ConfigurationManager.truncate_suffix
cut_done = refl

truncation-Aligned_example :
    Aligned 3 cut_log.logs_in_memory
    ↔ ((cut_log.logs_in_memory ≡ log.logs_in_memory) ⊎ (cut_log.logs_in_memory ≡ []))
truncation-Aligned_example =
    truncation-Aligned (λ i. 1) log cut_log 3 (entry 1 1)
      (some (entry 2 1) ∷ some (entry 3 1) ∷ some (entry 4 1) ∷ some (entry 5 1) ∷ []) refl
      (omega arith) fits.aligned cut_done

get_entry_from_memory_lem_example :
    get_entry_from_memory log.logs_in_memory 4 ≡ some (some (entry 4 1))
get_entry_from_memory_lem_example =
    get_entry_from_memory_lem 1 4 log.logs_in_memory (entry 5 1) fits.aligned refl

set_id_lem_example :
    (set_disk_id log (record { index = 2; term = 1 })).applied_id ≡ record { index = 0; term = 0 }
set_id_lem_example = (set_id_lem log (record { index = 2; term = 1 })).1

unsafe_truncate_suffix_lem_example :
    (m : LogManager ℕ ℕ ℕ ℕ) × (unsafe_truncate_suffix (λ i. 0) log 3 ≡ some m)
    × Full 1 m.logs_in_memory
    × ((i : ℕ)
        → get_entry_from_memory m.logs_in_memory i
          ≡ (if leb i 3 then get_entry_from_memory log.logs_in_memory i else some none))
    × (m.last_log_index ≡ 3)
    × (m.config_manager ≡ truncate_suffix log.config_manager 3)
    × (m.disk_queue ≡ cut_suffix 3 1 ∷ [])
unsafe_truncate_suffix_lem_example =
    unsafe_truncate_suffix_lem (λ i. 0) log 1 3 (entry 3 1)
      (refl, (refl, (refl, (refl, (refl, tt))))) (omega arith) refl (omega arith) (omega arith)
      (omega arith) (omega arith)

waiter_lem_example : (remove_waiter log 1).1 ≡ false
waiter_lem_example = (waiter_lem log 5 1 7 (omega arith) tt).2

-- After 2^32 waits a waiter gets the id 0, which says that it does not wait.
no_id : (notify_on_new_log (record log { next_wait_id = 2 ^ 32 }) log.last_log_index 7).1 ≡ 0
unfolding notify_on_new_log
no_id = refl
