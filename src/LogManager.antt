-- ===== src/LogManager.antt =====
-- cpp/log_manager.h and cpp/log_manager.cc: the log in memory, which has holes where entries came out
-- of order. `P` is PeerId, `D` the payload, `C` the type of the closures that wait for the disk and `W`
-- that of the waiters for new entries. A null pointer in memory is `none`. Following a null pointer,
-- reading a deque out of range and bitset's out_of_range exception are the result `none`. The tasks of
-- the disk thread are appended to a list. A bitset<1024> is a number below 2 ^ 1024. Reference counts
-- are left out, and LOG(FATAL) logs and goes on.
pub mod Appending
pub mod Entries
pub mod Insertion
pub mod Memory
pub mod Truncation
pub mod Suffix
pub mod Waiting
pub mod Waiters
use hit_consistency.Prelude.{
  [], ◌∷◌, List, ℕ, Bool, true, false, not, ◌&&◌, ◌||◌, Option, none, some, if◌then◌else◌, ltb, leb,
  ◌==◌, nat_eq, ◌+◌, ◌-◌, ◌++◌, length, get_elem?, last?, ◌*◌, ◌/◌, ◌^◌, ◌%◌,
}
use Prim.Native.Nat.{bit_and}
use hit_consistency.LogEntry.{LogId, LogEntry, zero_id, same_id, differs, less, greater}
use hit_consistency.ConfigurationManager.{
  ConfigurationEntry, ConfigurationManager, last_configuration, truncate_prefix as forget_before,
  truncate_suffix as forget_after,
}

-- What the disk thread is given: entries to store with their closure, or a change of the storage.
pub data DiskTask (P D C : Type 0) : Type 0 where
  store : List (LogEntry P D) → C → DiskTask P D C
  cut_prefix : ℕ → DiskTask P D C
  cut_suffix : ℕ → ℕ → DiskTask P D C
  restart : ℕ → DiskTask P D C

pub record LogManager (P D C W : Type 0) : Type 0 where
  pub config_manager : ConfigurationManager P
  pub disk_queue : List (DiskTask P D C)
  pub wait_map : List (ℕ × W)
  pub stopped : Bool
  pub has_error : Bool
  pub next_wait_id : ℕ
  pub dependency_look_back : ℕ
  pub disk_id : LogId
  pub applied_id : LogId
  pub logs_in_memory : List (Option (LogEntry P D))
  pub first_log_index : ℕ
  pub last_log_index : ℕ
  pub max_log_index : ℕ
  pub dependency_bitmap : ℕ
  pub last_snapshot_id : LogId

-- std::min(a, b).
abbrev pub min_id : LogId → LogId → LogId
min_id a b = if less b a then b else a

-- `bitset << n` and `bitset >> n`, for 1024 bits.
abbrev pub shift_left : ℕ → ℕ → ℕ
shift_left b n = b * 2 ^ n % 2 ^ 1024

abbrev pub shift_right : ℕ → ℕ → ℕ
shift_right b n = b / 2 ^ n

abbrev pub includes : ℕ → ℕ → Bool
includes b dependency = bit_and b dependency == dependency

module _ {P D : Type 0} where
  -- The loop of clear_memory_logs, which the batches of 256 only interrupt.
  unfoldable pub drop_upto : LogId → List (Option (LogEntry P D)) → List (Option (LogEntry P D))
  drop_upto id [] = []
  drop_upto id (none ∷ es) = none ∷ es
  drop_upto id (some e ∷ es) =
      let rest = drop_upto id es in if greater e.id id then some e ∷ es else rest

  -- The loops of truncate_prefix and unsafe_truncate_suffix.
  unfoldable pub drop_before :
      ℕ → List (Option (LogEntry P D)) → Option (List (Option (LogEntry P D)))
  drop_before kept [] = some []
  drop_before kept (none ∷ es) = none
  drop_before kept (some e ∷ es) =
      let rest = drop_before kept es in if ltb e.id.index kept then rest else some (some e ∷ es)

  abbrev keep_back : ℕ → Option (LogEntry P D) → Option (List (Option (LogEntry P D)))
  keep_back kept none = none
  keep_back kept (some e) = if ltb kept e.id.index then some [] else some (some e ∷ [])

  unfoldable pub drop_after :
      ℕ → List (Option (LogEntry P D)) → Option (List (Option (LogEntry P D)))
  drop_after kept [] = some []
  drop_after kept (e ∷ es) = elim (drop_after kept es) [
    | none ↦ none
    | some [] ↦ keep_back kept e
    | some (y ∷ ys) ↦ some (e ∷ (y ∷ ys))
  ]

  -- `i - first_index`, if `first_index <= i <= last_index`, counted from the back.
  abbrev pub from_back :
      List (Option (LogEntry P D)) → ℕ → Option (LogEntry P D) → Option (Option (LogEntry P D))
  from_back logs i none = none
  from_back logs i (some back) =
      if leb (back.id.index + 1) (i + length logs) && leb i back.id.index
      then get_elem? logs (i + length logs - (back.id.index + 1))
      else some none

  unfoldable pub get_entry_from_memory :
      List (Option (LogEntry P D)) → ℕ → Option (Option (LogEntry P D))
  get_entry_from_memory logs i = elim (last? logs) [
    | none ↦ some none
    | some back ↦ from_back logs i back
  ]

abbrev pub term_at : {P D : Type 0} → (ℕ → ℕ) → ℕ → Option (Option (LogEntry P D)) → Option ℕ
term_at stored_term index none = none
term_at stored_term index (some none) = some (stored_term index)
term_at stored_term index (some (some e)) = some e.id.term

module _ {P D C W : Type 0} where
  unfoldable pub clear_memory_logs : LogManager P D C W → LogId → LogManager P D C W
  unfolding drop_upto
  clear_memory_logs m id = record m { logs_in_memory = drop_upto id m.logs_in_memory }

  unfoldable pub set_disk_id : LogManager P D C W → LogId → LogManager P D C W
  unfolding clear_memory_logs
  set_disk_id m id =
      if less id m.disk_id
      then m
      else clear_memory_logs (record m { disk_id = id }) (min_id id m.applied_id)

  unfoldable pub set_applied_id : LogManager P D C W → LogId → LogManager P D C W
  unfolding clear_memory_logs
  set_applied_id m id =
      if less id m.applied_id
      then m
      else clear_memory_logs (record m { applied_id = id }) (min_id m.disk_id id)

  unfoldable pub truncate_prefix : LogManager P D C W → ℕ → Option (LogManager P D C W)
  unfolding drop_before
  truncate_prefix m first_index_kept = elim (drop_before first_index_kept m.logs_in_memory) [
    | none ↦ none
    | some logs ↦ some (record m {
      logs_in_memory = logs;
      first_log_index = first_index_kept;
      last_log_index =
          if ltb m.last_log_index first_index_kept then first_index_kept - 1 else m.last_log_index;
      config_manager = forget_before m.config_manager first_index_kept;
      disk_queue = m.disk_queue ++ cut_prefix first_index_kept ∷ [];
    })
  ]

  unfoldable pub reset : LogManager P D C W → ℕ → LogManager P D C W
  reset m next_log_index = record m {
    logs_in_memory = [];
    first_log_index = next_log_index;
    last_log_index = next_log_index - 1;
    config_manager =
        forget_after (forget_before m.config_manager next_log_index) (next_log_index - 1);
    disk_queue = m.disk_queue ++ restart next_log_index ∷ [];
  }

  -- Whether the entry at an index may be appended before the entries of its dependency bits.
  unfoldable pub check_dependency : LogManager P D C W → ℕ → ℕ → Bool
  check_dependency m this_log_index dependency =
      if dependency == 0
      then true
      else if ltb m.max_log_index this_log_index
      then includes (shift_left m.dependency_bitmap (this_log_index - m.max_log_index)) dependency
      else if leb 1024 (m.max_log_index - this_log_index + m.dependency_look_back)
      then true
      else includes (shift_right m.dependency_bitmap (m.max_log_index - this_log_index)) dependency

  -- check_consistency: `true` is the status OK, `false` is EIO.
  unfoldable pub check_consistency : LogManager P D C W → Bool
  check_consistency m =
      if same_id m.last_snapshot_id zero_id
      then m.first_log_index == 1
      else leb m.first_log_index (m.last_snapshot_id.index + 1)
        && leb m.last_snapshot_id.index m.last_log_index

  -- check_and_set_configuration: the configuration, and whether it was changed.
  unfoldable pub check_and_set_configuration :
      LogManager P D C W → ConfigurationEntry P → ConfigurationEntry P × Bool
  check_and_set_configuration m current =
      let last_conf = last_configuration m.config_manager in
      if differs current.id last_conf.id then (last_conf, true) else (current, false)

  module _ (stored_term : ℕ → ℕ) where
    -- unsafe_get_term and get_term, which differ in the lock; the storage's term is a parameter.
    unfoldable pub get_term : LogManager P D C W → ℕ → Option ℕ
    unfolding get_entry_from_memory
    get_term m index =
        if index == 0
        then some 0
        else if ltb m.max_log_index index || ltb index m.first_log_index
        then some 0
        else term_at stored_term index (get_entry_from_memory m.logs_in_memory index)

    -- last_log_id(false).
    unfoldable pub last_log_id : LogManager P D C W → Option LogId
    unfolding get_term
    last_log_id m =
        if ltb m.last_log_index m.first_log_index
        then some m.last_snapshot_id
        else elim (get_term m m.last_log_index) [
          | none ↦ none
          | some term ↦ some (record { index = m.last_log_index; term = term })
        ]

    abbrev cut : LogManager P D C W → ℕ → Option ℕ → Option (LogManager P D C W)
    cut m kept none = none
    cut m kept (some term) = some (record m {
      config_manager = forget_after m.config_manager kept;
      disk_queue = m.disk_queue ++ cut_suffix kept term ∷ [];
    })

    abbrev cut_logs :
        LogManager P D C W → ℕ → Option (List (Option (LogEntry P D))) → Option (LogManager P D C W)
    cut_logs m kept none = none
    cut_logs m kept (some logs) =
        let m' = record m { logs_in_memory = logs; last_log_index = kept } in
        cut m' kept (get_term m' kept)

    unfoldable pub unsafe_truncate_suffix : LogManager P D C W → ℕ → Option (LogManager P D C W)
    unfolding drop_after get_term
    unsafe_truncate_suffix m last_index_kept =
        if ltb last_index_kept m.applied_id.index
        then some m
        else cut_logs m last_index_kept (drop_after last_index_kept m.logs_in_memory)
