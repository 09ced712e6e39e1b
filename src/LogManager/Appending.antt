-- ===== src/LogManager/Appending.antt =====
-- check_and_resolve_conflict and append_entries of cpp/log_manager.cc.
use hit_consistency.Prelude.{
  [], ◌∷◌, List, ℕ, zero, suc, Bool, not, ◌&&◌, ◌||◌, Option, none, some, if◌then◌else◌, ltb, leb,
  ◌==◌, nat_eq, ◌+◌, ◌-◌, ◌++◌, length, get_elem?, set, ◌^◌,
}
use Prim.Native.Nat.{bit_or}
use hit_consistency.LogEntry.{LogEntry, configuration}
use hit_consistency.ConfigurationManager.{add, of_log_entry}
use hit_consistency.LogManager.Waiting.{wakeup_all_waiter}
use hit_consistency.LogManager.{LogManager, store, shift_left, get_term, unsafe_truncate_suffix}

-- The codes 0, -1 and 1 of check_and_resolve_conflict.
pub data Verdict : Type 0 where
  accepted gap already_applied : Verdict

pub record Resolved (P D C W : Type 0) : Type 0 where
  pub verdict : Verdict
  pub manager : LogManager P D C W
  pub entries : List (LogEntry P D)

-- What the call does with its closure: the disk thread runs it, or it runs with EIO or EINVAL, or
-- without an error.
pub data Fate : Type 0 where
  queued corrupted has_gap nothing_new : Fate

pub record Appended (P D C W : Type 0) : Type 0 where
  pub fate : Fate
  pub manager : LogManager P D C W
  pub woken : List (ℕ × W)

abbrev conflicts : Bool → ℕ → ℕ → Bool
conflicts oo target term = not (target == term) && (not oo || not (target == 0))

-- `bitset.set(n)`, which throws out_of_range.
abbrev pub set_bit : ℕ → ℕ → Option ℕ
set_bit b n = if leb 1024 n then none else some (bit_or b (2 ^ n))

module _ {P D : Type 0} where
  -- The leader gives the entries the indexes after its last one.
  unfoldable pub assign_indexes : ℕ → List (LogEntry P D) → List (LogEntry P D)
  assign_indexes last [] = []
  assign_indexes last (e ∷ es) =
      record e { id = record { index = last + 1; term = e.id.term } } ∷ assign_indexes (last + 1) es

  abbrev pub back_of : LogEntry P D → List (LogEntry P D) → LogEntry P D
  back_of e [] = e
  back_of e (f ∷ es) = back_of f es

  -- The loop that moves the last index on, at most `n` times.
  unfoldable pub connect : ℕ → ℕ → List (Option (LogEntry P D)) → ℕ → Option ℕ
  connect zero first logs last = some last
  connect (suc n) first logs last =
      let next = connect n first logs (last + 1) in
      if ltb (last + 1) first then none else elim (get_elem? logs (last + 1 - first)) [
        | none ↦ none
        | some none ↦ some last
        | some (some e) ↦ next
      ]

module _ {P D C W : Type 0} where
  -- A step of the bitmap and the memory to the next greatest index.
  abbrev pub push : LogManager P D C W → Option (LogEntry P D) → LogManager P D C W
  push m none = record m {
    dependency_bitmap = shift_left m.dependency_bitmap 1;
    logs_in_memory = m.logs_in_memory ++ none ∷ [];
    max_log_index = m.max_log_index + 1;
  }
  push m (some e) = record m {
    dependency_bitmap = bit_or (shift_left m.dependency_bitmap 1) 1;
    logs_in_memory = m.logs_in_memory ++ some e ∷ [];
    max_log_index = m.max_log_index + 1;
  }

  -- The fast path.
  unfoldable pub push_all : LogManager P D C W → List (LogEntry P D) → LogManager P D C W
  push_all m [] = m
  push_all m (e ∷ es) = push_all (push m (some e)) es

  -- `n` rounds of the loop up to the last entry; the iterator is the list of what it has not passed.
  unfoldable pub push_between :
      ℕ → LogManager P D C W → List (LogEntry P D) → Option (LogManager P D C W)
  push_between zero m es = some m
  push_between (suc n) m [] = none
  push_between (suc n) m (e ∷ es) =
      let taken = push_between n (push m (some e)) es in
      let missing = push_between n (push m none) (e ∷ es) in
      if e.id.index == m.max_log_index + 1 then taken else missing

  unfoldable pub push_holes : ℕ → LogManager P D C W → LogManager P D C W
  push_holes zero m = m
  push_holes (suc n) m = push_holes n (push m none)

  -- The configurations among the entries; a failed add is logged.
  unfoldable pub add_configurations : LogManager P D C W → List (LogEntry P D) → LogManager P D C W
  add_configurations m [] = m
  add_configurations m (e ∷ es) =
      add_configurations
        (elim e.type [
          | configuration ↦ record m { config_manager = (add m.config_manager (of_log_entry e)).0 }
          | other ↦ m
        ])
        es

  abbrev pub put : LogManager P D C W → ℕ → LogEntry P D → Option ℕ → Option (LogManager P D C W)
  put m k e none = none
  put m k e (some bitmap) =
      some
        (record m { logs_in_memory = set m.logs_in_memory k (some e); dependency_bitmap = bitmap })

  -- The loop that writes the entries into the memory, which begins at the index `first`.
  unfoldable pub place : ℕ → LogManager P D C W → List (LogEntry P D) → Option (LogManager P D C W)
  place first m [] = some m
  place first m (e ∷ es) =
      let k = e.id.index - first in
      elim (if ltb e.id.index first
          || leb (length m.logs_in_memory) k
          || ltb m.max_log_index e.id.index
        then none
        else put m k e (set_bit m.dependency_bitmap (m.max_log_index - e.id.index))) [
          | none ↦ none
          | some m' ↦ place first m' es
        ]

  abbrev pub connected : Option (LogManager P D C W) → ℕ → Option (LogManager P D C W)
  connected none first = none
  connected (some m) first =
      elim (connect (m.max_log_index - m.last_log_index) first m.logs_in_memory m.last_log_index) [
        | none ↦ none
        | some last ↦ some (record m { last_log_index = last })
      ]

  -- The part of append_entries on entries that are not empty.
  unfoldable pub insert_entries :
      LogManager P D C W → LogEntry P D → List (LogEntry P D) → Option (LogManager P D C W)
  unfolding push_holes place connect
  insert_entries m e es =
      let filled = push_holes ((back_of e es).id.index - m.max_log_index) m in
      let first = filled.max_log_index + 1 - length filled.logs_in_memory in
      connected (place first filled (e ∷ es)) first

  module _ (stored_term : ℕ → ℕ) where
    -- The entries from the first conflicting one on.
    unfoldable pub from_conflict :
        Bool → LogManager P D C W → List (LogEntry P D) → Option (List (LogEntry P D))
    from_conflict oo m [] = some []
    from_conflict oo m (e ∷ es) =
        let rest = from_conflict oo m es in
        elim (get_term stored_term m e.id.index) [
          | none ↦ none
          | some target ↦ if conflicts oo target e.id.term then some (e ∷ es) else rest
        ]

    abbrev raised : ℕ → LogManager P D C W → LogManager P D C W
    raised back m = record m {
      max_log_index = if ltb m.max_log_index back then back else m.max_log_index;
    }

    -- The entries overlap the local ones.
    abbrev resolve_overlap :
        Bool
        → LogManager P D C W
        → List (LogEntry P D)
        → ℕ
        → Option (List (LogEntry P D))
        → Option (Resolved P D C W)
    resolve_overlap oo m entries back none = none
    resolve_overlap oo m entries back (some []) = some (record {
      verdict = accepted;
      manager = if oo then raised back m else m;
      entries = if oo then entries else [];
    })
    resolve_overlap oo m entries back (some (c ∷ cs)) =
        elim (if leb c.id.index m.last_log_index
          then unsafe_truncate_suffix stored_term m (c.id.index - 1)
          else some m) [
            | none ↦ none
            | some m' ↦
                some (record { verdict = accepted; manager = raised back m'; entries = c ∷ cs })
          ]

    unfoldable pub check_and_resolve_conflict :
        LogManager P D C W → Bool → LogEntry P D → List (LogEntry P D) → Option (Resolved P D C W)
    unfolding push_all push_between from_conflict
    check_and_resolve_conflict m oo e es =
        let entries = e ∷ es in
        let back = (back_of e es).id.index in
        if e.id.index == 0
        then some (record {
          verdict = accepted;
          manager = record m { last_log_index = m.last_log_index + length entries };
          entries = assign_indexes m.last_log_index entries;
        })
        else if not oo && ltb (m.last_log_index + 1) e.id.index
        then some (record { verdict = gap; manager = m; entries = entries })
        else if leb back m.applied_id.index
        then some (record { verdict = already_applied; manager = m; entries = entries })
        else if e.id.index == m.max_log_index + 1
        then some (record {
          verdict = accepted;
          manager = raised back (push_all m entries);
          entries = entries;
        })
        else if ltb m.max_log_index back
        then elim (push_between (back - m.max_log_index) m entries) [
          | none ↦ none
          | some m' ↦ some (record { verdict = accepted; manager = m'; entries = entries })
        ]
        else resolve_overlap oo m entries back (from_conflict oo m entries)

    abbrev queue_entries :
        C → List (LogEntry P D) → Option (LogManager P D C W) → Option (Appended P D C W)
    queue_entries done entries none = none
    queue_entries done entries (some m) =
        let (m', woken) =
          wakeup_all_waiter (record m { disk_queue = m.disk_queue ++ store entries done ∷ [] }) in
        some (record { fate = queued; manager = m'; woken = woken })

    abbrev insert_resolved :
        C → LogManager P D C W → List (LogEntry P D) → Option (Appended P D C W)
    insert_resolved done m [] = queue_entries done [] (some m)
    insert_resolved done m (e ∷ es) =
        queue_entries done (e ∷ es) (insert_entries (add_configurations m (e ∷ es)) e es)

    abbrev after_check : C → Option (Resolved P D C W) → Option (Appended P D C W)
    after_check done none = none
    after_check done (some r) = elim r.verdict [
      | accepted ↦ insert_resolved done r.manager r.entries
      | gap ↦ some (record { fate = has_gap; manager = r.manager; woken = [] })
      | already_applied ↦ some (record { fate = nothing_new; manager = r.manager; woken = [] })
    ]

    unfoldable pub append_entries :
        LogManager P D C W → Bool → List (LogEntry P D) → C → Option (Appended P D C W)
    unfolding check_and_resolve_conflict insert_entries
    append_entries m oo entries done =
        if m.has_error
        then some (record { fate = corrupted; manager = m; woken = [] })
        else elim entries [
          | [] ↦ queue_entries done [] (some m)
          | e ∷ es ↦ after_check done (check_and_resolve_conflict m oo e es)
        ]
