-- ===== src/FsmCaller/Iterator.antt =====
-- cpp/fsm_caller.h and cpp/fsm_caller.cc: IteratorImpl, and its wrapper Iterator of cpp/raft.cc, which
-- the state machine is given. `C` is the type of closures and `D` of payloads. `it` is `none` where the
-- source has -1. A pointer followed or an element read that is not there is `none`.
use hit_consistency.Prelude.{
  [], ◌∷◌, ◌++◌, List, ℕ, suc, Bool, true, false, not, ◌&&◌, Option, none, some, ltb, ◌==◌, nat_eq,
  if◌then◌else◌, ◌+◌, get_elem?,
}
use hit_consistency.ClosureQueue.{is_empty}
use hit_consistency.LogEntry.{LogEntry, EntryType, data_entry}

-- No entry at the first index, with the committed index; and an error of the state machine.
pub data IterError : Type 0 where
  no_entry : ℕ → ℕ → IterError
  machine_error : IterError

-- What the state machine is called with, and the closures that are run.
pub data Event (C P : Type 0) : Type 0 where
  configuration_committed : List P → ℕ → Event C P
  on_apply : ℕ → Event C P
  run_closure : C → Event C P

-- `applying` is what was stored in _applying_index, in order.
pub record IteratorImpl (C P D : Type 0) : Type 0 where
  pub closure : List (Option C)
  pub it : Option ℕ
  pub actural_index : ℕ
  pub committed_index : ℕ
  pub last_applied_index : ℕ
  pub cur_entry : Option (LogEntry P D)
  pub iter_error : Option IterError
  pub index_list : List ℕ
  pub applying : List ℕ
  pub events : List (Event C P)

-- What a state machine does with the iterator in on_apply.
pub data Action : Type 0 where
  run_done advance : Action
  set_error_and_rollback : ℕ → Action

abbrev pub is_some {ℓ} : {A : Type ℓ} → Option A → Bool
is_some none = false
is_some (some a) = true

abbrev pub is_data_type : EntryType → Bool
is_data_type data_entry = true
is_data_type other = false

abbrev pub is_data : {P D : Type 0} → Option (LogEntry P D) → Bool
is_data none = false
is_data (some entry) = is_data_type entry.type

abbrev pub after : Option ℕ → ℕ
after none = 0
after (some i) = suc i

module _ {C P D : Type 0} where
  abbrev pub is_good : IteratorImpl C P D → Bool
  is_good t = is_some t.it && not (is_some t.iter_error)

  -- Iterator::valid, where an entry is never missing.
  abbrev pub valid : IteratorImpl C P D → Bool
  valid t = is_good t && is_data t.cur_entry

  abbrev pub emit : IteratorImpl C P D → Event C P → IteratorImpl C P D
  emit t e = record t { events = t.events ++ e ∷ [] }

  abbrev pub run_some : IteratorImpl C P D → Option C → IteratorImpl C P D
  run_some t none = t
  run_some t (some c) = emit t (run_closure c)

  -- done() and, if there is a closure, its Run().
  unfoldable pub run_done_closure : IteratorImpl C P D → Option (IteratorImpl C P D)
  run_done_closure t = if is_empty t.closure then some t else elim t.it [
    | none ↦ none
    | some i ↦ elim (get_elem? t.closure i) [ none ↦ none | some c ↦ some (run_some t c) ]
  ]

module _ {C P D : Type 0} (get_entry : ℕ → Option (LogEntry P D)) where
  -- The next sequential index is added to the list if there are no closures.
  abbrev pub extended : IteratorImpl C P D → IteratorImpl C P D
  extended t =
      if is_empty t.closure && ltb t.last_applied_index t.committed_index
      then record t {
        last_applied_index = t.last_applied_index + 1;
        index_list = t.index_list ++ (t.last_applied_index + 1) ∷ [];
      }
      else t

  abbrev pub visit : IteratorImpl C P D → ℕ → ℕ → IteratorImpl C P D
  visit t i index = record t {
    it = some i;
    actural_index = index;
    cur_entry = get_entry index;
    iter_error = elim (get_entry index) [
      | none ↦ some (no_entry index t.committed_index)
      | some entry ↦ t.iter_error
    ];
    applying = t.applying ++ index ∷ [];
  }

  unfoldable pub next : IteratorImpl C P D → IteratorImpl C P D
  next t =
      let longer = extended t in
      elim (get_elem? longer.index_list (after t.it)) [
        | none ↦ record longer { it = none; cur_entry = none }
        | some index ↦ visit longer (after t.it) index
      ]

  -- Iterator::next.
  abbrev pub next_valid : IteratorImpl C P D → IteratorImpl C P D
  next_valid t = if valid t then next t else t

  unfoldable pub act : Action → IteratorImpl C P D → Option (IteratorImpl C P D)
  act run_done t = run_done_closure t
  act advance t = some (next_valid t)
  act (set_error_and_rollback ntail) t =
      if ntail == 0
      then some t
      else some (record t { cur_entry = none; iter_error = some machine_error })

  unfoldable pub act_all : List Action → IteratorImpl C P D → Option (IteratorImpl C P D)
  act_all [] t = some t
  act_all (a ∷ rest) t = elim (act a t) [ none ↦ none | some u ↦ act_all rest u ]

  unfoldable pub start : List (Option C) → ℕ → ℕ → List ℕ → IteratorImpl C P D
  unfolding next
  start closure last_applied_index committed_index index_list = next (record {
    closure = closure;
    it = none;
    actural_index = 0;
    committed_index = committed_index;
    last_applied_index = last_applied_index;
    cur_entry = none;
    iter_error = none;
    index_list = index_list;
    applying = [];
    events = [];
  })
