-- ===== src/FsmCaller/Applying.antt =====
-- cpp/fsm_caller.cc: do_committed, which applies the committed entries. The state machine, the log
-- manager's get_entry and get_term, and what an error of the iterator is as an Error are parameters.
use hit_consistency.Prelude.{
  Outcome, running, undefined, stopped, [], ◌∷◌, ◌++◌, List, ℕ, zero, suc, Bool, true, false, ◌&&◌,
  ◌||◌, Option, none, some, ltb, leb, ◌==◌, nat_eq, if◌then◌else◌, ◌+◌, ◌-◌, length, get_elem?, set,
}
use hit_consistency.ClosureQueue.{ClosureQueue, is_empty, pop_closure_until}
use hit_consistency.LogEntry.{LogEntry, LogId, configuration}
use hit_consistency.FsmCaller.Iterator.{
  IterError, IteratorImpl, configuration_committed, on_apply, Action, is_some, is_data_type,
  is_good, emit, run_some, run_done_closure, next, next_valid, act_all, start,
}

pub record FsmState (C E : Type 0) : Type 0 where
  pub error : Option E
  pub last_applied_index : ℕ
  pub last_applied_term : ℕ
  pub oo_apply_queue : List Bool
  pub closure_queue : ClosureQueue C

-- What do_committed leaves: the state, the iterator where it was used, and the id that is given to
-- set_applied_id.
pub record Applied (C P D E : Type 0) : Type 0 where
  pub state : FsmState C E
  pub iterator : Option (IteratorImpl C P D)
  pub applied_id : Option LogId

-- The loop that marks the indexes. The difference is compared as an unsigned number.
unfoldable pub mark_applied : ℕ → List ℕ → List Bool → Option (List Bool)
mark_applied last_applied_index [] flags = some flags
mark_applied last_applied_index (i ∷ is) flags =
    let pushed = mark_applied last_applied_index is (flags ++ false ∷ []) in
    let marked = mark_applied last_applied_index is (set flags (i - last_applied_index) true) in
    if ltb i last_applied_index || ltb (length flags) (i - last_applied_index)
    then pushed
    else if length flags == i - last_applied_index
    then none
    else marked

-- The loop that pops the front.
unfoldable pub pop_applied : List Bool → ℕ → Option (List Bool × ℕ)
pop_applied [] last_applied_index = none
pop_applied (true ∷ flags) last_applied_index = pop_applied flags (last_applied_index + 1)
pop_applied (false ∷ flags) last_applied_index = some (false ∷ flags, last_applied_index)

module _ {C P D : Type 0} where
  -- A round reads the closure at `i`; `n` rounds are left.
  unfoldable pub run_rest : ℕ → ℕ → IteratorImpl C P D → Option (IteratorImpl C P D)
  run_rest zero i t = some t
  run_rest (suc n) i t = elim (get_elem? t.closure i) [
    | none ↦ none
    | some c ↦ run_rest n (i + 1) (run_some t c)
  ]

  -- The loop compares -1 as an unsigned number, and does not run.
  unfoldable pub run_the_rest_closure_with_error : IteratorImpl C P D → Option (IteratorImpl C P D)
  run_the_rest_closure_with_error t = elim t.it [
    | none ↦ some t
    | some i ↦ run_rest (length t.index_list + 1 - i) i t
  ]

module _ {C P D E : Type 0} (get_entry : ℕ → Option (LogEntry P D)) (get_term : ℕ → ℕ)
    (to_error : IterError → E) (apply : IteratorImpl C P D → List Action) where
  -- on_configuration_committed, but for a joint configuration.
  abbrev pub configured : IteratorImpl C P D → LogEntry P D → Option (IteratorImpl C P D)
  configured t entry = elim entry.type [
    | configuration ↦ if is_some entry.old_peers then some t else elim entry.peers [
      | none ↦ none
      | some peers ↦ some (emit t (configuration_committed peers entry.id.index))
    ]
    | other ↦ some t
  ]

  abbrev pub apply_other : IteratorImpl C P D → LogEntry P D → Option (IteratorImpl C P D)
  apply_other t entry = elim (configured t entry) [
    | none ↦ none
    | some u ↦ elim (run_done_closure u) [ none ↦ none | some v ↦ some (next get_entry v) ]
  ]

  abbrev pub apply_data : IteratorImpl C P D → Option (IteratorImpl C P D)
  apply_data t = elim (act_all get_entry (apply t) (emit t (on_apply t.actural_index))) [
    | none ↦ none
    | some u ↦ some (next_valid get_entry u)
  ]

  -- A round of the loop over the iterator, with the entry it is at.
  abbrev pub round_at : IteratorImpl C P D → Option (LogEntry P D) → Option (IteratorImpl C P D)
  round_at t none = none
  round_at t (some entry) = if is_data_type entry.type then apply_data t else apply_other t entry

  unfoldable pub apply_round : IteratorImpl C P D → Option (IteratorImpl C P D)
  apply_round t = round_at t t.cur_entry

  unfoldable pub apply_loop : ℕ → IteratorImpl C P D → Outcome (IteratorImpl C P D)
  apply_loop zero t = running
  apply_loop (suc fuel) t =
      let more : Outcome (IteratorImpl C P D) = elim (apply_round t) [
        | none ↦ undefined
        | some u ↦ apply_loop fuel u
      ] in
      if is_good t then more else stopped t

  unfoldable pub set_error : FsmState C E → E → FsmState C E
  set_error s e = if is_some s.error then s else record s { error = some e }

  abbrev pub with_error :
      FsmState C E → IteratorImpl C P D → Option (FsmState C E × IteratorImpl C P D)
  with_error s t = elim t.iter_error [
    | none ↦ some (s, t)
    | some e ↦ elim (run_the_rest_closure_with_error t) [
      | none ↦ none
      | some u ↦ some (set_error s (to_error e), u)
    ]
  ]

  -- The state after the flags have moved the last applied index.
  abbrev pub applied_to : FsmState C E → IteratorImpl C P D → List Bool × ℕ → Applied C P D E
  applied_to s t (flags, last) = record {
    state = record s {
      last_applied_index = last;
      last_applied_term = get_term last;
      oo_apply_queue = flags;
    };
    iterator = some t;
    applied_id = some (record { index = last; term = get_term last });
  }

  abbrev pub pop_marked :
      FsmState C E → ℕ → IteratorImpl C P D → Option (List Bool) → Option (Applied C P D E)
  pop_marked s committed_index t none = none
  pop_marked s committed_index t (some marked) = elim (pop_applied marked committed_index) [
    | none ↦ none
    | some popped ↦ some (applied_to s t popped)
  ]

  -- What follows the loop.
  unfoldable pub finish_committed : FsmState C E → ℕ → IteratorImpl C P D → Option (Applied C P D E)
  unfolding mark_applied pop_applied
  finish_committed s committed_index t = elim (with_error s t) [
    | none ↦ none
    | some (s', u) ↦
        pop_marked s' committed_index u
          (mark_applied s.last_applied_index u.index_list s.oo_apply_queue)
  ]

  abbrev outcome_of : Option (Applied C P D E) → Outcome (Applied C P D E)
  outcome_of none = undefined
  outcome_of (some a) = stopped a

  unfoldable pub do_committed : ℕ → FsmState C E → ℕ → List ℕ → Outcome (Applied C P D E)
  unfolding pop_closure_until
  do_committed fuel s committed_index oo =
      let untouched : Applied C P D E = record { state = s; iterator = none; applied_id = none } in
      if is_some s.error || leb committed_index s.last_applied_index && is_empty oo
      then stopped untouched
      else elim (pop_closure_until s.closure_queue committed_index oo []) [
        | none ↦ undefined
        | some popped ↦
            let s' = record s { closure_queue = popped.rest } in
            elim (apply_loop fuel (
              start get_entry popped.out s.last_applied_index committed_index popped.out_indexes)) [
                | running ↦ running
                | undefined ↦ undefined
                | stopped t ↦ outcome_of (finish_committed s' committed_index t)
              ]
      ]
