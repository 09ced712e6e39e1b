-- ===== src/Tests/Applying.antt =====
-- The FSM caller at concrete inputs: a state machine that takes one entry in each call.
use hit_consistency.Prelude.{
  Outcome, undefined, stopped, [], ◌∷◌, List, refl, arith, ℕ, false, Option, none, some, ltb,
  if◌then◌else◌, ◌≡◌, inl, count, ◌+◌, nat_eq, ltb,
}
use hit_consistency.ClosureQueue.{pop_closure_until}
use hit_consistency.LogEntry.{LogEntry, data_entry, configuration}
use hit_consistency.FsmCaller.Iterator.{
  IterError, IteratorImpl, Action, run_done, advance, run_done_closure, next, act, act_all, start,
}
use hit_consistency.FsmCaller.Applying.{
  FsmState, Applied, apply_loop, apply_round, mark_applied, pop_applied, finish_committed,
  do_committed,
}
use hit_consistency.FsmCaller.Loop.{is_sequential, apply_loop-visits}

abbrev log : ℕ → Option (LogEntry ℕ ℕ)
log index =
    if ltb 9 index
    then none
    else some (record {
      type = if ltb index 2 then configuration else data_entry;
      id = record { index = index; term = 1 };
      dependency = 0;
      peers = some (1 ∷ []);
      old_peers = none;
      payload = 0;
    })

abbrev term_of : ℕ → ℕ
term_of index = 1

abbrev to_error : IterError → ℕ
to_error e = 7

abbrev one_each : IteratorImpl ℕ ℕ ℕ → List Action
one_each t = run_done ∷ advance ∷ []

-- A follower, without closures: the entry 5 comes out of order, and is the second of the sequential
-- ones.
apply_loop-visits_example :
    (t : IteratorImpl ℕ ℕ ℕ) × (apply_loop log term_of to_error one_each 4
        (start log [] 3 5 (5 ∷ []))
      ≡ stopped t)
    × (t.it ≡ none)
    × (t.iter_error ≡ none)
    × (t.applying ≡ 5 ∷ 4 ∷ 5 ∷ [])
    × ((i : ℕ)
        → count i t.applying ≡ count i (5 ∷ []) + (if is_sequential {C = ℕ} [] 3 5 i then 1 else 0))
apply_loop-visits_example =
    apply_loop-visits log term_of to_error one_each (λ t h. (h, λ u run. tt)) [] 3 5 (5 ∷ []) 4
      ((_, refl, tt), ((_, refl, tt), ((_, refl, tt), tt))) (inl refl) (omega arith)

abbrev follower : FsmState ℕ ℕ
follower = record {
  error = none;
  last_applied_index = 0;
  last_applied_term = 0;
  oo_apply_queue = [];
  closure_queue = record { queue = []; has_committed_queue = []; first_index = 0 };
}

abbrev after_one : FsmState ℕ ℕ
after_one = record follower {
  last_applied_index = 1;
  last_applied_term = 1;
  oo_apply_queue = false ∷ [];
}

abbrev state_of : Outcome (Applied ℕ ℕ ℕ ℕ) → Option (FsmState ℕ ℕ)
state_of (stopped a) = some a.state
state_of other = none

first_commit :
    state_of (do_committed log term_of to_error one_each 5 follower 1 []) ≡ some after_one
unfolding do_committed apply_loop apply_round start next pop_closure_until finish_committed
    mark_applied pop_applied run_done_closure act act_all
first_commit = refl

-- The next sequential commit writes past the end of _oo_apply_queue.
second_commit : do_committed log term_of to_error one_each 5 after_one 2 [] ≡ undefined
unfolding do_committed apply_loop apply_round start next pop_closure_until finish_committed
    mark_applied pop_applied run_done_closure act act_all
second_commit = refl
