-- ===== src/FsmCaller.antt =====
-- cpp/fsm_caller.h and cpp/fsm_caller.cc: how the FSM caller gathers its queue of tasks into calls of
-- the state machine. `S` is butil::Status, `L` LeaderChangeContext and `E` Error. No committed index,
-- which the source writes as -1, is `none`. A task of type IDLE, a failed CHECK, calls nothing.
pub mod Batches
pub mod Iterator
pub mod Applying
pub mod Visits
pub mod Actions
pub mod Loop
use hit_consistency.Prelude.{[], ◌∷◌, List, ℕ, Option, none, some, ltb, leb, if◌then◌else◌, ◌++◌}

-- A task: its type with what the source reads of it. Only COMMITTED has out-of-order indexes.
pub data ApplyTask (S L E : Type 0) : Type 0 where
  committed : ℕ → List ℕ → ApplyTask S L E
  leader_stop : S → ApplyTask S L E
  leader_start : ℕ → ApplyTask S L E
  start_following : L → ApplyTask S L E
  stop_following : L → ApplyTask S L E
  error : E → ApplyTask S L E
  idle : ApplyTask S L E

pub data Call (S L E : Type 0) : Type 0 where
  do_committed : ℕ → List ℕ → Call S L E
  do_leader_stop : S → Call S L E
  do_leader_start : ℕ → Call S L E
  do_start_following : L → Call S L E
  do_stop_following : L → Call S L E
  do_on_error : E → Call S L E

-- The loop of on_committed, which drops the indexes up to the committed one from the front.
unfoldable pub drop_committed : ℕ → List ℕ → List ℕ
drop_committed index [] = []
drop_committed index (i ∷ is) =
    let rest = drop_committed index is in if leb i index then rest else i ∷ is

abbrev pub greater_of : Option ℕ → ℕ → ℕ
greater_of none i = i
greater_of (some max) i = if ltb max i then i else max

module _ {S L E : Type 0} where
  -- The task that on_committed puts into the queue.
  unfoldable pub on_committed : ℕ → List ℕ → ApplyTask S L E
  unfolding drop_committed
  on_committed committed_index oo = committed committed_index (drop_committed committed_index oo)

  abbrev pub flush : Option ℕ → List ℕ → List (Call S L E)
  flush none oo = []
  flush (some max) oo = do_committed max oo ∷ []

  abbrev other_call : ApplyTask S L E → List (Call S L E)
  other_call (committed index oo) = []
  other_call (leader_stop status) = do_leader_stop status ∷ []
  other_call (leader_start term) = do_leader_start term ∷ []
  other_call (start_following context) = do_start_following context ∷ []
  other_call (stop_following context) = do_stop_following context ∷ []
  other_call (error e) = do_on_error e ∷ []
  other_call idle = []

  -- The loop of `run`, with max_committed_index and oo_committed_entries. Before a task that is not
  -- COMMITTED the calls are made with that task's own out-of-order indexes, which are none.
  unfoldable pub run_from : Option ℕ → List ℕ → List (ApplyTask S L E) → List (Call S L E)
  run_from max oo [] = flush max oo
  run_from max oo (committed index js ∷ ts) = run_from (some (greater_of max index)) (oo ++ js) ts
  run_from max oo (leader_stop status ∷ ts) =
      flush max [] ++ (other_call (leader_stop status) ++ run_from none oo ts)
  run_from max oo (leader_start term ∷ ts) =
      flush max [] ++ (other_call (leader_start term) ++ run_from none oo ts)
  run_from max oo (start_following context ∷ ts) =
      flush max [] ++ (other_call (start_following context) ++ run_from none oo ts)
  run_from max oo (stop_following context ∷ ts) =
      flush max [] ++ (other_call (stop_following context) ++ run_from none oo ts)
  run_from max oo (error e ∷ ts) = flush max [] ++ (other_call (error e) ++ run_from none oo ts)
  run_from max oo (idle ∷ ts) = flush max [] ++ (other_call idle ++ run_from none oo ts)

  unfoldable pub run : List (ApplyTask S L E) → List (Call S L E)
  unfolding run_from
  run tasks = run_from none [] tasks
