-- ===== src/Node/Tasks.antt =====
-- cpp/node.cc: how a leader applies tasks: execute_applying_tasks, apply and check_dependency. An
-- expected term of -1 is `none`. A dependency is a 64-bit word. What `apply` gives to the log manager and
-- the closures that it runs with an error are values of its result; the call of the log manager's
-- check_and_set_configuration after it is not part of it.
use hit_consistency.Prelude.{
  [], ◌∷◌, ◌++◌, List, ℕ, Bool, true, false, Option, none, some, map, ltb, ◌==◌, nat_eq,
  if◌then◌else◌, Eq, ◌*◌, ◌%◌, ◌^◌, length, drop,
}
use Prim.Native.Nat.{bit_or}
use hit_consistency.LogEntry.{LogEntry, data_entry}
use hit_consistency.ClosureQueue.{non_null}
use hit_consistency.BallotBox.{append_pending_task}
use hit_consistency.ConfigurationManager.{stable}
use hit_consistency.Node.{Node, leader, is_state}

pub record LogEntryAndClosure (P D C : Type 0) : Type 0 where
  pub entry : LogEntry P D
  pub done : Option C
  pub expected_term : Option ℕ
  pub dependency_id : ℕ

-- The loop over the queue: a bit for each task that has the id, moved up for each task after it.
unfoldable pub look_back_bits : ℕ → List ℕ → ℕ → ℕ
look_back_bits id [] dependency = dependency
look_back_bits id (q ∷ qs) dependency =
    look_back_bits id qs ((if q == id then bit_or dependency 1 else dependency) * 2 % 2 ^ 64)

-- check_dependency, with the queue after it.
unfoldable pub check_dependency : ℕ → List ℕ → ℕ → List ℕ × ℕ
unfolding look_back_bits
check_dependency look_back queue id =
    let kept = if ltb look_back (length queue) then drop 1 queue else queue in
    (kept ++ id ∷ [], look_back_bits id kept 0)

-- `entries` is what is given to append_entries, `failed` the closures that are run with an error.
pub record Applying (P D C : Type 0) : Type 0 where
  pub node : Node P C
  pub dependency_ids : List ℕ
  pub entries : List (LogEntry P D)
  pub failed : List C

abbrev pub done_of : {P D C : Type 0} → LogEntryAndClosure P D C → Option C
done_of task = task.done

abbrev pub term_matches : ℕ → Option ℕ → Bool
term_matches term none = true
term_matches term (some expected) = expected == term

module _ {P D C : Type 0} ⦃e : Eq P⦄ (look_back : ℕ) where
  abbrev pub add_task : Applying P D C → LogEntryAndClosure P D C → Applying P D C
  add_task a task =
      let n = a.node in
      let (ids, dependency) = check_dependency look_back a.dependency_ids task.dependency_id in
      let old_conf = if stable n.conf then none else some n.conf.old_conf in
      record {
        node = record n {
          ballot_box = append_pending_task n.ballot_box n.conf.conf old_conf task.done;
        };
        dependency_ids = ids;
        entries =
            a.entries
            ++ record task.entry {
              dependency = dependency;
              id = record task.entry.id { term = n.current_term };
              type = data_entry;
            }
              ∷ [];
        failed = a.failed;
      }

  -- The loop of `apply`.
  unfoldable pub apply_tasks : Applying P D C → List (LogEntryAndClosure P D C) → Applying P D C
  apply_tasks a [] = a
  apply_tasks a (task ∷ tasks) =
      if term_matches a.node.current_term task.expected_term
      then apply_tasks (add_task a task) tasks
      else apply_tasks (record a { failed = a.failed ++ non_null (task.done ∷ []) }) tasks

  -- The result, with whether append_entries is called.
  unfoldable pub apply : Node P C → List ℕ → List (LogEntryAndClosure P D C) → Applying P D C × Bool
  unfolding apply_tasks
  apply n ids tasks =
      if is_state n.state leader
      then (
        apply_tasks (record { node = n; dependency_ids = ids; entries = []; failed = [] }) tasks,
        true,
      )
      else (
        record {
          node = n;
          dependency_ids = ids;
          entries = [];
          failed = non_null (map done_of tasks);
        },
        false,
      )

-- The loop of execute_applying_tasks: the arrays that `apply` is called with. `batch` is the array so far.
unfoldable pub batches : {A : Type 0} → ℕ → List A → List A → List (List A)
batches batch_size [] [] = []
batches batch_size (b ∷ bs) [] = (b ∷ bs) ∷ []
batches batch_size batch (t ∷ ts) =
    let full = batch ∷ batches batch_size (t ∷ []) ts in
    let more = batches batch_size (batch ++ t ∷ []) ts in
    if length batch == batch_size then full else more
