-- ===== src/Tests/Boxes.antt =====
-- A leader's box with two tasks of three peers.
use hit_consistency.Prelude.{
  [], ◌∷◌, List, refl, arith, ℕ, false, none, some, nat_eq, Option, inl, ◌↔◌, length, ◌-◌, ◌≤◌, ◌≡◌,
  ◌-ℤ◌,
}
use hit_consistency.Ballot.{init, scan, grant_all, grant, granted}
use hit_consistency.BallotBox.{
  BallotBox, Reply, done, set_last_committed_index, clear_pending_tasks, reset_pending_index,
  commit_at, drop_below,
}
use hit_consistency.BallotBox.Tasks.{Task, TaskQueue, commit, vote_all}
use hit_consistency.BallotBox.Commit.{ballot_of, AllValid}
use hit_consistency.BallotBox.Refinement.{Refines, Settled, commit_at-Refines}
use hit_consistency.BallotBox.Safety.{
  commit_at-majority, clear_pending_tasks-stale, set_last_committed_index_lem, append_tasks,
  ElectedAt,
}

abbrev three : List ℕ
three = 1 ∷ 2 ∷ 3 ∷ []

abbrev task : List ℕ → Task ℕ
task voters = record { voters = voters; conf = three; old_conf = none; committed = false }

-- Peer 1 has the tasks 5 and 6.
abbrev tasks : TaskQueue ℕ
tasks = record { first = 5; last = 4; tasks = task (1 ∷ []) ∷ task (1 ∷ []) ∷ [] }

abbrev box : BallotBox ℕ ℕ
box = record {
  closure_queue = record {
    queue = some 7 ∷ none ∷ [];
    has_committed_queue = false ∷ false ∷ [];
    first_index = 5;
  };
  last_committed_index = 4;
  pending_index = 5;
  pending_meta_queue = ballot_of (task (1 ∷ [])) ∷ ballot_of (task (1 ∷ [])) ∷ [];
  committed_index_queue = false ∷ false ∷ [];
}

valid : AllValid tasks.tasks
valid = (((refl, (refl, (refl, tt))), tt), (((refl, (refl, (refl, tt))), tt), tt))

refines : Refines box tasks
refines = record { metas_of = refl; flags_of = refl; first_of = refl; last_of = refl }

-- Index 6 is granted before index 5, and then both leave the queue.
abbrev out_of_order : Option (Reply ℕ ℕ) → Option (ℕ × List ℕ)
out_of_order none = none
out_of_order (some r) = r.committed

first_six : out_of_order (commit_at box (6 ∷ []) 2) ≡ some (4, 6 ∷ [])
unfolding commit_at grant_all grant init granted scan ◌-ℤ◌
first_six = refl

five_six :
    commit_at box (3 ∷ 5 ∷ 6 ∷ []) 2
    ≡ some (record {
      code = done;
      box = record box {
        last_committed_index = 6;
        pending_index = 7;
        pending_meta_queue = [];
        committed_index_queue = [];
      };
      committed = some (6, 5 ∷ 6 ∷ []);
    })
unfolding commit_at grant_all grant init granted scan ◌-ℤ◌
five_six = refl

commit_at-Refines_example :
    Settled box (commit_at box (3 ∷ 5 ∷ 6 ∷ []) 2) (commit 2 (drop_below 5 (3 ∷ 5 ∷ 6 ∷ [])) tasks)
commit_at-Refines_example =
    commit_at-Refines 2 box tasks (3 ∷ 5 ∷ 6 ∷ []) 6 valid refines (omega arith) (omega arith) refl
      (omega arith) (omega arith)

commit_at-majority_example :
    ElectedAt (vote_all 2 5 (drop_below 5 (3 ∷ 5 ∷ 6 ∷ [])) tasks.tasks) (6 - 5)
commit_at-majority_example =
    commit_at-majority 2 box tasks (3 ∷ 5 ∷ 6 ∷ []) 6 6
      (record {
        code = done;
        box = record box {
          last_committed_index = 6;
          pending_index = 7;
          pending_meta_queue = [];
          committed_index_queue = [];
        };
        committed = some (6, 5 ∷ 6 ∷ []);
      })
      valid refines (omega arith) (omega arith) refl (omega arith) (omega arith)
      ((λ c. absurd (cc)), ((λ c. absurd (cc)), tt)) five_six (inl refl)

raised_index :
    box.last_committed_index ≤ (set_last_committed_index box 9 []).box.last_committed_index
raised_index = (set_last_committed_index_lem box 9 []).0

clear_pending_tasks-stale_example :
    let b =
      append_tasks (reset_pending_index (clear_pending_tasks box).0 8) three none (none ∷ []) in
    (length b.committed_index_queue ≡ length b.pending_meta_queue)
    ↔ (box.committed_index_queue ≡ [])
clear_pending_tasks-stale_example = clear_pending_tasks-stale box 8 three none (none ∷ [])
