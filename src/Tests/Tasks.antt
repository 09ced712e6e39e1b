-- ===== src/Tests/Tasks.antt =====
-- A leader of three peers that applies tasks.
use hit_consistency.Prelude.{[], ◌∷◌, List, refl, ℕ, true, false, none, some, pos, nat_eq, ◌≡◌}
use hit_consistency.LogEntry.{LogEntry, unknown}
use hit_consistency.Node.{Node, leader}
use hit_consistency.Node.Tasks.{
  LogEntryAndClosure, apply, apply_tasks, batches, check_dependency, look_back_bits,
}
use hit_consistency.Node.Applied.{Added, accepted, rejected, apply_lem}

abbrev leading : Node ℕ ℕ
leading = record {
  server_id = 1;
  leader_id = 1;
  voted_id = 1;
  current_term = 4;
  state = leader;
  ballot_box = record {
    closure_queue = record { queue = []; has_committed_queue = []; first_index = 0 };
    last_committed_index = 0;
    pending_index = 1;
    pending_meta_queue = [];
    committed_index_queue = [];
  };
  prevote_ctx = record { peers = []; quorum = pos 0; old_peers = []; old_quorum = pos 0 };
  vote_ctx = record { peers = []; quorum = pos 0; old_peers = []; old_quorum = pos 0 };
  conf = record { id = record { index = 0; term = 0 }; conf = 1 ∷ 2 ∷ 3 ∷ []; old_conf = [] };
  peer_list = 1 ∷ 2 ∷ 3 ∷ [];
  meta = record { is_inited = true; term = 4; votedfor = 1; disk = some (4, 1); writable = true };
  last_leader_timestamp = 0;
  vote_triggered = false;
  election_timer = false;
  vote_timer = false;
  stepdown_timer = true;
}

abbrev written_entry : LogEntry ℕ ℕ
written_entry = record {
  type = unknown;
  id = record { index = 0; term = 0 };
  dependency = 0;
  peers = none;
  old_peers = none;
  payload = 9;
}

-- The second task expects term 3.
abbrev two_tasks : List (LogEntryAndClosure ℕ ℕ ℕ)
two_tasks =
    record { entry = written_entry; done = some 50; expected_term = none; dependency_id = 7 }
    ∷ (record { entry = written_entry; done = some 60; expected_term = some 3; dependency_id = 7 }
        ∷ [])

apply_lem_example :
    let (r, called) = apply 2 leading [] two_tasks in
    (called ≡ true)
    × Added 2
        (record { node = leading; dependency_ids = []; entries = []; failed = [] })
        (accepted 4 two_tasks)
        (rejected 4 two_tasks)
        r
apply_lem_example = apply_lem 2 leading [] two_tasks refl

one_refused : (apply 2 leading [] two_tasks).0.failed ≡ 60 ∷ []
unfolding apply apply_tasks
one_refused = refl

-- The tasks two and three back have the id 7.
bits : (check_dependency 9 (7 ∷ (7 ∷ (5 ∷ []))) 7).1 ≡ 12
unfolding check_dependency look_back_bits
bits = refl

by_twos : batches {A = ℕ} 2 [] (1 ∷ (2 ∷ (3 ∷ []))) ≡ (1 ∷ (2 ∷ [])) ∷ ((3 ∷ []) ∷ [])
unfolding batches
by_twos = refl
