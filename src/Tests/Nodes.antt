-- ===== src/Tests/Nodes.antt =====
-- A follower of three peers.
use hit_consistency.Ballot.{init, grant, granted, scan}
use hit_consistency.Node.Leaders.{run-elected}
use hit_consistency.Prelude.{
  none, ◌-ℤ◌, [], ◌∷◌, List, refl, ℕ, true, false, some, pos, nat_eq, ltb, ◌≡◌, ◌≤◌,
}
use hit_consistency.LogEntry
use hit_consistency.Node.Election
use hit_consistency.Node.{Node, follower, candidate, leader}
use hit_consistency.Node.Election.{
  request_vote_answer, request_vote_end, handle_request_vote_response,
}
use hit_consistency.Node.Votes.{
  Event, vote_answered, vote_requested, vote_decided, run, one_vote_per_term, run-term_le,
}

abbrev three : List ℕ
three = 1 ∷ 2 ∷ 3 ∷ []

-- Peer 1 has voted for peer 2 in term 4.
abbrev voted : Node ℕ ℕ
voted = record {
  server_id = 1;
  leader_id = 0;
  voted_id = 2;
  current_term = 4;
  state = follower;
  ballot_box = record {
    closure_queue = record { queue = []; has_committed_queue = []; first_index = 0 };
    last_committed_index = 0;
    pending_index = 0;
    pending_meta_queue = [];
    committed_index_queue = [];
  };
  prevote_ctx = record { peers = []; quorum = pos 0; old_peers = []; old_quorum = pos 0 };
  vote_ctx = record { peers = []; quorum = pos 0; old_peers = []; old_quorum = pos 0 };
  conf = record { id = record { index = 0; term = 0 }; conf = three; old_conf = [] };
  peer_list = three;
  meta = record { is_inited = true; term = 4; votedfor = 2; disk = some (4, 2); writable = true };
  last_leader_timestamp = 0;
  vote_triggered = false;
  election_timer = true;
  vote_timer = false;
  stepdown_timer = false;
}

-- Peer 3 asks for a vote in the same term, with a longer log.
abbrev asked_again : List (Event ℕ)
asked_again =
    vote_requested 4
    ∷ vote_decided 3 4 (record { index = 9; term = 3 }) (record { index = 1; term = 1 })
    ∷ []

still_two : (request_vote_answer ltb 0 (run ltb 0 voted asked_again) 2 4).1 ≡ true
unfolding request_vote_answer run request_vote_end Election.request_vote_begin LogEntry.at_least
still_two = refl

two : (request_vote_answer ltb 0 voted 2 4).1 ≡ true
unfolding request_vote_answer
two = refl

one_vote_per_term_example : ◌≡◌ {A = ℕ} 2 2
one_vote_per_term_example = one_vote_per_term ltb 0 voted asked_again 2 2 4 refl two still_two

run-term_le_example : 4 ≤ (run ltb 0 voted asked_again).current_term
run-term_le_example = run-term_le ltb 0 voted asked_again

-- Peer 1 asks for votes in term 4, and peer 2 gives its vote.
abbrev asking : Node ℕ ℕ
asking = record voted { voted_id = 1; state = candidate; vote_ctx = grant 1 (init three none) }

abbrev answered : List (Event ℕ)
answered = vote_answered 2 4 4 true 9 ∷ []

wins : (run ltb 0 asking answered).state ≡ leader
unfolding run handle_request_vote_response Election.become_leader grant init granted scan ◌-ℤ◌
wins = refl

asking_is_candidate : asking.state ≡ leader → granted asking.vote_ctx ≡ true
asking_is_candidate h = absurd (cc)

run-elected_example : granted (run ltb 0 asking answered).vote_ctx ≡ true
run-elected_example = run-elected ltb 0 asking answered asking_is_candidate wins
