-- ===== src/Node/Election.antt =====
-- The handlers of cpp/node.cc for votes, elections and terms.
use hit_consistency.Prelude.{
  nat_eq, [], ◌∷◌, List, ℕ, Bool, true, false, Option, none, some, if◌then◌else◌, Eq, ltb, not,
  ◌==◌, ◌+◌, leb, ◌&&◌, ◌++◌, ◌||◌, suc, length, ◌/◌,
}
use hit_consistency.Ballot.{init, grant, granted}
use hit_consistency.BallotBox.{reset_pending_index}
use hit_consistency.ConfigurationManager.{ConfigurationEntry, stable, entry_contains, list_peers}
use hit_consistency.LogEntry.{LogId, at_least}
use hit_consistency.MetaStorage.{set_term_and_votedfor, set_votedfor}
use hit_consistency.Node.{
  Node, leader, transferring, candidate, follower, shutting, Action, ask_prevote, ask_vote,
  reset_replicators, add_replicator, rank, is_state, others, fails, reset_leader_id, step_down,
  check_step_down,
}

-- The old configuration, if the change is not yet stable.
abbrev pub old_conf_of : {P : Type 0} → ConfigurationEntry P → Option (List P)
old_conf_of c = if stable c then none else some c.old_conf

-- What a vote handler does after its first hold of the mutex.
pub data Waiting : Type 0 where
  waits answers : Waiting

-- What a timeout of the vote goes on with.
pub data Retry : Type 0 where
  stops prevotes elects : Retry

-- How an append_entries request passes the checks of the term and the leader.
pub data Admission : Type 0 where
  stale_term conflict admitted : Admission

module _ {P : Type 0} ⦃e : Eq P⦄ where
  -- The peers of a configuration that were heard of, this node among them.
  abbrev pub alive_count : P → (P → Bool) → List P → ℕ
  alive_count self alive [] = 0
  alive_count self alive (p ∷ ps) =
      let rest = alive_count self alive ps in if p == self || alive p then suc rest else rest

module _ {P : Type 0} ⦃e : Eq P⦄ (less : P → P → Bool) (no_peer : P) {C : Type 0} where
  abbrev pub asks : (P → Action P C) → List P → List (Action P C)
  asks ask [] = []
  asks ask (p ∷ ps) = ask p ∷ asks ask ps

  -- handle_prevote: the term and the vote that it answers, for the last log id of this node.
  unfoldable pub handle_prevote : Node P C → ℕ → LogId → LogId → ℕ × Bool
  handle_prevote n term log_id last_log_id =
      (n.current_term, if ltb term n.current_term then false else at_least log_id last_log_id)

  -- handle_request_vote, up to where it lets go of the mutex to read the last log id.
  unfoldable pub request_vote_begin : Node P C → ℕ → Node P C × List C × Waiting
  request_vote_begin n term =
      let (n', failed) = step_down no_peer n term in
      if ltb term n.current_term
      then (n, [], answers)
      else if ltb n.current_term term
      then (n', failed, waits)
      else (n, [], waits)

  -- The rest of it, once the mutex is held again.
  unfoldable pub request_vote_end : Node P C → P → ℕ → LogId → LogId → Node P C × List C
  request_vote_end n candidate_id term log_id last_log_id =
      let (n', failed) = step_down no_peer n term in
      if not (term == n.current_term)
      then (n, [])
      else if at_least log_id last_log_id && n.voted_id == no_peer
      then (
        record n' { voted_id = candidate_id; meta = (set_votedfor n'.meta candidate_id).0 },
        failed,
      )
      else (n, [])

  -- The term and the vote of the answer.
  unfoldable pub request_vote_answer : Node P C → P → ℕ → ℕ × Bool
  request_vote_answer n candidate_id term =
      (n.current_term, term == n.current_term && n.voted_id == candidate_id)

  -- become_leader, where the log ends at `last_log_index`.
  unfoldable pub become_leader : Node P C → ℕ → Node P C × List (Action P C)
  become_leader n last_log_index = (
    record n {
      vote_timer = false;
      state = leader;
      leader_id = n.server_id;
      ballot_box = reset_pending_index n.ballot_box (last_log_index + 1);
      stepdown_timer = true;
    },
    reset_replicators n.current_term
        ∷ asks add_replicator (others n.server_id (list_peers less n.conf)),
  )

  -- elect_self, up to where it lets go of the mutex; `none` if it returns at once.
  unfoldable pub elect_self_begin : Node P C → Option (Node P C)
  unfolding reset_leader_id
  elect_self_begin n =
      if not (entry_contains n.conf n.server_id)
      then none
      else let stopped = record n {
        election_timer = if is_state n.state follower then false else n.election_timer;
      } in
        some (record (reset_leader_id no_peer stopped no_peer) {
          state = candidate;
          current_term = n.current_term + 1;
          voted_id = n.server_id;
          vote_timer = true;
          vote_ctx = init n.conf.conf (old_conf_of n.conf);
        })

  -- The rest of it, for the term that the candidate raised.
  unfoldable pub elect_self_end : Node P C → ℕ → LogId → ℕ → Node P C × List (Action P C)
  unfolding become_leader
  elect_self_end n old_term last_log_id last_log_index =
      let voted = record n {
        meta = (set_term_and_votedfor n.meta n.current_term n.server_id).0;
        vote_ctx = grant n.server_id n.vote_ctx;
      } in
      let asked =
        asks (λ p. ask_vote p n.current_term last_log_id)
          (others n.server_id (list_peers less n.conf)) in
      let (elected, actions) = become_leader voted last_log_index in
      if not (old_term == n.current_term)
      then (n, [])
      else if granted voted.vote_ctx
      then (elected, asked ++ actions)
      else (voted, asked)

  -- prevote; only the peer with port 8000 starts one.
  unfoldable pub prevote : Node P C → Bool → LogId → Node P C × List (Action P C)
  prevote n port_is_8000 last_log_id = if not port_is_8000 then (n, []) else (
    record n { prevote_ctx = grant n.server_id (init n.conf.conf (old_conf_of n.conf)) },
    asks (λ p. ask_prevote p (n.current_term + 1) last_log_id) (others n.server_id n.peer_list),
  )

  -- handle_pre_vote_response; `true` if it goes on with elect_self.
  unfoldable pub handle_pre_vote_response : Node P C → P → ℕ → ℕ → Bool → Node P C × List C × Bool
  handle_pre_vote_response n peer_id term response_term response_granted =
      let (n', failed) = step_down no_peer n response_term in
      let ctx = grant peer_id n.prevote_ctx in
      if not (is_state n.state follower) || not (term == n.current_term)
      then (n, [], false)
      else if ltb n.current_term response_term
      then (n', failed, false)
      else if response_granted
      then (record n { prevote_ctx = ctx }, [], granted ctx)
      else (n, [], false)

  unfoldable pub handle_request_vote_response :
      Node P C → P → ℕ → ℕ → Bool → ℕ → Node P C × List (Action P C)
  unfolding become_leader
  handle_request_vote_response n peer_id term response_term response_granted last_log_index =
      let (n', failed) = step_down no_peer n response_term in
      let counted = record n { vote_ctx = grant peer_id n.vote_ctx } in
      if not (is_state n.state candidate) || not (term == n.current_term)
      then (n, [])
      else if ltb n.current_term response_term
      then (n', fails failed)
      else if response_granted
      then (if granted counted.vote_ctx
          then become_leader counted last_log_index
          else (counted, []))
      else (n, [])

  -- handle_append_entries_request, up to the check of the log.
  unfoldable pub admit_append_entries : Node P C → ℕ → P → ℕ → Bool → Node P C × List C × Admission
  admit_append_entries n term server_id now from_cache =
      let (checked, failed) = check_step_down no_peer n term server_id in
      let (n', failed') = step_down no_peer checked (term + 1) in
      if ltb term n.current_term
      then (n, [], stale_term)
      else if not (server_id == checked.leader_id)
      then (n', failed ++ failed', conflict)
      else if from_cache
      then (checked, failed, admitted)
      else (record checked { last_leader_timestamp = now }, failed, admitted)

  -- handle_election_timeout at the time `now`; `true` if it goes on with prevote.
  unfoldable pub handle_election_timeout : Node P C → ℕ → ℕ → Node P C × Bool
  unfolding reset_leader_id
  handle_election_timeout n now election_timeout_ms =
      if not (is_state n.state follower)
        || (not n.vote_triggered && ltb now (n.last_leader_timestamp + election_timeout_ms))
      then (n, false)
      else (reset_leader_id no_peer (record n { vote_triggered = false }) no_peer, true)

  -- handle_vote_timeout; `steps_down` is the flag raft_step_down_when_vote_timedout.
  unfoldable pub handle_vote_timeout : Node P C → Bool → Node P C × List C × Retry
  handle_vote_timeout n steps_down =
      let (n', failed) = step_down no_peer n n.current_term in
      if not (is_state n.state candidate)
      then (n, [], stops)
      else if steps_down
      then (n', failed, prevotes)
      else (n, [], elects)

  -- handle_stepdown_timeout with check_dead_nodes; `alive` says which peers were heard in time.
  unfoldable pub handle_stepdown_timeout : Node P C → (P → Bool) → Node P C × List C
  handle_stepdown_timeout n alive =
      if ltb (rank transferring) (rank n.state) || stable n.conf
      then (n, [])
      else if leb (length n.conf.old_conf / 2 + 1) (alive_count n.server_id alive n.conf.old_conf)
      then (n, [])
      else step_down no_peer n n.current_term

  -- The code 0 is `true`, EINVAL is `false`.
  unfoldable pub increase_term_to : Node P C → ℕ → Node P C × List C × Bool
  increase_term_to n new_term =
      let (n', failed) = step_down no_peer n new_term in
      if leb new_term n.current_term then (n, [], false) else (n', failed, true)

  -- The part of shutdown that changes the node's state and timers.
  unfoldable pub shutdown : Node P C → Node P C × List C
  shutdown n =
      if leb (rank shutting) (rank n.state)
      then (n, [])
      else let (n', failed) =
          if leb (rank n.state) (rank follower)
          then step_down no_peer n n.current_term
          else (n, []) in
        (
          record n' {
            state = shutting;
            election_timer = false;
            vote_timer = false;
            stepdown_timer = false;
          },
          failed,
        )
