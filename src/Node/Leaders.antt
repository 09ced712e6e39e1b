-- ===== src/Node/Leaders.antt =====
-- How a node of cpp/node.cc becomes a leader.
use hit_consistency.Prelude.{
  [], ◌∷◌, List, arith, ℕ, Bool, true, Eq, nat_eq, ◌≡◌, ◌+◌, Bool-cases, inl, inr,
}
use hit_consistency.LogEntry.{LogId}
use hit_consistency.Ballot.{granted}
use hit_consistency.Ballot.Monotone.{granted_mono}
use hit_consistency.Node.{Node, leader, reset_leader_id, check_step_down}
use hit_consistency.Node.Election.{
  request_vote_begin, request_vote_end, become_leader, elect_self_begin, elect_self_end, prevote,
  handle_pre_vote_response, handle_request_vote_response, admit_append_entries,
  handle_election_timeout, handle_vote_timeout, handle_stepdown_timeout, increase_term_to, Retry,
  stops, prevotes, elects,
}
use hit_consistency.Node.Election
use hit_consistency.Node.Votes.{
  step_down_lem, or_same, Event, vote_requested, vote_decided, vote_answered, prevote_answered,
  elected_self, entries_came, election_timed_out, vote_timed_out, stepdown_timed_out, term_raised,
  shut_down, step, run,
}

abbrev Led : {P C : Type 0} → Node P C → Type 0
Led n = n.state ≡ leader → granted n.vote_ctx ≡ true

module _ {P : Type 0} ⦃e : Eq P⦄ (less : P → P → Bool) (no_peer : P) {C : Type 0} where
  response-Led :
      (n : Node P C) (peer : P) (term rt : ℕ) (ok : Bool) (last : ℕ)
      → Led n
      → Led (handle_request_vote_response less no_peer n peer term rt ok last).0
  unfolding handle_request_vote_response become_leader
  response-Led n peer term rt ok last h = ground (arith, step_down_lem less no_peer n rt)

  elected-Led :
      (n : Node P C) (term : ℕ) (last_id : LogId) (last : ℕ)
      → Led n
      → Led (elect_self_end less no_peer n term last_id last).0
  unfolding elect_self_end become_leader
  elected-Led n term last_id last h = ground (arith, granted_mono n.server_id n.vote_ctx)

  elect_self-Led :
      (n : Node P C) → Led n → Led (or_same less no_peer n (elect_self_begin less no_peer n))
  unfolding elect_self_begin reset_leader_id
  elect_self-Led n h = ground arith

  request_vote_begin-Led :
      (n : Node P C) (term : ℕ) → Led n → Led (request_vote_begin less no_peer n term).0
  unfolding request_vote_begin
  request_vote_begin-Led n term h = ground (arith, step_down_lem less no_peer n term)

  request_vote_end-Led :
      (n : Node P C) (cand : P) (term : ℕ) (log_id last : LogId)
      → Led n
      → Led (request_vote_end less no_peer n cand term log_id last).0
  unfolding request_vote_end
  request_vote_end-Led n cand term log_id last h = ground (arith, step_down_lem less no_peer n term)

  prevote_response-Led :
      (n : Node P C) (peer : P) (term rt : ℕ) (ok : Bool)
      → Led n
      → Led (handle_pre_vote_response less no_peer n peer term rt ok).0
  unfolding handle_pre_vote_response
  prevote_response-Led n peer term rt ok h = ground (arith, step_down_lem less no_peer n rt)

  prevote-Led :
      (n : Node P C) (port : Bool) (last : LogId) → Led n → Led (prevote less no_peer n port last).0
  unfolding prevote
  prevote-Led n port last h = ground (arith)

  check_step_down-Led :
      (n : Node P C) (term : ℕ) (server : P) → Led n → Led (check_step_down no_peer n term server).0
  unfolding check_step_down reset_leader_id
  check_step_down-Led n term server h = ground (arith, step_down_lem less no_peer n term)

  entries-Led :
      (n : Node P C) (term : ℕ) (server : P) (now : ℕ) (cache : Bool)
      → Led n
      → Led (admit_append_entries less no_peer n term server now cache).0
  unfolding admit_append_entries
  entries-Led n term server now cache h =
      let checked = (check_step_down no_peer n term server).0 in
      ground
        (arith, check_step_down-Led n term server, step_down_lem less no_peer checked (term + 1))

  timeout-Led :
      (n : Node P C) (now ms : ℕ) → Led n → Led (handle_election_timeout less no_peer n now ms).0
  unfolding handle_election_timeout reset_leader_id
  timeout-Led n now ms h = ground (arith)

  vote_timeout-Led :
      (n : Node P C) (steps_down : Bool)
      → Led n
      → Led (handle_vote_timeout less no_peer n steps_down).0
  unfolding handle_vote_timeout
  vote_timeout-Led n steps_down h = ground (arith, step_down_lem less no_peer n n.current_term)

  stepdown_timeout-Led :
      (n : Node P C) (alive : P → Bool)
      → Led n
      → Led (handle_stepdown_timeout less no_peer n alive).0
  unfolding handle_stepdown_timeout
  stepdown_timeout-Led n alive h = ground (arith, step_down_lem less no_peer n n.current_term)

  increase_term_to-Led :
      (n : Node P C) (term : ℕ) → Led n → Led (increase_term_to less no_peer n term).0
  unfolding increase_term_to
  increase_term_to-Led n term h = ground (arith, step_down_lem less no_peer n term)

  shutdown-Led : (n : Node P C) → Led n → Led (Election.shutdown less no_peer n).0
  unfolding Election.shutdown
  shutdown-Led n h = ground (arith, step_down_lem less no_peer n n.current_term)

  retry-Led :
      (n : Node P C) (retry : Retry) (port : Bool) (last : LogId)
      → Led n
      → Led (elim retry [
        | stops ↦ n
        | prevotes ↦ (prevote less no_peer n port last).0
        | elects ↦ or_same less no_peer n (elect_self_begin less no_peer n)
      ])
  retry-Led n stops port last h = h
  retry-Led n prevotes port last h = prevote-Led n port last h
  retry-Led n elects port last h = elect_self-Led n h

  step-Led : (n : Node P C) (ev : Event P) → Led n → Led (step less no_peer n ev)
  unfolding step
  step-Led n (vote_requested term) h = request_vote_begin-Led n term h
  step-Led n (vote_decided cand term log_id last) h = request_vote_end-Led n cand term log_id last h
  step-Led n (vote_answered peer term rt ok last) h = response-Led n peer term rt ok last h
  step-Led n (prevote_answered peer term rt ok) h =
      let m = (handle_pre_vote_response less no_peer n peer term rt ok).0 in
      let a = prevote_response-Led n peer term rt ok h in
      elim (Bool-cases (handle_pre_vote_response less no_peer n peer term rt ok).2) [
        | inl go ↦ rw go (elect_self-Led m a)
        | inr stay ↦ rw stay a
      ]
  step-Led n (elected_self term last_id last) h = elected-Led n term last_id last h
  step-Led n (entries_came term server now cache) h = entries-Led n term server now cache h
  step-Led n (election_timed_out now ms port last) h =
      let m = (handle_election_timeout less no_peer n now ms).0 in
      let a = timeout-Led n now ms h in
      elim (Bool-cases (handle_election_timeout less no_peer n now ms).1) [
        | inl go ↦ rw go (prevote-Led m port last a)
        | inr stay ↦ rw stay a
      ]
  step-Led n (vote_timed_out steps_down port last) h =
      let (m, failed, retry) = handle_vote_timeout less no_peer n steps_down in
      retry-Led m retry port last (vote_timeout-Led n steps_down h)
  step-Led n (stepdown_timed_out alive) h = stepdown_timeout-Led n alive h
  step-Led n (term_raised term) h = increase_term_to-Led n term h
  step-Led n shut_down h = shutdown-Led n h

  -- A node is a leader only with a granted ballot: if this holds of a node, then it holds after any
  -- sequence of the node's handlers.
  pub run-elected :
      (n : Node P C) (evs : List (Event P))
      → (n.state ≡ leader → granted n.vote_ctx ≡ true)
      → (run less no_peer n evs).state ≡ leader
      → granted (run less no_peer n evs).vote_ctx ≡ true
  unfolding run
  run-elected n [] h = h
  run-elected n (ev ∷ evs) h = run-elected (step less no_peer n ev) evs (step-Led n ev h)
