-- ===== src/Node/Votes.antt =====
-- The vote of a node of cpp/node.cc over any sequence of its handlers.
use hit_consistency.Prelude.{
  [], ◌∷◌, List, refl, arith, ℕ, Bool, true, false, Option, none, some, if◌then◌else◌, Eq, nat_eq,
  ◌≤◌, ◌≡◌, ◌==◌, ltb, ◌+◌, Bool-cases, inl, inr,
}
use hit_consistency.LogEntry.{LogId}
use hit_consistency.Node.{
  Node, State, leader, transferring, candidate, follower, error, uninitialized, shutting, shutdown,
  reset_leader_id, step_down, check_step_down, leave_state,
}
use hit_consistency.Node.Election.{
  request_vote_begin, request_vote_end, request_vote_answer, become_leader, elect_self_begin,
  elect_self_end, prevote, handle_pre_vote_response, handle_request_vote_response,
  admit_append_entries, handle_election_timeout, handle_vote_timeout, handle_stepdown_timeout,
  increase_term_to, Retry, stops, prevotes, elects,
}
use hit_consistency.Node.Election

-- One hold of the mutex.
pub data Event (P : Type 0) : Type 0 where
  vote_requested : ℕ → Event P
  vote_decided : P → ℕ → LogId → LogId → Event P
  vote_answered : P → ℕ → ℕ → Bool → ℕ → Event P
  prevote_answered : P → ℕ → ℕ → Bool → Event P
  elected_self : ℕ → LogId → ℕ → Event P
  entries_came : ℕ → P → ℕ → Bool → Event P
  election_timed_out : ℕ → ℕ → Bool → LogId → Event P
  vote_timed_out : Bool → Bool → LogId → Event P
  stepdown_timed_out : (P → Bool) → Event P
  term_raised : ℕ → Event P
  shut_down : Event P

module _ {P : Type 0} ⦃e : Eq P⦄ (less : P → P → Bool) (no_peer : P) {C : Type 0} where
  abbrev pub or_same : Node P C → Option (Node P C) → Node P C
  or_same n none = n
  or_same n (some n') = n'

  -- The node after a handler, with what the handler goes on to under the same hold.
  unfoldable pub step : Node P C → Event P → Node P C
  step n (vote_requested term) = (request_vote_begin less no_peer n term).0
  step n (vote_decided cand term log_id last) =
      (request_vote_end less no_peer n cand term log_id last).0
  step n (vote_answered peer term rt ok last) =
      (handle_request_vote_response less no_peer n peer term rt ok last).0
  step n (prevote_answered peer term rt ok) =
      let (n', failed, go) = handle_pre_vote_response less no_peer n peer term rt ok in
      if go then or_same n' (elect_self_begin less no_peer n') else n'
  step n (elected_self term last_id last) = (elect_self_end less no_peer n term last_id last).0
  step n (entries_came term server now cache) =
      (admit_append_entries less no_peer n term server now cache).0
  step n (election_timed_out now ms port last) =
      let (n', go) = handle_election_timeout less no_peer n now ms in
      if go then (prevote less no_peer n' port last).0 else n'
  step n (vote_timed_out steps_down port last) =
      let (n', failed, retry) = handle_vote_timeout less no_peer n steps_down in
      elim retry [
        | stops ↦ n'
        | prevotes ↦ (prevote less no_peer n' port last).0
        | elects ↦ or_same n' (elect_self_begin less no_peer n')
      ]
  step n (stepdown_timed_out alive) = (handle_stepdown_timeout less no_peer n alive).0
  step n (term_raised term) = (increase_term_to less no_peer n term).0
  step n shut_down = (Election.shutdown less no_peer n).0

  unfoldable pub run : Node P C → List (Event P) → Node P C
  unfolding step
  run n [] = n
  run n (ev ∷ evs) = run (step n ev) evs

  -- What every handler keeps: the term does not fall, and a vote stands for its term.
  pub record Keeps (n n' : Node P C) : Type 0 where
    pub term_le : n.current_term ≤ n'.current_term
    pub vote_kept :
        n'.current_term ≡ n.current_term
        → (n.voted_id == no_peer) ≡ false
        → n'.voted_id ≡ n.voted_id

  left_lem :
      (n : Node P C) (s : State)
      → ((leave_state no_peer n s).0.current_term ≡ n.current_term)
        × ((leave_state no_peer n s).0.voted_id ≡ n.voted_id)
  left_lem n leader = (refl, refl)
  left_lem n transferring = (refl, refl)
  left_lem n candidate = (refl, refl)
  left_lem n follower = (refl, refl)
  left_lem n error = (refl, refl)
  left_lem n uninitialized = (refl, refl)
  left_lem n shutting = (refl, refl)
  left_lem n shutdown = (refl, refl)

  -- The term and the vote that step_down leaves.
  pub step_down_lem :
      (n : Node P C) (term : ℕ)
      → let n' = (step_down no_peer n term).0 in
        (n'.current_term ≡ (if ltb n.current_term term then term else n.current_term))
        × (n'.voted_id ≡ (if ltb n.current_term term then no_peer else n.voted_id))
        × (n'.state ≡ follower)
  unfolding step_down reset_leader_id
  step_down_lem n term = ground (arith, left_lem (reset_leader_id no_peer n no_peer) n.state)

  request_vote_begin-Keeps :
      (n : Node P C) (term : ℕ) → Keeps n (request_vote_begin less no_peer n term).0
  unfolding request_vote_begin
  request_vote_begin-Keeps n term = ground (arith, step_down_lem n term)

  request_vote_end-Keeps :
      (n : Node P C) (cand : P) (term : ℕ) (log_id last : LogId)
      → Keeps n (request_vote_end less no_peer n cand term log_id last).0
  unfolding request_vote_end
  request_vote_end-Keeps n cand term log_id last = ground (arith, step_down_lem n term)

  become_leader-Keeps : (n : Node P C) (last : ℕ) → Keeps n (become_leader less no_peer n last).0
  unfolding become_leader
  become_leader-Keeps n last = ground arith

  response-Keeps :
      (n : Node P C) (peer : P) (term rt : ℕ) (ok : Bool) (last : ℕ)
      → Keeps n (handle_request_vote_response less no_peer n peer term rt ok last).0
  unfolding handle_request_vote_response become_leader
  response-Keeps n peer term rt ok last = ground (arith, step_down_lem n rt)

  elect_self-Keeps : (n : Node P C) → Keeps n (or_same n (elect_self_begin less no_peer n))
  unfolding elect_self_begin reset_leader_id
  elect_self-Keeps n = ground arith

  prevote_response-Keeps :
      (n : Node P C) (peer : P) (term rt : ℕ) (ok : Bool)
      → Keeps n (handle_pre_vote_response less no_peer n peer term rt ok).0
  unfolding handle_pre_vote_response
  prevote_response-Keeps n peer term rt ok = ground (arith, step_down_lem n rt)

  elected-Keeps :
      (n : Node P C) (term : ℕ) (last_id : LogId) (last : ℕ)
      → Keeps n (elect_self_end less no_peer n term last_id last).0
  unfolding elect_self_end become_leader
  elected-Keeps n term last_id last = ground arith

  check_step_down-Keeps :
      (n : Node P C) (term : ℕ) (server : P) → Keeps n (check_step_down no_peer n term server).0
  unfolding check_step_down reset_leader_id
  check_step_down-Keeps n term server = ground (arith, step_down_lem n term)

  prevote-Keeps :
      (n : Node P C) (port : Bool) (last : LogId) → Keeps n (prevote less no_peer n port last).0
  unfolding prevote
  prevote-Keeps n port last = ground arith

  entries-Keeps :
      (n : Node P C) (term : ℕ) (server : P) (now : ℕ) (cache : Bool)
      → Keeps n (admit_append_entries less no_peer n term server now cache).0
  unfolding admit_append_entries
  entries-Keeps n term server now cache =
      let checked = (check_step_down no_peer n term server).0 in
      ground (arith, check_step_down-Keeps n term server, step_down_lem checked (term + 1))

  Keeps-trans : (n n' n'' : Node P C) → Keeps n n' → Keeps n' n'' → Keeps n n''
  Keeps-trans n n' n'' a b = record {
    term_le = omega (arith, a.term_le, b.term_le);
    vote_kept = λ t v. ground (arith, a.vote_kept, b.vote_kept, a.term_le, b.term_le);
  }

  timeout-Keeps :
      (n : Node P C) (now ms : ℕ) → Keeps n (handle_election_timeout less no_peer n now ms).0
  unfolding handle_election_timeout reset_leader_id
  timeout-Keeps n now ms = ground arith

  vote_timeout-Keeps :
      (n : Node P C) (steps_down : Bool) → Keeps n (handle_vote_timeout less no_peer n steps_down).0
  unfolding handle_vote_timeout
  vote_timeout-Keeps n steps_down = ground (arith, step_down_lem n n.current_term)

  retry-Keeps :
      (n : Node P C) (retry : Retry) (port : Bool) (last : LogId)
      → Keeps n (elim retry [
        | stops ↦ n
        | prevotes ↦ (prevote less no_peer n port last).0
        | elects ↦ or_same n (elect_self_begin less no_peer n)
      ])
  retry-Keeps n stops port last = record { term_le = omega arith; vote_kept = λ t v. refl }
  retry-Keeps n prevotes port last = prevote-Keeps n port last
  retry-Keeps n elects port last = elect_self-Keeps n

  stepdown_timeout-Keeps :
      (n : Node P C) (alive : P → Bool) → Keeps n (handle_stepdown_timeout less no_peer n alive).0
  unfolding handle_stepdown_timeout
  stepdown_timeout-Keeps n alive = ground (arith, step_down_lem n n.current_term)

  increase_term_to-Keeps :
      (n : Node P C) (term : ℕ) → Keeps n (increase_term_to less no_peer n term).0
  unfolding increase_term_to
  increase_term_to-Keeps n term = ground (arith, step_down_lem n term)

  shutdown-Keeps : (n : Node P C) → Keeps n (Election.shutdown less no_peer n).0
  unfolding Election.shutdown
  shutdown-Keeps n = ground (arith, step_down_lem n n.current_term)

  step-Keeps : (n : Node P C) (ev : Event P) → Keeps n (step n ev)
  unfolding step
  step-Keeps n (vote_requested term) = request_vote_begin-Keeps n term
  step-Keeps n (vote_decided cand term log_id last) = request_vote_end-Keeps n cand term log_id last
  step-Keeps n (vote_answered peer term rt ok last) = response-Keeps n peer term rt ok last
  step-Keeps n (prevote_answered peer term rt ok) =
      let m = (handle_pre_vote_response less no_peer n peer term rt ok).0 in
      let a = prevote_response-Keeps n peer term rt ok in
      elim (Bool-cases (handle_pre_vote_response less no_peer n peer term rt ok).2) [
        | inl go ↦
            rw go
              (Keeps-trans n m (or_same m (elect_self_begin less no_peer m)) a (elect_self-Keeps m))
        | inr stay ↦ rw stay a
      ]
  step-Keeps n (elected_self term last_id last) = elected-Keeps n term last_id last
  step-Keeps n (entries_came term server now cache) = entries-Keeps n term server now cache
  step-Keeps n (election_timed_out now ms port last) =
      let m = (handle_election_timeout less no_peer n now ms).0 in
      let a = timeout-Keeps n now ms in
      elim (Bool-cases (handle_election_timeout less no_peer n now ms).1) [
        | inl go ↦
            rw go
              (Keeps-trans n m (prevote less no_peer m port last).0 a (prevote-Keeps m port last))
        | inr stay ↦ rw stay a
      ]
  step-Keeps n (vote_timed_out steps_down port last) =
      let (m, failed, retry) = handle_vote_timeout less no_peer n steps_down in
      Keeps-trans n m (step n (vote_timed_out steps_down port last))
        (vote_timeout-Keeps n steps_down) (retry-Keeps m retry port last)
  step-Keeps n (stepdown_timed_out alive) = stepdown_timeout-Keeps n alive
  step-Keeps n (term_raised term) = increase_term_to-Keeps n term
  step-Keeps n shut_down = shutdown-Keeps n

  run-Keeps : (n : Node P C) (evs : List (Event P)) → Keeps n (run n evs)
  unfolding run
  run-Keeps n [] = record { term_le = omega arith; vote_kept = λ t v. refl }
  run-Keeps n (ev ∷ evs) =
      Keeps-trans n (step n ev) (run (step n ev) evs) (step-Keeps n ev) (run-Keeps (step n ev) evs)

  -- A node votes for one candidate in a term: if it answers a request for a vote in a term with yes,
  -- and answers another in the same term with yes after any sequence of its handlers, the two
  -- candidates are the same peer. The first is not the empty identifier.
  pub one_vote_per_term :
      (n : Node P C) (evs : List (Event P)) (a b : P) (term : ℕ)
      → (a == no_peer) ≡ false
      → (request_vote_answer less no_peer n a term).1 ≡ true
      → (request_vote_answer less no_peer (run n evs) b term).1 ≡ true
      → a ≡ b
  unfolding request_vote_answer
  one_vote_per_term n evs a b term real yes_a yes_b =
      let n' = run n evs in
      let K = run-Keeps n evs in
      ground (arith, e.beq_iff n.voted_id a, e.beq_iff n'.voted_id b, K.vote_kept)

  -- No sequence of a node's handlers takes its term back.
  pub run-term_le :
      (n : Node P C) (evs : List (Event P)) → n.current_term ≤ (run n evs).current_term
  run-term_le n evs = (run-Keeps n evs).term_le
