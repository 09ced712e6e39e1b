-- ===== src/Node.antt =====
-- cpp/node.h and cpp/node.cc: the state of a node and its elections. Each function is what a handler
-- does under one hold of the node's mutex; a handler that lets go of it is two functions. Timers are
-- running or not; `P` is PeerId and `no_peer` the empty one. Terms stay below 2^31.
pub mod Election
pub mod Votes
pub mod Leaders
pub mod Cache
pub mod Requests
pub mod Storing
pub mod Retransmission
pub mod Tasks
pub mod Applied
use hit_consistency.Prelude.{
  [], ◌∷◌, List, refl, arith, ℕ, Bool, true, false, not, ◌&&◌, ◌||◌, Option, none, some,
  if◌then◌else◌, ltb, leb, Eq, ◌==◌, nat_eq, ◌+◌, ◌-◌, ◌<◌, ◌++◌,
}
use hit_consistency.Ballot.{Ballot}
use hit_consistency.BallotBox.{BallotBox, clear_pending_tasks, reset_pending_index}
use hit_consistency.ConfigurationManager.{ConfigurationEntry, stable, entry_contains}
use hit_consistency.LogEntry.{LogId}
use hit_consistency.MetaStorage.{MetaStorage, set_term_and_votedfor, set_votedfor}

pub data State : Type 0 where
  leader transferring candidate follower error uninitialized shutting shutdown : State

-- The value of the C++ enumerator.
abbrev pub rank : State → ℕ
rank leader = 1
rank transferring = 2
rank candidate = 3
rank follower = 4
rank error = 5
rank uninitialized = 6
rank shutting = 7
rank shutdown = 8

abbrev pub is_state : State → State → Bool
is_state s t = rank s == rank t

-- What a node asks of its neighbours: messages, replicators and closures that fail.
pub data Action (P C : Type 0) : Type 0 where
  ask_prevote : P → ℕ → LogId → Action P C
  ask_vote : P → ℕ → LogId → Action P C
  reset_replicators : ℕ → Action P C
  add_replicator : P → Action P C
  fail : C → Action P C

pub record Node (P C : Type 0) : Type 0 where
  pub server_id : P
  pub leader_id : P
  pub voted_id : P
  pub current_term : ℕ
  pub state : State
  pub ballot_box : BallotBox P C
  pub prevote_ctx : Ballot P
  pub vote_ctx : Ballot P
  pub conf : ConfigurationEntry P
  pub peer_list : List P
  pub meta : MetaStorage P
  pub last_leader_timestamp : ℕ
  pub vote_triggered : Bool
  pub election_timer : Bool
  pub vote_timer : Bool
  pub stepdown_timer : Bool

abbrev pub fails : {P C : Type 0} → List C → List (Action P C)
fails [] = []
fails (c ∷ cs) = fail c ∷ fails cs

module _ {P : Type 0} ⦃e : Eq P⦄ where
  -- The peers but this node, in order.
  abbrev pub others : P → List P → List P
  others self [] = []
  others self (p ∷ ps) = let rest = others self ps in if p == self then rest else p ∷ rest

module _ {P : Type 0} ⦃e : Eq P⦄ (no_peer : P) where
  module _ {C : Type 0} where
    unfoldable pub reset_leader_id : Node P C → P → Node P C
    reset_leader_id n new_leader_id = record n {
      leader_id = if new_leader_id == no_peer then no_peer else new_leader_id;
    }

    -- The timers and the tasks that go with the state that a node leaves.
    abbrev pub leave_state : Node P C → State → Node P C × List C
    leave_state n candidate = (record n { vote_timer = false }, [])
    leave_state n leader =
        let (box, failed) = clear_pending_tasks n.ballot_box in
        (record n { stepdown_timer = false; ballot_box = box }, failed)
    leave_state n transferring =
        let (box, failed) = clear_pending_tasks n.ballot_box in
        (record n { stepdown_timer = false; ballot_box = box }, failed)
    leave_state n other = (n, [])

    abbrev pub raise_term : Node P C → ℕ → Node P C
    raise_term n term =
        if ltb n.current_term term
        then record n {
          current_term = term;
          voted_id = no_peer;
          meta = (set_term_and_votedfor n.meta term no_peer).0;
        }
        else n

    unfoldable pub step_down : Node P C → ℕ → Node P C × List C
    unfolding reset_leader_id
    step_down n term =
        let (left, failed) = leave_state (reset_leader_id n no_peer) n.state in
        (raise_term (record left { state = follower; election_timer = true }) term, failed)

    unfoldable pub check_step_down : Node P C → ℕ → P → Node P C × List C
    unfolding step_down
    check_step_down n request_term server_id =
        let stale =
          ltb n.current_term request_term
          || not (is_state n.state follower)
          || n.leader_id == no_peer in
        let (stepped, failed) = if stale then step_down n request_term else (n, []) in
        (
          if stepped.leader_id == no_peer then reset_leader_id stepped server_id else stepped,
          failed,
        )
