-- ===== src/Replicator.antt =====
-- cpp/replicator.h and cpp/replicator.cc: the sender of the log to one follower. `P` is PeerId, `D`
-- the payload. `locked` says whether the id of the replicator is held: an operation that takes it
-- starts with it held, and `unlock` gives it back. What the replicator asks of others is appended to
-- `out`; a replicator that has destroyed itself is not `alive`. Reading the front of an empty deque, or a
-- deque past its end, is `none`. next_index and oo_start_index are above 0.
pub mod Sending
pub mod Calls
pub mod Returned
pub mod Control
pub mod InFly
pub mod Matching
pub mod Bounds
pub mod Responses
pub mod Answers
pub mod Commits
pub mod Defined
pub mod Total
use hit_consistency.Prelude.{
  [], ◌∷◌, List, ℕ, ℤ, pos, zero, suc, Bool, true, false, not, ◌&&◌, ◌||◌, Option, none, some, ◌==◌,
  nat_eq, if◌then◌else◌, ltb, leb, ltb_ℤ, leb_ℤ, ◌+◌, ◌-◌, ◌*◌, ◌++◌, ◌-ℤ◌, sub_ℕ, length,
  get_elem?, map, replicate,
}
use Prim.Native.Nat.{bit_or}
use hit_consistency.LogEntry.{LogEntry}

-- The error codes that the replicator tells apart.
pub data Errno : Type 0 where
  success etimedout eperm estop ebusy eintr einval other_error : Errno

pub data St : Type 0 where
  idle blocking appending_entries installing_snapshot : St

-- FlyingAppendEntriesRpc.
pub record FlyingRpc : Type 0 where
  pub log_index : ℕ
  pub entries_size : ℕ
  pub call_id : ℕ

-- CatchupClosure with its status.
pub record CatchupClosure : Type 0 where
  pub max_margin : ℕ
  pub has_timer : Bool
  pub error_was_set : Bool
  pub status : Errno

pub record Request (P D : Type 0) : Type 0 where
  pub term : ℕ
  pub prev_log_index : ℕ
  pub prev_log_term : ℕ
  pub committed_index : ℕ
  pub committed_oo_indexes : List ℕ
  pub dependency : ℕ
  pub entries : List (LogEntry P D)

-- What the replicator asks of the log manager, the ballot box, the node, timers and the channel.
pub data Effect (P D : Type 0) : Type 0 where
  append_entries heartbeat : ℕ → Request P D → Effect P D
  timeout_now : ℕ → Effect P D
  cancel : ℕ → Effect P D
  wait_from : ℕ → Effect P D
  remove_waiter : ℕ → Effect P D
  block_timer : Bool → Effect P D
  heartbeat_timer stop_heartbeat_timer send_heartbeat_later destroyed : Effect P D
  commit_at : List ℕ → Effect P D
  run_catchup : CatchupClosure → Effect P D
  increase_term_to : ℕ → Effect P D

pub record Replicator (P D : Type 0) : Type 0 where
  pub next_index : ℕ
  pub oo_committed_entries : List Bool
  pub oo_start_index : ℕ
  pub flying_append_entries_size : ℤ
  pub consecutive_error_times : ℕ
  pub has_succeeded : Bool
  pub timeout_now_index : ℕ
  pub last_rpc_send_timestamp : ℕ
  pub heartbeat_counter : ℕ
  pub append_entries_counter : ℕ
  pub readonly_index : ℕ
  pub st : St
  pub st_first_log_index : ℕ
  pub st_last_log_index : ℕ
  pub append_entries_in_fly : List FlyingRpc
  pub status_append_entries_in_fly : List Bool
  pub heartbeat_in_fly : ℕ
  pub timeout_now_in_fly : ℕ
  pub wait_id : ℕ
  pub is_waiter_canceled : Bool
  pub catchup_closure : Option CatchupClosure
  pub term : ℕ
  pub locked : Bool
  pub alive : Bool
  pub out : List (Effect P D)

-- What the log manager and the ballot box answer during one operation, the id of its next call and
-- of its waiter, whether a timer can be added or is running, and the flags.
pub record View (P D : Type 0) : Type 0 where
  pub first_log_index : ℕ
  pub last_log_index : ℕ
  pub get_term : ℕ → ℕ
  pub get_entry : ℕ → Option (LogEntry P D)
  pub payload_size : D → ℕ
  pub committed_index : ℕ
  pub committed_oo_indexes : List ℕ
  pub call_id : ℕ
  pub wait_id : ℕ
  pub timer_added : Bool
  pub timer_running : Bool
  pub max_entries_size : ℕ
  pub max_parallel_rpc_num : ℕ
  pub max_body_size : ℕ

abbrev pub is_blocking : St → Bool
is_blocking blocking = true
is_blocking other = false

-- The deque's front.
abbrev pub front : {A : Type 0} → List A → Option A
front [] = none
front (x ∷ xs) = some x

-- The loop that drops answered calls: what is left of both deques.
abbrev pub cons_rest :
    Bool
    → FlyingRpc
    → List FlyingRpc
    → List Bool
    → Option (List FlyingRpc × List Bool)
    → Option (List FlyingRpc × List Bool)
cons_rest true f fs ss rest = some (f ∷ fs, true ∷ ss)
cons_rest false f fs ss rest = rest

unfoldable pub pop_answered : List FlyingRpc → List Bool → Option (List FlyingRpc × List Bool)
pop_answered [] ss = some ([], ss)
pop_answered (f ∷ fs) [] = none
pop_answered (f ∷ fs) (s ∷ ss) = cons_rest s f fs ss (pop_answered fs ss)

abbrev pub total : List FlyingRpc → ℕ
total [] = 0
total (f ∷ fs) = f.entries_size + total fs

abbrev pub next_of : ℕ → Option FlyingRpc → ℕ
next_of next none = next
next_of next (some f) = f.log_index

module _ {P D : Type 0} where
  abbrev pub unlock : Replicator P D → Replicator P D
  unlock r = record r { locked = false }

  abbrev pub ask : Effect P D → Replicator P D → Replicator P D
  ask e r = record r { out = r.out ++ e ∷ [] }

  abbrev pub destroy : Replicator P D → Replicator P D
  destroy r = ask destroyed (record r { locked = false; alive = false })

  unfoldable pub min_flying_index : Replicator P D → Option ℕ
  min_flying_index r = elim (front r.append_entries_in_fly) [
    | none ↦ none
    | some f ↦ some f.log_index
  ]

  unfoldable pub is_catchup : View P D → Replicator P D → ℕ → Option Bool
  unfolding min_flying_index
  is_catchup v r max_margin =
      if ltb r.next_index v.first_log_index then some false else elim (min_flying_index r) [
        | none ↦ none
        | some m ↦ some (not (ltb (m + max_margin) (v.last_log_index + 1)))
      ]

  -- _cancel_append_entries_rpcs.
  unfoldable pub cancel_append_entries_rpcs : Replicator P D → Replicator P D
  cancel_append_entries_rpcs r = record r {
    out = r.out ++ map (λ f. cancel f.call_id) r.append_entries_in_fly;
    append_entries_in_fly = [];
    status_append_entries_in_fly = [];
  }

  abbrev pub drop_waiter : Replicator P D → Replicator P D
  drop_waiter r =
      if r.wait_id == 0
      then r
      else record r { out = r.out ++ remove_waiter r.wait_id ∷ []; wait_id = 0 }

  -- The end of _reset_next_index, with the calls that are not answered.
  abbrev pub reset_to :
      Replicator P D → Option (List FlyingRpc × List Bool) → Option (Replicator P D)
  reset_to r none = none
  reset_to r (some (fs, ss)) = some (
      drop_waiter
        (record (cancel_append_entries_rpcs (record r {
          next_index = next_of r.next_index (front fs);
          append_entries_in_fly = fs;
          status_append_entries_in_fly = ss;
          flying_append_entries_size = pos 0;
        })) { is_waiter_canceled = true }))

  -- The size that the loop counts down is set to 0 after it.
  unfoldable pub reset_next_index : Replicator P D → Option (Replicator P D)
  unfolding pop_answered cancel_append_entries_rpcs
  reset_next_index r =
      reset_to r (pop_answered r.append_entries_in_fly r.status_append_entries_in_fly)
