-- ===== src/Node/Cache.antt =====
-- cpp/node.h and cpp/node.cc: AppendEntriesCache, the requests of a follower that wait for the entries
-- they depend on. An RPC is known by the address of its object. The map by prev_log_index is the list of
-- its RPCs in this order. `max_size` is FLAGS_raft_max_append_entries_cache_size; bthread's timers and
-- threads succeed as `Threads` says. The timer's handler is empty in the source.
use hit_consistency.Prelude.{
  [], ◌∷◌, ◌++◌, List, ℕ, zero, suc, Bool, false, not, ◌||◌, Option, none, some, ltb, leb, ◌==◌,
  nat_eq, if◌then◌else◌, ◌+◌, ◌-◌, length, last?,
}
use hit_consistency.ClosureQueue.{is_empty}
use hit_consistency.LogManager.{shift_left, shift_right, includes}

pub record AppendEntriesRpc : Type 0 where
  pub address : ℕ
  pub prev_log_index : ℕ
  pub entries_size : ℕ
  pub dependency : ℕ

pub record AppendEntriesCache : Type 0 where
  pub rpc_queue : List AppendEntriesRpc
  pub rpc_map : List AppendEntriesRpc
  pub timer : Bool
  pub timer_version : ℕ

pub record Threads : Type 0 where
  pub timer_adds : Bool
  pub timer_dels : Bool
  pub starts : Bool

-- What becomes of RPCs that leave the cache: nothing leaves, a thread handles them, or they fail.
pub data Handed : Type 0 where
  nothing : Handed
  handled refused : List AppendEntriesRpc → Handed

abbrev pub new_cache : AppendEntriesCache
new_cache = record { rpc_queue = []; rpc_map = []; timer = false; timer_version = 0 }

unfoldable pub remove_from_list : List AppendEntriesRpc → AppendEntriesRpc → List AppendEntriesRpc
remove_from_list [] rpc = []
remove_from_list (r ∷ rs) rpc =
    let rest = remove_from_list rs rpc in if r.address == rpc.address then rs else r ∷ rest

unfoldable pub remove_all : List AppendEntriesRpc → List AppendEntriesRpc → List AppendEntriesRpc
remove_all queue [] = queue
remove_all queue (r ∷ rs) = remove_all (remove_from_list queue r) rs

-- std::map::insert, which leaves an RPC that is already there under the index.
unfoldable pub map_insert : AppendEntriesRpc → List AppendEntriesRpc → List AppendEntriesRpc
map_insert rpc [] = rpc ∷ []
map_insert rpc (r ∷ rs) =
    let rest = map_insert rpc rs in
    if ltb rpc.prev_log_index r.prev_log_index
    then rpc ∷ (r ∷ rs)
    else if rpc.prev_log_index == r.prev_log_index
    then r ∷ rs
    else r ∷ rest

abbrev pub drop_last : List AppendEntriesRpc → List AppendEntriesRpc
drop_last [] = []
drop_last (r ∷ []) = []
drop_last (r ∷ (q ∷ rs)) = r ∷ drop_last (q ∷ rs)

abbrev pub start_to_handle : Threads → List AppendEntriesRpc → Handed
start_to_handle threads rpcs = if threads.starts then handled rpcs else refused rpcs

-- The thread is only started for some RPCs.
abbrev pub hand_over : Threads → List AppendEntriesRpc → Handed
hand_over threads [] = nothing
hand_over threads (r ∷ rs) = start_to_handle threads (r ∷ rs)

-- start_timer, and whether it succeeds.
unfoldable pub start_timer : Threads → AppendEntriesCache → AppendEntriesCache × Bool
start_timer threads c = (
  record c { timer_version = c.timer_version + 1; timer = c.timer || threads.timer_adds },
  threads.timer_adds,
)

unfoldable pub stop_timer : Threads → AppendEntriesCache → AppendEntriesCache
stop_timer threads c =
    if c.timer
    then record c { timer_version = c.timer_version + 1; timer = not threads.timer_dels }
    else c

unfoldable pub clear_cache : Threads → AppendEntriesCache → AppendEntriesCache × Handed
unfolding stop_timer
clear_cache threads c = (
  record (stop_timer threads c) { rpc_queue = []; rpc_map = [] },
  start_to_handle threads c.rpc_queue,
)

-- The loop of `store`, which takes the last RPC of the map; `out` are the RPCs taken so far.
unfoldable pub release_last :
    ℕ → AppendEntriesCache → List AppendEntriesRpc → AppendEntriesCache × List AppendEntriesRpc
release_last zero c out = (c, out)
release_last (suc n) c out = elim (last? c.rpc_map) [
  | none ↦ (c, out)
  | some rpc ↦
      release_last n
        (record c { rpc_queue = remove_from_list c.rpc_queue rpc; rpc_map = drop_last c.rpc_map })
        (out ++ rpc ∷ [])
]

abbrev pub trim_cache : Threads → ℕ → AppendEntriesCache → AppendEntriesCache × Handed
trim_cache threads max_size c =
    let (c', out) = release_last (length c.rpc_map - max_size) c [] in (c', hand_over threads out)

unfoldable pub store :
    Threads → ℕ → AppendEntriesCache → AppendEntriesRpc → AppendEntriesCache × Handed
unfolding map_insert start_timer release_last
store threads max_size c rpc =
    let added = record c {
      rpc_queue = c.rpc_queue ++ rpc ∷ [];
      rpc_map = map_insert rpc c.rpc_map;
    } in
    let (timed, ok) = start_timer threads added in
    if length added.rpc_map == 1
    then if ok then trim_cache threads max_size timed else clear_cache threads timed
    else trim_cache threads max_size added

-- The RPC's dependencies are in the bitmap, whose lowest bit is the entry `last_log_index`.
unfoldable pub is_runable : ℕ → ℕ → AppendEntriesRpc → Bool
is_runable dependency_bitmap last_log_index rpc =
    let index = rpc.prev_log_index + rpc.entries_size in
    if ltb index last_log_index
    then includes (shift_right dependency_bitmap (last_log_index - index)) rpc.dependency
    else includes (shift_left dependency_bitmap (index - last_log_index)) rpc.dependency

-- The RPCs that the loop over the map takes, and those that it leaves.
unfoldable pub runable : ℕ → ℕ → List AppendEntriesRpc → List AppendEntriesRpc
runable bitmap last_log_index [] = []
runable bitmap last_log_index (r ∷ rs) =
    let rest = runable bitmap last_log_index rs in
    if is_runable bitmap last_log_index r then r ∷ rest else rest

unfoldable pub waiting : ℕ → ℕ → List AppendEntriesRpc → List AppendEntriesRpc
waiting bitmap last_log_index [] = []
waiting bitmap last_log_index (r ∷ rs) =
    let rest = waiting bitmap last_log_index rs in
    if is_runable bitmap last_log_index r then rest else r ∷ rest

unfoldable pub process_runable_rpcs :
    Threads → AppendEntriesCache → ℕ → ℕ → AppendEntriesCache × Handed
unfolding runable waiting remove_all stop_timer
process_runable_rpcs threads c bitmap last_log_index =
    let out = runable bitmap last_log_index c.rpc_map in
    let left = record c {
      rpc_queue = remove_all c.rpc_queue out;
      rpc_map = waiting bitmap last_log_index c.rpc_map;
    } in
    if is_empty c.rpc_map || is_empty c.rpc_queue
    then (c, nothing)
    else (if is_empty left.rpc_map then stop_timer threads left else left, hand_over threads out)

-- The request goes to the cache, which is made if there is none, or `none` if it does not wait.
unfoldable pub handle_out_of_order_append_entries :
    Threads
    → ℕ
    → Option AppendEntriesCache
    → AppendEntriesRpc
    → ℕ
    → Option (AppendEntriesCache × Handed)
unfolding store
handle_out_of_order_append_entries threads max_size cache rpc local_last_index =
    if leb rpc.prev_log_index local_last_index || rpc.entries_size == 0
    then none
    else some (store threads max_size (elim cache [ none ↦ new_cache | some c ↦ c ]) rpc)
