-- ===== src/Tests/Requests.antt =====
-- The cache of append entries with requests of one entry each.
use hit_consistency.Prelude.{[], ◌∷◌, refl, arith, ℕ, true, ◌<◌, ◌≡◌, nat_eq}
use hit_consistency.Node.Cache.{
  AppendEntriesRpc, AppendEntriesCache, Threads, nothing, handled, map_insert, start_timer,
  release_last, store, is_runable, runable, process_runable_rpcs,
}
use hit_consistency.Node.Requests.{count, Within, Processed, process_runable_rpcs_lem}
use hit_consistency.Node.Storing.{Held, store-Held}
use hit_consistency.Node.Retransmission.{process_all, store-repeated}

abbrev rpc_at : ℕ → ℕ → AppendEntriesRpc
rpc_at address index = record {
  address = address;
  prev_log_index = index;
  entries_size = 1;
  dependency = 1;
}

abbrev works : Threads
works = record { timer_adds = true; timer_dels = true; starts = true }

abbrev two_wait : AppendEntriesCache
two_wait = record {
  rpc_queue = rpc_at 102 7 ∷ (rpc_at 101 5 ∷ []);
  rpc_map = rpc_at 101 5 ∷ (rpc_at 102 7 ∷ []);
  timer = true;
  timer_version = 1;
}

two_wait-Within : Within two_wait.rpc_map two_wait.rpc_queue
two_wait-Within a = ground arith

process_runable_rpcs_lem_example : Processed two_wait 3 6 (process_runable_rpcs works two_wait 3 6)
process_runable_rpcs_lem_example = process_runable_rpcs_lem works two_wait 3 6 two_wait-Within

store-Held_example : Held two_wait (rpc_at 103 6) (store works 2 two_wait (rpc_at 103 6))
store-Held_example = store-Held works 2 two_wait (rpc_at 103 6) two_wait-Within

store-repeated_example :
    let (c', h) = store works 8 two_wait (rpc_at 103 7) in
    (h ≡ nothing)
    × (0 < count 103 c'.rpc_queue)
    × (count 103 (process_all works c' ((3, 6) ∷ ((15, 8) ∷ []))) ≡ 0)
store-repeated_example =
    store-repeated works 8 two_wait (rpc_at 103 7) ((3, 6) ∷ ((15, 8) ∷ [])) two_wait-Within refl
      refl (omega arith) (omega arith)

-- The third request makes the one with the greatest index leave.
largest_leaves : (store works 2 two_wait (rpc_at 103 6)).1 ≡ handled (rpc_at 102 7 ∷ [])
unfolding store map_insert start_timer release_last
largest_leaves = refl

first_runs : (process_runable_rpcs works two_wait 1 6).1 ≡ handled (rpc_at 101 5 ∷ [])
unfolding process_runable_rpcs runable is_runable
first_runs = refl
