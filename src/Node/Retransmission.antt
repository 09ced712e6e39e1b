-- ===== src/Node/Retransmission.antt =====
-- A request of the cache of append entries that is sent again while the first one waits.
use hit_consistency.Prelude.{
  [], ◌∷◌, ◌++◌, List, refl, arith, ℕ, Bool, true, false, ◌==◌, nat_eq, if◌then◌else◌, ltb, ◌-◌,
  ◌<◌, ◌≤◌, ◌≡◌, inl, inr, length, Bool-cases, ap, subst,
}
use hit_consistency.Node.Cache.{
  AppendEntriesRpc, AppendEntriesCache, Threads, nothing, map_insert, release_last, store,
  process_runable_rpcs,
}
use hit_consistency.Node.Requests.{
  count, rpcs_of, Within, count-append, count_self, count-split, process_runable_rpcs_lem,
  false-true,
}

-- std::map::find: an RPC with the index is in the map.
abbrev pub has_index : ℕ → List AppendEntriesRpc → Bool
has_index index [] = false
has_index index (r ∷ rs) =
    let rest = has_index index rs in
    if ltb index r.prev_log_index then false else if index == r.prev_log_index then true else rest

-- All that calls of process_runable_rpcs, each with a bitmap and its last index, hand over.
unfoldable pub process_all : Threads → AppendEntriesCache → List (ℕ × ℕ) → List AppendEntriesRpc
process_all threads c [] = []
process_all threads c ((bitmap, last) ∷ calls) =
    let (c', h) = process_runable_rpcs threads c bitmap last in
    rpcs_of h ++ process_all threads c' calls

map_insert-present :
    (rpc : AppendEntriesRpc) (m : List AppendEntriesRpc)
    → has_index rpc.prev_log_index m ≡ true
    → map_insert rpc m ≡ m
unfolding map_insert
map_insert-present rpc [] h = absurd (cc)
map_insert-present rpc (r ∷ rs) h = elim (Bool-cases (ltb rpc.prev_log_index r.prev_log_index)) [
  | inl e ↦ absurd (false-true (rw (e) at h))
  | inr e ↦ elim (Bool-cases (rpc.prev_log_index == r.prev_log_index)) [
    | inl f ↦ rw (map_insert, e, f)
    | inr f ↦ rw (map_insert, e, f) (ap (λ l. r ∷ l) (map_insert-present rpc rs (rw (e, f) at h)))
  ]
]

process_all-absent :
    (threads : Threads) (a : ℕ) (calls : List (ℕ × ℕ)) (c : AppendEntriesCache)
    → Within c.rpc_map c.rpc_queue
    → count a c.rpc_map ≡ 0
    → count a (process_all threads c calls) ≡ 0
unfolding process_all
process_all-absent threads a [] c h z = refl
process_all-absent threads a ((bitmap, last) ∷ calls) c h z =
    let (c', out) = process_runable_rpcs threads c bitmap last in
    let (taken, left, conserved) = process_runable_rpcs_lem threads c bitmap last h in
    let split = count-split bitmap last a c.rpc_map in
    let rest =
      process_all-absent threads a calls c' (conserved.1)
        (omega (arith, ap (count a) left, split, z)) in
    omega (
      arith,
      count-append a (rpcs_of out) (process_all threads c' calls),
      rest,
      ap (count a) taken,
      split,
      z,
    )

-- From a cache whose map has nothing that its queue has not, a new RPC is stored whose prev_log_index an
-- RPC in the map has already, in a map of more than one RPC that is not too large. Then the new RPC is in
-- the queue, and no later calls of process_runable_rpcs, whatever their bitmaps, hand it over.
pub store-repeated :
    (threads : Threads) (max_size : ℕ) (c : AppendEntriesCache) (rpc : AppendEntriesRpc)
    (calls : List (ℕ × ℕ))
    → Within c.rpc_map c.rpc_queue
    → count rpc.address c.rpc_map ≡ 0
    → has_index rpc.prev_log_index c.rpc_map ≡ true
    → 1 < length c.rpc_map
    → length c.rpc_map ≤ max_size
    → let (c', h) = store threads max_size c rpc in
      (h ≡ nothing)
      × (0 < count rpc.address c'.rpc_queue)
      × (count rpc.address (process_all threads c' calls) ≡ 0)
unfolding store release_last
store-repeated threads max_size c rpc calls h z present many fits =
    let stored = record c { rpc_queue = c.rpc_queue ++ rpc ∷ [] } in
    let inserted = map_insert-present rpc c.rpc_map present in
    let not_one : (length c.rpc_map == 1) ≡ false = ground (arith, many) in
    let none_over : length c.rpc_map - max_size ≡ 0 = omega (arith, fits) in
    let same : (stored, nothing) ≡ store threads max_size c rpc =
      rw (store, inserted, not_one, none_over) in
    let counts = λ (a : ℕ). count-append a c.rpc_queue (rpc ∷ []) in
    subst
      (λ p.
        (p.1 ≡ nothing)
        × (0 < count rpc.address p.0.rpc_queue)
        × (count rpc.address (process_all threads p.0 calls) ≡ 0))
      same
      (
        refl,
        omega (arith, counts rpc.address, count_self rpc []),
        process_all-absent threads rpc.address calls stored (λ a. omega (arith, h a, counts a)) z,
      )
