-- ===== src/Node/Storing.antt =====
-- Storing a request in the cache of append entries, which can make others leave.
use hit_consistency.Prelude.{
  [], ◌∷◌, ◌++◌, List, refl, arith, ℕ, zero, suc, some, ◌==◌, nat_eq, ◌+◌, ◌-◌, ◌<◌, ◌≤◌, ◌≡◌, inl,
  inr, length, last?, Bool-cases, Option-cases, ap, subst,
}
use hit_consistency.Node.Cache.{
  AppendEntriesRpc, AppendEntriesCache, Threads, Handed, remove_from_list, map_insert, drop_last,
  start_to_handle, start_timer, clear_cache, release_last, trim_cache, store,
}
use hit_consistency.Node.Requests.{
  count, rpcs_of, Within, Conserved, count-append, count-remove, count_self, count-cons,
  hand_over_lem,
}

count-map_insert :
    (a : ℕ) (rpc : AppendEntriesRpc) (m : List AppendEntriesRpc)
    → count a (map_insert rpc m) ≤ count a m + count a (rpc ∷ [])
unfolding map_insert
count-map_insert a rpc [] = omega arith
count-map_insert a rpc (r ∷ rs) = let rest = count-map_insert a rpc rs in ground arith

count-last :
    (a : ℕ) (m : List AppendEntriesRpc) (rpc : AppendEntriesRpc)
    → last? m ≡ some rpc
    → count a (drop_last m) + count a (rpc ∷ []) ≡ count a m
count-last a [] rpc h = absurd (cc)
count-last a (r ∷ []) rpc h =
    let same : r ≡ rpc = cc in omega (arith, ap (λ x. count a (x ∷ [])) same)
count-last a (r ∷ (q ∷ rs)) rpc h =
    let rest = count-last a (q ∷ rs) rpc h in
    omega (arith, rest, count-cons a r (q ∷ rs), count-cons a r (drop_last (q ∷ rs)))

abbrev Released :
    AppendEntriesCache → List AppendEntriesRpc → AppendEntriesCache × List AppendEntriesRpc → Type 0
Released c out (c', out') = Conserved c out c' out'

release_last-Released :
    (n : ℕ) (c : AppendEntriesCache) (out : List AppendEntriesRpc)
    → Within c.rpc_map c.rpc_queue
    → Released c out (release_last n c out)
unfolding release_last
release_last-Released zero c out h = (λ a. refl, h)
release_last-Released (suc n) c out h = elim (Option-cases (last? c.rpc_map)) [
  | inl none_left ↦
      let same : (c, out) ≡ release_last (suc n) c out = rw (release_last, none_left) in
      subst (Released c out) same (λ a. refl, h)
  | inr found ↦
      let (rpc, is_last) = found in
      let c1 = record c {
        rpc_queue = remove_from_list c.rpc_queue rpc;
        rpc_map = drop_last c.rpc_map;
      } in
      let out1 = out ++ rpc ∷ [] in
      let same : release_last n c1 out1 ≡ release_last (suc n) c out = rw (release_last, is_last) in
      let parts = λ (a : ℕ). count-last a c.rpc_map rpc is_last in
      let one = count_self rpc [] in
      let there : 0 < count rpc.address c.rpc_queue =
        omega (arith, h rpc.address, parts rpc.address, one) in
      let removed = λ (a : ℕ). count-remove a c.rpc_queue rpc there in
      let (counts, fits) =
        release_last-Released n c1 out1 (λ a. omega (arith, h a, parts a, removed a)) in
      subst (Released c out) same
        (λ a. omega (arith, counts a, removed a, count-append a out (rpc ∷ [])), fits)
]

-- What `store` gives: the queue has the new RPC as well, but for those that left.
abbrev pub Held : AppendEntriesCache → AppendEntriesRpc → AppendEntriesCache × Handed → Type 0
Held c rpc (c', h) = Conserved c (rpc ∷ []) c' (rpcs_of h)

trim-Held :
    (threads : Threads) (max_size : ℕ) (c : AppendEntriesCache) (rpc : AppendEntriesRpc)
    (before : AppendEntriesCache)
    → ((a : ℕ) → count a c.rpc_queue ≡ count a before.rpc_queue + count a (rpc ∷ []))
    → Within c.rpc_map c.rpc_queue
    → Held before rpc (trim_cache threads max_size c)
trim-Held threads max_size c rpc before added h =
    let (counts, fits) = release_last-Released (length c.rpc_map - max_size) c [] h in
    let handed = hand_over_lem threads (release_last (length c.rpc_map - max_size) c []).1 in
    (λ a. omega (arith, counts a, added a, ap (count a) handed), fits)

start_to_handle_lem :
    (threads : Threads) (out : List AppendEntriesRpc) → rpcs_of (start_to_handle threads out) ≡ out
start_to_handle_lem threads out = elim (Bool-cases threads.starts) [
  | inl e ↦ rw (e)
  | inr e ↦ rw (e)
]

-- From a cache whose map has nothing that its queue has not, `store` loses no RPC and hands none over
-- twice: the queue and the RPCs that leave are those of the queue before and the new one. The map still
-- has nothing that the queue has not.
pub store-Held :
    (threads : Threads) (max_size : ℕ) (c : AppendEntriesCache) (rpc : AppendEntriesRpc)
    → Within c.rpc_map c.rpc_queue
    → Held c rpc (store threads max_size c rpc)
unfolding store start_timer clear_cache
store-Held threads max_size c rpc h =
    let map = map_insert rpc c.rpc_map in
    let added = record c { rpc_queue = c.rpc_queue ++ rpc ∷ []; rpc_map = map } in
    let timed = (start_timer threads added).0 in
    let counts = λ (a : ℕ). count-append a c.rpc_queue (rpc ∷ []) in
    let fits : Within map (c.rpc_queue ++ rpc ∷ []) =
      λ a. omega (arith, counts a, h a, count-map_insert a rpc c.rpc_map) in
    elim (Bool-cases (length map == 1)) [
      | inr e ↦
          let same : trim_cache threads max_size added ≡ store threads max_size c rpc =
            rw (store, e) in
          subst (Held c rpc) same (trim-Held threads max_size added rpc c counts fits)
      | inl e ↦ elim (Bool-cases threads.timer_adds) [
        | inl ok ↦
            let same : trim_cache threads max_size timed ≡ store threads max_size c rpc =
              rw (store, e, start_timer, ok) in
            subst (Held c rpc) same (trim-Held threads max_size timed rpc c counts fits)
        | inr bad ↦
            let same : clear_cache threads timed ≡ store threads max_size c rpc =
              rw (store, e, start_timer, bad) in
            let handed = start_to_handle_lem threads timed.rpc_queue in
            subst (Held c rpc) same
              (λ a. omega (arith, counts a, ap (count a) handed), λ a. omega arith)
      ]
    ]
