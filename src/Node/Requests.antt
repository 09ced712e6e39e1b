-- ===== src/Node/Requests.antt =====
-- What leaves the cache of append entries when requests can run.
use hit_consistency.Prelude.{
  [], ◌∷◌, ◌++◌, List, refl, arith, ℕ, suc, true, false, ◌||◌, ◌==◌, nat_eq, if◌then◌else◌, ◌+◌,
  ◌<◌, ◌≤◌, ◌≡◌, ◌≢◌, inl, inr, Bool-cases, ap, subst,
}
use hit_consistency.ClosureQueue.{is_empty}
use hit_consistency.Node.Cache.{
  AppendEntriesRpc, AppendEntriesCache, Threads, Handed, nothing, handled, refused,
  remove_from_list, remove_all, hand_over, stop_timer, is_runable, runable, waiting,
  process_runable_rpcs,
}

-- How often an RPC stands in a list.
abbrev pub count : ℕ → List AppendEntriesRpc → ℕ
count a [] = 0
count a (r ∷ rs) = let rest = count a rs in if r.address == a then suc rest else rest

abbrev pub rpcs_of : Handed → List AppendEntriesRpc
rpcs_of nothing = []
rpcs_of (handled rpcs) = rpcs
rpcs_of (refused rpcs) = rpcs

-- Every RPC of a list stands in another as often.
abbrev pub Within : List AppendEntriesRpc → List AppendEntriesRpc → Type 0
Within xs ys = (a : ℕ) → count a xs ≤ count a ys

pub count-append :
    (a : ℕ) (xs ys : List AppendEntriesRpc) → count a (xs ++ ys) ≡ count a xs + count a ys
count-append a [] ys = omega arith
count-append a (x ∷ xs) ys = let rest = count-append a xs ys in ground arith

pub count-remove :
    (a : ℕ) (q : List AppendEntriesRpc) (r : AppendEntriesRpc)
    → 0 < count r.address q
    → count a (remove_from_list q r) + count a (r ∷ []) ≡ count a q
unfolding remove_from_list
count-remove a [] r h = absurd (omega (arith, h))
count-remove a (x ∷ xs) r h = elim (Bool-cases (x.address == r.address)) [
  | inl e ↦ ground arith
  | inr e ↦ let rest = count-remove a xs r (ground (arith, h, e)) in ground arith
]

pub count_self :
    (r : AppendEntriesRpc) (rs : List AppendEntriesRpc)
    → count r.address (r ∷ rs) ≡ suc (count r.address rs)
count_self r rs = ground arith

pub count-cons :
    (a : ℕ) (r : AppendEntriesRpc) (rs : List AppendEntriesRpc)
    → count a (r ∷ rs) ≡ count a (r ∷ []) + count a rs
count-cons a r rs = ground arith

count-remove_all :
    (q xs : List AppendEntriesRpc)
    → Within xs q
    → (a : ℕ) → count a (remove_all q xs) + count a xs ≡ count a q
unfolding remove_all
count-remove_all q [] h a = omega arith
count-remove_all q (r ∷ rs) h a =
    let there : 0 < count r.address q = omega (arith, h r.address, count_self r rs) in
    let rest =
      count-remove_all (remove_from_list q r) rs
        (λ b. omega (arith, h b, count-remove b q r there, count-cons b r rs)) a in
    omega (arith, rest, count-remove a q r there, count-cons a r rs)

pub count-split :
    (bitmap last a : ℕ) (m : List AppendEntriesRpc)
    → count a (runable bitmap last m) + count a (waiting bitmap last m) ≡ count a m
unfolding runable waiting
count-split bitmap last a [] = refl
count-split bitmap last a (r ∷ rs) =
    let rest = count-split bitmap last a rs in
    elim (Bool-cases (is_runable bitmap last r)) [
      | inl e ↦
          rw (runable, waiting, e)
            (omega (arith, rest, count-cons a r rs, count-cons a r (runable bitmap last rs)))
      | inr e ↦
          rw (runable, waiting, e)
            (omega (arith, rest, count-cons a r rs, count-cons a r (waiting bitmap last rs)))
    ]

pub hand_over_lem :
    (threads : Threads) (out : List AppendEntriesRpc) → rpcs_of (hand_over threads out) ≡ out
hand_over_lem threads [] = refl
hand_over_lem threads (r ∷ rs) = elim (Bool-cases threads.starts) [
  | inl e ↦ rw (e)
  | inr e ↦ rw (e)
]

pub false-true : false ≢ true
false-true h = cc

map_nil : (m q : List AppendEntriesRpc) → Within m q → (is_empty m || is_empty q) ≡ true → m ≡ []
map_nil [] q h e = refl
map_nil (r ∷ rs) [] h e = absurd (omega (arith, h r.address, count_self r rs))
map_nil (r ∷ rs) (x ∷ xs) h e = absurd (false-true e)

stop_timer-keeps :
    (threads : Threads) (c : AppendEntriesCache)
    → ((stop_timer threads c).rpc_queue ≡ c.rpc_queue)
      × ((stop_timer threads c).rpc_map ≡ c.rpc_map)
unfolding stop_timer
stop_timer-keeps threads c = elim (Bool-cases c.timer) [
  | inl e ↦ (rw (e), rw (e))
  | inr e ↦ (rw (e), rw (e))
]

-- Nothing is lost, and nothing leaves twice: the queue has what it had, with `added`, but for `out`, and
-- the map has nothing that the queue has not.
abbrev pub Conserved :
    AppendEntriesCache → List AppendEntriesRpc → AppendEntriesCache → List AppendEntriesRpc → Type 0
Conserved before added after out =
    ((a : ℕ) → count a after.rpc_queue + count a out ≡ count a before.rpc_queue + count a added)
    × Within after.rpc_map after.rpc_queue

abbrev pub Processed : AppendEntriesCache → ℕ → ℕ → AppendEntriesCache × Handed → Type 0
Processed c bitmap last (c', h) =
    (rpcs_of h ≡ runable bitmap last c.rpc_map)
    × (c'.rpc_map ≡ waiting bitmap last c.rpc_map)
    × Conserved c [] c' (rpcs_of h)

nothing-Processed :
    (c : AppendEntriesCache) (bitmap last : ℕ)
    → Within c.rpc_map c.rpc_queue
    → c.rpc_map ≡ []
    → Processed c bitmap last (c, nothing)
unfolding runable waiting
nothing-Processed c bitmap last h none_there = (rw (none_there), rw (none_there), (λ a. refl, h))

left-Processed :
    (threads : Threads) (c left : AppendEntriesCache) (bitmap last : ℕ)
    → Within c.rpc_map c.rpc_queue
    → left.rpc_queue ≡ remove_all c.rpc_queue (runable bitmap last c.rpc_map)
    → left.rpc_map ≡ waiting bitmap last c.rpc_map
    → Processed c bitmap last (left, hand_over threads (runable bitmap last c.rpc_map))
left-Processed threads c left bitmap last h queue map =
    let out = runable bitmap last c.rpc_map in
    let handed = hand_over_lem threads out in
    let fits : Within out c.rpc_queue =
      λ a. omega (arith, h a, count-split bitmap last a c.rpc_map) in
    let counts = count-remove_all c.rpc_queue out fits in
    (
      handed,
      map,
      (
        λ a. omega (arith, ap (count a) handed, ap (count a) queue, counts a),
        λ a. omega (
          arith,
          ap (count a) map,
          ap (count a) queue,
          counts a,
          h a,
          count-split bitmap last a c.rpc_map,
        ),
      ),
    )

-- From a cache whose map has nothing that its queue has not, process_runable_rpcs hands over exactly the
-- RPCs of the map whose dependencies are in the bitmap and leaves the others there, and no RPC is lost
-- or handed over twice.
pub process_runable_rpcs_lem :
    (threads : Threads) (c : AppendEntriesCache) (bitmap last_log_index : ℕ)
    → Within c.rpc_map c.rpc_queue
    → Processed c bitmap last_log_index (process_runable_rpcs threads c bitmap last_log_index)
unfolding process_runable_rpcs
process_runable_rpcs_lem threads c bitmap last h =
    let out = runable bitmap last c.rpc_map in
    let left = record c {
      rpc_queue = remove_all c.rpc_queue out;
      rpc_map = waiting bitmap last c.rpc_map;
    } in
    elim (Bool-cases (is_empty c.rpc_map || is_empty c.rpc_queue)) [
      | inl e ↦
          let same : (c, nothing) ≡ process_runable_rpcs threads c bitmap last = rw (e) in
          subst (Processed c bitmap last) same
            (nothing-Processed c bitmap last h (map_nil c.rpc_map c.rpc_queue h e))
      | inr e ↦ elim (Bool-cases (is_empty (waiting bitmap last c.rpc_map))) [
        | inl done ↦
            let same : (stop_timer threads left, hand_over threads out)
                ≡ process_runable_rpcs threads c bitmap last =
              rw (e, done) in
            let (queue, map) = stop_timer-keeps threads left in
            subst (Processed c bitmap last) same
              (left-Processed threads c (stop_timer threads left) bitmap last h queue map)
        | inr more ↦
            let same : (left, hand_over threads out) ≡ process_runable_rpcs threads c bitmap last =
              rw (e, more) in
            subst (Processed c bitmap last) same
              (left-Processed threads c left bitmap last h refl refl)
      ]
    ]
