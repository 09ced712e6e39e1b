-- ===== src/ClosureQueue.antt =====
-- cpp/closure_queue.h and cpp/closure_queue.cc: the closures of the tasks of a leader, in log order.
-- `C` is the type of closures; a null pointer is `none`. A call that reads or pops out of range,
-- where the C++ is undefined, gives `none`.
pub mod Loop
pub mod Pop
pub mod Clear
use hit_consistency.Prelude.{
  ℕ, zero, suc, ◌+◌, ◌-◌, Bool, true, false, ◌&&◌, ◌||◌, Option, none, some, List, [], ◌∷◌, ◌++◌,
  length, get_elem?, set, last?, ltb, leb, if◌then◌else◌,
}

pub record ClosureQueue (C : Type 0) : Type 0 where
  pub queue : List (Option C)
  pub has_committed_queue : List Bool
  pub first_index : ℕ

-- What `pop_closure_until` returns: its code, the queue, and `out` and `out_indexes`.
pub record Popped (C : Type 0) : Type 0 where
  pub failed : Bool  -- the code -1
  pub rest : ClosureQueue C
  pub out : List (Option C)
  pub out_indexes : List ℕ

-- The state of the loop over the requested indexes.
pub record Visit (C : Type 0) : Type 0 where
  pub flags : List Bool
  pub taken : List (Option C)
  pub indexes : List ℕ

abbrev pub is_empty {ℓ} : {A : Type ℓ} → List A → Bool
is_empty [] = true
is_empty (x ∷ xs) = false

-- The closures that `clear` runs with EPERM: those that are no null pointer.
abbrev pub non_null : {C : Type 0} → List (Option C) → List C
non_null [] = []
non_null (none ∷ cs) = non_null cs
non_null (some c ∷ cs) = c ∷ non_null cs

-- A test of the last of some indexes, false if there is none.
abbrev pub last_is : (ℕ → Bool) → List ℕ → Bool
last_is test is = elim (last? is) [ none ↦ false | some i ↦ test i ]

module _ {C : Type 0} where
  unfoldable pub new : ClosureQueue C
  new = record { queue = []; has_committed_queue = []; first_index = 0 }

  -- The queue after `clear`, and the closures that it fails. The flags are left as they are.
  unfoldable pub clear : ClosureQueue C → ClosureQueue C × List C
  clear q = (record q { queue = []; first_index = 0 }, non_null q.queue)

  unfoldable pub reset_first_index : ClosureQueue C → ℕ → ClosureQueue C
  reset_first_index q first_index = record q { first_index = first_index }

  unfoldable pub append_pending_closure : ClosureQueue C → Option C → ClosureQueue C
  append_pending_closure q c = record q {
    queue = q.queue ++ c ∷ [];
    has_committed_queue = q.has_committed_queue ++ false ∷ [];
  }

  -- The end of the loop's body, at `queue_index`.
  abbrev take_closure : ℕ → Visit C → ℕ → Option Bool → Option (Option C) → Option (Visit C)
  take_closure first v i none c = none
  take_closure first v i (some true) c = some v
  take_closure first v i (some false) none = none
  take_closure first v i (some false) (some c) = some (record {
    flags = set v.flags i true;
    taken = v.taken ++ c ∷ [];
    indexes = v.indexes ++ (i + first) ∷ [];
  })

  unfoldable pub visit : List (Option C) → ℕ → Visit C → ℕ → Option (Visit C)
  visit queue first v i = take_closure first v i (get_elem? v.flags i) (get_elem? queue i)

  -- The loop: `n` rounds in which `ite <= to_index`, from the offset `ite - _first_index`, then one
  -- for each out-of-order index that is left.
  unfoldable pub pop_loop : List (Option C) → ℕ → ℕ → ℕ → List ℕ → Visit C → Option (Visit C)
  unfolding visit
  pop_loop queue first zero at [] v = some v
  pop_loop queue first zero at (i ∷ oo) v =
      elim (if ltb i first then none else visit queue first v (i - first)) [
        | none ↦ none
        | some v' ↦ pop_loop queue first zero at oo v'
      ]
  pop_loop queue first (suc n) at oo v = elim (visit queue first v at) [
    | none ↦ none
    | some v' ↦ pop_loop queue first n (at + 1) oo v'
  ]

  -- The loop that drops the committed front.
  unfoldable pub trim : List (Option C) → List Bool → ℕ → Option (ClosureQueue C)
  trim queue [] first =
      some (record { queue = queue; has_committed_queue = []; first_index = first })
  trim queue (false ∷ flags) first =
      some (record { queue = queue; has_committed_queue = false ∷ flags; first_index = first })
  trim [] (true ∷ flags) first = none
  trim (c ∷ queue) (true ∷ flags) first = trim queue flags (first + 1)

  abbrev finish : Option (Visit C) → ClosureQueue C → Option (Popped C)
  finish none q = none
  finish (some v) q = elim (trim q.queue v.flags q.first_index) [
    | none ↦ none
    | some q' ↦ some (record { failed = false; rest = q'; out = v.taken; out_indexes = v.indexes })
  ]

  -- `out` is cleared first; `out_indexes` is what the caller's deque holds.
  unfoldable pub pop_closure_until : ClosureQueue C → ℕ → List ℕ → List ℕ → Option (Popped C)
  unfolding pop_loop trim
  pop_closure_until q to_index oo out_indexes =
      if is_empty q.queue || last_is (λ i. ltb i q.first_index) oo
      then some (record { failed = false; rest = q; out = []; out_indexes = oo })
      else if last_is (λ i. leb (q.first_index + length q.queue) i) oo
      then some (record { failed = true; rest = q; out = []; out_indexes = out_indexes })
      else finish
          (pop_loop q.queue q.first_index (to_index + 1 - q.first_index) 0 oo
            (record { flags = q.has_committed_queue; taken = []; indexes = out_indexes }))
          q
