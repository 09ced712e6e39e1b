-- ===== src/ClosureQueue/Clear.antt =====
-- The appends of cpp/closure_queue.cc, and what its clear leaves behind.
use hit_consistency.Prelude.{
  ℕ, zero, suc, ◌+◌, ◌-◌, ◌≡◌, refl, ap, ◌↔◌, Bool, true, false, Option, List, [], ◌∷◌, ◌++◌,
  length, length-append, arith, length_nil,
}
use hit_consistency.ClosureQueue.{ClosureQueue, clear, reset_first_index, append_pending_closure}
use hit_consistency.ClosureQueue.Loop.{flag}
use hit_consistency.ClosureQueue.Pop.{delivered, WellFormed}

flag_append : (bs cs : List Bool) (i : ℕ) → flag bs i ≡ true → flag (bs ++ cs) i ≡ true
flag_append [] cs i h = cc
flag_append (b ∷ bs) cs zero h = h
flag_append (b ∷ bs) cs (suc i) h = flag_append bs cs i h

module _ {C : Type 0} where
  -- The tasks of a leader's term, in order.
  abbrev pub append_all : ClosureQueue C → List (Option C) → ClosureQueue C
  append_all q [] = q
  append_all q (c ∷ cs) = append_all (append_pending_closure q c) cs

  -- The queue after a leader steps down, is elected again, and appends `cs` from `first_index`.
  abbrev pub next_term : ClosureQueue C → ℕ → List (Option C) → ClosureQueue C
  next_term q first_index cs = append_all (reset_first_index (clear q).0 first_index) cs

  append_all_lem :
      (q : ClosureQueue C) (cs : List (Option C))
      → (length (append_all q cs).queue ≡ length q.queue + length cs)
        × (length (append_all q cs).has_committed_queue ≡ length q.has_committed_queue + length cs)
        × ((append_all q cs).first_index ≡ q.first_index)
        × ((i : ℕ)
            → flag q.has_committed_queue i ≡ true
            → flag (append_all q cs).has_committed_queue i ≡ true)
  unfolding append_pending_closure
  append_all_lem q [] = (omega arith, omega arith, refl, λ i h. h)
  append_all_lem q (c ∷ cs) =
      let (a, b, e, f) = append_all_lem (append_pending_closure q c) cs in
      (
        omega (arith, a, length-append q.queue (c ∷ [])),
        omega (arith, b, length-append q.has_committed_queue (false ∷ [])),
        e,
        λ i h. f i (flag_append q.has_committed_queue (false ∷ []) i h),
      )

  -- The queue that a new term fills is well formed exactly if no flag was left when the old term
  -- was cleared; and where a flag that was left is set, the closure of the new term at that place
  -- counts as delivered from the start.
  pub clear-stale :
      (q : ClosureQueue C) (first_index : ℕ) (cs : List (Option C))
      → (WellFormed (next_term q first_index cs) ↔ (q.has_committed_queue ≡ []))
        × ((i : ℕ)
            → flag q.has_committed_queue i ≡ true
            → delivered (next_term q first_index cs) (first_index + i) ≡ true)
  unfolding clear reset_first_index
  clear-stale q first_index cs =
      let (a, b, e, f) = append_all_lem (reset_first_index (clear q).0 first_index) cs in
      (
        (λ w. length_nil q.has_committed_queue (omega arith), λ w. omega (arith, ap length w)),
        λ i h.
            let same : first_index + i - first_index ≡ i = omega arith in
            rw (e, same, f i h) (ground arith),
      )
