-- ===== src/Tests/Queues.antt =====
-- A closure queue with one closure delivered out of order.
use hit_consistency.ClosureQueue.Loop.{flag}
use hit_consistency.Prelude.{
  [], ◌∷◌, refl, arith, ℕ, true, false, none, some, nat_eq, ◌≡◌, ◌↔◌, ◌+◌,
}
use hit_consistency.ClosureQueue.{ClosureQueue, Popped, pop_closure_until}
use hit_consistency.ClosureQueue.Pop.{Delivers, pop_closure_until-Delivers, WellFormed, delivered}
use hit_consistency.ClosureQueue.Clear.{clear-stale, next_term}

abbrev waiting : ClosureQueue ℕ
waiting = record {
  queue = some 10 ∷ none ∷ some 12 ∷ some 13 ∷ [];
  has_committed_queue = false ∷ false ∷ true ∷ false ∷ [];
  first_index = 5;
}

pop_closure_until-Delivers_example :
    (r : Popped ℕ) × (pop_closure_until waiting 5 (7 ∷ 8 ∷ []) [] ≡ some r)
    × Delivers waiting 5 (7 ∷ 8 ∷ []) r
pop_closure_until-Delivers_example =
    pop_closure_until-Delivers waiting 5 (7 ∷ 8 ∷ []) refl refl (omega arith) (omega arith)

clear-stale_example :
    (WellFormed (next_term waiting 9 (some 20 ∷ [])) ↔ (waiting.has_committed_queue ≡ []))
    × ((i : ℕ)
        → flag waiting.has_committed_queue i ≡ true
        → delivered (next_term waiting 9 (some 20 ∷ [])) (9 + i) ≡ true)
clear-stale_example = clear-stale waiting 9 (some 20 ∷ [])
