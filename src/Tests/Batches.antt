-- ===== src/Tests/Batches.antt =====
-- Two commits before a leader stops.
use hit_consistency.Prelude.{[], ◌∷◌, List, arith, ℕ, nat_eq, ◌≡◌, contains, ltb, ◌&&◌}
use hit_consistency.FsmCaller.{
  committed, leader_stop, do_committed, do_leader_stop, run, on_committed,
}
use hit_consistency.FsmCaller.Batches.{IsGreatest, commits, run_lem, on_committed_lem}

abbrev two_commits : List (ℕ × List ℕ)
two_commits = (4, 6 ∷ []) ∷ (5, 8 ∷ []) ∷ []

run_lem_example :
    (m n : ℕ) × IsGreatest m (4 ∷ 5 ∷ [])
    × IsGreatest n (7 ∷ [])
    × (run {S = ℕ} {L = ℕ} {E = ℕ} (commits two_commits []) ≡ do_committed m (6 ∷ 8 ∷ []) ∷ [])
    × (run {S = ℕ} {L = ℕ} {E = ℕ} (commits two_commits (leader_stop 1 ∷ []))
        ≡ do_committed m [] ∷ (do_leader_stop 1 ∷ []))
    × (run {S = ℕ} {L = ℕ} {E = ℕ}
          (commits two_commits (leader_stop 1 ∷ commits ((7, 9 ∷ []) ∷ []) []))
        ≡ do_committed m [] ∷ (do_leader_stop 1 ∷ (do_committed n (6 ∷ 8 ∷ 9 ∷ []) ∷ [])))
run_lem_example = run_lem {S = ℕ} {L = ℕ} {E = ℕ} (4, 6 ∷ []) (7, 9 ∷ []) ((5, 8 ∷ []) ∷ []) [] 1

committed_once :
    (above : List ℕ) × (on_committed {S = ℕ} {L = ℕ} {E = ℕ} 6 (5 ∷ 6 ∷ 8 ∷ []) ≡ committed 6 above)
    × ((j : ℕ) → contains above j ≡ (contains (5 ∷ 6 ∷ 8 ∷ []) j && ltb 6 j))
committed_once =
    on_committed_lem {S = ℕ} {L = ℕ} {E = ℕ} 6 (5 ∷ 6 ∷ 8 ∷ []) (omega arith, (omega arith, tt))
