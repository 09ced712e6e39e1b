-- ===== src/BallotBox/Refinement.antt =====
-- commit_at of cpp/ballot_box.cc as a whole refines the queue of tasks.
use hit_consistency.Prelude.{
  last?, ltb, leb, ◌==◌, length-map, ℕ, ◌+◌, ◌-◌, ◌≤◌, ◌<◌, ◌≡◌, refl, ap, false, Option, none,
  some, List, [], ◌∷◌, map, length, ltb, Eq, nat_eq, arith, Bool-cases, inl, inr, Ascending,
  InRange, InRange-mono, Ascending-InRange, ◌∙◌,
}
use hit_consistency.Ballot.{no_hint}
use hit_consistency.BallotBox.{
  Granting, BallotBox, drop_below, commit_at, front_is, Reply, done, settle, grant_loop,
}
use hit_consistency.ClosureQueue.{is_empty}
use hit_consistency.BallotBox.Tasks.{
  vote_all, behind, TaskQueue, newly, leading, commit, front_voted,
}
use hit_consistency.BallotBox.Commit.{
  AllValid, ballot_of, committed_of, Follows, grant_loop_lem, pop_committed_lem,
}

module _ {P : Type 0} ⦃e : Eq P⦄ where
  -- The box holds the tasks of the queue, their ballots and the flags of the committed ones.
  pub record Refines {C : Type 0} (box : BallotBox P C) (q : TaskQueue P) : Type 0 where
    pub metas_of : box.pending_meta_queue ≡ map ballot_of q.tasks
    pub flags_of : box.committed_index_queue ≡ map committed_of q.tasks
    pub first_of : box.pending_index ≡ q.first
    pub last_of : box.last_committed_index ≡ q.last

drop_below-InRange :
    (lo hi : ℕ) (is : List ℕ) {back : ℕ}
    → Ascending is
    → last? is ≡ some back
    → lo ≤ back
    → back < hi
    → InRange lo hi (drop_below lo is)
unfolding drop_below
drop_below-InRange lo hi [] a l b h = tt
drop_below-InRange lo hi (i ∷ []) {back} a l b h = let e : i ≡ back = cc in ground arith
drop_below-InRange lo hi (i ∷ (j ∷ is)) {back} a l b h = elim (Bool-cases (ltb i lo)) [
  | inl y ↦ rw y (drop_below-InRange lo hi (j ∷ is) {back = back} a.1 l b h)
  | inr n ↦ rw n (
      InRange-mono i lo hi (i ∷ (j ∷ is)) (ground arith)
        (Ascending-InRange i (j ∷ is) {back = back} {hi = hi} a l h))
]

-- A call that succeeds, and what the abstract queue gives.
abbrev pub Settled :
    {P C : Type 0} ⦃e : Eq P⦄
    → BallotBox P C
    → Option (Reply P C)
    → TaskQueue P × Option (ℕ × List ℕ)
    → Type 0
Settled {P} {C} box o (q', call) =
    (r : Reply P C) × (o ≡ some r)
    × (r.code ≡ done)
    × Refines r.box q'
    × (r.committed ≡ call)
    × (r.box.closure_queue ≡ box.closure_queue)

module _ {P C : Type 0} ⦃e : Eq P⦄ (p : P) (box : BallotBox P C) (q : TaskQueue P)
    (is : List ℕ) where
  front_lem : (i : ℕ) (js : List ℕ) → front_is i js ≡ front_voted i js
  front_lem i [] = refl
  front_lem i (j ∷ js) = refl

  settle_lem :
      (g : Granting P)
      → Refines box q
      → Follows g (vote_all p q.first is q.tasks)
      → g.oo ≡ newly p q.first is q.tasks
      → Settled box (settle box is (some g)) (commit p is q)
  unfolding commit
  settle_lem g R F o =
      let ts = vote_all p q.first is q.tasks in
      let oo = newly p q.first is q.tasks in
      elim (Bool-cases (is_empty oo)) [
        | inl none_new ↦
            rw (o, none_new)
              (
                record {
                  code = done;
                  box = record box {
                    pending_meta_queue = g.metas;
                    committed_index_queue = g.flags;
                  };
                  committed = none;
                },
                refl,
                refl,
                record {
                  metas_of = F.metas_of;
                  flags_of = F.flags_of;
                  first_of = R.first_of;
                  last_of = R.last_of;
                },
                refl,
                refl,
              )
        | inr some_new ↦ elim (Bool-cases (front_voted q.first is)) [
          | inl at_front ↦
              rw
                (
                  o,
                  some_new,
                  front_lem box.pending_index is,
                  R.first_of,
                  at_front,
                  F.metas_of,
                  F.flags_of,
                  pop_committed_lem ts,
                )
                (
                  record {
                    code = done;
                    box = record box {
                      last_committed_index = q.first + leading ts - 1;
                      pending_index = q.first + leading ts;
                      pending_meta_queue = map ballot_of (behind ts);
                      committed_index_queue = map committed_of (behind ts);
                    };
                    committed = some (q.first + leading ts - 1, oo);
                  },
                  refl,
                  refl,
                  record { metas_of = refl; flags_of = refl; first_of = refl; last_of = refl },
                  refl,
                  refl,
                )
          | inr later ↦
              rw (o, some_new, front_lem box.pending_index is, R.first_of, later)
                (
                  record {
                    code = done;
                    box = record box {
                      pending_index = q.first;
                      pending_meta_queue = g.metas;
                      committed_index_queue = g.flags;
                    };
                    committed = some (box.last_committed_index, oo);
                  },
                  refl,
                  refl,
                  record {
                    metas_of = F.metas_of;
                    flags_of = F.flags_of;
                    first_of = refl;
                    last_of = R.last_of;
                  },
                  ap (λ l. some (l, oo)) R.last_of,
                  refl,
                )
        ]
      ]

abbrev grant_start : {P C : Type 0} → BallotBox P C → Granting P
grant_start box = record {
  metas = box.pending_meta_queue;
  flags = box.committed_index_queue;
  hint = no_hint;
  oo = [];
}

-- The leader's box holds ballots of tasks, and their committed flags. A call of commit_at by a
-- leader, with indexes that do not fall of which the last is one of the waiting tasks, then
-- succeeds, reads nothing out of range, and does what the abstract queue does: it adds the vote
-- of the peer to the tasks at the given indexes, less those at the front below the pending index,
-- commits those tasks that now have a majority of their configurations, and reports the indexes
-- newly committed, with the last committed index, if there are any; if moreover the first of these
-- votes was for the pending index, the committed front leaves the queue, the pending index moves
-- past it, and the last committed index becomes the one before it. The closure queue is left
-- alone. No peer stands twice in a task's configuration.
pub commit_at-Refines :
    {P C : Type 0} ⦃e : Eq P⦄ (p : P) (box : BallotBox P C) (q : TaskQueue P) (is : List ℕ)
    (back : ℕ)
    → AllValid q.tasks
    → Refines box q
    → 0 < q.first
    → Ascending is
    → last? is ≡ some back
    → q.first ≤ back
    → back < q.first + length q.tasks
    → Settled box (commit_at box is p) (commit p (drop_below q.first is) q)
unfolding commit_at
commit_at-Refines p box q is back v R pos a l lo hi =
    let js = drop_below q.first is in
    let (g, eg, F, o) =
      grant_loop_lem p q.first js (grant_start box) q.tasks v
        (record { metas_of = R.metas_of; flags_of = R.flags_of })
        (drop_below-InRange q.first (q.first + length q.tasks) is {back = back} a l lo hi) in
    let same : drop_below box.pending_index is ≡ js = ap (λ k. drop_below k is) R.first_of in
    let loop : grant_loop p box.pending_index js (grant_start box) ≡ some g =
      ap (λ k. grant_loop p k js (grant_start box)) R.first_of ∙ eg in
    let n0 : (box.pending_index == 0) ≡ false = ground arith in
    let n1 : ltb back box.pending_index ≡ false = ground arith in
    let n2 : leb (box.pending_index + length box.pending_meta_queue) back ≡ false =
      rw (R.metas_of, length-map ballot_of q.tasks) (ground arith) in
    rw (n0, l, commit_at) (rw (n1, n2, same, loop) (settle_lem p box q js g R F o))
