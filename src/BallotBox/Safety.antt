-- ===== src/BallotBox/Safety.antt =====
-- What cpp/ballot_box.cc promises: commits rest on majorities, the last committed index never falls
-- on a follower, and what clear_pending_tasks leaves behind.
use hit_consistency.Ballot.{init}
use hit_consistency.BallotBox.Refinement.{Refines, commit_at-Refines}
use hit_consistency.BallotBox.Commit.{AllValid}
use hit_consistency.BallotBox.{
  BallotBox, set_last_committed_index, append_pending_task, clear_pending_tasks, Reply,
  reset_pending_index, commit_at, drop_below,
}
use hit_consistency.Prelude.{
  ◌≢◌, Ascending, length_nil, last?, length-append, ℕ, zero, suc, ◌-◌, ◌≤◌, ◌<◌, ◌≡◌, ◌⊎◌, subst,
  true, Option, none, some, List, [], ◌∷◌, get_elem?, Eq, ◌==◌, nat_eq, contains, arith, Bool-cases,
  inl, inr, length, ◌↔◌, ap, ◌+◌, false, sym, ◌∙◌,
}
use hit_consistency.Ballot.Tally.{votes}
use hit_consistency.BallotBox.Tasks.{
  Task, TaskQueue, update, leading, behind, elected_by, elected, vote, fresh, vote_all, newly,
  commit,
}

-- The indexes that a call reports as committed.
abbrev pub reported : Option (ℕ × List ℕ) → List ℕ
reported none = []
reported (some (last, oo)) = oo

module _ {P : Type 0} ⦃e : Eq P⦄ where
  votes_mono : (p : P) (vs conf : List P) → votes vs conf ≤ votes (p ∷ vs) conf
  votes_mono p vs [] = omega arith
  votes_mono p vs (c ∷ conf) = ground (arith, votes_mono p vs conf)

  elected_by_mono :
      (p : P) (vs conf : List P) (old : Option (List P))
      → elected_by vs conf old ≡ true
      → elected_by (p ∷ vs) conf old ≡ true
  elected_by_mono p vs conf none h = ground (arith, votes_mono p vs conf)
  elected_by_mono p vs conf (some old) h = ground (arith, votes_mono p vs conf, votes_mono p vs old)

  -- The task at an offset has a majority.
  abbrev pub ElectedAt : List (Task P) → ℕ → Type 0
  ElectedAt [] k = ⊥
  ElectedAt (t ∷ ts) zero = elected t ≡ true
  ElectedAt (t ∷ ts) (suc k) = ElectedAt ts k

  update-ElectedAt :
      (p : P) (ts : List (Task P)) (j k : ℕ) → ElectedAt ts k → ElectedAt (update ts j (vote p)) k
  unfolding vote
  update-ElectedAt p [] j k h = h
  update-ElectedAt p (t ∷ ts) zero zero h = elected_by_mono p t.voters t.conf t.old_conf h
  update-ElectedAt p (t ∷ ts) zero (suc k) h = h
  update-ElectedAt p (t ∷ ts) (suc j) zero h = h
  update-ElectedAt p (t ∷ ts) (suc j) (suc k) h = update-ElectedAt p ts j k h

  vote_all-ElectedAt :
      (p : P) (first : ℕ) (is : List ℕ) (ts : List (Task P)) (k : ℕ)
      → ElectedAt ts k
      → ElectedAt (vote_all p first is ts) k
  unfolding vote_all
  vote_all-ElectedAt p first [] ts k h = h
  vote_all-ElectedAt p first (i ∷ is) ts k h =
      vote_all-ElectedAt p first is (update ts (i - first) (vote p)) k
        (update-ElectedAt p ts (i - first) k h)

  fresh-ElectedAt :
      (p : P) (ts : List (Task P)) (k : ℕ)
      → fresh p (get_elem? ts k) ≡ true
      → ElectedAt (update ts k (vote p)) k
  unfolding vote
  fresh-ElectedAt p [] k h = absurd (cc)
  fresh-ElectedAt p (t ∷ ts) zero h = ground arith
  fresh-ElectedAt p (t ∷ ts) (suc k) h = fresh-ElectedAt p ts k h

  pub newly-ElectedAt :
      (p : P) (first : ℕ) (is : List ℕ) (ts : List (Task P)) (i : ℕ)
      → contains (newly p first is ts) i ≡ true
      → ElectedAt (vote_all p first is ts) (i - first)
  unfolding newly vote_all
  newly-ElectedAt p first [] ts i h = absurd (cc)
  newly-ElectedAt p first (j ∷ js) ts i h =
      let ts' = update ts (j - first) (vote p) in
      elim (Bool-cases (fresh p (get_elem? ts (j - first)))) [
        | inr old ↦ newly-ElectedAt p first js ts' i (rw old at h)
        | inl new ↦ elim (Bool-cases (j == i)) [
          | inl same ↦
              subst (λ (k : ℕ). ElectedAt (vote_all p first js ts') (k - first))
                ((nat_eq.beq_iff j i).0 same)
                (vote_all-ElectedAt p first js ts' (j - first)
                  (fresh-ElectedAt p ts (j - first) new))
          | inr other ↦ newly-ElectedAt p first js ts' i (rw (new, other) at h)
        ]
      ]

  -- A committed task has a majority.
  abbrev pub Justified : List (Task P) → Type 0
  Justified [] = Unit {0}
  Justified (t ∷ ts) = (t.committed ≡ true → elected t ≡ true) × Justified ts

  update-Justified :
      (p : P) (ts : List (Task P)) (k : ℕ) → Justified ts → Justified (update ts k (vote p))
  unfolding vote
  update-Justified p [] k h = h
  update-Justified p (t ∷ ts) zero h = (
    (λ c. elim (Bool-cases t.committed) [
      | inl old ↦ elected_by_mono p t.voters t.conf t.old_conf (h.0 old)
      | inr new ↦ rw new at c
    ]),
    h.1,
  )
  update-Justified p (t ∷ ts) (suc k) h = (h.0, update-Justified p ts k h.1)

  vote_all-Justified :
      (p : P) (first : ℕ) (is : List ℕ) (ts : List (Task P))
      → Justified ts
      → Justified (vote_all p first is ts)
  unfolding vote_all
  vote_all-Justified p first [] ts h = h
  vote_all-Justified p first (i ∷ is) ts h =
      vote_all-Justified p first is (update ts (i - first) (vote p))
        (update-Justified p ts (i - first) h)

  behind-Justified : (ts : List (Task P)) → Justified ts → Justified (behind ts)
  behind-Justified [] h = h
  behind-Justified (t ∷ ts) h = ground (arith, behind-Justified ts h.1)

  leading-ElectedAt : (ts : List (Task P)) (k : ℕ) → Justified ts → k < leading ts → ElectedAt ts k
  leading-ElectedAt [] k h b = absurd (omega arith)
  leading-ElectedAt (t ∷ ts) zero h b = ground arith
  leading-ElectedAt (t ∷ ts) (suc k) h b = ground (arith, leading-ElectedAt ts k h.1)

  commit-ElectedAt :
      (p : P) (is : List ℕ) (q : TaskQueue P) (i : ℕ)
      → Justified q.tasks
      → (contains (reported (commit p is q).1) i ≡ true)
        ⊎ ((q.first ≤ i) × (i < (commit p is q).0.first))
      → ElectedAt (vote_all p q.first is q.tasks) (i - q.first)
  unfolding commit
  commit-ElectedAt p is q i j h =
      let ts = vote_all p q.first is q.tasks in
      ground (
        arith,
        newly-ElectedAt p q.first is q.tasks i,
        leading-ElectedAt ts (i - q.first) (vote_all-Justified p q.first is q.tasks j),
      )

transfer :
    (i first n m : ℕ) (is bs : List ℕ)
    → is ≡ bs
    → n ≡ m
    → (contains is i ≡ true) ⊎ ((first ≤ i) × (i < n))
    → (contains bs i ≡ true) ⊎ ((first ≤ i) × (i < m))
transfer i first n m is bs same equal h = ground (arith, ap (λ l. contains l i) same)

-- In a leader's box whose committed tasks all have a majority, every index that commit_at reports
-- as committed, and every index that it moves the pending index past, is that of a task whose
-- voters, this peer's votes of the call included, are more than half of its configuration, and in
-- a joint change also of the old one. The call is as for the refinement of the queue of tasks.
pub commit_at-majority :
    {P C : Type 0} ⦃e : Eq P⦄ (p : P) (box : BallotBox P C) (q : TaskQueue P) (is : List ℕ)
    (back i : ℕ) (r : Reply P C)
    → AllValid q.tasks
    → Refines box q
    → 0 < q.first
    → Ascending is
    → last? is ≡ some back
    → q.first ≤ back
    → back < q.first + length q.tasks
    → Justified q.tasks
    → commit_at box is p ≡ some r
    → (contains (reported r.committed) i ≡ true) ⊎ ((q.first ≤ i) × (i < r.box.pending_index))
    → ElectedAt (vote_all p q.first (drop_below q.first is) q.tasks) (i - q.first)
commit_at-majority p box q is back i r v R pos a l lo hi j er h =
    let (r', e', c, R', call, cq) = commit_at-Refines p box q is back v R pos a l lo hi in
    let same : r' ≡ r = cc in
    commit-ElectedAt p (drop_below q.first is) q i j (
      transfer i q.first _ _ _ _ (ap (λ x. reported x.committed) (sym same) ∙ ap reported call)
        (ap (λ x. x.box.pending_index) (sym same) ∙ R'.first_of) h)

module _ {P C : Type 0} where
  -- On a follower the last committed index never falls. The call either leaves the box as it was
  -- and reports nothing, or raises the index to the one that it is given and reports that index
  -- with the out-of-order ones; this happens exactly if no term as leader is pending, no task is
  -- waiting and the given index is greater.
  pub set_last_committed_index_lem :
      (box : BallotBox P C) (last : ℕ) (oo : List ℕ)
      → let r = set_last_committed_index box last oo in
        (box.last_committed_index ≤ r.box.last_committed_index)
        × (((r.box ≡ box)
              × (r.committed ≡ none)
              × ((box.pending_index ≢ 0)
                  ⊎ (box.pending_meta_queue ≢ [])
                  ⊎ (last ≤ box.last_committed_index)))
            ⊎ ((r.box ≡ record box { last_committed_index = last })
                × (r.committed ≡ some (last, oo))
                × (box.pending_index ≡ 0)
                × (box.pending_meta_queue ≡ [])
                × (box.last_committed_index < last)))
  unfolding set_last_committed_index
  set_last_committed_index_lem box last oo = ground arith

  abbrev pub append_tasks :
      BallotBox P C → List P → Option (List P) → List (Option C) → BallotBox P C
  append_tasks box conf old [] = box
  append_tasks box conf old (c ∷ cs) = append_tasks (append_pending_task box conf old c) conf old cs

  append_tasks_lem :
      (box : BallotBox P C) (conf : List P) (old : Option (List P)) (cs : List (Option C))
      → let b = append_tasks box conf old cs in
        (length b.pending_meta_queue ≡ length box.pending_meta_queue + length cs)
        × (length b.committed_index_queue ≡ length box.committed_index_queue + length cs)
  unfolding append_pending_task
  append_tasks_lem box conf old [] = (omega arith, omega arith)
  append_tasks_lem box conf old (c ∷ cs) =
      let (a, b) = append_tasks_lem (append_pending_task box conf old c) conf old cs in
      (
        omega (arith, a, length-append box.pending_meta_queue (init conf old ∷ [])),
        omega (arith, b, length-append box.committed_index_queue (false ∷ [])),
      )

  -- After a leader steps down, is elected again and appends tasks, the flags match the ballots in
  -- number exactly if no flag was left when the pending tasks were cleared.
  pub clear_pending_tasks-stale :
      (box : BallotBox P C) (index : ℕ) (conf : List P) (old : Option (List P))
      (cs : List (Option C))
      → let b = append_tasks (reset_pending_index (clear_pending_tasks box).0 index) conf old cs in
        (length b.committed_index_queue ≡ length b.pending_meta_queue)
        ↔ (box.committed_index_queue ≡ [])
  unfolding clear_pending_tasks reset_pending_index
  clear_pending_tasks-stale box index conf old cs =
      let (a, b) =
        append_tasks_lem (reset_pending_index (clear_pending_tasks box).0 index) conf old cs in
      ((λ h. length_nil box.committed_index_queue (omega arith)), λ h. omega (arith, ap length h))
