-- ===== src/FsmCaller/Batches.antt =====
-- What FSMCaller::run and on_committed of cpp/fsm_caller.cc make of the commits that come in.
use hit_consistency.Prelude.{
  append-nil, append_assoc, [], ◌∷◌, List, refl, arith, ℕ, false, ◌&&◌, Option, none, some, ◌≡◌,
  ◌≤◌, ◌<◌, ltb, ◌++◌, ap, sym, ◌∙◌, contains, nat_eq, true, Bool-cases, inl, inr, Ascending,
  Ascending-tail,
}
use hit_consistency.FsmCaller.{
  ApplyTask, committed, leader_stop, do_leader_stop, do_committed, on_committed, drop_committed,
  greater_of, run_from, run, flush,
}

-- The index that the loop of `run` keeps after some commits.
abbrev greatest : Option ℕ → List (ℕ × List ℕ) → Option ℕ
greatest max [] = max
greatest max ((i, js) ∷ cs) = greatest (some (greater_of max i)) cs

-- The committed indexes of some commits, and all their out-of-order indexes.
abbrev pub committed_indexes : List (ℕ × List ℕ) → List ℕ
committed_indexes [] = []
committed_indexes ((i, js) ∷ cs) = i ∷ committed_indexes cs

abbrev pub gathered : List (ℕ × List ℕ) → List ℕ
gathered [] = []
gathered ((i, js) ∷ cs) = js ++ gathered cs

-- One of the numbers, and none is greater.
abbrev pub IsGreatest : ℕ → List ℕ → Type 0
IsGreatest max is = (contains is max ≡ true) × ((i : ℕ) → contains is i ≡ true → i ≤ max)

greatest-IsGreatest :
    (j : ℕ) (cs : List (ℕ × List ℕ))
    → (max : ℕ) × (greatest (some j) cs ≡ some max) × IsGreatest max (j ∷ committed_indexes cs)
greatest-IsGreatest j [] = (j, refl, (ground arith, λ i h. ground (arith, h)))
greatest-IsGreatest j ((i, js) ∷ cs) =
    let (max, same, top) = greatest-IsGreatest (greater_of (some j) i) cs in
    elim (Bool-cases (ltb j i)) [
      | inl e ↦
          (max, same, (ground (arith, e, top.0), λ k h. ground (arith, e, h, top.1 i, top.1 k)))
      | inr e ↦
          (max, same, (ground (arith, e, top.0), λ k h. ground (arith, e, h, top.1 j, top.1 k)))
    ]

module _ {S L E : Type 0} where
  abbrev pub commits : List (ℕ × List ℕ) → List (ApplyTask S L E) → List (ApplyTask S L E)
  commits [] ts = ts
  commits ((i, js) ∷ cs) ts = committed i js ∷ commits cs ts

  run_from-commits :
      (max : Option ℕ) (oo : List ℕ) (cs : List (ℕ × List ℕ)) (ts : List (ApplyTask S L E))
      → run_from max oo (commits cs ts) ≡ run_from (greatest max cs) (oo ++ gathered cs) ts
  unfolding run_from
  run_from-commits max oo [] ts = ap (λ l. run_from max l ts) (sym (append-nil oo))
  run_from-commits max oo ((i, js) ∷ cs) ts =
      run_from-commits (some (greater_of max i)) (oo ++ js) cs ts
      ∙ ap (λ l. run_from (greatest (some (greater_of max i)) cs) l ts)
          (append_assoc oo js (gathered cs))

  -- A round of commits makes one call of do_committed, with the greatest of the committed indexes and
  -- all the out-of-order indexes in their order. Before the stop of a leader the call has none of these
  -- indexes: if nothing else is in the queue, they reach no call, and commits that follow the stop make
  -- a call with the greatest of their own committed indexes, and with the out-of-order indexes of both.
  pub run_lem :
      (c d : ℕ × List ℕ) (cs ds : List (ℕ × List ℕ)) (status : S)
      → (m n : ℕ) × IsGreatest m (committed_indexes (c ∷ cs))
        × IsGreatest n (committed_indexes (d ∷ ds))
        × (run {S = S} {L = L} {E = E} (commits (c ∷ cs) [])
            ≡ do_committed m (gathered (c ∷ cs)) ∷ [])
        × (run {S = S} {L = L} {E = E} (commits (c ∷ cs) (leader_stop status ∷ []))
            ≡ do_committed m [] ∷ (do_leader_stop status ∷ []))
        × (run {S = S} {L = L} {E = E} (commits (c ∷ cs) (leader_stop status ∷ commits (d ∷ ds) []))
            ≡ do_committed m []
              ∷ (do_leader_stop status
                  ∷ (do_committed n (gathered (c ∷ cs) ++ gathered (d ∷ ds)) ∷ [])))
  unfolding run run_from
  run_lem (i, js) (k, ks) cs ds status =
      let (m, top, m_greatest) = greatest-IsGreatest i cs in
      let (n, last, n_greatest) = greatest-IsGreatest k ds in
      let oo = js ++ gathered cs in
      let later = run_from-commits none oo ((k, ks) ∷ ds) [] in
      (
        m,
        n,
        m_greatest,
        n_greatest,
        run_from-commits none [] ((i, js) ∷ cs) [] ∙ ap (λ o. flush o (js ++ gathered cs)) top,
        run_from-commits none [] ((i, js) ∷ cs) (leader_stop status ∷ [])
            ∙ ap (λ o. flush o [] ++ (do_leader_stop status ∷ [])) top,
        run_from-commits none [] ((i, js) ∷ cs) (leader_stop status ∷ commits ((k, ks) ∷ ds) [])
            ∙ ap
                (λ o.
                  flush o []
                  ++ (do_leader_stop status ∷ run_from none oo (commits ((k, ks) ∷ ds) [])))
                top
            ∙ ap (λ calls. do_committed m [] ∷ (do_leader_stop status ∷ calls))
                (later ∙ ap (λ o. flush o (oo ++ gathered ((k, ks) ∷ ds))) last),
      )

low-absent :
    (index i j : ℕ) (is : List ℕ)
    → index < i
    → Ascending (i ∷ is)
    → j ≤ index
    → contains (i ∷ is) j ≡ false
low-absent index i j [] h a low = ground arith
low-absent index i j (k ∷ ks) h a low =
    ground (arith, low-absent index k j ks (omega (arith, h, a.0)) a.1 low)

drop_committed_lem :
    (index j : ℕ) (oo : List ℕ)
    → Ascending oo
    → contains (drop_committed index oo) j ≡ (contains oo j && ltb index j)
unfolding drop_committed
drop_committed_lem index j [] a = refl
drop_committed_lem index j (i ∷ is) a =
    ground (arith, drop_committed_lem index j is (Ascending-tail i is a), low-absent index i j is)

-- From out-of-order indexes that do not fall, on_committed makes a task that has exactly those above
-- the committed index.
pub on_committed_lem :
    {S L E : Type 0} (index : ℕ) (oo : List ℕ)
    → Ascending oo
    → (above : List ℕ) × (on_committed {S = S} {L = L} {E = E} index oo ≡ committed index above)
      × ((j : ℕ) → contains above j ≡ (contains oo j && ltb index j))
unfolding on_committed
on_committed_lem index oo a = (drop_committed index oo, refl, λ j. drop_committed_lem index j oo a)
