-- ===== src/FsmCaller/Actions.antt =====
-- What the state machine's actions do to the iterator.
use hit_consistency.Prelude.{
  [], ◌∷◌, List, refl, arith, ℕ, true, false, Option, none, some, nat_eq, ◌<◌, ◌≤◌, ◌≡◌, ◌⊎◌, inl,
  inr, length, get_elem?, get_elem?-lt, ap, subst, ◌∙◌, Bool-cases,
}
use hit_consistency.ClosureQueue.{is_empty}
use hit_consistency.LogEntry.{LogEntry}
use hit_consistency.FsmCaller.Iterator.{
  IteratorImpl, Event, Action, run_done, advance, set_error_and_rollback, is_good, is_data_type,
  valid, emit, run_some, run_done_closure, next, next_valid, act, act_all, after,
}
use hit_consistency.FsmCaller.Visits.{todo, At, Ended, Advanced, next-Advanced}

module _ {C P D : Type 0} (get_entry : ℕ → Option (LogEntry P D)) where
  -- Actions that take the closure of an entry only while the iterator is at a data entry, and set no
  -- error.
  abbrev pub Careful : List Action → IteratorImpl C P D → Type 0
  Careful [] t = Unit {0}
  Careful (run_done ∷ rest) t =
      (valid t ≡ true) × ((u : IteratorImpl C P D) → run_done_closure t ≡ some u → Careful rest u)
  Careful (advance ∷ rest) t = Careful rest (next_valid get_entry t)
  Careful (set_error_and_rollback ntail ∷ rest) t = ⊥

module _ {C P D : Type 0} (get_entry : ℕ → Option (LogEntry P D)) (all : List ℕ) where
  -- As Advanced, or still at the entry `c`.
  abbrev pub Within : ℕ → Option (LogEntry P D) → IteratorImpl C P D → Type 0
  Within n c u =
      Ended all u
      ⊎ (At get_entry all u × ((length (todo u) < n) ⊎ ((u.cur_entry ≡ c) × (length (todo u) ≤ n))))

  pub emit-At :
      (t : IteratorImpl C P D) (e : Event C P) → At get_entry all t → At get_entry all (emit t e)
  emit-At t e at = record {
    place = at.place;
    at_place = at.at_place;
    entry = at.entry;
    has_entry = at.has_entry;
    has_peers = at.has_peers;
    no_error = at.no_error;
    in_list = at.in_list;
    trace = at.trace;
    present = at.present;
    paired = at.paired;
  }

  closure_there :
      (t : IteratorImpl C P D) (at : At get_entry all t)
      → is_empty t.closure ≡ false
      → at.place < length t.closure
  closure_there t at full = elim (at.paired) [
    | inl empty ↦ absurd (cc)
    | inr same ↦ omega (arith, same, at.in_list)
  ]

  takes :
      (t : IteratorImpl C P D) (k : ℕ) (c : Option C)
      → is_empty t.closure ≡ false
      → t.it ≡ some k
      → get_elem? t.closure k ≡ some c
      → run_done_closure t ≡ some (run_some t c)
  unfolding run_done_closure
  takes t k c full hk found = simp (full, hk, found)

  ran :
      (t : IteratorImpl C P D) (at : At get_entry all t) (c : Option C)
      → run_done_closure t ≡ some (run_some t c)
      → (u : IteratorImpl C P D) × (run_done_closure t ≡ some u)
        × At get_entry all u
        × (todo u ≡ todo t)
        × (u.cur_entry ≡ t.cur_entry)
  ran t at none h = (t, h, at, refl, refl)
  ran t at (some c) h = (run_some t (some c), h, emit-At t _ at, refl, refl)

  -- The closure is there, and running it does not move the iterator.
  pub run_done-At :
      (t : IteratorImpl C P D)
      → At get_entry all t
      → (u : IteratorImpl C P D) × (run_done_closure t ≡ some u)
        × At get_entry all u
        × (todo u ≡ todo t)
        × (u.cur_entry ≡ t.cur_entry)
  unfolding run_done_closure
  run_done-At t at = elim (Bool-cases (is_empty t.closure)) [
    | inl empty ↦ (t, rw (empty), at, refl, refl)
    | inr full ↦
        let inside = closure_there t at full in
        let (c, found) = get_elem?-lt t.closure at.place inside in
        ran t at c (takes t at.place c full at.at_place found)
  ]

  pub next-At :
      (t : IteratorImpl C P D)
      → At get_entry all t
      → Advanced get_entry all (length (todo t)) (next get_entry t)
  next-At t at =
      next-Advanced get_entry all t (omega (arith, at.in_list, ap after at.at_place)) at.no_error
        at.trace at.present at.paired (length (todo t)) (omega arith)

  pub is_good-Ended : (t : IteratorImpl C P D) → Ended all t → is_good t ≡ false
  is_good-Ended t ended = rw (ended.at_end)

  pub is_good-At : (t : IteratorImpl C P D) → At get_entry all t → is_good t ≡ true
  is_good-At t at = rw (at.at_place, at.no_error)

  abbrev pub Left : ℕ → Option (LogEntry P D) → IteratorImpl C P D → Type 0
  Left n c t = (length (todo t) < n) ⊎ ((t.cur_entry ≡ c) × (length (todo t) ≤ n))

  at_most_n :
      (n : ℕ) (c : Option (LogEntry P D)) (t : IteratorImpl C P D)
      → Left n c t
      → length (todo t) ≤ n
  at_most_n n c t (inl h) = omega (arith, h)
  at_most_n n c t (inr (e, h)) = h

  kept :
      (n : ℕ) (c : Option (LogEntry P D)) (t u : IteratorImpl C P D)
      → todo u ≡ todo t
      → u.cur_entry ≡ t.cur_entry
      → Left n c t
      → Left n c u
  kept n c t u same cur (inl h) = inl (omega (arith, h, ap length same))
  kept n c t u same cur (inr (e, h)) = inr (cur ∙ e, omega (arith, h, ap length same))

  pub fewer :
      (n m : ℕ) (u : IteratorImpl C P D)
      → m ≤ n
      → Advanced get_entry all m u
      → Advanced get_entry all n u
  fewer n m u h (inl ended) = inl ended
  fewer n m u h (inr (at, left)) = inr (at, omega (arith, h, left))

  weaken :
      (n : ℕ) (c : Option (LogEntry P D)) (m : ℕ) (u : IteratorImpl C P D)
      → m ≤ n
      → Advanced get_entry all m u
      → Within n c u
  weaken n c m u h (inl ended) = inl ended
  weaken n c m u h (inr (at, left)) = inr (at, inl (omega (arith, h, left)))

  next_valid-Within :
      (n : ℕ) (c : Option (LogEntry P D)) (t : IteratorImpl C P D)
      → Within n c t
      → Within n c (next_valid get_entry t)
  next_valid-Within n c t (inl ended) =
      let same : t ≡ next_valid get_entry t = rw (ended.at_end) in
      inl (subst (Ended all) same ended)
  next_valid-Within n c t (inr (at, left)) = elim (Bool-cases (valid t)) [
    | inl e ↦
        let same : next get_entry t ≡ next_valid get_entry t = rw (e) in
        subst (Within n c) same
          (weaken n c (length (todo t)) (next get_entry t) (at_most_n n c t left) (next-At t at))
    | inr e ↦
        let same : t ≡ next_valid get_entry t = rw (e) in subst (Within n c) same (inr (at, left))
  ]

  -- From a data entry, a step of the iterator is always made in the end.
  pub last_next :
      (n : ℕ) (e : LogEntry P D) (t : IteratorImpl C P D)
      → is_data_type e.type ≡ true
      → Within n (some e) t
      → Advanced get_entry all n (next_valid get_entry t)
  last_next n e t h (inl ended) =
      let same : t ≡ next_valid get_entry t = rw (ended.at_end) in
      inl (subst (Ended all) same ended)
  last_next n e t h (inr (at, inr (here, left))) =
      let is_valid : valid t ≡ true = rw (at.at_place, at.no_error, here, h) in
      let same : next get_entry t ≡ next_valid get_entry t = rw (is_valid) in
      subst (Advanced get_entry all n) same
        (fewer n (length (todo t)) (next get_entry t) left (next-At t at))
  last_next n e t h (inr (at, inl left)) = elim (Bool-cases (valid t)) [
    | inl e ↦
        let same : next get_entry t ≡ next_valid get_entry t = rw (e) in
        subst (Advanced get_entry all n) same
          (fewer n (length (todo t)) (next get_entry t) (omega (arith, left)) (next-At t at))
    | inr e ↦
        let same : t ≡ next_valid get_entry t = rw (e) in
        subst (Advanced get_entry all n) same (inr (at, left))
  ]

  pub act_all-Within :
      (n : ℕ) (c : Option (LogEntry P D)) (actions : List Action) (t : IteratorImpl C P D)
      → Careful get_entry actions t
      → Within n c t
      → (u : IteratorImpl C P D) × (act_all get_entry actions t ≡ some u) × Within n c u
  unfolding act_all act
  act_all-Within n c [] t careful w = (t, refl, w)
  act_all-Within n c (set_error_and_rollback ntail ∷ rest) t careful w = absurd (careful)
  act_all-Within n c (advance ∷ rest) t careful w =
      act_all-Within n c rest (next_valid get_entry t) careful (next_valid-Within n c t w)
  act_all-Within n c (run_done ∷ rest) t (is_valid, careful) (inl ended) =
      let at_no_entry : valid t ≡ false = rw (ended.at_end) in absurd (cc)
  act_all-Within n c (run_done ∷ rest) t (is_valid, careful) (inr (at, left)) =
      let (u, h, at', same, cur) = run_done-At t at in
      let (v, more, w) =
        act_all-Within n c rest u (careful u h) (inr (at', kept n c t u same cur left)) in
      (v, rw (act_all, act, h) more, w)
