-- ===== src/FsmCaller/Loop.antt =====
-- The loop of do_committed over the iterator: it ends, and which entries it visits, how often.
use hit_consistency.Prelude.{
  count, count-append, leb, ltb, ◌&&◌, Bool, stopped, [], ◌++◌, List, refl, arith, ℕ, zero, suc,
  true, false, Option, none, some, nat_eq, if◌then◌else◌, ◌+◌, ◌-◌, ◌<◌, ◌≡◌, ◌⊎◌, inl, inr, length,
  ap, ◌∙◌, Bool-cases, Option-cases, ◌≢◌,
}
use hit_consistency.ClosureQueue.{is_empty}
use hit_consistency.LogEntry.{LogEntry, EntryType, unknown, no_op, data_entry, configuration, o3}
use hit_consistency.FsmCaller.Iterator.{
  IterError, IteratorImpl, on_apply, configuration_committed, Action, is_some, is_data_type, valid,
  emit, next, next_valid, start,
}
use hit_consistency.FsmCaller.Applying.{
  apply_loop, apply_round, round_at, apply_data, apply_other, configured,
}
use hit_consistency.FsmCaller.Visits.{
  HasPeers, Present, todo, At, Ended, Advanced, next-Advanced, count_from,
}
use hit_consistency.FsmCaller.Actions.{
  Careful, emit-At, run_done-At, next-At, is_good-Ended, is_good-At, fewer, last_next,
  act_all-Within,
}

false-true : false ≢ true
false-true h = cc

peers_there :
    {P D : Type 0} (e : LogEntry P D)
    → e.type ≡ configuration
    → HasPeers e
    → (ps : List P) × (e.peers ≡ some ps)
peers_there e h peers =
    let has : is_some e.peers ≡ true = rw (h) at peers in
    elim (Option-cases e.peers) [
      | inl missing ↦ absurd (false-true (rw (missing) at has))
      | inr there ↦ there
    ]

module _ {C P D : Type 0} (get_entry : ℕ → Option (LogEntry P D)) (get_term : ℕ → ℕ) (all : List ℕ)
    {E : Type 0} (to_error : IterError → E) (apply : IteratorImpl C P D → List Action)
    (careful : (t : IteratorImpl C P D)
      → valid t ≡ true
      → Careful get_entry (apply t) (emit t (on_apply t.actural_index))) where
  configured-At :
      (t : IteratorImpl C P D) (e : LogEntry P D) (type : EntryType)
      → At get_entry all t
      → HasPeers e
      → e.type ≡ type
      → (u : IteratorImpl C P D) × (configured get_entry get_term to_error apply t e ≡ some u)
        × At get_entry all u
        × (todo u ≡ todo t)
  configured-At t e configuration at peers h = elim (Bool-cases (is_some e.old_peers)) [
    | inl joint ↦ (t, rw (h, joint), at, refl)
    | inr stable ↦
        let (ps, there) = peers_there e h peers in
        (
          emit t (configuration_committed ps e.id.index),
          rw (h, stable, there),
          emit-At get_entry all t _ at,
          refl,
        )
  ]
  configured-At t e unknown at peers h = (t, rw (h), at, refl)
  configured-At t e no_op at peers h = (t, rw (h), at, refl)
  configured-At t e data_entry at peers h = (t, rw (h), at, refl)
  configured-At t e o3 at peers h = (t, rw (h), at, refl)

  other-Advanced :
      (t : IteratorImpl C P D) (e : LogEntry P D)
      → At get_entry all t
      → HasPeers e
      → (u : IteratorImpl C P D) × (apply_other get_entry get_term to_error apply t e ≡ some u)
        × Advanced get_entry all (length (todo t)) u
  other-Advanced t e at peers =
      let (v, h, at_v, same_v) = configured-At t e e.type at peers refl in
      let (w, k, at_w, same_w, cur) = run_done-At get_entry all v at_v in
      (
        next get_entry w,
        rw (apply_other, h, k),
        fewer get_entry all (length (todo t)) (length (todo w)) (next get_entry w)
            (omega (arith, ap length same_v, ap length same_w)) (next-At get_entry all w at_w),
      )

  data-Advanced :
      (t : IteratorImpl C P D) (at : At get_entry all t)
      → is_data_type at.entry.type ≡ true
      → (u : IteratorImpl C P D) × (apply_data get_entry get_term to_error apply t ≡ some u)
        × Advanced get_entry all (length (todo t)) u
  data-Advanced t at is_data_entry =
      let is_valid : valid t ≡ true = rw (at.at_place, at.no_error, at.has_entry, is_data_entry) in
      let t' = emit t (on_apply t.actural_index) in
      let (u, h, w) =
        act_all-Within get_entry all (length (todo t)) (some at.entry) (apply t) t'
          (careful t is_valid)
          (inr (emit-At get_entry all t _ at, inr (at.has_entry, omega arith))) in
      (
        next_valid get_entry u,
        rw (apply_data, h),
        last_next get_entry all (length (todo t)) at.entry u is_data_entry w,
      )

  round-Advanced :
      (t : IteratorImpl C P D)
      → At get_entry all t
      → (u : IteratorImpl C P D) × (apply_round get_entry get_term to_error apply t ≡ some u)
        × Advanced get_entry all (length (todo t)) u
  unfolding apply_round
  round-Advanced t at =
      let here = ap (round_at get_entry get_term to_error apply t) at.has_entry in
      elim (Bool-cases (is_data_type at.entry.type)) [
        | inl h ↦
            let (u, run, moved) = data-Advanced t at h in (u, here ∙ rw (round_at, h) run, moved)
        | inr h ↦
            let (u, run, moved) = other-Advanced t at.entry at at.has_peers in
            (u, here ∙ rw (round_at, h) run, moved)
      ]

  loop-Ended :
      (fuel n : ℕ) (t : IteratorImpl C P D)
      → n < fuel
      → Advanced get_entry all n t
      → (u : IteratorImpl C P D) × (apply_loop get_entry get_term to_error apply fuel t ≡ stopped u)
        × Ended all u
  unfolding apply_loop
  loop-Ended zero n t h moved = absurd (omega (arith, h))
  loop-Ended (suc fuel) n t h (inl ended) =
      let stops = is_good-Ended get_entry all t ended in (t, rw (apply_loop, stops), ended)
  loop-Ended (suc fuel) n t h (inr (at, left)) =
      let good = is_good-At get_entry all t at in
      let (u, round, moved) = round-Advanced t at in
      let (v, rest, ended) = loop-Ended fuel (length (todo t)) u (omega (arith, h, left)) moved in
      (v, rw (apply_loop, good, round) rest, ended)

-- The indexes that an iterator goes through: those it is given and, without closures, the sequential
-- ones after the last applied index.
abbrev pub visits : {C : Type 0} → List (Option C) → ℕ → ℕ → List ℕ → List ℕ
visits closure last_applied_index committed_index indexes =
    indexes
    ++ (if is_empty closure
        then count_from (last_applied_index + 1) (committed_index - last_applied_index)
        else [])

-- Whether an iterator adds the index: it does so without closures, for those after the last applied
-- index, up to the committed one.
abbrev pub is_sequential : {C : Type 0} → List (Option C) → ℕ → ℕ → ℕ → Bool
is_sequential closure last_applied_index committed_index i =
    is_empty closure && (ltb last_applied_index i && leb i committed_index)

count-count_from :
    (i s n : ℕ) → count i (count_from s n) ≡ (if leb s i && ltb i (s + n) then 1 else 0)
count-count_from i s zero = ground arith
count-count_from i s (suc n) = ground (arith, count-count_from i (s + 1) n)

count-visits :
    {C : Type 0} (closure : List (Option C)) (last_applied_index committed_index : ℕ)
    (indexes : List ℕ) (i : ℕ)
    → count i (visits closure last_applied_index committed_index indexes)
      ≡ count i indexes
        + (if is_sequential closure last_applied_index committed_index i then 1 else 0)
count-visits closure last committed indexes i = elim (Bool-cases (is_empty closure)) [
  | inl none_given ↦ rw (none_given) (
      ground (
        arith,
        count-append i indexes (count_from (last + 1) (committed - last)),
        count-count_from i (last + 1) (committed - last),
      ))
  | inr given ↦ rw (given) (ground (arith, count-append i indexes []))
]

-- The state machine takes a closure only while the iterator is at a data entry and sets no error,
-- the entries of all indexes can be had, configurations with their peers, and there are no closures
-- or one for each index. Then, on fuel above the number of indexes it goes through, the loop of
-- do_committed ends without an error, at the end of the iterator. _applying_index has been the
-- given indexes in their order and then, without closures, the sequential ones after the last
-- applied index, up to the committed one. So it has been each index as often as it is given, and
-- once more if it is such a sequential one: an out-of-order index that is sequential too is applied
-- twice.
pub apply_loop-visits :
    {C P D E : Type 0} (get_entry : ℕ → Option (LogEntry P D)) (get_term : ℕ → ℕ)
    (to_error : IterError → E) (apply : IteratorImpl C P D → List Action)
    → ((t : IteratorImpl C P D)
        → valid t ≡ true
        → Careful get_entry (apply t) (emit t (on_apply t.actural_index)))
    → (closure : List (Option C)) (last_applied_index committed_index : ℕ) (indexes : List ℕ)
      (fuel : ℕ)
    → Present get_entry (visits closure last_applied_index committed_index indexes)
    → (is_empty closure ≡ true) ⊎ (length closure ≡ length indexes)
    → length (visits closure last_applied_index committed_index indexes) < fuel
    → (t : IteratorImpl C P D) × (apply_loop get_entry get_term to_error apply fuel
          (start get_entry closure last_applied_index committed_index indexes)
        ≡ stopped t)
      × (t.it ≡ none)
      × (t.iter_error ≡ none)
      × (t.applying ≡ visits closure last_applied_index committed_index indexes)
      × ((i : ℕ)
          → count i t.applying
            ≡ count i indexes
              + (if is_sequential closure last_applied_index committed_index i then 1 else 0))
unfolding start
apply_loop-visits {C} {P} {D} get_entry get_term to_error apply careful closure last committed
      indexes fuel present paired enough =
    let all = visits closure last committed indexes in
    let before : IteratorImpl C P D = record {
      closure = closure;
      it = none;
      actural_index = 0;
      committed_index = committed;
      last_applied_index = last;
      cur_entry = none;
      iter_error = none;
      index_list = indexes;
      applying = [];
      events = [];
    } in
    let moved =
      next-Advanced get_entry all before (omega arith) refl refl present paired (length all)
        (omega arith) in
    let (t, stops, ended) =
      loop-Ended get_entry get_term all to_error apply careful fuel (length all)
        (next get_entry before) enough moved in
    (
      t,
      stops,
      ended.at_end,
      ended.without_error,
      ended.visited,
      λ i. ap (count i) ended.visited ∙ count-visits closure last committed indexes i,
    )
