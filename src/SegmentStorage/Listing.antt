-- ===== src/SegmentStorage/Listing.antt =====
-- The check of the closed segments in SegmentLogStorage::list_segments.
use hit_consistency.Prelude.{
  [], ◌∷◌, List, refl, arith, ℕ, true, false, none, some, ltb, nat_eq, ◌||◌, ◌+◌, ◌<◌, ◌≤◌, ◌≡◌,
  ◌≢◌, ap, ap₂, subst, ◌∙◌, sym, ◌++◌, Bool-cases, inl, inr,
}
use hit_consistency.Segment.{Segment}
use hit_consistency.SegmentStorage.Startup.{check_segments, is_misplaced, is_discarded}

-- Each segment holds an index at least, and begins after the last index of the one before it.
abbrev pub Gapless : ℕ → List Segment → Type 0
Gapless a [] = Unit {0}
Gapless a (s ∷ ss) = (s.first_index ≡ a) × (a ≤ s.last_index) × Gapless (s.last_index + 1) ss

abbrev pub GaplessAround : ℕ → List Segment → Type 0
GaplessAround index [] = Unit {0}
GaplessAround index (s ∷ ss) =
    (s.first_index ≤ index)
    × (index ≤ s.last_index)
    × (s.first_index ≤ s.last_index)
    × Gapless (s.last_index + 1) ss

abbrev pub EndBefore : ℕ → List Segment → Type 0
EndBefore index [] = Unit {0}
EndBefore index (s ∷ ss) = (s.last_index < index) × EndBefore index ss

false-true : false ≢ true
false-true h = cc

-- The segments after the first that stays.
check_segments-after :
    (first last : ℕ) (ss : List Segment)
    → (check_segments first (some last) ss).2 ≡ true
    → ((check_segments first (some last) ss).0 ≡ ss)
      × ((check_segments first (some last) ss).1 ≡ [])
      × Gapless (last + 1) ss
unfolding check_segments
check_segments-after first last [] h = (refl, refl, tt)
check_segments-after first last (s ∷ ss) h =
    let run = check_segments first (some last) (s ∷ ss) in
    let rest = check_segments first (some s.last_index) ss in
    elim (Bool-cases (ltb s.last_index s.first_index || is_misplaced first (some last) s)) [
      | inl bad ↦
          let same : run ≡ (s ∷ ss, [], false) = rw (check_segments, bad) in
          absurd (false-true (subst (λ r. r.2 ≡ true) same h))
      | inr good ↦
          let same : run ≡ (s ∷ rest.0, rest.1, rest.2) = rw (check_segments, good) in
          let (kept, dropped, gapless) =
            check_segments-after first s.last_index ss (subst (λ r. r.2 ≡ true) same h) in
          (
            ap (λ r. r.0) same ∙ ap (λ l. s ∷ l) kept,
            ap (λ r. r.1) same ∙ dropped,
            (ground (arith, good), ground (arith, good), gapless),
          )
    ]

-- If list_segments takes the closed segments, it drops the first ones, all of which end before the
-- first index of the log, and keeps the others, of which the first holds that index and each other
-- one begins right after the one before it; none of those kept is empty.
pub check_segments_lem :
    (first : ℕ) (ss : List Segment)
    → (check_segments first none ss).2 ≡ true
    → (ss ≡ (check_segments first none ss).1 ++ (check_segments first none ss).0)
      × EndBefore first (check_segments first none ss).1
      × GaplessAround first (check_segments first none ss).0
unfolding check_segments
check_segments_lem first [] h = (refl, tt, tt)
check_segments_lem first (s ∷ ss) h =
    let run = check_segments first none (s ∷ ss) in
    let after = check_segments first (some s.last_index) ss in
    let skipped = check_segments first none ss in
    elim (Bool-cases (ltb s.last_index s.first_index || is_misplaced first none s)) [
      | inl bad ↦
          let same : run ≡ (s ∷ ss, [], false) = rw (check_segments, bad) in
          absurd (false-true (subst (λ r. r.2 ≡ true) same h))
      | inr good ↦ elim (Bool-cases (is_discarded first none s)) [
        | inl old ↦
            let same : run ≡ (skipped.0, s ∷ skipped.1, skipped.2) =
              rw (check_segments, good, old) in
            let (all, before, around) =
              check_segments_lem first ss (subst (λ r. r.2 ≡ true) same h) in
            subst (λ r. (s ∷ ss ≡ r.1 ++ r.0) × EndBefore first r.1 × GaplessAround first r.0)
              (sym same) (ap (λ l. s ∷ l) all, (ground (arith, old), before), around)
        | inr new ↦
            let same : run ≡ (s ∷ after.0, after.1, after.2) = rw (check_segments, good, new) in
            let (kept, dropped, gapless) =
              check_segments-after first s.last_index ss (subst (λ r. r.2 ≡ true) same h) in
            let result : run ≡ (s ∷ ss, [], after.2) =
              same ∙ ap₂ (λ a b. (s ∷ a, b, after.2)) kept dropped in
            subst (λ r. (s ∷ ss ≡ r.1 ++ r.0) × EndBefore first r.1 × GaplessAround first r.0)
              (sym result)
              (refl, tt, (ground (arith, good), ground (arith, new), ground (arith, good), gapless))
      ]
    ]
