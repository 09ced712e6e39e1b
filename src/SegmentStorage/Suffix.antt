-- ===== src/SegmentStorage/Suffix.antt =====
-- truncate_suffix of a sound SegmentLogStorage leaves it sound.
use hit_consistency.Prelude.{
  [], ◌∷◌, List, refl, arith, ℕ, true, Option, none, some, leb, nat_eq, ◌+◌, ◌<◌, ◌≤◌, ◌≡◌, inl,
  inr, ap, subst, ◌∙◌, sym, ◌++◌, Bool-cases, map,
}
use hit_consistency.EntryHeader.{RawPack}
use hit_consistency.Segment.{Segment}
use hit_consistency.SegmentStorage.{
  SegmentStorage, in_map, in_open, put_segment, erase_segment, erase_segments, file_name,
}
use hit_consistency.SegmentStorage.Shrinking.{
  erase_popped, pop_back, pop_from_back, last_cut, cut_last, suffix_cut, truncate_suffix,
}
use hit_consistency.SegmentStorage.Chain.{
  Healthy, Chain, Fronted, Chain-put_end, erase_segment-past,
}
use hit_consistency.SegmentStorage.Lookup.{IsSound, OpenAt}
use hit_consistency.SegmentStorage.Opening.{with_open, Fronted-put}
use hit_consistency.SegmentStorage.Cuts.{same_ranges}
use hit_consistency.SegmentStorage.Popping.{left_by, pop_back-Left}
use hit_consistency.SegmentStorage.Cutting.{
  truncate-Healthy, put_segment-last, erase_segment-last, erase_popped-snoc, Fronted-init,
  no_segment,
}

-- A result, which is sound.
abbrev pub SoundDone {ℓ} : {A : Type ℓ} → Option (SegmentStorage × A) → Type 0
SoundDone none = ⊥
SoundDone (some r) = IsSound r.0

pub SoundDone-some :
    {A : Type 0} (o : Option (SegmentStorage × A))
    → SoundDone o
    → (r : SegmentStorage × A) × (o ≡ some r) × IsSound r.0
SoundDone-some none h = absurd h
SoundDone-some (some r) h = (r, refl, h)

-- The log is empty, after its last index.
emptied-IsSound :
    (st : SegmentStorage) (kept : ℕ) (left : List Segment)
    → left ≡ []
    → st.first_log_index ≡ kept + 1
    → st.last_log_index ≡ kept
    → st.creates ≡ true
    → IsSound (record st { segments = left; open_segment = none })
emptied-IsSound st kept left empty first last creates = record {
  front = kept + 1;
  back = kept + 1;
  chain = subst (λ l. Chain (kept + 1) l (kept + 1)) (sym empty) refl;
  opens = omega (arith, last);
  fronted = subst (Fronted st.first_log_index) (sym empty) tt;
  front_le = omega (arith, first);
  first_le = omega (arith, first, last);
  can_create = creates;
}

reopened :
    (st : SegmentStorage) (s : Segment)
    → st.open_segment ≡ some s
    → IsSound st
    → IsSound (with_open st s)
reopened st s e h = record {
  front = h.front;
  back = h.back;
  chain = h.chain;
  opens = subst (OpenAt st.first_log_index h.back st.last_log_index) e h.opens;
  fronted = h.fronted;
  front_le = h.front_le;
  first_le = h.first_le;
  can_create = h.can_create;
}

module _ (raw : RawPack) where
  -- The open segment is cut.
  open_cut :
      (st : SegmentStorage) (s : Segment) (kept : ℕ) (h : IsSound (with_open st s))
      → s.first_index ≤ kept
      → kept ≤ st.last_log_index
      → st.first_log_index ≤ kept + 1
      → SoundDone (cut_last raw kept (record st { last_log_index = kept }) [] (in_open s) s)
  open_cut st s kept h below above low = elim (Bool-cases (leb st.first_log_index kept)) [
    | inl e ↦
        let (s', result, first, last, healthy, pending) =
          truncate-Healthy raw s kept h.opens.6 below (omega (arith, h.opens.2, above)) in
        rw (e) (
          subst
            (λ r. SoundDone (last_cut raw (record st { last_log_index = kept }) [] (in_open s) r))
            (sym result)
            (record {
              front = h.front;
              back = h.back;
              chain = h.chain;
              opens = (
                first ∙ h.opens.0,
                omega (arith, h.opens.0, below),
                last,
                λ u. omega (arith, h.opens.0, below),
                λ u. ground (arith, e),
                pending ∙ h.opens.5,
                healthy,
              );
              fronted = h.fronted;
              front_le = h.front_le;
              first_le = low;
              can_create = h.can_create;
            }))
    | inr e ↦
        let past =
          erase_segment-past h.front st.segments h.back s.first_index h.chain
            (omega (arith, h.opens.0)) in
        let none_left =
          no_segment st.first_log_index h.front st.segments h.back h.chain h.fronted
            (ground (arith, e, h.opens.0, below)) in
        rw (e) (
          same_ranges
            (record st {
              last_log_index = kept;
              segments = erase_segment s.first_index st.segments;
              open_segment = none;
            })
            st.meta (st.unlinked ++ map file_name (s ∷ []))
            (emptied-IsSound (record st { last_log_index = kept }) kept
              (erase_segment s.first_index st.segments) (past ∙ none_left) (ground (arith, e, low))
              refl h.can_create))
  ]

  -- The last closed segment that is left is cut.
  closed_cut :
      (st : SegmentStorage) (kept a : ℕ) (popped xs : List Segment) (s : Segment)
      → Chain a xs s.first_index
      → s.first_index ≤ kept
      → kept ≤ s.last_index
      → Healthy s
      → Fronted st.first_log_index (xs ++ s ∷ [])
      → a ≤ st.first_log_index
      → st.first_log_index ≤ kept + 1
      → st.last_log_index ≡ kept
      → st.open_segment ≡ none
      → st.creates ≡ true
      → SoundDone (cut_last raw kept (record st { segments = xs ++ s ∷ [] }) popped (in_map s) s)
  closed_cut st kept a popped xs s c first above healthy fronted low high last no_open creates =
      elim (Bool-cases (leb st.first_log_index st.last_log_index)) [
        | inl e ↦
            let (s', result, same, cut, healthy', pending) =
              truncate-Healthy raw s kept healthy first above in
            let st' : SegmentStorage = record st { segments = xs ++ s ∷ [] } in
            let ends : s'.last_index + 1 ≡ kept + 1 = omega (arith, cut) in
            rw (e) (
              subst (λ r. SoundDone (last_cut raw st' popped (in_map s) r)) (sym result)
                (record {
                  front = a;
                  back = kept + 1;
                  chain =
                      subst (λ l. Chain a l (kept + 1)) (sym (put_segment-last a xs s s' c same))
                        (subst (Chain a (put_segment s' xs)) ends (
                          Chain-put_end a xs s.first_index s' c same (omega (arith, cut, first))
                            healthy'));
                  opens =
                      subst (OpenAt st.first_log_index (kept + 1) st.last_log_index) (sym no_open)
                        (omega (arith, last));
                  fronted =
                      subst (Fronted st.first_log_index) (sym (put_segment-last a xs s s' c same)) (
                        Fronted-put st.first_log_index xs s'
                          (Fronted-init st.first_log_index xs s fronted)
                          (ground (arith, e, cut, last)));
                  front_le = low;
                  first_le = omega (arith, high, last);
                  can_create = creates;
                }))
        | inr e ↦
            let gone = erase_segment-last a xs s c in
            let none_left =
              no_segment st.first_log_index a xs s.first_index c
                (Fronted-init st.first_log_index xs s fronted) (ground (arith, e, last, first)) in
            rw (e) (
              same_ranges
                (record st {
                  segments = erase_segment s.first_index (xs ++ s ∷ []);
                  open_segment = none;
                })
                st.meta (st.unlinked ++ map file_name (popped ++ s ∷ []))
                (emptied-IsSound st kept (erase_segment s.first_index (xs ++ s ∷ []))
                  (gone ∙ none_left) (ground (arith, e, high, last)) last creates))
      ]

  -- The closed segments are popped, `popped` with them.
  popped_cut :
      (st : SegmentStorage) (kept a b : ℕ) (popped : List Segment)
      → Chain a st.segments b
      → kept < b
      → Fronted st.first_log_index st.segments
      → a ≤ st.first_log_index
      → st.first_log_index ≤ kept + 1
      → st.last_log_index ≡ kept
      → st.open_segment ≡ none
      → st.creates ≡ true
      → SoundDone (suffix_cut raw kept (erase_popped kept st popped (left_by kept st.segments)))
  popped_cut st kept a b popped c below fronted low high last no_open creates =
      elim (pop_back-Left a st.segments b kept c below) [
        | inl l ↦
            subst (λ l. SoundDone (suffix_cut raw kept (erase_popped kept st popped l))) (sym l.0)
              (record {
                front = kept + 1;
                back = kept + 1;
                chain = refl;
                opens =
                    subst (OpenAt (kept + 1) (kept + 1) st.last_log_index) (sym no_open)
                      (omega (arith, last));
                fronted = tt;
                front_le = omega arith;
                first_le = omega (arith, last);
                can_create = creates;
              })
        | inr (xs, s, same, chain, first, above, healthy, stopped, fronts) ↦
            subst (λ l. SoundDone (suffix_cut raw kept (erase_popped kept st popped l))) (sym same)
              (subst (λ r. SoundDone (suffix_cut raw kept r))
                (sym (erase_popped-snoc kept st popped xs s))
                (closed_cut st kept a popped xs s chain first above healthy
                  (fronts st.first_log_index fronted) low high last no_open creates))
      ]

  truncate_suffix-open :
      (st : SegmentStorage) (o : Option Segment) (kept : ℕ)
      → st.open_segment ≡ o
      → IsSound st
      → kept ≤ st.last_log_index
      → st.first_log_index ≤ kept + 1
      → SoundDone (suffix_cut raw kept (pop_from_back kept (record st { last_log_index = kept }) o))
  unfolding pop_back erase_segment erase_segments
  truncate_suffix-open st none kept e h above low =
      let ends = subst (OpenAt st.first_log_index h.back st.last_log_index) e h.opens in
      popped_cut (record st { last_log_index = kept }) kept h.front h.back
        (pop_back kept st.segments).0 h.chain (omega (arith, ends, above)) h.fronted h.front_le low
        refl e h.can_create
  truncate_suffix-open st (some s) kept e h above low =
      let opens = subst (OpenAt st.first_log_index h.back st.last_log_index) e h.opens in
      elim (Bool-cases (leb s.first_index kept)) [
        | inl below ↦
            rw (below) (open_cut st s kept (reopened st s e h) (ground (arith, below)) above low)
        | inr after ↦
            let past =
              erase_segment-past h.front st.segments h.back s.first_index h.chain
                (omega (arith, opens.0)) in
            let popped = s ∷ (pop_back kept st.segments).0 in
            let st' : SegmentStorage = record st { last_log_index = kept; open_segment = none } in
            let rest : erase_segments popped st.segments ≡ left_by kept st.segments =
              ap (erase_segments (pop_back kept st.segments).0) past in
            rw (after) (
              subst (λ l. SoundDone (suffix_cut raw kept (erase_popped kept st' popped l)))
                (sym rest)
                (popped_cut st' kept h.front h.back popped h.chain (ground (arith, after, opens.0))
                  h.fronted h.front_le low refl refl h.can_create))
      ]

  pub truncate_suffix-IsSound :
      (st : SegmentStorage) (kept : ℕ)
      → IsSound st
      → kept ≤ st.last_log_index
      → st.first_log_index ≤ kept + 1
      → SoundDone (truncate_suffix raw st kept)
  unfolding truncate_suffix
  truncate_suffix-IsSound st kept h above low =
      truncate_suffix-open st st.open_segment kept refl h above low
