-- ===== src/SegmentStorage/Cuts.antt =====
-- truncate_prefix and reset of a sound SegmentLogStorage leave it sound.
use hit_consistency.Prelude.{
  [], ◌∷◌, List, refl, arith, ℕ, true, Option, none, some, ltb, leb, ◌==◌, nat_eq, if◌then◌else◌,
  ◌+◌, ◌-◌, ◌<◌, ◌≤◌, ◌≡◌, inl, inr, ap, subst, sym, ◌++◌, Bool-cases, map,
}
use hit_consistency.Segment.{Segment, done, failed}
use hit_consistency.SegmentStorage.{SegmentStorage, FileName, save_meta, file_name, as_list}
use hit_consistency.SegmentStorage.Shrinking.{
  truncate_prefix, pop_segments, popped_front, pop_front, reset, reset_end, pop_open, prefix_cut,
}
use hit_consistency.SegmentStorage.Chain.{Chain, Fronted, Chain-le}
use hit_consistency.SegmentStorage.Lookup.{IsSound, OpenAt}
use hit_consistency.SegmentStorage.Popping.{pop_front-Chain}

-- The file of the first index and the files unlinked do not matter.
pub same_ranges :
    (st : SegmentStorage) (meta : Option ℕ) (unlinked : List FileName)
    → IsSound st
    → IsSound (record st { meta = meta; unlinked = unlinked })
same_ranges st meta unlinked h = record {
  front = h.front;
  back = h.back;
  chain = h.chain;
  opens = h.opens;
  fronted = h.fronted;
  front_le = h.front_le;
  first_le = h.first_le;
  can_create = h.can_create;
}

-- A storage with no segment.
pub empty-IsSound :
    (st : SegmentStorage) (kept : ℕ)
    → 0 < kept
    → st.creates ≡ true
    → IsSound (record st {
      segments = [];
      open_segment = none;
      first_log_index = kept;
      last_log_index = kept - 1;
    })
empty-IsSound st kept h creates = record {
  front = kept;
  back = kept;
  chain = refl;
  opens = omega (arith, h);
  fronted = tt;
  front_le = omega arith;
  first_le = omega (arith, h);
  can_create = creates;
}

pop_open-IsSound :
    (st : SegmentStorage) (o : Option Segment) (b kept : ℕ)
    → OpenAt st.first_log_index b st.last_log_index o
    → b ≤ kept
    → 0 < kept
    → st.creates ≡ true
    → IsSound
        (pop_open kept (record st { first_log_index = kept; segments = []; open_segment = o }) o).0
pop_open-IsSound st none b kept opens low pos creates = empty-IsSound st kept pos creates
pop_open-IsSound st (some s) b kept opens low pos creates =
    elim (Bool-cases (ltb s.last_index kept)) [
      | inl e ↦ rw (e) (empty-IsSound st kept pos creates)
      | inr e ↦ rw (e) (record {
        front = b;
        back = b;
        chain = refl;
        opens =
            (opens.0, opens.1, opens.2, opens.3, λ u. ground (arith, e, opens.2), opens.5, opens.6);
        fronted = tt;
        front_le = low;
        first_le = ground (arith, e, opens.2);
        can_create = creates;
      })
    ]

-- What `opens` says of a higher first index that the log has reached.
OpenAt-raise :
    (o : Option Segment) (first kept b last : ℕ)
    → OpenAt first b last o
    → kept < b
    → OpenAt kept b last o
OpenAt-raise none first kept b last opens h = opens
OpenAt-raise (some s) first kept b last opens h =
    (opens.0, opens.1, opens.2, opens.3, λ u. omega (arith, u, h), opens.5, opens.6)

OpenAt-le : (o : Option Segment) (first b last : ℕ) → OpenAt first b last o → b ≤ last + 1
OpenAt-le none first b last opens = omega (arith, opens)
OpenAt-le (some s) first b last opens = opens.1

popped_front-IsSound :
    (st : SegmentStorage) (a b kept : ℕ) (popped rest : List Segment)
    → Chain a rest b
    → a ≤ kept
    → Fronted kept rest
    → OpenAt st.first_log_index b st.last_log_index st.open_segment
    → 0 < kept
    → st.creates ≡ true
    → IsSound (popped_front kept st (popped, rest)).0
popped_front-IsSound st a b kept popped [] c low fronted opens pos creates =
    pop_open-IsSound st st.open_segment b kept opens (omega (arith, c, low)) pos creates
popped_front-IsSound st a b kept popped (s ∷ rest) c low fronted opens pos creates =
    let after = Chain-le (s.last_index + 1) rest b c.3 in
    let bound = OpenAt-le st.open_segment st.first_log_index b st.last_log_index opens in
    record {
      front = a;
      back = b;
      chain = c;
      opens =
          OpenAt-raise st.open_segment st.first_log_index kept b st.last_log_index opens
            (omega (arith, after, fronted));
      fronted = fronted;
      front_le = low;
      first_le = omega (arith, after, bound, fronted);
      can_create = creates;
    }

pop_segments-IsSound :
    (st : SegmentStorage) (kept : ℕ)
    → IsSound st
    → st.first_log_index < kept
    → IsSound (pop_segments st kept).0
unfolding pop_segments
pop_segments-IsSound st kept h higher =
    let (a, chain, low, fronted) =
      pop_front-Chain h.front st.segments h.back kept h.chain (omega (arith, h.front_le, higher)) in
    popped_front-IsSound st a h.back kept (pop_front kept st.segments).0
      (pop_front kept st.segments).1 chain low fronted h.opens (omega (arith, higher)) h.can_create

pub truncate_prefix-IsSound :
    (st : SegmentStorage) (kept : ℕ) → IsSound st → IsSound (truncate_prefix st kept).0
unfolding truncate_prefix save_meta
truncate_prefix-IsSound st kept h = elim (Bool-cases (leb kept st.first_log_index)) [
  | inl e ↦ rw (truncate_prefix, e) h
  | inr e ↦ elim (Bool-cases st.meta_writable) [
    | inr w ↦
        let unsaved : save_meta st kept ≡ (st, failed) =
          ap (λ c. if c then (record st { meta = some kept }, done) else (st, failed)) w in
        rw (truncate_prefix, e) (subst (λ r. IsSound (prefix_cut kept r).0) (sym unsaved) h)
    | inl w ↦
        let saved : SegmentStorage = record st { meta = some kept } in
        let popped =
          pop_segments-IsSound saved kept (same_ranges st (some kept) st.unlinked h)
            (ground (arith, e)) in
        let result : truncate_prefix st kept ≡ prefix_cut kept (saved, done) =
          rw (truncate_prefix, e, save_meta, w) in
        subst (λ r. IsSound r.0) (sym result)
          (same_ranges (pop_segments saved kept).0 (pop_segments saved kept).0.meta
            ((pop_segments saved kept).0.unlinked ++ map file_name (pop_segments saved kept).1)
            popped)
  ]
]

pub reset-IsSound : (st : SegmentStorage) (next : ℕ) → IsSound st → IsSound (reset st next).0
unfolding reset save_meta
reset-IsSound st next h = elim (Bool-cases (next == 0)) [
  | inl e ↦ rw (reset, e) h
  | inr e ↦
      let popped = st.segments ++ as_list st.open_segment in
      let emptied : SegmentStorage = record st {
        segments = [];
        open_segment = none;
        first_log_index = next;
        last_log_index = next - 1;
      } in
      let sound = empty-IsSound st next (ground (arith, e)) h.can_create in
      elim (Bool-cases st.meta_writable) [
        | inl w ↦
            let result : reset st next
                ≡ reset_end popped (record emptied { meta = some next }, done) =
              rw (reset, e, save_meta, w) in
            subst (λ r. IsSound r.0) (sym result)
              (same_ranges emptied (some next) (st.unlinked ++ map file_name popped) sound)
        | inr w ↦
            let result : reset st next ≡ (emptied, failed) = rw (reset, e, save_meta, w) in
            subst (λ r. IsSound r.0) (sym result) sound
      ]
]
