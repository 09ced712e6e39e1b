-- ===== src/SegmentStorage/Lookup.antt =====
-- When a SegmentLogStorage is sound, and what get_segment finds in a sound one.
use hit_consistency.Prelude.{
  refl, arith, ℕ, true, false, Option, none, some, ltb, leb, ◌==◌, nat_eq, if◌then◌else◌, ◌+◌, ◌<◌,
  ◌≤◌, ◌≡◌, ◌⊎◌, inl, inr, ap, ◌∙◌, ◌||◌, Bool-cases,
}
use hit_consistency.Segment.{Segment}
use hit_consistency.SegmentStorage.{
  SegmentStorage, outside, in_open, in_map, get_segment, found_before, found_closed, found_open,
}
use hit_consistency.SegmentStorage.Chain.{Healthy, Chain, Fronted, Holds, before_upper-in}

-- The open segment begins where the closed ones end, at `b`, and ends with the last index of the log.
abbrev pub OpenAt : ℕ → ℕ → ℕ → Option Segment → Type 0
OpenAt first b last none = b ≡ last + 1
OpenAt first b last (some s) =
    (s.first_index ≡ b)
    × (b ≤ last + 1)
    × (s.last_index ≡ last)
    × (0 < s.bytes → b ≤ last)
    × (b ≤ last → first ≤ last)
    × (s.pending_for_closing ≡ false)
    × Healthy s

pub record IsSound (st : SegmentStorage) : Type 0 where
  pub front : ℕ
  pub back : ℕ
  pub chain : Chain front st.segments back
  pub opens : OpenAt st.first_log_index back st.last_log_index st.open_segment
  pub fronted : Fronted st.first_log_index st.segments
  pub front_le : front ≤ st.first_log_index
  pub first_le : st.first_log_index ≤ st.last_log_index + 1
  pub can_create : st.creates ≡ true

-- A segment of the storage that holds the index, as get_segment finds it.
pub record FoundAt (st : SegmentStorage) (index : ℕ) : Type 0 where
  pub segment : Segment
  pub place :
      ((get_segment st index ≡ in_open segment) × (st.open_segment ≡ some segment))
      ⊎ ((get_segment st index ≡ in_map segment) × Holds segment st.segments)
  pub first : segment.first_index ≤ index
  pub last : index ≤ segment.last_index

pub get_segment-out :
    (st : SegmentStorage) (index : ℕ)
    → (index < st.first_log_index) ⊎ (st.last_log_index < index)
    → get_segment st index ≡ outside
unfolding get_segment
get_segment-out st index h = ground (arith, h)

get_segment-closed :
    (st : SegmentStorage) (index a b : ℕ)
    → Chain a st.segments b
    → a ≤ index
    → index < b
    → get_segment st index ≡ found_before index st
    → FoundAt st index
get_segment-closed st index a b chain low high same =
    let (s, found, held, first, last) = before_upper-in a st.segments b index none chain low high in
    record {
      segment = s;
      place = inr (same ∙ ap found_closed found, held);
      first = first;
      last = last;
    }

get_segment-inside :
    (st : SegmentStorage) (index : ℕ)
    → st.first_log_index ≤ index
    → index ≤ st.last_log_index
    → get_segment st index ≡ found_open index st st.open_segment
unfolding get_segment
get_segment-inside st index low high =
    let t1 : (st.first_log_index == (st.last_log_index + 1)) ≡ false = ground (arith, low, high) in
    let t2 : (ltb index st.first_log_index || ltb (st.last_log_index + 1) index) ≡ false =
      ground (arith, low, high) in
    let t3 : (index == (st.last_log_index + 1)) ≡ false = ground (arith, low, high) in
    rw (get_segment, t1, t2, t3)

get_segment-open :
    (st : SegmentStorage) (o : Option Segment) (index a b : ℕ)
    → st.open_segment ≡ o
    → Chain a st.segments b
    → OpenAt st.first_log_index b st.last_log_index o
    → a ≤ index
    → index ≤ st.last_log_index
    → get_segment st index ≡ found_open index st o
    → FoundAt st index
get_segment-open st none index a b e chain opens low high same =
    get_segment-closed st index a b chain low (omega (arith, opens, high)) same
get_segment-open st (some s) index a b e chain opens low high same =
    elim (Bool-cases (leb s.first_index index)) [
      | inl begun ↦ record {
        segment = s;
        place = inl (same ∙ ap (λ c. if c then in_open s else found_before index st) begun, e);
        first = ground (arith, begun);
        last = omega (arith, opens.2, high);
      }
      | inr before ↦
          get_segment-closed st index a b chain low (ground (arith, before, opens.0))
            (same ∙ ap (λ c. if c then in_open s else found_before index st) before)
    ]

-- In a sound storage, get_segment finds a segment of the storage that holds the index for every index
-- of the log, and answers -1 for every other index: it does not follow an iterator past the front.
pub get_segment_lem :
    (st : SegmentStorage) (index : ℕ)
    → IsSound st
    → (st.first_log_index ≤ index → index ≤ st.last_log_index → FoundAt st index)
      × ((index < st.first_log_index) ⊎ (st.last_log_index < index)
          → get_segment st index ≡ outside)
get_segment_lem st index h = (
  λ low high.
      get_segment-open st st.open_segment index h.front h.back refl h.chain h.opens
        (omega (arith, h.front_le, low)) high (get_segment-inside st index low high),
  get_segment-out st index,
)
