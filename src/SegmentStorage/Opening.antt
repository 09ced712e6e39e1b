-- ===== src/SegmentStorage/Opening.antt =====
-- open_segment of a sound SegmentLogStorage.
use hit_consistency.Prelude.{
  [], ◌∷◌, List, refl, arith, ℕ, true, false, Bool, Option, none, some, ltb, nat_eq, ◌+◌, ◌≤◌, ◌≡◌,
  inl, inr, subst, ◌∙◌, ◌&&◌, not, Bool-cases,
}
use hit_consistency.Segment.{Segment, done, is_fullfilled, prepare_to_close, close}
use hit_consistency.SegmentStorage.{
  SegmentStorage, open_segment, created, fresh, is_large, rolled, close_old, put_segment,
}
use hit_consistency.SegmentStorage.Chain.{Healthy, Fronted, Chain-put_end}
use hit_consistency.SegmentStorage.Lookup.{OpenAt, IsSound}

pub Fronted-put :
    (first : ℕ) (ss : List Segment) (s : Segment)
    → Fronted first ss
    → first ≤ s.last_index
    → Fronted first (put_segment s ss)
unfolding put_segment
Fronted-put first [] s h last = last
Fronted-put first (t ∷ ts) s h last = ground (arith, h, last)

-- A storage with an open segment, `s`.
abbrev pub with_open : SegmentStorage → Segment → SegmentStorage
with_open st s = record st { open_segment = some s }

created-IsSound :
    (st : SegmentStorage) (o : Option Segment)
    → st.open_segment ≡ o
    → IsSound st
    → (s : Segment) × (created st o ≡ some s) × IsSound (with_open st s)
created-IsSound st none e h =
    let ends : h.back ≡ st.last_log_index + 1 =
      subst (OpenAt st.first_log_index h.back st.last_log_index) e h.opens in
    (
      fresh st,
      rw (h.can_create),
      record {
        front = h.front;
        back = h.back;
        chain = h.chain;
        opens = (
          omega (arith, ends),
          omega (arith, ends),
          omega arith,
          λ b. absurd (omega (arith, b)),
          λ b. absurd (omega (arith, b, ends)),
          refl,
          (refl, refl),
        );
        fronted = h.fronted;
        front_le = h.front_le;
        first_le = h.first_le;
        can_create = h.can_create;
      },
    )
created-IsSound st (some s) e h = (
  s,
  refl,
  record {
    front = h.front;
    back = h.back;
    chain = h.chain;
    opens = subst (OpenAt st.first_log_index h.back st.last_log_index) e h.opens;
    fronted = h.fronted;
    front_le = h.front_le;
    first_le = h.first_le;
    can_create = h.can_create;
  },
)

pub close-Healthy :
    (s : Segment) (will_sync : Bool)
    → Healthy s
    → close s will_sync ≡ (record s { is_open = false; pending_for_closing = false }, done)
unfolding close
close-Healthy s will_sync h =
    let no_failure : (ltb s.first_index s.last_index
          && (s.sync_segments && will_sync)
          && not s.fsyncs)
        ≡ false =
      ground (arith, h.0) in
    rw (close, no_failure, h.1)

-- Closing a segment succeeds and keeps its range.
close_old-Healthy :
    (st : SegmentStorage) (s : Segment)
    → Healthy s
    → (old : Segment) × (close_old st s ≡ (old, done))
      × (old.first_index ≡ s.first_index)
      × (old.last_index ≡ s.last_index)
      × Healthy old
unfolding close_old close prepare_to_close
close_old-Healthy st s h = elim (Bool-cases (is_fullfilled (prepare_to_close s))) [
  | inl e ↦ (
    record s { is_open = false; pending_for_closing = false },
    rw (close_old, e) (close-Healthy (prepare_to_close s) st.enable_sync h),
    refl,
    refl,
    h,
  )
  | inr e ↦ (prepare_to_close s, rw (close_old, e), refl, refl, h)
]

rolled-IsSound :
    (st : SegmentStorage) (s : Segment)
    → IsSound (with_open st s)
    → is_large st s ≡ true
    → (st' : SegmentStorage) × (s' : Segment) × (rolled st (close_old st s)
        ≡ (with_open st' s', some s'))
      × IsSound (with_open st' s')
      × (st'.first_log_index ≡ st.first_log_index)
      × (st'.last_log_index ≡ st.last_log_index)
rolled-IsSound st s h large =
    let (old, closed, first, last, healthy) = close_old-Healthy st s h.opens.6 in
    let used : h.back ≤ st.last_log_index = elim (Bool-cases (ltb st.max_segment_size s.bytes)) [
      | inl e ↦ h.opens.3 (ground (arith, e))
      | inr e ↦ ground (arith, e, large, h.opens.0, h.opens.2)
    ] in
    let st' : SegmentStorage = record st { segments = put_segment old st.segments } in
    (
      st',
      fresh st,
      rw (closed, h.can_create),
      record {
        front = h.front;
        back = old.last_index + 1;
        chain =
            Chain-put_end h.front st.segments h.back old h.chain (first ∙ h.opens.0)
              (omega (arith, last, h.opens.2, used)) healthy;
        opens = (
          omega (arith, last, h.opens.2),
          omega (arith, last, h.opens.2),
          omega arith,
          λ b. absurd (omega (arith, b)),
          λ b. absurd (omega (arith, b, last, h.opens.2)),
          refl,
          (refl, refl),
        );
        fronted =
            Fronted-put st.first_log_index st.segments old h.fronted
              (omega (arith, last, h.opens.2, h.opens.4 used));
        front_le = h.front_le;
        first_le = h.first_le;
        can_create = h.can_create;
      },
      refl,
      refl,
    )

-- In a sound storage, open_segment has an open segment, and leaves the storage sound.
pub open_segment-IsSound :
    (st : SegmentStorage)
    → IsSound st
    → (st' : SegmentStorage) × (s : Segment) × (open_segment st ≡ (with_open st' s, some s))
      × IsSound (with_open st' s)
      × (st'.first_log_index ≡ st.first_log_index)
      × (st'.last_log_index ≡ st.last_log_index)
unfolding open_segment
open_segment-IsSound st h =
    let (s, same, sound) = created-IsSound st st.open_segment refl h in
    elim (Bool-cases (is_large st s)) [
      | inl large ↦
          let (st', s', result, sound', first, last) = rolled-IsSound st s sound large in
          (st', s', rw (open_segment, same, large) result, sound', first, last)
      | inr small ↦ (st, s, rw (open_segment, same, small), sound, refl, refl)
    ]
