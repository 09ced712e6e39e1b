-- ===== src/SegmentStorage/Appends.antt =====
-- append_entry and append_entries of a sound SegmentLogStorage leave it sound.
use hit_consistency.Prelude.{
  some_inj, [], ◌∷◌, List, refl, arith, ℕ, false, Option, none, some, ltb, ◌+◌, ◌<◌, ◌≤◌, ◌≡◌, inl,
  inr, ap, subst, ◌∙◌, sym, Bool-cases, Option-cases,
}
use hit_consistency.LogEntry.{LogEntry}
use hit_consistency.LogEntry.Meta.{MetaCodec}
use hit_consistency.EntryHeader.{RawPack, Checksums}
use hit_consistency.Segment.{Segment, Code, done, invalid, failed, greater_index, append}
use hit_consistency.SegmentStorage.{SegmentStorage, code, in_open, in_map, get_segment}
use hit_consistency.SegmentStorage.Entries.{
  put_back, raise_last, after_append, append_at, append_synced, append_to_open, place_for,
  append_opened, append_entry, append_round, append_entries, coded,
}
use hit_consistency.SegmentStorage.Chain.{Healthy, Holds, Holds-Healthy, Chain-put_back}
use hit_consistency.SegmentStorage.Lookup.{IsSound, get_segment_lem}
use hit_consistency.SegmentStorage.Opening.{with_open, open_segment-IsSound, Fronted-put}
use hit_consistency.SegmentStorage.Extended.{append-Appended}

-- A result that is sound, if there is one.
abbrev pub SoundResult {ℓ} : {A : Type ℓ} → Option (SegmentStorage × A) → Type 0
SoundResult none = Unit {0}
SoundResult (some r) = IsSound r.0

-- The open segment has been appended to.
open_raised :
    (st : SegmentStorage) (s s' : Segment) (index : ℕ)
    → IsSound (with_open st s)
    → s.first_index ≤ index
    → s'.first_index ≡ s.first_index
    → s'.last_index ≡ greater_index s.last_index index
    → Healthy s'
    → s'.pending_for_closing ≡ false
    → IsSound (raise_last (with_open st s') index)
open_raised st s s' index h first same last healthy pending = record {
  front = h.front;
  back = h.back;
  chain = h.chain;
  opens = (
    same ∙ h.opens.0,
    ground (arith, h.opens.1),
    ground (arith, last, h.opens.2),
    λ b. ground (arith, first, h.opens.0),
    λ b. ground (arith, first, h.opens.0, h.opens.1, h.opens.4, h.first_le),
    pending,
    healthy,
  );
  fronted = h.fronted;
  front_le = h.front_le;
  first_le = ground (arith, h.first_le);
  can_create = h.can_create;
}

-- A closed segment is put back with its range.
closed_kept :
    (st : SegmentStorage) (s s' : Segment)
    → IsSound st
    → Holds s st.segments
    → st.first_log_index ≤ s.last_index
    → s'.first_index ≡ s.first_index
    → s'.last_index ≡ s.last_index
    → Healthy s'
    → IsSound (put_back st (in_map s) s')
closed_kept st s s' h held low same last healthy = record {
  front = h.front;
  back = h.back;
  chain = Chain-put_back h.front st.segments h.back s s' h.chain held same last healthy;
  opens = h.opens;
  fronted = Fronted-put st.first_log_index st.segments s' h.fronted (omega (arith, last, low));
  front_le = h.front_le;
  first_le = h.first_le;
  can_create = h.can_create;
}

raise_last-below :
    (st : SegmentStorage) (index : ℕ)
    → index ≤ st.last_log_index
    → st.last_log_index ≡ greater_index st.last_log_index index
raise_last-below st index h = ground (arith, h)

coded-Sound : (r : Option (SegmentStorage × Code)) → SoundResult r → SoundResult (coded r)
coded-Sound none h = tt
coded-Sound (some (st, c)) h = h

module _ {P S : Type 0} (raw : RawPack) (sums : Checksums) (codec : MetaCodec P S) where
  after_append-open :
      (st : SegmentStorage) (s : Segment) (e : LogEntry P (List ℕ)) (r : Option (Segment × Code))
      → IsSound (with_open st s)
      → append raw sums codec s e ≡ r
      → SoundResult (after_append raw sums codec (with_open st s) (in_open s) e.id.index r)
  after_append-open st s e none h same = tt
  after_append-open st s e (some (s', done)) h same =
      elim (append-Appended raw sums codec s e s' done h.opens.6 same) [
        | inl left ↦ absurd (left.1 refl)
        | inr a ↦ open_raised st s s' e.id.index h a.1 a.2 a.3 a.4 (a.5 h.opens.5)
      ]
  after_append-open st s e (some (s', invalid)) h same =
      elim (append-Appended raw sums codec s e s' invalid h.opens.6 same) [
        | inl left ↦ subst (λ u. IsSound (with_open st u)) (sym left.0) h
        | inr a ↦ absurd cc
      ]
  after_append-open st s e (some (s', failed)) h same =
      elim (append-Appended raw sums codec s e s' failed h.opens.6 same) [
        | inl left ↦ subst (λ u. IsSound (with_open st u)) (sym left.0) h
        | inr a ↦ absurd cc
      ]

  append_synced-open :
      (st : SegmentStorage) (s : Segment) (e : LogEntry P (List ℕ)) (r : Option (Segment × Code))
      → IsSound (with_open st s)
      → append raw sums codec s e ≡ r
      → SoundResult (append_synced raw sums codec (with_open st s) e.id.index r)
  append_synced-open st s e none h same = tt
  append_synced-open st s e (some (s', done)) h same =
      after_append-open st s e (some (s', done)) h same
  append_synced-open st s e (some (s', invalid)) h same =
      after_append-open st s e (some (s', invalid)) h same
  append_synced-open st s e (some (s', failed)) h same =
      after_append-open st s e (some (s', failed)) h same

  pub append_entry-IsSound :
      (st : SegmentStorage) (e : LogEntry P (List ℕ))
      → IsSound st
      → SoundResult (append_entry raw sums codec st e)
  unfolding append_entry
  append_entry-IsSound st e h =
      let (st', s, result, sound, first, last) = open_segment-IsSound st h in
      subst (λ r. SoundResult (append_to_open raw sums codec e r)) (sym result)
        (append_synced-open st' s e (append raw sums codec s e) sound refl)

  after_append-closed :
      (st : SegmentStorage) (s : Segment) (e : LogEntry P (List ℕ)) (r : Option (Segment × Code))
      → IsSound st
      → Holds s st.segments
      → st.first_log_index ≤ e.id.index
      → e.id.index ≤ s.last_index
      → e.id.index ≤ st.last_log_index
      → append raw sums codec s e ≡ r
      → SoundResult (after_append raw sums codec st (in_map s) e.id.index r)
  after_append-closed st s e none h held low high below same = tt
  after_append-closed st s e (some (s', done)) h held low high below same =
      let healthy = Holds-Healthy h.front st.segments h.back s h.chain held in
      elim (append-Appended raw sums codec s e s' done healthy same) [
        | inl left ↦ absurd (left.1 refl)
        | inr a ↦
            subst (λ n. IsSound (record (put_back st (in_map s) s') { last_log_index = n }))
              (raise_last-below st e.id.index below)
              (closed_kept st s s' h held (omega (arith, low, high)) a.2 (ground (arith, a.3, high))
                a.4)
      ]
  after_append-closed st s e (some (s', invalid)) h held low high below same =
      let healthy = Holds-Healthy h.front st.segments h.back s h.chain held in
      elim (append-Appended raw sums codec s e s' invalid healthy same) [
        | inl left ↦
            closed_kept st s s' h held (omega (arith, low, high)) (ap (λ u. u.first_index) left.0)
              (ap (λ u. u.last_index) left.0) (subst Healthy (sym left.0) healthy)
        | inr a ↦ absurd cc
      ]
  after_append-closed st s e (some (s', failed)) h held low high below same =
      let healthy = Holds-Healthy h.front st.segments h.back s h.chain held in
      elim (append-Appended raw sums codec s e s' failed healthy same) [
        | inl left ↦
            closed_kept st s s' h held (omega (arith, low, high)) (ap (λ u. u.first_index) left.0)
              (ap (λ u. u.last_index) left.0) (subst Healthy (sym left.0) healthy)
        | inr a ↦ absurd cc
      ]

  -- An entry below the open segment.
  append_at-below :
      (st : SegmentStorage) (s : Segment) (e : LogEntry P (List ℕ))
      → IsSound (with_open st s)
      → e.id.index < s.first_index
      → SoundResult
          (append_at raw sums codec (with_open st s) s e (get_segment (with_open st s) e.id.index))
  append_at-below st s e h below = elim (Bool-cases (ltb e.id.index st.first_log_index)) [
    | inl out ↦
        let same = (get_segment_lem (with_open st s) e.id.index h).1 (inl (ground (arith, out))) in
        subst (λ f. SoundResult (append_at raw sums codec (with_open st s) s e f)) (sym same)
          (after_append-open st s e (append raw sums codec s e) h refl)
    | inr low ↦
        let found =
          (get_segment_lem (with_open st s) e.id.index h).0 (ground (arith, low))
            (omega (arith, below, h.opens.0, h.opens.1)) in
        elim found.place [
          | inl p ↦ absurd (
              omega (
                arith,
                found.first,
                below,
                ap (λ u. u.first_index) (some_inj {a = s} {b = found.segment} p.1),
              ))
          | inr p ↦
              subst (λ f. SoundResult (append_at raw sums codec (with_open st s) s e f)) (sym p.0)
                (after_append-closed (with_open st s) found.segment e
                  (append raw sums codec found.segment e) h p.1 (ground (arith, low)) found.last
                  (omega (arith, below, h.opens.0, h.opens.1)) refl)
        ]
  ]

  append_round-IsSound :
      (st : SegmentStorage) (e : LogEntry P (List ℕ))
      → IsSound st
      → SoundResult (append_round raw sums codec st e)
  unfolding append_round
  append_round-IsSound st e h =
      let (st', s, result, sound, first, last) = open_segment-IsSound st h in
      subst (λ r. SoundResult (append_opened raw sums codec e r)) (sym result)
        (coded-Sound
          (append_at raw sums codec (with_open st' s) s e
            (place_for (with_open st' s) s e.id.index))
          (elim (Bool-cases (ltb e.id.index s.first_index)) [
            | inl below ↦ rw (below) (append_at-below st' s e sound (ground (arith, below)))
            | inr above ↦
                rw (above) (after_append-open st' s e (append raw sums codec s e) sound refl)
          ]))

  pub append_entries-IsSound :
      (st : SegmentStorage) (i : ℕ) (es : List (LogEntry P (List ℕ)))
      → IsSound st
      → SoundResult (append_entries raw sums codec st i es)
  unfolding append_entries
  append_entries-IsSound st i [] h = h
  append_entries-IsSound st i (e ∷ es) h = elim (Option-cases (append_round raw sums codec st e)) [
    | inl same ↦ rw (append_entries, same) tt
    | inr ((st', code done), same) ↦
        rw (append_entries, same)
          (append_entries-IsSound st' (i + 1) es
            (subst SoundResult same (append_round-IsSound st e h)))
    | inr ((st', other), same) ↦
        rw (append_entries, same) (subst SoundResult same (append_round-IsSound st e h))
  ]
