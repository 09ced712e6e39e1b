-- ===== src/Segment/Writes.antt =====
-- What `append` does to the entries that a segment file holds.
use hit_consistency.Prelude.{
  [], List, zero, suc, refl, arith, ℕ, true, false, some, ◌==◌, nat_eq, if◌then◌else◌, ltb, leb,
  not, ◌&&◌, ◌||◌, ◌+◌, ◌-◌, ◌<◌, ◌≤◌, ◌≡◌, ◌≢◌, ◌++◌, ◌⊎◌, inl, inr, length, drop, ap, ap₂, sym,
  subst, ◌∙◌, length-append, append_assoc, append-nil, drop_past, Bool-cases,
}
use hit_consistency.LogEntry.{LogEntry}
use hit_consistency.LogEntry.Meta.{MetaCodec, bytes_of}
use hit_consistency.EntryHeader.{RawPack, RawPackLaws, Checksums, ChecksumLaws, pack_header}
use hit_consistency.EntryHeader.RoundTrip.{length-pack_header}
use hit_consistency.Segment.{
  Slot, Segment, Code, done, failed, array_size, set_slot, file_pwrite, is_fullfilled, close,
  written, payload_of, record_of, close_if_full, append,
}
use hit_consistency.Segment.Reads.{Fits, take_all}
use hit_consistency.Segment.Stored.{Stored}

-- The file ends where the next entry goes.
pub record AtEnd (s : Segment) : Type 0 where
  pub position_end : s.position ≡ length s.file
  pub bytes_end : s.bytes ≡ length s.file

drop_nil : (k : ℕ) → drop {A = ℕ} k [] ≡ []
drop_nil zero = refl
drop_nil (suc k) = refl

pwrite_end :
    (file piece : List ℕ) (offset : ℕ)
    → offset ≡ length file
    → file_pwrite true file offset piece ≡ file ++ piece
unfolding file_pwrite
pwrite_end file piece offset h =
    let past : drop (offset + length piece) file ≡ [] =
      subst (λ l. drop (offset + length piece) l ≡ []) (append-nil file)
        (drop_past (offset + length piece) (length piece) file [] (omega (arith, h))
          ∙ drop_nil (length piece)) in
    rw (take_all offset file (sym h), past, append-nil piece)

-- Closing a segment that is full leaves its file and its slots.
close_cases :
    (s : Segment)
    → (c : Code) × ((close s true ≡ (s, c))
        ⊎ (close s true ≡ (record s { is_open = false; pending_for_closing = false }, c)))
unfolding close
close_cases s =
    elim (Bool-cases
      (ltb s.first_index s.last_index && (s.sync_segments && true) && not s.fsyncs)) [
        | inl h ↦ (failed, inl (rw (h)))
        | inr h ↦ (if s.renames then done else failed, inr (rw (h)))
      ]

close_if_full-cases :
    (s : Segment)
    → (c : Code) × ((close_if_full s ≡ (s, c))
        ⊎ (close_if_full s ≡ (record s { is_open = false; pending_for_closing = false }, c)))
close_if_full-cases s = elim (Bool-cases (s.pending_for_closing && is_fullfilled s)) [
  | inl h ↦
      subst
        (λ r.
          (c : Code) × ((r ≡ (s, c))
            ⊎ (r ≡ (record s { is_open = false; pending_for_closing = false }, c))))
        (sym (rw (h))) (close_cases s)
  | inr h ↦ (done, inl (rw (h)))
]

close_if_full-keeps :
    (s : Segment) (Kept : Segment → Type 0)
    → Kept s
    → Kept (record s { is_open = false; pending_for_closing = false })
    → (s' : Segment) × (c : Code) × (close_if_full s ≡ (s', c)) × Kept s'
close_if_full-keeps s Kept k k' =
    let (c, closed) = close_if_full-cases s in
    elim closed [
      | inl h ↦ (s, c, h, k)
      | inr h ↦ (record s { is_open = false; pending_for_closing = false }, c, h, k')
    ]

set_slot_here : (slots : ℕ → Slot) (k : ℕ) (slot : Slot) → set_slot slots k slot k ≡ slot
set_slot_here slots k slot = let e : (k == k) ≡ true = ground arith in rw (e)

set_slot_other :
    (slots : ℕ → Slot) (k j : ℕ) (slot : Slot) → j ≢ k → set_slot slots k slot j ≡ slots j
set_slot_other slots k j slot h = let e : (j == k) ≡ false = ground arith in rw (e)

closed-Stored :
    {P S : Type 0} (raw : RawPack) (sums : Checksums) (codec : MetaCodec P S) (s : Segment)
    (entry : LogEntry P (List ℕ))
    → Stored raw sums codec s entry
    → Stored raw sums codec (record s { is_open = false; pending_for_closing = false }) entry
closed-Stored raw sums codec s entry st = record {
  payload = st.payload;
  before = st.before;
  after = st.after;
  has_payload = st.has_payload;
  fits = st.fits;
  in_file = st.in_file;
  has_slot = st.has_slot;
  from_first = st.from_first;
  to_last = st.to_last;
}

module _ {P S : Type 0} (raw : RawPack) (sums : Checksums) (codec : MetaCodec P S)
    (rl : RawPackLaws raw) (cl : ChecksumLaws sums) (s : Segment) (at_end : AtEnd s)
    (entry : LogEntry P (List ℕ)) where
  pub length-record_of :
      (payload : List ℕ) → length (record_of raw sums codec s entry payload) ≡ 40 + length payload
  length-record_of payload =
      let header =
        pack_header raw sums s.checksum_type entry.type entry.id.term entry.id.index
          entry.dependency payload in
      omega (
        arith,
        length-append header payload,
        length-pack_header raw sums rl cl s.checksum_type entry.type entry.id.term entry.id.index
            entry.dependency payload,
      )

  abbrev pub after_write : List ℕ → Segment
  after_write payload = written raw sums codec s entry (record_of raw sums codec s entry payload)

  pub written-file :
      (payload : List ℕ)
      → (after_write payload).file ≡ s.file ++ record_of raw sums codec s entry payload
  written-file payload =
      pwrite_end s.file (record_of raw sums codec s entry payload) s.position at_end.position_end

  pub written-AtEnd : (payload : List ℕ) → AtEnd (after_write payload)
  written-AtEnd payload =
      let bytes = record_of raw sums codec s entry payload in
      let long = ap length (written-file payload) ∙ length-append s.file bytes in
      record {
        position_end = omega (arith, long, at_end.position_end);
        bytes_end = omega (arith, long, at_end.bytes_end);
      }

  -- The new entry is held.
  written-Stored :
      (payload : List ℕ)
      → payload_of raw sums codec entry ≡ bytes_of payload
      → Fits entry.id.term entry.id.index entry.dependency payload
      → s.first_index ≤ entry.id.index
      → Stored raw sums codec (after_write payload) entry
  written-Stored payload hp hf h1 =
      let bytes = record_of raw sums codec s entry payload in
      record {
        payload = payload;
        before = s.file;
        after = [];
        has_payload = hp;
        fits = hf;
        in_file = written-file payload ∙ ap (λ l. s.file ++ l) (sym (append-nil bytes));
        has_slot =
            set_slot_here s.slots (entry.id.index - s.first_index) _
            ∙ ap₂ (λ a l. record { offset = a; term = entry.id.term; end_offset = a + l })
                at_end.bytes_end (length-record_of payload);
        from_first = h1;
        to_last = ground arith;
      }

  -- The entries with other indexes are still held.
  written-Stored-other :
      (payload : List ℕ) (other : LogEntry P (List ℕ))
      → other.id.index ≢ entry.id.index
      → s.first_index ≤ entry.id.index
      → Stored raw sums codec s other
      → Stored raw sums codec (after_write payload) other
  written-Stored-other payload other hne h1 st =
      let bytes = record_of raw sums codec s entry payload in
      let kept = record_of raw sums codec s other st.payload in
      record {
        payload = st.payload;
        before = st.before;
        after = st.after ++ bytes;
        has_payload = st.has_payload;
        fits = st.fits;
        in_file =
            written-file payload
            ∙ ap (λ l. l ++ bytes) st.in_file
            ∙ append_assoc st.before (kept ++ st.after) bytes
            ∙ ap (λ l. st.before ++ l) (append_assoc kept st.after bytes);
        has_slot =
            set_slot_other s.slots (entry.id.index - s.first_index) (other.id.index - s.first_index)
              _ (λ e. hne (omega (arith, e, st.from_first, h1)))
            ∙ st.has_slot;
        from_first = st.from_first;
        to_last = ground (arith, st.to_last);
      }

module _ {P S : Type 0} (raw : RawPack) (sums : Checksums) (codec : MetaCodec P S)
    (rl : RawPackLaws raw) (cl : ChecksumLaws sums) where
  -- After `append`: the file ends where the next entry goes, and holds the new entry and the others.
  abbrev pub Appended : Segment → LogEntry P (List ℕ) → Segment → Type 0
  Appended s entry s' =
      AtEnd s'
      × (s'.readable ≡ s.readable)
      × Stored raw sums codec s' entry
      × ((other : LogEntry P (List ℕ))
          → other.id.index ≢ entry.id.index
          → Stored raw sums codec s other
          → Stored raw sums codec s' other)

  pub append-written :
      (s : Segment) (at_end : AtEnd s) (entry : LogEntry P (List ℕ)) (payload : List ℕ)
      → s.is_open ≡ true
      → s.writable ≡ true
      → s.first_index ≤ entry.id.index
      → entry.id.index < s.first_index + array_size
      → payload_of raw sums codec entry ≡ bytes_of payload
      → append raw sums codec s entry
        ≡ some (close_if_full (after_write raw sums codec rl cl s at_end entry payload))
  unfolding append
  append-written s at_end entry payload ho hw h1 h2 hp =
      let in_range : (ltb entry.id.index s.first_index
            || leb (s.first_index + array_size) entry.id.index)
          ≡ false =
        ground (arith, h1, h2) in
      rw (ho, hp, hw, in_range)

  -- To an open segment whose file can be written and ends where the next entry goes, `append` adds an
  -- entry whose index is in the segment's array, whose payload can be serialized and whose numbers the
  -- header has room for, its term not 0: the file then holds this entry and every entry with another
  -- index that it held, also where the segment is closed for being full.
  pub append-Stored :
      (s : Segment) (entry : LogEntry P (List ℕ)) (payload : List ℕ)
      → AtEnd s
      → s.is_open ≡ true
      → s.writable ≡ true
      → s.first_index ≤ entry.id.index
      → entry.id.index < s.first_index + array_size
      → payload_of raw sums codec entry ≡ bytes_of payload
      → Fits entry.id.term entry.id.index entry.dependency payload
      → (s' : Segment) × (c : Code) × (append raw sums codec s entry ≡ some (s', c))
        × Appended s entry s'
  append-Stored s entry payload at_end ho hw h1 h2 hp hf =
      let w = after_write raw sums codec rl cl s at_end entry payload in
      let kept : Appended s entry w = (
        written-AtEnd raw sums codec rl cl s at_end entry payload,
        refl,
        written-Stored raw sums codec rl cl s at_end entry payload hp hf h1,
        λ other hne st.
            written-Stored-other raw sums codec rl cl s at_end entry payload other hne h1 st,
      ) in
      let closed : Appended s entry (record w { is_open = false; pending_for_closing = false }) = (
        record { position_end = kept.0.position_end; bytes_end = kept.0.bytes_end },
        refl,
        closed-Stored raw sums codec w entry (kept.2),
        λ other hne st. closed-Stored raw sums codec w other (kept.3 other hne st),
      ) in
      let (s', c, h, k) = close_if_full-keeps w (Appended s entry) kept closed in
      (s', c, append-written s at_end entry payload ho hw h1 h2 hp ∙ ap some h, k)
