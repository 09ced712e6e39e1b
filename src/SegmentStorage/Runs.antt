-- ===== src/SegmentStorage/Runs.antt =====
-- The runs of a SegmentLogStorage: what holds after any sequence of its operations.
use hit_consistency.Prelude.{List, refl, arith, ℕ, Bool, some, ◌+◌, ◌<◌, ◌≤◌, ◌≡◌, ◌⊎◌, subst}
use hit_consistency.LogEntry.{LogEntry}
use hit_consistency.LogEntry.Meta.{MetaCodec}
use hit_consistency.EntryHeader.{RawPack, Checksums}
use hit_consistency.Segment.{Code}
use hit_consistency.SegmentStorage.{SegmentStorage, Answer, outside, get_segment}
use hit_consistency.SegmentStorage.Entries.{append_entry, append_entries}
use hit_consistency.SegmentStorage.Shrinking.{truncate_prefix, truncate_suffix, reset}
use hit_consistency.SegmentStorage.Startup.{empty_storage}
use hit_consistency.SegmentStorage.Lookup.{IsSound, FoundAt, get_segment_lem}
use hit_consistency.SegmentStorage.Appends.{
  SoundResult, append_entry-IsSound, append_entries-IsSound,
}
use hit_consistency.SegmentStorage.Cuts.{truncate_prefix-IsSound, reset-IsSound, empty-IsSound}
use hit_consistency.SegmentStorage.Suffix.{SoundDone, SoundDone-some, truncate_suffix-IsSound}

module _ {P S : Type 0} (raw : RawPack) (sums : Checksums) (codec : MetaCodec P S) where
  -- An operation that has a result; a suffix is cut within the log, or just before it.
  pub data Step (st st' : SegmentStorage) : Type 0 where
    appended_one :
        (e : LogEntry P (List ℕ)) (answer : Answer)
        → append_entry raw sums codec st e ≡ some (st', answer)
        → Step st st'
    appended :
        (es : List (LogEntry P (List ℕ))) (count : ℕ)
        → append_entries raw sums codec st 0 es ≡ some (st', count)
        → Step st st'
    prefix_truncated :
        (kept : ℕ) (code : Code) → truncate_prefix st kept ≡ (st', code) → Step st st'
    suffix_truncated :
        (kept : ℕ) (code : Code)
        → kept ≤ st.last_log_index
        → st.first_log_index ≤ kept + 1
        → truncate_suffix raw st kept ≡ some (st', code)
        → Step st st'
    was_reset : (next : ℕ) (code : Code) → reset st next ≡ (st', code) → Step st st'

  pub data Reach (start : SegmentStorage) : SegmentStorage → Type 0 where
    here : Reach start start
    then : {st st' : SegmentStorage} → Reach start st → Step st st' → Reach start st'

  Step-IsSound : {st st' : SegmentStorage} → IsSound st → Step st st' → IsSound st'
  Step-IsSound {st} h (appended_one e answer same) =
      subst SoundResult same (append_entry-IsSound raw sums codec st e h)
  Step-IsSound {st} h (appended es count same) =
      subst SoundResult same (append_entries-IsSound raw sums codec st 0 es h)
  Step-IsSound {st} h (prefix_truncated kept code same) =
      subst (λ r. IsSound r.0) same (truncate_prefix-IsSound st kept h)
  Step-IsSound {st} h (suffix_truncated kept code above low same) =
      subst SoundDone same (truncate_suffix-IsSound raw st kept h above low)
  Step-IsSound {st} h (was_reset next code same) =
      subst (λ r. IsSound r.0) same (reset-IsSound st next h)

  -- After any run of append_entry, append_entries, truncate_prefix, truncate_suffix and reset from a
  -- sound storage, the storage is sound: the closed segments hold the indexes of consecutive ranges
  -- without a gap, none of them empty, the open segment goes on where they end and ends with
  -- last_log_index, first_log_index does not fall below the first segment and is last_log_index + 1
  -- at most, and the first segment holds an index of the log. Every file can be created, synced and
  -- renamed, writes may fail, and a suffix is cut within the log or just before it.
  pub Reach-IsSound : {start st : SegmentStorage} → IsSound start → Reach start st → IsSound st
  Reach-IsSound h here = h
  Reach-IsSound h (then r s) = Step-IsSound (Reach-IsSound h r) s

  pub empty_storage-IsSound :
      (enable_sync : Bool) (size index_size : ℕ)
      → IsSound (empty_storage enable_sync size index_size)
  empty_storage-IsSound enable_sync size index_size =
      empty-IsSound (empty_storage enable_sync size index_size) 1 (omega arith) refl

  -- After any run of the same operations from an empty storage, first_log_index is
  -- last_log_index + 1 at most; get_segment finds a segment of the storage that holds the index for
  -- every index of the log, and answers -1 for every other index, so that it never follows an
  -- iterator past the front of the map. Cutting a suffix within the log or just before it is defined.
  pub Reach-bounds :
      (enable_sync : Bool) (size index_size : ℕ) (st : SegmentStorage)
      → Reach (empty_storage enable_sync size index_size) st
      → (st.first_log_index ≤ st.last_log_index + 1)
        × ((index : ℕ)
            → (st.first_log_index ≤ index → index ≤ st.last_log_index → FoundAt st index)
              × ((index < st.first_log_index) ⊎ (st.last_log_index < index)
                  → get_segment st index ≡ outside))
        × ((kept : ℕ)
            → kept ≤ st.last_log_index
            → st.first_log_index ≤ kept + 1
            → (r : SegmentStorage × Code) × (truncate_suffix raw st kept ≡ some r) × IsSound r.0)
  Reach-bounds enable_sync size index_size st r =
      let h = Reach-IsSound (empty_storage-IsSound enable_sync size index_size) r in
      (
        h.first_le,
        λ index. get_segment_lem st index h,
        λ kept above low.
            SoundDone-some (truncate_suffix raw st kept)
              (truncate_suffix-IsSound raw st kept h above low),
      )
