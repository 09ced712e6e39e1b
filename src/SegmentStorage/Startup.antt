-- ===== src/SegmentStorage/Startup.antt =====
-- cpp/log.cc: SegmentLogStorage::init. The directory is a list of names in the order in which it is
-- read, each with the bytes of its file, or `none` if it cannot be read; creating it succeeds. The
-- leftover files that list_segments unlinks by their names are not recorded. The file of the first
-- index is read with one of `MetaFile`'s results. Loading the segments runs on fuel, as Segment::load
-- does.
use hit_consistency.Prelude.{
  Outcome, running, undefined, stopped, [], ◌∷◌, List, ℕ, Bool, true, false, not, ◌||◌, Option,
  none, some, ◌==◌, nat_eq, if◌then◌else◌, ltb, ◌+◌, ◌-◌, ◌++◌,
}
use hit_consistency.LogEntry.Meta.{MetaCodec}
use hit_consistency.ConfigurationManager.{ConfigurationManager}
use hit_consistency.EntryHeader.{RawPack, Checksums, ChecksumType, by_crc32, by_murmurhash32}
use hit_consistency.Segment.{Segment, Code, done, failed, new}
use hit_consistency.Segment.Loading.{load}
use hit_consistency.SegmentStorage.{SegmentStorage, put_segment, save_meta, unlink_all}

-- A name of the directory by its pattern, and what the file holds.
pub data DirEntry : Type 0 where
  closed_file : ℕ → ℕ → List ℕ → DirEntry
  open_file : ℕ → List ℕ → DirEntry
  unfinished other_file : DirEntry

-- ENOENT, another error, or the index.
pub data MetaFile : Type 0 where
  absent unreadable : MetaFile
  holds : ℕ → MetaFile

-- Segment's second constructor, for a closed file.
abbrev pub existing : ℕ → ℕ → ChecksumType → List ℕ → Segment
existing first last checksum bytes = record (new first checksum) {
  is_open = false;
  last_index = last;
  file = bytes;
}

-- SegmentLogStorage's constructor, with the flags.
abbrev pub empty_storage : Bool → ℕ → ℕ → SegmentStorage
empty_storage enable_sync max_segment_size max_segment_index_size = record {
  first_log_index = 1;
  last_log_index = 0;
  segments = [];
  open_segment = none;
  checksum_type = by_murmurhash32;
  enable_sync = enable_sync;
  max_segment_size = max_segment_size;
  max_segment_index_size = max_segment_index_size;
  creates = true;
  meta = none;
  meta_writable = true;
  unlinked = [];
}

abbrev pub take_open : SegmentStorage → ℕ → List ℕ → Option Segment → SegmentStorage × Bool
take_open st first bytes none =
    (record st { open_segment = some (record (new first st.checksum_type) { file = bytes }) }, true)
take_open st first bytes (some s) = (st, false)

-- One name, with whether the code goes on. Where the log is empty, a name with `log_` is unlinked.
unfoldable pub list_entry : Bool → SegmentStorage → DirEntry → SegmentStorage × Bool
unfolding put_segment
list_entry is_empty st (closed_file first last bytes) = if is_empty then (st, true) else (
  record st { segments = put_segment (existing first last st.checksum_type bytes) st.segments },
  true,
)
list_entry is_empty st (open_file first bytes) =
    if is_empty then (st, true) else take_open st first bytes st.open_segment
list_entry is_empty st unfinished = (st, true)
list_entry is_empty st other_file = (st, true)

-- The loop of list_segments over the directory.
unfoldable pub list_entries : Bool → SegmentStorage → List DirEntry → SegmentStorage × Bool
unfolding list_entry
list_entries is_empty st [] = (st, true)
list_entries is_empty st (e ∷ es) =
    let (st', goes_on) = list_entry is_empty st e in
    let rest = list_entries is_empty st' es in if goes_on then rest else (st', false)

-- Whether a closed segment has the wrong first index, after the last one of the segment before it.
abbrev pub is_misplaced : ℕ → Option ℕ → Segment → Bool
is_misplaced first_log_index none s = ltb first_log_index s.first_index
is_misplaced first_log_index (some last) s = not (s.first_index == last + 1)

abbrev pub is_discarded : ℕ → Option ℕ → Segment → Bool
is_discarded first_log_index none s = ltb s.last_index first_log_index
is_discarded first_log_index (some last) s = false

-- The loop that checks the closed segments: those that stay, those unlinked, and whether it ended.
unfoldable pub check_segments : ℕ → Option ℕ → List Segment → List Segment × List Segment × Bool
check_segments first_log_index last [] = ([], [], true)
check_segments first_log_index last (s ∷ ss) =
    let (after_kept, dropped_kept, ok_kept) =
      check_segments first_log_index (some s.last_index) ss in
    let (after_dropped, dropped, ok_dropped) = check_segments first_log_index last ss in
    if ltb s.last_index s.first_index || is_misplaced first_log_index last s
    then (s ∷ ss, [], false)
    else if is_discarded first_log_index last s
    then (after_dropped, s ∷ dropped, ok_dropped)
    else (s ∷ after_kept, dropped_kept, ok_kept)

abbrev pub checked : SegmentStorage → List Segment × List Segment × Bool → SegmentStorage × Code
checked st (kept, dropped, ok) =
    (unlink_all dropped (record st { segments = kept }), if ok then done else failed)

abbrev pub check_listed : SegmentStorage × Bool → SegmentStorage × Code
check_listed (st, false) = (st, failed)
check_listed (st, true) = checked st (check_segments st.first_log_index none st.segments)

unfoldable pub list_segments :
    SegmentStorage → Bool → Option (List DirEntry) → SegmentStorage × Code
unfolding list_entries check_segments
list_segments st is_empty none = (st, failed)
list_segments st is_empty (some entries) = check_listed (list_entries is_empty st entries)

-- The end of load_segments.
abbrev pub loaded_last : SegmentStorage → SegmentStorage
loaded_last st =
    if st.last_log_index == 0 then record st { last_log_index = st.first_log_index - 1 } else st

abbrev pub loaded_open : SegmentStorage → Segment → SegmentStorage
loaded_open st s =
    if ltb s.last_index st.first_log_index
    then unlink_all (s ∷ []) (record st { open_segment = none })
    else record st { open_segment = some s; last_log_index = s.last_index }

abbrev pub Start : Type 0 → Type 0
Start P = Outcome (SegmentStorage × ConfigurationManager P × Code)

module _ {P S : Type 0} (raw : RawPack) (sums : Checksums) (codec : MetaCodec P S) where
  abbrev pub after_open :
      SegmentStorage → Outcome (Segment × ConfigurationManager P × Code) → Start P
  after_open st running = running
  after_open st undefined = undefined
  after_open st (stopped (s, c, done)) = stopped (loaded_last (loaded_open st s), c, done)
  after_open st (stopped (s, c, other)) = stopped (record st { open_segment = some s }, c, other)

  abbrev pub load_open : SegmentStorage → ConfigurationManager P → ℕ → Option Segment → Start P
  load_open st c fuel none = stopped (loaded_last st, c, done)
  load_open st c fuel (some s) = after_open st (load raw sums codec s fuel c)

  -- The closed segments that are left, `before` being those loaded.
  unfoldable pub load_closed :
      ℕ → List Segment → SegmentStorage → ConfigurationManager P → List Segment → Start P
  unfolding load
  load_closed fuel before st c [] =
      load_open (record st { segments = before }) c fuel st.open_segment
  load_closed fuel before st c (s ∷ ss) = elim (load raw sums codec s fuel c) [
    | running ↦ running
    | undefined ↦ undefined
    | stopped (s', c', done) ↦
        load_closed fuel (before ++ s' ∷ []) (record st { last_log_index = s'.last_index }) c' ss
    | stopped (s', c', other) ↦ stopped (record st { segments = before ++ (s' ∷ ss) }, c', other)
  ]

  unfoldable pub load_segments : ℕ → SegmentStorage → ConfigurationManager P → Start P
  unfolding load_closed
  load_segments fuel st c = load_closed fuel [] st c st.segments

  -- The `do` of init after load_meta.
  abbrev pub after_list : ℕ → ConfigurationManager P → SegmentStorage × Code → Start P
  after_list fuel c (st, done) = load_segments fuel st c
  after_list fuel c (st, other) = stopped (st, c, other)

  abbrev pub start_over : SegmentStorage → SegmentStorage × Code
  start_over st = save_meta (record st { first_log_index = 1; last_log_index = 0 }) 1

  -- The end of init for an empty log, whose code is that of save_meta.
  abbrev pub end_empty : Start P → Start P
  end_empty running = running
  end_empty undefined = undefined
  end_empty (stopped (st, c, r)) = stopped ((start_over st).0, c, (start_over st).1)

  abbrev pub start_with :
      ℕ → SegmentStorage → ConfigurationManager P → Option (List DirEntry) → MetaFile → Start P
  start_with fuel st c dir absent = end_empty (after_list fuel c (list_segments st true dir))
  start_with fuel st c dir unreadable = stopped (st, c, failed)
  start_with fuel st c dir (holds index) =
      after_list fuel c
        (list_segments (record st { first_log_index = index; meta = some index }) false dir)

  -- With whether the processor has crc32c.
  unfoldable pub init :
      Bool
      → ℕ
      → SegmentStorage
      → ConfigurationManager P
      → Option (List DirEntry)
      → MetaFile
      → Start P
  unfolding list_segments load_segments save_meta
  init fast_crc32 fuel st c dir meta_file =
      start_with fuel
        (record st { checksum_type = if fast_crc32 then by_crc32 else by_murmurhash32 }) c dir
        meta_file
