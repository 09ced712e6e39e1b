-- ===== src/SegmentStorage.antt =====
-- cpp/log.h and cpp/log.cc: SegmentLogStorage, the segments of a log in order. `_segments`, a map by
-- first index, is the list of its segments, which stand under their own first indexes, in the map's
-- order; `open_segment` is the open one. A segment that an operation has changed is written back to the place
-- where the code found it. `creates` says whether files can be created, `meta_writable` whether the
-- file of the first index can be written; `meta` is its value. `unlinked` are the names of the files given to
-- Segment::unlink. Following an iterator past the front of the map is `none`; the result of
-- append_entries and of the reads is otherwise as in the code.
pub mod Entries
pub mod Shrinking
pub mod Startup
pub mod Listing
pub mod Chain
pub mod Opening
pub mod Extended
pub mod Appends
pub mod Popping
pub mod Cuts
pub mod Cutting
pub mod Suffix
pub mod Lookup
pub mod Runs
use hit_consistency.Prelude.{
  [], ◌∷◌, List, ℕ, zero, suc, Bool, true, false, not, ◌&&◌, ◌||◌, Option, none, some, ◌==◌, nat_eq,
  if◌then◌else◌, ltb, leb, ◌+◌, ◌-◌, ◌++◌, length, last?, map,
}
use hit_consistency.LogEntry.{LogEntry}
use hit_consistency.LogEntry.Meta.{MetaCodec}
use hit_consistency.EntryHeader.{RawPack, Checksums, ChecksumType}
use hit_consistency.Segment.{
  Segment, Code, done, invalid, failed, new, greater_index, is_fullfilled, sync, prepare_to_close,
  close, append, get, get_term, truncate,
}

-- A file's name by its pattern.
pub data FileName : Type 0 where
  meta_file : FileName
  closed_name : ℕ → ℕ → FileName
  open_name : ℕ → FileName

pub record SegmentStorage : Type 0 where
  pub first_log_index : ℕ
  pub last_log_index : ℕ
  pub segments : List Segment
  pub open_segment : Option Segment
  pub checksum_type : ChecksumType
  pub enable_sync : Bool
  pub max_segment_size : ℕ
  pub max_segment_index_size : ℕ
  pub creates : Bool
  pub meta : Option ℕ
  pub meta_writable : Bool
  pub unlinked : List FileName

-- What get_segment answers: -1, an iterator past the front, or the segment and where it is.
pub data Found : Type 0 where
  outside dangling : Found
  in_open in_map : Segment → Found

-- What append_entry answers: EIO, or the code of Segment::append or Segment::sync.
pub data Answer : Type 0 where
  eio : Answer
  code : Code → Answer

abbrev pub file_name : Segment → FileName
file_name s =
    if not s.is_open then closed_name s.first_index s.last_index else open_name s.first_index

-- `_segments[s->first_index()] = s`.
unfoldable pub put_segment : Segment → List Segment → List Segment
put_segment s [] = s ∷ []
put_segment s (t ∷ ts) =
    let rest = put_segment s ts in
    if ltb s.first_index t.first_index
    then s ∷ t ∷ ts
    else if s.first_index == t.first_index
    then s ∷ ts
    else t ∷ rest

-- `_segments.erase(k)`.
unfoldable pub erase_segment : ℕ → List Segment → List Segment
erase_segment k [] = []
erase_segment k (t ∷ ts) =
    let rest = erase_segment k ts in if t.first_index == k then ts else t ∷ rest

unfoldable pub erase_segments : List Segment → List Segment → List Segment
unfolding erase_segment
erase_segments [] ts = ts
erase_segments (s ∷ ss) ts = erase_segments ss (erase_segment s.first_index ts)

-- The segment before `_segments.upper_bound(index)`; `kept` is the one before the list.
unfoldable pub before_upper : ℕ → Option Segment → List Segment → Option Segment
before_upper index kept [] = kept
before_upper index kept (t ∷ ts) =
    let rest = before_upper index (some t) ts in if ltb index t.first_index then kept else rest

unfoldable pub save_meta : SegmentStorage → ℕ → SegmentStorage × Code
save_meta st index =
    if st.meta_writable then (record st { meta = some index }, done) else (st, failed)

abbrev pub unlink_all : List Segment → SegmentStorage → SegmentStorage
unlink_all popped st = record st { unlinked = st.unlinked ++ map file_name popped }

unfoldable pub first_log_index : SegmentStorage → ℕ
first_log_index st = st.first_log_index

-- max_log_index, which is the last index too.
unfoldable pub max_log_index : SegmentStorage → ℕ
max_log_index st = st.last_log_index

abbrev pub found_closed : Option Segment → Found
found_closed none = dangling
found_closed (some s) = in_map s

abbrev pub found_before : ℕ → SegmentStorage → Found
found_before index st = found_closed (before_upper index none st.segments)

abbrev pub found_open : ℕ → SegmentStorage → Option Segment → Found
found_open index st none = found_before index st
found_open index st (some s) = if leb s.first_index index then in_open s else found_before index st

unfoldable pub get_segment : SegmentStorage → ℕ → Found
unfolding before_upper
get_segment st index =
    if st.first_log_index == st.last_log_index + 1
    then outside
    else if ltb index st.first_log_index || ltb (st.last_log_index + 1) index
    then outside
    else if index == st.last_log_index + 1
    then outside
    else found_open index st st.open_segment

-- open_segment: a segment after the last index, if its file can be created.
abbrev pub fresh : SegmentStorage → Segment
fresh st = new (st.last_log_index + 1) st.checksum_type

abbrev pub created : SegmentStorage → Option Segment → Option Segment
created st none = if st.creates then some (fresh st) else none
created st (some s) = some s

abbrev pub is_large : SegmentStorage → Segment → Bool
is_large st s =
    ltb st.max_segment_size s.bytes || ltb (s.first_index + st.max_segment_index_size) s.last_index

-- The old segment goes to the map and a new one is opened; if that fails, it is taken back.
abbrev pub rolled : SegmentStorage → Segment × Code → SegmentStorage × Option Segment
rolled st (old, done) =
    if st.creates
    then (
      record st { segments = put_segment old st.segments; open_segment = some (fresh st) },
      some (fresh st),
    )
    else (
      record st {
        segments = erase_segment old.first_index (put_segment old st.segments);
        open_segment = some old;
      },
      none,
    )
rolled st (old, other) = (
  record st {
    segments = erase_segment old.first_index (put_segment old st.segments);
    open_segment = some old;
  },
  none,
)

unfoldable pub close_old : SegmentStorage → Segment → Segment × Code
unfolding is_fullfilled prepare_to_close close
close_old st s =
    let old = prepare_to_close s in
    if is_fullfilled old then close old st.enable_sync else (old, done)

abbrev pub opened : SegmentStorage → Option Segment → SegmentStorage × Option Segment
opened st none = (record st { open_segment = none }, none)
opened st (some s) =
    if is_large st s
    then rolled st (close_old st s)
    else (record st { open_segment = some s }, some s)

-- The storage, and the open segment or the null pointer.
unfoldable pub open_segment : SegmentStorage → SegmentStorage × Option Segment
unfolding put_segment erase_segment close_old
open_segment st = opened st (created st st.open_segment)

abbrev pub as_list : Option Segment → List Segment
as_list none = []
as_list (some s) = s ∷ []

unfoldable pub list_files : SegmentStorage → List FileName
list_files st = meta_file ∷ (map file_name st.segments ++ map file_name (as_list st.open_segment))

-- The codes of the syncs, which the code drops.
unfoldable pub sync_all : SegmentStorage → List Code
unfolding sync
sync_all st = map (λ s. sync s true) st.segments
