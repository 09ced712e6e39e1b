-- ===== src/Tests/Storages.antt =====
-- A storage of segments at concrete inputs.
use hit_consistency.Prelude.{
  [], ◌∷◌, List, refl, ℕ, true, false, Option, none, some, ◌+◌, ◌<◌, ◌≤◌, ◌≡◌, ◌⊎◌, ◌++◌,
}
use hit_consistency.EntryHeader.{by_crc32, pack_header}
use hit_consistency.Segment.{Segment, done, failed, append, truncate, Code}
use hit_consistency.SegmentStorage.{
  SegmentStorage, outside, get_segment, list_files, meta_file, closed_name, open_name,
}
use hit_consistency.SegmentStorage.Entries.{append_entries}
use hit_consistency.SegmentStorage.Shrinking.{truncate_prefix, truncate_suffix}
use hit_consistency.SegmentStorage.Startup.{
  empty_storage, existing, check_segments, list_segments, open_file,
}
use hit_consistency.SegmentStorage.Lookup.{IsSound, FoundAt}
use hit_consistency.SegmentStorage.Listing.{check_segments_lem, EndBefore, GaplessAround}
use hit_consistency.SegmentStorage.Runs.{
  appended, prefix_truncated, Reach, here, then, Reach-IsSound, Reach-bounds, empty_storage-IsSound,
}
use hit_consistency.Tests.Segments.{raw, sums, codec, entry_at}

abbrev storage : SegmentStorage
storage = empty_storage true 50 100

abbrev state_of {ℓ} : {A : Type ℓ} → Option (SegmentStorage × A) → SegmentStorage
state_of none = storage
state_of (some r) = r.0

-- Three entries in two segments, which the size of the first one parts.
abbrev three_appended : SegmentStorage
three_appended = state_of (
    append_entries raw sums codec storage 0
      (entry_at 1 3 (9 ∷ []) ∷ (entry_at 2 3 [] ∷ (entry_at 3 3 [] ∷ []))))

abbrev one_gone : SegmentStorage
one_gone = (truncate_prefix three_appended 3).0

two_segments : list_files three_appended ≡ meta_file ∷ closed_name 1 2 ∷ open_name 3 ∷ []
unfolding list_files append_entries append pack_header
two_segments = refl

-- Cutting a closed segment leaves it in the map under an open name; the next entry opens a second
-- file, and the storage does not start again from the two.
abbrev two_open : SegmentStorage
two_open = state_of (
    append_entries raw sums codec (state_of (truncate_suffix raw three_appended 1)) 0
      (entry_at 2 4 [] ∷ []))

cut_closed : list_files two_open ≡ meta_file ∷ open_name 1 ∷ open_name 2 ∷ []
unfolding list_files append_entries append pack_header truncate_suffix truncate
cut_closed = refl

two_open_files :
    (list_segments storage false (some (open_file 1 [] ∷ (open_file 2 [] ∷ [])))).1 ≡ failed
unfolding list_segments
two_open_files = refl

-- An entry before the first index of the log: get_segment finds no segment for it, and the open one
-- is written out of range.
before_log :
    append_entries raw sums codec (truncate_prefix three_appended 3).0 0 (entry_at 1 3 [] ∷ [])
    ≡ none
unfolding truncate_prefix append_entries append pack_header
before_log = refl

appended_all :
    append_entries raw sums codec storage 0
      (entry_at 1 3 (9 ∷ []) ∷ (entry_at 2 3 [] ∷ (entry_at 3 3 [] ∷ [])))
    ≡ some (three_appended, 3)
unfolding append_entries append pack_header
appended_all = refl

prefix_gone : truncate_prefix three_appended 3 ≡ (one_gone, done)
unfolding truncate_prefix append_entries append pack_header
prefix_gone = refl

run : Reach raw sums codec storage one_gone
run =
    then
      (then here (
        appended (entry_at 1 3 (9 ∷ []) ∷ (entry_at 2 3 [] ∷ (entry_at 3 3 [] ∷ []))) 3
          appended_all))
      (prefix_truncated 3 done prefix_gone)

Reach-IsSound_example : IsSound one_gone
Reach-IsSound_example =
    Reach-IsSound raw sums codec (empty_storage-IsSound raw sums codec true 50 100) run

Reach-bounds_example :
    (one_gone.first_log_index ≤ one_gone.last_log_index + 1)
    × ((index : ℕ)
        → (one_gone.first_log_index ≤ index
            → index ≤ one_gone.last_log_index
            → FoundAt one_gone index)
          × ((index < one_gone.first_log_index) ⊎ (one_gone.last_log_index < index)
              → get_segment one_gone index ≡ outside))
    × ((kept : ℕ)
        → kept ≤ one_gone.last_log_index
        → one_gone.first_log_index ≤ kept + 1
        → (r : SegmentStorage × Code) × (truncate_suffix raw one_gone kept ≡ some r) × IsSound r.0)
Reach-bounds_example = Reach-bounds raw sums codec true 50 100 one_gone run

-- Three closed files, of which the first ends before the log.
abbrev three_files : List Segment
three_files =
    existing 1 2 by_crc32 [] ∷ (existing 3 5 by_crc32 [] ∷ (existing 6 6 by_crc32 [] ∷ []))

check_segments_lem_example :
    (three_files ≡ (check_segments 4 none three_files).1 ++ (check_segments 4 none three_files).0)
    × EndBefore 4 (check_segments 4 none three_files).1
    × GaplessAround 4 (check_segments 4 none three_files).0
unfolding check_segments
check_segments_lem_example = check_segments_lem 4 three_files refl
