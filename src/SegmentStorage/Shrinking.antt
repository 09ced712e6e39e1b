-- ===== src/SegmentStorage/Shrinking.antt =====
-- cpp/log.cc: dropping the first or the last entries of a SegmentLogStorage, or all of them.
use hit_consistency.Prelude.{
  [], ◌∷◌, List, ℕ, Bool, true, false, ◌||◌, Option, none, some, ◌==◌, nat_eq, if◌then◌else◌, ltb,
  leb, ◌+◌, ◌-◌, ◌++◌, last?,
}
use hit_consistency.EntryHeader.{RawPack}
use hit_consistency.Segment.{Segment, Code, done, invalid, failed, truncate}
use hit_consistency.SegmentStorage.{
  Found, SegmentStorage, as_list, erase_segment, erase_segments, in_map, in_open, outside,
  save_meta, unlink_all,
}
use hit_consistency.SegmentStorage.Entries.{put_back}

-- The loop of pop_segments: the popped segments and those that stay.
unfoldable pub pop_front : ℕ → List Segment → List Segment × List Segment
pop_front kept [] = ([], [])
pop_front kept (s ∷ ss) =
    let (popped, rest) = pop_front kept ss in
    if ltb s.last_index kept then (s ∷ popped, rest) else ([], s ∷ ss)

abbrev pub pop_open : ℕ → SegmentStorage → Option Segment → SegmentStorage × List Segment
pop_open kept st none = (record st { last_log_index = kept - 1 }, [])
pop_open kept st (some s) =
    if ltb s.last_index kept
    then (record st { open_segment = none; last_log_index = kept - 1 }, s ∷ [])
    else (st, [])

abbrev pub popped_front :
    ℕ → SegmentStorage → List Segment × List Segment → SegmentStorage × List Segment
popped_front kept st (popped, []) =
    let (st', last) =
      pop_open kept (record st { first_log_index = kept; segments = [] }) st.open_segment in
    (st', popped ++ last)
popped_front kept st (popped, s ∷ rest) =
    (record st { first_log_index = kept; segments = s ∷ rest }, popped)

unfoldable pub pop_segments : SegmentStorage → ℕ → SegmentStorage × List Segment
unfolding pop_front
pop_segments st first_index_kept =
    popped_front first_index_kept st (pop_front first_index_kept st.segments)

abbrev pub prefix_cut : ℕ → SegmentStorage × Code → SegmentStorage × Code
prefix_cut kept (st, done) =
    let (st', popped) = pop_segments st kept in (unlink_all popped st', done)
prefix_cut kept (st, other) = (st, failed)

unfoldable pub truncate_prefix : SegmentStorage → ℕ → SegmentStorage × Code
unfolding pop_segments save_meta
truncate_prefix st first_index_kept =
    if leb first_index_kept st.first_log_index
    then (st, done)
    else prefix_cut first_index_kept (save_meta st first_index_kept)

-- The loop of pop_segments_from_back, from the back: the segments that begin after `kept`.
unfoldable pub pop_back : ℕ → List Segment → List Segment × Bool
pop_back kept [] = ([], false)
pop_back kept (s ∷ ss) =
    let (popped, stopped) = pop_back kept ss in
    if stopped || leb s.first_index kept then (popped, true) else (popped ++ s ∷ [], false)

abbrev pub last_found : Option Segment → Found
last_found none = outside
last_found (some s) = in_map s

-- The end of pop_segments_from_back, `popped` being what has been popped.
abbrev pub erase_popped :
    ℕ → SegmentStorage → List Segment → List Segment → SegmentStorage × List Segment × Found
erase_popped kept st popped [] =
    (record st { segments = []; first_log_index = kept + 1 }, popped, outside)
erase_popped kept st popped (s ∷ ss) =
    (record st { segments = s ∷ ss }, popped, last_found (last? (s ∷ ss)))

abbrev pub pop_closed : ℕ → SegmentStorage → List Segment → SegmentStorage × List Segment × Found
pop_closed kept st first_popped =
    let popped = first_popped ++ (pop_back kept st.segments).0 in
    erase_popped kept st popped (erase_segments popped st.segments)

abbrev pub pop_from_back :
    ℕ → SegmentStorage → Option Segment → SegmentStorage × List Segment × Found
pop_from_back kept st none = pop_closed kept st []
pop_from_back kept st (some s) =
    if leb s.first_index kept
    then (st, [], in_open s)
    else pop_closed kept (record st { open_segment = none }) (s ∷ [])

unfoldable pub pop_segments_from_back : SegmentStorage → ℕ → SegmentStorage × List Segment × Found
unfolding pop_back erase_segments
pop_segments_from_back st last_index_kept =
    pop_from_back last_index_kept (record st { last_log_index = last_index_kept }) st.open_segment

module _ (raw : RawPack) where
  -- The files popped are unlinked only if the last segment could be cut.
  abbrev pub last_cut :
      SegmentStorage
      → List Segment
      → Found
      → Option (Segment × Code)
      → Option (SegmentStorage × Code)
  last_cut st popped place none = none
  last_cut st popped place (some (s, done)) = some (unlink_all popped (put_back st place s), done)
  last_cut st popped place (some (s, other)) = some (put_back st place s, other)

  abbrev pub cut_last :
      ℕ → SegmentStorage → List Segment → Found → Segment → Option (SegmentStorage × Code)
  cut_last kept st popped place s =
      if leb st.first_log_index st.last_log_index
      then last_cut st popped place (truncate raw s kept)
      else some (
        unlink_all (popped ++ s ∷ [])
            (record st { segments = erase_segment s.first_index st.segments; open_segment = none }),
        done,
      )

  abbrev pub suffix_cut : ℕ → SegmentStorage × List Segment × Found → Option (SegmentStorage × Code)
  suffix_cut kept (st, popped, in_open s) = cut_last kept st popped (in_open s) s
  suffix_cut kept (st, popped, in_map s) = cut_last kept st popped (in_map s) s
  suffix_cut kept (st, popped, nothing) = some (unlink_all popped st, done)

  unfoldable pub truncate_suffix : SegmentStorage → ℕ → Option (SegmentStorage × Code)
  unfolding pop_segments_from_back
  truncate_suffix st last_index_kept =
      suffix_cut last_index_kept (pop_segments_from_back st last_index_kept)

abbrev pub reset_end : List Segment → SegmentStorage × Code → SegmentStorage × Code
reset_end popped (st, done) = (unlink_all popped st, done)
reset_end popped (st, other) = (st, failed)

-- An index that is not above 0 is 0 here.
unfoldable pub reset : SegmentStorage → ℕ → SegmentStorage × Code
unfolding save_meta
reset st next_log_index =
    if next_log_index == 0
    then (st, invalid)
    else reset_end (st.segments ++ as_list st.open_segment) (
        save_meta
          (record st {
            segments = [];
            open_segment = none;
            first_log_index = next_log_index;
            last_log_index = next_log_index - 1;
          })
          next_log_index)
