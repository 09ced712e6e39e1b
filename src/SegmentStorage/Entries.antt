-- ===== src/SegmentStorage/Entries.antt =====
-- cpp/log.cc: appending entries to a SegmentLogStorage, and reading them.
use hit_consistency.Prelude.{[], ◌∷◌, List, ℕ, Option, none, some, nat_eq, if◌then◌else◌, ltb, ◌+◌}
use hit_consistency.LogEntry.{LogEntry}
use hit_consistency.LogEntry.Meta.{MetaCodec}
use hit_consistency.EntryHeader.{RawPack, Checksums}
use hit_consistency.Segment.{Segment, Code, done, greater_index, sync, append, get, get_term}
use hit_consistency.SegmentStorage.{
  Answer, Found, SegmentStorage, code, dangling, eio, get_segment, in_map, in_open, open_segment,
  opened, outside, put_segment,
}

-- Where append_entries has got its segment from, and the segment as `append` has left it.
abbrev pub put_back : SegmentStorage → Found → Segment → SegmentStorage
put_back st (in_map old) s = record st { segments = put_segment s st.segments }
put_back st place s = record st { open_segment = some s }

abbrev pub raise_last : SegmentStorage → ℕ → SegmentStorage
raise_last st index = record st { last_log_index = greater_index st.last_log_index index }

abbrev pub coded : Option (SegmentStorage × Code) → Option (SegmentStorage × Answer)
coded none = none
coded (some (st, c)) = some (st, code c)

abbrev pub place_for : SegmentStorage → Segment → ℕ → Found
place_for st opened index =
    if ltb index opened.first_index then get_segment st index else in_open opened

module _ {P S : Type 0} (raw : RawPack) (sums : Checksums) (codec : MetaCodec P S) where
  abbrev pub after_append :
      SegmentStorage → Found → ℕ → Option (Segment × Code) → Option (SegmentStorage × Code)
  after_append st place index none = none
  after_append st place index (some (s, done)) = some (raise_last (put_back st place s) index, done)
  after_append st place index (some (s, other)) = some (put_back st place s, other)

  -- The segment for an entry: the open one stays where get_segment answers -1.
  abbrev pub append_at :
      SegmentStorage → Segment → LogEntry P (List ℕ) → Found → Option (SegmentStorage × Code)
  append_at st opened entry outside =
      after_append st (in_open opened) entry.id.index (append raw sums codec opened entry)
  append_at st opened entry dangling = none
  append_at st opened entry (in_open s) =
      after_append st (in_open s) entry.id.index (append raw sums codec s entry)
  append_at st opened entry (in_map s) =
      after_append st (in_map s) entry.id.index (append raw sums codec s entry)

  -- One round of append_entries; EIO stands for the null pointer of open_segment.
  abbrev pub append_opened :
      LogEntry P (List ℕ) → SegmentStorage × Option Segment → Option (SegmentStorage × Answer)
  append_opened entry (st, none) = some (st, eio)
  append_opened entry (st, some s) = coded (append_at st s entry (place_for st s entry.id.index))

  unfoldable pub append_round :
      SegmentStorage → LogEntry P (List ℕ) → Option (SegmentStorage × Answer)
  unfolding open_segment get_segment
  append_round st entry = append_opened entry (open_segment st)

  -- append_entries from the entry with the number `i` on, with the number of entries appended. The
  -- last segment's `sync` writes nothing, and its result is dropped.
  unfoldable pub append_entries :
      SegmentStorage → ℕ → List (LogEntry P (List ℕ)) → Option (SegmentStorage × ℕ)
  unfolding append_round
  append_entries st i [] = some (st, i)
  append_entries st i (entry ∷ entries) = elim (append_round st entry) [
    | none ↦ none
    | some (st', code done) ↦ append_entries st' (i + 1) entries
    | some (st', other) ↦ some (st', i)
  ]

  abbrev pub append_synced :
      SegmentStorage → ℕ → Option (Segment × Code) → Option (SegmentStorage × Answer)
  append_synced st index none = none
  append_synced st index (some (s, done)) =
      some (raise_last (record st { open_segment = some s }) index, code (sync s st.enable_sync))
  append_synced st index (some (s, other)) = some (record st { open_segment = some s }, code other)

  abbrev pub append_to_open :
      LogEntry P (List ℕ) → SegmentStorage × Option Segment → Option (SegmentStorage × Answer)
  append_to_open entry (st, none) = some (st, eio)
  append_to_open entry (st, some s) =
      append_synced st entry.id.index (append raw sums codec s entry)

  -- `append` never answers EEXIST.
  unfoldable pub append_entry :
      SegmentStorage → LogEntry P (List ℕ) → Option (SegmentStorage × Answer)
  unfolding open_segment sync
  append_entry st entry = append_to_open entry (open_segment st)

  abbrev pub got_from : ℕ → Found → Option (Option (LogEntry P (List ℕ)))
  got_from index outside = some none
  got_from index dangling = none
  got_from index (in_open s) = some (get raw sums codec s index)
  got_from index (in_map s) = some (get raw sums codec s index)

  -- `some none` is the null pointer.
  unfoldable pub get_entry : SegmentStorage → ℕ → Option (Option (LogEntry P (List ℕ)))
  unfolding get_segment
  get_entry st index = got_from index (get_segment st index)

abbrev pub term_from : ℕ → Found → Option ℕ
term_from index outside = some 0
term_from index dangling = none
term_from index (in_open s) = some (get_term s index)
term_from index (in_map s) = some (get_term s index)

unfoldable pub stored_term : SegmentStorage → ℕ → Option ℕ
unfolding get_segment
stored_term st index = term_from index (get_segment st index)
