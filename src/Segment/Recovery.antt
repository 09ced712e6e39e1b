-- ===== src/Segment/Recovery.antt =====
-- Loading a segment again after `append` has written it: with a torn entry at its end, and with an
-- entry that `truncate` has marked.
use hit_consistency.Prelude.{
  running, stopped, List, suc, refl, arith, ℕ, Bool, true, false, some, ◌==◌, nat_eq, if◌then◌else◌,
  not, ◌&&◌, ◌||◌, ◌+◌, ◌-◌, ◌<◌, ◌≤◌, ◌≡◌, ◌++◌, length, take, ap, ap₂, sym, ◌∙◌, length-append,
  take-append, pos, append-nil, length_nil,
}
use hit_consistency.LogEntry.{LogEntry}
use hit_consistency.LogEntry.Meta.{MetaCodec}
use hit_consistency.ConfigurationManager.{ConfigurationManager}
use hit_consistency.EntryHeader.{RawPack, RawPackLaws, Checksums, ChecksumLaws, ChecksumType}
use hit_consistency.Segment.{Segment, done, failed, new}
use hit_consistency.Segment.Writes.{AtEnd}
use hit_consistency.Segment.Loading.{Progress, load_loop, load, finish_load}
use hit_consistency.Segment.Replay.{append_all, AllPlain, Ready, progress_of, overwrite, replay}
use hit_consistency.Segment.Rounds.{
  running_mono, stops_at_tail, stays_at_deleted, never_ends, last_round,
}

-- What the segment file is left with: the entries appended to a new segment, and then some bytes.
abbrev pub left_with : ℕ → ChecksumType → Segment → List ℕ → Segment
left_with first_index checksum_type s tail = record (new first_index checksum_type) {
  file = s.file ++ tail;
}

new-Ready : (first_index : ℕ) (checksum_type : ChecksumType) → Ready (new first_index checksum_type)
new-Ready first_index checksum_type = record {
  at_end = record { position_end = refl; bytes_end = refl };
  opened = refl;
  can_write = refl;
  not_pending = refl;
}

cut_off :
    (s : Segment) (tail : List ℕ) (torn : Bool)
    → AtEnd s
    → not (s.bytes == length (s.file ++ tail)) ≡ torn
    → (if torn && true then take s.bytes (s.file ++ tail) else (s.file ++ tail)) ≡ s.file
cut_off s tail true at_end h = take-append s.bytes s.file tail (sym at_end.bytes_end)
cut_off s tail false at_end h =
    let none_left : length tail ≡ 0 =
      ground (arith, length-append s.file tail, at_end.bytes_end, h) in
    ap (λ l. s.file ++ l) (length_nil tail none_left) ∙ append-nil s.file

not_failed : (torn : Bool) → (if true && (not torn || true) then done else failed) ≡ done
not_failed true = refl
not_failed false = refl

finish_lem :
    {P S : Type 0} (raw : RawPack) (sums : Checksums) (codec : MetaCodec P S) (first_index : ℕ)
    (c : ChecksumType) (s : Segment) (tail : List ℕ) (at_end : AtEnd s)
    → ((x : Segment) → overwrite s x ≡ overwrite (new first_index c) x)
    → (configurations : ConfigurationManager P)
    → finish_load raw sums codec
        (left_with first_index c s tail)
        true
        (progress_of s configurations)
      ≡ (record s { valid_entries = pos 0 }, configurations, done)
finish_lem raw sums codec first_index c s tail at_end framed configurations =
    let torn = not (s.bytes == length (s.file ++ tail)) in
    let file = cut_off s tail torn at_end refl in
    let position : s.bytes ≡ s.position = omega (arith, at_end.position_end, at_end.bytes_end) in
    ap₂
      (λ f code. (
        overwrite (new first_index c)
            (record s { file = f; position = s.bytes; valid_entries = pos 0 }),
        configurations,
        code,
      ))
      file (not_failed torn)
    ∙ ap (λ x. (x, configurations, done))
        (sym (framed (record s { position = s.bytes; valid_entries = pos 0 })))
    ∙ ap (λ n. (record s { position = n; valid_entries = pos 0 }, configurations, done)) position

module _ {P S : Type 0} (raw : RawPack) (sums : Checksums) (codec : MetaCodec P S)
    (rl : RawPackLaws raw) (cl : ChecksumLaws sums) (first_index : ℕ) (c : ChecksumType) where
  -- Entries that are no configurations are appended to a new segment, and some bytes, fewer than the
  -- 40 of a header, stand after them. Then, on fuel above the number of the entries, `load` ends with
  -- the code 0 and the segment as it was after the entries, the other bytes cut off, but with a count
  -- of 0 valid entries; the configurations stay.
  pub load-append_all :
      (es : List (LogEntry P (List ℕ))) (tail : List ℕ)
      → AllPlain raw sums codec first_index es
      → length tail < 40
      → (s : Segment) × (append_all raw sums codec (new first_index c) es ≡ some s)
        × ((fuel : ℕ) (configurations : ConfigurationManager P)
            → length es < fuel
            → load raw sums codec (left_with first_index c s tail) fuel configurations
              ≡ stopped (record s { valid_entries = pos 0 }, configurations, done))
  unfolding load
  load-append_all es tail plain ht =
      let r = replay raw sums codec rl cl (new first_index c) es (new-Ready first_index c) plain in
      (
        r.after,
        r.appended,
        λ fuel configurations h.
            let whole = left_with first_index c r.after tail in
            let start : Progress P = progress_of (new first_index c) configurations in
            let spare = fuel - length es - 1 in
            let enough : fuel ≡ length es + suc spare = omega (arith, h) in
            let ended : load_loop raw sums codec whole fuel first_index start
                ≡ stopped (true, progress_of r.after configurations) =
              ap (λ n. load_loop raw sums codec whole n first_index start) enough
              ∙ r.loads whole tail (suc spare) first_index configurations refl refl refl
              ∙ last_round raw sums codec rl whole refl spare (first_index + length es)
                  (progress_of r.after configurations) _
                  (stops_at_tail raw sums codec rl whole refl r.after r.ready.at_end tail
                    (first_index + length es) configurations refl ht) in
            rw (load, ended)
              (ap stopped (
                finish_lem raw sums codec first_index c r.after tail r.ready.at_end r.framed
                  configurations)),
      )

  -- The same entries, and after them an entry whose term is 0, as `truncate` leaves it, with the other
  -- 32 bytes of its header: on no amount of fuel does `load` end.
  pub load-deleted :
      (es : List (LogEntry P (List ℕ))) (rest : List ℕ)
      → AllPlain raw sums codec first_index es
      → 32 ≤ length rest
      → (s : Segment) × (append_all raw sums codec (new first_index c) es ≡ some s)
        × ((fuel : ℕ) (configurations : ConfigurationManager P)
            → load raw sums codec
                (left_with first_index c s (raw.pack64 0 ++ rest))
                fuel
                configurations
              ≡ running)
  unfolding load
  load-deleted es rest plain ht =
      let r = replay raw sums codec rl cl (new first_index c) es (new-Ready first_index c) plain in
      (
        r.after,
        r.appended,
        λ fuel configurations.
            let whole = left_with first_index c r.after (raw.pack64 0 ++ rest) in
            let start : Progress P = progress_of (new first_index c) configurations in
            let stuck =
              running_mono raw sums codec rl whole refl fuel (length es) first_index start (
                ap (λ n. load_loop raw sums codec whole n first_index start) (omega arith)
                ∙ r.loads whole (raw.pack64 0 ++ rest) fuel first_index configurations refl refl
                    refl
                ∙ never_ends raw sums codec rl whole refl fuel (first_index + length es)
                    (progress_of r.after configurations)
                    (λ j.
                      stays_at_deleted raw sums codec rl whole refl r.after r.ready.at_end rest j
                        configurations refl ht)) in
            rw (load, stuck),
      )
