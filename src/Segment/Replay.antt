-- ===== src/Segment/Replay.antt =====
-- Loading the bytes that a sequence of calls of `append` has written.
use hit_consistency.Prelude.{
  [], ◌∷◌, List, suc, refl, arith, ℕ, true, false, Option, none, some, ◌==◌, nat_eq, ltb, leb, ◌||◌,
  ◌+◌, ◌<◌, ◌≤◌, ◌≡◌, ◌++◌, length, ap, ap₂, sym, ◌∙◌, length-append, append_assoc, append-nil,
}
use hit_consistency.LogEntry.{LogEntry}
use hit_consistency.LogEntry.Meta.{MetaCodec, bytes_of}
use hit_consistency.ConfigurationManager.{ConfigurationManager}
use hit_consistency.EntryHeader.{RawPack, RawPackLaws, Checksums, ChecksumLaws, type_code}
use hit_consistency.Segment.{
  Segment, done, array_size, load_entry, payload_of, record_of, close_if_full, append,
}
use hit_consistency.Segment.Reads.{Fits, load_entry-header}
use hit_consistency.Segment.Writes.{
  AtEnd, after_write, length-record_of, written-file, written-AtEnd, append-written,
}
use hit_consistency.Segment.Loading.{Progress, next, load_round, load_loop}

module _ {P S : Type 0} (raw : RawPack) (sums : Checksums) (codec : MetaCodec P S) where
  -- The segment after all entries are appended, if every call gives the code 0.
  abbrev pub append_all : Segment → List (LogEntry P (List ℕ)) → Option Segment
  append_all s [] = some s
  append_all s (e ∷ es) = elim (append raw sums codec s e) [
    | none ↦ none
    | some (s', done) ↦ append_all s' es
    | some (s', other) ↦ none
  ]

  -- An entry that is no configuration, that `append` takes and whose numbers the header has room for.
  abbrev pub Plain : ℕ → LogEntry P (List ℕ) → Type 0
  Plain first_index e =
      (payload : List ℕ) × (payload_of raw sums codec e ≡ bytes_of payload)
      × Fits e.id.term e.id.index e.dependency payload
      × (first_index ≤ e.id.index)
      × (e.id.index < first_index + array_size)
      × ((type_code e.type == 3) ≡ false)

  abbrev pub AllPlain : ℕ → List (LogEntry P (List ℕ)) → Type 0
  AllPlain first_index [] = Unit {0}
  AllPlain first_index (e ∷ es) = Plain first_index e × AllPlain first_index es

-- An open segment that is not to be closed yet.
pub record Ready (s : Segment) : Type 0 where
  pub at_end : AtEnd s
  pub opened : s.is_open ≡ true
  pub can_write : s.writable ≡ true
  pub not_pending : s.pending_for_closing ≡ false

abbrev pub progress_of : {P : Type 0} → Segment → ConfigurationManager P → Progress P
progress_of s configurations = record {
  slots = s.slots;
  actual_last_index = s.last_index;
  entry_off = s.bytes;
  configurations = configurations;
}

module _ {P S : Type 0} (raw : RawPack) (sums : Checksums) (codec : MetaCodec P S)
    (rl : RawPackLaws raw) (cl : ChecksumLaws sums) where
  -- A round of the loop over the bytes of an entry does what writing them did.
  load_round-written :
      (s whole : Segment) (ready : Ready s) (e : LogEntry P (List ℕ))
      (plain : Plain raw sums codec s.first_index e) (tail : List ℕ) (i : ℕ)
      (configurations : ConfigurationManager P)
      → let w = after_write raw sums codec rl cl s ready.at_end e plain.0 in
        whole.first_index ≡ s.first_index
        → whole.readable ≡ true
        → whole.file ≡ w.file ++ tail
        → load_round raw sums codec whole i (progress_of s configurations)
          ≡ next (progress_of w configurations)
  unfolding load_round
  load_round-written s whole ready e (payload, hp, hf, h1, h2, ht) tail i configurations hfirst hr
        hfile =
      let w = after_write raw sums codec rl cl s ready.at_end e payload in
      let bytes = record_of raw sums codec s e payload in
      let long = length-record_of raw sums codec rl cl s ready.at_end e payload in
      let there : whole.file ≡ s.file ++ (bytes ++ tail) =
        hfile
        ∙ ap (λ l. l ++ tail) (written-file raw sums codec rl cl s ready.at_end e payload)
        ∙ append_assoc s.file bytes tail in
      let size : length whole.file ≡ s.bytes + (40 + length payload + length tail) = omega (
        arith,
        ap length there,
        length-append s.file (bytes ++ tail),
        length-append bytes tail,
        long,
        ready.at_end.bytes_end,
      ) in
      let more : leb (length whole.file) s.bytes ≡ false = ground (arith, size) in
      let header =
        load_entry-header raw sums rl cl whole s.checksum_type e.type e.id.term e.id.index
          e.dependency payload s.file tail hf hr there in
      let header' =
        ap (λ o. load_entry raw sums whole o false 40) ready.at_end.bytes_end ∙ header in
      let all : ltb (length whole.file) (s.bytes + (40 + length payload)) ≡ false =
        ground (arith, size) in
      let in_range : (ltb e.id.index whole.first_index
            || leb (whole.first_index + array_size) e.id.index)
          ≡ false =
        ground (arith, h1, h2, hfirst) in
      rw (more, header', all, ht, in_range, hfirst, long)

-- The segment with the entries, the file and the counts of another.
abbrev pub overwrite : Segment → Segment → Segment
overwrite s t = record s {
  slots = t.slots;
  last_index = t.last_index;
  valid_entries = t.valid_entries;
  bytes = t.bytes;
  file = t.file;
  position = t.position;
}

-- Appending the entries works, and loading the file goes through them.
pub record Replayed {P S : Type 0} (raw : RawPack) (sums : Checksums) (codec : MetaCodec P S)
    (s : Segment) (es : List (LogEntry P (List ℕ))) : Type 0 where
  pub after : Segment
  pub appended : append_all raw sums codec s es ≡ some after
  pub ready : Ready after
  pub framed : (x : Segment) → overwrite after x ≡ overwrite s x
  pub written_bytes : List ℕ
  pub file_after : after.file ≡ s.file ++ written_bytes
  pub loads :
      (whole : Segment) (tail : List ℕ) (fuel i : ℕ) (configurations : ConfigurationManager P)
      → whole.first_index ≡ s.first_index
      → whole.readable ≡ true
      → whole.file ≡ after.file ++ tail
      → load_loop raw sums codec whole (length es + fuel) i (progress_of s configurations)
        ≡ load_loop raw sums codec whole fuel (i + length es) (progress_of after configurations)

module _ {P S : Type 0} (raw : RawPack) (sums : Checksums) (codec : MetaCodec P S)
    (rl : RawPackLaws raw) (cl : ChecksumLaws sums) where
  pub next_round :
      (whole : Segment) (fuel i : ℕ) (p q : Progress P)
      → load_round raw sums codec whole i p ≡ next q
      → load_loop raw sums codec whole (suc fuel) i p
        ≡ load_loop raw sums codec whole fuel (i + 1) q
  unfolding load_loop
  next_round whole fuel i p q h = rw (load_loop, h)

  pub replay :
      (s : Segment) (es : List (LogEntry P (List ℕ)))
      → Ready s
      → AllPlain raw sums codec s.first_index es
      → Replayed raw sums codec s es
  replay s [] ready plain = record {
    after = s;
    appended = refl;
    ready = ready;
    framed = λ x. refl;
    written_bytes = [];
    file_after = sym (append-nil s.file);
    loads = λ whole tail fuel i configurations h1 h2 h3.
        ap₂ (λ f j. load_loop raw sums codec whole f j (progress_of s configurations)) (omega arith)
          (omega arith);
  }
  replay s (e ∷ es) ready (plain, plains) =
      let (payload, hp, hf, h1, h2, ht) = plain in
      let w = after_write raw sums codec rl cl s ready.at_end e payload in
      let ready_w : Ready w = record {
        at_end = written-AtEnd raw sums codec rl cl s ready.at_end e payload;
        opened = ready.opened;
        can_write = ready.can_write;
        not_pending = ready.not_pending;
      } in
      let more = replay w es ready_w plains in
      let not_closed : close_if_full w ≡ (w, done) = rw (ready.not_pending) in
      let one =
        append-written raw sums codec rl cl s ready.at_end e payload ready.opened ready.can_write h1
          h2 hp
        ∙ ap some not_closed in
      record {
        after = more.after;
        appended = rw (append_all, one) more.appended;
        ready = more.ready;
        framed = λ x. more.framed x;
        written_bytes = record_of raw sums codec s e payload ++ more.written_bytes;
        file_after =
            more.file_after
            ∙ ap (λ l. l ++ more.written_bytes)
                (written-file raw sums codec rl cl s ready.at_end e payload)
            ∙ append_assoc s.file (record_of raw sums codec s e payload) more.written_bytes;
        loads = λ whole tail fuel i configurations k1 k2 k3.
            let tail' = more.written_bytes ++ tail in
            let whole_file : whole.file ≡ w.file ++ tail' =
              k3
              ∙ ap (λ l. l ++ tail) more.file_after
              ∙ append_assoc w.file more.written_bytes tail in
            let round =
              load_round-written raw sums codec rl cl s whole ready e plain tail' i configurations
                k1 k2 whole_file in
            ap (λ f. load_loop raw sums codec whole f i (progress_of s configurations))
              (omega arith)
            ∙ next_round whole (length es + fuel) i (progress_of s configurations)
                (progress_of w configurations) round
            ∙ more.loads whole tail fuel (i + 1) configurations k1 k2 k3
            ∙ ap
                (λ j. load_loop raw sums codec whole fuel j (progress_of more.after configurations))
                (omega arith);
      }
