-- ===== src/Segment/Rounds.antt =====
-- Rounds of the loop of Segment::load at the end of what `append` has written.
use hit_consistency.Prelude.{
  Outcome, running, stopped, List, zero, suc, refl, arith, ℕ, Bool, true, false, some, ◌==◌, nat_eq,
  leb, ◌+◌, ◌<◌, ◌≤◌, ◌≡◌, ◌++◌, inl, inr, length, take, ap, sym, ◌∙◌, length-append, drop-append,
  take_past, take_short, length-take, Bool-cases,
}
use hit_consistency.LogEntry.Meta.{MetaCodec}
use hit_consistency.ConfigurationManager.{ConfigurationManager}
use hit_consistency.EntryHeader.{RawPack, RawPackLaws, Checksums, unpack_header}
use hit_consistency.Segment.{Segment, partial, deleted, load_entry, load_buffer, file_pread}
use hit_consistency.Segment.Writes.{AtEnd}
use hit_consistency.Segment.Loading.{Progress, Round, next, halt, load_round, load_loop}
use hit_consistency.Segment.Replay.{progress_of}

pread_end :
    (readable : Bool) (file pre tail : List ℕ) (size : ℕ)
    → readable ≡ true
    → file ≡ pre ++ tail
    → file_pread readable file (length pre) size ≡ some (take size tail)
unfolding file_pread
pread_end readable file pre tail size hr hf = rw (hr, hf, drop-append (length pre) pre tail refl)

module _ (raw : RawPack) (sums : Checksums) (rl : RawPackLaws raw) (s : Segment)
    (hr : s.readable ≡ true) (pre tail : List ℕ) (hf : s.file ≡ pre ++ tail) where
  load_entry-partial : length tail < 40 → load_entry raw sums s (length pre) false 40 ≡ partial
  unfolding load_entry
  load_entry-partial h =
      let short : (length tail == 40) ≡ false = ground (arith, h) in
      rw (
        pread_end s.readable s.file pre tail 40 hr hf,
        take_short 40 tail (omega (arith, h)),
        load_buffer,
        short,
      )

  load_entry-deleted :
      (rest : List ℕ)
      → tail ≡ raw.pack64 0 ++ rest
      → 32 ≤ length rest
      → load_entry raw sums s (length pre) false 40 ≡ deleted
  unfolding load_entry unpack_header
  load_entry-deleted rest ht h =
      let buf = raw.pack64 0 ++ take 32 rest in
      let read : take 40 tail ≡ buf =
        ap (take 40) ht ∙ take_past 40 32 (raw.pack64 0) rest (omega (arith, rl.length64 0)) in
      let whole : length buf ≡ 40 = omega (
        arith,
        length-append (raw.pack64 0) (take 32 rest),
        rl.length64 0,
        length-take 32 rest h,
      ) in
      let zero_term = rl.unpack_pack64 0 (take 32 rest) (omega arith) in
      rw (pread_end s.readable s.file pre tail 40 hr hf, read, load_buffer, whole, zero_term)

module _ {P S : Type 0} (raw : RawPack) (sums : Checksums) (codec : MetaCodec P S)
    (rl : RawPackLaws raw) (whole : Segment) (hr : whole.readable ≡ true) where
  abbrev continued : ℕ → ℕ → Round P → Outcome (Bool × Progress P)
  continued fuel i (next q) = load_loop raw sums codec whole fuel i q
  continued fuel i (halt outcome) = outcome

  load_loop-suc :
      (fuel i : ℕ) (p : Progress P)
      → load_loop raw sums codec whole (suc fuel) i p
        ≡ continued fuel (i + 1) (load_round raw sums codec whole i p)
  unfolding load_loop
  load_loop-suc fuel i p = elim (load_round raw sums codec whole i p) [
    | next q ↦ refl
    | halt outcome ↦ refl
  ]

  mono_step :
      (fuel more i : ℕ) (r : Round P)
      → ((q : Progress P)
          → load_loop raw sums codec whole (fuel + more) i q ≡ running
          → load_loop raw sums codec whole fuel i q ≡ running)
      → continued (fuel + more) i r ≡ running
      → continued fuel i r ≡ running
  mono_step fuel more i (next q) smaller h = smaller q h
  mono_step fuel more i (halt outcome) smaller h = h

  -- Less fuel than what is too little is too little.
  pub running_mono :
      (fuel more i : ℕ) (p : Progress P)
      → load_loop raw sums codec whole (fuel + more) i p ≡ running
      → load_loop raw sums codec whole fuel i p ≡ running
  unfolding load_loop
  running_mono zero more i p h = refl
  running_mono (suc fuel) more i p h =
      let more_fuel = load_loop-suc (fuel + more) i p in
      let more_suc : suc (fuel + more) ≡ suc fuel + more = omega arith in
      let h' = ap (λ n. load_loop raw sums codec whole n i p) more_suc ∙ h in
      load_loop-suc fuel i p
      ∙ mono_step fuel more (i + 1) (load_round raw sums codec whole i p)
          (λ q k. running_mono fuel more (i + 1) q k) (sym more_fuel ∙ h')

  pub stops_at_tail :
      (t : Segment) (at_end : AtEnd t) (tail : List ℕ) (i : ℕ)
      (configurations : ConfigurationManager P)
      → whole.file ≡ t.file ++ tail
      → length tail < 40
      → load_round raw sums codec whole i (progress_of t configurations)
        ≡ halt (stopped (true, progress_of t configurations))
  unfolding load_round
  stops_at_tail t at_end tail i configurations hf ht =
      elim (Bool-cases (leb (length whole.file) t.bytes)) [
        | inl h ↦ rw (h)
        | inr h ↦
            let torn =
              ap (λ o. load_entry raw sums whole o false 40) at_end.bytes_end
              ∙ load_entry-partial raw sums rl whole hr t.file tail hf ht in
            rw (h, torn)
      ]

  pub stays_at_deleted :
      (t : Segment) (at_end : AtEnd t) (rest : List ℕ) (i : ℕ)
      (configurations : ConfigurationManager P)
      → whole.file ≡ t.file ++ (raw.pack64 0 ++ rest)
      → 32 ≤ length rest
      → load_round raw sums codec whole i (progress_of t configurations)
        ≡ next (progress_of t configurations)
  unfolding load_round
  stays_at_deleted t at_end rest i configurations hf ht =
      let found =
        ap (λ o. load_entry raw sums whole o false 40) at_end.bytes_end
        ∙ load_entry-deleted raw sums rl whole hr t.file (raw.pack64 0 ++ rest) hf rest refl ht in
      let more : leb (length whole.file) t.bytes ≡ false = ground (
        arith,
        ap length hf,
        length-append t.file (raw.pack64 0 ++ rest),
        length-append (raw.pack64 0) rest,
        ht,
        at_end.bytes_end,
      ) in
      rw (more, found)

  pub last_round :
      (fuel i : ℕ) (p : Progress P) (outcome : Outcome (Bool × Progress P))
      → load_round raw sums codec whole i p ≡ halt outcome
      → load_loop raw sums codec whole (suc fuel) i p ≡ outcome
  last_round fuel i p outcome h = load_loop-suc fuel i p ∙ rw (h)

  pub never_ends :
      (fuel i : ℕ) (p : Progress P)
      → ((j : ℕ) → load_round raw sums codec whole j p ≡ next p)
      → load_loop raw sums codec whole fuel i p ≡ running
  unfolding load_loop
  never_ends zero i p h = refl
  never_ends (suc fuel) i p h = rw (load_loop, h i) (never_ends fuel (i + 1) p h)
