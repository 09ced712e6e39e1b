-- ===== src/Segment/Loading.antt =====
-- cpp/log.cc: Segment::load. Opening the file and reading its size succeed; truncating it succeeds as
-- `writable` says. The loop runs on fuel, since it need not end: `running` is out of fuel, `undefined`
-- an access out of range.
use hit_consistency.Prelude.{
  Outcome, running, undefined, stopped, [], List, ℕ, zero, suc, Bool, true, false, none, some, ◌==◌,
  nat_eq, if◌then◌else◌, ltb, leb, not, ◌&&◌, ◌||◌, ◌+◌, ◌-◌, length, take,
}
use hit_consistency.LogEntry.{LogEntry, unknown}
use hit_consistency.LogEntry.Meta.{MetaCodec, parse_configuration_meta}
use hit_consistency.ConfigurationManager.{ConfigurationManager, of_log_entry, add}
use hit_consistency.EntryHeader.{RawPack, Checksums, EntryHeader, entry_header_size}
use hit_consistency.Segment.{
  Slot, Segment, Code, done, failed, Loaded, partial, deleted, corrupted, loaded, array_size,
  set_slot, greater_index, load_entry,
}

-- The variables of the loop.
pub record Progress (P : Type 0) : Type 0 where
  pub slots : ℕ → Slot
  pub actual_last_index : ℕ
  pub entry_off : ℕ
  pub configurations : ConfigurationManager P

-- One round: what the next one starts with, or the outcome, with whether `ret` is 0.
pub data Round (P : Type 0) : Type 0 where
  next : Progress P → Round P
  halt : Outcome (Bool × Progress P) → Round P

module _ {P S : Type 0} (raw : RawPack) (sums : Checksums) (codec : MetaCodec P S)
    (s : Segment) where
  abbrev pub take_slot : Progress P → EntryHeader → Round P
  take_slot p h =
      let end_off = p.entry_off + (entry_header_size + h.data_len) in
      if ltb h.index s.first_index || leb (s.first_index + array_size) h.index
      then halt undefined
      else next (record p {
        slots =
            set_slot p.slots (h.index - s.first_index)
              (record { offset = p.entry_off; term = h.term; end_offset = end_off });
        actual_last_index = greater_index p.actual_last_index h.index;
        entry_off = end_off;
      })

  -- A configuration goes to the configuration manager under the number `i` of the round.
  abbrev pub load_configuration : ℕ → Progress P → EntryHeader → Loaded → Round P
  load_configuration i p h (loaded again payload) =
      let fresh : LogEntry P (List ℕ) = record {
        type = unknown;
        id = record { index = i; term = h.term };
        dependency = 0;
        peers = none;
        old_peers = none;
        payload = [];
      } in
      elim (parse_configuration_meta codec payload fresh) [
        | none ↦ halt (stopped (false, p))
        | some entry ↦
            take_slot (record p { configurations = (add p.configurations (of_log_entry entry)).0 })
              h
      ]
  load_configuration i p h other = halt (stopped (true, p))

  abbrev pub after_header : ℕ → Progress P → Loaded → Round P
  after_header i p partial = halt (stopped (true, p))
  after_header i p deleted = next p
  after_header i p corrupted = halt (stopped (false, p))
  after_header i p (loaded h payload) =
      let skip_len = entry_header_size + h.data_len in
      if ltb (length s.file) (p.entry_off + skip_len)
      then halt (stopped (true, p))
      else if h.type == 3
      then load_configuration i p h (load_entry raw sums s p.entry_off true skip_len)
      else take_slot p h

  unfoldable pub load_round : ℕ → Progress P → Round P
  load_round i p =
      if leb (length s.file) p.entry_off
      then halt (stopped (true, p))
      else after_header i p (load_entry raw sums s p.entry_off false entry_header_size)

  unfoldable pub load_loop : ℕ → ℕ → Progress P → Outcome (Bool × Progress P)
  load_loop zero i p = running
  load_loop (suc fuel) i p = elim (load_round i p) [
    | next q ↦ load_loop fuel (i + 1) q
    | halt outcome ↦ outcome
  ]

  -- What follows the loop.
  abbrev pub finish_load : Bool → Progress P → Segment × ConfigurationManager P × Code
  finish_load ok p =
      let found = ok && not (not s.is_open && ltb p.actual_last_index s.last_index) in
      let torn = found && not (p.entry_off == length s.file) in
      (
        record s {
          slots = p.slots;
          last_index = if s.is_open then p.actual_last_index else s.last_index;
          file = if torn && s.writable then take p.entry_off s.file else s.file;
          position = p.entry_off;
          bytes = p.entry_off;
        },
        p.configurations,
        if found && (not torn || s.writable) then done else failed,
      )

  unfoldable pub load :
      ℕ → ConfigurationManager P → Outcome (Segment × ConfigurationManager P × Code)
  load fuel configurations =
      elim (load_loop fuel s.first_index (record {
        slots = s.slots;
        actual_last_index = s.first_index - 1;
        entry_off = 0;
        configurations = configurations;
      })) [
        | running ↦ running
        | undefined ↦ undefined
        | stopped (ok, p) ↦ stopped (finish_load ok p)
      ]
