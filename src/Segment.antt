-- ===== src/Segment.antt =====
-- cpp/log.h and cpp/log.cc: a segment file, with the entries in the order in which they came. `slots`
-- is the two arrays of offsets and terms by index; an offset of -1 stands only with the term 0 and is
-- never read. Files: opening one succeeds, a read or a write succeeds or fails as `readable` and
-- `writable` say, and a failed write writes nothing. The first index of a segment is above 0. Indexing an array out of range and following a
-- null pointer is `none`. A number that is no entry type reads as `unknown`.
pub mod Loading
pub mod Reads
pub mod Stored
pub mod Writes
pub mod Replay
pub mod Rounds
pub mod Recovery
pub mod Truncation
use hit_consistency.Prelude.{
  [], ◌∷◌, List, ℕ, zero, suc, Bool, true, false, not, ◌&&◌, ◌||◌, Option, none, some, ◌==◌, nat_eq,
  if◌then◌else◌, ltb, leb, ◌+◌, ◌-◌, ◌++◌, length, take, drop,
}
use hit_consistency.Prelude.{ℤ, pos, negsuc, sub_ℕ, ◌-ℤ◌}
use hit_consistency.LogEntry.{LogEntry, EntryType, unknown, no_op, data_entry, configuration, o3}
use hit_consistency.LogEntry.Meta.{
  MetaCodec, Serialized, bytes_of, unserializable, peers_missing, serialize_configuration_meta,
  parse_configuration_meta,
}
use hit_consistency.EntryHeader.{
  RawPack, Checksums, ChecksumType, EntryHeader, entry_header_size, verify_checksum, pack_header,
  unpack_header, header_checksum,
}

pub record Slot : Type 0 where
  pub offset : ℕ
  pub term : ℕ
  pub end_offset : ℕ

pub record Segment : Type 0 where
  pub first_index : ℕ
  pub last_index : ℕ
  pub valid_entries : ℤ
  pub bytes : ℕ
  pub checksum_type : ChecksumType
  pub is_open : Bool
  pub pending_for_closing : Bool
  pub slots : ℕ → Slot
  pub file : List ℕ
  pub position : ℕ
  pub readable : Bool
  pub writable : Bool
  pub raft_sync : Bool
  pub sync_segments : Bool
  pub fsyncs : Bool
  pub renames : Bool

-- 0, EINVAL and -1.
pub data Code : Type 0 where
  done invalid failed : Code

-- The codes of `_load_entry`: 1, -2, -1, and 0 with the header and the payload if it was asked for.
pub data Loaded : Type 0 where
  partial deleted corrupted : Loaded
  loaded : EntryHeader → List ℕ → Loaded

abbrev pub array_size : ℕ
array_size = 1000000

abbrev pub no_slot : Slot
no_slot = record { offset = 0; term = 0; end_offset = 0 }

abbrev pub set_slot : (ℕ → Slot) → ℕ → Slot → ℕ → Slot
set_slot slots k slot j = if j == k then slot else slots j

-- file_pread and file_pwrite of cpp/util.cc, and a write at the position of the file.
unfoldable pub file_pread : Bool → List ℕ → ℕ → ℕ → Option (List ℕ)
file_pread readable file offset size =
    if readable then some (take size (drop offset file)) else none

unfoldable pub file_pwrite : Bool → List ℕ → ℕ → List ℕ → List ℕ
file_pwrite writable file offset piece =
    if writable then take offset file ++ (piece ++ drop (offset + length piece) file) else file

abbrev pub new : ℕ → ChecksumType → Segment
new first_index checksum_type = record {
  first_index = first_index;
  last_index = first_index - 1;
  valid_entries = pos 0;
  bytes = 0;
  checksum_type = checksum_type;
  is_open = true;
  pending_for_closing = false;
  slots = λ k. no_slot;
  file = [];
  position = 0;
  readable = true;
  writable = true;
  raft_sync = true;
  sync_segments = false;
  fsyncs = true;
  renames = true;
}

abbrev pub greater_index : ℕ → ℕ → ℕ
greater_index a b = if ltb a b then b else a

abbrev is_zero : ℤ → Bool
is_zero (pos n) = n == 0
is_zero (negsuc n) = false

unfoldable pub is_fullfilled : Segment → Bool
unfolding ◌-ℤ◌
is_fullfilled s = is_zero (sub_ℕ (s.last_index + 1) s.first_index -ℤ s.valid_entries)

unfoldable pub sync : Segment → Bool → Code
sync s will_sync =
    if ltb s.first_index s.last_index && (s.raft_sync && will_sync) && not s.fsyncs
    then failed
    else done

unfoldable pub prepare_to_close : Segment → Segment
prepare_to_close s = record s { pending_for_closing = true }

unfoldable pub close : Segment → Bool → Segment × Code
close s will_sync =
    if ltb s.first_index s.last_index && (s.sync_segments && will_sync) && not s.fsyncs
    then (s, failed)
    else (
      record s { is_open = false; pending_for_closing = false },
      if s.renames then done else failed,
    )

-- The end of `append`.
abbrev pub close_if_full : Segment → Segment × Code
close_if_full s = if s.pending_for_closing && is_fullfilled s then close s true else (s, done)

-- _get_meta, as the slot of the index.
unfoldable pub get_meta : Segment → ℕ → Option Slot
get_meta s index =
    if ltb s.last_index index || ltb index s.first_index
    then none
    else if s.last_index + 1 == s.first_index
    then none
    else if (s.slots (index - s.first_index)).term == 0
    then none
    else some (s.slots (index - s.first_index))

unfoldable pub get_term : Segment → ℕ → ℕ
unfolding get_meta
get_term s index = elim (get_meta s index) [ none ↦ 0 | some slot ↦ slot.term ]

abbrev pub type_of : ℕ → EntryType
type_of n =
    if n == 1
    then no_op
    else if n == 2
    then data_entry
    else if n == 3
    then configuration
    else if n == 4
    then o3
    else unknown

module _ (raw : RawPack) (sums : Checksums) where
  abbrev pub verified : EntryHeader → List ℕ → Loaded
  verified h payload =
      if verify_checksum sums h.checksum_type payload h.data_checksum
      then loaded h payload
      else corrupted

  -- The read of what the first one has not got.
  abbrev pub load_rest : EntryHeader → List ℕ → ℕ → Option (List ℕ) → Loaded
  load_rest h buf to_read none = corrupted
  load_rest h buf to_read (some more) =
      if length more == to_read then verified h (drop entry_header_size (buf ++ more)) else partial

  abbrev pub load_payload : Segment → ℕ → EntryHeader → List ℕ → Loaded
  load_payload s offset h buf =
      let size = entry_header_size + h.data_len in
      let to_read = size - length buf in
      if ltb (length buf) size
      then load_rest h buf to_read (file_pread s.readable s.file (offset + length buf) to_read)
      else verified h (drop entry_header_size (take size buf))

  abbrev pub load_buffer : Segment → ℕ → Bool → ℕ → Option (List ℕ) → Loaded
  load_buffer s offset with_payload to_read none = corrupted
  load_buffer s offset with_payload to_read (some buf) =
      let h = unpack_header raw buf in
      if not (length buf == to_read)
      then partial
      else if h.term == 0
      then deleted
      else if not (verify_checksum sums h.checksum_type (take 36 buf) (header_checksum raw buf))
      then corrupted
      else if with_payload
      then load_payload s offset h buf
      else loaded h []

  -- _load_entry, with the payload or without it.
  unfoldable pub load_entry : Segment → ℕ → Bool → ℕ → Loaded
  load_entry s offset with_payload size_hint =
      let to_read = if ltb size_hint entry_header_size then entry_header_size else size_hint in
      load_buffer s offset with_payload to_read (file_pread s.readable s.file offset to_read)

  module _ {P S : Type 0} (codec : MetaCodec P S) where
    -- The payload that `append` writes: `unserializable` is the code -1.
    unfoldable pub payload_of : LogEntry P (List ℕ) → Serialized
    payload_of entry = elim entry.type [
      | data_entry ↦ bytes_of entry.payload
      | no_op ↦ bytes_of []
      | configuration ↦ serialize_configuration_meta codec entry
      | other ↦ unserializable
    ]

    abbrev pub record_of : Segment → LogEntry P (List ℕ) → List ℕ → List ℕ
    record_of s entry payload =
        pack_header raw sums s.checksum_type entry.type entry.id.term entry.id.index
          entry.dependency payload
        ++ payload

    -- The segment after the bytes of an entry are written.
    abbrev pub written : Segment → LogEntry P (List ℕ) → List ℕ → Segment
    written s entry bytes = record s {
      file = file_pwrite true s.file s.position bytes;
      position = s.position + length bytes;
      slots =
          set_slot s.slots (entry.id.index - s.first_index) (record {
            offset = s.bytes;
            term = entry.id.term;
            end_offset = s.bytes + length bytes;
          });
      last_index = greater_index s.last_index entry.id.index;
      valid_entries = s.valid_entries -ℤ negsuc 0;
      bytes = s.bytes + length bytes;
    }

    abbrev pub append_payload : Segment → LogEntry P (List ℕ) → Serialized → Option (Segment × Code)
    append_payload s entry unserializable = some (s, failed)
    append_payload s entry peers_missing = none
    append_payload s entry (bytes_of payload) =
        if not s.writable
        then some (s, failed)
        else if ltb entry.id.index s.first_index || leb (s.first_index + array_size) entry.id.index
        then none
        else some (close_if_full (written s entry (record_of s entry payload)))

    unfoldable pub append : Segment → LogEntry P (List ℕ) → Option (Segment × Code)
    unfolding payload_of
    append s entry =
        if not s.is_open then some (s, invalid) else append_payload s entry (payload_of entry)

    -- The entry that `get` makes of what it has read; `none` if the peers cannot be parsed.
    abbrev pub entry_of : ℕ → EntryHeader → List ℕ → Option (LogEntry P (List ℕ))
    entry_of index h payload =
        let entry : LogEntry P (List ℕ) = record {
          type = type_of h.type;
          id = record { index = index; term = h.term };
          dependency = h.dependency;
          peers = none;
          old_peers = none;
          payload = [];
        } in
        if h.type == 2
        then some (record entry { payload = payload })
        else if h.type == 3
        then parse_configuration_meta codec payload entry
        else some entry

    abbrev pub got : ℕ → Loaded → Option (LogEntry P (List ℕ))
    got index (loaded h payload) = entry_of index h payload
    got index other = none

    -- `none` is the null pointer.
    unfoldable pub get : Segment → ℕ → Option (LogEntry P (List ℕ))
    get s index = elim (get_meta s index) [
      | none ↦ none
      | some slot ↦ got index (load_entry s slot.offset true (slot.end_offset - slot.offset))
    ]

module _ (raw : RawPack) where
  -- The loop of `truncate`, which writes the term 0 over the entries from the index `i` on.
  unfoldable pub truncate_loop : ℕ → ℕ → Segment → Segment
  truncate_loop zero i s = s
  truncate_loop (suc n) i s =
      let slot = s.slots (i - s.first_index) in
      truncate_loop n (i + 1) (
        if slot.term == 0 then s else record s {
          file = file_pwrite s.writable s.file slot.offset (raw.pack64 0);
          valid_entries = s.valid_entries -ℤ pos 1;
          slots = set_slot s.slots (i - s.first_index) (record slot { term = 0 });
        })

  unfoldable pub truncate : Segment → ℕ → Option (Segment × Code)
  unfolding truncate_loop
  truncate s last_index_kept =
      let cut = truncate_loop (s.last_index - last_index_kept) (last_index_kept + 1) s in
      if leb s.last_index last_index_kept
      then some (s, done)
      else if ltb (last_index_kept + 1) s.first_index
      then none
      else some (
        record cut { is_open = true; last_index = last_index_kept },
        if s.is_open || s.renames then done else failed,
      )
