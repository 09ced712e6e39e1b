-- ===== src/Segment/Stored.antt =====
-- The entries that a segment file holds, as `get` reads them.
use hit_consistency.Prelude.{
  [], List, refl, arith, ℕ, true, Option, none, some, nat_eq, ◌+◌, ◌-◌, ◌<◌, ◌≤◌, ◌≡◌, ◌++◌, length,
}
use hit_consistency.LogEntry.{
  LogEntry, LogId, EntryType, unknown, no_op, data_entry, configuration, o3,
}
use hit_consistency.LogEntry.Meta.{
  MetaCodec, MetaCodecLaws, bytes_of, normal, serialize_configuration_meta, parse-serialize,
}
use hit_consistency.EntryHeader.{RawPack, RawPackLaws, Checksums, ChecksumLaws}
use hit_consistency.EntryHeader.Codec.{header_of}
use hit_consistency.Segment.{Slot, Segment, get, get_meta, entry_of, payload_of, record_of}
use hit_consistency.Segment.Reads.{Fits, load_entry-payload}

-- What is read back of an entry: the payload of data only, the peers of a configuration only.
abbrev pub as_read : {P : Type 0} → LogEntry P (List ℕ) → LogEntry P (List ℕ)
as_read entry = elim entry.type [
  | data_entry ↦ record entry { peers = none; old_peers = none }
  | configuration ↦ record entry { old_peers = normal entry.old_peers; payload = [] }
  | other ↦ record entry { peers = none; old_peers = none; payload = [] }
]

module _ {P S : Type 0} (codec : MetaCodec P S) (laws : MetaCodecLaws codec) (raw : RawPack)
    (sums : Checksums) where
  abbrev ReadsBack : Segment → LogEntry P (List ℕ) → List ℕ → Type 0
  ReadsBack s entry payload =
      entry_of raw sums codec entry.id.index
        (header_of sums s.checksum_type entry.type entry.id.term entry.id.index entry.dependency
          payload)
        payload
      ≡ some (as_read entry)

  read_back_type :
      (t : EntryType) (peers old_peers : Option (List P)) (id : LogId) (dependency : ℕ)
      (written payload : List ℕ) (s : Segment)
      → let entry : LogEntry P (List ℕ) = record {
        type = t;
        id = id;
        dependency = dependency;
        peers = peers;
        old_peers = old_peers;
        payload = written;
      } in
        payload_of raw sums codec entry ≡ bytes_of payload → ReadsBack s entry payload
  unfolding payload_of serialize_configuration_meta
  read_back_type unknown peers old_peers id dependency written payload s h = absurd (cc)
  read_back_type o3 peers old_peers id dependency written payload s h = absurd (cc)
  read_back_type no_op peers old_peers id dependency written payload s h = refl
  read_back_type data_entry peers old_peers id dependency written payload s h =
      let e : payload ≡ written = cc in rw (e)
  read_back_type configuration none old_peers id dependency written payload s h = absurd (cc)
  read_back_type configuration (some ps) old_peers id dependency written payload s h =
      let entry : LogEntry P (List ℕ) = record {
        type = configuration;
        id = id;
        dependency = dependency;
        peers = some ps;
        old_peers = old_peers;
        payload = written;
      } in
      let fresh : LogEntry P (List ℕ) = record {
        type = configuration;
        id = id;
        dependency = dependency;
        peers = none;
        old_peers = none;
        payload = [];
      } in
      parse-serialize codec laws entry fresh ps payload refl refl h

  pub read_back :
      (s : Segment) (entry : LogEntry P (List ℕ)) (payload : List ℕ)
      → payload_of raw sums codec entry ≡ bytes_of payload
      → ReadsBack s entry payload
  read_back s entry payload h =
      read_back_type entry.type entry.peers entry.old_peers entry.id entry.dependency entry.payload
        payload s h

get_meta_lem :
    (s : Segment) (index : ℕ) (slot : Slot)
    → s.first_index ≤ index
    → index ≤ s.last_index
    → s.slots (index - s.first_index) ≡ slot
    → 0 < slot.term
    → get_meta s index ≡ some slot
unfolding get_meta
get_meta_lem s index slot h1 h2 hs ht = rw (hs) (ground (arith))

-- The file holds the entry, and its slot says where.
pub record Stored {P S : Type 0} (raw : RawPack) (sums : Checksums) (codec : MetaCodec P S)
    (s : Segment) (entry : LogEntry P (List ℕ)) : Type 0 where
  pub payload : List ℕ
  pub before : List ℕ
  pub after : List ℕ
  pub has_payload : payload_of raw sums codec entry ≡ bytes_of payload
  pub fits : Fits entry.id.term entry.id.index entry.dependency payload
  pub in_file : s.file ≡ before ++ (record_of raw sums codec s entry payload ++ after)
  pub has_slot : s.slots (entry.id.index - s.first_index) ≡ record {
    offset = length before;
    term = entry.id.term;
    end_offset = length before + (40 + length payload);
  }
  pub from_first : s.first_index ≤ entry.id.index
  pub to_last : entry.id.index ≤ s.last_index

module _ {P S : Type 0} (raw : RawPack) (sums : Checksums) (codec : MetaCodec P S)
    (rl : RawPackLaws raw) (cl : ChecksumLaws sums) (laws : MetaCodecLaws codec) where
  -- From a segment whose file can be read, `get` gives an entry that the file holds, without the
  -- fields that its type does not have.
  pub get-Stored :
      (s : Segment) (entry : LogEntry P (List ℕ))
      → s.readable ≡ true
      → Stored raw sums codec s entry
      → get raw sums codec s entry.id.index ≡ some (as_read entry)
  unfolding get
  get-Stored s entry hr stored =
      let slot : Slot = record {
        offset = length stored.before;
        term = entry.id.term;
        end_offset = length stored.before + (40 + length stored.payload);
      } in
      let found =
        get_meta_lem s entry.id.index slot stored.from_first stored.to_last stored.has_slot
          stored.fits.0 in
      let size : length stored.before + (40 + length stored.payload) - length stored.before
          ≡ 40 + length stored.payload =
        omega arith in
      let read =
        load_entry-payload raw sums rl cl s s.checksum_type entry.type entry.id.term entry.id.index
          entry.dependency stored.payload stored.before stored.after stored.fits hr
          stored.in_file in
      rw (get, found, size, read)
        (read_back codec laws raw sums s entry stored.payload stored.has_payload)
