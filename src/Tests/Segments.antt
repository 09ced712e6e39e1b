-- ===== src/Tests/Segments.antt =====
-- A segment file at concrete inputs, with numbers in big-endian order.
use hit_consistency.Prelude.{
  running, stopped, [], ◌∷◌, List, refl, arith, ℕ, true, false, none, some, ◌+◌, ◌*◌, ◌/◌, ◌%◌, ◌^◌,
  ◌<◌, ◌≡◌, ◌++◌, length, take, drop, ap, ap₂, ◌∙◌, subst, pos, ◌-ℤ◌, replicate, take-append,
  drop-append,
}
use hit_consistency.LogEntry.{LogEntry, data_entry, configuration}
use hit_consistency.LogEntry.Meta.{MetaCodec, MetaCodecLaws}
use hit_consistency.EntryHeader.{
  RawPack, RawPackLaws, Checksums, ChecksumLaws, by_crc32, checksum_code, pack_header,
  unpack_header, verify_checksum, header_checksum, get_checksum,
}
use hit_consistency.LogEntry.Meta.{
  parse_configuration_meta, serialize_configuration_meta, parse-serialize,
}
use hit_consistency.EntryHeader.Codec.{header_of}
use hit_consistency.EntryHeader.RoundTrip.{unpack-pack_header}
use hit_consistency.ConfigurationManager.{ConfigurationManager}
use hit_consistency.Segment.{
  is_fullfilled, written, record_of, load_entry, file_pread, file_pwrite, Segment, Code, done, new,
  append, get, get_term, truncate, truncate_loop, payload_of,
}
use hit_consistency.Segment.Stored.{Stored, get-Stored}
use hit_consistency.Segment.Writes.{AtEnd, Appended, append-Stored}
use hit_consistency.Segment.Loading.{load, load_loop, load_round}
use hit_consistency.Segment.Replay.{append_all, AllPlain}
use hit_consistency.Segment.Recovery.{load-append_all, load-deleted, left_with}
use hit_consistency.Segment.Truncation.{get_term-truncate}

abbrev big_endian32 : ℕ → List ℕ
big_endian32 n = n / 2 ^ 24 % 256 ∷ (n / 2 ^ 16 % 256 ∷ (n / 2 ^ 8 % 256 ∷ (n % 256 ∷ [])))

abbrev from_big_endian32 : List ℕ → ℕ
from_big_endian32 (a ∷ (b ∷ (c ∷ (d ∷ rest)))) = a * 2 ^ 24 + b * 2 ^ 16 + c * 2 ^ 8 + d
from_big_endian32 other = 0

abbrev pub raw : RawPack
raw = record {
  pack64 = λ n. big_endian32 (n / 2 ^ 32) ++ big_endian32 (n % 2 ^ 32);
  pack32 = big_endian32;
  unpack64 = λ l. from_big_endian32 l * 2 ^ 32 + from_big_endian32 (drop 4 l);
  unpack32 = from_big_endian32;
}

back32 :
    (n : ℕ)
    → n < 2 ^ 32
    → n / 2 ^ 24 % 256 * 2 ^ 24 + n / 2 ^ 16 % 256 * 2 ^ 16 + n / 2 ^ 8 % 256 * 2 ^ 8 + n % 256 ≡ n
back32 n h = omega (arith, h)

raw-laws : RawPackLaws raw
raw-laws = record {
  length64 = λ n. refl;
  length32 = λ n. refl;
  unpack_pack64 = λ n rest h.
      ap₂ (λ a b. a * 2 ^ 32 + b) (back32 (n / 2 ^ 32) (omega (arith, h)))
        (back32 (n % 2 ^ 32) (omega arith))
      ∙ omega arith;
  unpack_pack32 = λ n rest h. back32 n h;
}

abbrev pub sums : Checksums
sums = record {
  murmurhash32 = λ bytes. length bytes % 2 ^ 32;
  crc32 = λ bytes. length bytes * 3 % 2 ^ 32;
}

sums-laws : ChecksumLaws sums
sums-laws = record { murmurhash32_bound = λ bytes. omega arith; crc32_bound = λ bytes. omega arith }

-- Peers are numbers, which are their own texts.
abbrev pub codec : MetaCodec ℕ ℕ
codec = record {
  to_string = λ n. n;
  of_string = λ n. n;
  serialize = λ peers old_peers. some (length peers ∷ (peers ++ old_peers));
  parse = λ bytes. elim bytes [ [] ↦ none | n ∷ ns ↦ some (take n ns, drop n ns) ];
}

codec-laws : MetaCodecLaws codec
codec-laws = record {
  of_to_string = λ p. refl;
  parse_serialize = λ peers old_peers bytes h.
      let same : length peers ∷ (peers ++ old_peers) ≡ bytes =
        ap (λ o. elim o [ none ↦ [] | some b ↦ b ]) h in
      subst (λ b. codec.parse b ≡ some (peers, old_peers)) same
        (ap₂ (λ a b. some (a, b)) (take-append (length peers) peers old_peers refl)
          (drop-append (length peers) peers old_peers refl));
}

abbrev pub entry_at : ℕ → ℕ → List ℕ → LogEntry ℕ (List ℕ)
entry_at index term payload = record {
  type = data_entry;
  id = record { index = index; term = term };
  dependency = 1;
  peers = none;
  old_peers = none;
  payload = payload;
}

abbrev members : LogEntry ℕ (List ℕ)
members = record {
  type = configuration;
  id = record { index = 6; term = 2 };
  dependency = 0;
  peers = some (1 ∷ 2 ∷ 3 ∷ []);
  old_peers = some [];
  payload = [];
}

abbrev empty : Segment
empty = new 5 by_crc32

parse-serialize_example :
    parse_configuration_meta codec (3 ∷ 1 ∷ 2 ∷ 3 ∷ []) (entry_at 6 2 [])
    ≡ some (record (entry_at 6 2 []) { peers = some (1 ∷ 2 ∷ 3 ∷ []); old_peers = none })
unfolding serialize_configuration_meta
parse-serialize_example =
    parse-serialize codec codec-laws members (entry_at 6 2 []) (1 ∷ 2 ∷ 3 ∷ []) (3 ∷ 1 ∷ 2 ∷ 3 ∷ [])
      refl refl refl

unpack-pack_header_example :
    let p = pack_header raw sums by_crc32 data_entry 3 7 1 (9 ∷ 8 ∷ []) ++ (9 ∷ 8 ∷ []) in
    (unpack_header raw p ≡ header_of sums by_crc32 data_entry 3 7 1 (9 ∷ 8 ∷ []))
    × (verify_checksum sums (checksum_code by_crc32) (take 36 p) (header_checksum raw p) ≡ true)
unpack-pack_header_example =
    unpack-pack_header raw sums raw-laws sums-laws by_crc32 data_entry 3 7 1 (9 ∷ 8 ∷ [])
      (9 ∷ 8 ∷ []) (omega arith) (omega arith) (omega arith) (omega arith)

abbrev empty_at_end : AtEnd empty
empty_at_end = record { position_end = refl; bytes_end = refl }

append-Stored_example :
    (s' : Segment) × (c : Code) × (append raw sums codec empty (entry_at 7 3 (9 ∷ 8 ∷ []))
      ≡ some (s', c))
    × Appended raw sums codec raw-laws sums-laws empty (entry_at 7 3 (9 ∷ 8 ∷ [])) s'
unfolding payload_of
append-Stored_example =
    append-Stored raw sums codec raw-laws sums-laws empty (entry_at 7 3 (9 ∷ 8 ∷ [])) (9 ∷ 8 ∷ [])
      empty_at_end refl refl (omega arith) (omega arith) refl
      (omega arith, omega arith, omega arith, omega arith, omega arith)

-- Two entries, the later one first.
abbrev two_entries : List (LogEntry ℕ (List ℕ))
two_entries = entry_at 7 3 (9 ∷ 8 ∷ []) ∷ (entry_at 5 3 (4 ∷ []) ∷ [])

two_plain : AllPlain raw sums codec 5 two_entries
unfolding payload_of
two_plain = (
  (
    9 ∷ 8 ∷ [],
    refl,
    (omega arith, omega arith, omega arith, omega arith, omega arith),
    omega arith,
    omega arith,
    refl,
  ),
  (
    (
      4 ∷ [],
      refl,
      (omega arith, omega arith, omega arith, omega arith, omega arith),
      omega arith,
      omega arith,
      refl,
    ),
    tt,
  ),
)

load-append_all_example :
    (s : Segment) × (append_all raw sums codec empty two_entries ≡ some s)
    × ((fuel : ℕ) (configurations : ConfigurationManager ℕ)
        → 2 < fuel
        → load raw sums codec (left_with 5 by_crc32 s (0 ∷ 0 ∷ [])) fuel configurations
          ≡ stopped (record s { valid_entries = pos 0 }, configurations, done))
load-append_all_example =
    load-append_all raw sums codec raw-laws sums-laws 5 by_crc32 two_entries (0 ∷ 0 ∷ []) two_plain
      (omega arith)

load-deleted_example :
    (s : Segment) × (append_all raw sums codec empty two_entries ≡ some s)
    × ((fuel : ℕ) (configurations : ConfigurationManager ℕ)
        → load raw sums codec
            (left_with 5 by_crc32 s (raw.pack64 0 ++ replicate 32 1))
            fuel
            configurations
          ≡ running)
load-deleted_example =
    load-deleted raw sums codec raw-laws sums-laws 5 by_crc32 two_entries (replicate 32 1) two_plain
      (omega arith)

abbrev late : LogEntry ℕ (List ℕ)
late = entry_at 7 3 (9 ∷ 8 ∷ [])

abbrev with_late : Segment
with_late = written raw sums codec empty late (record_of raw sums codec empty late (9 ∷ 8 ∷ []))

late-Stored : Stored raw sums codec with_late late
unfolding payload_of pack_header file_pwrite
late-Stored = record {
  payload = 9 ∷ 8 ∷ [];
  before = [];
  after = [];
  has_payload = refl;
  fits = (omega arith, omega arith, omega arith, omega arith, omega arith);
  in_file = refl;
  has_slot = refl;
  from_first = omega arith;
  to_last = omega arith;
}

get-Stored_example : get raw sums codec with_late 7 ≡ some late
get-Stored_example =
    get-Stored raw sums codec raw-laws sums-laws codec-laws with_late late refl late-Stored

-- Both entries, and the first index cut off.
abbrev with_both : Segment
with_both =
    written raw sums codec with_late (entry_at 5 3 (4 ∷ []))
      (record_of raw sums codec with_late (entry_at 5 3 (4 ∷ [])) (4 ∷ []))

abbrev cut_to_5 : Segment
cut_to_5 = record (truncate_loop raw 2 6 with_both) { is_open = true; last_index = 5 }

get_term-truncate_example : get_term cut_to_5 5 ≡ get_term with_both 5
unfolding truncate truncate_loop
get_term-truncate_example = get_term-truncate raw with_both cut_to_5 done 5 5 refl

-- A truncated file is not loaded, and the entries of a loaded file are not counted.
abbrev fresh_history : ConfigurationManager ℕ
fresh_history = record {
  configurations = [];
  snapshot = record { id = record { index = 0; term = 0 }; conf = []; old_conf = [] };
}

not_loaded :
    load raw sums codec (record (new 5 by_crc32) { file = cut_to_5.file }) 20 fresh_history
    ≡ running
unfolding load load_loop load_round load_entry unpack_header truncate_loop pack_header file_pwrite
    file_pread verify_checksum get_checksum
not_loaded = refl

fullfilled_before : is_fullfilled with_late ≡ false
unfolding is_fullfilled ◌-ℤ◌
fullfilled_before = refl
