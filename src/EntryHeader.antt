-- ===== src/EntryHeader.antt =====
-- cpp/log.cc: the header of an entry in a segment file. butil's RawPacker and RawUnpacker and the two
-- checksum functions of butil are parameters. A byte is a number.
pub mod Codec
pub mod RoundTrip
use hit_consistency.Prelude.{
  [], ◌∷◌, List, ℕ, Bool, true, false, ◌==◌, nat_eq, if◌then◌else◌, ◌+◌, ◌*◌, ◌/◌, ◌%◌, ◌^◌, ◌<◌,
  ◌≡◌, ◌++◌, length, take, drop,
}
use Prim.Native.Nat.{bit_or}
use hit_consistency.LogEntry.{EntryType, unknown, no_op, data_entry, configuration, o3}

-- The bytes of a number, and the number that the first bytes give.
pub record RawPack : Type 0 where
  pub pack64 : ℕ → List ℕ
  pub pack32 : ℕ → List ℕ
  pub unpack64 : List ℕ → ℕ
  pub unpack32 : List ℕ → ℕ

pub record RawPackLaws (raw : RawPack) : Type 0 where
  pub length64 : (n : ℕ) → length (raw.pack64 n) ≡ 8
  pub length32 : (n : ℕ) → length (raw.pack32 n) ≡ 4
  pub unpack_pack64 : (n : ℕ) (rest : List ℕ) → n < 2 ^ 64 → raw.unpack64 (raw.pack64 n ++ rest) ≡ n
  pub unpack_pack32 : (n : ℕ) (rest : List ℕ) → n < 2 ^ 32 → raw.unpack32 (raw.pack32 n ++ rest) ≡ n

pub record Checksums : Type 0 where
  pub murmurhash32 : List ℕ → ℕ
  pub crc32 : List ℕ → ℕ

pub record ChecksumLaws (sums : Checksums) : Type 0 where
  pub murmurhash32_bound : (bytes : List ℕ) → sums.murmurhash32 bytes < 2 ^ 32
  pub crc32_bound : (bytes : List ℕ) → sums.crc32 bytes < 2 ^ 32

pub data ChecksumType : Type 0 where
  by_murmurhash32 by_crc32 : ChecksumType

-- The values of the two enumerations.
abbrev pub checksum_code : ChecksumType → ℕ
checksum_code by_murmurhash32 = 0
checksum_code by_crc32 = 1

abbrev pub type_code : EntryType → ℕ
type_code unknown = 0
type_code no_op = 1
type_code data_entry = 2
type_code configuration = 3
type_code o3 = 4

abbrev pub entry_header_size : ℕ
entry_header_size = 40

-- `type` and `checksum_type` are numbers, as they are read from the file.
pub record EntryHeader : Type 0 where
  pub term : ℕ
  pub index : ℕ
  pub dependency : ℕ
  pub type : ℕ
  pub checksum_type : ℕ
  pub data_len : ℕ
  pub data_checksum : ℕ

unfoldable pub verify_checksum : Checksums → ℕ → List ℕ → ℕ → Bool
verify_checksum sums checksum_type bytes value =
    if checksum_type == 0
    then value == sums.murmurhash32 bytes
    else if checksum_type == 1
    then value == sums.crc32 bytes
    else false

unfoldable pub get_checksum : Checksums → ChecksumType → List ℕ → ℕ
get_checksum sums by_murmurhash32 bytes = sums.murmurhash32 bytes
get_checksum sums by_crc32 bytes = sums.crc32 bytes

abbrev pub meta_field : EntryType → ChecksumType → ℕ
meta_field type checksum_type =
    bit_or (type_code type * 2 ^ 24) (checksum_code checksum_type * 2 ^ 16)

module _ (raw : RawPack) (sums : Checksums) where
  -- The fields before the checksum of the header, and what follows them.
  abbrev pub pack_fields : ChecksumType → EntryType → ℕ → ℕ → ℕ → List ℕ → List ℕ → List ℕ
  pack_fields checksum_type type term index dependency payload rest =
      raw.pack64 term
      ++ (raw.pack64 index
          ++ (raw.pack64 dependency
              ++ (raw.pack32 (meta_field type checksum_type)
                  ++ (raw.pack32 (length payload % 2 ^ 32)
                      ++ (raw.pack32 (get_checksum sums checksum_type payload) ++ rest)))))

  -- The header that `append` writes before the payload.
  unfoldable pub pack_header : ChecksumType → EntryType → ℕ → ℕ → ℕ → List ℕ → List ℕ
  pack_header checksum_type type term index dependency payload =
      let fields = pack_fields checksum_type type term index dependency payload [] in
      fields ++ raw.pack32 (get_checksum sums checksum_type fields)

abbrev pub header_checksum : RawPack → List ℕ → ℕ
header_checksum raw p = raw.unpack32 (drop 36 p)

unfoldable pub unpack_header : RawPack → List ℕ → EntryHeader
unpack_header raw p =
    let meta = raw.unpack32 (drop 24 p) in
    record {
      term = raw.unpack64 p;
      index = raw.unpack64 (drop 8 p);
      dependency = raw.unpack64 (drop 16 p);
      type = meta / 2 ^ 24;
      checksum_type = meta * 2 ^ 8 % 2 ^ 32 / 2 ^ 24;
      data_len = raw.unpack32 (drop 28 p);
      data_checksum = raw.unpack32 (drop 32 p);
    }
