-- ===== src/EntryHeader/RoundTrip.antt =====
-- cpp/log.cc: reading the header of an entry after writing it, with its checksum.
use hit_consistency.Prelude.{
  [], List, arith, ℕ, true, ◌^◌, ◌<◌, ◌≡◌, ◌++◌, length, take, length-append, append_assoc,
  take-append,
}
use hit_consistency.LogEntry.{EntryType}
use hit_consistency.EntryHeader.{
  RawPack, RawPackLaws, Checksums, ChecksumLaws, ChecksumType, checksum_code, verify_checksum,
  get_checksum, pack_fields, pack_header, header_checksum, unpack_header,
}
use hit_consistency.EntryHeader.Codec.{
  header_of, verify_get, get_checksum_bound, pack_fields-append, length-pack_fields,
  unpack_pack_fields,
}

module _ (raw : RawPack) (sums : Checksums) (rl : RawPackLaws raw) (cl : ChecksumLaws sums)
    (c : ChecksumType) (t : EntryType) (term index dependency : ℕ) (payload : List ℕ) where
  pub length-pack_header : length (pack_header raw sums c t term index dependency payload) ≡ 40
  unfolding pack_header
  length-pack_header =
      let fields = pack_fields raw sums c t term index dependency payload [] in
      let sum = raw.pack32 (get_checksum sums c fields) in
      omega (
        arith,
        length-append fields sum,
        length-pack_fields raw sums rl cl c t term index dependency payload [],
        rl.length32 (get_checksum sums c fields),
      )

  -- With the term, the index and the dependency below 2^64 and the payload shorter than 2^32, the
  -- header that append writes, whatever follows it, is read back with the same fields, and the
  -- checksum in it is the checksum of its first 36 bytes.
  pub unpack-pack_header :
      (rest : List ℕ)
      → term < 2 ^ 64
      → index < 2 ^ 64
      → dependency < 2 ^ 64
      → length payload < 2 ^ 32
      → let p = pack_header raw sums c t term index dependency payload ++ rest in
        (unpack_header raw p ≡ header_of sums c t term index dependency payload)
        × (verify_checksum sums (checksum_code c) (take 36 p) (header_checksum raw p) ≡ true)
  unfolding pack_header
  unpack-pack_header rest ht hi hd hp =
      let fields = pack_fields raw sums c t term index dependency payload [] in
      let sum = get_checksum sums c fields in
      let tail = raw.pack32 sum ++ rest in
      let whole : (fields ++ raw.pack32 sum) ++ rest ≡ fields ++ tail =
        append_assoc fields (raw.pack32 sum) rest in
      let as_fields = pack_fields-append raw sums rl cl c t term index dependency payload [] tail in
      let (back, dropped) =
        unpack_pack_fields raw sums rl cl c t term index dependency payload tail ht hi hd hp in
      let long = length-pack_fields raw sums rl cl c t term index dependency payload [] in
      (
        rw (whole, as_fields, back),
        rw (
          whole,
          take-append 36 fields tail long,
          as_fields,
          header_checksum,
          dropped,
          rl.unpack_pack32 sum rest (get_checksum_bound sums cl c fields),
          verify_get sums c fields,
        ),
      )
