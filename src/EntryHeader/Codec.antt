-- ===== src/EntryHeader/Codec.antt =====
-- Reading the header of an entry gives back what was written.
use hit_consistency.Prelude.{
  List, refl, arith, ℕ, true, nat_eq, ◌+◌, ◌*◌, ◌/◌, ◌%◌, ◌^◌, ◌<◌, ◌≡◌, ◌++◌, length, drop, ◌∙◌,
  length-append, append_assoc, drop-append, drop_past,
}
use hit_consistency.LogEntry.{EntryType, unknown, no_op, data_entry, configuration, o3}
use hit_consistency.EntryHeader.{
  RawPack, RawPackLaws, Checksums, ChecksumLaws, ChecksumType, by_murmurhash32, by_crc32,
  checksum_code, type_code, EntryHeader, verify_checksum, get_checksum, meta_field, pack_fields,
  unpack_header,
}

-- What is written for an entry, as it is read back.
abbrev pub header_of : Checksums → ChecksumType → EntryType → ℕ → ℕ → ℕ → List ℕ → EntryHeader
header_of sums checksum_type type term index dependency payload = record {
  term = term;
  index = index;
  dependency = dependency;
  type = type_code type;
  checksum_type = checksum_code checksum_type;
  data_len = length payload;
  data_checksum = get_checksum sums checksum_type payload;
}

meta_field_lem :
    (t : EntryType) (c : ChecksumType)
    → (meta_field t c < 2 ^ 32)
      × (meta_field t c / 2 ^ 24 ≡ type_code t)
      × (meta_field t c * 2 ^ 8 % 2 ^ 32 / 2 ^ 24 ≡ checksum_code c)
meta_field_lem unknown by_murmurhash32 = (omega arith, refl, refl)
meta_field_lem unknown by_crc32 = (omega arith, refl, refl)
meta_field_lem no_op by_murmurhash32 = (omega arith, refl, refl)
meta_field_lem no_op by_crc32 = (omega arith, refl, refl)
meta_field_lem data_entry by_murmurhash32 = (omega arith, refl, refl)
meta_field_lem data_entry by_crc32 = (omega arith, refl, refl)
meta_field_lem configuration by_murmurhash32 = (omega arith, refl, refl)
meta_field_lem configuration by_crc32 = (omega arith, refl, refl)
meta_field_lem o3 by_murmurhash32 = (omega arith, refl, refl)
meta_field_lem o3 by_crc32 = (omega arith, refl, refl)

-- A checksum is verified where it was taken.
pub verify_get :
    (sums : Checksums) (c : ChecksumType) (bytes : List ℕ)
    → verify_checksum sums (checksum_code c) bytes (get_checksum sums c bytes) ≡ true
unfolding verify_checksum get_checksum
verify_get sums by_murmurhash32 bytes = ground arith
verify_get sums by_crc32 bytes = ground arith

pub get_checksum_bound :
    (sums : Checksums) (laws : ChecksumLaws sums) (c : ChecksumType) (bytes : List ℕ)
    → get_checksum sums c bytes < 2 ^ 32
unfolding get_checksum
get_checksum_bound sums laws by_murmurhash32 bytes = laws.murmurhash32_bound bytes
get_checksum_bound sums laws by_crc32 bytes = laws.crc32_bound bytes

-- Where the six fields of a header end.
drops_lem :
    (a b c d e f rest : List ℕ)
    → length a ≡ 8
    → length b ≡ 8
    → length c ≡ 8
    → length d ≡ 4
    → length e ≡ 4
    → length f ≡ 4
    → let p = a ++ (b ++ (c ++ (d ++ (e ++ (f ++ rest))))) in
      (drop 8 p ≡ b ++ (c ++ (d ++ (e ++ (f ++ rest)))))
      × (drop 16 p ≡ c ++ (d ++ (e ++ (f ++ rest))))
      × (drop 24 p ≡ d ++ (e ++ (f ++ rest)))
      × (drop 28 p ≡ e ++ (f ++ rest))
      × (drop 32 p ≡ f ++ rest)
      × (drop 36 p ≡ rest)
drops_lem a b c d e f rest ha hb hc hd he hf =
    let s5 = f ++ rest in
    let s4 = e ++ s5 in
    let s3 = d ++ s4 in
    let s2 = c ++ s3 in
    let s1 = b ++ s2 in
    (
      drop-append 8 a s1 ha,
      drop_past 16 8 a s1 (omega (arith, ha)) ∙ drop-append 8 b s2 hb,
      drop_past 24 16 a s1 (omega (arith, ha))
          ∙ drop_past 16 8 b s2 (omega (arith, hb))
          ∙ drop-append 8 c s3 hc,
      drop_past 28 20 a s1 (omega (arith, ha))
          ∙ drop_past 20 12 b s2 (omega (arith, hb))
          ∙ drop_past 12 4 c s3 (omega (arith, hc))
          ∙ drop-append 4 d s4 hd,
      drop_past 32 24 a s1 (omega (arith, ha))
          ∙ drop_past 24 16 b s2 (omega (arith, hb))
          ∙ drop_past 16 8 c s3 (omega (arith, hc))
          ∙ drop_past 8 4 d s4 (omega (arith, hd))
          ∙ drop-append 4 e s5 he,
      drop_past 36 28 a s1 (omega (arith, ha))
          ∙ drop_past 28 20 b s2 (omega (arith, hb))
          ∙ drop_past 20 12 c s3 (omega (arith, hc))
          ∙ drop_past 12 8 d s4 (omega (arith, hd))
          ∙ drop_past 8 4 e s5 (omega (arith, he))
          ∙ drop-append 4 f rest hf,
    )

module _ (raw : RawPack) (sums : Checksums) (rl : RawPackLaws raw) (cl : ChecksumLaws sums)
    (c : ChecksumType) (t : EntryType) (term index dependency : ℕ) (payload : List ℕ) where
  pub pack_fields-append :
      (rest more : List ℕ)
      → pack_fields raw sums c t term index dependency payload rest ++ more
        ≡ pack_fields raw sums c t term index dependency payload (rest ++ more)
  pack_fields-append rest more = simp (append_assoc)

  pub length-pack_fields :
      (rest : List ℕ)
      → length (pack_fields raw sums c t term index dependency payload rest) ≡ 36 + length rest
  length-pack_fields rest = simp (length-append, rl.length64, rl.length32) (omega arith)

  -- After the fields of a header, whatever follows, the header is read as it was written.
  pub unpack_pack_fields :
      (rest : List ℕ)
      → term < 2 ^ 64
      → index < 2 ^ 64
      → dependency < 2 ^ 64
      → length payload < 2 ^ 32
      → let p = pack_fields raw sums c t term index dependency payload rest in
        (unpack_header raw p ≡ header_of sums c t term index dependency payload)
        × (drop 36 p ≡ rest)
  unfolding unpack_header
  unpack_pack_fields rest ht hi hd hp =
      let meta = raw.pack32 (meta_field t c) in
      let size = raw.pack32 (length payload % 2 ^ 32) in
      let sum = raw.pack32 (get_checksum sums c payload) in
      let (d8, d16, d24, d28, d32, d36) =
        drops_lem (raw.pack64 term) (raw.pack64 index) (raw.pack64 dependency) meta size sum rest
          (rl.length64 _) (rl.length64 _) (rl.length64 _) (rl.length32 _) (rl.length32 _)
          (rl.length32 _) in
      let (small, type_back, sum_back) = meta_field_lem t c in
      let fits : length payload % 2 ^ 32 ≡ length payload = omega (arith, hp) in
      (
        rw (
          d8,
          d16,
          d24,
          d28,
          d32,
          rl.unpack_pack64 term _ ht,
          rl.unpack_pack64 index _ hi,
          rl.unpack_pack64 dependency _ hd,
          rl.unpack_pack32 (meta_field t c) _ small,
          rl.unpack_pack32 (length payload % 2 ^ 32) _ (omega arith),
          rl.unpack_pack32 (get_checksum sums c payload) _ (get_checksum_bound sums cl c payload),
          type_back,
          sum_back,
          fits,
        ),
        d36,
      )
