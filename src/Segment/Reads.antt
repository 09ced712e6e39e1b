-- ===== src/Segment/Reads.antt =====
-- What a segment reads where the bytes of an entry stand in its file.
use hit_consistency.Prelude.{
  [], List, refl, arith, ℕ, Bool, true, false, some, ◌==◌, nat_eq, if◌then◌else◌, ltb, ◌+◌, ◌^◌,
  ◌<◌, ◌≡◌, ◌++◌, length, take, drop, ap, sym, ◌∙◌, length-append, append_assoc, take-append,
  drop-append, append-nil, subst,
}
use hit_consistency.LogEntry.{EntryType}
use hit_consistency.EntryHeader.{
  RawPack, RawPackLaws, Checksums, ChecksumLaws, ChecksumType, checksum_code, EntryHeader,
  verify_checksum, pack_header, header_checksum, unpack_header,
}
use hit_consistency.EntryHeader.Codec.{header_of, verify_get}
use hit_consistency.EntryHeader.RoundTrip.{length-pack_header, unpack-pack_header}
use hit_consistency.Segment.{Segment, loaded, file_pread, load_entry, load_buffer, load_payload}

-- A read of as many bytes as stand in the middle of a file.
pread_middle :
    (readable : Bool) (file pre piece post : List ℕ) (size : ℕ)
    → readable ≡ true
    → file ≡ pre ++ (piece ++ post)
    → size ≡ length piece
    → file_pread readable file (length pre) size ≡ some piece
unfolding file_pread
pread_middle readable file pre piece post size hr hf hs = rw (
  hr,
  hf,
  drop-append (length pre) pre (piece ++ post) refl,
  take-append size piece post (sym hs),
)

-- The numbers of an entry that the header has room for, with a term other than 0.
abbrev pub Fits : ℕ → ℕ → ℕ → List ℕ → Type 0
Fits term index dependency payload =
    (0 < term)
    × (term < 2 ^ 64)
    × (index < 2 ^ 64)
    × (dependency < 2 ^ 64)
    × (length payload < 2 ^ 32)

pub take_all : (n : ℕ) (xs : List ℕ) → length xs ≡ n → take n xs ≡ xs
take_all n xs h = subst (λ l. take n l ≡ xs) (append-nil xs) (take-append n xs [] h)

positive : (n : ℕ) → 0 < n → (n == 0) ≡ false
positive n h = ground arith

same : (a b : ℕ) → a ≡ b → (a == b) ≡ true
same a b h = ground arith

module _ (raw : RawPack) (sums : Checksums) (s : Segment) (offset : ℕ) where
  -- After a header that can be trusted.
  load_buffer_lem :
      (with_payload : Bool) (to_read : ℕ) (buf : List ℕ) (h : EntryHeader)
      → length buf ≡ to_read
      → unpack_header raw buf ≡ h
      → 0 < h.term
      → verify_checksum sums h.checksum_type (take 36 buf) (header_checksum raw buf) ≡ true
      → load_buffer raw sums s offset with_payload to_read (some buf)
        ≡ (if with_payload then load_payload raw sums s offset h buf else loaded h [])
  load_buffer_lem with_payload to_read buf h hl hh ht hv =
      rw (load_buffer, same (length buf) to_read hl, hh, positive h.term ht, hv)

module _ (raw : RawPack) (sums : Checksums) (rl : RawPackLaws raw) (cl : ChecksumLaws sums)
    (s : Segment) (c : ChecksumType) (t : EntryType) (term index dependency : ℕ)
    (payload pre post : List ℕ) where
  -- The entry at the end of `pre` is read without its payload.
  pub load_entry-header :
      Fits term index dependency payload
      → s.readable ≡ true
      → s.file
        ≡ pre ++ ((pack_header raw sums c t term index dependency payload ++ payload) ++ post)
      → load_entry raw sums s (length pre) false 40
        ≡ loaded (header_of sums c t term index dependency payload) []
  unfolding load_entry
  load_entry-header (h0, ht, hi, hd, hp) hr hf =
      let header = pack_header raw sums c t term index dependency payload in
      let long = length-pack_header raw sums rl cl c t term index dependency payload in
      let (back, checked) =
        subst
          (λ l.
            (unpack_header raw l ≡ header_of sums c t term index dependency payload)
            × (verify_checksum sums (checksum_code c) (take 36 l) (header_checksum raw l) ≡ true))
          (append-nil header)
          (unpack-pack_header raw sums rl cl c t term index dependency payload [] ht hi hd hp) in
      let whole : s.file ≡ pre ++ (header ++ (payload ++ post)) =
        hf ∙ ap (λ l. pre ++ l) (append_assoc header payload post) in
      rw (pread_middle s.readable s.file pre header (payload ++ post) 40 hr whole (sym long)) (
        load_buffer_lem raw sums s (length pre) false 40 header
          (header_of sums c t term index dependency payload) long back h0 checked)

  -- The entry is read with its payload, when the length of both is known.
  pub load_entry-payload :
      Fits term index dependency payload
      → s.readable ≡ true
      → s.file
        ≡ pre ++ ((pack_header raw sums c t term index dependency payload ++ payload) ++ post)
      → load_entry raw sums s (length pre) true (40 + length payload)
        ≡ loaded (header_of sums c t term index dependency payload) payload
  unfolding load_entry
  load_entry-payload (h0, ht, hi, hd, hp) hr hf =
      let header = pack_header raw sums c t term index dependency payload in
      let h = header_of sums c t term index dependency payload in
      let size = 40 + length payload in
      let long = length-pack_header raw sums rl cl c t term index dependency payload in
      let longer : length (header ++ payload) ≡ size =
        omega (arith, length-append header payload, long) in
      let (back, checked) =
        unpack-pack_header raw sums rl cl c t term index dependency payload payload ht hi hd hp in
      let hint : (if ltb size 40 then 40 else size) ≡ size = ground arith in
      let exact : ltb (length (header ++ payload)) size ≡ false = ground (arith, longer) in
      let rest : drop 40 (take size (header ++ payload)) ≡ payload =
        rw (take_all size (header ++ payload) longer, drop-append 40 header payload long) in
      rw (hint, pread_middle s.readable s.file pre (header ++ payload) post size hr hf (sym longer))
        (load_buffer_lem raw sums s (length pre) true size (header ++ payload) h longer back h0
            checked
          ∙ rw (load_payload, exact, rest, verify_get sums c payload))
