-- ===== src/SegmentStorage/Extended.antt =====
-- What Segment::append makes of the range of a segment.
use hit_consistency.Prelude.{
  some_inj, List, refl, arith, ℕ, true, false, Option, none, some, ltb, leb, nat_eq, ◌+◌, ◌≤◌, ◌≡◌,
  ◌≢◌, ◌⊎◌, inl, inr, subst, ◌∙◌, sym, ◌||◌, ◌&&◌, Bool-cases,
}
use hit_consistency.LogEntry.{LogEntry}
use hit_consistency.LogEntry.Meta.{MetaCodec, Serialized, bytes_of, unserializable, peers_missing}
use hit_consistency.EntryHeader.{RawPack, Checksums}
use hit_consistency.Segment.{
  Segment, Code, done, invalid, failed, greater_index, is_fullfilled, append, append_payload,
  payload_of, written, record_of, close_if_full, array_size,
}
use hit_consistency.SegmentStorage.{opened}
use hit_consistency.SegmentStorage.Chain.{Healthy}
use hit_consistency.Segment.Truncation.{none-some}
use hit_consistency.SegmentStorage.Opening.{close-Healthy}

-- What `append` makes of a segment whose closing succeeds: it is left alone, or the index is added to its range.
abbrev pub Appended : Segment → ℕ → Segment → Code → Type 0
Appended s index s' c =
    ((s' ≡ s) × (c ≢ done))
    ⊎ ((c ≡ done)
        × (s.first_index ≤ index)
        × (s'.first_index ≡ s.first_index)
        × (s'.last_index ≡ greater_index s.last_index index)
        × Healthy s'
        × (s.pending_for_closing ≡ false → s'.pending_for_closing ≡ false))

left_alone :
    (s : Segment) (index : ℕ) (c0 : Code) (s' : Segment) (c : Code)
    → c0 ≢ done
    → ◌≡◌ {A = Option (Segment × Code)} (some (s, c0)) (some (s', c))
    → Appended s index s' c
left_alone s index c0 s' c n same =
    subst (λ r. Appended s index r.0 r.1) (some_inj same) (inl (refl, n))

module _ {P S : Type 0} (raw : RawPack) (sums : Checksums) (codec : MetaCodec P S) where
  close_if_full-Appended :
      (s : Segment) (e : LogEntry P (List ℕ)) (bytes : List ℕ)
      → Healthy s
      → s.first_index ≤ e.id.index
      → let w = close_if_full (written raw sums codec s e bytes) in Appended s e.id.index w.0 w.1
  close_if_full-Appended s e bytes h first =
      let w = written raw sums codec s e bytes in
      elim (Bool-cases (s.pending_for_closing && is_fullfilled w)) [
        | inl full ↦
            let same : close_if_full w
                ≡ (record w { is_open = false; pending_for_closing = false }, done) =
              rw (full) (close-Healthy w true h) in
            subst (λ r. Appended s e.id.index r.0 r.1) (sym same)
              (inr (refl, first, refl, refl, h, λ p. refl))
        | inr other ↦
            let same : close_if_full w ≡ (w, done) = rw (other) in
            subst (λ r. Appended s e.id.index r.0 r.1) (sym same)
              (inr (refl, first, refl, refl, h, λ p. p))
      ]

  append_payload-Appended :
      (s : Segment) (e : LogEntry P (List ℕ)) (p : Serialized) (s' : Segment) (c : Code)
      → Healthy s
      → append_payload raw sums codec s e p ≡ some (s', c)
      → Appended s e.id.index s' c
  append_payload-Appended s e unserializable s' c h same =
      left_alone s e.id.index failed s' c (λ n. cc) same
  append_payload-Appended s e peers_missing s' c h same = absurd cc
  append_payload-Appended s e (bytes_of payload) s' c h same =
      let run = append_payload raw sums codec s e (bytes_of payload) in
      elim (Bool-cases s.writable) [
        | inr e1 ↦
            let result : run ≡ some (s, failed) = rw (e1) in
            left_alone s e.id.index failed s' c (λ n. cc) (sym result ∙ same)
        | inl e1 ↦
            elim (Bool-cases
              (ltb e.id.index s.first_index || leb (s.first_index + array_size) e.id.index)) [
                | inl out ↦
                    let result : run ≡ none = rw (e1, out) in
                    absurd (none-some (s', c) (sym result ∙ same))
                | inr inside ↦
                    let w =
                      close_if_full
                        (written raw sums codec s e (record_of raw sums codec s e payload)) in
                    let result : run ≡ some w = rw (e1, inside) in
                    subst (λ r. Appended s e.id.index r.0 r.1) (some_inj (sym result ∙ same))
                      (close_if_full-Appended s e (record_of raw sums codec s e payload) h
                        (ground (arith, inside)))
              ]
      ]

  pub append-Appended :
      (s : Segment) (e : LogEntry P (List ℕ)) (s' : Segment) (c : Code)
      → Healthy s
      → append raw sums codec s e ≡ some (s', c)
      → Appended s e.id.index s' c
  unfolding append payload_of
  append-Appended s e s' c h same = elim (Bool-cases s.is_open) [
    | inr closed ↦
        let result : append raw sums codec s e ≡ some (s, invalid) = rw (append, closed) in
        left_alone s e.id.index invalid s' c (λ n. cc) (sym result ∙ same)
    | inl opened ↦
        let result : append raw sums codec s e
            ≡ append_payload raw sums codec s e (payload_of raw sums codec e) =
          rw (append, opened) in
        append_payload-Appended s e (payload_of raw sums codec e) s' c h (sym result ∙ same)
  ]
