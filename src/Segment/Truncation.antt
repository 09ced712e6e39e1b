-- ===== src/Segment/Truncation.antt =====
-- What `truncate` leaves of the terms of a segment.
use hit_consistency.Prelude.{
  zero, suc, refl, arith, ℕ, true, false, none, some, ◌==◌, nat_eq, if◌then◌else◌, ltb, leb, ◌||◌,
  ◌+◌, ◌-◌, ◌<◌, ◌≤◌, ◌≡◌, ◌≢◌, ◌∙◌, inl, inr, ap, sym, subst, Bool-cases, pos, ◌-ℤ◌,
}
use hit_consistency.EntryHeader.{RawPack}
use hit_consistency.Segment.{
  Segment, Code, set_slot, file_pwrite, get_meta, get_term, truncate_loop, truncate,
}

pub none-some : {A : Type 0} (a : A) → none ≢ some a
none-some a h = cc

get_term-out :
    (s : Segment) (index : ℕ)
    → (ltb s.last_index index || ltb index s.first_index) ≡ true
    → get_term s index ≡ 0
unfolding get_term get_meta
get_term-out s index h = rw (get_term, get_meta, h)

get_term-in :
    (s : Segment) (index : ℕ)
    → s.first_index ≤ index
    → index ≤ s.last_index
    → get_term s index ≡ (s.slots (index - s.first_index)).term
unfolding get_term get_meta
get_term-in s index h1 h2 =
    let inside : (ltb s.last_index index || ltb index s.first_index) ≡ false =
      ground (arith, h1, h2) in
    let not_empty : (s.last_index + 1 == s.first_index) ≡ false = ground (arith, h1, h2) in
    elim (Bool-cases ((s.slots (index - s.first_index)).term == 0)) [
      | inl e ↦
          let no_term : (s.slots (index - s.first_index)).term ≡ 0 = ground (arith, e) in
          rw (get_term, get_meta, inside, not_empty, e, no_term)
      | inr e ↦ rw (get_term, get_meta, inside, not_empty, e)
    ]

all_kept :
    (s : Segment) (kept index : ℕ)
    → leb s.last_index kept ≡ true
    → get_term s index ≡ (if leb index kept then get_term s index else 0)
all_kept s kept index h = elim (Bool-cases (leb index kept)) [
  | inl e ↦ rw (e)
  | inr e ↦ rw (e) (get_term-out s index (ground (arith, h, e)))
]

module _ (raw : RawPack) where
  abbrev erased : Segment → ℕ → Segment
  erased s i =
      let slot = s.slots (i - s.first_index) in
      if slot.term == 0 then s else record s {
        file = file_pwrite s.writable s.file slot.offset (raw.pack64 0);
        valid_entries = s.valid_entries -ℤ pos 1;
        slots = set_slot s.slots (i - s.first_index) (record slot { term = 0 });
      }

  erased-first : (s : Segment) (i : ℕ) → (erased s i).first_index ≡ s.first_index
  erased-first s i = elim (Bool-cases ((s.slots (i - s.first_index)).term == 0)) [
    | inl e ↦ rw (e)
    | inr e ↦ rw (e)
  ]

  erased-slots : (s : Segment) (i k : ℕ) → k < i - s.first_index → (erased s i).slots k ≡ s.slots k
  erased-slots s i k h =
      let other : (k == (i - s.first_index)) ≡ false = ground (arith, h) in
      elim (Bool-cases ((s.slots (i - s.first_index)).term == 0)) [
        | inl e ↦ rw (e)
        | inr e ↦ rw (e, other)
      ]

  truncate_loop-first :
      (n i : ℕ) (s : Segment) → (truncate_loop raw n i s).first_index ≡ s.first_index
  unfolding truncate_loop
  truncate_loop-first zero i s = refl
  truncate_loop-first (suc n) i s = truncate_loop-first n (i + 1) (erased s i) ∙ erased-first s i

  truncate_loop-slots :
      (n i : ℕ) (s : Segment) (k : ℕ)
      → k < i - s.first_index
      → (truncate_loop raw n i s).slots k ≡ s.slots k
  unfolding truncate_loop
  truncate_loop-slots zero i s k h = refl
  truncate_loop-slots (suc n) i s k h =
      truncate_loop-slots n (i + 1) (erased s i) k (omega (arith, h, erased-first s i))
      ∙ erased-slots s i k h

  -- A segment with the same slots up to the index that is its last.
  get_term-cut :
      (s t : Segment) (kept index : ℕ)
      → t.first_index ≡ s.first_index
      → t.last_index ≡ kept
      → kept < s.last_index
      → (s.first_index ≤ index
          → index ≤ kept
          → t.slots (index - s.first_index) ≡ s.slots (index - s.first_index))
      → get_term t index ≡ (if leb index kept then get_term s index else 0)
  get_term-cut s t kept index hf hl hk hs = elim (Bool-cases (leb index kept)) [
    | inl e ↦ elim (Bool-cases (ltb index s.first_index)) [
      | inl low ↦ rw (e) (
          get_term-out t index (ground (arith, low, hf))
          ∙ sym (get_term-out s index (ground (arith, low))))
      | inr high ↦
          let from_first : s.first_index ≤ index = ground (arith, high) in
          let to_kept : index ≤ kept = ground (arith, e) in
          rw (e) (
            get_term-in t index (omega (arith, from_first, hf)) (omega (arith, to_kept, hl))
            ∙ ap (λ n. (t.slots (index - n)).term) hf
            ∙ ap (λ slot. slot.term) (hs from_first to_kept)
            ∙ sym (get_term-in s index from_first (omega (arith, to_kept, hk))))
    ]
    | inr e ↦ rw (e) (get_term-out t index (ground (arith, e, hl)))
  ]

  -- Where `truncate` does not write below its array, the terms of the indexes up to the last one kept
  -- are the ones before it, and the terms of all later indexes are 0.
  pub get_term-truncate :
      (s s' : Segment) (c : Code) (last_index_kept index : ℕ)
      → truncate raw s last_index_kept ≡ some (s', c)
      → get_term s' index ≡ (if leb index last_index_kept then get_term s index else 0)
  unfolding truncate
  get_term-truncate s s' c kept index h = elim (Bool-cases (leb s.last_index kept)) [
    | inl short ↦
        let same : s ≡ s' = ap (λ o. elim o [ some (r, d) ↦ r | none ↦ s ]) (rw (short) at h) in
        subst (λ r. get_term r index ≡ (if leb index kept then get_term s index else 0)) same
          (all_kept s kept index short)
    | inr long ↦ elim (Bool-cases (ltb (kept + 1) s.first_index)) [
      | inl below ↦ absurd (none-some (s', c) (rw (long, below) at h))
      | inr inside ↦
          let n = s.last_index - kept in
          let cut = truncate_loop raw n (kept + 1) s in
          let t : Segment = record cut { is_open = true; last_index = kept } in
          let same : t ≡ s' =
            ap (λ o. elim o [ some (r, d) ↦ r | none ↦ s ]) (rw (long, inside) at h) in
          subst (λ r. get_term r index ≡ (if leb index kept then get_term s index else 0)) same
            (get_term-cut s t kept index (truncate_loop-first n (kept + 1) s) refl
              (ground (arith, long))
              (λ h1 h2.
                truncate_loop-slots n (kept + 1) s (index - s.first_index) (omega (arith, h1, h2))))
    ]
  ]
