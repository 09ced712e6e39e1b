-- ===== src/SegmentStorage/Cutting.antt =====
-- The last segment that truncate_suffix leaves, cut or erased.
use hit_consistency.Prelude.{
  [], ◌∷◌, List, refl, arith, ℕ, ℤ, pos, ◌-ℤ◌, zero, suc, true, false, some, ltb, leb, ◌==◌, nat_eq,
  ◌+◌, ◌-◌, ◌<◌, ◌≤◌, ◌≡◌, inl, inr, ap, ◌∙◌, ◌++◌, Bool-cases, last?, ◌||◌,
}
use hit_consistency.EntryHeader.{RawPack}
use hit_consistency.Segment.{Segment, Slot, done, file_pwrite, set_slot, truncate, truncate_loop}
use hit_consistency.SegmentStorage.{SegmentStorage, in_map, put_segment, erase_segment}
use hit_consistency.SegmentStorage.Shrinking.{erase_popped, last_found}
use hit_consistency.SegmentStorage.Chain.{Healthy, Chain, Fronted, Chain-le}

-- Fields that the loop of Segment::truncate leaves alone.
truncate_loop-kept :
    {A : Type 0} (raw : RawPack) (f : Segment → A)
    → ((s : Segment) (file : List ℕ) (valid : ℤ) (slots : ℕ → Slot)
        → f (record s { file = file; valid_entries = valid; slots = slots }) ≡ f s)
    → (n i : ℕ) (s : Segment) → f (truncate_loop raw n i s) ≡ f s
unfolding truncate_loop
truncate_loop-kept raw f same zero i s = refl
truncate_loop-kept raw f same (suc n) i s =
    let slot = s.slots (i - s.first_index) in
    elim (Bool-cases (slot.term == 0)) [
      | inl e ↦ rw (truncate_loop, e) (truncate_loop-kept raw f same n (i + 1) s)
      | inr e ↦
          rw (truncate_loop, e)
            (truncate_loop-kept raw f same n (i + 1) (record s {
              file = file_pwrite s.writable s.file slot.offset (raw.pack64 0);
              valid_entries = s.valid_entries -ℤ pos 1;
              slots = set_slot s.slots (i - s.first_index) (record slot { term = 0 });
            })
              ∙ same s (file_pwrite s.writable s.file slot.offset (raw.pack64 0))
                  (s.valid_entries -ℤ pos 1)
                  (set_slot s.slots (i - s.first_index) (record slot { term = 0 })))
    ]

-- Cutting a segment at an index that it holds succeeds.
pub truncate-Healthy :
    (raw : RawPack) (s : Segment) (kept : ℕ)
    → Healthy s
    → s.first_index ≤ kept
    → kept ≤ s.last_index
    → (s' : Segment) × (truncate raw s kept ≡ some (s', done))
      × (s'.first_index ≡ s.first_index)
      × (s'.last_index ≡ kept)
      × Healthy s'
      × (s'.pending_for_closing ≡ s.pending_for_closing)
unfolding truncate
truncate-Healthy raw s kept h first last = elim (Bool-cases (leb s.last_index kept)) [
  | inl e ↦ (s, rw (truncate, e), refl, ground (arith, e, last), h, refl)
  | inr e ↦
      let low : ltb (kept + 1) s.first_index ≡ false = ground (arith, first) in
      let ok : (s.is_open || s.renames) ≡ true = ground (arith, h.1) in
      let cut = truncate_loop raw (s.last_index - kept) (kept + 1) s in
      (
        record cut { is_open = true; last_index = kept },
        simp (e, low, ok),
        truncate_loop-kept raw (λ u. u.first_index) (λ u file valid slots. refl)
            (s.last_index - kept) (kept + 1) s,
        refl,
        (
          truncate_loop-kept raw (λ u. u.fsyncs) (λ u file valid slots. refl) (s.last_index - kept)
                (kept + 1) s
              ∙ h.0,
          truncate_loop-kept raw (λ u. u.renames) (λ u file valid slots. refl) (s.last_index - kept)
                (kept + 1) s
              ∙ h.1,
        ),
        truncate_loop-kept raw (λ u. u.pending_for_closing) (λ u file valid slots. refl)
            (s.last_index - kept) (kept + 1) s,
      )
]

pub put_segment-last :
    (a : ℕ) (xs : List Segment) (s s' : Segment)
    → Chain a xs s.first_index
    → s'.first_index ≡ s.first_index
    → put_segment s' (xs ++ s ∷ []) ≡ put_segment s' xs
unfolding put_segment
put_segment-last a [] s s' c first =
    let past : ltb s'.first_index s.first_index ≡ false = ground (arith, first) in
    let here : (s'.first_index == s.first_index) ≡ true = ground (arith, first) in
    rw (put_segment, past, here)
put_segment-last a (t ∷ xs) s s' c first =
    let rest = Chain-le (t.last_index + 1) xs s.first_index c.3 in
    let past : ltb s'.first_index t.first_index ≡ false = ground (arith, first, rest, c.0, c.1) in
    let other : (s'.first_index == t.first_index) ≡ false = ground (arith, first, rest, c.0, c.1) in
    rw (put_segment, past, other)
      (ap (λ l. t ∷ l) (put_segment-last (t.last_index + 1) xs s s' c.3 first))

pub erase_segment-last :
    (a : ℕ) (xs : List Segment) (s : Segment)
    → Chain a xs s.first_index
    → erase_segment s.first_index (xs ++ s ∷ []) ≡ xs
unfolding erase_segment
erase_segment-last a [] s c =
    let here : (s.first_index == s.first_index) ≡ true = ground arith in rw (erase_segment, here)
erase_segment-last a (t ∷ xs) s c =
    let rest = Chain-le (t.last_index + 1) xs s.first_index c.3 in
    let other : (t.first_index == s.first_index) ≡ false = ground (arith, rest, c.0, c.1) in
    rw (erase_segment, other) (ap (λ l. t ∷ l) (erase_segment-last (t.last_index + 1) xs s c.3))

last?-snoc : (xs : List Segment) (s : Segment) → last? (xs ++ s ∷ []) ≡ some s
last?-snoc [] s = refl
last?-snoc (x ∷ []) s = refl
last?-snoc (x ∷ (y ∷ ys)) s = last?-snoc (y ∷ ys) s

pub erase_popped-snoc :
    (kept : ℕ) (st : SegmentStorage) (popped xs : List Segment) (s : Segment)
    → erase_popped kept st popped (xs ++ s ∷ [])
      ≡ (record st { segments = xs ++ s ∷ [] }, popped, in_map s)
erase_popped-snoc kept st popped [] s = refl
erase_popped-snoc kept st popped (x ∷ xs) s =
    ap (λ o. (record st { segments = x ∷ (xs ++ s ∷ []) }, popped, last_found o))
      (last?-snoc (x ∷ xs) s)

pub Fronted-init :
    (first : ℕ) (xs : List Segment) (s : Segment) → Fronted first (xs ++ s ∷ []) → Fronted first xs
Fronted-init first [] s f = tt
Fronted-init first (x ∷ xs) s f = f

-- A chain that ends before the first index of the log has no segment.
pub no_segment :
    (first a : ℕ) (xs : List Segment) (b : ℕ)
    → Chain a xs b
    → Fronted first xs
    → b < first
    → xs ≡ []
no_segment first a [] b c f h = refl
no_segment first a (x ∷ xs) b c f h =
    absurd (omega (arith, f, h, Chain-le (x.last_index + 1) xs b c.3))
