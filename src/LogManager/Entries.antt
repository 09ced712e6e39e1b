-- ===== src/LogManager/Entries.antt =====
-- What append_entries of cpp/log_manager.cc does to the log in memory, to the last and to the greatest
-- index, for entries that come in or out of order.
use hit_consistency.Prelude.{
  [], ◌∷◌, List, refl, arith, ℕ, zero, suc, false, none, some, ◌≡◌, ◌≤◌, ◌<◌, ◌⊎◌, inl, inr, ◌+◌,
  ◌-◌, ◌^◌, length, get_elem?, set, leb, ltb, if◌then◌else◌, ◌∙◌, length-append, length-set, nat_eq,
}
use Prim.Native.Nat.{bit_or}
use hit_consistency.LogEntry.{LogEntry}
use hit_consistency.LogManager.{LogManager}
use hit_consistency.LogManager.Appending.{
  push, push_holes, place, connected, insert_entries, back_of,
}
use hit_consistency.LogManager.Memory.{Aligned}
use hit_consistency.LogManager.Insertion.{
  Run, Holds, back-Run, Aligned-hole, set-Aligned, connect_lem, get_elem?-set, get_elem?-set_other,
}

module _ {P D C W : Type 0} where
  -- The memory begins at `base`, ends at the greatest index, and has its entries at their positions.
  pub record Fits (base : ℕ) (m : LogManager P D C W) : Type 0 where
    pub aligned : Aligned base m.logs_in_memory
    pub ends : base + length m.logs_in_memory ≡ m.max_log_index + 1

  push_holes_lem :
      (base n : ℕ) (m : LogManager P D C W)
      → Fits base m
      → let m' = push_holes n m in
        Fits base m'
        × (m'.max_log_index ≡ m.max_log_index + n)
        × (m'.last_log_index ≡ m.last_log_index)
  unfolding push_holes
  push_holes_lem base zero m f = (f, omega arith, refl)
  push_holes_lem base (suc n) m f =
      let (f', max, last) = push_holes_lem base n (push m none) (record {
        aligned = Aligned-hole base m.logs_in_memory f.aligned;
        ends = omega (arith, f.ends, length-append m.logs_in_memory (none ∷ []));
      }) in
      (f', omega (arith, max), last)

  -- The memory after `place` has written the entries from the index `i` on.
  pub record Placed (base i : ℕ) (m m' : LogManager P D C W) (es : List (LogEntry P D))
      : Type 0 where
    pub fits : Fits base m'
    pub same_max : m'.max_log_index ≡ m.max_log_index
    pub same_last : m'.last_log_index ≡ m.last_log_index
    pub holds : Holds base m'.logs_in_memory es
    pub elsewhere :
        (k : ℕ)
        → (base + k < i) ⊎ (i + length es ≤ base + k)
        → get_elem? m'.logs_in_memory k ≡ get_elem? m.logs_in_memory k

  abbrev put_entry : ℕ → LogManager P D C W → LogEntry P D → LogManager P D C W
  put_entry first m e = record m {
    logs_in_memory = set m.logs_in_memory (e.id.index - first) (some e);
    dependency_bitmap = bit_or m.dependency_bitmap (2 ^ (m.max_log_index - e.id.index));
  }

  place_step :
      (first : ℕ) (m : LogManager P D C W) (e : LogEntry P D) (es : List (LogEntry P D))
      → first ≤ e.id.index
      → e.id.index - first < length m.logs_in_memory
      → e.id.index ≤ m.max_log_index
      → m.max_log_index < e.id.index + 1024
      → place first m (e ∷ es) ≡ place first (put_entry first m e) es
  unfolding place
  place_step first m e es a b c d =
      let a' : ltb e.id.index first ≡ false = ground arith in
      let b' : leb (length m.logs_in_memory) (e.id.index - first) ≡ false = ground arith in
      let c' : ltb m.max_log_index e.id.index ≡ false = ground arith in
      let d' : leb 1024 (m.max_log_index - e.id.index) ≡ false = ground arith in
      ground (arith, a', b', c', d')

  place_lem :
      (base i : ℕ) (m : LogManager P D C W) (es : List (LogEntry P D))
      → Run i es
      → Fits base m
      → base ≤ i
      → i + length es ≤ m.max_log_index + 1
      → m.max_log_index < i + 1024
      → (m' : LogManager P D C W) × (place base m es ≡ some m') × Placed base i m m' es
  unfolding place
  place_lem base i m [] r f lo hi near = (
    m,
    refl,
    record { fits = f; same_max = refl; same_last = refl; holds = tt; elsewhere = λ k h. refl },
  )
  place_lem base i m (e ∷ es) r f lo hi near =
      let inside : e.id.index - base < length m.logs_in_memory =
        omega (arith, r.0, f.ends, lo, hi) in
      let m1 = put_entry base m e in
      let f1 : Fits base m1 = record {
        aligned =
            set-Aligned base (e.id.index - base) m.logs_in_memory e f.aligned
              (omega (arith, r.0, lo));
        ends = omega (arith, f.ends, length-set m.logs_in_memory (e.id.index - base) (some e));
      } in
      let (m', run, p) =
        place_lem base (i + 1) m1 es r.1 f1 (omega (arith, lo)) (omega (arith, hi))
          (omega (arith, near)) in
      (
        m',
        place_step base m e es (omega (arith, r.0, lo)) inside (omega (arith, r.0, hi))
              (omega (arith, r.0, near))
            ∙ run,
        record {
          fits = p.fits;
          same_max = p.same_max;
          same_last = p.same_last;
          holds = (
            p.elsewhere (e.id.index - base) (inl (omega (arith, r.0, lo)))
                ∙ get_elem?-set m.logs_in_memory (e.id.index - base) (some e) inside,
            p.holds,
          );
          elsewhere = λ k h.
              p.elsewhere k (ground (arith, h))
              ∙ get_elem?-set_other m.logs_in_memory (e.id.index - base) k (some e)
                  (λ q. ground (arith, q, r.0, lo, h));
        },
      )

  -- The log after the entries `es` from the index `i` on have been inserted.
  pub record Inserted (base i : ℕ) (m m' : LogManager P D C W) (es : List (LogEntry P D))
      : Type 0 where
    pub fits : Fits base m'
    pub max_of :
        m'.max_log_index + 1
        ≡ (if ltb (m.max_log_index + 1) (i + length es) then i + length es else m.max_log_index + 1)
    pub holds : Holds base m'.logs_in_memory es
    pub last_le : m.last_log_index ≤ m'.last_log_index
    pub le_max : m'.last_log_index ≤ m'.max_log_index
    pub no_hole :
        (j : ℕ)
        → m.last_log_index < j
        → j ≤ m'.last_log_index
        → (e : LogEntry P D) × (get_elem? m'.logs_in_memory (j - base) ≡ some (some e))
    pub next_hole :
        (m'.last_log_index ≡ m'.max_log_index)
        ⊎ (get_elem? m'.logs_in_memory (m'.last_log_index + 1 - base) ≡ some none)

  connected_lem :
      (base : ℕ) (m : LogManager P D C W)
      → Fits base m
      → base ≤ m.last_log_index + 1
      → m.last_log_index ≤ m.max_log_index
      → (last : ℕ) × (connected (some m) base ≡ some (record m { last_log_index = last }))
        × (m.last_log_index ≤ last)
        × (last ≤ m.max_log_index)
        × ((j : ℕ)
            → m.last_log_index < j
            → j ≤ last
            → (e : LogEntry P D) × (get_elem? m.logs_in_memory (j - base) ≡ some (some e)))
        × ((last ≡ m.max_log_index) ⊎ (get_elem? m.logs_in_memory (last + 1 - base) ≡ some none))
  connected_lem base m f lo hi =
      let (last, run, le, most, there, stop) =
        connect_lem (m.max_log_index - m.last_log_index) base m.last_log_index m.logs_in_memory lo
          (omega (arith, f.ends, hi)) in
      (
        last,
        rw (connected, run),
        le,
        omega (arith, most, hi),
        there,
        elim stop [ inl end ↦ inl (omega (arith, end, hi)) | inr hole ↦ inr hole ],
      )

  -- What append_entries does to the log on entries with the indexes from `i` on, early or late. The
  -- memory begins at or before `i` and the index after the last one, it ends at the greatest index,
  -- which is not below the last one, and no index is 1024 or more behind the greatest. Then it
  -- succeeds: every entry stands at its position, the memory still has its entries at their positions
  -- and ends at the greatest index, which is raised to the last entry if that is greater. The last
  -- index has moved on past entries that are there only, and it has stopped at a hole or at the
  -- greatest index.
  pub insert_entries_lem :
      (base i : ℕ) (m : LogManager P D C W) (e : LogEntry P D) (es : List (LogEntry P D))
      → Fits base m
      → Run i (e ∷ es)
      → base ≤ i
      → base ≤ m.last_log_index + 1
      → m.last_log_index ≤ m.max_log_index
      → m.max_log_index < i + 1024
      → length es < 1024
      → (m' : LogManager P D C W) × (insert_entries m e es ≡ some m')
        × Inserted base i m m' (e ∷ es)
  unfolding insert_entries
  insert_entries_lem base i m e es f r lo pos le near short =
      let back = back-Run i e es r in
      let n = (back_of e es).id.index - m.max_log_index in
      let filled = push_holes n m in
      let (ff, max, last) = push_holes_lem base n m f in
      let (m1, run, p) =
        place_lem base i filled (e ∷ es) r ff lo (omega (arith, max, back))
          (omega (arith, max, back, near, short)) in
      let (end, done, a, b, there, stop) =
        connected_lem base m1 p.fits (omega (arith, p.same_last, last, pos))
          (omega (arith, p.same_last, p.same_max, last, max, le)) in
      let first : filled.max_log_index + 1 - length filled.logs_in_memory ≡ base =
        omega (arith, ff.ends) in
      (
        record m1 { last_log_index = end },
        rw (first, run) done,
        record {
          fits = record { aligned = p.fits.aligned; ends = p.fits.ends };
          max_of = ground (arith, p.same_max, max, back);
          holds = p.holds;
          last_le = omega (arith, a, p.same_last, last);
          le_max = b;
          no_hole = λ j above upto. there j (omega (arith, above, p.same_last, last)) upto;
          next_hole = stop;
        },
      )
