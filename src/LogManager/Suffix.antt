-- ===== src/LogManager/Suffix.antt =====
-- Which entries of the log in memory unsafe_truncate_suffix of cpp/log_manager.cc drops.
use hit_consistency.Prelude.{
  [], ◌∷◌, List, refl, arith, ℕ, zero, suc, true, false, Option, none, some, ◌≡◌, ◌≤◌, ◌<◌, inl,
  inr, ◌+◌, ◌-◌, ◌++◌, ◌==◌, nat_eq, ◌||◌, ◌&&◌, length, take, take_short, length-take, get_elem?,
  last?, ltb, leb, if◌then◌else◌, ap, sym, ◌∙◌, Bool-cases,
}
use hit_consistency.LogEntry.{LogEntry}
use hit_consistency.ConfigurationManager.{truncate_suffix as forget_after}
use hit_consistency.LogManager.{
  LogManager, cut_suffix, drop_after, keep_back, cut_logs, cut, get_term, unsafe_truncate_suffix,
  get_entry_from_memory, term_at,
}
use hit_consistency.LogManager.Memory.{Aligned, get_entry_from_memory_lem}

module _ {P D : Type 0} where
  -- The entries from the index `base` on, without holes.
  abbrev pub Full : ℕ → List (Option (LogEntry P D)) → Type 0
  Full base [] = Unit {0}
  Full base (none ∷ es) = ⊥
  Full base (some e ∷ es) = (e.id.index ≡ base) × Full (base + 1) es

  Full-Aligned :
      (base : ℕ) (logs : List (Option (LogEntry P D))) → Full base logs → Aligned base logs
  Full-Aligned base [] f = tt
  Full-Aligned base (none ∷ es) f = absurd f
  Full-Aligned base (some e ∷ es) f = (f.0, Full-Aligned (base + 1) es f.1)

  Full-take :
      (base n : ℕ) (logs : List (Option (LogEntry P D))) → Full base logs → Full base (take n logs)
  Full-take base zero logs f = tt
  Full-take base (suc n) [] f = tt
  Full-take base (suc n) (none ∷ es) f = absurd f
  Full-take base (suc n) (some e ∷ es) f = (f.0, Full-take (base + 1) n es f.1)

  last-take :
      (k : ℕ) (logs : List (Option (LogEntry P D))) (x : Option (LogEntry P D))
      → get_elem? logs k ≡ some x
      → last? (take (suc k) logs) ≡ some x
  last-take k [] x h = absurd cc
  last-take zero (y ∷ ys) x h = h
  last-take (suc k) (y ∷ []) x h = absurd cc
  last-take (suc k) (y ∷ (z ∷ zs)) x h = last-take k (z ∷ zs) x h

  Full-last :
      (base : ℕ) (e : Option (LogEntry P D)) (es : List (Option (LogEntry P D)))
      → Full base (e ∷ es)
      → (back : LogEntry P D) × (last? (e ∷ es) ≡ some (some back))
  Full-last base none es f = absurd f
  Full-last base (some e) [] f = (e, refl)
  Full-last base (some e) (x ∷ es) f = Full-last (base + 1) x es f.1

  kept_round :
      (kept : ℕ) (e : LogEntry P D) (zs : List (Option (LogEntry P D)))
      → ltb kept e.id.index ≡ false
      → (elim zs [ [] ↦ keep_back kept (some e) | y ∷ ys ↦ some (some e ∷ (y ∷ ys)) ])
        ≡ some (some e ∷ zs)
  kept_round kept e [] h = rw (h)
  kept_round kept e (z ∷ zs) h = refl

  drop_after_lem :
      (base kept : ℕ) (logs : List (Option (LogEntry P D)))
      → Full base logs
      → drop_after kept logs ≡ some (take (kept + 1 - base) logs)
  unfolding drop_after
  drop_after_lem base kept [] f = ap some (sym (take_short (kept + 1 - base) [] (omega arith)))
  drop_after_lem base kept (none ∷ es) f = absurd f
  drop_after_lem base kept (some e ∷ es) f =
      let rest = drop_after_lem (base + 1) kept es f.1 in
      elim (Bool-cases (ltb kept base)) [
        | inl above ↦
            let nothing : kept + 1 - (base + 1) ≡ 0 = ground (arith, above) in
            let nothing' : kept + 1 - base ≡ 0 = ground (arith, above) in
            let out : ltb kept e.id.index ≡ true = ap (ltb kept) f.0 ∙ above in
            rw (drop_after, rest, nothing, nothing', out)
        | inr upto ↦
            let more : kept + 1 - base ≡ suc (kept + 1 - (base + 1)) = ground (arith, upto) in
            let inside : ltb kept e.id.index ≡ false = ap (ltb kept) f.0 ∙ upto in
            rw (drop_after, rest, more) (kept_round kept e (take (kept + 1 - (base + 1)) es) inside)
      ]

  get_elem?-length :
      (k : ℕ) (logs : List (Option (LogEntry P D))) (x : Option (LogEntry P D))
      → get_elem? logs k ≡ some x
      → k < length logs
  get_elem?-length k [] x h = absurd cc
  get_elem?-length zero (y ∷ ys) x h = omega arith
  get_elem?-length (suc k) (y ∷ ys) x h = omega (arith, get_elem?-length k ys x h)

  get_elem?-take :
      (i n : ℕ) (logs : List (Option (LogEntry P D)))
      → i < n
      → get_elem? (take n logs) i ≡ get_elem? logs i
  get_elem?-take i zero logs h = absurd (omega (arith, h))
  get_elem?-take i (suc n) [] h = refl
  get_elem?-take zero (suc n) (y ∷ ys) h = refl
  get_elem?-take (suc i) (suc n) (y ∷ ys) h = get_elem?-take i n ys (omega (arith, h))

  Full-back :
      (base k : ℕ) (logs : List (Option (LogEntry P D)))
      → Full base logs
      → k < length logs
      → (back : LogEntry P D) × (last? logs ≡ some (some back))
  Full-back base k [] f h = absurd (omega (arith, h))
  Full-back base k (x ∷ xs) f h = Full-last base x xs f

  get_entry-found :
      (base i : ℕ) (logs : List (Option (LogEntry P D))) (e : LogEntry P D)
      → Full base logs
      → base ≤ i
      → get_elem? logs (i - base) ≡ some (some e)
      → get_entry_from_memory logs i ≡ some (some e)
  get_entry-found base i logs e f low found =
      let bound = get_elem?-length (i - base) logs (some e) found in
      let (back, end) = Full-back base (i - base) logs f bound in
      let inside : (leb base i && ltb i (base + length logs)) ≡ true = ground (arith, low, bound) in
      get_entry_from_memory_lem base i logs back (Full-Aligned base logs f) end ∙ rw (inside) found

  -- Looking up an index in a memory without holes and in its entries up to the index `kept`.
  get_entry-take :
      (base kept i : ℕ) (logs : List (Option (LogEntry P D))) (e : LogEntry P D)
      → Full base logs
      → base ≤ kept
      → get_elem? logs (kept - base) ≡ some (some e)
      → get_entry_from_memory (take (kept + 1 - base) logs) i
        ≡ (if leb i kept then get_entry_from_memory logs i else some none)
  get_entry-take base kept i logs e f low found =
      let n = kept + 1 - base in
      let next : n ≡ suc (kept - base) = omega (arith, low) in
      let bound = get_elem?-length (kept - base) logs (some e) found in
      let many : length (take n logs) ≡ n = length-take n logs (omega (arith, low, bound)) in
      let last : last? (take n logs) ≡ some (some e) =
        ap (λ m. last? (take m logs)) next ∙ last-take (kept - base) logs (some e) found in
      let short =
        get_entry_from_memory_lem base i (take n logs) e
          (Full-Aligned base (take n logs) (Full-take base n logs f)) last in
      let (back, end) = Full-back base (kept - base) logs f bound in
      let long = get_entry_from_memory_lem base i logs back (Full-Aligned base logs f) end in
      elim (Bool-cases (leb base i && leb i kept)) [
        | inl inside ↦
            let same = get_elem?-take (i - base) n logs (ground (arith, inside, low)) in
            ground (arith, inside, short, long, many, bound, same, low)
        | inr outside ↦ ground (arith, outside, short, long, many, bound, low)
      ]

module _ {P D C W : Type 0} (stored_term : ℕ → ℕ) where
  get_term-found :
      (m : LogManager P D C W) (index : ℕ) (e : LogEntry P D)
      → 0 < index
      → m.first_log_index ≤ index
      → index ≤ m.max_log_index
      → get_entry_from_memory m.logs_in_memory index ≡ some (some e)
      → get_term stored_term m index ≡ some e.id.term
  unfolding get_term
  get_term-found m index e positive low high found =
      let is_zero : (index == 0) ≡ false = ground (arith, positive) in
      let is_out : (ltb m.max_log_index index || ltb index m.first_log_index) ≡ false =
        ground (arith, low, high) in
      rw (get_term, is_zero, is_out) (ap (term_at stored_term index) found)

  -- In a memory without holes, a truncation is defined to an index above 0 whose entry is there, that
  -- is from first_log_index up to _max_log_index and not below the applied one. Every index up to it is
  -- then looked up as before, and no later one is found; the memory has no holes, the index is the last
  -- of the log, the configurations are cut there too, and the disk thread is given the truncation with
  -- the term of the index's entry.
  pub unsafe_truncate_suffix_lem :
      (m : LogManager P D C W) (base kept : ℕ) (e : LogEntry P D)
      → Full base m.logs_in_memory
      → base ≤ kept
      → get_elem? m.logs_in_memory (kept - base) ≡ some (some e)
      → 0 < kept
      → m.first_log_index ≤ kept
      → kept ≤ m.max_log_index
      → m.applied_id.index ≤ kept
      → (m' : LogManager P D C W) × (unsafe_truncate_suffix stored_term m kept ≡ some m')
        × Full base m'.logs_in_memory
        × ((i : ℕ)
            → get_entry_from_memory m'.logs_in_memory i
              ≡ (if leb i kept then get_entry_from_memory m.logs_in_memory i else some none))
        × (m'.last_log_index ≡ kept)
        × (m'.config_manager ≡ forget_after m.config_manager kept)
        × (m'.disk_queue ≡ m.disk_queue ++ cut_suffix kept e.id.term ∷ [])
  unfolding unsafe_truncate_suffix
  unsafe_truncate_suffix_lem m base kept e f low found positive from upto applied =
      let n = kept + 1 - base in
      let logs = take n m.logs_in_memory in
      let cut_to : LogManager P D C W = record m { logs_in_memory = logs; last_log_index = kept } in
      let lookup = λ (i : ℕ). get_entry-take base kept i m.logs_in_memory e f low found in
      let is_applied : ltb kept m.applied_id.index ≡ false = ground (arith, applied) in
      let at_kept : get_entry_from_memory logs kept ≡ some (some e) =
        lookup kept ∙ ground (arith, get_entry-found base kept m.logs_in_memory e f low found) in
      let term = get_term-found cut_to kept e positive from upto at_kept in
      let m' : LogManager P D C W = record cut_to {
        config_manager = forget_after m.config_manager kept;
        disk_queue = m.disk_queue ++ cut_suffix kept e.id.term ∷ [];
      } in
      (
        m',
        rw (unsafe_truncate_suffix, is_applied)
            (ap (cut_logs stored_term m kept) (drop_after_lem base kept m.logs_in_memory f)
              ∙ ap (cut stored_term cut_to kept) term),
        Full-take base n m.logs_in_memory f,
        lookup,
        refl,
        refl,
        refl,
      )
