-- ===== src/LogManager/Truncation.antt =====
-- What unsafe_truncate_suffix of cpp/log_manager.cc leaves of the log in memory.
use hit_consistency.Prelude.{
  [], ◌∷◌, List, refl, arith, ℕ, Option, none, some, ◌≡◌, ◌≤◌, ◌⊎◌, inl, inr, ◌↔◌, ◌+◌, ◌-◌, length,
  ltb, ap₂, sym, subst, length_nil, Bool-cases,
}
use hit_consistency.LogEntry.{LogEntry}
use hit_consistency.LogManager.{
  LogManager, drop_after, keep_back, cut_logs, cut, get_term, unsafe_truncate_suffix,
}
use hit_consistency.LogManager.Memory.{Aligned}

module _ {P D : Type 0} where
  -- The first list begins the second.
  abbrev Prefix : List (Option (LogEntry P D)) → List (Option (LogEntry P D)) → Type 0
  Prefix [] ys = Unit {0}
  Prefix (x ∷ xs) [] = ⊥
  Prefix (x ∷ xs) (y ∷ ys) = (x ≡ y) × Prefix xs ys

  abbrev Kept : Option (List (Option (LogEntry P D))) → List (Option (LogEntry P D)) → Type 0
  Kept none logs = Unit {0}
  Kept (some front) logs = Prefix front logs

  keep_back-Kept :
      (kept : ℕ) (e : Option (LogEntry P D)) (es : List (Option (LogEntry P D)))
      → Kept (keep_back kept e) (e ∷ es)
  keep_back-Kept kept none es = tt
  keep_back-Kept kept (some e) es = elim (Bool-cases (ltb kept e.id.index)) [
    | inl above ↦ rw above tt
    | inr upto ↦ rw upto (refl, tt)
  ]

  round-Kept :
      (kept : ℕ) (e : Option (LogEntry P D)) (es : List (Option (LogEntry P D)))
      (r : Option (List (Option (LogEntry P D))))
      → Kept r es
      → Kept
          (elim r [
            | none ↦ none
            | some [] ↦ keep_back kept e
            | some (y ∷ ys) ↦ some (e ∷ (y ∷ ys))
          ])
          (e ∷ es)
  round-Kept kept e es none h = tt
  round-Kept kept e es (some []) h = keep_back-Kept kept e es
  round-Kept kept e es (some (y ∷ ys)) h = (refl, h)

  drop_after-Kept :
      (kept : ℕ) (logs : List (Option (LogEntry P D))) → Kept (drop_after kept logs) logs
  unfolding drop_after
  drop_after-Kept kept [] = tt
  drop_after-Kept kept (e ∷ es) =
      round-Kept kept e es (drop_after kept es) (drop_after-Kept kept es)

  same_length :
      (xs ys : List (Option (LogEntry P D))) → Prefix xs ys → length xs ≡ length ys → xs ≡ ys
  same_length [] ys p h = sym (length_nil ys (sym h))
  same_length (x ∷ xs) [] p h = absurd p
  same_length (x ∷ xs) (y ∷ ys) p h =
      ap₂ (λ a l. a ∷ l) p.0 (same_length xs ys p.1 (omega (arith, h)))

  Prefix-length : (xs ys : List (Option (LogEntry P D))) → Prefix xs ys → length xs ≤ length ys
  Prefix-length [] ys p = omega arith
  Prefix-length (x ∷ xs) [] p = absurd p
  Prefix-length (x ∷ xs) (y ∷ ys) p = omega (arith, Prefix-length xs ys p.1)

  Prefix_refl : (xs : List (Option (LogEntry P D))) → Prefix xs xs
  Prefix_refl [] = tt
  Prefix_refl (x ∷ xs) = (refl, Prefix_refl xs)

  front_base :
      (base b : ℕ) (logs front : List (Option (LogEntry P D))) (e : LogEntry P D)
      (es : List (Option (LogEntry P D)))
      → logs ≡ some e ∷ es
      → Aligned base logs
      → Prefix front logs
      → Aligned b front
      → (front ≡ []) ⊎ (b ≡ base)
  front_base base b logs [] e es begins a p h = inl refl
  front_base base b [] (x ∷ xs) e es begins a p h = absurd p
  front_base base b (none ∷ ys) (x ∷ xs) e es begins a p h = absurd (cc)
  front_base base b (some y ∷ ys) (none ∷ xs) e es begins a p h = absurd (cc)
  front_base base b (some y ∷ ys) (some x ∷ xs) e es begins a p h =
      inr (ground (arith, p.0, h.0, a.0))

  Aligned-iff :
      (max max' : ℕ) (logs front : List (Option (LogEntry P D))) (e : LogEntry P D)
      (es : List (Option (LogEntry P D)))
      → logs ≡ some e ∷ es
      → length logs ≤ max + 1
      → Aligned (max + 1 - length logs) logs
      → max' ≡ max
      → Prefix front logs
      → Aligned (max' + 1 - length front) front ↔ ((front ≡ logs) ⊎ (front ≡ []))
  Aligned-iff max max' logs front e es begins fits al same p =
      let shorter = Prefix-length front logs p in
      (
        (λ h.
            elim (front_base (max + 1 - length logs) (max' + 1 - length front) logs front e es
              begins al p h) [
                | inl nothing ↦ inr nothing
                | inr bases ↦
                    inl (same_length front logs p (omega (arith, bases, same, fits, shorter)))
              ]),
        λ h. elim h [
          | inl all ↦
              subst (λ l. Aligned (max' + 1 - length l) l) (sym all)
                (subst (λ k. Aligned (k + 1 - length logs) logs) (sym same) al)
          | inr nothing ↦ subst (λ l. Aligned (max' + 1 - length l) l) (sym nothing) tt
        ],
      )

module _ {P D C W : Type 0} (stored_term : ℕ → ℕ) where
  abbrev Cut :
      LogManager P D C W → List (Option (LogEntry P D)) → Option (LogManager P D C W) → Type 0
  Cut m logs none = Unit {0}
  Cut m logs (some m') = (m'.max_log_index ≡ m.max_log_index) × Prefix m'.logs_in_memory logs

  cut-Cut :
      (m n : LogManager P D C W) (kept : ℕ) (logs : List (Option (LogEntry P D))) (t : Option ℕ)
      → n.max_log_index ≡ m.max_log_index
      → Prefix n.logs_in_memory logs
      → Cut m logs (cut stored_term n kept t)
  cut-Cut m n kept logs none a b = tt
  cut-Cut m n kept logs (some t) a b = (a, b)

  cut_logs-Cut :
      (m : LogManager P D C W) (kept : ℕ) (logs : List (Option (LogEntry P D)))
      (r : Option (List (Option (LogEntry P D))))
      → Kept r logs
      → Cut m logs (cut_logs stored_term m kept r)
  cut_logs-Cut m kept logs none h = tt
  cut_logs-Cut m kept logs (some front) h =
      let m' = record m { logs_in_memory = front; last_log_index = kept } in
      cut-Cut m m' kept logs (get_term stored_term m' kept) refl h

  truncate-Cut :
      (m : LogManager P D C W) (kept : ℕ)
      → Cut m m.logs_in_memory (unsafe_truncate_suffix stored_term m kept)
  unfolding unsafe_truncate_suffix
  truncate-Cut m kept = elim (Bool-cases (ltb kept m.applied_id.index)) [
    | inl below ↦ rw below (refl, Prefix_refl m.logs_in_memory)
    | inr above ↦ rw above (
        cut_logs-Cut m kept m.logs_in_memory (drop_after kept m.logs_in_memory)
          (drop_after-Kept kept m.logs_in_memory))
  ]

  -- In a memory that begins with an entry, whose entries all stand at their index counted from the
  -- position that the greatest index gives, a truncation leaves the entries at the positions that the
  -- greatest index then gives exactly if it drops nothing or everything.
  pub truncation-Aligned :
      (m m' : LogManager P D C W) (kept : ℕ) (e : LogEntry P D) (es : List (Option (LogEntry P D)))
      → m.logs_in_memory ≡ some e ∷ es
      → length m.logs_in_memory ≤ m.max_log_index + 1
      → Aligned (m.max_log_index + 1 - length m.logs_in_memory) m.logs_in_memory
      → unsafe_truncate_suffix stored_term m kept ≡ some m'
      → Aligned (m'.max_log_index + 1 - length m'.logs_in_memory) m'.logs_in_memory
        ↔ ((m'.logs_in_memory ≡ m.logs_in_memory) ⊎ (m'.logs_in_memory ≡ []))
  truncation-Aligned m m' kept e es begins fits al cut_done =
      let (same, front) = subst (Cut m m.logs_in_memory) cut_done (truncate-Cut m kept) in
      Aligned-iff m.max_log_index m'.max_log_index m.logs_in_memory m'.logs_in_memory e es begins
        fits al same front
