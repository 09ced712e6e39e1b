-- ===== src/LogManager/Insertion.antt =====
-- The part of append_entries of cpp/log_manager.cc that writes entries into the log in memory.
use hit_consistency.Prelude.{
  [], ◌∷◌, List, refl, arith, ℕ, zero, suc, false, Option, none, some, ◌≡◌, ◌≢◌, ◌≤◌, ◌<◌, ◌==◌,
  nat_eq, ◌⊎◌, inl, inr, ◌+◌, ◌-◌, ◌++◌, length, get_elem?, set, ltb, ap, sym, ◌∙◌, get_elem?-lt,
  Bool-cases,
}
use hit_consistency.LogEntry.{LogEntry}
use hit_consistency.LogManager.Appending.{connect, back_of}
use hit_consistency.LogManager.Memory.{Aligned}

module _ {A : Type 0} where
  pub get_elem?-set :
      (xs : List A) (k : ℕ) (x : A) → k < length xs → get_elem? (set xs k x) k ≡ some x
  get_elem?-set [] k x h = absurd (omega arith)
  get_elem?-set (y ∷ ys) zero x h = refl
  get_elem?-set (y ∷ ys) (suc k) x h = get_elem?-set ys k x (omega (arith, h))

  pub get_elem?-set_other :
      (xs : List A) (k j : ℕ) (x : A) → k ≢ j → get_elem? (set xs k x) j ≡ get_elem? xs j
  get_elem?-set_other [] k j x h = refl
  get_elem?-set_other (y ∷ ys) zero zero x h = absurd (h refl)
  get_elem?-set_other (y ∷ ys) zero (suc j) x h = refl
  get_elem?-set_other (y ∷ ys) (suc k) zero x h = refl
  get_elem?-set_other (y ∷ ys) (suc k) (suc j) x h =
      get_elem?-set_other ys k j x (λ e. h (ap suc e))

module _ {P D : Type 0} where
  -- The entries have the indexes from `i` on.
  abbrev pub Run : ℕ → List (LogEntry P D) → Type 0
  Run i [] = Unit {0}
  Run i (e ∷ es) = (e.id.index ≡ i) × Run (i + 1) es

  -- Each entry stands at its position in a memory that begins at `first`.
  abbrev pub Holds : ℕ → List (Option (LogEntry P D)) → List (LogEntry P D) → Type 0
  Holds first logs [] = Unit {0}
  Holds first logs (e ∷ es) =
      (get_elem? logs (e.id.index - first) ≡ some (some e)) × Holds first logs es

  pub back-Run :
      (i : ℕ) (e : LogEntry P D) (es : List (LogEntry P D))
      → Run i (e ∷ es)
      → (back_of e es).id.index ≡ i + length es
  back-Run i e [] r = ground (arith, r.0)
  back-Run i e (f ∷ es) r = ground (arith, back-Run (i + 1) f es r.1)

  pub Aligned-hole :
      (base : ℕ) (logs : List (Option (LogEntry P D)))
      → Aligned base logs
      → Aligned base (logs ++ none ∷ [])
  Aligned-hole base [] a = tt
  Aligned-hole base (none ∷ es) a = Aligned-hole (base + 1) es a
  Aligned-hole base (some e ∷ es) a = (a.0, Aligned-hole (base + 1) es a.1)

  pub set-Aligned :
      (base k : ℕ) (logs : List (Option (LogEntry P D))) (e : LogEntry P D)
      → Aligned base logs
      → e.id.index ≡ base + k
      → Aligned base (set logs k (some e))
  set-Aligned base k [] e a h = tt
  set-Aligned base zero (none ∷ es) e a h = (omega (arith, h), a)
  set-Aligned base zero (some x ∷ es) e a h = (omega (arith, h), a.1)
  set-Aligned base (suc k) (none ∷ es) e a h = set-Aligned (base + 1) k es e a (omega (arith, h))
  set-Aligned base (suc k) (some x ∷ es) e a h =
      (a.0, set-Aligned (base + 1) k es e a.1 (omega (arith, h)))

module _ {P D : Type 0} where
  -- How far `connect` comes from `last` in `n` rounds.
  abbrev pub Connects : ℕ → ℕ → ℕ → List (Option (LogEntry P D)) → Option ℕ → Type 0
  Connects n first last logs r =
      (last' : ℕ) × (r ≡ some last')
      × (last ≤ last')
      × (last' ≤ last + n)
      × ((i : ℕ)
          → last < i
          → i ≤ last'
          → (e : LogEntry P D) × (get_elem? logs (i - first) ≡ some (some e)))
      × ((last' ≡ last + n) ⊎ (get_elem? logs (last' + 1 - first) ≡ some none))

  connect_hole :
      (n first last : ℕ) (logs : List (Option (LogEntry P D)))
      → first ≤ last + 1
      → get_elem? logs (last + 1 - first) ≡ some none
      → Connects (suc n) first last logs (connect (suc n) first logs last)
  unfolding connect
  connect_hole n first last logs f h =
      let below : ltb (last + 1) first ≡ false = ground arith in
      (
        last,
        rw (below, h),
        omega arith,
        omega arith,
        (λ i a b. absurd (omega (arith, a, b))),
        inr h,
      )

  connect_on :
      (n first last : ℕ) (logs : List (Option (LogEntry P D))) (e : LogEntry P D)
      → first ≤ last + 1
      → get_elem? logs (last + 1 - first) ≡ some (some e)
      → Connects n first (last + 1) logs (connect n first logs (last + 1))
      → Connects (suc n) first last logs (connect (suc n) first logs last)
  unfolding connect
  connect_on n first last logs e f h c =
      let below : ltb (last + 1) first ≡ false = ground arith in
      let (last', run, lo, hi, there, stop) = c in
      (
        last',
        rw (below, h) run,
        omega (arith, lo),
        omega (arith, hi),
        (λ i a b. elim (Bool-cases (last + 1 == i)) [
          | inl same ↦
              let at : last + 1 ≡ i = ground arith in
              (e, ap (λ k. get_elem? logs (k - first)) (sym at) ∙ h)
          | inr other ↦ there i (ground arith) b
        ]),
        elim stop [ inl end ↦ inl (omega (arith, end)) | inr hole ↦ inr hole ],
      )

  connect_at :
      (n first last : ℕ) (logs : List (Option (LogEntry P D))) (x : Option (LogEntry P D))
      → first ≤ last + 1
      → get_elem? logs (last + 1 - first) ≡ some x
      → Connects n first (last + 1) logs (connect n first logs (last + 1))
      → Connects (suc n) first last logs (connect (suc n) first logs last)
  connect_at n first last logs none f h c = connect_hole n first last logs f h
  connect_at n first last logs (some e) f h c = connect_on n first last logs e f h c

  -- The indexes that the last index is moved past are those of entries that are there, and it stops
  -- only at a hole or at the end.
  pub connect_lem :
      (n first last : ℕ) (logs : List (Option (LogEntry P D)))
      → first ≤ last + 1
      → last + n < first + length logs
      → Connects n first last logs (connect n first logs last)
  unfolding connect
  connect_lem zero first last logs f fits = (
    last,
    refl,
    omega arith,
    omega arith,
    (λ i a b. absurd (omega (arith, a, b))),
    inl (omega arith),
  )
  connect_lem (suc n) first last logs f fits =
      let (x, at) = get_elem?-lt logs (last + 1 - first) (omega (arith, f, fits)) in
      connect_at n first last logs x f at
        (connect_lem n first (last + 1) logs (omega (arith, f)) (omega (arith, fits)))
