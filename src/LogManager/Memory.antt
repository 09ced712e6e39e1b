-- ===== src/LogManager/Memory.antt =====
-- The log in memory of cpp/log_manager.cc: where an entry stands, and what is dropped from it.
use hit_consistency.Prelude.{
  refl, [], ◌∷◌, List, arith, ℕ, ◌&&◌, Option, none, some, ◌≡◌, inl, inr, ◌+◌, ◌-◌, length,
  get_elem?, last?, leb, ltb, if◌then◌else◌, ap, Bool-cases, ◌++◌, false,
}
use hit_consistency.LogEntry.{LogEntry, LogId, less, greater}
use hit_consistency.LogManager.{
  get_entry_from_memory, drop_upto, LogManager, min_id, set_disk_id, set_applied_id,
  clear_memory_logs,
}

module _ {P D : Type 0} where
  -- Every entry in memory stands at its index, counted from `base`.
  abbrev pub Aligned : ℕ → List (Option (LogEntry P D)) → Type 0
  Aligned base [] = Unit {0}
  Aligned base (none ∷ es) = Aligned (base + 1) es
  Aligned base (some e ∷ es) = (e.id.index ≡ base) × Aligned (base + 1) es

  last_index :
      (base : ℕ) (logs : List (Option (LogEntry P D))) (back : LogEntry P D)
      → Aligned base logs
      → last? logs ≡ some (some back)
      → back.id.index + 1 ≡ base + length logs
  last_index base [] back a l = absurd (cc)
  last_index base (none ∷ []) back a l = absurd (cc)
  last_index base (some e ∷ []) back a l = ground (arith, a)
  last_index base (none ∷ (x ∷ es)) back a l =
      ground (arith, last_index (base + 1) (x ∷ es) back a l)
  last_index base (some e ∷ (x ∷ es)) back a l =
      ground (arith, last_index (base + 1) (x ∷ es) back a.1 l)

  -- In an aligned memory whose last entry is there, get_entry_from_memory gives for each index what
  -- stands at its position, also a null pointer for a hole, and a null pointer for an index outside
  -- of the memory; it follows no null pointer.
  pub get_entry_from_memory_lem :
      (base i : ℕ) (logs : List (Option (LogEntry P D))) (back : LogEntry P D)
      → Aligned base logs
      → last? logs ≡ some (some back)
      → get_entry_from_memory logs i ≡ (
          if leb base i && ltb i (base + length logs) then get_elem? logs (i - base) else some none)
  unfolding get_entry_from_memory
  get_entry_from_memory_lem base i logs back a l =
      let h = last_index base logs back a l in
      elim (Bool-cases (leb base i && ltb i (base + length logs))) [
        | inl inside ↦
            let at : i + length logs - (back.id.index + 1) ≡ i - base = omega (arith, h) in
            ground (arith, h, ap (get_elem? logs) at)
        | inr outside ↦ ground (arith, h)
      ]

  -- The dropped entries are all there, and none is above the id.
  abbrev pub AllUpto : LogId → List (Option (LogEntry P D)) → Type 0
  AllUpto id [] = Unit {0}
  AllUpto id (none ∷ es) = ⊥
  AllUpto id (some e ∷ es) = (greater e.id id ≡ false) × AllUpto id es

  -- What is left of a memory after entries up to an id are dropped.
  abbrev pub Dropped : LogId → List (Option (LogEntry P D)) → List (Option (LogEntry P D)) → Type 0
  Dropped id logs rest =
      (front : List (Option (LogEntry P D))) × (logs ≡ front ++ rest) × AllUpto id front

  drop_upto-Dropped :
      (id : LogId) (logs : List (Option (LogEntry P D))) → Dropped id logs (drop_upto id logs)
  unfolding drop_upto
  drop_upto-Dropped id [] = ([], refl, tt)
  drop_upto-Dropped id (none ∷ es) = ([], refl, tt)
  drop_upto-Dropped id (some e ∷ es) = elim (Bool-cases (greater e.id id)) [
    | inl above ↦ rw above ([], refl, tt)
    | inr upto ↦
        let (front, same, all) = drop_upto-Dropped id es in
        rw upto (some e ∷ front, ap (λ l. some e ∷ l) same, (upto, all))
  ]

  AllUpto-mono :
      (id id' : LogId) (logs : List (Option (LogEntry P D)))
      → less id' id ≡ false
      → AllUpto id logs
      → AllUpto id' logs
  unfolding less greater
  AllUpto-mono id id' [] h a = tt
  AllUpto-mono id id' (none ∷ es) h a = a
  AllUpto-mono id id' (some e ∷ es) h a = (ground (arith, h, a.0), AllUpto-mono id id' es h a.1)

min_id-less : (a b : LogId) → (less a (min_id a b) ≡ false) × (less b (min_id a b) ≡ false)
unfolding less
min_id-less a b = ground arith

drop_min :
    {P D : Type 0} (a b : LogId) (logs : List (Option (LogEntry P D)))
    → Dropped a logs (drop_upto (min_id a b) logs) × Dropped b logs (drop_upto (min_id a b) logs)
drop_min a b logs =
    let (front, same, all) = drop_upto-Dropped (min_id a b) logs in
    let (below_a, below_b) = min_id-less a b in
    (
      (front, same, AllUpto-mono (min_id a b) a front below_a all),
      (front, same, AllUpto-mono (min_id a b) b front below_b all),
    )

less_irrefl : (a : LogId) → less a a ≡ false
unfolding less
less_irrefl a = ground arith

module _ {P D C W : Type 0} where
  set_disk_id_lem :
      (m : LogManager P D C W) (id : LogId)
      → let d = set_disk_id m id in
        (less d.disk_id m.disk_id ≡ false)
        × (d.applied_id ≡ m.applied_id)
        × Dropped d.disk_id m.logs_in_memory d.logs_in_memory
        × Dropped d.applied_id m.logs_in_memory d.logs_in_memory
  unfolding set_disk_id clear_memory_logs
  set_disk_id_lem m id =
      let (disk, applied) = drop_min id m.applied_id m.logs_in_memory in
      elim (Bool-cases (less id m.disk_id)) [
        | inl old ↦ rw old (less_irrefl m.disk_id, refl, ([], refl, tt), ([], refl, tt))
        | inr new ↦ rw new (new, refl, disk, applied)
      ]

  set_applied_id_lem :
      (m : LogManager P D C W) (id : LogId)
      → let a = set_applied_id m id in
        (less a.applied_id m.applied_id ≡ false)
        × (a.disk_id ≡ m.disk_id)
        × Dropped a.disk_id m.logs_in_memory a.logs_in_memory
        × Dropped a.applied_id m.logs_in_memory a.logs_in_memory
  unfolding set_applied_id clear_memory_logs
  set_applied_id_lem m id =
      let (disk, applied) = drop_min m.disk_id id m.logs_in_memory in
      elim (Bool-cases (less id m.applied_id)) [
        | inl old ↦ rw old (less_irrefl m.applied_id, refl, ([], refl, tt), ([], refl, tt))
        | inr new ↦ rw new (new, refl, disk, applied)
      ]

  -- set_disk_id and set_applied_id never take the id back, and they drop from the front of the
  -- memory only entries that are there and whose id is above neither the disk's nor the applied one.
  pub set_id_lem :
      (m : LogManager P D C W) (id : LogId)
      → let d = set_disk_id m id in
        let a = set_applied_id m id in
        (less d.disk_id m.disk_id ≡ false)
        × (d.applied_id ≡ m.applied_id)
        × Dropped d.disk_id m.logs_in_memory d.logs_in_memory
        × Dropped d.applied_id m.logs_in_memory d.logs_in_memory
        × (less a.applied_id m.applied_id ≡ false)
        × (a.disk_id ≡ m.disk_id)
        × Dropped a.disk_id m.logs_in_memory a.logs_in_memory
        × Dropped a.applied_id m.logs_in_memory a.logs_in_memory
  set_id_lem m id =
      let (a, b, c, d) = set_disk_id_lem m id in
      let (e, f, g, h) = set_applied_id_lem m id in (a, b, c, d, e, f, g, h)
