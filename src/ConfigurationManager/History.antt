-- ===== src/ConfigurationManager/History.antt =====
-- The configurations of cpp/configuration_manager.cc stay in log order, and truncation keeps a range.
use hit_consistency.Prelude.{
  refl, arith, subst, true, sym, Option-cases, inl, inr, ◌↔◌, none, Bool-cases, leb→le,
}
use hit_consistency.Prelude.{
  ℕ, List, ◌∷◌, ◌≤◌, ◌≡◌, ◌<◌, last?, if◌then◌else◌, arith, [], ◌++◌, some, leb,
}
use hit_consistency.ConfigurationManager.{
  ConfigurationEntry, ConfigurationManager, add, drop_front, drop_back, truncate_prefix,
  truncate_suffix,
}

module _ {P : Type 0} where
  -- Every entry lies above an index.
  abbrev pub AllAbove : ℕ → List (ConfigurationEntry P) → Type 0
  AllAbove n [] = Unit {0}
  AllAbove n (c ∷ cs) = (n < c.id.index) × AllAbove n cs

  -- The indexes rise along the list.
  abbrev pub Rising : List (ConfigurationEntry P) → Type 0
  Rising [] = Unit {0}
  Rising (c ∷ cs) = AllAbove c.id.index cs × Rising cs

  -- The entries from an index on, and those up to an index.
  abbrev pub from : ℕ → List (ConfigurationEntry P) → List (ConfigurationEntry P)
  from n [] = []
  from n (c ∷ cs) = if leb n c.id.index then c ∷ from n cs else from n cs

  abbrev pub upto : ℕ → List (ConfigurationEntry P) → List (ConfigurationEntry P)
  upto n [] = []
  upto n (c ∷ cs) = if leb c.id.index n then c ∷ upto n cs else upto n cs

  pub AllAbove-mono :
      (m n : ℕ) (cs : List (ConfigurationEntry P)) → m ≤ n → AllAbove n cs → AllAbove m cs
  AllAbove-mono m n [] h a = tt
  AllAbove-mono m n (c ∷ cs) h a = (omega arith, AllAbove-mono m n cs h a.1)

  from_all : (n : ℕ) (cs : List (ConfigurationEntry P)) → AllAbove n cs → from n cs ≡ cs
  from_all n [] a = refl
  from_all n (c ∷ cs) a = ground (arith, from_all n cs a.1)

  pub upto_none : (n : ℕ) (cs : List (ConfigurationEntry P)) → AllAbove n cs → upto n cs ≡ []
  upto_none n [] a = refl
  upto_none n (c ∷ cs) a = ground (arith, upto_none n cs a.1)

  drop_front_lem :
      (n : ℕ) (cs : List (ConfigurationEntry P)) → Rising cs → drop_front n cs ≡ from n cs
  unfolding drop_front
  drop_front_lem n [] r = refl
  drop_front_lem n (c ∷ cs) r =
      ground (arith, drop_front_lem n cs r.1, from_all n cs, AllAbove-mono n c.id.index cs)

  drop_back_lem :
      (n : ℕ) (cs : List (ConfigurationEntry P)) → Rising cs → drop_back n cs ≡ upto n cs
  unfolding drop_back
  drop_back_lem n [] r = refl
  drop_back_lem n (c ∷ cs) r =
      ground (arith, drop_back_lem n cs r.1, upto_none n cs, AllAbove-mono n c.id.index cs)

  AllAbove-from :
      (m n : ℕ) (cs : List (ConfigurationEntry P)) → AllAbove m cs → AllAbove m (from n cs)
  AllAbove-from m n [] a = tt
  AllAbove-from m n (c ∷ cs) a = ground (arith, AllAbove-from m n cs a.1)

  AllAbove-upto :
      (m n : ℕ) (cs : List (ConfigurationEntry P)) → AllAbove m cs → AllAbove m (upto n cs)
  AllAbove-upto m n [] a = tt
  AllAbove-upto m n (c ∷ cs) a = ground (arith, AllAbove-upto m n cs a.1)

  from-Rising : (n : ℕ) (cs : List (ConfigurationEntry P)) → Rising cs → Rising (from n cs)
  from-Rising n [] r = tt
  from-Rising n (c ∷ cs) r = ground (arith, from-Rising n cs r.1, AllAbove-from c.id.index n cs r.0)

  upto-Rising : (n : ℕ) (cs : List (ConfigurationEntry P)) → Rising cs → Rising (upto n cs)
  upto-Rising n [] r = tt
  upto-Rising n (c ∷ cs) r = ground (arith, upto-Rising n cs r.1, AllAbove-upto c.id.index n cs r.0)

  AllAbove-append :
      (n : ℕ) (cs : List (ConfigurationEntry P)) (c : ConfigurationEntry P)
      → AllAbove n cs
      → n < c.id.index
      → AllAbove n (cs ++ c ∷ [])
  AllAbove-append n [] c a h = (h, tt)
  AllAbove-append n (d ∷ cs) c a h = (a.0, AllAbove-append n cs c a.1 h)

  last_above :
      (n : ℕ) (cs : List (ConfigurationEntry P)) {back : ConfigurationEntry P}
      → AllAbove n cs
      → last? cs ≡ some back
      → n < back.id.index
  last_above n [] a l = absurd (cc)
  last_above n (c ∷ []) {back = back} a l =
      let e : c ≡ back = cc in subst (λ x. n < x.id.index) e a.0
  last_above n (c ∷ (d ∷ cs)) {back = back} a l = last_above n (d ∷ cs) {back = back} a.1 l

  Rising-append :
      (cs : List (ConfigurationEntry P)) (c back : ConfigurationEntry P)
      → Rising cs
      → last? cs ≡ some back
      → back.id.index < c.id.index
      → Rising (cs ++ c ∷ [])
  Rising-append [] c back r l h = absurd (cc)
  Rising-append (d ∷ []) c back r l h =
      let e : d ≡ back = cc in ((subst (λ x. x.id.index < c.id.index) (sym e) h, tt), (tt, tt))
  Rising-append (d ∷ (f ∷ cs)) c back r l h = (
    AllAbove-append d.id.index (f ∷ cs) c r.0
        (omega (arith, last_above d.id.index (f ∷ cs) {back = back} r.0 l)),
    Rising-append (f ∷ cs) c back r.1 l h,
  )

  -- On a history that rises: truncate_prefix keeps exactly the entries from the given index on and
  -- truncate_suffix exactly those up to it, in order, the snapshot's configuration is left alone,
  -- and the history still rises.
  pub truncate_lem :
      (m : ConfigurationManager P) (index : ℕ)
      → Rising m.configurations
      → (truncate_prefix m index ≡ record m { configurations = from index m.configurations })
        × (truncate_suffix m index ≡ record m { configurations = upto index m.configurations })
        × Rising (truncate_prefix m index).configurations
        × Rising (truncate_suffix m index).configurations
  unfolding truncate_prefix truncate_suffix
  truncate_lem m index r =
      let a = drop_front_lem index m.configurations r in
      let b = drop_back_lem index m.configurations r in
      (
        rw a,
        rw b,
        rw a (from-Rising index m.configurations r),
        rw b (upto-Rising index m.configurations r),
      )

  -- Every entry lies below an index.
  abbrev pub AllBelow : ℕ → List (ConfigurationEntry P) → Type 0
  AllBelow n [] = Unit {0}
  AllBelow n (c ∷ cs) = (c.id.index < n) × AllBelow n cs

  last_below :
      (n : ℕ) (cs : List (ConfigurationEntry P)) {back : ConfigurationEntry P}
      → Rising cs
      → last? cs ≡ some back
      → (back.id.index < n) ↔ AllBelow n cs
  last_below n [] r l = absurd (cc)
  last_below n (c ∷ []) {back = back} r l =
      let e : c ≡ back = cc in
      subst (λ x. (x.id.index < n) ↔ AllBelow n (c ∷ [])) e ((λ h. (h, tt)), λ h. h.0)
  last_below n (c ∷ (d ∷ cs)) {back = back} r l =
      let ih = last_below n (d ∷ cs) {back = back} r.1 l in
      let above = last_above c.id.index (d ∷ cs) {back = back} r.0 l in
      ((λ h. (omega arith, ih.0 h)), λ h. ih.1 h.1)

  last_none : (cs : List (ConfigurationEntry P)) → last? cs ≡ none → cs ≡ []
  last_none [] l = refl
  last_none (c ∷ []) l = cc
  last_none (c ∷ (d ∷ cs)) l = absurd (cc (last_none (d ∷ cs) l))

  -- On a history that rises, add succeeds exactly if every entry's index is below the new one's; it
  -- then puts the new entry last, and otherwise changes nothing. The history still rises.
  pub add_lem :
      (m : ConfigurationManager P) (entry : ConfigurationEntry P)
      → Rising m.configurations
      → Rising (add m entry).0.configurations
        × (((add m entry).1 ≡ true) ↔ AllBelow entry.id.index m.configurations)
        × ((add m entry).0 ≡ (
            if (add m entry).1
            then record m { configurations = m.configurations ++ entry ∷ [] }
            else m))
  unfolding add
  add_lem m entry r = elim (Option-cases (last? m.configurations)) [
    | inl e ↦
        let empty = last_none m.configurations e in
        rw (e, add) (rw empty (((tt, tt)), ((λ h. tt), λ h. refl), refl))
    | inr (back, e) ↦
        let below = last_below entry.id.index m.configurations {back = back} r e in
        elim (Bool-cases (leb entry.id.index back.id.index)) [
          | inl refused ↦
              rw (e, add)
                (rw refused (
                  r,
                  ((λ h. cc), λ h. absurd (omega (arith, below.1 h, leb→le _ _ refused))),
                  refl,
                ))
          | inr fits ↦
              rw (e, add)
                (rw fits (
                  Rising-append m.configurations entry back r e (ground arith),
                  ((λ h. below.0 (ground arith)), λ h. refl),
                  refl,
                ))
        ]
  ]
