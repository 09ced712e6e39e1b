-- ===== src/ClosureQueue/Loop.antt =====
-- The loop of cpp/closure_queue.cc, pop_closure_until, over a list of offsets into the queue.
use hit_consistency.Prelude.{
  ℕ, zero, suc, ◌+◌, ◌-◌, ◌≤◌, Option-cases, subst, ◌<◌, ◌≡◌, refl, ◌∙◌, Bool, true, false, not,
  ◌&&◌, ◌||◌, Option, none, some, List, [], ◌∷◌, ◌++◌, length, get_elem?, get_elem?-lt, length-set,
  set, ◌==◌, nat_eq, contains, Distinct, arith, Bool-cases, inl, inr,
}
use hit_consistency.ClosureQueue.{Visit, visit, pop_loop}

-- The flag at an offset; past the end there is none set.
abbrev pub flag : List Bool → ℕ → Bool
flag [] i = false
flag (b ∷ bs) zero = b
flag (b ∷ bs) (suc i) = flag bs i

pub flag_elem : (bs : List Bool) (i : ℕ) → i < length bs → get_elem? bs i ≡ some (flag bs i)
flag_elem [] i h = absurd (omega arith)
flag_elem (b ∷ bs) zero h = refl
flag_elem (b ∷ bs) (suc i) h = flag_elem bs i (omega arith)

pub flag-set :
    (bs : List Bool) (i j : ℕ) → i < length bs → flag (set bs i true) j ≡ (i == j || flag bs j)
flag-set [] i j h = absurd (omega arith)
flag-set (b ∷ bs) zero zero h = refl
flag-set (b ∷ bs) zero (suc j) h = ground arith
flag-set (b ∷ bs) (suc i) zero h = ground arith
flag-set (b ∷ bs) (suc i) (suc j) h = flag-set bs i j (omega arith) ∙ ground arith

pub contains-append :
    (is : List ℕ) (i j : ℕ) → contains (is ++ i ∷ []) j ≡ (contains is j || i == j)
contains-append [] i j = ground arith
contains-append (k ∷ is) i j = ground (arith, contains-append is i j)

pub Distinct-append :
    (is : List ℕ) (i : ℕ) → Distinct is → contains is i ≡ false → Distinct (is ++ i ∷ [])
Distinct-append [] i d a = (refl, tt)
Distinct-append (k ∷ is) i d a =
    (ground (arith, contains-append is i k), Distinct-append is i d.1 (ground arith))

-- Every offset of a list lies below a bound.
abbrev pub Within : ℕ → List ℕ → Type 0
Within n [] = Unit {0}
Within n (i ∷ is) = (i < n) × Within n is

module _ {C : Type 0} (queue : List (Option C)) (first : ℕ) where
  -- The loop over offsets alone.
  pub visits : List ℕ → Visit C → Option (Visit C)
  visits [] v = some v
  visits (i ∷ is) v = elim (visit queue first v i) [ none ↦ none | some v' ↦ visits is v' ]

  -- The closures taken are those of the queue at the indexes listed.
  abbrev pub Paired : List (Option C) → List ℕ → Type 0
  Paired [] [] = Unit {0}
  Paired [] (i ∷ is) = ⊥
  Paired (c ∷ cs) [] = ⊥
  Paired (c ∷ cs) (i ∷ is) = (get_elem? queue (i - first) ≡ some c) × Paired cs is

  Paired-append :
      (cs : List (Option C)) (is : List ℕ) (c : Option C) (i : ℕ)
      → Paired cs is
      → get_elem? queue i ≡ some c
      → Paired (cs ++ c ∷ []) (is ++ (i + first) ∷ [])
  Paired-append [] [] c i p g = (subst (λ (k : ℕ). get_elem? queue k ≡ some c) (omega arith) g, tt)
  Paired-append [] (i' ∷ is) c i p g = absurd p
  Paired-append (c' ∷ cs) [] c i p g = absurd p
  Paired-append (c' ∷ cs) (i' ∷ is) c i p g = (p.0, Paired-append cs is c i p.1 g)

  pub record Sound (v : Visit C) : Type 0 where
    pub paired : Paired v.taken v.indexes
    pub distinct : Distinct v.indexes
    pub above : (i : ℕ) → i < first → contains v.indexes i ≡ false
    pub flagged : (j : ℕ) → contains v.indexes (j + first) ≡ true → flag v.flags j ≡ true

  -- What rounds at the offsets `is` do.
  pub record Visited (v : Visit C) (is : List ℕ) (v' : Visit C) : Type 0 where
    pub kept : length v'.flags ≡ length v.flags
    pub marked : (j : ℕ) → flag v'.flags j ≡ (contains is j || flag v.flags j)
    pub listed :
        (j : ℕ)
        → contains v'.indexes (j + first)
          ≡ (contains v.indexes (j + first) || (contains is j && not (flag v.flags j)))
    pub sound : Sound v → Sound v'

  visit_old : (v : Visit C) (i : ℕ) → flag v.flags i ≡ true → Visited v (i ∷ []) v
  visit_old v i f = record {
    kept = refl;
    marked = λ j. elim (Bool-cases (i == j)) [
      | inl same ↦ rw (same, ← (nat_eq.beq_iff i j).0 same) f
      | inr other ↦ rw other
    ];
    listed = λ j. elim (Bool-cases (i == j)) [
      | inl same ↦ rw (same, ← (nat_eq.beq_iff i j).0 same, f) (ground arith)
      | inr other ↦ rw other (ground arith)
    ];
    sound = λ s. s;
  }

  abbrev added : Visit C → ℕ → Option C → Visit C
  added v i c = record {
    flags = set v.flags i true;
    taken = v.taken ++ c ∷ [];
    indexes = v.indexes ++ (i + first) ∷ [];
  }

  visit_new :
      (v : Visit C) (i : ℕ) (c : Option C)
      → i < length v.flags
      → flag v.flags i ≡ false
      → get_elem? queue i ≡ some c
      → Visited v (i ∷ []) (added v i c)
  visit_new v i c h f g = record {
    kept = length-set v.flags i true;
    marked = λ j. ground (arith, flag-set v.flags i j);
    listed = λ j. ground (arith, contains-append v.indexes (i + first) (j + first));
    sound = λ s. record {
      paired = Paired-append v.taken v.indexes c i s.paired g;
      distinct = Distinct-append v.indexes (i + first) s.distinct (ground (arith, s.flagged i));
      above = λ k b. ground (arith, s.above k b, contains-append v.indexes (i + first) k);
      flagged = λ j l. ground (
        arith,
        s.flagged j,
        flag-set v.flags i j,
        contains-append v.indexes (i + first) (j + first),
      );
    };
  }

  visit_lem :
      (v : Visit C) (i : ℕ)
      → length v.flags ≡ length queue
      → i < length queue
      → (v' : Visit C) × (visit queue first v i ≡ some v') × Visited v (i ∷ []) v'
  unfolding visit
  visit_lem v i w h = elim (Bool-cases (flag v.flags i)) [
    | inl old ↦ (v, rw (flag_elem v.flags i (omega arith), old), visit_old v i old)
    | inr new ↦
        let (c, g) = get_elem?-lt queue i h in
        (
          added v i c,
          rw (flag_elem v.flags i (omega arith), new, g),
          visit_new v i c (omega arith) new g,
        )
  ]

  Visited-cons :
      (v v' v'' : Visit C) (i : ℕ) (is : List ℕ)
      → Visited v (i ∷ []) v'
      → Visited v' is v''
      → Visited v (i ∷ is) v''
  Visited-cons v v' v'' i is a b = record {
    kept = b.kept ∙ a.kept;
    marked = λ j. ground (arith, a.marked j, b.marked j);
    listed = λ j. ground (arith, a.marked j, a.listed j, b.listed j);
    sound = λ s. b.sound (a.sound s);
  }

  pub visits_lem :
      (v : Visit C) (is : List ℕ)
      → length v.flags ≡ length queue
      → Within (length queue) is
      → (v' : Visit C) × (visits is v ≡ some v') × Visited v is v'
  unfolding visits
  visits_lem v [] w h = (
    v,
    refl,
    record { kept = refl; marked = λ j. refl; listed = λ j. ground arith; sound = λ s. s },
  )
  visits_lem v (i ∷ is) w h =
      let (v', e, a) = visit_lem v i w h.0 in
      let (v'', e', b) = visits_lem v' is (a.kept ∙ w) h.1 in
      (v'', rw (e, visits) e', Visited-cons v v' v'' i is a b)

  -- The offsets that the loop of the code visits.
  abbrev pub offsets : ℕ → ℕ → List ℕ → List ℕ
  offsets zero at [] = []
  offsets zero at (i ∷ oo) = (i - first) ∷ offsets zero at oo
  offsets (suc n) at oo = at ∷ offsets n (at + 1) oo

  abbrev pub Above : List ℕ → Type 0
  Above [] = Unit {0}
  Above (i ∷ is) = (first ≤ i) × Above is

  pub pop_loop-eq-visits :
      (n at : ℕ) (oo : List ℕ) (v : Visit C)
      → Above oo
      → pop_loop queue first n at oo v ≡ visits (offsets n at oo) v
  unfolding pop_loop visits
  pop_loop-eq-visits zero at [] v a = refl
  pop_loop-eq-visits zero at (i ∷ oo) v a = elim (Option-cases (visit queue first v (i - first))) [
    | inl e ↦ ground (arith, e)
    | inr (v', e) ↦ ground (arith, e, pop_loop-eq-visits zero at oo v' a.1)
  ]
  pop_loop-eq-visits (suc n) at oo v a = elim (Option-cases (visit queue first v at)) [
    | inl e ↦ ground (arith, e)
    | inr (v', e) ↦ ground (arith, e, pop_loop-eq-visits n (at + 1) oo v' a)
  ]
