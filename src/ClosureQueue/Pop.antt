-- ===== src/ClosureQueue/Pop.antt =====
-- What pop_closure_until of cpp/closure_queue.cc delivers.
use hit_consistency.Prelude.{
  ℕ, zero, suc, ◌+◌, ◌-◌, ◌≤◌, ◌<◌, ◌≡◌, refl, ap, sym, ◌∙◌, Bool, true, false, not, ◌&&◌, ◌||◌,
  Option, some, List, [], ◌∷◌, length, get_elem?, ltb, leb, nat_eq, contains, Distinct, arith,
  Bool-cases, inl, inr, subst, InRange,
}
use hit_consistency.ClosureQueue.{
  ClosureQueue, Popped, last_is, trim, Visit, pop_closure_until, is_empty, finish,
}
use hit_consistency.ClosureQueue.Loop.{
  flag, Within, Paired, offsets, Above, Sound, Visited, visits_lem, pop_loop-eq-visits,
}

-- The closure at a log index has left the queue, or is marked as delivered.
abbrev pub delivered : {C : Type 0} → ClosureQueue C → ℕ → Bool
delivered q i = ltb i q.first_index || flag q.has_committed_queue (i - q.first_index)

-- The indexes that a call asks for.
abbrev pub requested : ℕ → List ℕ → ℕ → Bool
requested to_index oo i = leb i to_index || contains oo i

abbrev pub WellFormed : {C : Type 0} → ClosureQueue C → Type 0
WellFormed q = length q.has_committed_queue ≡ length q.queue

abbrev pub end_index : {C : Type 0} → ClosureQueue C → ℕ
end_index q = q.first_index + length q.queue

record Trimmed {C : Type 0} (queue : List (Option C)) (flags : List Bool) (first : ℕ)
    (q : ClosureQueue C) : Type 0 where
  well_formed : WellFormed q
  same_end : end_index q ≡ first + length queue
  same_flags : (i : ℕ) → delivered q i ≡ (ltb i first || flag flags (i - first))
  front : flag q.has_committed_queue 0 ≡ false
  content :
      (i : ℕ)
      → q.first_index ≤ i
      → get_elem? q.queue (i - q.first_index) ≡ get_elem? queue (i - first)
  grown : first ≤ q.first_index

flag_front : (flags : List Bool) (i first : ℕ) → i ≡ first → flag (true ∷ flags) (i - first) ≡ true
flag_front flags i first h = let z : i - first ≡ 0 = omega arith in ap (flag (true ∷ flags)) z

flag_shift :
    (flags : List Bool) (i first : ℕ)
    → first < i
    → flag (true ∷ flags) (i - first) ≡ flag flags (i - (first + 1))
flag_shift flags i first h =
    let s : i - first ≡ suc (i - (first + 1)) = omega arith in ap (flag (true ∷ flags)) s

elem_shift :
    {A : Type 0} (a : A) (bs : List A) (i first : ℕ)
    → first < i
    → get_elem? (a ∷ bs) (i - first) ≡ get_elem? bs (i - (first + 1))
elem_shift a bs i first h =
    let s : i - first ≡ suc (i - (first + 1)) = omega arith in ap (get_elem? (a ∷ bs)) s

trim_step :
    {C : Type 0} (c : Option C) (queue : List (Option C)) (flags : List Bool) (first : ℕ)
    (q : ClosureQueue C)
    → Trimmed queue flags (first + 1) q
    → Trimmed (c ∷ queue) (true ∷ flags) first q
trim_step c queue flags first q t = record {
  well_formed = t.well_formed;
  same_end = omega (arith, t.same_end);
  same_flags =
      λ i. ground (arith, t.same_flags i, flag_front flags i first, flag_shift flags i first);
  front = t.front;
  content = λ i b. t.content i b ∙ sym (elem_shift c queue i first (omega (arith, t.grown)));
  grown = omega (arith, t.grown);
}

trim_lem :
    {C : Type 0} (queue : List (Option C)) (flags : List Bool) (first : ℕ)
    → length flags ≡ length queue
    → (q : ClosureQueue C) × (trim queue flags first ≡ some q) × Trimmed queue flags first q
unfolding trim
trim_lem queue [] first w = (
  record { queue = queue; has_committed_queue = []; first_index = first },
  refl,
  record {
    well_formed = w;
    same_end = refl;
    same_flags = λ i. refl;
    front = refl;
    content = λ i b. refl;
    grown = omega arith;
  },
)
trim_lem queue (false ∷ flags) first w = (
  record { queue = queue; has_committed_queue = false ∷ flags; first_index = first },
  refl,
  record {
    well_formed = w;
    same_end = refl;
    same_flags = λ i. refl;
    front = refl;
    content = λ i b. refl;
    grown = omega arith;
  },
)
trim_lem [] (true ∷ flags) first w = absurd (omega arith)
trim_lem (c ∷ queue) (true ∷ flags) first w =
    let (q, e, t) = trim_lem queue flags (first + 1) (omega arith) in
    (q, e, trim_step c queue flags first q t)

last_is-false :
    (test : ℕ → Bool) (lo hi : ℕ) (is : List ℕ)
    → InRange lo hi is
    → ((i : ℕ) → lo ≤ i → i < hi → test i ≡ false)
    → last_is test is ≡ false
last_is-false test lo hi [] r h = refl
last_is-false test lo hi (i ∷ []) r h = h i r.0 r.1
last_is-false test lo hi (i ∷ (j ∷ is)) r h = last_is-false test lo hi (j ∷ is) r.2 h

InRange-Above :
    {C : Type 0} (queue : List (Option C)) (lo hi : ℕ) (is : List ℕ)
    → InRange lo hi is
    → Above queue lo is
InRange-Above queue lo hi [] r = tt
InRange-Above queue lo hi (i ∷ is) r = (r.0, InRange-Above queue lo hi is r.2)

module _ {C : Type 0} (queue : List (Option C)) (first : ℕ) where
  offsets-Within :
      (n at : ℕ) (oo : List ℕ)
      → at + n ≤ length queue
      → InRange first (first + length queue) oo
      → Within (length queue) (offsets queue first n at oo)
  offsets-Within zero at [] h r = tt
  offsets-Within zero at (i ∷ oo) h r = (omega arith, offsets-Within zero at oo h r.2)
  offsets-Within (suc n) at oo h r = (omega arith, offsets-Within n (at + 1) oo (omega arith) r)

  contains-offsets :
      (n at : ℕ) (oo : List ℕ) (j : ℕ)
      → InRange first (first + length queue) oo
      → contains (offsets queue first n at oo) j
        ≡ ((leb at j && ltb j (at + n)) || contains oo (j + first))
  contains-offsets zero at [] j r = ground arith
  contains-offsets zero at (i ∷ oo) j r = ground (arith, contains-offsets zero at oo j r.2)
  contains-offsets (suc n) at oo j r = ground (arith, contains-offsets n (at + 1) oo j r)

-- What a call that is in range delivers, and what it leaves.
pub record Delivers {C : Type 0} (q : ClosureQueue C) (to_index : ℕ) (oo : List ℕ) (r : Popped C)
    : Type 0 where
  pub code : r.failed ≡ false
  pub listed : (i : ℕ) → contains r.out_indexes i ≡ (requested to_index oo i && not (delivered q i))
  pub distinct : Distinct r.out_indexes
  pub paired : Paired q.queue q.first_index r.out r.out_indexes
  pub marked : (i : ℕ) → delivered r.rest i ≡ (requested to_index oo i || delivered q i)
  pub well_formed : WellFormed r.rest
  pub same_end : end_index r.rest ≡ end_index q
  pub trimmed : delivered r.rest r.rest.first_index ≡ false

module _ {C : Type 0} (q : ClosureQueue C) (to_index : ℕ) (oo : List ℕ) where
  abbrev start : Visit C
  start = record { flags = q.has_committed_queue; taken = []; indexes = [] }

  abbrev asked : List ℕ
  asked = offsets q.queue q.first_index (to_index + 1 - q.first_index) 0 oo

  start-Sound : Sound q.queue q.first_index start
  start-Sound = record {
    paired = tt;
    distinct = tt;
    above = λ i h. refl;
    flagged = λ j h. absurd (cc);
  }

  asked_lem :
      (i : ℕ)
      → InRange q.first_index (end_index q) oo
      → q.first_index ≤ i
      → contains asked (i - q.first_index) ≡ requested to_index oo i
  asked_lem i r h =
      let back : i - q.first_index + q.first_index ≡ i = omega arith in
      contains-offsets q.queue q.first_index (to_index + 1 - q.first_index) 0 oo (i - q.first_index)
        r
      ∙ rw back (ground arith)

  listed_lem :
      (v : Visit C)
      → InRange q.first_index (end_index q) oo
      → Visited q.queue q.first_index start asked v
      → (i : ℕ) → contains v.indexes i ≡ (requested to_index oo i && not (delivered q i))
  listed_lem v r V i = elim (Bool-cases (ltb i q.first_index)) [
    | inl below ↦ rw below (ground (arith, (V.sound start-Sound).above i (ground arith)))
    | inr above ↦
        let back : i - q.first_index + q.first_index ≡ i = ground arith in
        subst (λ (k : ℕ). contains v.indexes k ≡ (requested to_index oo i && not (delivered q i)))
          back (V.listed (i - q.first_index) ∙ rw (above, asked_lem i r (ground arith)))
  ]

  marked_lem :
      (v : Visit C) (q' : ClosureQueue C)
      → InRange q.first_index (end_index q) oo
      → Visited q.queue q.first_index start asked v
      → Trimmed q.queue v.flags q.first_index q'
      → (i : ℕ) → delivered q' i ≡ (requested to_index oo i || delivered q i)
  marked_lem v q' r V T i = elim (Bool-cases (ltb i q.first_index)) [
    | inl below ↦ T.same_flags i ∙ rw below (ground arith)
    | inr above ↦
        T.same_flags i ∙ rw (above, V.marked (i - q.first_index), asked_lem i r (ground arith))
  ]

  front_lem :
      (q' : ClosureQueue C)
      → flag q'.has_committed_queue 0 ≡ false
      → delivered q' q'.first_index ≡ false
  front_lem q' f =
      let z : q'.first_index - q'.first_index ≡ 0 = omega arith in rw (z, f) (ground arith)

  -- A call of a well-formed queue that is not empty, whose indexes all lie in it, succeeds: it
  -- delivers the closures of exactly those requested indexes that were not delivered before, each
  -- once and each the closure that the queue holds at that index; afterwards exactly they and
  -- those delivered before count as delivered; the queue stays well formed, still ends at the same
  -- index, and its first closure is one that is still to come.
  pub pop_closure_until-Delivers :
      WellFormed q
      → is_empty q.queue ≡ false
      → to_index < end_index q
      → InRange q.first_index (end_index q) oo
      → (r : Popped C) × (pop_closure_until q to_index oo [] ≡ some r) × Delivers q to_index oo r
  unfolding pop_closure_until
  pop_closure_until-Delivers w ne h r =
      let (v, ev, V) = visits_lem q.queue q.first_index start asked w (
        offsets-Within q.queue q.first_index (to_index + 1 - q.first_index) 0 oo (omega arith) r) in
      let (q', eq, T) = trim_lem q.queue v.flags q.first_index (V.kept ∙ w) in
      let s = V.sound start-Sound in
      (
        record { failed = false; rest = q'; out = v.taken; out_indexes = v.indexes },
        rw (
          ne,
          last_is-false (λ i. ltb i q.first_index) q.first_index (end_index q) oo r
              (λ i a b. ground arith),
          last_is-false (λ i. leb (end_index q) i) q.first_index (end_index q) oo r
              (λ i a b. ground arith),
          pop_loop-eq-visits q.queue q.first_index (to_index + 1 - q.first_index) 0 oo start
              (InRange-Above q.queue q.first_index (end_index q) oo r),
          ev,
          finish,
          eq,
        ),
        record {
          code = refl;
          listed = listed_lem v r V;
          distinct = s.distinct;
          paired = s.paired;
          marked = marked_lem v q' r V T;
          well_formed = T.well_formed;
          same_end = T.same_end;
          trimmed = front_lem q' T.front;
        },
      )
