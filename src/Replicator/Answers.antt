-- ===== src/Replicator/Answers.antt =====
-- What the loops of _on_rpc_returned make of the flags, and which indexes they list.
use hit_consistency.Prelude.{
  [], ◌∷◌, List, refl, arith, ℕ, zero, suc, Bool, true, false, ◌&&◌, ◌||◌, none, some, ◌==◌, nat_eq,
  if◌then◌else◌, ltb, leb, ◌+◌, ◌-◌, ◌++◌, ◌≡◌, ◌<◌, ◌≤◌, ap, sym, subst, ◌∙◌, length, take, drop,
  inl, inr, Bool-cases, Option-cases, some_inj, count, count-append,
}
use hit_consistency.Segment.Truncation.{none-some}
use hit_consistency.Replicator.Calls.{
  Flags, drain, mark_answered, marked, with_marked, mark_from, pop_flags,
}

-- The flag of the index `i` in a list whose first index is `s`.
abbrev pub flag_at : List Bool → ℕ → ℕ → Bool
flag_at [] s i = false
flag_at (b ∷ bs) s i = i == s && b || flag_at bs (s + 1) i

-- Whether the follower has answered for the index.
abbrev pub has_answered : List Bool → ℕ → ℕ → Bool
has_answered flags start i = ltb i start || flag_at flags start i

-- 1, if the index is answered for after and was not before.
abbrev pub newly : Bool → Bool → ℕ
newly before after = if before then 0 else if after then 1 else 0

flag_at-below : (bs : List Bool) (s i : ℕ) → i < s → flag_at bs s i ≡ false
flag_at-below [] s i h = refl
flag_at-below (b ∷ bs) s i h = ground (arith, h, flag_at-below bs (s + 1) i (omega (arith, h)))

-- From some flags and indexes to others: what was answered for stays so, and each index that is newly
-- answered for is added once.
abbrev pub Grows : Flags → Flags → Type 0
Grows o o' =
    (i : ℕ)
    → (has_answered o.flags o.start i ≡ true → has_answered o'.flags o'.start i ≡ true)
      × (count i o'.indexes
          ≡ count i o.indexes
            + newly (has_answered o.flags o.start i) (has_answered o'.flags o'.start i))

pub Grows-trans : (o p q : Flags) → Grows o p → Grows p q → Grows o q
Grows-trans o p q g h i = ground (arith, (g i).0, (g i).1, (h i).0, (h i).1)

pub Grows-refl : (o : Flags) → Grows o o
Grows-refl o i = ground arith

-- One round of the loop that drains the flags.
abbrev drained : Bool → List Bool → Flags → Flags
drained b bs o = record {
  flags = bs;
  start = o.start + 1;
  indexes = if b then o.indexes else o.indexes ++ o.start ∷ [];
}

drained-Grows :
    (b : Bool) (bs : List Bool) (start : ℕ) (indexes : List ℕ)
    → let o : Flags = record { flags = b ∷ bs; start = start; indexes = indexes } in
      Grows o (drained b bs o)
drained-Grows true bs start indexes i = ground arith
drained-Grows false bs start indexes i =
    ground (arith, count-append i indexes (start ∷ []), flag_at-below bs (start + 1) i)

pub drain-Grows :
    (n : ℕ) (flags : List Bool) (start : ℕ) (indexes : List ℕ) (o : Flags)
    → drain n (record { flags = flags; start = start; indexes = indexes }) ≡ some o
    → Grows (record { flags = flags; start = start; indexes = indexes }) o
unfolding drain
drain-Grows zero flags start indexes o h =
    subst (Grows (record { flags = flags; start = start; indexes = indexes })) (some_inj h)
      (Grows-refl (record { flags = flags; start = start; indexes = indexes }))
drain-Grows (suc n) [] start indexes o h = absurd cc
drain-Grows (suc n) (b ∷ bs) start indexes o h =
    let first : Flags = record { flags = b ∷ bs; start = start; indexes = indexes } in
    Grows-trans first (drained b bs first) o (drained-Grows b bs start indexes)
      (drain-Grows n bs (start + 1) (if b then indexes else indexes ++ start ∷ []) o h)

-- The loops do not leave the deque, if it is long enough.
pub drain-total :
    (n : ℕ) (flags : List Bool) (start : ℕ) (indexes : List ℕ)
    → n ≤ length flags
    → (o : Flags) × (drain n (record { flags = flags; start = start; indexes = indexes }) ≡ some o)
      × (o.start + length o.flags ≡ start + length flags)
unfolding drain
drain-total zero flags start indexes h =
    (record { flags = flags; start = start; indexes = indexes }, refl, refl)
drain-total (suc n) [] start indexes h = absurd (omega (arith, h))
drain-total (suc n) (b ∷ bs) start indexes h =
    let (o, e, size) =
      drain-total n bs (start + 1) (if b then indexes else indexes ++ start ∷ [])
        (omega (arith, h)) in
    (o, e, omega (arith, size))

mark_answered-total :
    (n s : ℕ) (bs : List Bool)
    → n ≤ length bs
    → (r : List Bool × List ℕ) × (mark_answered n s bs ≡ some r)
unfolding mark_answered
mark_answered-total zero s bs h = ((bs, []), refl)
mark_answered-total (suc n) s [] h = absurd (omega (arith, h))
mark_answered-total (suc n) s (b ∷ bs) h =
    let (rest, e) = mark_answered-total n (s + 1) bs (omega (arith, h)) in
    (marked b s rest, rw (mark_answered, e))

length-drop : (k : ℕ) (bs : List Bool) → length (drop k bs) ≡ length bs - k
length-drop zero bs = omega arith
length-drop (suc k) [] = omega arith
length-drop (suc k) (b ∷ bs) = omega (arith, length-drop k bs)

pub mark_from-total :
    (prev last : ℕ) (o : Flags)
    → last < o.start + length o.flags
    → (o' : Flags) × (mark_from prev last o ≡ some o')
unfolding mark_from
mark_from-total prev last o h = elim (Bool-cases (ltb last o.start)) [
  | inl e ↦ (o, rw (mark_from, e))
  | inr e ↦
      let first = if ltb (prev + 1) o.start then o.start else prev + 1 in
      let offset = first - o.start in
      let size = length-drop offset o.flags in
      let (r, e') =
        mark_answered-total (last + 1 - first) first (drop offset o.flags)
          (ground (arith, size, h)) in
      (
        record o { flags = take offset o.flags ++ r.0; indexes = o.indexes ++ r.1 },
        rw (mark_from, e) (ap (with_marked o offset) e'),
      )
]

-- What marking `n` indexes from `first` on makes of a flag, and how often it lists an index.
abbrev pub Marks : ℕ → ℕ → Bool → Bool → ℕ → ℕ → Type 0
Marks first n before after listed i =
    (after ≡ (before || (leb first i && ltb i (first + n)))) × (listed ≡ newly before after)

marked-Marks :
    (n s : ℕ) (b : Bool) (bs : List Bool) (rest : List Bool × List ℕ) (i : ℕ)
    → Marks (s + 1) n (flag_at bs (s + 1) i) (flag_at rest.0 (s + 1) i) (count i rest.1) i
    → let r = marked b s rest in
      Marks s (suc n) (flag_at (b ∷ bs) s i) (flag_at r.0 s i) (count i r.1) i
marked-Marks n s true bs rest i h =
    ground (arith, h.0, h.1, flag_at-below bs (s + 1) i, flag_at-below rest.0 (s + 1) i)
marked-Marks n s false bs rest i h =
    ground (arith, h.0, h.1, flag_at-below bs (s + 1) i, flag_at-below rest.0 (s + 1) i)

mark_answered-Marks :
    (n s : ℕ) (bs : List Bool) (r : List Bool × List ℕ)
    → mark_answered n s bs ≡ some r
    → (i : ℕ) → Marks s n (flag_at bs s i) (flag_at r.0 s i) (count i r.1) i
unfolding mark_answered
mark_answered-Marks zero s bs r h i =
    subst (λ r. Marks s 0 (flag_at bs s i) (flag_at r.0 s i) (count i r.1) i) (some_inj h)
      (ground arith)
mark_answered-Marks (suc n) s [] r h i = absurd cc
mark_answered-Marks (suc n) s (b ∷ bs) r h i = elim (Option-cases (mark_answered n (s + 1) bs)) [
  | inl e ↦
      let same : mark_answered (suc n) s (b ∷ bs) ≡ none = rw (mark_answered, e) in
      absurd (none-some r (sym same ∙ h))
  | inr (rest, e) ↦
      let ih = mark_answered-Marks n (s + 1) bs rest e i in
      let same : mark_answered (suc n) s (b ∷ bs) ≡ some (marked b s rest) =
        rw (mark_answered, e) in
      subst (λ r. Marks s (suc n) (flag_at (b ∷ bs) s i) (flag_at r.0 s i) (count i r.1) i)
        (some_inj (sym same ∙ h)) (marked-Marks n s b bs rest i ih)
]

-- The same after the first `k` flags.
mark_past-Marks :
    (k n s : ℕ) (l : List Bool) (r : List Bool × List ℕ)
    → mark_answered n (s + k) (drop k l) ≡ some r
    → (i : ℕ) → Marks (s + k) n (flag_at l s i) (flag_at (take k l ++ r.0) s i) (count i r.1) i
unfolding mark_answered
mark_past-Marks zero n s l r h i =
    let m =
      mark_answered-Marks n s l r (subst (λ j. mark_answered n j l ≡ some r) (omega arith) h) i in
    ground (arith, m.0, m.1)
mark_past-Marks (suc k) zero s [] r h i =
    subst (λ r. Marks (s + suc k) 0 false (flag_at r.0 s i) (count i r.1) i) (some_inj h)
      (ground arith)
mark_past-Marks (suc k) (suc n) s [] r h i = absurd cc
mark_past-Marks (suc k) n s (b ∷ l) r h i =
    let ih =
      mark_past-Marks k n (s + 1) l r
        (subst (λ m. mark_answered n m (drop k l) ≡ some r) (omega arith) h) i in
    ground (arith, ih.0, ih.1, flag_at-below l (s + 1) i, flag_at-below (take k l ++ r.0) (s + 1) i)

abbrev from_index : ℕ → Flags → ℕ
from_index prev o = if ltb (prev + 1) o.start then o.start else prev + 1

-- The indexes after `prev` up to `last` are answered for.
pub mark_from-Grows :
    (prev last : ℕ) (o o' : Flags)
    → mark_from prev last o ≡ some o'
    → Grows o o' × ((i : ℕ) → prev < i → i ≤ last → has_answered o'.flags o'.start i ≡ true)
unfolding mark_from
mark_from-Grows prev last o o' h = elim (Bool-cases (ltb last o.start)) [
  | inl e ↦
      let same : mark_from prev last o ≡ some o = rw (mark_from, e) in
      subst
        (λ o'.
          Grows o o' × ((i : ℕ) → prev < i → i ≤ last → has_answered o'.flags o'.start i ≡ true))
        (some_inj (sym same ∙ h)) (Grows-refl o, λ i low high. ground (arith, e, high))
  | inr e ↦
      let first = from_index prev o in
      let offset = first - o.start in
      let marking = mark_answered (last + 1 - first) first (drop offset o.flags) in
      let same : mark_from prev last o ≡ with_marked o offset marking = rw (mark_from, e) in
      elim (Option-cases marking) [
        | inl e' ↦ absurd (none-some o' (sym (same ∙ ap (with_marked o offset) e') ∙ h))
        | inr (r, e') ↦
            let begins : first ≡ o.start + offset = ground arith in
            let marks = mark_past-Marks offset (last + 1 - first) o.start o.flags r (
              subst (λ j. mark_answered (last + 1 - first) j (drop offset o.flags) ≡ some r) begins
                e') in
            subst
              (λ o'.
                Grows o o'
                × ((i : ℕ) → prev < i → i ≤ last → has_answered o'.flags o'.start i ≡ true))
              (some_inj (sym (same ∙ ap (with_marked o offset) e') ∙ h))
              (
                λ i. ground (arith, (marks i).0, (marks i).1, count-append i o.indexes r.1),
                λ i low high. ground (arith, (marks i).0, low, high, begins),
              )
      ]
]

pub pop_flags-same :
    (flags : List Bool) (start i : ℕ)
    → has_answered (pop_flags flags start).0 (pop_flags flags start).1 i
      ≡ has_answered flags start i
unfolding pop_flags
pop_flags-same [] start i = refl
pop_flags-same (true ∷ bs) start i = ground (arith, pop_flags-same bs (start + 1) i)
pop_flags-same (false ∷ bs) start i = refl
