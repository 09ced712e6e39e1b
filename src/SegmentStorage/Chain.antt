-- ===== src/SegmentStorage/Chain.antt =====
-- The closed segments of a SegmentLogStorage as a chain of ranges without gaps.
use hit_consistency.Prelude.{
  [], ◌∷◌, List, refl, arith, ℕ, true, false, Option, some, ltb, leb, ◌==◌, nat_eq, ◌+◌, ◌<◌, ◌≤◌,
  ◌≡◌, ◌⊎◌, inl, inr, ap, subst, ◌∙◌, sym, Bool-cases,
}
use hit_consistency.Segment.{Segment}
use hit_consistency.SegmentStorage.{put_segment, erase_segment, before_upper}

-- Syncing and renaming the file succeed.
abbrev pub Healthy : Segment → Type 0
Healthy s = (s.fsyncs ≡ true) × (s.renames ≡ true)

-- The segments hold the indexes in [a, b), each of them one at least.
abbrev pub Chain : ℕ → List Segment → ℕ → Type 0
Chain a [] b = a ≡ b
Chain a (s ∷ ss) b =
    (s.first_index ≡ a) × (a ≤ s.last_index) × Healthy s × Chain (s.last_index + 1) ss b

-- The first segment holds an index that is not below `first`.
abbrev pub Fronted : ℕ → List Segment → Type 0
Fronted first [] = Unit {0}
Fronted first (s ∷ ss) = first ≤ s.last_index

abbrev pub Holds : Segment → List Segment → Type 0
Holds s [] = ⊥
Holds s (t ∷ ts) = (s ≡ t) ⊎ Holds s ts

pub Chain-le : (a : ℕ) (ss : List Segment) (b : ℕ) → Chain a ss b → a ≤ b
Chain-le a [] b c = omega (arith, c)
Chain-le a (s ∷ ss) b c =
    let rest = Chain-le (s.last_index + 1) ss b c.3 in omega (arith, c.1, rest)

-- A segment that begins where the chain ends is put at its end.
pub Chain-put_end :
    (a : ℕ) (ss : List Segment) (b : ℕ) (s : Segment)
    → Chain a ss b
    → s.first_index ≡ b
    → b ≤ s.last_index
    → Healthy s
    → Chain a (put_segment s ss) (s.last_index + 1)
unfolding put_segment
Chain-put_end a [] b s c first last healthy = (first ∙ sym c, omega (arith, c, last), healthy, refl)
Chain-put_end a (t ∷ ts) b s c first last healthy =
    let rest = Chain-le (t.last_index + 1) ts b c.3 in
    let past : ltb s.first_index t.first_index ≡ false = ground (arith, first, rest, c.0, c.1) in
    let other : (s.first_index == t.first_index) ≡ false = ground (arith, first, rest, c.0, c.1) in
    let same : t ∷ put_segment s ts ≡ put_segment s (t ∷ ts) = rw (put_segment, past, other) in
    subst (λ l. Chain a l (s.last_index + 1)) same
      (c.0, c.1, c.2, Chain-put_end (t.last_index + 1) ts b s c.3 first last healthy)

pub Holds-first :
    (a : ℕ) (ss : List Segment) (b : ℕ) (s : Segment)
    → Chain a ss b
    → Holds s ss
    → a ≤ s.first_index
Holds-first a [] b s c h = absurd h
Holds-first a (t ∷ ts) b s c (inl e) = omega (arith, c.0, ap (λ u. u.first_index) e)
Holds-first a (t ∷ ts) b s c (inr h) =
    omega (arith, c.1, Holds-first (t.last_index + 1) ts b s c.3 h)

-- Putting a segment back under the same range.
pub Chain-put_back :
    (a : ℕ) (ss : List Segment) (b : ℕ) (s s' : Segment)
    → Chain a ss b
    → Holds s ss
    → s'.first_index ≡ s.first_index
    → s'.last_index ≡ s.last_index
    → Healthy s'
    → Chain a (put_segment s' ss) b
unfolding put_segment
Chain-put_back a [] b s s' c h first last healthy = absurd h
Chain-put_back a (t ∷ ts) b s s' c (inl e) first last healthy =
    let same_first : s'.first_index ≡ t.first_index = first ∙ ap (λ u. u.first_index) e in
    let same_last : t.last_index ≡ s'.last_index = sym (last ∙ ap (λ u. u.last_index) e) in
    let past : ltb s'.first_index t.first_index ≡ false = ground (arith, same_first) in
    let here : (s'.first_index == t.first_index) ≡ true = ground (arith, same_first) in
    let same : s' ∷ ts ≡ put_segment s' (t ∷ ts) = rw (put_segment, past, here) in
    subst (λ l. Chain a l b) same
      (
        same_first ∙ c.0,
        omega (arith, c.1, same_last),
        healthy,
        subst (λ n. Chain (n + 1) ts b) same_last c.3,
      )
Chain-put_back a (t ∷ ts) b s s' c (inr h) first last healthy =
    let bound = Holds-first (t.last_index + 1) ts b s c.3 h in
    let past : ltb s'.first_index t.first_index ≡ false = ground (arith, first, bound, c.0, c.1) in
    let other : (s'.first_index == t.first_index) ≡ false =
      ground (arith, first, bound, c.0, c.1) in
    let same : t ∷ put_segment s' ts ≡ put_segment s' (t ∷ ts) = rw (put_segment, past, other) in
    subst (λ l. Chain a l b) same
      (c.0, c.1, c.2, Chain-put_back (t.last_index + 1) ts b s s' c.3 h first last healthy)

pub Holds-Healthy :
    (a : ℕ) (ss : List Segment) (b : ℕ) (s : Segment) → Chain a ss b → Holds s ss → Healthy s
Holds-Healthy a [] b s c h = absurd h
Holds-Healthy a (t ∷ ts) b s c (inl e) = subst Healthy (sym e) c.2
Holds-Healthy a (t ∷ ts) b s c (inr h) = Holds-Healthy (t.last_index + 1) ts b s c.3 h

-- Before the chain begins, the segment is the one that came before.
before_upper-end :
    (a : ℕ) (ss : List Segment) (b i : ℕ) (t : Segment)
    → Chain a ss b
    → i < a
    → before_upper i (some t) ss ≡ some t
unfolding before_upper
before_upper-end a [] b i t c h = refl
before_upper-end a (u ∷ us) b i t c h =
    let past : ltb i u.first_index ≡ true = ground (arith, c.0, h) in rw (before_upper, past)

-- The segment before the upper bound of an index of the chain holds the index.
pub before_upper-in :
    (a : ℕ) (ss : List Segment) (b i : ℕ) (kept : Option Segment)
    → Chain a ss b
    → a ≤ i
    → i < b
    → (s : Segment) × (before_upper i kept ss ≡ some s)
      × Holds s ss
      × (s.first_index ≤ i)
      × (i ≤ s.last_index)
unfolding before_upper
before_upper-in a [] b i kept c low high = absurd (omega (arith, c, low, high))
before_upper-in a (t ∷ ts) b i kept c low high =
    let begun : ltb i t.first_index ≡ false = ground (arith, c.0, low) in
    elim (Bool-cases (leb i t.last_index)) [
      | inl e ↦ (
        t,
        rw (before_upper, begun)
            (before_upper-end (t.last_index + 1) ts b i t c.3 (ground (arith, e))),
        inl refl,
        omega (arith, c.0, low),
        ground (arith, e),
      )
      | inr e ↦
          let (s, found, held, first, last) =
            before_upper-in (t.last_index + 1) ts b i (some t) c.3 (ground (arith, e)) high in
          (s, rw (before_upper, begun) found, inr held, first, last)
    ]

-- A key past the chain is not in it.
pub erase_segment-past :
    (a : ℕ) (ss : List Segment) (b k : ℕ) → Chain a ss b → b ≤ k → erase_segment k ss ≡ ss
unfolding erase_segment
erase_segment-past a [] b k c h = refl
erase_segment-past a (t ∷ ts) b k c h =
    let rest = Chain-le (t.last_index + 1) ts b c.3 in
    let other : (t.first_index == k) ≡ false = ground (arith, c.0, c.1, rest, h) in
    rw (erase_segment, other) (ap (λ l. t ∷ l) (erase_segment-past (t.last_index + 1) ts b k c.3 h))
