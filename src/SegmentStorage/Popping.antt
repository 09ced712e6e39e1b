-- ===== src/SegmentStorage/Popping.antt =====
-- What the loops of pop_segments and pop_segments_from_back leave of the closed segments.
use hit_consistency.Prelude.{
  [], ◌∷◌, List, refl, arith, ℕ, true, false, Bool, ltb, leb, ◌==◌, nat_eq, ◌+◌, ◌<◌, ◌≤◌, ◌≡◌, ◌⊎◌,
  inl, inr, ap, ◌∙◌, sym, ◌++◌, Bool-cases, ◌||◌,
}
use hit_consistency.Segment.{Segment}
use hit_consistency.SegmentStorage.{erase_segment, erase_segments}
use hit_consistency.SegmentStorage.Shrinking.{pop_front, pop_back}
use hit_consistency.SegmentStorage.Chain.{Healthy, Chain, Fronted}

-- The segments that stay hold the kept index, or end with it.
pub pop_front-Chain :
    (a : ℕ) (ss : List Segment) (b kept : ℕ)
    → Chain a ss b
    → a ≤ kept
    → (a' : ℕ) × Chain a' (pop_front kept ss).1 b × (a' ≤ kept) × Fronted kept (pop_front kept ss).1
unfolding pop_front
pop_front-Chain a [] b kept c h = (a, c, h, tt)
pop_front-Chain a (s ∷ ss) b kept c h = elim (Bool-cases (ltb s.last_index kept)) [
  | inl e ↦
      let (a', chain, low, fronted) =
        pop_front-Chain (s.last_index + 1) ss b kept c.3 (ground (arith, e)) in
      (a', rw (pop_front, e) chain, low, rw (pop_front, e) fronted)
  | inr e ↦ (a, rw (pop_front, e) c, h, rw (pop_front, e) (ground (arith, e)))
]

-- The segments begin after `k`.
abbrev Beyond : ℕ → List Segment → Type 0
Beyond k [] = Unit {0}
Beyond k (s ∷ ss) = (k < s.first_index) × Beyond k ss

Beyond-snoc :
    (k : ℕ) (p : List Segment) (t : Segment)
    → Beyond k p
    → k < t.first_index
    → Beyond k (p ++ t ∷ [])
Beyond-snoc k [] t b h = (h, tt)
Beyond-snoc k (s ∷ p) t b h = (b.0, Beyond-snoc k p t b.1 h)

pop_back-Beyond :
    (a : ℕ) (ss : List Segment) (b kept k : ℕ)
    → Chain a ss b
    → k < a
    → Beyond k (pop_back kept ss).0
unfolding pop_back
pop_back-Beyond a [] b kept k c h = tt
pop_back-Beyond a (t ∷ ts) b kept k c h =
    let rest = pop_back-Beyond (t.last_index + 1) ts b kept k c.3 (omega (arith, h, c.1)) in
    elim (Bool-cases ((pop_back kept ts).1 || leb t.first_index kept)) [
      | inl e ↦ rw (pop_back, e) rest
      | inr e ↦ rw (pop_back, e) (Beyond-snoc k (pop_back kept ts).0 t rest (omega (arith, c.0, h)))
    ]

erase_segments-head :
    (p : List Segment) (t : Segment) (ts : List Segment)
    → Beyond t.first_index p
    → erase_segments p (t ∷ ts) ≡ t ∷ erase_segments p ts
unfolding erase_segments erase_segment
erase_segments-head [] t ts b = refl
erase_segments-head (s ∷ p) t ts b =
    let other : (t.first_index == s.first_index) ≡ false = ground (arith, b.0) in
    rw (erase_segments, erase_segment, other)
      (erase_segments-head p t (erase_segment s.first_index ts) b.1)

erase_segments-append :
    (p q ss : List Segment) → erase_segments (p ++ q) ss ≡ erase_segments q (erase_segments p ss)
unfolding erase_segments
erase_segments-append [] q ss = refl
erase_segments-append (s ∷ p) q ss = erase_segments-append p q (erase_segment s.first_index ss)

abbrev pub left_by : ℕ → List Segment → List Segment
left_by kept ss = erase_segments (pop_back kept ss).0 ss

-- What pop_segments_from_back leaves: nothing, or segments of which the last holds the kept index.
abbrev pub Left : ℕ → ℕ → List Segment → List Segment → Bool → Type 0
Left a kept ss left stopped =
    ((left ≡ []) × (kept < a) × (stopped ≡ false))
    ⊎ ((xs : List Segment) × (s : Segment) × (left ≡ xs ++ s ∷ [])
        × Chain a xs s.first_index
        × (s.first_index ≤ kept)
        × (kept ≤ s.last_index)
        × Healthy s
        × (stopped ≡ true)
        × ((first : ℕ) → Fronted first ss → Fronted first (xs ++ s ∷ [])))

erase_head : (t : Segment) → erase_segments (t ∷ []) (t ∷ []) ≡ []
unfolding erase_segments erase_segment
erase_head t =
    let here : (t.first_index == t.first_index) ≡ true = ground arith in
    rw (erase_segments, erase_segment, here)

-- One more segment in front.
left_cons :
    (a : ℕ) (t : Segment) (ts : List Segment) (b kept : ℕ)
    → Chain a (t ∷ ts) b
    → Left (t.last_index + 1) kept ts (left_by kept ts) (pop_back kept ts).1
    → Left a kept (t ∷ ts) (left_by kept (t ∷ ts)) (pop_back kept (t ∷ ts)).1
unfolding pop_back
left_cons a t ts b kept c l =
    let p = (pop_back kept ts).0 in
    let beyond =
      pop_back-Beyond (t.last_index + 1) ts b kept t.first_index c.3 (omega (arith, c.0, c.1)) in
    let headed : erase_segments p (t ∷ ts) ≡ t ∷ left_by kept ts =
      erase_segments-head p t ts beyond in
    elim l [
      | inr (xs, s, same, chain, first, last, healthy, stopped, fronted) ↦
          let e : ((pop_back kept ts).1 || leb t.first_index kept) ≡ true = rw (stopped) in
          rw (pop_back, e)
            (inr (
              t ∷ xs,
              s,
              headed ∙ ap (λ m. t ∷ m) same,
              (c.0, c.1, c.2, chain),
              first,
              last,
              healthy,
              refl,
              λ k f. f,
            ))
      | inl h ↦ elim (Bool-cases (leb t.first_index kept)) [
        | inl e ↦
            let both : ((pop_back kept ts).1 || leb t.first_index kept) ≡ true = rw (h.2, e) in
            rw (pop_back, both)
              (inr (
                [],
                t,
                headed ∙ ap (λ m. t ∷ m) h.0,
                sym c.0,
                ground (arith, e),
                omega (arith, h.1),
                c.2,
                refl,
                λ k f. f,
              ))
        | inr e ↦
            let both : ((pop_back kept ts).1 || leb t.first_index kept) ≡ false = rw (h.2, e) in
            rw (pop_back, both)
              (inl (
                erase_segments-append p (t ∷ []) (t ∷ ts)
                    ∙ ap (erase_segments (t ∷ [])) (headed ∙ ap (λ m. t ∷ m) h.0)
                    ∙ erase_head t,
                ground (arith, e, c.0),
                refl,
              ))
      ]
    ]

pub pop_back-Left :
    (a : ℕ) (ss : List Segment) (b kept : ℕ)
    → Chain a ss b
    → kept < b
    → Left a kept ss (left_by kept ss) (pop_back kept ss).1
unfolding pop_back erase_segments
pop_back-Left a [] b kept c h = inl (refl, omega (arith, c, h), refl)
pop_back-Left a (t ∷ ts) b kept c h =
    left_cons a t ts b kept c (pop_back-Left (t.last_index + 1) ts b kept c.3 h)
