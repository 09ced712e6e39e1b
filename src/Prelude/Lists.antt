-- ===== src/Prelude/Lists.antt =====
-- Lists measured and indexed by native numbers, under the library's names.
use hit_consistency.Prelude.Tests.{nat_beq, if◌then◌else◌}
use Prim.Native.Nat.{ℕ, zero, suc, ◌+◌, ◌≤◌, ◌<◌}
use mathlib.Core.Path.{◌≡◌, refl, ap}
use mathlib.Core.List.{List, [], ◌∷◌, ◌++◌, map}
use mathlib.Core.Option.{Option, none, some}
use native.Mathlib.Omega.{arith}

module _ {ℓ} {A : Type ℓ} where
  abbrev pub length : List A → ℕ
  length [] = 0
  length (x ∷ xs) = suc (length xs)

  abbrev pub get_elem? : List A → ℕ → Option A
  get_elem? [] i = none
  get_elem? (x ∷ xs) zero = some x
  get_elem? (x ∷ xs) (suc i) = get_elem? xs i

  -- A write out of bounds changes nothing.
  abbrev pub set : List A → ℕ → A → List A
  set [] i v = []
  set (x ∷ xs) zero v = v ∷ xs
  set (x ∷ xs) (suc i) v = x ∷ set xs i v

  -- The deque's `back()`.
  abbrev pub last? : List A → Option A
  last? [] = none
  last? (x ∷ []) = some x
  last? (x ∷ (y ∷ ys)) = last? (y ∷ ys)

  abbrev pub take : ℕ → List A → List A
  take zero xs = []
  take (suc n) [] = []
  take (suc n) (x ∷ xs) = x ∷ take n xs

  abbrev pub drop : ℕ → List A → List A
  drop zero xs = xs
  drop (suc n) [] = []
  drop (suc n) (x ∷ xs) = drop n xs

  pub length-append : (xs ys : List A) → length (xs ++ ys) ≡ length xs + length ys
  length-append [] ys = omega arith
  length-append (x ∷ xs) ys = omega (arith, length-append xs ys)

  pub length-set : (xs : List A) (i : ℕ) (v : A) → length (set xs i v) ≡ length xs
  length-set [] i v = refl
  length-set (x ∷ xs) zero v = refl
  length-set (x ∷ xs) (suc i) v = ap suc (length-set xs i v)

  pub get_elem?-lt : (xs : List A) (i : ℕ) → i < length xs → (x : A) × (get_elem? xs i ≡ some x)
  get_elem?-lt [] i h = absurd (omega arith)
  get_elem?-lt (x ∷ xs) zero h = (x, refl)
  get_elem?-lt (x ∷ xs) (suc i) h = get_elem?-lt xs i (omega arith)

  -- The first part of a list by its length, and the rest.
  pub take-append : (n : ℕ) (xs ys : List A) → length xs ≡ n → take n (xs ++ ys) ≡ xs
  take-append zero [] ys h = refl
  take-append zero (x ∷ xs) ys h = absurd (omega (arith, h))
  take-append (suc n) [] ys h = absurd (omega (arith, h))
  take-append (suc n) (x ∷ xs) ys h = ap (λ l. x ∷ l) (take-append n xs ys (omega (arith, h)))

  pub drop-append : (n : ℕ) (xs ys : List A) → length xs ≡ n → drop n (xs ++ ys) ≡ ys
  drop-append zero [] ys h = refl
  drop-append zero (x ∷ xs) ys h = absurd (omega (arith, h))
  drop-append (suc n) [] ys h = absurd (omega (arith, h))
  drop-append (suc n) (x ∷ xs) ys h = drop-append n xs ys (omega (arith, h))

  pub drop_past : (k j : ℕ) (xs ys : List A) → k ≡ length xs + j → drop k (xs ++ ys) ≡ drop j ys
  drop_past k j [] ys h = ap (λ n. drop n ys) (omega (arith, h))
  drop_past zero j (x ∷ xs) ys h = absurd (omega (arith, h))
  drop_past (suc k) j (x ∷ xs) ys h = drop_past k j xs ys (omega (arith, h))

  pub take_past :
      (k j : ℕ) (xs ys : List A) → k ≡ length xs + j → take k (xs ++ ys) ≡ xs ++ take j ys
  take_past k j [] ys h = ap (λ n. take n ys) (omega (arith, h))
  take_past zero j (x ∷ xs) ys h = absurd (omega (arith, h))
  take_past (suc k) j (x ∷ xs) ys h = ap (λ l. x ∷ l) (take_past k j xs ys (omega (arith, h)))

  pub take_short : (n : ℕ) (xs : List A) → length xs ≤ n → take n xs ≡ xs
  take_short zero [] h = refl
  take_short zero (x ∷ xs) h = absurd (omega (arith, h))
  take_short (suc n) [] h = refl
  take_short (suc n) (x ∷ xs) h = ap (λ l. x ∷ l) (take_short n xs (omega (arith, h)))

  pub length-take : (n : ℕ) (xs : List A) → n ≤ length xs → length (take n xs) ≡ n
  length-take zero xs h = refl
  length-take (suc n) [] h = absurd (omega (arith, h))
  length-take (suc n) (x ∷ xs) h = ap suc (length-take n xs (omega (arith, h)))

  abbrev pub replicate : ℕ → A → List A
  replicate zero a = []
  replicate (suc n) a = a ∷ replicate n a

pub length_nil : {A : Type 0} (xs : List A) → length xs ≡ 0 → xs ≡ []
length_nil [] h = refl
length_nil (x ∷ xs) h = absurd (omega arith)

pub length-map : {A B : Type 0} (f : A → B) (xs : List A) → length (map f xs) ≡ length xs
length-map f [] = refl
length-map f (x ∷ xs) = ap suc (length-map f xs)

-- Every index lies in [lo, hi).
abbrev pub InRange : ℕ → ℕ → List ℕ → Type 0
InRange lo hi [] = Unit {0}
InRange lo hi (i ∷ is) = (lo ≤ i) × (i < hi) × InRange lo hi is

pub InRange-mono : (lo lo' hi : ℕ) (is : List ℕ) → lo' ≤ lo → InRange lo hi is → InRange lo' hi is
InRange-mono lo lo' hi [] h r = tt
InRange-mono lo lo' hi (i ∷ is) h r = (omega arith, r.1, InRange-mono lo lo' hi is h r.2)

-- The indexes do not fall along the list.
abbrev pub Ascending : List ℕ → Type 0
Ascending [] = Unit {0}
Ascending (i ∷ []) = Unit {0}
Ascending (i ∷ (j ∷ is)) = (i ≤ j) × Ascending (j ∷ is)

pub Ascending-tail : (i : ℕ) (is : List ℕ) → Ascending (i ∷ is) → Ascending is
Ascending-tail i [] a = tt
Ascending-tail i (j ∷ is) a = a.1

-- A list that does not fall lies between its first index and its last.
pub Ascending-InRange :
    (i : ℕ) (is : List ℕ) {back hi : ℕ}
    → Ascending (i ∷ is)
    → last? (i ∷ is) ≡ some back
    → back < hi
    → InRange i hi (i ∷ is)
Ascending-InRange i [] {back} {hi} a l h = let e : i ≡ back = cc in (omega arith, omega arith, tt)
Ascending-InRange i (j ∷ is) {back} {hi} a l h =
    let r = Ascending-InRange j is {back = back} {hi = hi} a.1 l h in
    (omega arith, omega (arith, r.1), InRange-mono j i hi (j ∷ is) a.0 r)

-- How often a number stands in a list.
abbrev pub count : ℕ → List ℕ → ℕ
count i [] = 0
count i (j ∷ js) = let rest = count i js in if nat_beq i j then 1 + rest else rest

pub count-append : (i : ℕ) (js ks : List ℕ) → count i (js ++ ks) ≡ count i js + count i ks
count-append i [] ks = omega arith
count-append i (j ∷ js) ks = ground (arith, count-append i js ks)
