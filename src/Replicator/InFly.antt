-- ===== src/Replicator/InFly.antt =====
-- The calls in the air: their two deques stay matched, and the count of entries stays right.
use hit_consistency.Prelude.{
  [], ◌∷◌, List, refl, arith, ℕ, ℤ, pos, zero, suc, Bool, true, false, not, ◌||◌, Option, none,
  some, ◌==◌, nat_eq, ltb, leb, ◌+◌, ◌++◌, ◌-ℤ◌, sub_ℕ, ◌≡◌, ◌≢◌, ap, sym, subst, ◌∙◌, length,
  length-append, get_elem?, drop, inl, inr, Bool-cases, some_inj,
}
use hit_consistency.Replicator.{FlyingRpc, total}
use hit_consistency.Replicator.Calls.{
  pop_finished, erase_at, find_call, scan_status, one_later, past_end, not_valid, valid_at, Scan,
}

-- The deques are as long as each other, and the count is the number of entries in the air.
abbrev pub Matched : List FlyingRpc → List Bool → ℤ → Type 0
Matched fs ss size = (length fs ≡ length ss) × (size ≡ pos (total fs))

-- What holds of a result, if there is one.
abbrev pub OnSome {ℓ} : {A : Type ℓ} → (A → Type 0) → Option A → Type 0
OnSome p none = Unit {0}
OnSome p (some a) = p a

pub pos-minus : (n k : ℕ) → pos (k + n) -ℤ pos k ≡ pos n
unfolding ◌-ℤ◌
pos-minus n k = ground arith

pub pos-plus : (n k : ℕ) → pos n -ℤ sub_ℕ 0 k ≡ pos (n + k)
unfolding ◌-ℤ◌
pos-plus n k = ground arith

pub total-append : (fs gs : List FlyingRpc) → total (fs ++ gs) ≡ total fs + total gs
total-append [] gs = omega arith
total-append (f ∷ fs) gs = omega (arith, total-append fs gs)

-- One more call, with `n` entries.
pub Matched-push :
    (fs : List FlyingRpc) (ss : List Bool) (size : ℤ) (f : FlyingRpc)
    → Matched fs ss size
    → Matched (fs ++ f ∷ []) (ss ++ true ∷ []) (size -ℤ sub_ℕ 0 f.entries_size)
Matched-push fs ss size f m = (
  length-append fs (f ∷ []) ∙ ap (λ n. n + 1) m.0 ∙ sym (length-append ss (true ∷ [])),
  ap (λ z. z -ℤ sub_ℕ 0 f.entries_size) m.1
      ∙ pos-plus (total fs) f.entries_size
      ∙ ap pos (omega (arith, total-append fs (f ∷ []))),
)

pub pop_finished-Matched :
    (start : ℕ) (fs : List FlyingRpc) (ss : List Bool) (size : ℤ)
    → Matched fs ss size
    → OnSome (λ f. Matched f.calls f.statuses f.size) (pop_finished start fs ss size)
unfolding pop_finished
pop_finished-Matched start [] ss size m = m
pop_finished-Matched start (f ∷ fs) [] size m = tt
pop_finished-Matched start (f ∷ fs) (s ∷ ss) size m =
    elim (Bool-cases (not s || leb (f.log_index + f.entries_size) start)) [
      | inl e ↦
          rw (pop_finished, e)
            (pop_finished-Matched start fs ss (size -ℤ pos f.entries_size) (
              omega (arith, m.0),
              ap (λ z. z -ℤ pos f.entries_size) m.1 ∙ pos-minus (total fs) f.entries_size,
            ))
      | inr e ↦ rw (pop_finished, e) m
    ]

pub length-erase_at :
    (k : ℕ) (fs : List FlyingRpc) (ss : List Bool)
    → length fs ≡ length ss
    → length (erase_at k fs) ≡ length (erase_at k ss)
unfolding erase_at
length-erase_at k [] [] h = refl
length-erase_at k [] (s ∷ ss) h = absurd (omega (arith, h))
length-erase_at k (f ∷ fs) [] h = absurd (omega (arith, h))
length-erase_at zero (f ∷ fs) (s ∷ ss) h = omega (arith, h)
length-erase_at (suc k) (f ∷ fs) (s ∷ ss) h = ap suc (length-erase_at k fs ss (omega (arith, h)))

total-erase_at :
    (k : ℕ) (fs : List FlyingRpc) (f : FlyingRpc)
    → get_elem? fs k ≡ some f
    → total fs ≡ f.entries_size + total (erase_at k fs)
unfolding erase_at
total-erase_at k [] f h = absurd cc
total-erase_at zero (g ∷ fs) f h = ap (λ u. u.entries_size + total fs) (some_inj {a = g} {b = f} h)
total-erase_at (suc k) (g ∷ fs) f h = omega (arith, total-erase_at k fs f h)

-- The call at a place is taken out of both deques, and its entries are taken off the count.
pub Matched-erase_at :
    (k : ℕ) (fs : List FlyingRpc) (ss : List Bool) (size : ℤ) (f : FlyingRpc)
    → get_elem? fs k ≡ some f
    → Matched fs ss size
    → Matched (erase_at k fs) (erase_at k ss) (size -ℤ pos f.entries_size)
Matched-erase_at k fs ss size f h m = (
  length-erase_at k fs ss m.0,
  ap (λ z. z -ℤ pos f.entries_size) (m.1 ∙ ap pos (total-erase_at k fs f h))
      ∙ pos-minus (total (erase_at k fs)) f.entries_size,
)

not_valid-valid : (k : ℕ) → not_valid ≢ valid_at k
not_valid-valid k h = cc

abbrev valid_place : Scan → ℕ
valid_place (valid_at k) = k
valid_place other = 0

one_later-valid :
    (s : Scan) (k : ℕ) → one_later s ≡ valid_at k → (j : ℕ) × (s ≡ valid_at j) × (k ≡ suc j)
one_later-valid past_end k h = absurd cc
one_later-valid not_valid k h = absurd cc
one_later-valid (valid_at j) k h = (j, refl, sym (ap valid_place h))

-- A call that `find_call` finds is one of those in the air, with the id.
abbrev pub FoundCall : ℕ → List FlyingRpc → ℕ → Type 0
FoundCall call_id fs k = (f : FlyingRpc) × (get_elem? fs k ≡ some f) × (f.call_id ≡ call_id)

FoundCall-later :
    (call_id : ℕ) (g : FlyingRpc) (fs : List FlyingRpc) (k : ℕ) (rest : Scan)
    → one_later rest ≡ valid_at k
    → ((j : ℕ) → rest ≡ valid_at j → FoundCall call_id fs j)
    → FoundCall call_id (g ∷ fs) k
FoundCall-later call_id g fs k rest h found =
    let (j, same, place) = one_later-valid rest k h in
    subst (FoundCall call_id (g ∷ fs)) (sym place) (found j same)

FoundCall-here :
    (call_id : ℕ) (g : FlyingRpc) (fs : List FlyingRpc) (ss : List Bool) (k : ℕ) (rest : Scan)
    → scan_status rest ss ≡ valid_at k
    → g.call_id ≡ call_id
    → ((j : ℕ) → rest ≡ valid_at j → FoundCall call_id fs j)
    → FoundCall call_id (g ∷ fs) k
FoundCall-here call_id g fs [] k rest h same found = absurd cc
FoundCall-here call_id g fs (true ∷ ss) k rest h same found =
    subst (FoundCall call_id (g ∷ fs)) (ap valid_place h) (g, refl, same)
FoundCall-here call_id g fs (false ∷ ss) k rest h same found =
    FoundCall-later call_id g fs k rest h found

pub find_call-valid :
    (first call_id : ℕ) (fs : List FlyingRpc) (ss : List Bool) (k : ℕ)
    → find_call first call_id fs ss ≡ valid_at k
    → FoundCall call_id fs k
unfolding find_call
find_call-valid first call_id [] ss k h = absurd cc
find_call-valid first call_id (g ∷ fs) ss k h =
    let run = find_call first call_id (g ∷ fs) ss in
    let rest = find_call first call_id fs (drop 1 ss) in
    let found = find_call-valid first call_id fs (drop 1 ss) in
    elim (Bool-cases (ltb first g.log_index)) [
      | inl e ↦
          let same : run ≡ not_valid = rw (find_call, e) in
          absurd (not_valid-valid k (sym same ∙ h))
      | inr e ↦ elim (Bool-cases (g.call_id == call_id)) [
        | inl e' ↦
            let same : run ≡ scan_status rest ss = rw (find_call, e, e') in
            FoundCall-here call_id g fs ss k rest (sym same ∙ h) (ground (arith, e')) found
        | inr e' ↦
            let same : run ≡ one_later rest = rw (find_call, e, e') in
            FoundCall-later call_id g fs k rest (sym same ∙ h) found
      ]
    ]
