-- ===== src/FsmCaller/Visits.antt =====
-- The entries that do_committed goes through.
use hit_consistency.Prelude.{
  [], ◌∷◌, ◌++◌, List, refl, arith, ℕ, zero, suc, true, Option, none, some, ltb, nat_eq,
  if◌then◌else◌, ◌+◌, ◌-◌, ◌<◌, ◌≤◌, ◌≡◌, ◌≢◌, length-append, ◌⊎◌, inl, inr, length, get_elem?,
  drop, ap, ap₂, sym, subst, ◌∙◌, append_assoc, append-nil, Bool-cases,
}
use hit_consistency.ClosureQueue.{is_empty}
use hit_consistency.LogEntry.{LogEntry, configuration}
use hit_consistency.FsmCaller.Iterator.{IteratorImpl, is_some, extended, visit, next, after}

-- The indexes from `i` on, `n` of them.
abbrev pub count_from : ℕ → ℕ → List ℕ
count_from i zero = []
count_from i (suc n) = i ∷ count_from (i + 1) n

-- A configuration has peers.
abbrev pub HasPeers : {P D : Type 0} → LogEntry P D → Type 0
HasPeers e = elim e.type [ configuration ↦ is_some e.peers ≡ true | other ↦ Unit {0} ]

-- The entry of every index can be had.
abbrev pub Present : {P D : Type 0} → (ℕ → Option (LogEntry P D)) → List ℕ → Type 0
Present get_entry [] = Unit {0}
Present {P} {D} get_entry (i ∷ is) =
    ((e : LogEntry P D) × (get_entry i ≡ some e) × HasPeers e) × Present get_entry is

module _ {C P D : Type 0} where
  abbrev pub sequential : IteratorImpl C P D → List ℕ
  sequential t =
      if is_empty t.closure
      then count_from (t.last_applied_index + 1) (t.committed_index - t.last_applied_index)
      else []

  -- The indexes that the iterator has still to visit.
  abbrev pub todo : IteratorImpl C P D → List ℕ
  todo t = drop (after t.it) t.index_list ++ sequential t

  -- Every index of a list that is not empty has its closure.
  abbrev pub Paired : IteratorImpl C P D → Type 0
  Paired t = (is_empty t.closure ≡ true) ⊎ (length t.closure ≡ length t.index_list)

drop-cases :
    (k : ℕ) (xs : List ℕ)
    → ((get_elem? xs k ≡ none) × (drop k xs ≡ []))
      ⊎ ((i : ℕ) × (get_elem? xs k ≡ some i) × (drop k xs ≡ i ∷ drop (suc k) xs) × (k < length xs))
drop-cases zero [] = inl (refl, refl)
drop-cases (suc k) [] = inl (refl, refl)
drop-cases zero (x ∷ xs) = inr (x, refl, refl, omega arith)
drop-cases (suc k) (x ∷ xs) = elim (drop-cases k xs) [
  | inl h ↦ inl h
  | inr h ↦ let (i, found, more, bound) = h in inr (i, found, more, omega (arith, bound))
]

drop-append_le : (k : ℕ) (xs ys : List ℕ) → k ≤ length xs → drop k (xs ++ ys) ≡ drop k xs ++ ys
drop-append_le zero xs ys h = refl
drop-append_le (suc k) [] ys h = absurd (omega (arith, h))
drop-append_le (suc k) (x ∷ xs) ys h = drop-append_le k xs ys (omega (arith, h))

cons_end : (xs : List ℕ) (x : ℕ) → xs ++ x ∷ [] ≢ []
cons_end [] x h = cc
cons_end (y ∷ ys) x h = cc

module _ {C P D : Type 0} where
  -- A sequential index is added to the list, or there is none left.
  abbrev Longer : IteratorImpl C P D → IteratorImpl C P D → Type 0
  Longer t u =
      (todo u ≡ todo t)
      × (after u.it ≡ after t.it)
      × (u.applying ≡ t.applying)
      × (u.iter_error ≡ t.iter_error)
      × (length t.index_list ≤ length u.index_list)
      × ((drop (after u.it) u.index_list ≡ []) → sequential u ≡ [])
      × Paired u

  stay-Longer : (t : IteratorImpl C P D) → sequential t ≡ [] → Paired t → Longer t t
  stay-Longer t none_left paired = (refl, refl, refl, refl, omega arith, λ h. none_left, paired)

  abbrev grown : IteratorImpl C P D → IteratorImpl C P D
  grown t = record t {
    last_applied_index = t.last_applied_index + 1;
    index_list = t.index_list ++ (t.last_applied_index + 1) ∷ [];
  }

  grown-Longer :
      (t : IteratorImpl C P D)
      → after t.it ≤ length t.index_list
      → is_empty t.closure ≡ true
      → t.last_applied_index < t.committed_index
      → Longer t (grown t)
  grown-Longer t bound empty below =
      let first = t.last_applied_index + 1 in
      let more = t.committed_index - first in
      let count : t.committed_index - t.last_applied_index ≡ suc more = omega (arith, below) in
      let counted : sequential t ≡ first ∷ count_from (first + 1) more = rw (empty, count) in
      let split = drop-append_le (after t.it) t.index_list (first ∷ []) bound in
      (
        rw (split, empty)
            (append_assoc (drop (after t.it) t.index_list) (first ∷ [])
                (count_from (first + 1) more)
              ∙ ap (λ l. drop (after t.it) t.index_list ++ l) (sym counted ∙ rw (empty))),
        refl,
        refl,
        refl,
        omega (arith, length-append t.index_list (first ∷ [])),
        λ h. absurd (cons_end (drop (after t.it) t.index_list) first (sym split ∙ h)),
        inl empty,
      )

  extended-Longer :
      (get_entry : ℕ → Option (LogEntry P D)) (t : IteratorImpl C P D)
      → after t.it ≤ length t.index_list
      → Paired t
      → Longer t (extended get_entry t)
  extended-Longer get_entry t bound paired = elim (Bool-cases (is_empty t.closure)) [
    | inr full ↦
        let same : t ≡ extended get_entry t = rw (full) in
        subst (Longer t) same (stay-Longer t (rw (full)) paired)
    | inl empty ↦ elim (Bool-cases (ltb t.last_applied_index t.committed_index)) [
      | inl below ↦
          let same : grown t ≡ extended get_entry t = rw (empty, below) in
          subst (Longer t) same (grown-Longer t bound empty (ground (arith, below)))
      | inr past ↦
          let same : t ≡ extended get_entry t = rw (empty, past) in
          let none_left : t.committed_index - t.last_applied_index ≡ 0 = ground (arith, past) in
          subst (Longer t) same (stay-Longer t (rw (empty, none_left)) paired)
    ]
  ]

-- In the middle of the loop: `all` are the indexes visited and to be visited.
pub record At {C P D : Type 0} (get_entry : ℕ → Option (LogEntry P D)) (all : List ℕ)
    (t : IteratorImpl C P D) : Type 0 where
  pub place : ℕ
  pub at_place : t.it ≡ some place
  pub entry : LogEntry P D
  pub has_entry : t.cur_entry ≡ some entry
  pub has_peers : HasPeers entry
  pub no_error : t.iter_error ≡ none
  pub in_list : place < length t.index_list
  pub trace : t.applying ++ todo t ≡ all
  pub present : Present get_entry (todo t)
  pub paired : Paired t

pub record Ended {C P D : Type 0} (all : List ℕ) (t : IteratorImpl C P D) : Type 0 where
  pub at_end : t.it ≡ none
  pub without_error : t.iter_error ≡ none
  pub visited : t.applying ≡ all

-- The iterator is at its end, or has less to visit than a number.
abbrev pub Advanced :
    {C P D : Type 0} → (ℕ → Option (LogEntry P D)) → List ℕ → ℕ → IteratorImpl C P D → Type 0
Advanced get_entry all n u = Ended all u ⊎ (At get_entry all u × (length (todo u) < n))

module _ {C P D : Type 0} (get_entry : ℕ → Option (LogEntry P D)) (all : List ℕ) where
  end-Ended :
      (u : IteratorImpl C P D)
      → drop (after u.it) u.index_list ≡ []
      → sequential u ≡ []
      → u.applying ++ todo u ≡ all
      → u.iter_error ≡ none
      → Ended all (record u { it = none; cur_entry = none })
  end-Ended u h1 h2 ht he =
      let finished : todo u ≡ [] = rw (h1, h2) in
      record {
        at_end = refl;
        without_error = he;
        visited = sym (append-nil u.applying) ∙ ap (λ l. u.applying ++ l) (sym finished) ∙ ht;
      }

  visit-At :
      (u : IteratorImpl C P D) (k i n : ℕ)
      → drop (after u.it) u.index_list ≡ i ∷ drop (suc k) u.index_list
      → k < length u.index_list
      → u.applying ++ todo u ≡ all
      → u.iter_error ≡ none
      → Present get_entry (todo u)
      → Paired u
      → length (todo u) ≤ n
      → At get_entry all (visit get_entry u k i) × (length (todo (visit get_entry u k i)) < n)
  visit-At u k i n h inside ht he present paired hn =
      let v = visit get_entry u k i in
      let split : todo u ≡ i ∷ todo v = rw (h) in
      let (here, there) = subst (Present get_entry) split present in
      let (e, found, peers) = here in
      (
        record {
          place = k;
          at_place = refl;
          entry = e;
          has_entry = found;
          has_peers = peers;
          no_error = rw (found) he;
          in_list = inside;
          trace =
              append_assoc u.applying (i ∷ []) (todo v)
              ∙ ap (λ l. u.applying ++ l) (sym split)
              ∙ ht;
          present = there;
          paired = paired;
        },
        omega (arith, hn, ap length split),
      )

  -- `next` goes to the first index to be visited, or to the end.
  pub next-Advanced :
      (t : IteratorImpl C P D)
      → after t.it ≤ length t.index_list
      → t.iter_error ≡ none
      → t.applying ++ todo t ≡ all
      → Present get_entry (todo t)
      → Paired t
      → (n : ℕ) → length (todo t) ≤ n
      → Advanced get_entry all n (next get_entry t)
  unfolding next
  next-Advanced t bound he ht present paired n hn =
      let u = extended get_entry t in
      let (same, place, applied, error, longer, whole, pair) =
        extended-Longer get_entry t bound paired in
      elim (drop-cases (after t.it) u.index_list) [
        | inl h ↦
            let none_left = whole (ap (λ k. drop k u.index_list) place ∙ h.1) in
            let same_end : record u { it = none; cur_entry = none } ≡ next get_entry t =
              rw (next, h.0) in
            inl (
              subst (Ended all) same_end (
                end-Ended u (ap (λ k. drop k u.index_list) place ∙ h.1) none_left
                  (ap₂ (λ a l. a ++ l) applied same ∙ ht) (error ∙ he)))
        | inr h ↦
            let (i, found, more, inside) = h in
            let same_visit : visit get_entry u (after t.it) i ≡ next get_entry t =
              rw (next, found) in
            inr (
              subst (λ v. At get_entry all v × (length (todo v) < n)) same_visit
                (visit-At u (after t.it) i n (ap (λ k. drop k u.index_list) place ∙ more) inside
                  (ap₂ (λ a l. a ++ l) applied same ∙ ht) (error ∙ he)
                  (subst (Present get_entry) (sym same) present) pair
                  (omega (arith, hn, ap length same))))
      ]
