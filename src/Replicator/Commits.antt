-- ===== src/Replicator/Commits.antt =====
-- Which indexes a successful response gives to the ballot box.
use hit_consistency.Prelude.{
  count, [], ◌∷◌, List, refl, arith, ℕ, Bool, true, false, some, ◌==◌, nat_eq, ◌+◌, ◌-◌, ◌++◌, ◌≡◌,
  ◌<◌, ◌≤◌, ap, sym, ◌∙◌, length,
}
use hit_consistency.Replicator.{Replicator, commit_at}
use hit_consistency.Replicator.Calls.{Returned, Flags, drain, marked_from}
use hit_consistency.Replicator.Returned.{with_flags, flags_set, flags_of, commit_returned}
use hit_consistency.Replicator.Answers.{
  has_answered, newly, Grows, Grows-trans, drain-Grows, drain-total, mark_from-Grows,
  mark_from-total, pop_flags-same,
}

module _ {P D : Type 0} where
  abbrev pub is_answered : Replicator P D → ℕ → Bool
  is_answered r i = has_answered r.oo_committed_entries r.oo_start_index i

  -- `indexes` are given to the ballot box, and are the ones that `r'` has flagged and `r` has not.
  pub record CommitsNew (q : Returned) (r r' : Replicator P D) : Type 0 where
    pub indexes : List ℕ
    pub committed : r'.out ≡ r.out ++ commit_at indexes ∷ []
    pub keeps : (i : ℕ) → is_answered r i ≡ true → is_answered r' i ≡ true
    pub once : (i : ℕ) → count i indexes ≡ newly (is_answered r i) (is_answered r' i)
    pub reaches :
        (i : ℕ)
        → q.prev_log_index < i
        → i ≤ q.prev_log_index + q.entries_size
        → is_answered r' i ≡ true

  with_flags-CommitsNew :
      (q : Returned) (r : Replicator P D) (o : Flags)
      → Grows (flags_of r) o
      → ((i : ℕ)
          → q.prev_log_index < i
          → i ≤ q.prev_log_index + q.entries_size
          → has_answered o.flags o.start i ≡ true)
      → CommitsNew q r (flags_set r o)
  with_flags-CommitsNew q r o grows reaches = record {
    indexes = o.indexes;
    committed = refl;
    keeps = λ i h. pop_flags-same o.flags o.start i ∙ (grows i).0 h;
    once = λ i.
        let listed : count i o.indexes ≡ newly (is_answered r i) (has_answered o.flags o.start i) =
          omega (arith, (grows i).1) in
        listed ∙ ap (newly (is_answered r i)) (sym (pop_flags-same o.flags o.start i));
    reaches = λ i low high. pop_flags-same o.flags o.start i ∙ reaches i low high;
  }

  -- For a success with entries, up to the last index that the replicator has a flag for, the code is
  -- defined, and the indexes given to commit_at are exactly those that the response newly answers
  -- for, each of them once: none that the follower had already answered for, and none that it has not
  -- answered for afterwards. What was answered for stays so, and the indexes of the request's entries
  -- are answered for afterwards. The follower's last index is one after the last flag at most.
  pub commit_returned-CommitsNew :
      (q : Returned) (r : Replicator P D)
      → 0 < q.entries_size
      → q.prev_log_index + q.entries_size < r.oo_start_index + length r.oo_committed_entries
      → q.last_log_index ≤ r.oo_start_index + length r.oo_committed_entries
      → (r' : Replicator P D) × (commit_returned q r ≡ some r') × CommitsNew q r r'
  unfolding commit_returned
  commit_returned-CommitsNew q r h below drains =
      let some_entries : (q.entries_size == 0) ≡ false = ground (arith, h) in
      let n = q.last_log_index - r.oo_start_index in
      let last = q.prev_log_index + q.entries_size in
      let same : commit_returned q r ≡ with_flags r (marked_from q (drain n (flags_of r))) =
        rw (commit_returned, some_entries) in
      let (o, e, size) =
        drain-total n r.oo_committed_entries r.oo_start_index [] (omega (arith, drains)) in
      let (o', e') = mark_from-total q.prev_log_index last o (omega (arith, size, below)) in
      let first_grows = drain-Grows n r.oo_committed_entries r.oo_start_index [] o e in
      let (grows, reaches) = mark_from-Grows q.prev_log_index last o o' e' in
      let marked_to : marked_from q (drain n (flags_of r)) ≡ some o' = ap (marked_from q) e ∙ e' in
      (
        flags_set r o',
        same ∙ ap (with_flags r) marked_to,
        with_flags-CommitsNew q r o' (Grows-trans (flags_of r) o o' first_grows grows) reaches,
      )
