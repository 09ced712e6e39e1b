-- ===== src/Replicator/Total.antt =====
-- A response to a request is handled without an access out of range.
use hit_consistency.Prelude.{
  refl, arith, ℕ, pos, false, not, Option, none, some, ◌==◌, nat_eq, ltb, ◌+◌, ◌-◌, ◌-ℤ◌, ◌≡◌, ◌≢◌,
  ◌≤◌, ◌<◌, ap, sym, subst, ◌∙◌, length, length-set, get_elem?, set, inl, inr, Bool-cases,
}
use hit_consistency.Replicator.{
  FlyingRpc, Replicator, View, unlock, min_flying_index, reset_next_index,
}
use hit_consistency.Replicator.Sending.{block, send_empty_entries}
use hit_consistency.Replicator.Calls.{
  Returned, has_failed, Flags, Scan, past_end, not_valid, valid_at, drain, marked_from, erase_at,
}
use hit_consistency.Replicator.Returned.{
  on_rpc_returned, scanned, scan_calls, answered, refused, accepted, quit, and_then, back_to,
  seen_at, with_flags, with_flying, flags_of, commit_returned, take_out, go_on,
}
use hit_consistency.Replicator.InFly.{OnSome, FoundCall, length-erase_at}
use hit_consistency.Replicator.Matching.{IsMatched}
use hit_consistency.Replicator.Bounds.{IsInAir}
use hit_consistency.Replicator.Responses.{
  Announced, SameCalls, commit_returned-SameCalls, commit_returned-IsInAir, seen_at-IsInAir,
  seen_at-calls, scan_calls-found, on_rpc_returned-IsInAir,
}
use hit_consistency.Replicator.Defined.{
  pop_finished-some, find_call-defined, Must, Both, IsPlain, Any, Must-Both, and_then-Must,
  reset_next_index-Must, quit-Must, go_on-Must, front-some,
}
use hit_consistency.Replicator.Commits.{commit_returned-CommitsNew}

module _ {P D : Type 0} where
  take_out-Must :
      (k : ℕ) (q : Returned) (r : Replicator P D)
      → length r.append_entries_in_fly ≡ length r.status_append_entries_in_fly
      → IsPlain r
      → Must IsPlain (take_out k q r)
  unfolding take_out
  take_out-Must k q r same p =
      let fs = erase_at k r.append_entries_in_fly in
      let ss = erase_at k r.status_append_entries_in_fly in
      let (f, popped) =
        pop_finished-some r.oo_start_index fs ss
          (r.flying_append_entries_size -ℤ pos q.entries_size)
          (length-erase_at k r.append_entries_in_fly r.status_append_entries_in_fly same) in
      subst (λ o. Must IsPlain (with_flying r o)) (sym popped) p

  -- The replicator has a flag for each index that the response speaks of.
  abbrev pub Covers : Returned → Replicator P D → Type 0
  Covers q r =
      (q.prev_log_index + q.entries_size < r.oo_start_index + length r.oo_committed_entries)
      × (q.last_log_index ≤ r.oo_start_index + length r.oo_committed_entries)

  with_flags-IsPlain :
      (r : Replicator P D) (o : Option Flags) → IsPlain r → OnSome IsPlain (with_flags r o)
  with_flags-IsPlain r none p = tt
  with_flags-IsPlain r (some o) p = p

  commit_returned-Must :
      (q : Returned) (r : Replicator P D)
      → Covers q r
      → IsPlain r
      → Must IsPlain (commit_returned q r)
  unfolding commit_returned
  commit_returned-Must q r covers p = elim (Bool-cases (q.entries_size == 0)) [
    | inl e ↦ rw (commit_returned, e) p
    | inr e ↦
        let (r', same, news) =
          commit_returned-CommitsNew q r (ground (arith, e)) covers.0 covers.1 in
        let plain : OnSome IsPlain (commit_returned q r) =
          rw (commit_returned, e)
            (with_flags-IsPlain r
              (marked_from q (drain (q.last_log_index - r.oo_start_index) (flags_of r))) p) in
        subst (Must IsPlain) (sym same) (subst (OnSome IsPlain) same plain)
  ]

  seen_at-kept :
      (time : ℕ) (r : Replicator P D)
      → IsMatched r
      → IsPlain r
      → IsMatched (seen_at time r) × IsPlain (seen_at time r)
  seen_at-kept time r m p = elim (Bool-cases (ltb r.last_rpc_send_timestamp time)) [
    | inl e ↦ rw (e) (m, p)
    | inr e ↦ rw (e) (m, p)
  ]

  seen_at-Covers :
      (q : Returned) (time : ℕ) (r : Replicator P D) → Covers q r → Covers q (seen_at time r)
  seen_at-Covers q time r c = elim (Bool-cases (ltb r.last_rpc_send_timestamp time)) [
    | inl e ↦ rw (e) c
    | inr e ↦ rw (e) c
  ]

  refused-Must :
      (v : View P D) (q : Returned) (r : Replicator P D)
      → IsMatched r
      → IsPlain r
      → Must Any (refused v q r)
  refused-Must v q r m p = elim (Bool-cases (ltb r.term q.term)) [
    | inl e ↦ rw (e) (
        and_then-Must IsPlain Any (quit v q.term) (reset_next_index r) (reset_next_index-Must r m p)
          (quit-Must v q.term))
    | inr e ↦
        let (m', p') = seen_at-kept q.send_time r m p in
        rw (e) (
          and_then-Must IsPlain Any
            (λ r'. some (send_empty_entries v false (back_to q.last_log_index r')))
            (reset_next_index (seen_at q.send_time r))
            (reset_next_index-Must (seen_at q.send_time r) m' p') (λ r' plain. tt))
  ]

  taken_out-Must :
      (v : View P D) (k : ℕ) (q : Returned) (r : Replicator P D) (f : FlyingRpc)
      → get_elem? r.append_entries_in_fly k ≡ some f
      → f.entries_size ≡ q.entries_size
      → IsInAir v r
      → IsPlain r
      → Covers q r
      → Must (Both IsPlain (IsInAir v)) (and_then (take_out k q) (commit_returned q r))
  taken_out-Must v k q r f found same h p covers =
      let committed : Must (Both IsPlain (SameCalls r)) (commit_returned q r) =
        Must-Both IsPlain (SameCalls r) (commit_returned q r) (commit_returned-Must q r covers p)
          (commit_returned-SameCalls q r) in
      Must-Both IsPlain (IsInAir v) (and_then (take_out k q) (commit_returned q r))
        (and_then-Must (Both IsPlain (SameCalls r)) IsPlain (take_out k q) (commit_returned q r)
          committed
          (λ r' b. take_out-Must k q r' (ap length b.1.0 ∙ h.0.0 ∙ sym (ap length b.1.1)) b.0))
        (commit_returned-IsInAir v k q r f found same h)

  accepted-Must :
      (v : View P D) (q : Returned) (k : ℕ) (r : Replicator P D) (f : FlyingRpc)
      → get_elem? r.append_entries_in_fly k ≡ some f
      → f.entries_size ≡ q.entries_size
      → IsInAir v r
      → IsPlain r
      → Covers q r
      → Must Any (accepted v q k r)
  accepted-Must v q k r f found same h p covers = elim (Bool-cases (not (q.term == r.term))) [
    | inl e ↦ rw (e) (
        and_then-Must IsPlain Any (λ r'. some (unlock r')) (reset_next_index r)
          (reset_next_index-Must r h.0 p) (λ r' plain. tt))
    | inr e ↦
        let seen = seen_at q.send_time r in
        let kept = seen_at-calls q.send_time r in
        let plain = seen_at-kept q.send_time r h.0 p in
        rw (e) (
          and_then-Must (Both IsPlain (IsInAir v)) Any (go_on v)
            (and_then (take_out k q) (commit_returned q seen))
            (taken_out-Must v k q seen f (ap (λ fs. get_elem? fs k) kept ∙ found) same
              (seen_at-IsInAir v q.send_time r h) plain.1 (seen_at-Covers q q.send_time r covers))
            (λ r' b. go_on-Must v r' b.1.0 b.0))
  ]

  answered-Must :
      (v : View P D) (q : Returned) (k : ℕ) (r : Replicator P D) (f : FlyingRpc)
      → get_elem? r.append_entries_in_fly k ≡ some f
      → f.entries_size ≡ q.entries_size
      → IsInAir v r
      → IsPlain r
      → Covers q r
      → Must Any (answered v q k r)
  answered-Must v q k r f found same h p covers = elim (Bool-cases (has_failed q.error)) [
    | inl e ↦
        let r' : Replicator P D = record r {
          consecutive_error_times = r.consecutive_error_times + 1;
        } in
        rw (e) (
          and_then-Must IsPlain Any (λ r'. some (block v q.error r')) (reset_next_index r')
            (reset_next_index-Must r' h.0 p) (λ r' plain. tt))
    | inr e ↦
        let r' : Replicator P D = record r { consecutive_error_times = 0 } in
        elim (Bool-cases (not q.succeeded)) [
          | inl e' ↦ rw (e, e') (refused-Must v q r' h.0 p)
          | inr e' ↦ rw (e, e') (accepted-Must v q k r' f found same h p covers)
        ]
  ]

  scanned-Must :
      (v : View P D) (q : Returned) (r : Replicator P D) (s : Scan)
      → Announced q r
      → IsInAir v r
      → IsPlain r
      → Covers q r
      → s ≢ past_end
      → ((k : ℕ) → s ≡ valid_at k → FoundCall q.call_id r.append_entries_in_fly k)
      → Must Any (scanned v q r s)
  scanned-Must v q r past_end announced h p covers here found = absurd (here refl)
  scanned-Must v q r not_valid announced h p covers here found = tt
  scanned-Must v q r (valid_at k) announced h p covers here found =
      let (f, at, same) = found k refl in
      answered-Must v q k
        (record r { status_append_entries_in_fly = set r.status_append_entries_in_fly k false }) f
        at (announced k f at same)
        ((h.0.0 ∙ sym (length-set r.status_append_entries_in_fly k false), h.0.1), h.1, h.2) p
        covers

  Must-some :
      (p : Replicator P D → Type 0) (o : Option (Replicator P D))
      → Must p o
      → (r : Replicator P D) × (o ≡ some r) × p r
  Must-some p none m = absurd m
  Must-some p (some r) m = (r, refl, m)

  min_flying_index-some :
      (r : Replicator P D)
      → 0 < length r.append_entries_in_fly
      → (m : ℕ) × (min_flying_index r ≡ some m)
  unfolding min_flying_index
  min_flying_index-some r flying =
      let (f, first) = front-some r.append_entries_in_fly flying in
      (f.log_index, rw (min_flying_index, first))

  scan_calls-defined :
      (q : Returned) (r : Replicator P D)
      → 0 < length r.append_entries_in_fly
      → length r.append_entries_in_fly ≡ length r.status_append_entries_in_fly
      → scan_calls q r (min_flying_index r) ≢ past_end
  scan_calls-defined q r flying same bad =
      let (m, low) = min_flying_index-some r flying in
      find_call-defined (q.prev_log_index + 1) q.call_id r.append_entries_in_fly
        r.status_append_entries_in_fly same (sym (ap (scan_calls q r) low) ∙ bad)

  -- A response to a request is handled without an access out of range, by a replicator that nobody
  -- waits for to catch up or to become the leader, that has a call in the air and a flag for each
  -- index that the response speaks of. Afterwards the two deques of the calls in the air are as long
  -- as each other, flying_append_entries_size is the number of entries in the air, and the calls and
  -- entries in the air are within the limits of the flags, if it was so before, the limit of the
  -- calls being above 0 and the calls of the response's id having as many entries as its request.
  pub on_rpc_returned_defined :
      (v : View P D) (q : Returned) (r : Replicator P D)
      → 1 ≤ v.max_parallel_rpc_num
      → 0 < length r.append_entries_in_fly
      → Announced q r
      → IsInAir v r
      → IsPlain r
      → Covers q r
      → (r' : Replicator P D) × (on_rpc_returned v q r ≡ some r') × IsInAir v r'
  unfolding on_rpc_returned
  on_rpc_returned_defined v q r most flying announced h p covers =
      let s = scan_calls q r (min_flying_index r) in
      let run =
        scanned-Must v q r s announced h p covers (scan_calls-defined q r flying h.0.0)
          (scan_calls-found q r (min_flying_index r)) in
      let (r', same, both) = Must-some (Both Any (IsInAir v)) (on_rpc_returned v q r) (
        Must-Both Any (IsInAir v) (on_rpc_returned v q r) run
          (on_rpc_returned-IsInAir v q r most announced h)) in
      (r', same, both.1)
