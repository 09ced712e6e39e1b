-- ===== src/Replicator/Responses.antt =====
-- A response to a request leaves the calls in the air counted and within the limits.
use hit_consistency.Prelude.{
  refl, arith, ℕ, pos, true, false, not, Option, none, some, ◌==◌, nat_eq, ltb, ◌+◌, ◌-◌, ◌≡◌, ◌≤◌,
  ap, sym, ◌∙◌, length, length-set, get_elem?, set, inl, inr, Bool-cases, Option-cases,
}
use hit_consistency.Replicator.{
  success, eperm, FlyingRpc, Replicator, View, total, unlock, ask, destroy, min_flying_index,
  reset_next_index, increase_term_to,
}
use hit_consistency.Replicator.Sending.{
  notify_on_caught_up, block, send_empty_entries, send_entries, send_timeout_now,
}
use hit_consistency.Replicator.Calls.{
  Returned, has_failed, Flags, Scan, past_end, not_valid, valid_at, drain, marked_from,
}
use hit_consistency.Replicator.Returned.{
  on_rpc_returned, scanned, scan_calls, answered, refused, accepted, quit, and_then, back_to,
  seen_at, with_flags, flags_of, commit_returned, take_out, go_on, check_timeout_now,
}
use hit_consistency.Replicator.InFly.{OnSome, FoundCall, find_call-valid}
use hit_consistency.Replicator.Matching.{
  IsQuiet, reset_next_index-IsQuiet, notify_on_caught_up-keeps,
}
use hit_consistency.Replicator.Bounds.{
  IsInAir, IsQuiet-IsInAir, send_empty_entries-IsInAir, block-IsInAir, take_out-IsInAir,
  send_entries-IsInAir,
}

module _ {P D : Type 0} where
  -- The calls of the response's id have as many entries as its request.
  abbrev pub Announced : Returned → Replicator P D → Type 0
  Announced q r =
      (k : ℕ) (f : FlyingRpc)
      → get_elem? r.append_entries_in_fly k ≡ some f
      → f.call_id ≡ q.call_id
      → f.entries_size ≡ q.entries_size

  pub and_then-keeps :
      (p q : Replicator P D → Type 0) (f : Replicator P D → Option (Replicator P D))
      (o : Option (Replicator P D))
      → OnSome p o
      → ((r : Replicator P D) → p r → OnSome q (f r))
      → OnSome q (and_then f o)
  and_then-keeps p q f none h g = tt
  and_then-keeps p q f (some r) h g = g r h

  quit-IsInAir :
      (v : View P D) (term : ℕ) (r : Replicator P D)
      → IsInAir v r
      → OnSome (IsInAir v) (quit v term r)
  quit-IsInAir v term r h =
      and_then-keeps (IsInAir v) (IsInAir v) (λ r'. some (ask (increase_term_to term) (destroy r')))
        (notify_on_caught_up v eperm true r)
        (notify_on_caught_up-keeps (IsInAir v) v eperm true r (λ r c out h. h) h) (λ r' h'. h')

  pub seen_at-IsInAir :
      (v : View P D) (time : ℕ) (r : Replicator P D) → IsInAir v r → IsInAir v (seen_at time r)
  seen_at-IsInAir v time r h = elim (Bool-cases (ltb r.last_rpc_send_timestamp time)) [
    | inl e ↦ rw (e) h
    | inr e ↦ rw (e) h
  ]

  pub seen_at-calls :
      (time : ℕ) (r : Replicator P D)
      → (seen_at time r).append_entries_in_fly ≡ r.append_entries_in_fly
  seen_at-calls time r = elim (Bool-cases (ltb r.last_rpc_send_timestamp time)) [
    | inl e ↦ rw (e)
    | inr e ↦ rw (e)
  ]

  refused-IsInAir :
      (v : View P D) (q : Returned) (r : Replicator P D)
      → 1 ≤ v.max_parallel_rpc_num
      → OnSome (IsInAir v) (refused v q r)
  refused-IsInAir v q r h = elim (Bool-cases (ltb r.term q.term)) [
    | inl e ↦ rw (e) (
        and_then-keeps IsQuiet (IsInAir v) (quit v q.term) (reset_next_index r)
          (reset_next_index-IsQuiet r)
          (λ r' quiet. quit-IsInAir v q.term r' (IsQuiet-IsInAir v r' quiet)))
    | inr e ↦ rw (e) (
        and_then-keeps IsQuiet (IsInAir v)
          (λ r'. some (send_empty_entries v false (back_to q.last_log_index r')))
          (reset_next_index (seen_at q.send_time r))
          (reset_next_index-IsQuiet (seen_at q.send_time r))
          (λ r' quiet. send_empty_entries-IsInAir v (back_to q.last_log_index r') quiet h))
  ]

  check_timeout_now-IsInAir :
      (v : View P D) (r : Replicator P D) → IsInAir v r → OnSome (IsInAir v) (check_timeout_now v r)
  unfolding send_timeout_now
  check_timeout_now-IsInAir v r h = elim (Bool-cases (r.timeout_now_index == 0)) [
    | inl e ↦ rw (e) h
    | inr e ↦ elim (Option-cases (min_flying_index r)) [
      | inl e' ↦ rw (e, e') tt
      | inr (m, e') ↦ elim (Bool-cases (ltb r.timeout_now_index m)) [
        | inl e'' ↦ rw (e, e', e'') h
        | inr e'' ↦ rw (e, e', e'') h
      ]
    ]
  ]

  go_on-IsInAir : (v : View P D) (r : Replicator P D) → IsInAir v r → OnSome (IsInAir v) (go_on v r)
  go_on-IsInAir v r h =
      let r' : Replicator P D = record r { has_succeeded = true } in
      let told = notify_on_caught_up-keeps (IsInAir v) v success false r' (λ r c out h. h) h in
      and_then-keeps (IsInAir v) (IsInAir v) (send_entries v)
        (and_then (check_timeout_now v) (notify_on_caught_up v success false r'))
        (and_then-keeps (IsInAir v) (IsInAir v) (check_timeout_now v)
          (notify_on_caught_up v success false r') told (check_timeout_now-IsInAir v))
        (send_entries-IsInAir v)

  -- The deques of the calls are not touched by what is committed.
  abbrev pub SameCalls : Replicator P D → Replicator P D → Type 0
  SameCalls r r' =
      (r'.append_entries_in_fly ≡ r.append_entries_in_fly)
      × (r'.status_append_entries_in_fly ≡ r.status_append_entries_in_fly)
      × (r'.flying_append_entries_size ≡ r.flying_append_entries_size)

  with_flags-SameCalls :
      (r : Replicator P D) (o : Option Flags) → OnSome (SameCalls r) (with_flags r o)
  with_flags-SameCalls r none = tt
  with_flags-SameCalls r (some o) = (refl, refl, refl)

  pub commit_returned-SameCalls :
      (q : Returned) (r : Replicator P D) → OnSome (SameCalls r) (commit_returned q r)
  unfolding commit_returned
  commit_returned-SameCalls q r = elim (Bool-cases (q.entries_size == 0)) [
    | inl e ↦ rw (commit_returned, e) (refl, refl, refl)
    | inr e ↦
        rw (commit_returned, e)
          (with_flags-SameCalls r
            (marked_from q (drain (q.last_log_index - r.oo_start_index) (flags_of r))))
  ]

  pub commit_returned-IsInAir :
      (v : View P D) (k : ℕ) (q : Returned) (r : Replicator P D) (f : FlyingRpc)
      → get_elem? r.append_entries_in_fly k ≡ some f
      → f.entries_size ≡ q.entries_size
      → IsInAir v r
      → OnSome (IsInAir v) (and_then (take_out k q) (commit_returned q r))
  commit_returned-IsInAir v k q r f found same h =
      and_then-keeps (SameCalls r) (IsInAir v) (take_out k q) (commit_returned q r)
        (commit_returned-SameCalls q r)
        (λ r' e. take_out-IsInAir v k q r' f (ap (λ fs. get_elem? fs k) e.0 ∙ found) same (
          (
            ap length e.0 ∙ h.0.0 ∙ sym (ap length e.1),
            e.2 ∙ h.0.1 ∙ sym (ap (λ fs. pos (total fs)) e.0),
          ),
          omega (arith, ap length e.0, h.1),
          omega (arith, ap total e.0, h.2),
        ))

  accepted-IsInAir :
      (v : View P D) (q : Returned) (k : ℕ) (r : Replicator P D) (f : FlyingRpc)
      → get_elem? r.append_entries_in_fly k ≡ some f
      → f.entries_size ≡ q.entries_size
      → IsInAir v r
      → OnSome (IsInAir v) (accepted v q k r)
  accepted-IsInAir v q k r f found same h = elim (Bool-cases (not (q.term == r.term))) [
    | inl e ↦ rw (e) (
        and_then-keeps IsQuiet (IsInAir v) (λ r'. some (unlock r')) (reset_next_index r)
          (reset_next_index-IsQuiet r) (λ r' quiet. IsQuiet-IsInAir v r' quiet))
    | inr e ↦
        let seen = seen_at q.send_time r in
        let kept : seen.append_entries_in_fly ≡ r.append_entries_in_fly =
          seen_at-calls q.send_time r in
        rw (e) (
          and_then-keeps (IsInAir v) (IsInAir v) (go_on v)
            (and_then (take_out k q) (commit_returned q seen))
            (commit_returned-IsInAir v k q seen f (ap (λ fs. get_elem? fs k) kept ∙ found) same
              (seen_at-IsInAir v q.send_time r h))
            (go_on-IsInAir v))
  ]

  answered-IsInAir :
      (v : View P D) (q : Returned) (k : ℕ) (r : Replicator P D) (f : FlyingRpc)
      → 1 ≤ v.max_parallel_rpc_num
      → get_elem? r.append_entries_in_fly k ≡ some f
      → f.entries_size ≡ q.entries_size
      → IsInAir v r
      → OnSome (IsInAir v) (answered v q k r)
  answered-IsInAir v q k r f most found same h = elim (Bool-cases (has_failed q.error)) [
    | inl e ↦
        let r' : Replicator P D = record r {
          consecutive_error_times = r.consecutive_error_times + 1;
        } in
        rw (e) (
          and_then-keeps IsQuiet (IsInAir v) (λ r'. some (block v q.error r')) (reset_next_index r')
            (reset_next_index-IsQuiet r') (λ r' quiet. block-IsInAir v q.error r' quiet most))
    | inr e ↦
        let r' : Replicator P D = record r { consecutive_error_times = 0 } in
        elim (Bool-cases (not q.succeeded)) [
          | inl e' ↦ rw (e, e') (refused-IsInAir v q r' most)
          | inr e' ↦ rw (e, e') (accepted-IsInAir v q k r' f found same h)
        ]
  ]

  pub scan_calls-found :
      (q : Returned) (r : Replicator P D) (o : Option ℕ) (k : ℕ)
      → scan_calls q r o ≡ valid_at k
      → FoundCall q.call_id r.append_entries_in_fly k
  scan_calls-found q r none k h = absurd cc
  scan_calls-found q r (some m) k h =
      find_call-valid (q.prev_log_index + 1) q.call_id r.append_entries_in_fly
        r.status_append_entries_in_fly k h

  scanned-IsInAir :
      (v : View P D) (q : Returned) (r : Replicator P D) (s : Scan)
      → 1 ≤ v.max_parallel_rpc_num
      → Announced q r
      → IsInAir v r
      → ((k : ℕ) → s ≡ valid_at k → FoundCall q.call_id r.append_entries_in_fly k)
      → OnSome (IsInAir v) (scanned v q r s)
  scanned-IsInAir v q r past_end most announced h found = tt
  scanned-IsInAir v q r not_valid most announced h found = h
  scanned-IsInAir v q r (valid_at k) most announced h found =
      let (f, here, same) = found k refl in
      answered-IsInAir v q k
        (record r { status_append_entries_in_fly = set r.status_append_entries_in_fly k false }) f
        most here (announced k f here same)
        ((h.0.0 ∙ sym (length-set r.status_append_entries_in_fly k false), h.0.1), h.1, h.2)

  -- Where the code is defined: after a response to a request, the two deques of the calls in the air
  -- are as long as each other, flying_append_entries_size is the number of entries in the air, there
  -- are raft_max_parallel_append_entries_rpc_num calls at most, and raft_max_entries_size entries at
  -- most, if it was so before, the first of these flags being above 0 and the calls of the response's
  -- id having as many entries as its request.
  pub on_rpc_returned-IsInAir :
      (v : View P D) (q : Returned) (r : Replicator P D)
      → 1 ≤ v.max_parallel_rpc_num
      → Announced q r
      → IsInAir v r
      → OnSome (IsInAir v) (on_rpc_returned v q r)
  unfolding on_rpc_returned
  on_rpc_returned-IsInAir v q r most announced h =
      scanned-IsInAir v q r (scan_calls q r (min_flying_index r)) most announced h
        (scan_calls-found q r (min_flying_index r))
