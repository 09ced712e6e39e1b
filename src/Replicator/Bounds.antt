-- ===== src/Replicator/Bounds.antt =====
-- The calls of a replicator that are in the air stay counted and within the limits of the flags.
use hit_consistency.Prelude.{
  [], ◌∷◌, List, arith, ℕ, ℤ, pos, zero, suc, Bool, false, not, ◌||◌, Option, none, some, nat_eq,
  if◌then◌else◌, ltb, leb, leb_ℤ, ◌+◌, ◌-◌, ◌-ℤ◌, ◌≡◌, ◌≤◌, ap, sym, subst, length, length-append,
  get_elem?, inl, inr, Bool-cases, Option-cases,
}
use Prim.Native.Nat.{bit_or, ◌*◌}
use hit_consistency.LogEntry.{LogEntry}
use hit_consistency.Replicator.{
  Errno, FlyingRpc, Request, Replicator, View, is_blocking, total, unlock, ask, reset_next_index,
  block_timer, blocking,
}
use hit_consistency.Replicator.Sending.{
  entries_per_request, is_short, block, fill_common_fields, empty_sent, send_empty_entries,
  send_entries, is_full, send_prepared, prepare_entries, wait_more_entries,
}
use hit_consistency.Replicator.Calls.{Returned, Flying, pop_finished, erase_at}
use hit_consistency.Replicator.Returned.{take_out, with_flying}
use hit_consistency.Replicator.InFly.{
  Matched, OnSome, Matched-erase_at, pop_finished-Matched, total-append,
}
use hit_consistency.Replicator.Matching.{
  IsMatched, IsQuiet, IsQuiet-IsMatched, OnSome-map, reset_next_index-IsQuiet,
  send_prepared-IsMatched, send_empty_entries-IsMatched,
}

-- What is dropped from a list of calls makes it no larger.
abbrev pub NoLarger : List FlyingRpc → List FlyingRpc → Type 0
NoLarger fs gs = (length fs ≤ length gs) × (total fs ≤ total gs)

NoLarger-weaken :
    (f : FlyingRpc) (fs : List FlyingRpc) (o : Option Flying)
    → OnSome (λ g. NoLarger g.calls fs) o
    → OnSome (λ g. NoLarger g.calls (f ∷ fs)) o
NoLarger-weaken f fs none h = tt
NoLarger-weaken f fs (some g) h = (omega (arith, h.0), omega (arith, h.1))

pop_finished-NoLarger :
    (start : ℕ) (fs : List FlyingRpc) (ss : List Bool) (size : ℤ)
    → OnSome (λ f. NoLarger f.calls fs) (pop_finished start fs ss size)
unfolding pop_finished
pop_finished-NoLarger start [] ss size = (omega arith, omega arith)
pop_finished-NoLarger start (f ∷ fs) [] size = tt
pop_finished-NoLarger start (f ∷ fs) (s ∷ ss) size =
    elim (Bool-cases (not s || leb (f.log_index + f.entries_size) start)) [
      | inl e ↦
          rw (pop_finished, e)
            (NoLarger-weaken f fs (pop_finished start fs ss (size -ℤ pos f.entries_size))
              (pop_finished-NoLarger start fs ss (size -ℤ pos f.entries_size)))
      | inr e ↦ rw (pop_finished, e) (omega arith, omega arith)
    ]

erase_at-NoLarger : (k : ℕ) (fs : List FlyingRpc) → NoLarger (erase_at k fs) fs
unfolding erase_at
erase_at-NoLarger k [] = (omega arith, omega arith)
erase_at-NoLarger zero (f ∷ fs) = (omega arith, omega arith)
erase_at-NoLarger (suc k) (f ∷ fs) =
    let h = erase_at-NoLarger k fs in (omega (arith, h.0), omega (arith, h.1))

module _ {P D : Type 0} where
  -- The deques are matched and counted, and within the limits.
  abbrev pub IsInAir : View P D → Replicator P D → Type 0
  IsInAir v r =
      IsMatched r
      × (length r.append_entries_in_fly ≤ v.max_parallel_rpc_num)
      × (total r.append_entries_in_fly ≤ v.max_entries_size)

  pub IsQuiet-IsInAir : (v : View P D) (r : Replicator P D) → IsQuiet r → IsInAir v r
  IsQuiet-IsInAir v r q =
      (IsQuiet-IsMatched r q, omega (arith, ap length q.0), omega (arith, ap total q.0))

  empty_sent-IsInAir :
      (v : View P D) (r : Replicator P D) (q : Option (Request P D))
      → IsQuiet r
      → 1 ≤ v.max_parallel_rpc_num
      → (length (empty_sent v false r q).append_entries_in_fly ≤ v.max_parallel_rpc_num)
        × (total (empty_sent v false r q).append_entries_in_fly ≤ v.max_entries_size)
  empty_sent-IsInAir v r none q h = (omega (arith, ap length q.0), omega (arith, ap total q.0))
  empty_sent-IsInAir v r (some req) q h =
      let f : FlyingRpc = record {
        log_index = r.next_index;
        entries_size = 0;
        call_id = v.call_id;
      } in
      (
        omega (arith, length-append r.append_entries_in_fly (f ∷ []), ap length q.0, h),
        omega (arith, total-append r.append_entries_in_fly (f ∷ []), ap total q.0),
      )

  pub send_empty_entries-IsInAir :
      (v : View P D) (r : Replicator P D)
      → IsQuiet r
      → 1 ≤ v.max_parallel_rpc_num
      → IsInAir v (send_empty_entries v false r)
  unfolding send_empty_entries
  send_empty_entries-IsInAir v r q h =
      let sent = empty_sent-IsInAir v r (fill_common_fields v r (r.next_index - 1) false) q h in
      (send_empty_entries-IsMatched v false r (IsQuiet-IsMatched r q), sent.0, sent.1)

  pub block-IsInAir :
      (v : View P D) (error : Errno) (r : Replicator P D)
      → IsQuiet r
      → 1 ≤ v.max_parallel_rpc_num
      → IsInAir v (block v error r)
  unfolding block
  block-IsInAir v error r q h = elim (Bool-cases (is_blocking r.st)) [
    | inl e ↦ rw (block, e) (IsQuiet-IsInAir v r q)
    | inr e ↦ elim (Bool-cases v.timer_added) [
      | inl e' ↦
          let same : block v error r
              ≡ unlock (ask (block_timer (is_short error)) (record r { st = blocking })) =
            rw (block, e)
              (ap
                (λ c.
                  if c
                  then unlock (ask (block_timer (is_short error)) (record r { st = blocking }))
                  else send_empty_entries v false r)
                e') in
          subst (IsInAir v) (sym same) (IsQuiet-IsInAir v r q)
      | inr e' ↦
          let same : block v error r ≡ send_empty_entries v false r =
            rw (block, e)
              (ap
                (λ c.
                  if c
                  then unlock (ask (block_timer (is_short error)) (record r { st = blocking }))
                  else send_empty_entries v false r)
                e') in
          subst (IsInAir v) (sym same) (send_empty_entries-IsInAir v r q h)
    ]
  ]

  prepare_entries-length :
      (v : View P D) (n i size dependency : ℕ)
      → length (prepare_entries v n i size dependency).1 ≤ n
  unfolding prepare_entries
  prepare_entries-length v zero i size dependency = omega arith
  prepare_entries-length v (suc n) i size dependency =
      elim (Bool-cases (leb v.max_body_size size)) [
        | inl e ↦ rw (prepare_entries, e) (omega arith)
        | inr e ↦ elim (Option-cases (v.get_entry i)) [
          | inl e' ↦ rw (prepare_entries, e, e') (omega arith)
          | inr (entry, e') ↦
              let rest =
                prepare_entries-length v n (i + 1) (size + v.payload_size entry.payload)
                  (bit_or (dependency * 2) entry.dependency) in
              rw (prepare_entries, e, e') (omega (arith, rest))
        ]
      ]

  send_prepared-IsInAir :
      (v : View P D) (r : Replicator P D) (q : Request P D) (e : ℕ × List (LogEntry P D))
      → IsInAir v r
      → length r.append_entries_in_fly + 1 ≤ v.max_parallel_rpc_num
      → total r.append_entries_in_fly + length e.1 ≤ v.max_entries_size
      → OnSome (IsInAir v) (send_prepared v r q e)
  unfolding wait_more_entries
  send_prepared-IsInAir v r q (dependency, []) h few small =
      elim (Bool-cases (ltb r.next_index v.first_log_index)) [
        | inl e ↦
            rw (e)
              (OnSome-map (reset_next_index r) (IsQuiet-IsInAir v) (reset_next_index-IsQuiet r))
        | inr e ↦ rw (e) h
      ]
  send_prepared-IsInAir v r q (dependency, e ∷ es) h few small =
      let f : FlyingRpc = record {
        log_index = r.next_index;
        entries_size = length (e ∷ es);
        call_id = v.call_id;
      } in
      (
        send_prepared-IsMatched v r q (dependency, e ∷ es) h.0,
        omega (arith, length-append r.append_entries_in_fly (f ∷ []), few),
        omega (arith, total-append r.append_entries_in_fly (f ∷ []), small),
      )

  has_room :
      (v : View P D) (r : Replicator P D)
      → r.flying_append_entries_size ≡ pos (total r.append_entries_in_fly)
      → is_full v r ≡ false
      → (length r.append_entries_in_fly + 1 ≤ v.max_parallel_rpc_num)
        × (total r.append_entries_in_fly + 1 ≤ v.max_entries_size)
  has_room v r same e =
      let counted : (leb_ℤ (pos v.max_entries_size) (pos (total r.append_entries_in_fly))
            || leb v.max_entries_size (length r.status_append_entries_in_fly)
            || leb v.max_parallel_rpc_num (length r.append_entries_in_fly)
            || is_blocking r.st)
          ≡ false =
        subst
          (λ z.
            (leb_ℤ (pos v.max_entries_size) z
              || leb v.max_entries_size (length r.status_append_entries_in_fly)
              || leb v.max_parallel_rpc_num (length r.append_entries_in_fly)
              || is_blocking r.st)
            ≡ false)
          same e in
      (ground (arith, counted), ground (arith, counted))

  -- _send_entries keeps the calls in the air counted and within the limits.
  pub send_entries-IsInAir :
      (v : View P D) (r : Replicator P D) → IsInAir v r → OnSome (IsInAir v) (send_entries v r)
  unfolding send_entries
  send_entries-IsInAir v r h = elim (Bool-cases (is_full v r)) [
    | inl e ↦ rw (send_entries, e) h
    | inr e ↦ elim (Option-cases (fill_common_fields v r (r.next_index - 1) false)) [
      | inl e' ↦
          rw (send_entries, e, e')
            (OnSome-map (reset_next_index r) (IsQuiet-IsInAir v) (reset_next_index-IsQuiet r))
      | inr (q, e') ↦
          let prepared = prepare_entries v entries_per_request r.next_index 0 0 in
          let one = prepare_entries-length v entries_per_request r.next_index 0 0 in
          let room = has_room v r h.0.1 e in
          rw (send_entries, e, e')
            (send_prepared-IsInAir v r q prepared h room.0 (omega (arith, one, room.1)))
    ]
  ]

  with_flying-IsInAir :
      (v : View P D) (r : Replicator P D) (o : Option Flying) (fs : List FlyingRpc)
      → OnSome (λ f. Matched f.calls f.statuses f.size) o
      → OnSome (λ f. NoLarger f.calls fs) o
      → length fs ≤ v.max_parallel_rpc_num
      → total fs ≤ v.max_entries_size
      → OnSome (IsInAir v) (with_flying r o)
  with_flying-IsInAir v r none fs m n few small = tt
  with_flying-IsInAir v r (some f) fs m n few small =
      (m, omega (arith, n.0, few), omega (arith, n.1, small))

  pub take_out-IsInAir :
      (v : View P D) (k : ℕ) (q : Returned) (r : Replicator P D) (f : FlyingRpc)
      → get_elem? r.append_entries_in_fly k ≡ some f
      → f.entries_size ≡ q.entries_size
      → IsInAir v r
      → OnSome (IsInAir v) (take_out k q r)
  unfolding take_out
  take_out-IsInAir v k q r f found same h =
      let fs = erase_at k r.append_entries_in_fly in
      let ss = erase_at k r.status_append_entries_in_fly in
      let size = r.flying_append_entries_size -ℤ pos q.entries_size in
      let matched : Matched fs ss size =
        subst (λ n. Matched fs ss (r.flying_append_entries_size -ℤ pos n)) same
          (Matched-erase_at k r.append_entries_in_fly r.status_append_entries_in_fly
            r.flying_append_entries_size f found h.0) in
      let (few, small) = erase_at-NoLarger k r.append_entries_in_fly in
      with_flying-IsInAir v r (pop_finished r.oo_start_index fs ss size) fs
        (pop_finished-Matched r.oo_start_index fs ss size matched)
        (pop_finished-NoLarger r.oo_start_index fs ss size) (omega (arith, few, h.1))
        (omega (arith, small, h.2))
