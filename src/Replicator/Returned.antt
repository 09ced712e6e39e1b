-- ===== src/Replicator/Returned.antt =====
-- cpp/replicator.cc: what a replicator does with the response to a request, a heartbeat or a
-- TimeoutNow request. A call that comes back to a replicator that is gone is left out.
use hit_consistency.Prelude.{
  [], ℕ, pos, Bool, true, false, not, Option, none, some, ◌==◌, nat_eq, if◌then◌else◌, ltb, ◌+◌,
  ◌-◌, ◌-ℤ◌, set,
}
use hit_consistency.Replicator.{
  success, eperm, estop, Replicator, View, commit_at, increase_term_to, unlock, ask, destroy,
  min_flying_index, reset_next_index,
}
use hit_consistency.Replicator.Sending.{
  send_empty_entries, send_entries, block, start_heartbeat_timer, notify_on_caught_up,
  send_timeout_now,
}
use hit_consistency.Replicator.Calls.{
  Returned, has_failed, Scan, past_end, not_valid, valid_at, find_call, erase_at, Flags, drain,
  mark_from, marked_from, pop_flags, Flying, pop_finished,
}

module _ {P D : Type 0} where
  abbrev pub seen_at : ℕ → Replicator P D → Replicator P D
  seen_at send_time r =
      if ltb r.last_rpc_send_timestamp send_time
      then record r { last_rpc_send_timestamp = send_time }
      else r

  -- The next step, unless the code is undefined.
  abbrev pub and_then :
      (Replicator P D → Option (Replicator P D)) → Option (Replicator P D) → Option (Replicator P D)
  and_then f none = none
  and_then f (some r) = f r

  -- A higher term: the replicator destroys itself and tells the node.
  abbrev pub quit : View P D → ℕ → Replicator P D → Option (Replicator P D)
  quit v term r =
      and_then (λ r'. some (ask (increase_term_to term) (destroy r')))
        (notify_on_caught_up v eperm true r)

  unfoldable pub on_heartbeat_returned :
      View P D → Returned → Replicator P D → Option (Replicator P D)
  unfolding notify_on_caught_up
  on_heartbeat_returned v q r =
      if has_failed q.error
      then some (
          unlock (
            start_heartbeat_timer
              (record r { consecutive_error_times = r.consecutive_error_times + 1 })))
      else if ltb r.term q.term
      then quit v q.term (record r { consecutive_error_times = 0 })
      else some (
          unlock (
            start_heartbeat_timer (seen_at q.send_time (record r { consecutive_error_times = 0 }))))

  abbrev pub back_to : ℕ → Replicator P D → Replicator P D
  back_to last r = record r {
    next_index =
        if ltb (last + 1) r.next_index
        then last + 1
        else if ltb 1 r.next_index
        then r.next_index - 1
        else r.next_index;
  }

  -- The response says no.
  abbrev pub refused : View P D → Returned → Replicator P D → Option (Replicator P D)
  refused v q r =
      if ltb r.term q.term
      then and_then (quit v q.term) (reset_next_index r)
      else and_then (λ r'. some (send_empty_entries v false (back_to q.last_log_index r')))
          (reset_next_index (seen_at q.send_time r))

  abbrev pub flags_set : Replicator P D → Flags → Replicator P D
  flags_set r o =
      let (flags, start) = pop_flags o.flags o.start in
      ask (commit_at o.indexes) (record r { oo_committed_entries = flags; oo_start_index = start })

  abbrev pub with_flags : Replicator P D → Option Flags → Option (Replicator P D)
  with_flags r none = none
  with_flags r (some o) = some (flags_set r o)

  abbrev pub flags_of : Replicator P D → Flags
  flags_of r = record { flags = r.oo_committed_entries; start = r.oo_start_index; indexes = [] }

  -- What is committed of a successful call.
  unfoldable pub commit_returned : Returned → Replicator P D → Option (Replicator P D)
  unfolding drain mark_from pop_flags
  commit_returned q r =
      if q.entries_size == 0
      then some r
      else with_flags r (marked_from q (drain (q.last_log_index - r.oo_start_index) (flags_of r)))

  abbrev pub with_flying : Replicator P D → Option Flying → Option (Replicator P D)
  with_flying r none = none
  with_flying r (some f) = some (record r {
    append_entries_in_fly = f.calls;
    status_append_entries_in_fly = f.statuses;
    flying_append_entries_size = f.size;
  })

  -- The call at the place `k` is taken out, and so are the first ones that are finished.
  unfoldable pub take_out : ℕ → Returned → Replicator P D → Option (Replicator P D)
  unfolding erase_at pop_finished
  take_out k q r = with_flying r (
      pop_finished r.oo_start_index (erase_at k r.append_entries_in_fly)
        (erase_at k r.status_append_entries_in_fly)
        (r.flying_append_entries_size -ℤ pos q.entries_size))

  abbrev pub timeout_now_at : View P D → Replicator P D → Option ℕ → Option (Replicator P D)
  timeout_now_at v r none = none
  timeout_now_at v r (some m) =
      if ltb r.timeout_now_index m then some (send_timeout_now v false false r) else some r

  abbrev pub check_timeout_now : View P D → Replicator P D → Option (Replicator P D)
  check_timeout_now v r =
      if r.timeout_now_index == 0 then some r else timeout_now_at v r (min_flying_index r)

  -- The end of a successful call.
  abbrev pub go_on : View P D → Replicator P D → Option (Replicator P D)
  go_on v r = and_then (send_entries v) (
      and_then (check_timeout_now v)
        (notify_on_caught_up v success false (record r { has_succeeded = true })))

  abbrev pub accepted : View P D → Returned → ℕ → Replicator P D → Option (Replicator P D)
  accepted v q k r =
      if not (q.term == r.term)
      then and_then (λ r'. some (unlock r')) (reset_next_index r)
      else and_then (go_on v) (and_then (take_out k q) (commit_returned q (seen_at q.send_time r)))

  abbrev pub answered : View P D → Returned → ℕ → Replicator P D → Option (Replicator P D)
  answered v q k r =
      if has_failed q.error
      then and_then (λ r'. some (block v q.error r'))
          (reset_next_index (record r { consecutive_error_times = r.consecutive_error_times + 1 }))
      else if not q.succeeded
      then refused v q (record r { consecutive_error_times = 0 })
      else accepted v q k (record r { consecutive_error_times = 0 })

  abbrev pub scanned : View P D → Returned → Replicator P D → Scan → Option (Replicator P D)
  scanned v q r past_end = none
  scanned v q r not_valid = some (unlock r)
  scanned v q r (valid_at k) =
      answered v q k
        (record r { status_append_entries_in_fly = set r.status_append_entries_in_fly k false })

  abbrev pub scan_calls : Returned → Replicator P D → Option ℕ → Scan
  scan_calls q r none = past_end
  scan_calls q r (some m) =
      find_call (q.prev_log_index + 1) q.call_id r.append_entries_in_fly
        r.status_append_entries_in_fly

  unfoldable pub on_rpc_returned : View P D → Returned → Replicator P D → Option (Replicator P D)
  unfolding find_call min_flying_index reset_next_index block send_empty_entries notify_on_caught_up
      commit_returned take_out send_timeout_now send_entries
  on_rpc_returned v q r = scanned v q r (scan_calls q r (min_flying_index r))

  abbrev pub quit_after : Bool → View P D → Replicator P D → Option (Replicator P D)
  quit_after false v r = some (unlock r)
  quit_after true v r = and_then (λ r'. some (destroy r')) (notify_on_caught_up v estop true r)

  unfoldable pub on_timeout_now_returned :
      View P D → Bool → Returned → Replicator P D → Option (Replicator P D)
  unfolding notify_on_caught_up
  on_timeout_now_returned v stop_after_finish q r =
      if has_failed q.error
      then quit_after stop_after_finish v r
      else if ltb r.term q.term
      then quit v q.term r
      else quit_after stop_after_finish v r
