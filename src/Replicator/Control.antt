-- ===== src/Replicator/Control.antt =====
-- cpp/replicator.cc: the operations of a replicator that its group, the log manager and the timers
-- call. Each takes the id of the replicator first, and answers as below where it is gone; creating
-- the channel and the id in `start` succeeds, and the pointers given to it are not null.
use hit_consistency.Prelude.{
  [], ℕ, ℤ, pos, Bool, true, false, not, ◌&&◌, ◌||◌, Option, none, some, ◌==◌, nat_eq,
  if◌then◌else◌, ltb, ◌+◌, ◌-ℤ◌,
}
use hit_consistency.Replicator.{
  Errno, etimedout, eperm, estop, einval, idle, CatchupClosure, Replicator, View, cancel,
  remove_waiter, stop_heartbeat_timer, send_heartbeat_later, run_catchup, unlock, ask, destroy,
  min_flying_index, is_catchup, cancel_append_entries_rpcs,
}
use hit_consistency.Replicator.Sending.{
  send_empty_entries, send_entries, start_heartbeat_timer, notify_on_caught_up, send_timeout_now,
  wait_more_entries,
}

abbrev pub rejected_closure : CatchupClosure → CatchupClosure
rejected_closure c = record c { status = einval }

module _ {P D : Type 0} where
  -- The id is taken; a replicator that is gone stays as it is.
  abbrev pub with_lock :
      Replicator P D → (Replicator P D → Option (Replicator P D)) → Option (Replicator P D)
  with_lock r f = if r.alive then f (record r { locked = true }) else some r

  -- The constructor.
  abbrev pub new : ℕ → Replicator P D
  new term = record {
    next_index = 0;
    oo_committed_entries = [];
    oo_start_index = 1;
    flying_append_entries_size = pos 0;
    consecutive_error_times = 0;
    has_succeeded = false;
    timeout_now_index = 0;
    last_rpc_send_timestamp = 0;
    heartbeat_counter = 0;
    append_entries_counter = 0;
    readonly_index = 0;
    st = idle;
    st_first_log_index = 0;
    st_last_log_index = 0;
    append_entries_in_fly = [];
    status_append_entries_in_fly = [];
    heartbeat_in_fly = 0;
    timeout_now_in_fly = 0;
    wait_id = 0;
    is_waiter_canceled = false;
    catchup_closure = none;
    term = term;
    locked = true;
    alive = true;
    out = [];
  }

  unfoldable pub start : View P D → ℕ → ℕ → Replicator P D
  unfolding send_empty_entries
  start v term now = send_empty_entries v false (
      start_heartbeat_timer
        (record (new term) { next_index = v.last_log_index + 1; last_rpc_send_timestamp = now }))

  -- _on_error with ESTOP; no snapshot is ever being installed, so that there is no call to cancel.
  unfoldable pub on_stop : View P D → Replicator P D → Option (Replicator P D)
  unfolding notify_on_caught_up cancel_append_entries_rpcs
  on_stop v r =
      let asked = ask (remove_waiter r.wait_id) (
        ask stop_heartbeat_timer (
          cancel_append_entries_rpcs
            (ask (cancel r.timeout_now_in_fly) (ask (cancel r.heartbeat_in_fly) r)))) in
      elim (notify_on_caught_up v estop true asked) [
        | none ↦ none
        | some r' ↦ some (destroy (record r' { wait_id = 0 }))
      ]

  unfoldable pub on_error : View P D → Errno → Replicator P D → Option (Replicator P D)
  unfolding on_stop
  on_error v estop r = on_stop v r
  on_error v etimedout r = some (ask send_heartbeat_later (unlock r))
  on_error v error r = some (unlock r)

  -- The error is delivered with the id held.
  unfoldable pub stop : View P D → Replicator P D → Option (Replicator P D)
  unfolding on_stop notify_on_caught_up
  stop v r =
      with_lock r
        (λ r. elim (notify_on_caught_up v eperm true r) [ none ↦ none | some r' ↦ on_stop v r' ])

  unfoldable pub send_heartbeat : View P D → Replicator P D → Option (Replicator P D)
  unfolding send_empty_entries
  send_heartbeat v r = with_lock r (λ r. some (send_empty_entries v true r))

  unfoldable pub on_catch_up_timedout : View P D → Replicator P D → Option (Replicator P D)
  unfolding notify_on_caught_up
  on_catch_up_timedout v r = with_lock r (λ r. elim (notify_on_caught_up v etimedout false r) [
    | none ↦ none
    | some r' ↦ some (unlock r')
  ])

  abbrev pub when_caught_up :
      View P D → Bool → CatchupClosure → Replicator P D → Option Bool → Option (Replicator P D)
  when_caught_up v has_due_time c r none = none
  when_caught_up v has_due_time c r (some true) = some (unlock (ask (run_catchup c) r))
  when_caught_up v has_due_time c r (some false) =
      let timed : CatchupClosure = record c { has_timer = c.has_timer || has_due_time } in
      if has_due_time && not v.timer_added
      then some (ask (run_catchup (rejected_closure timed)) (unlock r))
      else some (unlock (record r { catchup_closure = some timed }))

  abbrev pub wait_locked :
      View P D
      → ℕ
      → Bool
      → CatchupClosure
      → Replicator P D
      → Option CatchupClosure
      → Option (Replicator P D)
  wait_locked v max_margin has_due_time c r (some other) =
      some (ask (run_catchup (rejected_closure c)) (unlock r))
  wait_locked v max_margin has_due_time c r none =
      when_caught_up v has_due_time (record c { max_margin = max_margin }) r
        (if r.has_succeeded then is_catchup v r max_margin else some false)

  unfoldable pub wait_for_caught_up :
      View P D → ℕ → Bool → CatchupClosure → Replicator P D → Option (Replicator P D)
  unfolding is_catchup
  wait_for_caught_up v max_margin has_due_time c r =
      if r.alive
      then wait_locked v max_margin has_due_time c (record r { locked = true }) r.catchup_closure
      else some (ask (run_catchup (rejected_closure c)) r)

  -- The waiter of the log manager, and the end of blocking with ETIMEDOUT.
  unfoldable pub continue_sending : View P D → Errno → Replicator P D → Option (Replicator P D)
  unfolding send_empty_entries send_entries
  continue_sending v etimedout r =
      with_lock r
        (λ r. if not (r.wait_id == 0) then some r else some (send_empty_entries v false r))
  continue_sending v estop r = with_lock r (λ r. some (unlock r))
  continue_sending v error r = with_lock r (λ r.
      if r.is_waiter_canceled then some (unlock r) else send_entries v (record r { wait_id = 0 }))

  abbrev pub transfer_at : View P D → ℕ → Replicator P D → Option ℕ → Option (Replicator P D)
  transfer_at v log_index r none = none
  transfer_at v log_index r (some m) =
      if ltb log_index m
      then some (send_timeout_now v true false r)
      else some (unlock (record r { timeout_now_index = log_index }))

  unfoldable pub transfer_leadership : View P D → ℕ → Replicator P D → Option (Replicator P D)
  unfolding min_flying_index send_timeout_now
  transfer_leadership v log_index r = with_lock r (λ r.
      if r.has_succeeded
      then transfer_at v log_index r (min_flying_index r)
      else some (unlock (record r { timeout_now_index = log_index })))

  unfoldable pub stop_transfer_leadership : Replicator P D → Option (Replicator P D)
  stop_transfer_leadership r = with_lock r (λ r. some (unlock (record r { timeout_now_index = 0 })))

  unfoldable pub send_timeout_now_and_stop : View P D → Replicator P D → Option (Replicator P D)
  unfolding send_timeout_now
  send_timeout_now_and_stop v r = with_lock r (λ r. some (send_timeout_now v true true r))

  unfoldable pub get_next_index : Replicator P D → ℤ
  unfolding ◌-ℤ◌
  get_next_index r =
      if r.alive && r.has_succeeded then pos r.next_index -ℤ r.flying_append_entries_size else pos 0

  unfoldable pub readonly : Replicator P D → Bool
  readonly r = r.alive && not (r.readonly_index == 0)

  unfoldable pub last_rpc_send_timestamp : Replicator P D → ℕ
  last_rpc_send_timestamp r = if r.alive then r.last_rpc_send_timestamp else 0

  unfoldable pub change_readonly_config : View P D → Bool → Replicator P D → Option (Replicator P D)
  unfolding wait_more_entries
  change_readonly_config v readonly r = with_lock r (λ r.
      if readonly && not (r.readonly_index == 0) || not readonly && r.readonly_index == 0
      then some (unlock r)
      else if readonly
      then some (unlock (record r { readonly_index = v.last_log_index + 1 }))
      else some (wait_more_entries v (record r { readonly_index = 0 })))
