-- ===== src/Replicator/Sending.antt =====
-- cpp/replicator.cc: the requests that a replicator sends, with and without entries, how it waits for
-- more of them or for a while after an error, and how it tells that the follower has caught up.
use hit_consistency.Prelude.{
  [], ◌∷◌, List, ℕ, pos, zero, suc, Bool, true, false, not, ◌&&◌, ◌||◌, Option, none, some, ◌==◌,
  nat_eq, if◌then◌else◌, ltb, leb, ltb_ℤ, leb_ℤ, ◌+◌, ◌-◌, ◌*◌, ◌++◌, ◌-ℤ◌, sub_ℕ, length,
  get_elem?, replicate,
}
use Prim.Native.Nat.{bit_or}
use hit_consistency.LogEntry.{LogEntry}
use hit_consistency.Replicator.{
  Errno, success, etimedout, eperm, ebusy, eintr, idle, blocking, appending_entries, FlyingRpc,
  CatchupClosure, Request, append_entries, heartbeat, timeout_now, heartbeat_timer, block_timer,
  wait_from, run_catchup, Replicator, View, is_blocking, front, unlock, ask, is_catchup,
  reset_next_index,
}

-- `const int max_entries_size = 1` in _send_entries.
abbrev pub entries_per_request : ℕ
entries_per_request = 1

abbrev pub first_in_fly : ℕ → Option FlyingRpc → ℕ
first_in_fly next none = next
first_in_fly next (some f) = f.log_index

-- _block, for EBUSY and EINTR with the short interval.
abbrev pub is_short : Errno → Bool
is_short ebusy = true
is_short eintr = true
is_short other = false

-- set_error, if there is an error.
abbrev pub error_status : Errno → Errno → Errno
error_status success status = status
error_status error status = error

module _ {P D : Type 0} where
  -- Whether the follower has answered for the index.
  abbrev pub has_flag : Replicator P D → ℕ → Bool
  has_flag r i =
      if ltb i r.oo_start_index
      then false
      else elim (get_elem? r.oo_committed_entries (i - r.oo_start_index)) [
        | none ↦ false
        | some b ↦ b
      ]

  unfoldable pub flagged : Replicator P D → List ℕ → List ℕ
  flagged r [] = []
  flagged r (i ∷ is) = let rest = flagged r is in if has_flag r i then i ∷ rest else rest

  -- The request without entries, or -1.
  unfoldable pub fill_common_fields : View P D → Replicator P D → ℕ → Bool → Option (Request P D)
  unfolding flagged
  fill_common_fields v r prev_log_index is_heartbeat =
      let prev_log_term = v.get_term prev_log_index in
      let is_compacted = prev_log_term == 0 && not (prev_log_index == 0) in
      if is_compacted && not is_heartbeat
      then none
      else some (record {
        term = r.term;
        prev_log_index = if is_compacted then 0 else prev_log_index;
        prev_log_term = prev_log_term;
        committed_index =
            if ltb r.oo_start_index v.committed_index
            then r.oo_start_index - 1
            else v.committed_index;
        committed_oo_indexes = flagged r v.committed_oo_indexes;
        dependency = 0;
        entries = [];
      })

  abbrev pub empty_sent : View P D → Bool → Replicator P D → Option (Request P D) → Replicator P D
  empty_sent v is_heartbeat r none = r
  empty_sent v true r (some q) = unlock (
      ask (heartbeat v.call_id q)
        (record r { heartbeat_in_fly = v.call_id; heartbeat_counter = r.heartbeat_counter + 1 }))
  empty_sent v false r (some q) = unlock (
      ask (append_entries v.call_id q) (record r {
        st = appending_entries;
        st_first_log_index = r.next_index;
        st_last_log_index = r.next_index - 1;
        append_entries_in_fly =
            r.append_entries_in_fly
            ++ record { log_index = r.next_index; entries_size = 0; call_id = v.call_id } ∷ [];
        status_append_entries_in_fly = r.status_append_entries_in_fly ++ true ∷ [];
        append_entries_counter = r.append_entries_counter + 1;
      }))

  unfoldable pub send_empty_entries : View P D → Bool → Replicator P D → Replicator P D
  unfolding fill_common_fields
  send_empty_entries v is_heartbeat r =
      empty_sent v is_heartbeat r (fill_common_fields v r (r.next_index - 1) is_heartbeat)

  -- The loop over _prepare_entry, `n` entries from the index `i` on, `size` bytes being filled: the
  -- dependency and the entries.
  abbrev pub with_entry : LogEntry P D → ℕ × List (LogEntry P D) → ℕ × List (LogEntry P D)
  with_entry e (dependency, entries) = (dependency, e ∷ entries)

  unfoldable pub prepare_entries : View P D → ℕ → ℕ → ℕ → ℕ → ℕ × List (LogEntry P D)
  prepare_entries v zero i size dependency = (dependency, [])
  prepare_entries v (suc n) i size dependency =
      if leb v.max_body_size size then (dependency, []) else elim (v.get_entry i) [
        | none ↦ (dependency, [])
        | some e ↦ with_entry e (
            prepare_entries v n (i + 1) (size + v.payload_size e.payload)
              (bit_or (dependency * 2) e.dependency))
      ]

  unfoldable pub wait_more_entries : View P D → Replicator P D → Replicator P D
  wait_more_entries v r =
      let waits =
        r.wait_id == 0
        && ltb_ℤ r.flying_append_entries_size (pos v.max_entries_size)
        && ltb (length r.append_entries_in_fly) v.max_parallel_rpc_num in
      unlock (record r {
        wait_id = if waits then v.wait_id else r.wait_id;
        is_waiter_canceled = if waits then false else r.is_waiter_canceled;
        out = if waits then r.out ++ wait_from (r.next_index - 1) ∷ [] else r.out;
        st =
            if leb_ℤ r.flying_append_entries_size (pos 0)
              && leb_ℤ (pos 0) r.flying_append_entries_size
            then idle
            else r.st;
      })

  -- The request with its entries, sent.
  abbrev pub entries_sent :
      View P D → Replicator P D → Request P D → ℕ × List (LogEntry P D) → Replicator P D
  entries_sent v r q (dependency, entries) =
      let next = r.next_index + length entries in
      wait_more_entries v (
        ask (append_entries v.call_id (record q { dependency = dependency; entries = entries }))
          (record r {
            append_entries_in_fly =
                r.append_entries_in_fly
                ++ record {
                  log_index = r.next_index;
                  entries_size = length entries;
                  call_id = v.call_id;
                }
                  ∷ [];
            status_append_entries_in_fly = r.status_append_entries_in_fly ++ true ∷ [];
            append_entries_counter = r.append_entries_counter + 1;
            next_index = next;
            flying_append_entries_size = r.flying_append_entries_size -ℤ sub_ℕ 0 (length entries);
            oo_committed_entries =
                r.oo_committed_entries
                ++ replicate (next - (r.oo_start_index + length r.oo_committed_entries)) false;
            st = appending_entries;
            st_first_log_index = first_in_fly r.next_index (front r.append_entries_in_fly);
            st_last_log_index = next - 1;
          }))

  abbrev pub send_prepared :
      View P D → Replicator P D → Request P D → ℕ × List (LogEntry P D) → Option (Replicator P D)
  send_prepared v r q (dependency, []) =
      if ltb r.next_index v.first_log_index
      then reset_next_index r
      else some (wait_more_entries v r)
  send_prepared v r q (dependency, e ∷ es) = some (entries_sent v r q (dependency, e ∷ es))

  abbrev pub send_filled :
      View P D → Replicator P D → Option (Request P D) → Option (Replicator P D)
  send_filled v r none = reset_next_index r
  send_filled v r (some q) =
      send_prepared v r q (prepare_entries v entries_per_request r.next_index 0 0)

  abbrev pub is_full : View P D → Replicator P D → Bool
  is_full v r =
      leb_ℤ (pos v.max_entries_size) r.flying_append_entries_size
      || leb v.max_entries_size (length r.status_append_entries_in_fly)
      || leb v.max_parallel_rpc_num (length r.append_entries_in_fly)
      || is_blocking r.st

  unfoldable pub send_entries : View P D → Replicator P D → Option (Replicator P D)
  unfolding reset_next_index fill_common_fields prepare_entries wait_more_entries
  send_entries v r =
      if is_full v r
      then some (unlock r)
      else send_filled v r (fill_common_fields v r (r.next_index - 1) false)

  unfoldable pub block : View P D → Errno → Replicator P D → Replicator P D
  unfolding send_empty_entries
  block v error r =
      if is_blocking r.st
      then unlock r
      else if v.timer_added
      then unlock (ask (block_timer (is_short error)) (record r { st = blocking }))
      else send_empty_entries v false r

  abbrev pub start_heartbeat_timer : Replicator P D → Replicator P D
  start_heartbeat_timer r = ask heartbeat_timer r

  -- The end of _notify_on_caught_up.
  abbrev pub finish_catchup : CatchupClosure → Replicator P D → Replicator P D
  finish_catchup c r = ask (run_catchup c) (record r { catchup_closure = none })

  abbrev pub catchup_reached :
      View P D
      → Errno
      → Bool
      → CatchupClosure
      → Replicator P D
      → Option Bool
      → Option (Replicator P D)
  catchup_reached v error before_destroy c r none = none
  catchup_reached v error before_destroy c r (some false) = some r
  catchup_reached v error before_destroy c r (some true) =
      let c' : CatchupClosure = record c {
        error_was_set = true;
        status = error_status error c.status;
      } in
      if c.error_was_set
      then some r
      else if c.has_timer && (not before_destroy && v.timer_running)
      then some (record r { catchup_closure = some c' })
      else some (finish_catchup c' r)

  abbrev pub catchup_failed : Errno → CatchupClosure → Replicator P D → Replicator P D
  catchup_failed error c r =
      finish_catchup (if c.error_was_set then c else record c { status = error }) r

  abbrev pub notify_closure :
      View P D → Errno → Bool → Replicator P D → CatchupClosure → Option (Replicator P D)
  notify_closure v etimedout before_destroy r c = some (catchup_failed etimedout c r)
  notify_closure v eperm before_destroy r c = some (catchup_failed eperm c r)
  notify_closure v error before_destroy r c =
      catchup_reached v error before_destroy c r (is_catchup v r c.max_margin)

  abbrev pub notify_with :
      View P D → Errno → Bool → Replicator P D → Option CatchupClosure → Option (Replicator P D)
  notify_with v error before_destroy r none = some r
  notify_with v error before_destroy r (some c) = notify_closure v error before_destroy r c

  unfoldable pub notify_on_caught_up :
      View P D → Errno → Bool → Replicator P D → Option (Replicator P D)
  unfolding is_catchup
  notify_on_caught_up v error before_destroy r =
      notify_with v error before_destroy r r.catchup_closure

  unfoldable pub send_timeout_now : View P D → Bool → Bool → Replicator P D → Replicator P D
  send_timeout_now v unlock_id stop_after_finish r =
      let sent = ask (timeout_now v.call_id) (
        if stop_after_finish
        then r
        else record r { timeout_now_in_fly = v.call_id; timeout_now_index = 0 }) in
      if unlock_id then unlock sent else sent
