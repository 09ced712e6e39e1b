-- ===== src/Tests/Replicators.antt =====
-- A replicator at concrete inputs: two calls in the air, of one entry each.
use hit_consistency.Prelude.{
  [], ◌∷◌, List, refl, arith, ℕ, pos, true, false, Option, none, some, ◌≡◌, zero, suc, ap, sym,
  some_inj,
}
use hit_consistency.Replicator.{Replicator, View, FlyingRpc, success, ebusy, appending_entries}
use hit_consistency.Replicator.Calls.{Returned}
use hit_consistency.Replicator.Returned.{on_rpc_returned, commit_returned}
use hit_consistency.Replicator.Control.{new, continue_sending}
use hit_consistency.Replicator.InFly.{OnSome}
use hit_consistency.Replicator.Bounds.{IsInAir}
use hit_consistency.Replicator.Responses.{Announced, on_rpc_returned-IsInAir}
use hit_consistency.Replicator.Total.{on_rpc_returned_defined}
use hit_consistency.Replicator.Commits.{CommitsNew, commit_returned-CommitsNew}
use hit_consistency.Tests.Segments.{entry_at}
use hit_consistency.Replicator.{etimedout}

abbrev view : View ℕ (List ℕ)
view = record {
  first_log_index = 1;
  last_log_index = 9;
  get_term = λ i. 3;
  get_entry = λ i. some (entry_at i 3 []);
  payload_size = λ d. 0;
  committed_index = 1;
  committed_oo_indexes = [];
  call_id = 13;
  wait_id = 1;
  timer_added = true;
  timer_running = false;
  max_entries_size = 1024;
  max_parallel_rpc_num = 1024;
  max_body_size = 512;
}

abbrev two_calls : List FlyingRpc
two_calls =
    record { log_index = 4; entries_size = 1; call_id = 11 }
    ∷ (record { log_index = 5; entries_size = 1; call_id = 12 } ∷ [])

abbrev sender : Replicator ℕ (List ℕ)
sender = record (new 3) {
  next_index = 6;
  oo_start_index = 4;
  oo_committed_entries = false ∷ (false ∷ []);
  append_entries_in_fly = two_calls;
  status_append_entries_in_fly = true ∷ (true ∷ []);
  flying_append_entries_size = pos 2;
  st = appending_entries;
}

-- The answer to the second call comes first.
abbrev second_back : Returned
second_back = record {
  prev_log_index = 4;
  entries_size = 1;
  call_id = 12;
  error = success;
  send_time = 7;
  succeeded = true;
  term = 3;
  last_log_index = 3;
}

announced : Announced second_back sender
announced zero f h same = ap (λ g. g.entries_size) (sym (some_inj h))
announced (suc zero) f h same = ap (λ g. g.entries_size) (sym (some_inj h))
announced (suc (suc k)) f h same = absurd cc

second_answered : OnSome (IsInAir view) (on_rpc_returned view second_back sender)
second_answered =
    on_rpc_returned-IsInAir view second_back sender (omega arith) announced
      ((refl, refl), omega arith, omega arith)

on_rpc_returned_defined_example :
    (r : Replicator ℕ (List ℕ)) × (on_rpc_returned view second_back sender ≡ some r)
    × IsInAir view r
on_rpc_returned_defined_example =
    on_rpc_returned_defined view second_back sender (omega arith) (omega arith) announced
      ((refl, refl), omega arith, omega arith) (refl, refl) (omega arith, omega arith)

commit_returned-CommitsNew_example :
    (r : Replicator ℕ (List ℕ)) × (commit_returned second_back sender ≡ some r)
    × CommitsNew second_back sender r
commit_returned-CommitsNew_example =
    commit_returned-CommitsNew second_back sender (omega arith) (omega arith) (omega arith)

-- A call that was cancelled comes back after the reset: the front of an empty deque is read.
abbrev after_failure : Option (Replicator ℕ (List ℕ))
after_failure = on_rpc_returned view (record second_back { error = ebusy }) sender

abbrev or_sender : Option (Replicator ℕ (List ℕ)) → Replicator ℕ (List ℕ)
or_sender none = sender
or_sender (some r) = r

cancelled_back :
    on_rpc_returned view
      (record second_back { call_id = 11; error = ebusy })
      (or_sender after_failure)
    ≡ none
unfolding on_rpc_returned
cancelled_back = refl

-- The timer of a blocked replicator that has a waiter again leaves the id held.
id_held :
    continue_sending view etimedout (record sender { wait_id = 1; locked = false })
    ≡ some (record sender { wait_id = 1; locked = true })
unfolding continue_sending
id_held = refl
