-- ===== src/Replicator/Matching.antt =====
-- Sending and resetting keep the two deques of the calls in the air matched.
use hit_consistency.Prelude.{
  [], ◌∷◌, List, refl, arith, ℕ, pos, Bool, true, false, not, ◌&&◌, Option, none, some, ◌==◌,
  nat_eq, if◌then◌else◌, ltb, ◌-◌, ◌++◌, ◌≡◌, ap, sym, subst, ◌∙◌, length, inl, inr, Bool-cases,
  Option-cases,
}
use hit_consistency.LogEntry.{LogEntry}
use hit_consistency.Replicator.{
  Errno, etimedout, eperm, FlyingRpc, CatchupClosure, Effect, run_catchup, Request, Replicator,
  View, is_blocking, total, reset_next_index, pop_answered, reset_to, cancel_append_entries_rpcs,
  is_catchup,
}
use hit_consistency.Replicator.Sending.{
  entries_per_request, catchup_reached, notify_closure, notify_with, error_status,
  notify_on_caught_up, block, fill_common_fields, empty_sent, send_empty_entries, send_entries,
  is_full, send_prepared, prepare_entries, wait_more_entries,
}
use hit_consistency.Replicator.InFly.{Matched, OnSome, Matched-push, total-append}

module _ {P D : Type 0} where
  abbrev pub IsMatched : Replicator P D → Type 0
  IsMatched r =
      Matched r.append_entries_in_fly r.status_append_entries_in_fly r.flying_append_entries_size

  -- No call is in the air.
  abbrev pub IsQuiet : Replicator P D → Type 0
  IsQuiet r =
      (r.append_entries_in_fly ≡ [])
      × (r.status_append_entries_in_fly ≡ [])
      × (r.flying_append_entries_size ≡ pos 0)

  pub IsQuiet-IsMatched : (r : Replicator P D) → IsQuiet r → IsMatched r
  IsQuiet-IsMatched r q =
      (ap length q.0 ∙ sym (ap length q.1), q.2 ∙ sym (ap (λ fs. pos (total fs)) q.0))

  reset_to-IsQuiet :
      (r : Replicator P D) (rest : Option (List FlyingRpc × List Bool))
      → OnSome IsQuiet (reset_to r rest)
  unfolding cancel_append_entries_rpcs
  reset_to-IsQuiet r none = tt
  reset_to-IsQuiet r (some (fs, ss)) = elim (Bool-cases (r.wait_id == 0)) [
    | inl e ↦ rw (e) (refl, refl, refl)
    | inr e ↦ rw (e) (refl, refl, refl)
  ]

  pub reset_next_index-IsQuiet : (r : Replicator P D) → OnSome IsQuiet (reset_next_index r)
  unfolding reset_next_index
  reset_next_index-IsQuiet r =
      reset_to-IsQuiet r (pop_answered r.append_entries_in_fly r.status_append_entries_in_fly)

  pub OnSome-map :
      {p q : Replicator P D → Type 0} (o : Option (Replicator P D))
      → ((r : Replicator P D) → p r → q r)
      → OnSome p o
      → OnSome q o
  OnSome-map none f h = tt
  OnSome-map (some r) f h = f r h

  empty_sent-IsMatched :
      (v : View P D) (is_heartbeat : Bool) (r : Replicator P D) (q : Option (Request P D))
      → IsMatched r
      → IsMatched (empty_sent v is_heartbeat r q)
  empty_sent-IsMatched v is_heartbeat r none m = m
  empty_sent-IsMatched v true r (some q) m = m
  empty_sent-IsMatched v false r (some q) m =
      let f : FlyingRpc = record {
        log_index = r.next_index;
        entries_size = 0;
        call_id = v.call_id;
      } in
      let pushed =
        Matched-push r.append_entries_in_fly r.status_append_entries_in_fly
          r.flying_append_entries_size f m in
      (pushed.0, m.1 ∙ ap pos (omega (arith, total-append r.append_entries_in_fly (f ∷ []))))

  pub send_empty_entries-IsMatched :
      (v : View P D) (is_heartbeat : Bool) (r : Replicator P D)
      → IsMatched r
      → IsMatched (send_empty_entries v is_heartbeat r)
  unfolding send_empty_entries
  send_empty_entries-IsMatched v is_heartbeat r m =
      empty_sent-IsMatched v is_heartbeat r (fill_common_fields v r (r.next_index - 1) is_heartbeat)
        m

  pub block-IsMatched :
      (v : View P D) (error : Errno) (r : Replicator P D)
      → IsMatched r
      → IsMatched (block v error r)
  unfolding block
  block-IsMatched v error r m = elim (Bool-cases (is_blocking r.st)) [
    | inl e ↦ rw (block, e) m
    | inr e ↦ elim (Bool-cases v.timer_added) [
      | inl e' ↦ rw (block, e, e') m
      | inr e' ↦
          let same : block v error r ≡ send_empty_entries v false r = rw (block, e, e') in
          subst IsMatched (sym same) (send_empty_entries-IsMatched v false r m)
    ]
  ]

  -- A change of the closure and of what is asked for does not matter to `p`.
  abbrev pub Indifferent : (Replicator P D → Type 0) → Type 0
  Indifferent p =
      (r : Replicator P D) (c : Option CatchupClosure) (out : List (Effect P D))
      → p r
      → p (record r { catchup_closure = c; out = out })

  pub catchup_reached-keeps :
      (p : Replicator P D → Type 0) (v : View P D) (error : Errno) (before_destroy : Bool)
      (c : CatchupClosure) (r : Replicator P D) (o : Option Bool)
      → Indifferent p
      → p r
      → OnSome p (catchup_reached v error before_destroy c r o)
  catchup_reached-keeps p v error before_destroy c r none i h = tt
  catchup_reached-keeps p v error before_destroy c r (some false) i h = h
  catchup_reached-keeps p v error before_destroy c r (some true) i h =
      elim (Bool-cases c.error_was_set) [
        | inl e ↦ rw (e) h
        | inr e ↦ elim (Bool-cases (c.has_timer && (not before_destroy && v.timer_running))) [
          | inl e' ↦
              rw (e, e')
                (i r
                  (some (record c { error_was_set = true; status = error_status error c.status }))
                  r.out h)
          | inr e' ↦
              rw (e, e')
                (i r none
                  (r.out
                    ++ run_catchup
                        (record c { error_was_set = true; status = error_status error c.status })
                      ∷ [])
                  h)
        ]
      ]

  notify_closure-keeps :
      (p : Replicator P D → Type 0) (v : View P D) (error : Errno) (before_destroy : Bool)
      (r : Replicator P D) (c : CatchupClosure)
      → Indifferent p
      → p r
      → OnSome p (notify_closure v error before_destroy r c)
  notify_closure-keeps p v etimedout before_destroy r c i h =
      i r none
        (r.out ++ run_catchup (if c.error_was_set then c else record c { status = etimedout }) ∷ [])
        h
  notify_closure-keeps p v eperm before_destroy r c i h =
      i r none
        (r.out ++ run_catchup (if c.error_was_set then c else record c { status = eperm }) ∷ []) h
  notify_closure-keeps p v error before_destroy r c i h =
      catchup_reached-keeps p v error before_destroy c r (is_catchup v r c.max_margin) i h

  pub notify_on_caught_up-keeps :
      (p : Replicator P D → Type 0) (v : View P D) (error : Errno) (before_destroy : Bool)
      (r : Replicator P D)
      → Indifferent p
      → p r
      → OnSome p (notify_on_caught_up v error before_destroy r)
  unfolding notify_on_caught_up
  notify_on_caught_up-keeps p v error before_destroy r i h = elim (Option-cases r.catchup_closure) [
    | inl e ↦
        let same : notify_on_caught_up v error before_destroy r ≡ some r =
          ap (λ c. notify_with v error before_destroy r c) e in
        subst (OnSome p) (sym same) h
    | inr (c, e) ↦
        let same : notify_on_caught_up v error before_destroy r
            ≡ notify_closure v error before_destroy r c =
          ap (λ c. notify_with v error before_destroy r c) e in
        subst (OnSome p) (sym same) (notify_closure-keeps p v error before_destroy r c i h)
  ]

  pub wait_more_entries-IsMatched :
      (v : View P D) (r : Replicator P D) → IsMatched r → IsMatched (wait_more_entries v r)
  unfolding wait_more_entries
  wait_more_entries-IsMatched v r m = m

  pub send_prepared-IsMatched :
      (v : View P D) (r : Replicator P D) (q : Request P D) (e : ℕ × List (LogEntry P D))
      → IsMatched r
      → OnSome IsMatched (send_prepared v r q e)
  unfolding wait_more_entries
  send_prepared-IsMatched v r q (dependency, []) m =
      elim (Bool-cases (ltb r.next_index v.first_log_index)) [
        | inl e ↦
            rw (e) (OnSome-map (reset_next_index r) IsQuiet-IsMatched (reset_next_index-IsQuiet r))
        | inr e ↦ rw (e) m
      ]
  send_prepared-IsMatched v r q (dependency, e ∷ es) m =
      Matched-push r.append_entries_in_fly r.status_append_entries_in_fly
        r.flying_append_entries_size
        (record { log_index = r.next_index; entries_size = length (e ∷ es); call_id = v.call_id }) m

  pub send_entries-IsMatched :
      (v : View P D) (r : Replicator P D) → IsMatched r → OnSome IsMatched (send_entries v r)
  unfolding send_entries
  send_entries-IsMatched v r m = elim (Bool-cases (is_full v r)) [
    | inl e ↦ rw (send_entries, e) m
    | inr e ↦ elim (Option-cases (fill_common_fields v r (r.next_index - 1) false)) [
      | inl e' ↦
          rw (send_entries, e, e')
            (OnSome-map (reset_next_index r) IsQuiet-IsMatched (reset_next_index-IsQuiet r))
      | inr (q, e') ↦
          rw (send_entries, e, e')
            (send_prepared-IsMatched v r q (prepare_entries v entries_per_request r.next_index 0 0)
              m)
    ]
  ]
