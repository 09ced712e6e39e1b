-- ===== src/Replicator/Defined.antt =====
-- The loops and the requests of a replicator read no deque out of range.
use hit_consistency.Prelude.{
  [], ◌∷◌, List, refl, arith, ℕ, ℤ, pos, Bool, true, false, not, ◌||◌, Option, none, some, ◌==◌,
  nat_eq, ltb, leb, ◌+◌, ◌-◌, ◌-ℤ◌, ◌≡◌, ◌≢◌, ◌<◌, ap, sym, subst, ◌∙◌, length, inl, inr,
  Bool-cases, Option-cases,
}
use hit_consistency.LogEntry.{LogEntry}
use hit_consistency.Replicator.{
  Errno, success, eperm, FlyingRpc, Replicator, View, Request, ask, destroy, front,
  reset_next_index, reset_to, pop_answered, cancel_append_entries_rpcs, increase_term_to,
}
use hit_consistency.Replicator.Sending.{
  notify_on_caught_up, notify_with, send_entries, is_full, send_prepared, fill_common_fields,
  prepare_entries, entries_per_request,
}
use hit_consistency.Replicator.Calls.{
  Flying, Scan, past_end, not_valid, valid_at, find_call, scan_status, one_later, pop_finished,
}
use hit_consistency.Replicator.Returned.{quit, and_then, go_on, check_timeout_now}
use hit_consistency.Replicator.InFly.{OnSome}
use hit_consistency.Replicator.Matching.{IsMatched}

pop_answered-some :
    (fs : List FlyingRpc) (ss : List Bool)
    → length fs ≡ length ss
    → (rest : List FlyingRpc × List Bool) × (pop_answered fs ss ≡ some rest)
unfolding pop_answered
pop_answered-some [] ss h = (([], ss), refl)
pop_answered-some (f ∷ fs) [] h = absurd (omega (arith, h))
pop_answered-some (f ∷ fs) (true ∷ ss) h = ((f ∷ fs, true ∷ ss), refl)
pop_answered-some (f ∷ fs) (false ∷ ss) h = pop_answered-some fs ss (omega (arith, h))

pub pop_finished-some :
    (start : ℕ) (fs : List FlyingRpc) (ss : List Bool) (size : ℤ)
    → length fs ≡ length ss
    → (f : Flying) × (pop_finished start fs ss size ≡ some f)
unfolding pop_finished
pop_finished-some start [] ss size h = (record { calls = []; statuses = ss; size = size }, refl)
pop_finished-some start (f ∷ fs) [] size h = absurd (omega (arith, h))
pop_finished-some start (f ∷ fs) (s ∷ ss) size h =
    elim (Bool-cases (not s || leb (f.log_index + f.entries_size) start)) [
      | inl e ↦
          let (rest, same) =
            pop_finished-some start fs ss (size -ℤ pos f.entries_size) (omega (arith, h)) in
          (rest, rw (pop_finished, e) same)
      | inr e ↦ (record { calls = f ∷ fs; statuses = s ∷ ss; size = size }, rw (pop_finished, e))
    ]

one_later-defined : (s : Scan) → s ≢ past_end → one_later s ≢ past_end
one_later-defined past_end n h = n refl
one_later-defined not_valid n h = cc
one_later-defined (valid_at k) n h = cc

scan_status-defined :
    (rest : Scan) (ss : List Bool)
    → 0 < length ss
    → rest ≢ past_end
    → scan_status rest ss ≢ past_end
scan_status-defined rest [] h n = absurd (omega (arith, h))
scan_status-defined rest (true ∷ ss) h n = λ e. cc
scan_status-defined rest (false ∷ ss) h n = one_later-defined rest n

pub find_call-defined :
    (first call_id : ℕ) (fs : List FlyingRpc) (ss : List Bool)
    → length fs ≡ length ss
    → find_call first call_id fs ss ≢ past_end
unfolding find_call
find_call-defined first call_id [] ss h = λ e. cc
find_call-defined first call_id (f ∷ fs) [] h = absurd (omega (arith, h))
find_call-defined first call_id (f ∷ fs) (s ∷ ss) h =
    let rest = find_call-defined first call_id fs ss (omega (arith, h)) in
    elim (Bool-cases (ltb first f.log_index)) [
      | inl e ↦ rw (find_call, e) (λ bad. cc)
      | inr e ↦ elim (Bool-cases (f.call_id == call_id)) [
        | inl e' ↦
            rw (find_call, e, e')
              (scan_status-defined (find_call first call_id fs ss) (s ∷ ss) (omega arith) rest)
        | inr e' ↦ rw (find_call, e, e') (one_later-defined (find_call first call_id fs ss) rest)
      ]
    ]

pub front-some : (fs : List FlyingRpc) → 0 < length fs → (f : FlyingRpc) × (front fs ≡ some f)
front-some [] h = absurd (omega (arith, h))
front-some (f ∷ fs) h = (f, refl)

module _ {P D : Type 0} where
  -- A result that `p` holds of.
  abbrev pub Must : (Replicator P D → Type 0) → Option (Replicator P D) → Type 0
  Must p none = ⊥
  Must p (some r) = p r

  abbrev pub Both : (Replicator P D → Type 0) → (Replicator P D → Type 0) → Replicator P D → Type 0
  Both p q r = p r × q r

  pub Must-Both :
      (p q : Replicator P D → Type 0) (o : Option (Replicator P D))
      → Must p o
      → OnSome q o
      → Must (Both p q) o
  Must-Both p q none m h = m
  Must-Both p q (some r) m h = (m, h)

  pub Must-map :
      (p q : Replicator P D → Type 0) (o : Option (Replicator P D))
      → Must p o
      → ((r : Replicator P D) → p r → q r)
      → Must q o
  Must-map p q none m f = m
  Must-map p q (some r) m f = f r m

  pub and_then-Must :
      (p q : Replicator P D → Type 0) (f : Replicator P D → Option (Replicator P D))
      (o : Option (Replicator P D))
      → Must p o
      → ((r : Replicator P D) → p r → Must q (f r))
      → Must q (and_then f o)
  and_then-Must p q f none m g = m
  and_then-Must p q f (some r) m g = g r m

  -- Nobody waits for the follower to catch up or to become the leader.
  abbrev pub IsPlain : Replicator P D → Type 0
  IsPlain r = (r.catchup_closure ≡ none) × (r.timeout_now_index ≡ 0)

  abbrev pub Any : Replicator P D → Type 0
  Any r = Unit {0}

  pub reset_next_index-Must :
      (r : Replicator P D) → IsMatched r → IsPlain r → Must IsPlain (reset_next_index r)
  unfolding reset_next_index cancel_append_entries_rpcs
  reset_next_index-Must r m p =
      let (rest, same) =
        pop_answered-some r.append_entries_in_fly r.status_append_entries_in_fly m.0 in
      subst (λ o. Must IsPlain (reset_to r o)) (sym same)
        (elim (Bool-cases (r.wait_id == 0)) [ inl e ↦ rw (e) p | inr e ↦ rw (e) p ])

  notify-some :
      (v : View P D) (error : Errno) (before_destroy : Bool) (r : Replicator P D)
      → r.catchup_closure ≡ none
      → notify_on_caught_up v error before_destroy r ≡ some r
  unfolding notify_on_caught_up
  notify-some v error before_destroy r e = ap (notify_with v error before_destroy r) e

  pub quit-Must :
      (v : View P D) (term : ℕ) (r : Replicator P D) → IsPlain r → Must Any (quit v term r)
  quit-Must v term r p =
      subst (λ o. Must Any (and_then (λ r'. some (ask (increase_term_to term) (destroy r'))) o))
        (sym (notify-some v eperm true r p.0)) tt

  send_prepared-Must :
      (v : View P D) (r : Replicator P D) (q : Request P D) (e : ℕ × List (LogEntry P D))
      → IsMatched r
      → IsPlain r
      → Must Any (send_prepared v r q e)
  send_prepared-Must v r q (dependency, []) m p =
      elim (Bool-cases (ltb r.next_index v.first_log_index)) [
        | inl e ↦
            rw (e) (
              Must-map IsPlain Any (reset_next_index r) (reset_next_index-Must r m p) (λ r' p'. tt))
        | inr e ↦ rw (e) tt
      ]
  send_prepared-Must v r q (dependency, e ∷ es) m p = tt

  send_entries-Must :
      (v : View P D) (r : Replicator P D) → IsMatched r → IsPlain r → Must Any (send_entries v r)
  unfolding send_entries
  send_entries-Must v r m p = elim (Bool-cases (is_full v r)) [
    | inl e ↦ rw (send_entries, e) tt
    | inr e ↦ elim (Option-cases (fill_common_fields v r (r.next_index - 1) false)) [
      | inl e' ↦
          rw (send_entries, e, e')
            (Must-map IsPlain Any (reset_next_index r) (reset_next_index-Must r m p) (λ r' p'. tt))
      | inr (q, e') ↦
          rw (send_entries, e, e')
            (send_prepared-Must v r q (prepare_entries v entries_per_request r.next_index 0 0) m p)
    ]
  ]

  pub go_on-Must :
      (v : View P D) (r : Replicator P D) → IsMatched r → IsPlain r → Must Any (go_on v r)
  go_on-Must v r m p =
      let r' : Replicator P D = record r { has_succeeded = true } in
      let told : notify_on_caught_up v success false r' ≡ some r' =
        notify-some v success false r' p.0 in
      let checked : check_timeout_now v r' ≡ some r' = rw (p.1) in
      subst (λ o. Must Any (and_then (send_entries v) o))
        (sym (ap (and_then (check_timeout_now v)) told ∙ checked)) (send_entries-Must v r' m p)
