-- ===== src/Node/Applied.antt =====
-- What a leader's apply puts into the ballot box and the log.
use hit_consistency.Prelude.{
  [], ◌∷◌, ◌++◌, List, refl, ℕ, true, Option, none, some, map, nat_eq, if◌then◌else◌, Eq, ◌≡◌,
  length, replicate, ap, sym, ◌∙◌, subst, append_assoc, append-nil, Bool-cases, inl, inr,
}
use hit_consistency.LogEntry.{LogEntry, data_entry}
use hit_consistency.Ballot.{init}
use hit_consistency.ClosureQueue.{non_null, append_pending_closure}
use hit_consistency.BallotBox.{append_pending_task}
use hit_consistency.ConfigurationManager.{stable}
use hit_consistency.Node.{Node, leader, is_state}
use hit_consistency.Node.Tasks.{
  LogEntryAndClosure, Applying, term_matches, add_task, apply_tasks, done_of, check_dependency,
  apply,
}

-- The tasks that are not refused for their expected term, and those that are.
abbrev pub accepted :
    {P D C : Type 0} → ℕ → List (LogEntryAndClosure P D C) → List (LogEntryAndClosure P D C)
accepted term [] = []
accepted term (t ∷ ts) =
    let rest = accepted term ts in if term_matches term t.expected_term then t ∷ rest else rest

abbrev pub rejected :
    {P D C : Type 0} → ℕ → List (LogEntryAndClosure P D C) → List (LogEntryAndClosure P D C)
rejected term [] = []
rejected term (t ∷ ts) =
    let rest = rejected term ts in if term_matches term t.expected_term then rest else t ∷ rest

abbrev pub entry_terms : {P D : Type 0} → List (LogEntry P D) → List ℕ
entry_terms [] = []
entry_terms (e ∷ es) = e.id.term ∷ entry_terms es

entry_terms-append :
    {P D : Type 0} (xs ys : List (LogEntry P D))
    → entry_terms (xs ++ ys) ≡ entry_terms xs ++ entry_terms ys
entry_terms-append [] ys = refl
entry_terms-append (x ∷ xs) ys = ap (λ l. x.id.term ∷ l) (entry_terms-append xs ys)

non_null-append :
    {C : Type 0} (x : Option C) (xs : List (Option C))
    → non_null (x ∷ []) ++ non_null xs ≡ non_null (x ∷ xs)
non_null-append none xs = refl
non_null-append (some c) xs = refl

module _ {P D C : Type 0} ⦃e : Eq P⦄ (look_back : ℕ) where
  -- What was added to the ballot box, the closures and the entries, for some tasks.
  abbrev pub Added :
      Applying P D C
      → List (LogEntryAndClosure P D C)
      → List (LogEntryAndClosure P D C)
      → Applying P D C
      → Type 0
  Added a acc rej r =
      let n = a.node in
      let ballot = init n.conf.conf (if stable n.conf then none else some n.conf.old_conf) in
      (r.node.ballot_box.pending_meta_queue
        ≡ n.ballot_box.pending_meta_queue ++ replicate (length acc) ballot)
      × (r.node.ballot_box.closure_queue.queue
          ≡ n.ballot_box.closure_queue.queue ++ map done_of acc)
      × (entry_terms r.entries ≡ entry_terms a.entries ++ replicate (length acc) n.current_term)
      × (r.failed ≡ a.failed ++ non_null (map done_of rej))

  apply_tasks-Added :
      (a : Applying P D C) (tasks : List (LogEntryAndClosure P D C))
      → Added a
          (accepted a.node.current_term tasks)
          (rejected a.node.current_term tasks)
          (apply_tasks look_back a tasks)
  unfolding apply_tasks append_pending_task append_pending_closure
  apply_tasks-Added a [] =
      (sym (append-nil _), sym (append-nil _), sym (append-nil _), sym (append-nil _))
  apply_tasks-Added a (task ∷ tasks) =
      let n = a.node in
      let term = n.current_term in
      let acc = accepted term tasks in
      let rej = rejected term tasks in
      let ballot = init n.conf.conf (if stable n.conf then none else some n.conf.old_conf) in
      let entry : LogEntry P D = record task.entry {
        dependency = (check_dependency look_back a.dependency_ids task.dependency_id).1;
        id = record task.entry.id { term = term };
        type = data_entry;
      } in
      elim (Bool-cases (term_matches term task.expected_term)) [
        | inl e ↦
            let (ballots, closures, terms, failed) =
              apply_tasks-Added (add_task look_back a task) tasks in
            rw (e) (
              ballots
                  ∙ append_assoc n.ballot_box.pending_meta_queue (ballot ∷ [])
                      (replicate (length acc) ballot),
              closures
                  ∙ append_assoc n.ballot_box.closure_queue.queue (task.done ∷ [])
                      (map done_of acc),
              terms
                  ∙ ap (λ l. l ++ replicate (length acc) term)
                      (entry_terms-append a.entries (entry ∷ []))
                  ∙ append_assoc (entry_terms a.entries) (term ∷ []) (replicate (length acc) term),
              failed,
            )
        | inr e ↦
            let (ballots, closures, terms, failed) =
              apply_tasks-Added (record a { failed = a.failed ++ non_null (task.done ∷ []) })
                tasks in
            rw (e) (
              ballots,
              closures,
              terms,
              failed
                  ∙ append_assoc a.failed (non_null (task.done ∷ [])) (non_null (map done_of rej))
                  ∙ ap (λ l. a.failed ++ l) (non_null-append task.done (map done_of rej)),
            )
      ]

  -- On a leader, `apply` adds to the ballot box a ballot of its configuration and the closure of each
  -- task whose expected term is its own or none, in order, gives the log manager as many entries, all of
  -- its current term, and fails the closures of the other tasks.
  pub apply_lem :
      (n : Node P C) (ids : List ℕ) (tasks : List (LogEntryAndClosure P D C))
      → is_state n.state leader ≡ true
      → let (r, called) = apply look_back n ids tasks in
        (called ≡ true)
        × Added
            (record { node = n; dependency_ids = ids; entries = []; failed = [] })
            (accepted n.current_term tasks)
            (rejected n.current_term tasks)
            r
  unfolding apply
  apply_lem n ids tasks h =
      let start : Applying P D C = record {
        node = n;
        dependency_ids = ids;
        entries = [];
        failed = [];
      } in
      let same : (apply_tasks look_back start tasks, true) ≡ apply look_back n ids tasks =
        rw (apply, h) in
      subst
        (λ p.
          (p.1 ≡ true)
          × Added start (accepted n.current_term tasks) (rejected n.current_term tasks) p.0)
        same (refl, apply_tasks-Added start tasks)
