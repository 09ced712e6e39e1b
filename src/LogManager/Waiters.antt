-- ===== src/LogManager/Waiters.antt =====
-- The waiters for new entries of cpp/log_manager.cc.
use hit_consistency.Prelude.{
  refl, not, ◌||◌, [], ◌∷◌, List, refl, arith, ℕ, Bool, true, false, ◌≡◌, ◌≢◌, ◌≤◌, ◌<◌, ◌⊎◌, sym,
  subst, inl, inr, ◌==◌, nat_eq, if◌then◌else◌, Bool-cases, ◌^◌,
}
use hit_consistency.LogManager.{LogManager}
use hit_consistency.LogManager.Waiting.{to_int, erase, registered, notify_on_new_log, remove_waiter}

-- The ids are not changed before 2 ^ 31 of them are given out.
to_int-small : (n : ℕ) → n < 2 ^ 31 → to_int n ≡ n
to_int-small n h = ground (arith, h)

module _ {W : Type 0} where
  -- Every id lies below `next`, is not 0, and is greater than those of the waiters before it.
  abbrev pub Below : ℕ → List (ℕ × W) → Type 0
  Below next [] = Unit {0}
  Below next (w ∷ ws) = (w.0 < next) × (w.0 ≢ 0) × Below w.0 ws

  abbrev pub waits : List (ℕ × W) → ℕ → Bool
  waits [] id = false
  waits (w ∷ ws) id = let rest = waits ws id in if w.0 == id then true else rest

  Below-mono : (a b : ℕ) (ws : List (ℕ × W)) → a ≤ b → Below a ws → Below b ws
  Below-mono a b [] h w = tt
  Below-mono a b (x ∷ xs) h w = (omega (arith, h, w.0), w.1, w.2)

  Below-absent : (next id : ℕ) (ws : List (ℕ × W)) → next ≤ id → Below next ws → waits ws id ≡ false
  Below-absent next id [] h w = refl
  Below-absent next id (x ∷ xs) h w = ground (arith, Below-absent x.0 id xs)

  erase-Below : (next id : ℕ) (ws : List (ℕ × W)) → Below next ws → Below next (erase id ws).0
  erase-Below next id [] w = tt
  erase-Below next id (x ∷ xs) w = elim (Bool-cases (x.0 == id)) [
    | inl same ↦ rw same (Below-mono x.0 next xs (omega (arith, w.0)) w.2)
    | inr other ↦ rw other (w.0, w.1, erase-Below x.0 id xs w.2)
  ]

  erase_lem :
      (next id i : ℕ) (ws : List (ℕ × W))
      → Below next ws
      → ((erase id ws).1 ≡ waits ws id)
        × (waits (erase id ws).0 i ≡ (if i == id then false else waits ws i))
  erase_lem next id i [] w = ground arith
  erase_lem next id i (x ∷ xs) w =
      ground (arith, erase_lem x.0 id i xs w.2, Below-absent x.0 id xs, Below-absent x.0 i xs)

module _ {P D C W : Type 0} where
  -- The ids of the waiters are distinct, not 0, and below the next one.
  abbrev pub WaitersValid : LogManager P D C W → Type 0
  WaitersValid m = Below m.next_wait_id m.wait_map

  -- A wait for the last index gives an id that is not 0 and that no waiter had, under which the waiter
  -- then waits. Any other wait runs the waiter at once, and changes nothing.
  abbrev pub Notified : LogManager P D C W → ℕ → LogManager P D C W × ℕ × Bool → Type 0
  Notified m expected (m', new, at_once) =
      WaitersValid m'
      × (((at_once ≡ true)
            × (new ≡ 0)
            × (m' ≡ m)
            × ((expected ≢ m.last_log_index) ⊎ (m.stopped ≡ true)))
          ⊎ ((at_once ≡ false)
              × (new ≢ 0)
              × (waits m.wait_map new ≡ false)
              × ((i : ℕ) → waits m'.wait_map i ≡ (if i == new then true else waits m.wait_map i))
              × (expected ≡ m.last_log_index)
              × (m.stopped ≡ false)))

  registered-Notified :
      (m : LogManager P D C W) (next : ℕ) (wm : W)
      → m.next_wait_id ≤ next
      → next ≢ 0
      → m.stopped ≡ false
      → WaitersValid m
      → Notified m m.last_log_index (registered m next next wm)
  registered-Notified m next wm above positive running w =
      let kept = erase-Below m.next_wait_id next m.wait_map w in
      let absent = Below-absent m.next_wait_id next m.wait_map above w in
      (
        (
          omega arith,
          positive,
          Below-mono m.next_wait_id next (erase next m.wait_map).0 above kept,
        ),
        inr (
          refl,
          positive,
          absent,
          (λ i. ground (arith, (erase_lem m.next_wait_id next i m.wait_map w).1)),
          refl,
          running,
        ),
      )

  notify_lem :
      (m : LogManager P D C W) (expected : ℕ) (wm : W)
      → m.next_wait_id < 2 ^ 31
      → WaitersValid m
      → Notified m expected (notify_on_new_log m expected wm)
  unfolding notify_on_new_log
  notify_lem m expected wm few w =
      let next = if m.next_wait_id == 0 then 1 else m.next_wait_id in
      let above : m.next_wait_id ≤ next = ground arith in
      let small : to_int next ≡ next = to_int-small next (ground (arith, few)) in
      elim (Bool-cases (not (expected == m.last_log_index) || m.stopped)) [
        | inl now ↦ rw (now) (w, inl (refl, refl, refl, ground arith))
        | inr later ↦
            let last : m.last_log_index ≡ expected = ground (arith, later) in
            let now =
              registered-Notified m next wm above (ground arith) (ground (arith, later)) w in
            rw (later) (
              subst (λ e. Notified m e (registered m next (to_int next) wm)) last
                (subst (λ id. Notified m m.last_log_index (registered m next id wm)) (sym small)
                  now))
      ]

  -- While the ids are valid and fewer than 2^31 have been given out: a wait for the last index, before
  -- a shutdown, gives an id that is not 0 and that no waiter had, under which the waiter then waits;
  -- any other wait runs the waiter at once with the id 0 and leaves the manager as it was.
  -- remove_waiter returns 0 exactly if the waiter waits, and then exactly this one waits no more. Both
  -- keep the ids valid.
  pub waiter_lem :
      (m : LogManager P D C W) (expected id : ℕ) (wm : W)
      → m.next_wait_id < 2 ^ 31
      → WaitersValid m
      → let (m'', found) = remove_waiter m id in
        Notified m expected (notify_on_new_log m expected wm)
        × WaitersValid m''
        × (found ≡ waits m.wait_map id)
        × ((i : ℕ) → waits m''.wait_map i ≡ (if i == id then false else waits m.wait_map i))
  unfolding remove_waiter
  waiter_lem m expected id wm few w = (
    notify_lem m expected wm few w,
    erase-Below m.next_wait_id id m.wait_map w,
    (erase_lem m.next_wait_id id id m.wait_map w).0,
    λ i. (erase_lem m.next_wait_id id i m.wait_map w).1,
  )
