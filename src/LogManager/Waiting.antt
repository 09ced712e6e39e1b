-- ===== src/LogManager/Waiting.antt =====
-- cpp/log_manager.cc: those who wait for new entries. A WaitId, an int64_t, is a number below 2 ^ 64 in
-- two's complement, but for _next_wait_id, which stays below 2 ^ 63.
use hit_consistency.Prelude.{
  [], ◌∷◌, List, ℕ, Bool, true, false, not, ◌||◌, if◌then◌else◌, ltb, ◌==◌, nat_eq, ◌+◌, ◌-◌, ◌^◌,
  ◌%◌,
}
use hit_consistency.LogManager.{LogManager}

-- `const int wait_id` and its return as a WaitId: the low 32 bits, with their sign.
abbrev pub to_int : ℕ → ℕ
to_int n = let low = n % 2 ^ 32 in if ltb low (2 ^ 31) then low else low + (2 ^ 64 - 2 ^ 32)

module _ {W : Type 0} where
  abbrev pub erase : ℕ → List (ℕ × W) → List (ℕ × W) × Bool
  erase id [] = ([], false)
  erase id (w ∷ ws) =
      let (rest, found) = erase id ws in if w.0 == id then (ws, true) else (w ∷ rest, found)

module _ {P D C W : Type 0} where
  -- The waiter waits, in place of one that waits under the same id.
  abbrev pub registered : LogManager P D C W → ℕ → ℕ → W → LogManager P D C W × ℕ × Bool
  registered m next wait_id wm = (
    record m { next_wait_id = next + 1; wait_map = (wait_id, wm) ∷ (erase wait_id m.wait_map).0 },
    wait_id,
    false,
  )

  -- `wait` gives the manager, the id, and whether the waiter runs at once.
  unfoldable pub notify_on_new_log : LogManager P D C W → ℕ → W → LogManager P D C W × ℕ × Bool
  notify_on_new_log m expected_last_log_index wm =
      let next = if m.next_wait_id == 0 then 1 else m.next_wait_id in
      if not (expected_last_log_index == m.last_log_index) || m.stopped
      then (m, 0, true)
      else registered m next (to_int next) wm

  -- The code 0 is `true`, -1 is `false`.
  unfoldable pub remove_waiter : LogManager P D C W → ℕ → LogManager P D C W × Bool
  remove_waiter m id =
      let (rest, found) = erase id m.wait_map in (record m { wait_map = rest }, found)

  -- The manager and the waiters that run, with ESTOP if it has stopped.
  unfoldable pub wakeup_all_waiter : LogManager P D C W → LogManager P D C W × List (ℕ × W)
  wakeup_all_waiter m = (record m { wait_map = [] }, m.wait_map)

  unfoldable pub shutdown : LogManager P D C W → LogManager P D C W × List (ℕ × W)
  unfolding wakeup_all_waiter
  shutdown m = wakeup_all_waiter (record m { stopped = true })
