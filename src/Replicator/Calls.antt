-- ===== src/Replicator/Calls.antt =====
-- cpp/replicator.cc: the loops of _on_rpc_returned over the calls in the air and over the flags of the
-- indexes that the follower has answered for.
use hit_consistency.Prelude.{
  [], ◌∷◌, List, ℕ, ℤ, pos, zero, suc, Bool, true, false, not, ◌||◌, Option, none, some, ◌==◌,
  nat_eq, if◌then◌else◌, ltb, leb, ◌+◌, ◌-◌, ◌++◌, ◌-ℤ◌, take, drop,
}
use hit_consistency.Replicator.{Errno, success, FlyingRpc}

-- A call that has come back: of the request the index before its entries and their number; the
-- error of the controller, or `success`; when it was sent; and the response.
pub record Returned : Type 0 where
  pub prev_log_index : ℕ
  pub entries_size : ℕ
  pub call_id : ℕ
  pub error : Errno
  pub send_time : ℕ
  pub succeeded : Bool
  pub term : ℕ
  pub last_log_index : ℕ

abbrev pub has_failed : Errno → Bool
has_failed success = false
has_failed other = true

-- The call among those in the air, by its place.
pub data Scan : Type 0 where
  past_end not_valid : Scan
  valid_at : ℕ → Scan

abbrev pub one_later : Scan → Scan
one_later past_end = past_end
one_later not_valid = not_valid
one_later (valid_at k) = valid_at (suc k)

abbrev pub scan_status : Scan → List Bool → Scan
scan_status rest [] = past_end
scan_status rest (true ∷ ss) = valid_at 0
scan_status rest (false ∷ ss) = one_later rest

unfoldable pub find_call : ℕ → ℕ → List FlyingRpc → List Bool → Scan
find_call first_index call_id [] ss = not_valid
find_call first_index call_id (f ∷ fs) ss =
    let rest = find_call first_index call_id fs (drop 1 ss) in
    if ltb first_index f.log_index
    then not_valid
    else if f.call_id == call_id
    then scan_status rest ss
    else one_later rest

unfoldable pub erase_at {ℓ} : {A : Type ℓ} → ℕ → List A → List A
erase_at k [] = []
erase_at zero (x ∷ xs) = xs
erase_at (suc k) (x ∷ xs) = x ∷ erase_at k xs

-- The flags by index, from `start` on, and the indexes to commit.
pub record Flags : Type 0 where
  pub flags : List Bool
  pub start : ℕ
  pub indexes : List ℕ

-- while (_oo_start_index < last_log_index()): `n` rounds.
unfoldable pub drain : ℕ → Flags → Option Flags
drain zero o = some o
drain (suc n) o = elim o.flags [
  | [] ↦ none
  | b ∷ bs ↦ drain n (record {
    flags = bs;
    start = o.start + 1;
    indexes = if b then o.indexes else o.indexes ++ o.start ∷ [];
  })
]

abbrev pub marked : Bool → ℕ → List Bool × List ℕ → List Bool × List ℕ
marked b i (flags, indexes) = (true ∷ flags, if b then indexes else i ∷ indexes)

-- The loop that sets the flags of `n` indexes from `i` on, the first of the list.
unfoldable pub mark_answered : ℕ → ℕ → List Bool → Option (List Bool × List ℕ)
mark_answered zero i flags = some (flags, [])
mark_answered (suc n) i [] = none
mark_answered (suc n) i (b ∷ bs) = elim (mark_answered n (i + 1) bs) [
  | none ↦ none
  | some rest ↦ some (marked b i rest)
]

abbrev pub with_marked : Flags → ℕ → Option (List Bool × List ℕ) → Option Flags
with_marked o offset none = none
with_marked o offset (some (flags, indexes)) =
    some (record o { flags = take offset o.flags ++ flags; indexes = o.indexes ++ indexes })

-- The flags of the indexes up to `last`, after `prev`.
unfoldable pub mark_from : ℕ → ℕ → Flags → Option Flags
unfolding mark_answered
mark_from prev last o =
    let first = if ltb (prev + 1) o.start then o.start else prev + 1 in
    let offset = first - o.start in
    if ltb last o.start
    then some o
    else with_marked o offset (mark_answered (last + 1 - first) first (drop offset o.flags))

-- The loop that drops the flags that are set.
unfoldable pub pop_flags : List Bool → ℕ → List Bool × ℕ
pop_flags [] start = ([], start)
pop_flags (true ∷ bs) start = pop_flags bs (start + 1)
pop_flags (false ∷ bs) start = (false ∷ bs, start)

-- The loop that drops the calls that are answered, or whose indexes all are.
pub record Flying : Type 0 where
  pub calls : List FlyingRpc
  pub statuses : List Bool
  pub size : ℤ

unfoldable pub pop_finished : ℕ → List FlyingRpc → List Bool → ℤ → Option Flying
pop_finished start [] ss size = some (record { calls = []; statuses = ss; size = size })
pop_finished start (f ∷ fs) [] size = none
pop_finished start (f ∷ fs) (s ∷ ss) size =
    let rest = pop_finished start fs ss (size -ℤ pos f.entries_size) in
    if not s || leb (f.log_index + f.entries_size) start
    then rest
    else some (record { calls = f ∷ fs; statuses = s ∷ ss; size = size })

abbrev pub marked_from : Returned → Option Flags → Option Flags
marked_from q none = none
marked_from q (some o) = mark_from q.prev_log_index (q.prev_log_index + q.entries_size) o
