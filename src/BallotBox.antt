-- ===== src/BallotBox.antt =====
-- cpp/ballot_box.h and cpp/ballot_box.cc: the tasks of a leader that wait for a quorum, and the
-- last committed index. Indexes are numbers from 0 that stay below 2^63. The closure queue that the
-- box shares with the FSM caller is a field; a call of the FSM caller is part of the reply. A failed
-- CHECK is logged and the call goes on. What reads or pops out of range gives `none`.
pub mod Tasks
pub mod Commit
pub mod Refinement
pub mod Safety
use hit_consistency.Prelude.{
  ℕ, suc, ◌+◌, ◌-◌, Bool, true, false, not, ◌||◌, Option, none, some, List, [], ◌∷◌, ◌++◌, length,
  get_elem?, set, last?, ltb, leb, if◌then◌else◌, Eq, ◌==◌, nat_eq,
}
use hit_consistency.Ballot.{Ballot, PosHint, no_hint, init, grant_hinted, granted}
use hit_consistency.ClosureQueue.{
  ClosureQueue, is_empty, clear, reset_first_index, append_pending_closure,
}

pub record BallotBox (P C : Type 0) : Type 0 where
  pub closure_queue : ClosureQueue C
  pub last_committed_index : ℕ
  pub pending_index : ℕ
  pub pending_meta_queue : List (Ballot P)
  pub committed_index_queue : List Bool

pub record BallotBoxStatus : Type 0 where
  pub committed_index : ℕ
  pub status_pending_index : ℕ
  pub pending_queue_size : ℕ

-- 0, EINVAL, ERANGE and -1.
pub data Code : Type 0 where
  done invalid out_of_range refused : Code

-- The code, the box, and the arguments of `_waiter->on_committed` if it is called.
pub record Reply (P C : Type 0) : Type 0 where
  pub code : Code
  pub box : BallotBox P C
  pub committed : Option (ℕ × List ℕ)

-- The state of the loop of `commit_at`.
pub record Granting (P : Type 0) : Type 0 where
  pub metas : List (Ballot P)
  pub flags : List Bool
  pub hint : PosHint
  pub oo : List ℕ

-- The front that is popped, and how many it had.
pub record Front (P : Type 0) : Type 0 where
  pub metas : List (Ballot P)
  pub flags : List Bool
  pub count : ℕ

-- `while (*commit_indexes.begin() < _pending_index) commit_indexes.pop_front()`.
unfoldable pub drop_below : ℕ → List ℕ → List ℕ
drop_below pending [] = []
drop_below pending (i ∷ is) =
    let rest = drop_below pending is in if ltb i pending then rest else i ∷ is

abbrev pub front_is : ℕ → List ℕ → Bool
front_is i [] = false
front_is i (j ∷ js) = j == i

abbrev set_flags : ℕ → List Bool → List ℕ
set_flags index [] = []
set_flags index (true ∷ flags) = index ∷ set_flags (index + 1) flags
set_flags index (false ∷ flags) = set_flags (index + 1) flags

module _ {P : Type 0} where
  -- `if (!_committed_index_queue[k]) { ... }`, where the ballot at `k` is granted.
  abbrev pub commit_flag : Granting P → ℕ → ℕ → Option Bool → Option (Granting P)
  commit_flag g index k none = none
  commit_flag g index k (some true) = some g
  commit_flag g index k (some false) =
      some (record g { flags = set g.flags k true; oo = g.oo ++ index ∷ [] })

  -- The loop that pops the committed front of both queues.
  unfoldable pub pop_committed : List (Ballot P) → List Bool → Option (Front P)
  pop_committed metas [] = some (record { metas = metas; flags = []; count = 0 })
  pop_committed metas (false ∷ flags) =
      some (record { metas = metas; flags = false ∷ flags; count = 0 })
  pop_committed [] (true ∷ flags) = none
  pop_committed (m ∷ metas) (true ∷ flags) = elim (pop_committed metas flags) [
    | none ↦ none
    | some f ↦ some (record f { count = suc f.count })
  ]

module _ {P C : Type 0} where
  unfoldable pub new : ClosureQueue C → BallotBox P C
  new closure_queue = record {
    closure_queue = closure_queue;
    last_committed_index = 0;
    pending_index = 0;
    pending_meta_queue = [];
    committed_index_queue = [];
  }

  abbrev pub advance : BallotBox P C → List ℕ → Option (Front P) → Option (Reply P C)
  advance box oo none = none
  advance box oo (some f) =
      let last = box.pending_index + f.count - 1 in
      some (record {
        code = done;
        box = record box {
          last_committed_index = last;
          pending_index = box.pending_index + f.count;
          pending_meta_queue = f.metas;
          committed_index_queue = f.flags;
        };
        committed = some (last, oo);
      })

  -- The end of `commit_at`, after its loop.
  abbrev pub settle : BallotBox P C → List ℕ → Option (Granting P) → Option (Reply P C)
  settle box is none = none
  settle box is (some g) =
      let granted_box = record box {
        pending_meta_queue = g.metas;
        committed_index_queue = g.flags;
      } in
      if is_empty g.oo
      then some (record { code = done; box = granted_box; committed = none })
      else if front_is box.pending_index is
      then advance granted_box g.oo (pop_committed g.metas g.flags)
      else some (record {
        code = done;
        box = granted_box;
        committed = some (box.last_committed_index, g.oo);
      })

  abbrev pub reply : Code → BallotBox P C → Reply P C
  reply code box = record { code = code; box = box; committed = none }

  -- The box, and the closures that fail. `_committed_index_queue` is left as it is.
  unfoldable pub clear_pending_tasks : BallotBox P C → BallotBox P C × List C
  clear_pending_tasks box =
      let (closure_queue, failed) = clear box.closure_queue in
      (
        record box { closure_queue = closure_queue; pending_meta_queue = []; pending_index = 0 },
        failed,
      )

  unfoldable pub reset_pending_index : BallotBox P C → ℕ → BallotBox P C
  reset_pending_index box new_pending_index = record box {
    closure_queue = reset_first_index box.closure_queue new_pending_index;
    pending_index = new_pending_index;
  }

  unfoldable pub set_last_committed_index : BallotBox P C → ℕ → List ℕ → Reply P C
  set_last_committed_index box last oo =
      if not (box.pending_index == 0) || not (is_empty box.pending_meta_queue)
      then reply refused box
      else if ltb last box.last_committed_index
      then reply invalid box
      else if ltb box.last_committed_index last
      then record {
        code = done;
        box = record box { last_committed_index = last };
        committed = some (last, oo);
      }
      else reply done box

  unfoldable pub append_pending_task :
      BallotBox P C → List P → Option (List P) → Option C → BallotBox P C
  append_pending_task box conf old_conf closure = record box {
    pending_meta_queue = box.pending_meta_queue ++ init conf old_conf ∷ [];
    committed_index_queue = box.committed_index_queue ++ false ∷ [];
    closure_queue = append_pending_closure box.closure_queue closure;
  }

  unfoldable pub get_status : BallotBox P C → BallotBoxStatus
  get_status box = record {
    committed_index = box.last_committed_index;
    status_pending_index = if is_empty box.pending_meta_queue then 0 else box.pending_index;
    pending_queue_size = length box.pending_meta_queue;
  }

  -- The pending index, and the indexes after it that are committed.
  unfoldable pub oo_commited_indexes : BallotBox P C → ℕ × List ℕ
  oo_commited_indexes box =
      (box.pending_index, set_flags box.pending_index box.committed_index_queue)

module _ {P : Type 0} ⦃e : Eq P⦄ where
  abbrev pub grant_task : P → Granting P → ℕ → ℕ → Option (Ballot P) → Option (Granting P)
  grant_task peer g index k none = none
  grant_task peer g index k (some b) =
      let (b', hint') = grant_hinted peer b g.hint in
      let g' = record g { metas = set g.metas k b'; hint = hint' } in
      if granted b' then commit_flag g' index k (get_elem? g.flags k) else some g'

  -- One round of the loop of `commit_at`.
  unfoldable pub grant_at : P → ℕ → Granting P → ℕ → Option (Granting P)
  grant_at peer pending g index =
      if ltb index pending
      then none
      else grant_task peer g index (index - pending) (get_elem? g.metas (index - pending))

  unfoldable pub grant_loop : P → ℕ → List ℕ → Granting P → Option (Granting P)
  unfolding grant_at
  grant_loop peer pending [] g = some g
  grant_loop peer pending (i ∷ is) g = elim (grant_at peer pending g i) [
    | none ↦ none
    | some g' ↦ grant_loop peer pending is g'
  ]

  module _ {C : Type 0} where
    abbrev pub commit_between : BallotBox P C → List ℕ → P → ℕ → Option (Reply P C)
    commit_between box is peer back =
        if ltb back box.pending_index
        then some (reply done box)
        else if leb (box.pending_index + length box.pending_meta_queue) back
        then some (reply out_of_range box)
        else let is' = drop_below box.pending_index is in
          settle box is' (
            grant_loop peer box.pending_index is' (record {
              metas = box.pending_meta_queue;
              flags = box.committed_index_queue;
              hint = no_hint;
              oo = [];
            }))

    unfoldable pub commit_at : BallotBox P C → List ℕ → P → Option (Reply P C)
    unfolding grant_loop drop_below pop_committed
    commit_at box commit_indexes peer =
        if box.pending_index == 0 then some (reply invalid box) else elim (last? commit_indexes) [
          | none ↦ some (reply done box)
          | some back ↦ commit_between box commit_indexes peer back
        ]
