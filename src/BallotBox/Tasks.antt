-- ===== src/BallotBox/Tasks.antt =====
-- The abstract view of cpp/ballot_box.cc: a queue of tasks, each with the peers that have voted for
-- it. There are no counts, hints or ballots here.
use hit_consistency.Prelude.{
  ℕ, zero, suc, ◌+◌, ◌-◌, ◌*◌, Bool, false, not, ◌&&◌, ◌||◌, Option, none, some, List, [], ◌∷◌,
  length, get_elem?, ltb, if◌then◌else◌, Eq, ◌==◌, nat_eq,
}
use hit_consistency.ClosureQueue.{is_empty}
use hit_consistency.Ballot.Tally.{votes}

pub record Task (P : Type 0) : Type 0 where
  pub voters : List P
  pub conf : List P
  pub old_conf : Option (List P)
  pub committed : Bool

-- The tasks from the log index `first` on, and the last committed index.
pub record TaskQueue (P : Type 0) : Type 0 where
  pub first : ℕ
  pub last : ℕ
  pub tasks : List (Task P)

-- Whether the first of some indexes is `i`.
abbrev pub front_voted : ℕ → List ℕ → Bool
front_voted i [] = false
front_voted i (j ∷ js) = j == i

module _ {A : Type 0} where
  abbrev pub update : List A → ℕ → (A → A) → List A
  update [] k f = []
  update (x ∷ xs) zero f = f x ∷ xs
  update (x ∷ xs) (suc k) f = x ∷ update xs k f

module _ {P : Type 0} where
  -- How many tasks at the front are committed, and the tasks behind them.
  abbrev pub leading : List (Task P) → ℕ
  leading [] = 0
  leading (t ∷ ts) = let rest = leading ts in if t.committed then suc rest else 0

  abbrev pub behind : List (Task P) → List (Task P)
  behind [] = []
  behind (t ∷ ts) = let rest = behind ts in if t.committed then rest else t ∷ ts

module _ {P : Type 0} ⦃e : Eq P⦄ where
  abbrev pub has_majority : List P → List P → Bool
  has_majority voters conf = ltb (length conf) (2 * votes voters conf)

  abbrev pub elected_by : List P → List P → Option (List P) → Bool
  elected_by voters conf none = has_majority voters conf
  elected_by voters conf (some old_conf) = has_majority voters conf && has_majority voters old_conf

  abbrev pub elected : Task P → Bool
  elected t = elected_by t.voters t.conf t.old_conf

  -- A vote commits the task if the voters are then a majority.
  unfoldable pub vote : P → Task P → Task P
  vote peer t = record t {
    voters = peer ∷ t.voters;
    committed = t.committed || elected_by (peer ∷ t.voters) t.conf t.old_conf;
  }

  abbrev pub fresh : P → Option (Task P) → Bool
  fresh peer none = false
  fresh peer (some t) = not t.committed && elected_by (peer ∷ t.voters) t.conf t.old_conf

  -- The tasks after the votes of a peer at some indexes, and the indexes that these commit.
  unfoldable pub vote_all : P → ℕ → List ℕ → List (Task P) → List (Task P)
  vote_all peer first [] ts = ts
  vote_all peer first (i ∷ is) ts = vote_all peer first is (update ts (i - first) (vote peer))

  unfoldable pub newly : P → ℕ → List ℕ → List (Task P) → List ℕ
  newly peer first [] ts = []
  newly peer first (i ∷ is) ts =
      let rest = newly peer first is (update ts (i - first) (vote peer)) in
      if fresh peer (get_elem? ts (i - first)) then i ∷ rest else rest

  -- The votes of a peer at the indexes from `first` on, all below the end of the queue. If they
  -- commit a task and the front one was voted for, the committed front leaves the queue.
  unfoldable pub commit : P → List ℕ → TaskQueue P → TaskQueue P × Option (ℕ × List ℕ)
  unfolding vote_all newly
  commit peer is q =
      let ts = vote_all peer q.first is q.tasks in
      let oo = newly peer q.first is q.tasks in
      if is_empty oo
      then (record q { tasks = ts }, none)
      else if front_voted q.first is
      then (
        record { first = q.first + leading ts; last = q.first + leading ts - 1; tasks = behind ts },
        some (q.first + leading ts - 1, oo),
      )
      else (record q { tasks = ts }, some (q.last, oo))
