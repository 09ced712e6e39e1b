-- ===== src/LogEntry/Order.antt =====
-- The comparators of cpp/log_entry.h are one total order: the later term is greater, and within a
-- term the greater index.
use hit_consistency.Prelude.{◌<◌, ◌≡◌, ◌↔◌, ◌⊎◌, true, not, arith}
use hit_consistency.LogEntry.{LogId, same_id, differs, less, greater, at_most, at_least}

-- `a` is before `b` in the log's order.
abbrev pub Before : LogId → LogId → Type 0
Before a b = (a.term < b.term) ⊎ ((a.term ≡ b.term) × (a.index < b.index))

pub less_iff : (a b : LogId) → (less a b ≡ true) ↔ Before a b
unfolding less
less_iff a b = ground arith

pub same_id_iff : (a b : LogId) → (same_id a b ≡ true) ↔ (a ≡ b)
unfolding same_id
same_id_iff a b = ground arith

-- operator< is the lexicographic order by term, then index, and the other five comparators agree
-- with it: == and != decide equality, > is its converse, and <= and >= are total and take equal
-- identifiers both ways.
pub comparators :
    (a b : LogId)
    → ((less a b ≡ true) ↔ Before a b)
      × ((same_id a b ≡ true) ↔ (a ≡ b))
      × (differs a b ≡ not (same_id a b))
      × (greater a b ≡ less b a)
      × ((at_most a b ≡ true) ↔ (Before a b ⊎ (a ≡ b)))
      × (at_least a b ≡ at_most b a)
unfolding less same_id differs greater at_most at_least
comparators a b =
    (ground arith, ground arith, ground arith, ground arith, ground arith, ground arith)
