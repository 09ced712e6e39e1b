-- ===== src/LogEntry.antt =====
-- cpp/log_entry.h and protos/enum.proto: log identifiers with their comparators, and log entries.
-- Reference counts are left out.
pub mod Order
pub mod Meta
use hit_consistency.Prelude.{ℕ, Bool, not, ◌&&◌, List, Option, ltb, if◌then◌else◌, ◌==◌, nat_eq}

pub record LogId : Type 0 where
  pub index : ℕ
  pub term : ℕ

abbrev pub zero_id : LogId
zero_id = record { index = 0; term = 0 }

-- operator==, !=, <, >, <= and >=.
unfoldable pub same_id : LogId → LogId → Bool
same_id a b = a.index == b.index && a.term == b.term

unfoldable pub differs : LogId → LogId → Bool
unfolding same_id
differs a b = not (same_id a b)

unfoldable pub less : LogId → LogId → Bool
less a b = if a.term == b.term then ltb a.index b.index else ltb a.term b.term

unfoldable pub greater : LogId → LogId → Bool
greater a b = if a.term == b.term then ltb b.index a.index else ltb b.term a.term

unfoldable pub at_most : LogId → LogId → Bool
unfolding greater
at_most a b = not (greater a b)

unfoldable pub at_least : LogId → LogId → Bool
unfolding less
at_least a b = not (less a b)

pub data EntryType : Type 0 where
  unknown no_op data_entry configuration o3 : EntryType

-- `D` is the type of the payload, an IOBuf.
pub record LogEntry (P D : Type 0) : Type 0 where
  pub type : EntryType
  pub id : LogId
  pub dependency : ℕ
  pub peers : Option (List P)
  pub old_peers : Option (List P)
  pub payload : D
