-- ===== src/Tests/Peers.antt =====
-- Peers whose addresses are numbers, and sets of numbers.
use hit_consistency.Prelude.{[], ◌∷◌, refl, arith, ℕ, true, nat_eq, ltb, nat_beq, ◌≡◌, ◌↔◌, not}
use hit_consistency.LogEntry.{less}
use hit_consistency.LogEntry.Order.{Before, comparators}
use hit_consistency.Configuration.{
  EndPoint, EndPointLaws, PeerId, peer_less, peer_eq, peer_ne, is_empty_peer, empty_peer, add_peer,
  of_vector, diffs,
}
use hit_consistency.Configuration.Peers.{StrictOrder, peer_comparators}
use hit_consistency.Configuration.Sets.{Sorted, add-remove_lem, of_vector_lem, diffs_lem}

abbrev numbers : EndPoint ℕ
numbers = record { addr_eq = nat_beq; addr_less = ltb; any = 0 }

numbers_laws : EndPointLaws numbers
numbers_laws = record {
  addr_eq_iff = λ a b. ground arith;
  addr_irrefl = λ a. ground arith;
  addr_trans = λ a b c h k. ground arith;
  addr_total = λ a b. ground arith;
}

numbered_peers :
    StrictOrder (peer_less numbers)
    × ((p q : PeerId ℕ) → (peer_eq numbers p q ≡ true) ↔ (p ≡ q))
    × ((p q : PeerId ℕ) → peer_ne numbers p q ≡ not (peer_eq numbers p q))
    × ((p : PeerId ℕ) → (is_empty_peer numbers p ≡ true) ↔ (p ≡ empty_peer numbers))
numbered_peers = peer_comparators numbers numbers_laws

ltb_order : StrictOrder ltb
ltb_order = record {
  irrefl = λ a. ground arith;
  trans = λ a b c h k. ground arith;
  total = λ a b. ground arith;
}

added_peer : (add_peer ltb (2 ∷ 5 ∷ []) 3).1 ≡ true
added_peer = (add-remove_lem ltb ltb_order (2 ∷ 5 ∷ []) 3 ((refl, tt), (tt, tt))).2

repeated_peer : Sorted ltb ltb_order (of_vector ltb (3 ∷ 1 ∷ 3 ∷ []))
repeated_peer = (of_vector_lem ltb ltb_order (3 ∷ 1 ∷ 3 ∷ [])).0

diffs_lem_example : Sorted ltb ltb_order (diffs ltb (1 ∷ 2 ∷ []) (2 ∷ 3 ∷ [])).0
diffs_lem_example =
    (diffs_lem ltb ltb_order (1 ∷ 2 ∷ []) (2 ∷ 3 ∷ []) ((refl, tt), (tt, tt))
      ((refl, tt), (tt, tt))).0

earlier_term_first :
    (less (record { index = 9; term = 1 }) (record { index = 2; term = 3 }) ≡ true)
    ↔ Before (record { index = 9; term = 1 }) (record { index = 2; term = 3 })
earlier_term_first =
    (comparators (record { index = 9; term = 1 }) (record { index = 2; term = 3 })).0
