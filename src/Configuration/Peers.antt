-- ===== src/Configuration/Peers.antt =====
-- The comparators of peer identifiers in cpp/configuration.h.
use hit_consistency.Prelude.{arith, Bool, ◌≡◌, ℤ, false, ltb_ℤ, true, ◌⊎◌, ◌↔◌, not}
use hit_consistency.Configuration.{
  EndPoint, EndPointLaws, PeerId, peer_less, peer_eq, peer_ne, is_empty_peer, empty_peer,
}

-- A strict total order that a test decides.
pub record StrictOrder {P : Type 0} (less : P → P → Bool) : Type 0 where
  pub irrefl : (p : P) → less p p ≡ false
  pub trans : (p q r : P) → less p q ≡ true → less q r ≡ true → less p r ≡ true
  pub total : (p q : P) → (less p q ≡ true) ⊎ (p ≡ q) ⊎ (less q p ≡ true)

module _ {A : Type 0} (ep : EndPoint A) (laws : EndPointLaws ep) where
  peer_path : (p q : PeerId A) → p.addr ≡ q.addr → p.idx ≡ q.idx → p ≡ q
  peer_path p q a b = λ i. record { addr = a i; idx = b i }

  int_cases : (a b : ℤ) → (ltb_ℤ a b ≡ true) ⊎ (a ≡ b) ⊎ (ltb_ℤ b a ≡ true)
  int_cases a b = ground arith

  less_irrefl : (p : PeerId A) → peer_less ep p p ≡ false
  unfolding peer_less
  less_irrefl p = rw (laws.addr_irrefl p.addr) (ground arith)

  less-total : (p q : PeerId A) → (peer_less ep p q ≡ true) ⊎ (p ≡ q) ⊎ (peer_less ep q p ≡ true)
  unfolding peer_less
  less-total p q = ground (
    arith,
    laws.addr_total p.addr q.addr,
    laws.addr_eq_iff p.addr q.addr,
    laws.addr_eq_iff q.addr p.addr,
  )

  less_trans :
      (p q r : PeerId A)
      → peer_less ep p q ≡ true
      → peer_less ep q r ≡ true
      → peer_less ep p r ≡ true
  unfolding peer_less
  less_trans p q r h k = ground (
    arith,
    laws.addr_trans p.addr q.addr r.addr,
    laws.addr_eq_iff p.addr q.addr,
    laws.addr_eq_iff q.addr r.addr,
    laws.addr_eq_iff p.addr r.addr,
  )

  -- Where operator== of the address type is equality and its operator< a strict total order, so
  -- are those of peer identifiers; operator!= is the negation of operator==, and is_empty holds of
  -- the reset identifier alone.
  pub peer_comparators :
      StrictOrder (peer_less ep)
      × ((p q : PeerId A) → (peer_eq ep p q ≡ true) ↔ (p ≡ q))
      × ((p q : PeerId A) → peer_ne ep p q ≡ not (peer_eq ep p q))
      × ((p : PeerId A) → (is_empty_peer ep p ≡ true) ↔ (p ≡ empty_peer ep))
  unfolding peer_eq peer_ne is_empty_peer empty_peer
  peer_comparators = (
    record { irrefl = less_irrefl; trans = less_trans; total = less-total },
    (λ p q. ground (arith, laws.addr_eq_iff p.addr q.addr)),
    (λ p q. ground arith),
    λ p. ground (arith, laws.addr_eq_iff p.addr ep.any),
  )
