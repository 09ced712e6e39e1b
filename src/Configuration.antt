-- ===== src/Configuration.antt =====
-- cpp/configuration.h: peer identifiers and configurations, which are sets of peers. The address
-- type `butil::EndPoint` is a parameter, with its equality, its order and the address that the
-- source resets to (IP_ANY, port 0). A `std::set` is the list of its elements in order.
pub mod Peers
pub mod Sets
use hit_consistency.Prelude.{
  [], ◌∷◌, List, refl, arith, ℕ, Bool, true, false, ◌&&◌, ◌||◌, not, ltb, if◌then◌else◌, Eq, ◌==◌,
  nat_eq, length, ◌==◌, ◌≡◌, ◌↔◌, ◌⊎◌, ℤ, ltb_ℤ, pos,
}

-- What the source uses of `butil::EndPoint`: `any` is IP_ANY with port 0.
pub record EndPoint (A : Type 0) : Type 0 where
  pub addr_eq : A → A → Bool
  pub addr_less : A → A → Bool
  pub any : A

-- That its operator== is equality and its operator< a strict total order.
pub record EndPointLaws {A : Type 0} (ep : EndPoint A) : Type 0 where
  pub addr_eq_iff : (a b : A) → (ep.addr_eq a b ≡ true) ↔ (a ≡ b)
  pub addr_irrefl : (a : A) → ep.addr_less a a ≡ false
  pub addr_trans :
      (a b c : A) → ep.addr_less a b ≡ true → ep.addr_less b c ≡ true → ep.addr_less a c ≡ true
  pub addr_total : (a b : A) → (ep.addr_less a b ≡ true) ⊎ (a ≡ b) ⊎ (ep.addr_less b a ≡ true)

pub record PeerId (A : Type 0) : Type 0 where
  pub addr : A
  pub idx : ℤ

abbrev same_int : ℤ → ℤ → Bool
same_int a b = not (ltb_ℤ a b) && not (ltb_ℤ b a)

module _ {A : Type 0} (ep : EndPoint A) where
  -- PeerId() after `reset()`.
  unfoldable pub empty_peer : PeerId A
  empty_peer = record { addr = ep.any; idx = pos 0 }

  unfoldable pub is_empty_peer : PeerId A → Bool
  is_empty_peer p = ep.addr_eq p.addr ep.any && same_int p.idx (pos 0)

  -- operator< and operator==.
  unfoldable pub peer_less : PeerId A → PeerId A → Bool
  peer_less p q =
      if ep.addr_less p.addr q.addr then true else ep.addr_eq p.addr q.addr && ltb_ℤ p.idx q.idx

  unfoldable pub peer_eq : PeerId A → PeerId A → Bool
  peer_eq p q = ep.addr_eq p.addr q.addr && same_int p.idx q.idx

  unfoldable pub peer_ne : PeerId A → PeerId A → Bool
  peer_ne p q = not (ep.addr_eq p.addr q.addr) || not (same_int p.idx q.idx)

-- The set operations, for elements with an operator<. Two elements are the same to a set if
-- neither is less.
module _ {P : Type 0} (less : P → P → Bool) where
  unfoldable pub set_insert : P → List P → List P
  set_insert p [] = p ∷ []
  set_insert p (q ∷ qs) =
      let rest = set_insert p qs in
      if less p q then p ∷ (q ∷ qs) else if less q p then q ∷ rest else q ∷ qs

  unfoldable pub set_erase : P → List P → List P
  set_erase p [] = []
  set_erase p (q ∷ qs) =
      let rest = set_erase p qs in if less p q then q ∷ qs else if less q p then q ∷ rest else qs

  unfoldable pub set_find : P → List P → Bool
  set_find p [] = false
  set_find p (q ∷ qs) =
      let rest = set_find p qs in if less p q then false else if less q p then rest else true

  -- Configuration(peers) and operator=(peers).
  unfoldable pub insert_all : List P → List P → List P
  unfolding set_insert
  insert_all [] conf = conf
  insert_all (p ∷ ps) conf = insert_all ps (set_insert p conf)

  unfoldable pub erase_all : List P → List P → List P
  unfolding set_erase
  erase_all [] conf = conf
  erase_all (p ∷ ps) conf = erase_all ps (set_erase p conf)

  unfoldable pub of_vector : List P → List P
  unfolding insert_all
  of_vector peers = insert_all peers []

  -- The new configuration, and whether the peer was added or removed.
  unfoldable pub add_peer : List P → P → List P × Bool
  unfolding set_insert set_find
  add_peer conf p = (set_insert p conf, not (set_find p conf))

  unfoldable pub remove_peer : List P → P → List P × Bool
  unfolding set_erase set_find
  remove_peer conf p = (set_erase p conf, set_find p conf)

  unfoldable pub contains_all : List P → List P → Bool
  unfolding set_find
  contains_all conf [] = true
  contains_all conf (p ∷ ps) = set_find p conf && contains_all conf ps

  -- equals(Configuration).
  unfoldable pub equals : List P → List P → Bool
  unfolding contains_all
  equals conf rhs = (length conf == length rhs) && contains_all rhs conf

  -- `included` and `excluded`.
  unfoldable pub diffs : List P → List P → List P × List P
  unfolding erase_all
  diffs conf rhs = (erase_all rhs conf, erase_all conf rhs)
