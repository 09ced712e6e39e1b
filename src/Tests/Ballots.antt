-- ===== src/Tests/Ballots.antt =====
-- Ballots of three peers, as in test/test_ballot.cc.
use hit_consistency.Prelude.{
  [], ◌∷◌, List, refl, ℕ, true, false, none, some, nat_eq, negsuc, pos, Distinct, ◌≡◌, contains,
  ◌↔◌, ◌-ℤ◌,
}
use hit_consistency.Ballot.{init, scan, grant_all, granted, grant_hinted, grant, PosHint}
use hit_consistency.Ballot.Quorum.{granted-intersect, granted_iff, grant-hint_irrelevant, Elected}

abbrev three : List ℕ
three = 1 ∷ 2 ∷ 3 ∷ []

abbrev four : List ℕ
four = 1 ∷ 2 ∷ 3 ∷ 4 ∷ []

abbrev three_distinct : Distinct three
three_distinct = (refl, (refl, (refl, tt)))

abbrev four_distinct : Distinct four
four_distinct = (refl, (refl, (refl, (refl, tt))))

two_of_three : granted (grant_all (2 ∷ 1 ∷ []) (init three none)) ≡ true
unfolding granted grant_all grant init scan ◌-ℤ◌
two_of_three = refl

one_twice : granted (grant_all (1 ∷ 1 ∷ 4 ∷ []) (init three none)) ≡ false
unfolding granted grant_all grant init scan ◌-ℤ◌
one_twice = refl

joint : granted (grant_all (3 ∷ 4 ∷ 2 ∷ []) (init three (some four))) ≡ true
unfolding granted grant_all grant init scan ◌-ℤ◌
joint = refl

granted-intersect_example :
    (p : ℕ) × (contains three p ≡ true)
    × (contains (2 ∷ 1 ∷ []) p ≡ true)
    × (contains (3 ∷ 4 ∷ 2 ∷ []) p ≡ true)
granted-intersect_example =
    granted-intersect (2 ∷ 1 ∷ []) (3 ∷ 4 ∷ 2 ∷ []) three none (some four) three_distinct tt
      four_distinct two_of_three joint

granted_iff_example :
    (granted (grant_all (3 ∷ 4 ∷ 2 ∷ []) (init three (some four))) ≡ true)
    ↔ Elected (3 ∷ 4 ∷ 2 ∷ []) three (some four)
granted_iff_example = granted_iff (3 ∷ 4 ∷ 2 ∷ []) three (some four) three_distinct four_distinct

abbrev wrong_hint : PosHint
wrong_hint = record { pos0 = pos 2; pos1 = negsuc 0 }

grant-hint_irrelevant_example :
    (grant_hinted 1 (grant_all (2 ∷ []) (init three none)) wrong_hint).0
    ≡ grant 1 (grant_all (2 ∷ []) (init three none))
grant-hint_irrelevant_example =
    grant-hint_irrelevant (2 ∷ []) three none 1 wrong_hint three_distinct tt
