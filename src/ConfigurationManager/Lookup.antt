-- ===== src/ConfigurationManager/Lookup.antt =====
-- get of cpp/configuration_manager.cc finds the configuration in force at an index.
use hit_consistency.Prelude.{
  [], refl, arith, List, ℕ, ◌∷◌, ◌≡◌, Bool-cases, ltb, inl, leb, false, inr, true,
}
use hit_consistency.ConfigurationManager.{ConfigurationEntry, ConfigurationManager, last_upto, get}
use hit_consistency.ConfigurationManager.History.{Rising, upto, AllAbove-mono, upto_none}

module _ {P : Type 0} where
  -- The last of some entries, or the one before them.
  abbrev pub last_or : ConfigurationEntry P → List (ConfigurationEntry P) → ConfigurationEntry P
  last_or before [] = before
  last_or before (c ∷ cs) = last_or c cs

  last_upto_lem :
      (before : ConfigurationEntry P) (n : ℕ) (cs : List (ConfigurationEntry P))
      → Rising cs
      → last_upto before n cs ≡ last_or before (upto n cs)
  unfolding last_upto
  last_upto_lem before n [] r = refl
  last_upto_lem before n (c ∷ cs) r = elim (Bool-cases (ltb n c.id.index)) [
    | inl above ↦
        let gone : leb c.id.index n ≡ false = ground arith in
        rw (above, gone, upto_none n cs (AllAbove-mono n c.id.index cs (ground arith) r.0))
    | inr within ↦
        let kept : leb c.id.index n ≡ true = ground arith in
        rw (within, kept) (last_upto_lem c n cs r.1)
  ]

  -- On a history that rises, get gives the last of the entries whose index is not above the given
  -- one, and the snapshot's configuration if there is none.
  pub get_lem :
      (m : ConfigurationManager P) (index : ℕ)
      → Rising m.configurations
      → get m index ≡ last_or m.snapshot (upto index m.configurations)
  unfolding get
  get_lem m index r = last_upto_lem m.snapshot index m.configurations r
