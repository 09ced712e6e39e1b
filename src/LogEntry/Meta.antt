-- ===== src/LogEntry/Meta.antt =====
-- serialize_configuration_meta and parse_configuration_meta of cpp/log_entry.cc. The texts of peers
-- and the protobuf message of two lists of texts are parameters; `S` is std::string.
use hit_consistency.Prelude.{[], ◌∷◌, List, refl, ℕ, Option, none, some, ◌≡◌, map, ap, ap₂}
use hit_consistency.LogEntry.{LogEntry}

pub record MetaCodec (P S : Type 0) : Type 0 where
  pub to_string : P → S
  pub of_string : S → P
  pub serialize : List S → List S → Option (List ℕ)
  pub parse : List ℕ → Option (List S × List S)

-- A peer is read from its text, and a message from its bytes.
pub record MetaCodecLaws {P S : Type 0} (codec : MetaCodec P S) : Type 0 where
  pub of_to_string : (p : P) → codec.of_string (codec.to_string p) ≡ p
  pub parse_serialize :
      (peers old_peers : List S) (bytes : List ℕ)
      → codec.serialize peers old_peers ≡ some bytes
      → codec.parse bytes ≡ some (peers, old_peers)

-- The code 0 with the bytes, EINVAL, and following the null pointer to the peers.
pub data Serialized : Type 0 where
  bytes_of : List ℕ → Serialized
  unserializable peers_missing : Serialized

abbrev texts : {P S : Type 0} → MetaCodec P S → Option (List P) → List S
texts codec none = []
texts codec (some ps) = map codec.to_string ps

abbrev old_peers_of : {P S : Type 0} → MetaCodec P S → List S → Option (List P) → Option (List P)
old_peers_of codec [] old = old
old_peers_of codec (s ∷ ss) old = some (map codec.of_string (s ∷ ss))

abbrev serialized : Option (List ℕ) → Serialized
serialized none = unserializable
serialized (some bytes) = bytes_of bytes

module _ {P S : Type 0} (codec : MetaCodec P S) where
  unfoldable pub serialize_configuration_meta : LogEntry P (List ℕ) → Serialized
  serialize_configuration_meta entry = elim entry.peers [
    | none ↦ peers_missing
    | some ps ↦ serialized (codec.serialize (map codec.to_string ps) (texts codec entry.old_peers))
  ]

  -- `none` is EINVAL.
  unfoldable pub parse_configuration_meta :
      List ℕ → LogEntry P (List ℕ) → Option (LogEntry P (List ℕ))
  parse_configuration_meta bytes entry = elim (codec.parse bytes) [
    | none ↦ none
    | some (peers, old_peers) ↦ some (record entry {
      peers = some (map codec.of_string peers);
      old_peers = old_peers_of codec old_peers entry.old_peers;
    })
  ]

-- An empty list of old peers, which is read back as none.
abbrev pub normal : {P : Type 0} → Option (List P) → Option (List P)
normal none = none
normal (some []) = none
normal (some (p ∷ ps)) = some (p ∷ ps)

serialized-some :
    (r : Option (List ℕ)) (bytes : List ℕ) → serialized r ≡ bytes_of bytes → r ≡ some bytes
serialized-some none bytes h = absurd (cc)
serialized-some (some b) bytes h = cc

module _ {P S : Type 0} (codec : MetaCodec P S) (laws : MetaCodecLaws codec) where
  back : (ps : List P) → map codec.of_string (map codec.to_string ps) ≡ ps
  back [] = refl
  back (p ∷ ps) = ap₂ (λ x l. x ∷ l) (laws.of_to_string p) (back ps)

  old_back : (old : Option (List P)) → old_peers_of codec (texts codec old) none ≡ normal old
  old_back none = refl
  old_back (some []) = refl
  old_back (some (p ∷ ps)) = ap some (back (p ∷ ps))

  -- What is serialized from an entry with peers is parsed, into an entry without old peers, to the
  -- same peers and old peers, but for an empty list of old peers, which becomes none.
  pub parse-serialize :
      (entry fresh : LogEntry P (List ℕ)) (ps : List P) (bytes : List ℕ)
      → entry.peers ≡ some ps
      → fresh.old_peers ≡ none
      → serialize_configuration_meta codec entry ≡ bytes_of bytes
      → parse_configuration_meta codec bytes fresh
        ≡ some (record fresh { peers = some ps; old_peers = normal entry.old_peers })
  unfolding serialize_configuration_meta parse_configuration_meta
  parse-serialize entry fresh ps bytes hp ho hs =
      let peers = map codec.to_string ps in
      let old = texts codec entry.old_peers in
      let written = serialized-some (codec.serialize peers old) bytes (rw hp at hs) in
      rw (
        parse_configuration_meta,
        laws.parse_serialize peers old bytes written,
        back ps,
        ho,
        old_back entry.old_peers,
      )
