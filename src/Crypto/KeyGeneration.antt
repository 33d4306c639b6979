-- ===== src/Crypto/KeyGeneration.antt =====
-- crypto/key_generation_handle.go and crypto/key_generation_handle_builder.go: the generation of keys.
-- go-crypto's functions are the parameter `KeyGenCodec`, with its random choices fixed.
pub mod Identities
pub mod Lifetime
mod Tests
use text.Mathlib.Text.{◌==◌ as str_eq}
use gopenpgp.Base.{
  ℕ, Bool, true, false, ◌&&◌, Option, none, some, List, [], ◌∷◌, ◌++◌, String, ℤ, Error, Result, ok,
  err, panic, ◌>>=◌, ◌>>◌, fail_if, wrap_err, is_some, ◌==◌, if◌then◌else◌,
}
use gopenpgp.Profile.{Custom, key_generation_config, algo_rsa, algo_eddsa, algo_ed25519, algo_ed448}
use gopenpgp.Crypto.Entity.{Entity}
use gopenpgp.Crypto.Key.{Key}
use gopenpgp.Crypto.Config.{Config, unix, to_uint32}

-- `identity`
pub record UserId : Type 0 where
  pub name : String
  pub comment : String
  pub email : String

pub record KeyGenerationHandle : Type 0 where
  pub identities : List UserId
  pub key_lifetime_secs : ℕ
  pub override_algorithm : ℕ
  pub clock : Option ℤ

-- defaultKeyGenerationHandle
pub default_key_generation_handle : Option ℤ → KeyGenerationHandle
default_key_generation_handle clock = record {
  identities = [];
  key_lifetime_secs = 0;
  override_algorithm = 0;
  clock = clock;
}

-- `openpgp.NewEntityWithoutId`, `openpgp.NewEntity` and AddUserId, which changes the entity.
pub record KeyGenCodec : Type 0 where
  pub new_entity_without_id : Config → Result Entity
  pub new_entity : UserId → Config → Result Entity
  pub add_user_id : Entity → UserId → Config → Result Entity

-- identity.valid
unfoldable pub valid : UserId → Result (Unit {0})
valid uid =
    fail_if (str_eq uid.email "" && str_eq uid.name "")
      (Error.new "gopenpgp: neither name nor email set in user id")

-- The values of crypto/key_generation.go.
abbrev pub key_generation_rsa4096 : ℕ
key_generation_rsa4096 = 1

abbrev pub key_generation_curve25519_legacy : ℕ
key_generation_curve25519_legacy = 2

abbrev pub key_generation_curve25519 : ℕ
key_generation_curve25519 = 3

abbrev pub key_generation_curve448 : ℕ
key_generation_curve448 = 4

-- updateConfig
pub update_config : Config → ℕ → Config
update_config config algorithm =
    if algorithm == key_generation_rsa4096
    then record config { algorithm = algo_rsa; rsa_bits = 4096 }
    else if algorithm == key_generation_curve25519_legacy
    then record config { v6_keys = false; algorithm = algo_eddsa; curve = "Curve25519" }
    else if algorithm == key_generation_curve25519
    then record config { algorithm = algo_ed25519 }
    else if algorithm == key_generation_curve448
    then record config { algorithm = algo_ed448 }
    else config

-- The configuration that GenerateKeyWithSecurity works with.
pub generation_config : Custom → KeyGenerationHandle → ℕ → Config
unfolding update_config
generation_config profile kgh security =
    record (update_config (key_generation_config profile security) kgh.override_algorithm) {
      time = some (unix kgh.clock);
      key_lifetime_secs = kgh.key_lifetime_secs;
    }

-- `if key.entity.PrivateKey == nil`
pub check_private : Entity → Result Key
check_private e =
    if is_some e.private_key
    then ok (record { entity = e })
    else err (Error.new "gopenpgp: error in generating private key")

-- `identities[1:]`
abbrev pub others : List UserId → List UserId
others [] = []
others (uid ∷ uids) = uids

module _ (codec : KeyGenCodec) where
  -- The entity with its first user id, if there is one.
  pub first_entity : Config → List UserId → Result Entity
  first_entity config [] =
      if config.v6_keys
      then wrap_err "gopengpp: error in creating new entity" (codec.new_entity_without_id config)
      else err (Error.new "gopenpgp: non-v6 key requires a user id")
  first_entity config (uid ∷ uids) = valid uid >>= λ _.
      wrap_err "gopengpp: error in creating new entity" (codec.new_entity uid config)

  -- The loop over the other user ids.
  pub add_user_ids : Config → List UserId → Entity → Result Entity
  unfolding valid
  add_user_ids config [] e = ok e
  add_user_ids config (uid ∷ uids) e = valid uid >>= λ _.
      wrap_err "gopengpp: error in adding user id" (codec.add_user_id e uid config)
      >>= add_user_ids config uids

  -- (*keyGenerationHandle).GenerateKeyWithSecurity
  pub generate_key_with_security : Custom → KeyGenerationHandle → ℕ → Result Key
  unfolding generation_config first_entity add_user_ids check_private
  generate_key_with_security profile kgh security =
      first_entity (generation_config profile kgh security) kgh.identities >>= λ e.
      add_user_ids (generation_config profile kgh security) (others kgh.identities) e
      >>= check_private

  -- (*keyGenerationHandle).GenerateKey, with constants.StandardSecurity
  pub generate_key : Custom → KeyGenerationHandle → Result Key
  unfolding generate_key_with_security
  generate_key profile kgh = generate_key_with_security profile kgh 0

pub record KeyGenerationBuilder : Type 0 where
  pub handle : KeyGenerationHandle
  pub default_clock : Option ℤ

-- newKeyGenerationBuilder
pub new_key_generation_builder : Option ℤ → KeyGenerationBuilder
unfolding default_key_generation_handle
new_key_generation_builder clock = record {
  handle = default_key_generation_handle clock;
  default_clock = clock;
}

-- The builder's methods, with their arguments.
pub data GenerationMethod : Type 0 where
  generation_time : ℤ → GenerationMethod
  lifetime : ℤ → GenerationMethod
  add_user_id : String → String → GenerationMethod
  override_profile_algorithm : ℕ → GenerationMethod

unfoldable pub apply : KeyGenerationBuilder → GenerationMethod → KeyGenerationBuilder
unfolding to_uint32
apply kgb (generation_time t) = record kgb { handle = record kgb.handle { clock = some t } }
apply kgb (lifetime seconds) = record kgb {
  handle = record kgb.handle { key_lifetime_secs = to_uint32 seconds };
}
apply kgb (add_user_id name email) = record kgb {
  handle = record kgb.handle {
    identities = kgb.handle.identities ++ record { name = name; comment = ""; email = email } ∷ [];
  };
}
apply kgb (override_profile_algorithm algorithm) = record kgb {
  handle = record kgb.handle { override_algorithm = algorithm };
}

pub apply_all : KeyGenerationBuilder → List GenerationMethod → KeyGenerationBuilder
unfolding apply
apply_all kgb [] = kgb
apply_all kgb (m ∷ ms) = apply_all (apply kgb m) ms

-- (*KeyGenerationBuilder).New
unfoldable pub build : KeyGenerationBuilder → KeyGenerationHandle × KeyGenerationBuilder
build kgb = (kgb.handle, record kgb { handle = default_key_generation_handle kgb.default_clock })
