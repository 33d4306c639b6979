-- ===== src/Crypto/KeyLife.antt =====
-- crypto/key.go: reading, copying, locking and unlocking a `Key`. What go-crypto does with an entity
-- and its serialization is the parameter `KeyCodec`; a reader over a buffer is its bytes.
pub mod Locking
pub mod Sound
mod Tests
use gopenpgp.Base.{
  ℕ, ◌+◌, Bool, true, false, not, Option, none, some, List, [], ◌∷◌, Bytes, String, ℤ, Error,
  Result, ok, err, panic, ◌>>=◌, ◌>>◌, fail_if, wrap_err, ◌==◌, if◌then◌else◌,
}
use gopenpgp.Crypto.Entity.{Entity, Subkey}
use gopenpgp.Crypto.Key.{Key, is_private, is_locked, is_unlocked, new_key_from_entity}

-- The functions of go-crypto on entities, and `armor.IsPGPArmored`'s answer for a buffer. An operation
-- that changes its entity returns the changed one.
pub record KeyCodec (Config : Type 0) : Type 0 where
  pub serialize : Entity → Result Bytes
  pub serialize_private_without_signing : Entity → Result Bytes
  pub read_key_ring : Bytes → Result (List Entity)
  pub read_armored_key_ring : Bytes → Result (List Entity)
  pub is_pgp_armored : Bytes → Bool
  pub encrypt_private_keys : Entity → Bytes → Config → Result Entity
  pub decrypt_private_keys : Entity → Bytes → Result Entity
  pub new_entity : String → String → String → Config → Result Entity

-- The encodings of crypto/encoding.go.
abbrev pub armor : ℕ
armor = 0

abbrev pub bytes : ℕ
bytes = 1

abbrev pub auto : ℕ
auto = 2

module _ {Config : Type 0} (codec : KeyCodec Config) where
  -- `key.entity.PrivateKey == nil` chooses the serializer.
  pub serialize_entity : Entity → Result Bytes
  serialize_entity e = elim e.private_key [
    | none ↦ codec.serialize e
    | some p ↦ codec.serialize_private_without_signing e
  ]

  -- (*Key).Serialize
  pub serialize : Key → Result Bytes
  unfolding serialize_entity
  serialize key = wrap_err "gopenpgp: error in serializing key" (serialize_entity key.entity)

  -- The tests on the entities that were read.
  pub single_entity : List Entity → Result Key
  single_entity [] = err (Error.new "gopenpgp: the key does not contain any entity")
  single_entity (e ∷ []) = ok (record { entity = e })
  single_entity (e ∷ f ∷ es) = err (Error.new "gopenpgp: the key contains too many entities")

  -- (*Key).readFrom
  pub read_from : Bytes → Bool → Result Key
  unfolding single_entity
  read_from r armored = do
    entities ←
        wrap_err "gopenpgp: error in reading key ring"
          (if armored then codec.read_armored_key_ring r else codec.read_key_ring r)
    single_entity entities

  pub new_key_from_reader_explicit : Bytes → ℕ → Result Key
  unfolding read_from
  new_key_from_reader_explicit r encoding =
      if encoding == auto
      then read_from r (codec.is_pgp_armored r)
      else if encoding == armor
      then read_from r true
      else if encoding == bytes
      then read_from r false
      else err (Error.new "gopenpgp: encoding is not supported")

  -- NewKey; the clone of the bytes is equal to them.
  pub new_key : Bytes → Result Key
  unfolding new_key_from_reader_explicit
  new_key bin_keys = new_key_from_reader_explicit bin_keys auto

  pub copy : Key → Result Key
  unfolding serialize new_key
  copy key = do serialized ← serialize key; new_key serialized

  pub lock_with : Key → Option Bytes → Config → Result Key
  lock_with locked_key none config = ok locked_key
  lock_with locked_key (some passphrase) config = do
    e ←
        wrap_err "gopenpgp: error in locking key"
          (codec.encrypt_private_keys locked_key.entity passphrase config)
    locked ← is_locked (record { entity = e })
    fail_if (not locked) (Error.new "gopenpgp: unable to lock key")
    ok (record { entity = e })

  -- (*Key).lock; `config` is `profile.KeyEncryptionConfig()`.
  pub lock : Key → Option Bytes → Config → Result Key
  unfolding copy lock_with
  lock key passphrase config = do
    unlocked ← is_unlocked key
    fail_if (not unlocked) (Error.new "gopenpgp: key is not unlocked")
    locked_key ← copy key
    lock_with locked_key passphrase config

  pub unlock_not_locked : Key → Option Bytes → Result Key
  unfolding copy
  unlock_not_locked key none = copy key
  unlock_not_locked key (some passphrase) = err (Error.new "gopenpgp: key is not locked")

  -- `DecryptPrivateKeys(passphrase)`, whose error is replaced; a nil passphrase is an empty one.
  pub decrypted : Result Entity → Result Entity
  decrypted (ok e) = ok e
  decrypted (err e) = err (Error.new "gopenpgp: error in unlocking key")
  decrypted panic = panic

  pub or_empty : Option Bytes → Bytes
  or_empty none = []
  or_empty (some b) = b

  pub unlock_locked : Key → Option Bytes → Result Key
  unfolding copy decrypted or_empty
  unlock_locked key passphrase = do
    unlocked_key ← copy key
    e ← decrypted (codec.decrypt_private_keys unlocked_key.entity (or_empty passphrase))
    is_open ← is_unlocked (record { entity = e })
    fail_if (not is_open) (Error.new "gopenpgp: unable to unlock key")
    ok (record { entity = e })

  -- (*Key).Unlock
  pub unlock : Key → Option Bytes → Result Key
  unfolding unlock_not_locked unlock_locked
  unlock key passphrase = do
    locked ← is_locked key
    if locked then unlock_locked key passphrase else unlock_not_locked key passphrase

  -- NewPrivateKeyFromArmored
  pub new_private_key_from_armored : Bytes → Option Bytes → Result Key
  unfolding new_key_from_reader_explicit unlock
  new_private_key_from_armored armored password = do
    locked_key ← new_key_from_reader_explicit armored auto
    locked ← is_locked locked_key
    if locked then unlock locked_key password else ok locked_key
