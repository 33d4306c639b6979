-- ===== src/Crypto/Key.antt =====
-- crypto/key.go: the properties of a `Key`. The operations that use go-crypto are in the children.
pub mod State
use gopenpgp.Base.{
  ℕ, zero, suc, ◌+◌, Bool, true, false, not, ◌&&◌, Option, none, some, List, [], ◌∷◌, Bytes, Error,
  Result, ok, err, ltb, ◌==◌, is_some, if◌then◌else◌,
}
use gopenpgp.Crypto.Entity.{Entity, Subkey, PrivateKey}

pub record Key : Type 0 where
  pub entity : Entity

unfoldable pub is_private : Key → Bool
is_private key = is_some key.entity.private_key

-- `sub.PrivateKey != nil && !sub.PrivateKey.Dummy() && sub.PrivateKey.Encrypted`
pub holds_encrypted : Option PrivateKey → Bool
holds_encrypted none = false
holds_encrypted (some p) = not p.dummy && p.encrypted

-- The loop over the subkeys that IsLocked and IsUnlocked share.
pub count_encrypted : List Subkey → ℕ
unfolding holds_encrypted
count_encrypted [] = 0
count_encrypted (sub ∷ subs) =
    if holds_encrypted sub.private_key then suc (count_encrypted subs) else count_encrypted subs

pub encrypted_keys : Entity → PrivateKey → ℕ
unfolding count_encrypted
encrypted_keys e p =
    if p.encrypted then suc (count_encrypted e.subkeys) else count_encrypted e.subkeys

pub is_locked_entity : Entity → Option PrivateKey → Result Bool
unfolding encrypted_keys
is_locked_entity e none = err (Error.new "gopenpgp: a public key cannot be locked")
is_locked_entity e (some p) = ok (ltb 0 (encrypted_keys e p))

unfoldable pub is_locked : Key → Result Bool
unfolding is_locked_entity
is_locked key = is_locked_entity key.entity key.entity.private_key

-- The source returns `true` beside the error, which no caller reads.
pub is_unlocked_entity : Entity → Option PrivateKey → Result Bool
unfolding encrypted_keys
is_unlocked_entity e none = err (Error.new "gopenpgp: a public key cannot be unlocked")
is_unlocked_entity e (some p) = ok (encrypted_keys e p == 0)

unfoldable pub is_unlocked : Key → Result Bool
unfolding is_unlocked_entity
is_unlocked key = is_unlocked_entity key.entity key.entity.private_key

pub get_key_id : Key → ℕ
get_key_id key = key.entity.primary_key.key_id

pub get_fingerprint_bytes : Key → Bytes
get_fingerprint_bytes key = key.entity.primary_key.fingerprint

pub get_version : Key → ℕ
get_version key = key.entity.primary_key.version

pub is_v6_entity : Option Entity → Bool
is_v6_entity none = false
is_v6_entity (some e) = e.primary_key.version == 6

-- A `*Key` may be nil; the entity of a key that stands here never is.
pub is_v6 : Option Key → Bool
unfolding is_v6_entity
is_v6 none = false
is_v6 (some key) = is_v6_entity (some key.entity)

-- NewKeyFromEntity
unfoldable pub new_key_from_entity : Option Entity → Result Key
new_key_from_entity none = err (Error.new "gopenpgp: nil entity provided")
new_key_from_entity (some e) = ok (record { entity = e })
