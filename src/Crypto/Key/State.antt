-- ===== src/Crypto/Key/State.antt =====
-- What IsLocked and IsUnlocked say together (crypto/key.go).
use gopenpgp.Base.{
  Bool, true, false, not, Option, some, List, [], ◌∷◌, ok, ◌≡◌, refl, ◌↔◌, arith, All, is_some,
}
use gopenpgp.Crypto.Entity.{Entity, Subkey, PrivateKey}
use gopenpgp.Crypto.Key.{
  Key, is_private, is_locked, is_unlocked, is_locked_entity, is_unlocked_entity, holds_encrypted,
  count_encrypted, encrypted_keys,
}

-- An independent description: no secret part of the entity is encrypted.
abbrev pub IsClear : Entity → Type 0
IsClear e =
    All (λ (sub : Subkey). holds_encrypted sub.private_key ≡ false) e.subkeys
    × ((p : PrivateKey) → e.private_key ≡ some p → p.encrypted ≡ false)

count_encrypted-eq-zero :
    (subs : List Subkey)
    → (count_encrypted subs ≡ 0)
      ↔ All (λ (sub : Subkey). holds_encrypted sub.private_key ≡ false) subs
unfolding count_encrypted
count_encrypted-eq-zero [] = (λ _. tt, λ _. refl)
count_encrypted-eq-zero (sub ∷ subs) = ground (arith, count_encrypted-eq-zero subs)

is_locked-is_unlocked_entity :
    (e : Entity) (o : Option PrivateKey) (b : Bool)
    → (is_locked_entity e o ≡ ok b) ↔ (is_unlocked_entity e o ≡ ok (not b))
unfolding is_locked_entity is_unlocked_entity
is_locked-is_unlocked_entity e o b = ground arith

-- A private key is either locked or unlocked: IsLocked answers b exactly when IsUnlocked answers the
-- opposite, and both fail together.
pub is_locked-is_unlocked :
    (key : Key) (b : Bool) → (is_locked key ≡ ok b) ↔ (is_unlocked key ≡ ok (not b))
unfolding is_locked is_unlocked
is_locked-is_unlocked key b = is_locked-is_unlocked_entity key.entity key.entity.private_key b

is_unlocked_entity_iff :
    (e : Entity) (p : PrivateKey) (b : Bool)
    → (is_unlocked_entity e (some p) ≡ ok true) ↔ (
        All (λ (sub : Subkey). holds_encrypted sub.private_key ≡ false) e.subkeys
        × (p.encrypted ≡ false))
unfolding is_unlocked_entity
is_unlocked_entity_iff e p b = ground (arith, count_encrypted-eq-zero e.subkeys)

-- IsUnlocked answers true exactly for a private key none of whose secret parts is encrypted.
pub is_unlocked-IsClear :
    (key : Key) → (is_unlocked key ≡ ok true) ↔ ((is_private key ≡ true) × IsClear key.entity)
unfolding is_unlocked is_private encrypted_keys
is_unlocked-IsClear key = grind (arith, count_encrypted-eq-zero)

-- Both questions are answered for private keys only.
pub is_unlocked-private :
    (key : Key) (b : Bool) → is_unlocked key ≡ ok b → is_some key.entity.private_key ≡ true
unfolding is_unlocked
is_unlocked-private key b h = ground arith

pub is_locked-private :
    (key : Key) (b : Bool) → is_locked key ≡ ok b → is_some key.entity.private_key ≡ true
unfolding is_locked
is_locked-private key b h = ground arith
