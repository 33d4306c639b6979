-- ===== src/Crypto/KeyRing.antt =====
-- crypto/keyring.go: key rings as lists of entities. A nil `*KeyRing` is `none` where a method may be
-- called on it. What go-crypto decides about an entity at a time is the parameter `KeyQueries`.
pub mod Unlocked
pub mod Expiry
mod Tests
use gopenpgp.Base.{
  ℕ, zero, suc, ◌+◌, ◌-◌, Bool, true, false, not, ◌&&◌, ◌||◌, Option, none, some, List, [], ◌∷◌,
  ◌++◌, map, Bytes, String, ℤ, pos, negsuc, Error, Result, ok, err, panic, ◌>>=◌, ◌>>◌, fail_if,
  wrap_err, leb, length, get_elem?, take, is_some, is_cons, any, if◌then◌else◌,
}
use gopenpgp.Crypto.Entity.{Entity, Subkey, PublicKey, Identity, PrivateKey}
use gopenpgp.Crypto.Key.{Key, is_private, is_unlocked, new_key_from_entity}

pub record KeyRing : Type 0 where
  pub entities : List Entity
  pub first_key_id : String

-- `&KeyRing{}`
abbrev pub empty : KeyRing
empty = record { entities = []; first_key_id = "" }

pub append_key : KeyRing → Key → KeyRing
append_key ring key = record ring { entities = ring.entities ++ key.entity ∷ [] }

-- `err != nil || !unlocked`
unfoldable pub not_unlocked : Result Bool → Bool
not_unlocked (ok b) = not b
not_unlocked (err e) = true
not_unlocked panic = true

pub locked_key_error : Error
locked_key_error = Error.new "gopenpgp: unable to add locked key to a keyring"

-- The ring afterwards and the error.
unfoldable pub add_key : KeyRing → Key → KeyRing × Option Error
unfolding append_key not_unlocked locked_key_error
add_key ring key =
    if is_private key && not_unlocked (is_unlocked key)
    then (ring, some locked_key_error)
    else (append_key ring key, none)

unfoldable pub new_key_ring : Option Key → KeyRing × Option Error
unfolding add_key
new_key_ring none = (empty, none)
new_key_ring (some key) = add_key empty key

-- AddKey's error as the result of a step.
pub added : KeyRing × Option Error → Result KeyRing
added (ring, none) = ok ring
added (ring, some e) = err e

-- The loop of NewKeyRingFromBinary over the entities that were read.
pub add_entities : KeyRing → List Entity → Result KeyRing
unfolding added new_key_from_entity
add_entities ring [] = ok ring
add_entities ring (e ∷ es) = do
  key ← wrap_err "gopenpgp: error in reading keyring" (new_key_from_entity (some e))
  ring' ← wrap_err "gopenpgp: error in reading keyring" (added (add_key ring key))
  add_entities ring' es

-- `read` is `openpgp.ReadKeyRing`.
pub new_key_ring_from_binary : (Bytes → Result (List Entity)) → Bytes → Result KeyRing
unfolding add_entities
new_key_ring_from_binary read bin_keys = do
  entities ← wrap_err "gopenpgp: error in reading keyring" (read bin_keys)
  add_entities empty entities

unfoldable pub count_entities : Option KeyRing → ℕ
count_entities none = 0
count_entities (some ring) = length ring.entities

pub get_entities : Option KeyRing → List Entity
get_entities none = []
get_entities (some ring) = ring.entities

pub get_keys : KeyRing → List Key
get_keys ring = map (λ e. record { entity = e }) ring.entities

-- The access `keyRing.entities[n]`.
pub key_at : Option Entity → Result Key
key_at none = panic
key_at (some e) = ok (record { entity = e })

-- A negative index passes the test and panics in the access.
pub get_key : Option KeyRing → ℤ → Result Key
unfolding key_at
get_key ring (negsuc n) = panic
get_key ring (pos n) =
    if leb (count_entities ring) n
    then err (Error.new "gopenpgp: out of bound when fetching key")
    else key_at (get_elem? (get_entities ring) n)

-- `e.PrivateKey != nil && !e.PrivateKey.Encrypted`
pub can_sign : Option PrivateKey → Bool
can_sign none = false
can_sign (some p) = not p.encrypted

pub signing_entities_loop : List Entity → Result (List Entity)
unfolding can_sign
signing_entities_loop [] = ok []
signing_entities_loop (e ∷ es) = do
  fail_if (not (can_sign e.private_key))
      (Error.new "gopenpgp: signing entity does not contain unencrypted private key")
  rest ← signing_entities_loop es
  ok (e ∷ rest)

-- A method on a nil ring reads its field.
unfoldable pub signing_entities : Option KeyRing → Result (List Entity)
unfolding signing_entities_loop
signing_entities none = panic
signing_entities (some ring) = signing_entities_loop ring.entities

pub get_key_ids : KeyRing → List ℕ
get_key_ids ring = map (λ (e : Entity). e.primary_key.key_id) ring.entities

pub get_identities_loop : List Entity → List Identity
get_identities_loop [] = []
get_identities_loop (e ∷ es) = e.identities ++ get_identities_loop es

pub get_identities : KeyRing → List Identity
unfolding get_identities_loop
get_identities ring = get_identities_loop ring.entities

-- What go-crypto answers about an entity; times are Unix times. `latest_valid` is
-- `LatestValidBindingSignature`, a signature and an error.
pub record KeyQueries (Binding : Type 0) : Type 0 where
  pub can_verify : Entity → ℤ → Bool
  pub can_encrypt : Entity → ℤ → Bool
  pub decryption_keys : Entity → Option ℤ → List Subkey
  pub latest_valid : Subkey → ℤ → Option Binding × Option Error
  pub key_expired : PublicKey → Option Binding → ℤ → Bool

-- The error of FilterExpiredKeys.
pub expired_error : List KeyRing → Bool → Option Error
expired_error kept has_expired =
    if not (is_cons kept) && has_expired
    then some (Error.new "gopenpgp: all contacts keys are expired")
    else none

module _ {Binding : Type 0} (queries : KeyQueries Binding) where
  pub can_verify_loop : List Entity → ℤ → Bool
  can_verify_loop [] t = false
  can_verify_loop (e ∷ es) t = if queries.can_verify e t then true else can_verify_loop es t

  pub can_verify : KeyRing → ℤ → Bool
  unfolding can_verify_loop
  can_verify ring t = can_verify_loop ring.entities t

  pub can_encrypt_loop : List Entity → ℤ → Bool
  can_encrypt_loop [] t = false
  can_encrypt_loop (e ∷ es) t = if queries.can_encrypt e t then true else can_encrypt_loop es t

  pub can_encrypt : KeyRing → ℤ → Bool
  unfolding can_encrypt_loop
  can_encrypt ring t = can_encrypt_loop ring.entities t

  -- The zero time where `unixTime == 0`.
  pub check_time : ℤ → Option ℤ
  check_time (pos zero) = none
  check_time t = some t

  pub count_decryption_loop : List Entity → Option ℤ → ℕ
  count_decryption_loop [] t = 0
  count_decryption_loop (e ∷ es) t =
      length (queries.decryption_keys e t) + count_decryption_loop es t

  pub count_decryption_entities : KeyRing → ℤ → ℕ
  unfolding count_decryption_loop check_time
  count_decryption_entities ring t = count_decryption_loop ring.entities (check_time t)

  -- The flags `hasExpired` and `hasUnexpired` after the loop over an entity's subkeys.
  pub subkey_flags : List Subkey → ℤ → Bool × Bool → Bool × Bool
  subkey_flags [] now flags = flags
  subkey_flags (sub ∷ subs) now (has_expired, has_unexpired) =
      let (latest, error) = queries.latest_valid sub now in
      let expired = queries.key_expired sub.public_key latest now in
      subkey_flags subs now (has_expired || is_some error || expired, has_unexpired || not expired)

  -- The flags `keyRingHasUnexpiredEntity` and `keyRingHasTotallyExpiredEntity`.
  pub ring_flags : List Entity → ℤ → Bool × Bool → Bool × Bool
  unfolding subkey_flags
  ring_flags [] now flags = flags
  ring_flags (e ∷ es) now (unexpired, totally_expired) =
      let (has_expired, has_unexpired) = subkey_flags e.subkeys now (false, false) in
      ring_flags es now
        (unexpired || has_unexpired, totally_expired || (has_expired && not has_unexpired))

  -- The loop over the rings: the copies kept so far and `hasExpiredEntity`.
  pub filter_loop :
      (KeyRing → Result KeyRing)
      → ℤ
      → List KeyRing
      → List KeyRing × Bool
      → Result (List KeyRing × Bool)
  unfolding ring_flags
  filter_loop copy now [] state = ok state
  filter_loop copy now (ring ∷ rings) (kept, has_expired) =
      let (unexpired, totally) = ring_flags ring.entities now (false, false) in
      let keep = (do c ← copy ring; filter_loop copy now rings (kept ++ c ∷ [], has_expired)) in
      let skip = filter_loop copy now rings (kept, has_expired || totally) in
      if unexpired then keep else skip

  -- FilterExpiredKeys, with the rings that it returns beside its error.
  pub filter_expired_keys :
      (KeyRing → Result KeyRing) → ℤ → List KeyRing → Result (List KeyRing × Option Error)
  unfolding filter_loop expired_error
  filter_expired_keys copy now rings = do
    (kept, has_expired) ← filter_loop copy now rings ([], false)
    ok (kept, expired_error kept has_expired)

module _ (serialize serialize_private : Entity → Result Bytes)
    (read_entity : Bytes → Result Entity) where
  -- `entity.PrivateKey == nil` chooses the serializer.
  pub serialize_by : Option PrivateKey → Entity → Result Bytes
  serialize_by none e = serialize e
  serialize_by (some p) e = serialize_private e

  pub serialize_loop : List Entity → Result Bytes
  unfolding serialize_by
  serialize_loop [] = ok []
  serialize_loop (e ∷ es) = do
    b ← wrap_err "gopenpgp: error in serializing keyring" (serialize_by e.private_key e)
    rest ← serialize_loop es
    ok (b ++ rest)

  -- (*KeyRing).Serialize
  pub serialize_ring : KeyRing → Result Bytes
  unfolding serialize_loop
  serialize_ring ring = serialize_loop ring.entities

  pub copy_loop : List Entity → Result (List Entity)
  unfolding serialize_by
  copy_loop [] = ok []
  copy_loop (e ∷ es) = do
    b ←
        wrap_err "gopenpgp: unable to copy key: error in serializing entity"
          (serialize_by e.private_key e)
    e' ← wrap_err "gopenpgp: unable to copy key: error in reading entity" (read_entity b)
    rest ← copy_loop es
    ok (e' ∷ rest)

  -- (*KeyRing).Copy
  pub copy : KeyRing → Result KeyRing
  unfolding copy_loop
  copy ring = do
    entities ← copy_loop ring.entities
    ok (record { entities = entities; first_key_id = ring.first_key_id })

  pub first_key : KeyRing → Result KeyRing
  unfolding copy
  first_key ring = do
    fail_if (not (is_cons ring.entities)) (Error.new "gopenpgp: No key available in this keyring")
    copy (record empty { entities = take 1 ring.entities })
