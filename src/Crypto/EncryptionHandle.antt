-- ===== src/Crypto/EncryptionHandle.antt =====
-- crypto/encryption_handle.go and crypto/encryption_handle_builder.go: the encryption handle, its
-- builder, and which way of encrypting a handle chooses. A clock is the time that it gives, `none` for
-- the zero time. What the streams of crypto/encryption_core.go write is not part of it.
pub mod Routes
pub mod Builder
mod Tests
use gopenpgp.Base.{
  ℕ, Bool, true, false, not, ◌&&◌, ◌||◌, Option, none, some, List, [], ◌∷◌, Bytes, String, ℤ, pos,
  is_zero, Error, Result, ok, err, panic, ◌>>=◌, ◌>>◌, fail_if, ltb, ◌==◌, is_none, is_some,
  if◌then◌else◌,
}
use gopenpgp.Crypto.Key.{Key}
use gopenpgp.Crypto.KeyRing.{KeyRing, add_key, new_key_ring, count_entities}
use gopenpgp.Crypto.SessionKey.{SessionKey}
use gopenpgp.Crypto.Signature.{SigningContext}

pub record EncryptionHandle : Type 0 where
  pub recipients : Option KeyRing
  pub hidden_recipients : Option KeyRing
  pub session_key : Option SessionKey
  pub password : Option Bytes
  pub sign_key_ring : Option KeyRing
  pub signing_context : Option SigningContext
  pub compression : ℕ
  pub detached_signature : Bool
  pub plain_detached_signature : Bool
  pub is_utf8 : Bool
  pub external_signature : Option Bytes
  pub encryption_time_override : Option (Option ℤ)
  pub clock : Option ℤ

-- defaultEncryptionHandle
pub default_encryption_handle : Option ℤ → EncryptionHandle
default_encryption_handle clock = record {
  recipients = none;
  hidden_recipients = none;
  session_key = none;
  password = none;
  sign_key_ring = none;
  signing_context = none;
  compression = 0;
  detached_signature = false;
  plain_detached_signature = false;
  is_utf8 = false;
  external_signature = none;
  encryption_time_override = none;
  clock = clock;
}

-- (*encryptionHandle).validate
unfoldable pub validate : EncryptionHandle → Option Error
validate eh =
    if is_none eh.recipients
      && (is_none eh.hidden_recipients && (is_none eh.password && is_none eh.session_key))
    then some (Error.new "gopenpgp: no encryption key material provided")
    else if is_none eh.sign_key_ring && is_some eh.signing_context
    then some (Error.new "gopenpgp: no signing key but signing context provided")
    else if is_none eh.sign_key_ring && eh.detached_signature
    then some (Error.new "gopenpgp: no signing key provided for detached signature")
    else none

-- The stream that encryptingWriters makes.
pub data Route : Type 0 where
  to_recipients : Route
  with_password : Route
  with_session_key : Route

-- Where the key packets go.
pub data KeysTo : Type 0 where
  separate : KeysTo
  to_data : KeysTo
  to_data_and_signature : KeysTo

-- What encryptingWriters sets up: `detached` is whether the detached signature, if one is made, is encrypted.
pub record Plan : Type 0 where
  pub route : Route
  pub detached : Option Bool
  pub keys_to : KeysTo
  pub armored : Bool
  pub checks_utf8 : Bool

-- The errors of handleArmor: `armor_error` is what go-crypto's encoder answers for the data and for the signature.
pub handle_armor : EncryptionHandle → Bool → Option Error → Option Error → Option Error
handle_armor eh has_keys data_error signature_error = elim data_error [
  | some e ↦ some e
  | none ↦
      if is_some signature_error && (eh.detached_signature || eh.plain_detached_signature)
      then signature_error
      else if has_keys
      then some (Error.new "gopenpgp: armor is not allowed if key packets are written separately")
      else none
]

-- The switch of encryptingWriters.
pub choose_route : EncryptionHandle → Result Route
choose_route eh =
    if ltb 0 (count_entities eh.recipients) || ltb 0 (count_entities eh.hidden_recipients)
    then ok to_recipients
    else if is_some eh.password
    then ok with_password
    else if is_some eh.session_key
    then ok with_session_key
    else err (Error.new "gopenpgp: no encryption key ring, session key, or password provided")

-- The writer of the key packets.
pub keys_target : EncryptionHandle → Bool → KeysTo
keys_target eh has_keys =
    if has_keys then separate else if eh.detached_signature then to_data_and_signature else to_data

-- `if err != nil { return nil, err }`
pub stop_at : Option Error → Result (Unit {0})
stop_at none = ok tt
stop_at (some e) = err e

-- (*encryptionHandle).encryptingWriters up to the streams.
pub encrypting_writers :
    EncryptionHandle → Bool → Bool → Bool → Option Error → Option Error → Result Plan
encrypting_writers eh has_keys has_signature_writer armor_output data_error signature_error = do
  stop_at (validate eh)
  let detached = eh.detached_signature || eh.plain_detached_signature
  fail_if (detached && not has_signature_writer)
      (Error.new "gopenpgp: no output provided for the detached signature")
  stop_at (if armor_output then handle_armor eh has_keys data_error signature_error else none)
  route ← choose_route eh
  ok (record {
    route = route;
    detached = if detached then some eh.detached_signature else none;
    keys_to = keys_target eh has_keys;
    armored = armor_output;
    checks_utf8 = eh.is_utf8;
  })

-- armorChecksumRequired; the last argument is, for each recipient and then each hidden one, whether its
-- self-signature, if there is one, announces SEIPDv2.
pub needs_checksum : List (Option Bool) → Bool
needs_checksum [] = false
needs_checksum (none ∷ rest) = true
needs_checksum (some seipd_v2 ∷ rest) = not seipd_v2 || needs_checksum rest

pub armor_checksum_required : Bool → Bool → List (Option Bool) → Bool
armor_checksum_required checksum_enabled has_aead recipients =
    checksum_enabled && (not has_aead || needs_checksum recipients)

pub record EncryptionHandleBuilder : Type 0 where
  pub handle : EncryptionHandle
  pub default_clock : Option ℤ
  pub error : Option Error

-- newEncryptionHandleBuilder
pub new_encryption_handle_builder : Option ℤ → EncryptionHandleBuilder
new_encryption_handle_builder clock = record {
  handle = default_encryption_handle clock;
  default_clock = clock;
  error = none;
}

-- `NewKeyRing(key)` for a nil ring, `AddKey(key)` otherwise: the ring and the error.
unfoldable pub add_to : Option KeyRing → Key → KeyRing × Option Error
add_to none key = new_key_ring (some key)
add_to (some ring) key = add_key ring key

-- The builder's methods that change it, with their arguments. A key is not nil; a negative argument
-- of CompressWith is no known one and changes nothing, as one above 3.
pub data Method : Type 0 where
  recipient : Key → Method
  recipients : Option KeyRing → Method
  hidden_recipient : Key → Method
  hidden_recipients : Option KeyRing → Method
  signing_key : Key → Method
  signing_keys : Option KeyRing → Method
  signing_context : Option SigningContext → Method
  session_key : Option SessionKey → Method
  password : Option Bytes → Method
  compress : Method
  compress_with : ℕ → Method
  utf8 : Method
  detached_signature : Method
  plain_detached_signature : Method
  include_external_signature : Option Bytes → Method
  encryption_time : ℤ → Method
  sign_time : ℤ → Method

-- A change of the handle alone.
abbrev pub set_handle : EncryptionHandleBuilder → EncryptionHandle → EncryptionHandleBuilder
set_handle ehb eh = record ehb { handle = eh }

pub apply : EncryptionHandleBuilder → Method → EncryptionHandleBuilder
apply ehb (recipient key) =
    let (ring, failure) = add_to ehb.handle.recipients key in
    record ehb { handle = record ehb.handle { recipients = some ring }; error = failure }
apply ehb (recipients ring) = set_handle ehb (record ehb.handle { recipients = ring })
apply ehb (hidden_recipient key) =
    let (ring, failure) = add_to ehb.handle.hidden_recipients key in
    record ehb { handle = record ehb.handle { hidden_recipients = some ring }; error = failure }
apply ehb (hidden_recipients ring) = set_handle ehb (record ehb.handle { hidden_recipients = ring })
apply ehb (signing_key key) =
    let (ring, failure) = add_to ehb.handle.sign_key_ring key in
    record ehb { handle = record ehb.handle { sign_key_ring = some ring }; error = failure }
apply ehb (signing_keys ring) = set_handle ehb (record ehb.handle { sign_key_ring = ring })
apply ehb (signing_context context) =
    set_handle ehb (record ehb.handle { signing_context = context })
apply ehb (session_key sk) = set_handle ehb (record ehb.handle { session_key = sk })
apply ehb (password p) = set_handle ehb (record ehb.handle { password = p })
apply ehb compress = set_handle ehb (record ehb.handle { compression = 1 })
apply ehb (compress_with config) =
    if ltb config 4 then set_handle ehb (record ehb.handle { compression = config }) else ehb
apply ehb utf8 = set_handle ehb (record ehb.handle { is_utf8 = true })
apply ehb detached_signature = set_handle ehb (record ehb.handle { detached_signature = true })
apply ehb plain_detached_signature =
    set_handle ehb (record ehb.handle { plain_detached_signature = true })
apply ehb (include_external_signature sig) =
    set_handle ehb (record ehb.handle { external_signature = sig })
apply ehb (encryption_time t) =
    set_handle ehb
      (record ehb.handle { encryption_time_override = some (if is_zero t then none else some t) })
apply ehb (sign_time t) = set_handle ehb (record ehb.handle { clock = some t })

pub apply_all : EncryptionHandleBuilder → List Method → EncryptionHandleBuilder
apply_all ehb [] = ehb
apply_all ehb (m ∷ ms) = apply_all (apply ehb m) ms

-- (*EncryptionHandleBuilder).New: the handle or the error, and the builder afterwards.
pub build : EncryptionHandleBuilder → Result EncryptionHandle × EncryptionHandleBuilder
build ehb = elim ehb.error [
  | some e ↦ (err e, ehb)
  | none ↦ elim (validate ehb.handle) [
    | some e ↦ (err e, record ehb { error = some e })
    | none ↦ (ok ehb.handle, record ehb { handle = default_encryption_handle ehb.default_clock })
  ]
]
