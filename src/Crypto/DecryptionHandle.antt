-- ===== src/Crypto/DecryptionHandle.antt =====
-- crypto/decryption_handle.go and crypto/decryption_handle_builder.go: the decryption handle, its builder,
-- and the order in which a handle tries what it has. One try of crypto/decryption_core.go on the rest
-- of the input is a parameter.
pub mod Attempts
mod Tests
use gopenpgp.Base.{
  ℕ, Bool, true, false, not, ◌&&◌, ◌||◌, Option, none, some, List, [], ◌∷◌, Bytes, String, ℤ, Error,
  Result, ok, err, panic, ◌>>=◌, ◌>>◌, fail_if, is_none, is_some, is_cons, if◌then◌else◌,
}
use gopenpgp.Crypto.Key.{Key}
use gopenpgp.Crypto.KeyRing.{KeyRing, add_key, new_key_ring}
use gopenpgp.Crypto.SessionKey.{SessionKey}
use gopenpgp.Crypto.SessionPackets.{
  SessionCodec, decrypt_session_key, decrypt_session_key_with_password,
}
use gopenpgp.Crypto.Signature.{VerificationContext}
use gopenpgp.Crypto.EncryptionHandle.{add_to}

pub record DecryptionHandle : Type 0 where
  pub decryption_key_ring : Option KeyRing
  pub session_keys : List SessionKey
  pub passwords : List Bytes
  pub verify_key_ring : Option KeyRing
  pub verification_context : Option VerificationContext
  pub plain_detached_signature : Bool
  pub disable_intended_recipients : Bool
  pub disable_verify_time_check : Bool
  pub disable_strict_message_parsing : Bool
  pub disable_automatic_text_sanitize : Bool
  pub insecure_disable_unauthenticated_messages_check : Bool
  pub insecure_allow_decryption_with_signing_keys : Bool
  pub retrieve_session_key : Bool
  pub is_utf8 : Bool
  pub clock : Option ℤ

-- defaultDecryptionHandle
pub default_decryption_handle : Option ℤ → DecryptionHandle
default_decryption_handle clock = record {
  decryption_key_ring = none;
  session_keys = [];
  passwords = [];
  verify_key_ring = none;
  verification_context = none;
  plain_detached_signature = false;
  disable_intended_recipients = false;
  disable_verify_time_check = false;
  disable_strict_message_parsing = false;
  disable_automatic_text_sanitize = false;
  insecure_disable_unauthenticated_messages_check = false;
  insecure_allow_decryption_with_signing_keys = false;
  retrieve_session_key = false;
  is_utf8 = false;
  clock = clock;
}

-- (*decryptionHandle).validate
pub validate : DecryptionHandle → Option Error
validate dh =
    if is_none dh.decryption_key_ring
      && (not (is_cons dh.passwords) && not (is_cons dh.session_keys))
    then some (Error.new "gopenpgp: no decryption key material provided")
    else none

-- What decryptingReader tries.
pub data Attempt : Type 0 where
  session_keys : Attempt
  key_ring : Attempt
  passwords : Attempt

-- `plainMessageReader, err`, and whether something was tried.
abbrev pub Tried : Type 0 → Type 0
Tried R = Option (Result R)

-- `!decryptionTried || err != nil`
pub is_open : {R : Type 0} → Tried R → Bool
is_open none = true
is_open (some (ok r)) = false
is_open (some (err e)) = true
is_open (some panic) = false

module _ {R S : Type 0} (attempt : Attempt → S → Result R × S) where
  -- One of the three ifs: the attempt is made if the handle has the material and none has succeeded.
  pub try_next : Bool → Attempt → Tried R × S → Tried R × S
  try_next has_material a (tried, s) =
      let (answer, s') = attempt a s in
      if is_open tried && has_material then (some answer, s') else (tried, s)

  -- decryptingReader behind the armor, up to the sanitizing of the reader.
  pub try_all : DecryptionHandle → S → Tried R × S
  try_all dh s = try_next (is_cons dh.passwords) passwords (
      try_next (is_some dh.decryption_key_ring) key_ring
        (try_next (is_cons dh.session_keys) session_keys (none, s)))

  pub answered : Tried R → Result R
  answered none =
      err (Error.new "gopenpgp: no decryption key ring, session key, or password provided")
  answered (some r) = r

  -- `err = dh.validate(); if err != nil { return nil, err }`
  pub decrypting_reader : DecryptionHandle → S → Result R × S
  decrypting_reader dh s =
      let (tried, s') = try_all dh s in
      elim (validate dh) [ some e ↦ (err e, s) | none ↦ (answered tried, s') ]

-- The checks of the type of an armored detached signature.
pub check_signature_type : Bool → Bool → Bool → Option Error
check_signature_type is_plain is_signature_block is_message_block =
    if is_plain && not is_signature_block
    then some (Error.new "gopenpgp: detached signature is not plaintext")
    else if not is_plain && not is_message_block
    then some (Error.new "gopenpgp: encrypted detached signature is not an encrypted pgp message")
    else none

-- The loop of DecryptSessionKey over the passwords, with the last error.
pub try_passwords : SessionCodec → Bytes → Error → List Bytes → Result SessionKey
try_passwords codec key_packets last [] = err last
try_passwords codec key_packets last (p ∷ ps) =
    elim (decrypt_session_key_with_password codec key_packets (some p)) [
      | ok sk ↦ ok sk
      | err e ↦ try_passwords codec key_packets e ps
      | panic ↦ panic
    ]

-- (*decryptionHandle).DecryptSessionKey; the codec looks up keys in the handle's key ring.
pub decrypt_session_key_with : SessionCodec → DecryptionHandle → Bytes → Result SessionKey
decrypt_session_key_with codec dh key_packets =
    let no_material = Error.new "gopenpgp: no decryption key or password provided" in
    if is_cons dh.passwords
    then try_passwords codec key_packets no_material dh.passwords
    else if is_some dh.decryption_key_ring
    then decrypt_session_key codec key_packets
    else err no_material

pub record DecryptionHandleBuilder : Type 0 where
  pub handle : DecryptionHandle
  pub default_clock : Option ℤ
  pub error : Option Error

-- newDecryptionHandleBuilder
pub new_decryption_handle_builder : Option ℤ → DecryptionHandleBuilder
new_decryption_handle_builder clock = record {
  handle = default_decryption_handle clock;
  default_clock = clock;
  error = none;
}

-- The builder's methods that change it; `set_flag` is one of the methods that set a flag of the handle.
pub data Flag : Type 0 where
  utf8 : Flag
  plain_detached_signature : Flag
  disable_verify_time_check : Flag
  disable_strict_message_parsing : Flag
  disable_intended_recipients : Flag
  disable_automatic_text_sanitize : Flag
  insecure_disable_unauthenticated_messages_check : Flag
  insecure_allow_decryption_with_signing_keys : Flag
  retrieve_session_key : Flag

pub data DecryptionMethod : Type 0 where
  decryption_keys : Option KeyRing → DecryptionMethod
  decryption_key : Key → DecryptionMethod
  set_session_keys : List SessionKey → DecryptionMethod
  set_passwords : List Bytes → DecryptionMethod
  verification_keys : Option KeyRing → DecryptionMethod
  verification_key : Key → DecryptionMethod
  set_verification_context : Option VerificationContext → DecryptionMethod
  verify_time : ℤ → DecryptionMethod
  set_flag : Flag → DecryptionMethod

pub with_flag : DecryptionHandle → Flag → DecryptionHandle
with_flag dh utf8 = record dh { is_utf8 = true }
with_flag dh plain_detached_signature = record dh { plain_detached_signature = true }
with_flag dh disable_verify_time_check = record dh { disable_verify_time_check = true }
with_flag dh disable_strict_message_parsing = record dh { disable_strict_message_parsing = true }
with_flag dh disable_intended_recipients = record dh { disable_intended_recipients = true }
with_flag dh disable_automatic_text_sanitize = record dh { disable_automatic_text_sanitize = true }
with_flag dh insecure_disable_unauthenticated_messages_check = record dh {
  insecure_disable_unauthenticated_messages_check = true;
}
with_flag dh insecure_allow_decryption_with_signing_keys = record dh {
  insecure_allow_decryption_with_signing_keys = true;
}
with_flag dh retrieve_session_key = record dh { retrieve_session_key = true }

pub apply : DecryptionHandleBuilder → DecryptionMethod → DecryptionHandleBuilder
apply dpb (decryption_keys ring) = record dpb {
  handle = record dpb.handle { decryption_key_ring = ring };
}
apply dpb (decryption_key key) =
    let (ring, failure) = add_to dpb.handle.decryption_key_ring key in
    record dpb { handle = record dpb.handle { decryption_key_ring = some ring }; error = failure }
apply dpb (set_session_keys keys) = record dpb {
  handle = record dpb.handle { session_keys = keys };
}
apply dpb (set_passwords ps) = record dpb { handle = record dpb.handle { passwords = ps } }
apply dpb (verification_keys ring) = record dpb {
  handle = record dpb.handle { verify_key_ring = ring };
}
apply dpb (verification_key key) =
    let (ring, failure) = add_to dpb.handle.verify_key_ring key in
    record dpb { handle = record dpb.handle { verify_key_ring = some ring }; error = failure }
apply dpb (set_verification_context context) = record dpb {
  handle = record dpb.handle { verification_context = context };
}
apply dpb (verify_time t) = record dpb { handle = record dpb.handle { clock = some t } }
apply dpb (set_flag flag) = record dpb { handle = with_flag dpb.handle flag }

-- (*DecryptionHandleBuilder).New
pub build : DecryptionHandleBuilder → Result DecryptionHandle × DecryptionHandleBuilder
build dpb = elim dpb.error [
  | some e ↦ (err e, dpb)
  | none ↦ elim (validate dpb.handle) [
    | some e ↦ (err e, record dpb { error = some e })
    | none ↦ (ok dpb.handle, record dpb { handle = default_decryption_handle dpb.default_clock })
  ]
]
