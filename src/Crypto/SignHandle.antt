-- ===== src/Crypto/SignHandle.antt =====
-- crypto/sign_handle.go: the signing handle; SignHandle/Builder has its builder. go-crypto's
-- writers are the parameter `SignCodec`, with `W` for writers. The armor headers of every handle are one
-- shared map, `internal.ArmorHeaders`, so it is a state beside the handles.
pub mod Signers
pub mod Builder
mod Tests
use text.Mathlib.Text.{◌==◌ as str_eq}
use gopenpgp.Base.{
  ℕ, Bool, true, false, not, ◌&&◌, ◌||◌, Option, none, some, List, [], ◌∷◌, ◌++◌, map, Bytes,
  String, ℤ, Error, incorrect_utf8, Result, ok, err, panic, ◌>>=◌, ◌>>◌, fail_if, wrap_err, is_none,
  ◌==◌, if◌then◌else◌,
}
use gopenpgp.Internal.Utf8.{Utf8CheckWriteCloser, new_utf8_check_write_closer}
use gopenpgp.Profile.{Custom, sign_config}
use gopenpgp.Crypto.Entity.{Entity, PrivateKey}
use gopenpgp.Crypto.Key.{Key}
use gopenpgp.Crypto.KeyRing.{KeyRing, signing_entities}
use gopenpgp.Crypto.Signature.{SigningContext, get_notation}
use gopenpgp.Crypto.Config.{Config, unix}
use gopenpgp.Crypto.Message.{LiteralMetadata, get_filename, get_time}
use gopenpgp.Crypto.EncryptionHandle.{add_to}

-- The entries of the shared map of armor headers.
abbrev pub Headers : Type 0
Headers = List (String × String)

pub record SignatureHandle : Type 0 where
  pub sign_key_ring : Option KeyRing
  pub sign_context : Option SigningContext
  pub is_utf8 : Bool
  pub detached : Bool
  pub clock : Option ℤ

-- defaultSignatureHandle; its ArmorHeaders are the shared map.
pub default_signature_handle : Option ℤ → SignatureHandle
default_signature_handle clock = record {
  sign_key_ring = none;
  sign_context = none;
  is_utf8 = false;
  detached = false;
  clock = clock;
}

-- (*signatureHandle).validate
unfoldable pub validate : SignatureHandle → Option Error
validate sh =
    if is_none sh.sign_key_ring then some (Error.new "gopenpgp: no signing key provided") else none

-- The loop of armorChecksumRequired.
pub has_old_signer : List Entity → Bool
has_old_signer [] = false
has_old_signer (e ∷ es) = not (e.primary_key.version == 6) || has_old_signer es

-- (*signatureHandle).armorChecksumRequired; the first argument is constants.ArmorChecksumEnabled.
pub armor_checksum_required : Bool → SignatureHandle → Bool
unfolding has_old_signer
armor_checksum_required enabled sh =
    enabled && elim sh.sign_key_ring [ none ↦ true | some ring ↦ has_old_signer ring.entities ]

-- `openpgp.FileHints` and `openpgp.SignParams`; a nil Hints is `none`.
pub record Hints : Type 0 where
  pub file_name : String
  pub is_utf8 : Bool
  pub mod_time : ℤ

pub record SignParams : Type 0 where
  pub hints : Option Hints
  pub text_sig : Bool
  pub outside_sig : Option Bytes
  pub config : Config

-- `if context != nil { config.SignatureNotations = append(…) }`
unfoldable pub add_notation : Option SigningContext → Config → Config
add_notation none config = config
add_notation (some context) config = record config {
  signature_notations = config.signature_notations ++ get_notation context ∷ [];
}

-- `armor.EncodeWithChecksumOption`, `openpgp.SignWithParams`, `openpgp.DetachSignWriter`; the bytes that
-- `clearsign` writes for a message, and what go-crypto answers for a signing key of an entity.
pub record SignCodec (W : Type 0) : Type 0 where
  pub armor_writer : W → String → Headers → Bool → Result W
  pub sign_with_params : W → List Entity → SignParams → Result W
  pub detach_sign_writer : W → List Entity → SignParams → Result W
  pub encode_cleartext : List PrivateKey → Config → Headers → Bytes → Result Bytes
  pub signing_key : Entity → Config → Option (Option PrivateKey)
  pub is_valid_utf8 : Bytes → Bool

-- A message writer as it is, or in an armoredWriteCloser with the armor writer.
pub data MessageWriter (W : Type 0) : Type 0 where
  plain : W → MessageWriter W
  armored : W → W → MessageWriter W

-- `openpgp.NewCanonicalTextWriteCloser` around a writer.
pub data Canonical (W : Type 0) : Type 0 where
  canonical : MessageWriter W → Canonical W

pub data OutputWriter (W : Type 0) : Type 0 where
  unchecked : MessageWriter W → OutputWriter W
  checked : Utf8CheckWriteCloser (Canonical W) → OutputWriter W

-- The wrapping of a handle with IsUTF8.
pub check_if : {W : Type 0} → Bool → MessageWriter W → OutputWriter W
check_if false w = OutputWriter.unchecked w
check_if true w = OutputWriter.checked (new_utf8_check_write_closer (Canonical.canonical w))

-- The signing key of an entity, if there is one with a private key that is not locked.
pub usable_key : Option (Option PrivateKey) → Result PrivateKey
usable_key none = err (Error.new "gopenpgp: no signing key found for entity")
usable_key (some none) = err (Error.new "gopenpgp: no signing key found for entity")
usable_key (some (some p)) =
    if p.encrypted then err (Error.new "gopenpgp: no signing key found for entity") else ok p

module _ {W : Type 0} (codec : SignCodec W) where
  -- signMessageDetachedWriter
  unfoldable pub sign_message_detached_writer :
      Option KeyRing → W → Bool → Option SigningContext → Option ℤ → Config → Result W
  sign_message_detached_writer ring output is_utf8 context clock config = do
    signers ← signing_entities ring
    wrap_err "gopenpgp: error in signing" (
        codec.detach_sign_writer output signers (record {
          hints = none;
          text_sig = is_utf8;
          outside_sig = none;
          config = add_notation context (record config { time = some (unix clock) });
        }))

  -- (*signatureHandle).signingWriter
  pub signing_writer_to : Custom → SignatureHandle → W → Option LiteralMetadata → Result W
  signing_writer_to profile sh output literal = do
    signers ← signing_entities sh.sign_key_ring
    codec.sign_with_params output signers (record {
      hints = some (record {
        file_name = get_filename literal;
        is_utf8 = sh.is_utf8;
        mod_time = get_time literal;
      });
      text_sig = sh.is_utf8;
      outside_sig = none;
      config =
          add_notation sh.sign_context
            (record (sign_config profile) { time = some (unix sh.clock) });
    })

  -- The writer of the signature that SigningWriter sets up on its output.
  pub signature_writer : Custom → SignatureHandle → W → Result W
  unfolding signing_writer_to
  signature_writer profile sh output =
      if sh.detached
      then sign_message_detached_writer sh.sign_key_ring output sh.is_utf8 sh.sign_context sh.clock
          (sign_config profile)
      else signing_writer_to profile sh output none

  -- (*signatureHandle).SigningWriter; whether the output is armored is what the encoding says.
  pub signing_writer :
      Custom → Bool → SignatureHandle → Headers → W → Bool → Result (OutputWriter W)
  unfolding signature_writer armor_checksum_required check_if
  signing_writer profile enabled sh headers output armor_output = elim armor_output [
    | false ↦
        signature_writer profile sh output >>= λ w. ok (check_if sh.is_utf8 (MessageWriter.plain w))
    | true ↦ do
      armor_w ←
          codec.armor_writer output (if sh.detached then "PGP SIGNATURE" else "PGP MESSAGE") headers
            (armor_checksum_required enabled sh)
      w ← signature_writer profile sh armor_w
      ok (check_if sh.is_utf8 (MessageWriter.armored armor_w w))
  ]

  -- The loop of signCleartext over the entities.
  pub cleartext_keys : Config → List Entity → Result (List PrivateKey)
  unfolding usable_key
  cleartext_keys config [] = ok []
  cleartext_keys config (e ∷ es) = do
    p ← usable_key (codec.signing_key e config)
    ps ← cleartext_keys config es
    ok (p ∷ ps)

  -- What signCleartext does with a message that is UTF-8 or not; a nil key ring is dereferenced.
  pub signed_cleartext : Config → Headers → Bytes → Bool → Option KeyRing → Result Bytes
  unfolding cleartext_keys
  signed_cleartext config headers message false ring = err incorrect_utf8
  signed_cleartext config headers message true none = panic
  signed_cleartext config headers message true (some ring) =
      cleartext_keys config ring.entities >>= λ keys.
      codec.encode_cleartext keys config headers message

  -- (*signatureHandle).signCleartext
  pub sign_cleartext : Custom → SignatureHandle → Headers → Bytes → Result Bytes
  unfolding signed_cleartext
  sign_cleartext profile sh headers message =
      signed_cleartext (record (sign_config profile) { time = some (unix sh.clock) }) headers
        message (codec.is_valid_utf8 message) sh.sign_key_ring
