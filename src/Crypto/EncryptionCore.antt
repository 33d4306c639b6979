-- ===== src/Crypto/EncryptionCore.antt =====
-- crypto/encryption_core.go: the streams that an encryption handle sets up. go-crypto's writers are the
-- parameter `EncryptCodec`, with `W` for writers; the key packets that the repository writes itself are
-- bytes. The split writers only name their parts.
pub mod Detached
pub mod Stream
mod Tests
use gopenpgp.Base.{
  ℕ, Bool, true, false, not, ◌&&◌, ◌||◌, Option, none, some, List, [], ◌∷◌, ◌++◌, Bytes, String, ℤ,
  pos, negsuc, Error, Result, ok, err, panic, ◌>>=◌, ◌>>◌, fail_if, wrap_err, deref, is_none,
  is_some, is_cons, ◌==◌, if◌then◌else◌,
}
use gopenpgp.Profile.{Custom, encryption_config, compression_config}
use gopenpgp.Crypto.Entity.{Entity}
use gopenpgp.Crypto.KeyRing.{KeyRing, get_entities, signing_entities}
use gopenpgp.Crypto.SessionKey.{SessionKey, get_cipher_func, generate_session_key}
use gopenpgp.Crypto.SessionPackets.{
  SessionCodec, encrypt_session_key_to_writer, encrypt_session_key_with_password,
}
use gopenpgp.Crypto.Config.{Config, zero_config, unix, to_uint32}
use gopenpgp.Crypto.Message.{LiteralMetadata, get_filename, get_is_utf8, get_time}
use gopenpgp.Crypto.SignHandle.{
  Hints, SignParams, SignCodec, add_notation, sign_message_detached_writer,
}
use gopenpgp.Crypto.EncryptionHandle.{EncryptionHandle}

-- `openpgp.EncryptParams`; the writer of the key packets is given beside it. A nil slice is `none`.
pub record EncryptParams : Type 0 where
  pub signers : Option (List Entity)
  pub hints : Hints
  pub session_key : Option Bytes
  pub passwords : List Bytes
  pub config : Config
  pub text_sig : Bool
  pub outside_sig : Option Bytes
  pub encryption_time : Option (Option ℤ)

-- The functions of go-crypto, and what its configuration answers: `Cipher()`, the mode of `AEAD()`.
pub record EncryptCodec (W : Type 0) : Type 0 where
  pub cipher : Config → ℕ
  pub aead_mode : Config → ℕ
  pub encrypt_with_params : W → W → List Entity → List Entity → EncryptParams → Result W
  pub symmetrically_encrypt_with_params : Bytes → W → W → EncryptParams → Result W
  pub serialize_symmetrically_encrypted : W → ℕ → Bool → ℕ → Bytes → Config → Result W
  pub serialize_compressed : W → ℕ → Option ℕ → Result W
  pub serialize_literal : W → Bool → String → ℕ → Result W

-- The values of constants/compression.go and of go-crypto's algorithms.
abbrev pub default_compression : ℕ
default_compression = 1

abbrev pub zip_compression : ℕ
zip_compression = 2

abbrev pub zlib_compression : ℕ
zlib_compression = 3

abbrev pub compression_zip : ℕ
compression_zip = 1

abbrev pub compression_zlib : ℕ
compression_zlib = 2

-- (*encryptionHandle).selectCompression
pub select_compression : Custom → EncryptionHandle → Config
select_compression profile eh =
    if eh.compression == default_compression
    then compression_config profile
    else if eh.compression == zip_compression
    then record zero_config {
      default_compression_algo = compression_zip;
      compression_config = some 6;
    }
    else if eh.compression == zlib_compression
    then record zero_config {
      default_compression_algo = compression_zlib;
      compression_config = some 6;
    }
    else zero_config

-- What prepareEncryptAndSign returns; nil signers are `none`.
pub record Prepared : Type 0 where
  pub hints : Hints
  pub config : Config
  pub signers : Option (List Entity)

-- `eh.SignKeyRing != nil && len(eh.SignKeyRing.entities) > 0`
pub signers_of : Option KeyRing → Result (Option (List Entity))
signers_of none = ok none
signers_of (some ring) =
    if is_cons ring.entities then (signing_entities (some ring) >>= λ es. ok (some es)) else ok none

-- (*encryptionHandle).prepareEncryptAndSign
pub prepare_encrypt_and_sign : Custom → EncryptionHandle → Option LiteralMetadata → Result Prepared
unfolding select_compression signers_of
prepare_encrypt_and_sign profile eh metadata = do
  signers ← signers_of eh.sign_key_ring
  ok (record {
    hints = record {
      file_name = get_filename metadata;
      is_utf8 = eh.is_utf8;
      mod_time = get_time metadata;
    };
    config = add_notation eh.signing_context (record (encryption_config profile) {
      time = some (unix eh.clock);
      default_compression_algo = (select_compression profile eh).default_compression_algo;
      compression_config = (select_compression profile eh).compression_config;
    });
    signers = signers;
  })

-- `eh.SessionKey.Key` of a session key that may be nil.
pub session_key_bytes : Option SessionKey → Option Bytes
session_key_bytes none = none
session_key_bytes (some sk) = some sk.key

-- The writer of the plaintext: one writer, or a signAndEncryptWriteCloser.
pub data PlainWriter (W : Type 0) : Type 0 where
  single : W → PlainWriter W
  sign_and_encrypt : W → W → PlainWriter W

-- The encryptSignDetachedWriter; the last field is the writer of a signature that is encrypted, or not.
pub record DetachedWriter (W : Type 0) : Type 0 where
  pub pt_to_ciphertext : PlainWriter W
  pub pt_to_enc_sig : W
  pub sig_to_ciphertext : PlainWriter W

module _ {W : Type 0} (codec : EncryptCodec W) (sign : SignCodec W) (profile : Custom) where
  -- (*encryptionHandle).encryptStream
  pub encrypt_stream : EncryptionHandle → W → W → Option LiteralMetadata → Result W
  unfolding session_key_bytes
  encrypt_stream eh key_writer data_writer metadata = do
    p ← prepare_encrypt_and_sign profile eh metadata
    wrap_err "gopenpgp: error in encrypting asymmetrically" (
        codec.encrypt_with_params key_writer data_writer (get_entities eh.recipients)
          (get_entities eh.hidden_recipients)
          (record {
            signers = p.signers;
            hints = p.hints;
            session_key = session_key_bytes eh.session_key;
            passwords = elim eh.password [ none ↦ [] | some password ↦ password ∷ [] ];
            config = p.config;
            text_sig = eh.is_utf8;
            outside_sig = eh.external_signature;
            encryption_time = eh.encryption_time_override;
          }))

  -- (*encryptionHandle).encryptStreamWithPassword; a nil password is empty.
  pub encrypt_stream_with_password : EncryptionHandle → W → W → Option LiteralMetadata → Result W
  unfolding session_key_bytes
  encrypt_stream_with_password eh key_writer data_writer metadata = do
    p ← prepare_encrypt_and_sign profile eh metadata
    wrap_err "gopenpgp: error in encrypting asymmetrically" (
        codec.symmetrically_encrypt_with_params (elim eh.password [ none ↦ [] | some b ↦ b ])
          key_writer data_writer
          (record {
            signers = p.signers;
            hints = p.hints;
            session_key = session_key_bytes eh.session_key;
            passwords = [];
            config = p.config;
            text_sig = eh.is_utf8;
            outside_sig = eh.external_signature;
            encryption_time = none;
          }))

  -- The cipher of the session key, unless it is a v6 key.
  pub session_config : SessionKey → Config → Result Config
  session_config sk config =
      if sk.v6
      then ok config
      else (wrap_err "gopenpgp: unable to encrypt with session key" (get_cipher_func sk) >>= λ cf.
          ok (record config { default_cipher = cf }))

  -- `if algo := config.Compression(); algo != packet.CompressionNone`
  pub compress : Config → W → Result W
  compress config w =
      if config.default_compression_algo == 0
      then ok w
      else wrap_err "gopenpgp: error in compression"
          (codec.serialize_compressed w config.default_compression_algo config.compression_config)

  -- The inner layer: a signing writer, or a literal packet.
  pub literal_or_signed :
      EncryptionHandle → Option LiteralMetadata → Prepared → Config → W → Result (PlainWriter W)
  literal_or_signed eh metadata p config w = elim p.signers [
    | some signers ↦ do
      sign_writer ← wrap_err "gopenpgp: unable to sign" (
          sign.sign_with_params w signers (record {
            hints = some p.hints;
            text_sig = eh.is_utf8;
            outside_sig = eh.external_signature;
            config = config;
          }))
      ok (PlainWriter.sign_and_encrypt sign_writer w)
    | none ↦ do
      literal ← wrap_err "gopenpgp: unable to serialize" (
          codec.serialize_literal w (not (get_is_utf8 metadata)) (get_filename metadata)
            (to_uint32 (get_time metadata)))
      ok (PlainWriter.single literal)
  ]

  -- (*encryptionHandle).encryptStreamWithSessionKey and the helper that it calls; a nil session key is
  -- dereferenced.
  pub encrypt_stream_with_session_key :
      EncryptionHandle → W → Option LiteralMetadata → Result (PlainWriter W)
  unfolding session_config compress literal_or_signed
  encrypt_stream_with_session_key eh data_writer metadata = do
    p ← prepare_encrypt_and_sign profile eh metadata
    sk ← deref eh.session_key
    config ← session_config sk p.config
    w ← wrap_err "gopenpgp: unable to encrypt" (
        codec.serialize_symmetrically_encrypted data_writer (codec.cipher config)
          (is_some config.aead_config) (codec.aead_mode config) sk.key config)
    w' ← compress config w
    literal_or_signed eh metadata p config w'
