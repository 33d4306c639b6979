-- ===== src/Crypto/VerifyHandle.antt =====
-- crypto/verify_handle.go and crypto/verify_handle_builder.go: the verification handle and its builder.
-- go-crypto's readers are the parameter `VerifyCodec`: `S` are the states of an input, `B` those of the
-- body of an inline message and `V` those of data whose detached signature is verified.
pub mod Builder
pub mod Cleartext
pub mod Inline
mod Tests
use gopenpgp.Base.{
  ℕ, Bool, true, false, not, ◌&&◌, Option, none, some, List, [], ◌∷◌, Bytes, String, ℤ, Error,
  Result, ok, err, panic, ◌>>=◌, ◌>>◌, wrap_err, is_none, ◌==◌, if◌then◌else◌,
}
use gopenpgp.Internal.Reader.{Read}
use gopenpgp.Internal.Sanitize.{SanitizeReader}
use gopenpgp.Internal.SanitizeUtf8.{SanitizeUtf8Reader, new_text_reader}
use gopenpgp.Profile.{Custom, sign_config}
use gopenpgp.Crypto.Entity.{Entity}
use gopenpgp.Crypto.Key.{Key}
use gopenpgp.Crypto.KeyLife.{armor, auto}
use gopenpgp.Crypto.KeyRing.{KeyRing, get_entities}
use gopenpgp.Crypto.Config.{Config, unix, know_context}
use gopenpgp.Crypto.Message.{LiteralMetadata}
use gopenpgp.Crypto.Signature.{VerificationContext, VerifyResult, MessageDetails}
use gopenpgp.Crypto.VerifyReader.{
  VerifyDataReader, VerifiedDataResult, get_metadata, read_all, verify_signature, verify_discarded,
}
use gopenpgp.Crypto.Reading.{Details, Sanitized, direct, sanitizing, details_reader}
use gopenpgp.Crypto.DetachedReader.{verifying_detached_reader}
use gopenpgp.Crypto.EncryptionHandle.{add_to}

pub record VerifyHandle : Type 0 where
  pub verify_key_ring : Option KeyRing
  pub verification_context : Option VerificationContext
  pub disable_verify_time_check : Bool
  pub disable_strict_message_parsing : Bool
  pub disable_automatic_text_sanitize : Bool
  pub is_utf8 : Bool
  pub clock : Option ℤ

-- defaultVerifyHandle
pub default_verify_handle : Option ℤ → VerifyHandle
default_verify_handle clock = record {
  verify_key_ring = none;
  verification_context = none;
  disable_verify_time_check = false;
  disable_strict_message_parsing = false;
  disable_automatic_text_sanitize = false;
  is_utf8 = false;
  clock = clock;
}

-- (*verifyHandle).validate
unfoldable pub validate : VerifyHandle → Option Error
validate vh =
    if is_none vh.verify_key_ring
    then some (Error.new "gopenpgp: no verification key provided")
    else none

-- Detached data as they are, or behind `openpgp.NewCanonicalTextReader`.
pub data DataReader (S : Type 0) : Type 0 where
  raw : S → DataReader S
  canonical_text : S → DataReader S

-- `openpgp.ReadMessage`, `openpgp.VerifyDetachedSignatureReader`, `armor.Decode`'s body, the answer of
-- IsPGPArmored and `bytes.NewReader`.
pub record VerifyCodec (S B V : Type 0) : Type 0 where
  pub read_message : S → List Entity → Config → Result (Details B)
  pub verify_detached : List Entity → DataReader S → S → Config → Result (Details V)
  pub armor_decode : S → Result S
  pub is_pgp_armored : S → S × Bool
  pub bytes_reader : Bytes → S

-- The reader that a handle returns: of an inline message or of detached data.
pub data Verifying (B V : Type 0) : Type 0 where
  inline : Sanitized B → Verifying B V
  detached : Sanitized V → Verifying B V

-- The same reader with another state inside.
abbrev pub with_reader : {A C : Type 0} → (A → C) → VerifyDataReader A → VerifyDataReader C
with_reader f msg = record {
  details = msg.details;
  literal_data = msg.literal_data;
  session_key = msg.session_key;
  decrypted_with = msg.decrypted_with;
  internal_reader = f msg.internal_reader;
  verify_key_ring = msg.verify_key_ring;
  verify_time = msg.verify_time;
  disable_time_check = msg.disable_time_check;
  read_all = msg.read_all;
  verification_context = msg.verification_context;
}

module _ {S B V : Type 0} (codec : VerifyCodec S B V) (profile : Custom) where
  -- unarmorInput of crypto/encoding.go
  pub unarmor_input : ℕ → S → S × Bool
  unarmor_input encoding s =
      if encoding == armor
      then (s, true)
      else if encoding == auto
      then codec.is_pgp_armored s
      else (s, false)

  -- The input behind its armor, if it has one.
  pub unarmored : S × Bool → Result S
  unarmored (s, false) = ok s
  unarmored (s, true) = wrap_err "gopenpgp: unarmor failed" (codec.armor_decode s)

  -- The reader that (*verifyHandle).verifyingReader returns.
  pub inline_reader : VerifyHandle → Details B → VerifyDataReader B
  inline_reader vh md =
      details_reader md md.unverified_body vh.verify_key_ring (unix vh.clock)
        vh.disable_verify_time_check vh.verification_context

  -- (*verifyHandle).verifyingReader
  pub verifying_inline_reader : VerifyHandle → S → Result (VerifyDataReader B)
  unfolding inline_reader
  verifying_inline_reader vh message = do
    md ← wrap_err "gopenpgp: initialize signature reader failed" (
        codec.read_message message (get_entities vh.verify_key_ring) (
          know_context vh.verification_context (record (sign_config profile) {
            check_packet_sequence = some (not vh.disable_strict_message_parsing);
            time = some (unix vh.clock);
          })))
    ok (inline_reader vh md)

  -- Wrapped for a handle with IsUTF8.
  pub wrap_inline : VerifyHandle → VerifyDataReader B → VerifyDataReader (Verifying B V)
  wrap_inline vh msg =
      with_reader
        (λ b.
          Verifying.inline
            (if vh.is_utf8 then Sanitized.sanitizing (new_text_reader b) else Sanitized.direct b))
        msg

  -- VerifyingReader behind the armor; no detached data are `none`.
  pub verifying_unarmored : VerifyHandle → Option S → S → Result (VerifyDataReader (Verifying B V))
  unfolding verifying_inline_reader wrap_inline
  verifying_unarmored vh none message =
      verifying_inline_reader vh message >>= λ msg. ok (wrap_inline vh msg)
  verifying_unarmored vh (some data_s) message =
      verifying_detached_reader codec.verify_detached
        (if vh.is_utf8 then DataReader.canonical_text data_s else DataReader.raw data_s) message
        vh.verify_key_ring vh.verification_context vh.disable_verify_time_check
        vh.disable_automatic_text_sanitize (some (sign_config profile)) vh.clock
      >>= λ msg. ok (with_reader Verifying.detached msg)

  -- (*verifyHandle).VerifyingReader
  pub verifying_reader : VerifyHandle → Option S → S → ℕ → Result (VerifyDataReader (Verifying B V))
  unfolding unarmor_input unarmored verifying_unarmored
  verifying_reader vh detached_data message encoding =
      unarmored (unarmor_input encoding message) >>= verifying_unarmored vh detached_data

  -- `internal` is the `Read` of the wrapped reader.
  module _ (internal : Read (Verifying B V)) where
    -- What VerifyInline does with the result of VerifySignature; the session key is not returned.
    pub verified_inline :
        VerifyDataReader (Verifying B V) → Bytes → Result VerifyResult → Result VerifiedDataResult
    verified_inline msg b answer = do
      vr ← wrap_err "gopenpgp: verifying signature failed" answer
      ok (record {
        verify_result = vr;
        metadata = get_metadata msg;
        bytes = b;
        cached_session_key = none;
      })

    -- VerifyInline behind ReadAll.
    pub inline_read :
        Option (Result Bytes × VerifyDataReader (Verifying B V))
        → Option (Result VerifiedDataResult)
    unfolding verified_inline
    inline_read none = none
    inline_read (some (ok b, msg)) = some (verified_inline msg b (verify_signature msg).1)
    inline_read (some (err e, msg)) =
        some (err (Error.wrapped "gopenpgp: reading data to verify signature failed" e))
    inline_read (some (panic, msg)) = some panic

    -- VerifyInline with the reader or the error of VerifyingReader.
    pub inline_verified :
        List ℕ → Result (VerifyDataReader (Verifying B V)) → Option (Result VerifiedDataResult)
    unfolding inline_read
    inline_verified ks (ok msg) = inline_read (read_all internal msg ks)
    inline_verified ks (err e) = some (err (Error.wrapped "gopenpgp: verifying signature failed" e))
    inline_verified ks panic = some panic

    -- (*verifyHandle).VerifyInline with buffers of the given lengths; `none` if they are used up.
    pub verify_inline : VerifyHandle → Bytes → ℕ → List ℕ → Option (Result VerifiedDataResult)
    unfolding inline_verified
    verify_inline vh message encoding ks =
        inline_verified ks (verifying_reader vh none (codec.bytes_reader message) encoding)

    -- VerifyDetached and verifyDetachedSignature behind the copying of the data.
    pub detached_read :
        Option (Result Bytes × VerifyDataReader (Verifying B V)) → Option (Result VerifyResult)
    detached_read none = none
    detached_read (some (ok b, msg)) = some (verify_signature msg).1
    detached_read (some (err e, msg)) =
        some (err (Error.wrapped "gopenpgp: reading data to verify signature failed" e))
    detached_read (some (panic, msg)) = some panic

    pub detached_verified :
        List ℕ → Result (VerifyDataReader (Verifying B V)) → Option (Result VerifyResult)
    unfolding detached_read
    detached_verified ks (ok msg) = detached_read (read_all internal msg ks)
    detached_verified ks (err e) =
        some (err (Error.wrapped "gopenpgp: verifying signature failed" e))
    detached_verified ks panic = some panic

    -- (*verifyHandle).VerifyDetached
    pub verify_detached : VerifyHandle → Bytes → Bytes → ℕ → List ℕ → Option (Result VerifyResult)
    unfolding detached_verified
    verify_detached vh data_b signature encoding ks = detached_verified ks (
        verifying_reader vh (some (codec.bytes_reader data_b)) (codec.bytes_reader signature)
          encoding)
