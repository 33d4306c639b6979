-- ===== src/Crypto/EncryptionCore/Stream.antt =====
-- crypto/encryption_core.go: the streams with a detached signature. They change the handle and restore it
-- when they return, so each gives the handle that it leaves.
use gopenpgp.Base.{
  Bool, ◌&&◌, ◌||◌, Option, none, some, List, [], ◌∷◌, ◌++◌, Bytes, Error, Result, ok, err, panic,
  ◌>>=◌, is_none, is_some, if◌then◌else◌,
}
use gopenpgp.Profile.{Custom, encryption_config}
use gopenpgp.Crypto.KeyRing.{get_entities}
use gopenpgp.Crypto.KeyClear.{clear_mem}
use gopenpgp.Crypto.SessionKey.{SessionKey}
use gopenpgp.Crypto.SessionPackets.{
  SessionCodec, encrypt_session_key_to_writer, encrypt_session_key_with_password,
}
use gopenpgp.Crypto.Message.{LiteralMetadata}
use gopenpgp.Crypto.SignHandle.{SignCodec, sign_message_detached_writer}
use gopenpgp.Crypto.EncryptionHandle.{EncryptionHandle}
use gopenpgp.Crypto.EncryptionCore.{
  EncryptCodec, PlainWriter, single, sign_and_encrypt, DetachedWriter,
  encrypt_stream_with_session_key,
}

-- The key packets in front of the streams, and the first error.
unfoldable pub both_packets : Bytes × Option Error → Bytes × Option Error → Bytes × Option Error
both_packets (b, some e) second = (b, some e)
both_packets (b, none) (b', failure) = (b ++ b', failure)

-- The bytes of a call that writes them only if it succeeds.
unfoldable pub written : Result Bytes → Bytes × Option Error
written (ok b) = (b, none)
written (err e) = ([], some e)
written panic = ([], none)

-- The key packets of encryptSignDetachedStreamToRecipients.
unfoldable pub key_packets : SessionCodec → EncryptionHandle → SessionKey → Bytes × Option Error
unfolding both_packets written
key_packets packets eh sk =
    both_packets
      (if is_some eh.recipients || is_some eh.hidden_recipients
        then encrypt_session_key_to_writer packets (get_entities eh.recipients)
            (get_entities eh.hidden_recipients) sk
        else ([], none))
      (elim eh.password [
        | none ↦ ([], none)
        | some password ↦ written (encrypt_session_key_with_password packets sk password)
      ])

-- Where the key packets go: to their own writer, or in front of the data and the signature.
pub send_keys : {W : Type 0} → Option W → W → W → Bytes → List (W × Bytes)
send_keys (some keys) data_writer signature_writer b = (keys, b) ∷ []
send_keys none data_writer signature_writer b = (data_writer, b) ∷ (signature_writer, b) ∷ []

-- `eh.Password == nil && eh.Recipients == nil && eh.HiddenRecipients == nil`
unfoldable pub no_key_material : EncryptionHandle → Bool
no_key_material eh = is_none eh.password && (is_none eh.recipients && is_none eh.hidden_recipients)

-- What a call does: its result, the key packets that were written, the handle afterwards and the memory of
-- a session key of its own.
pub record Outcome (W : Type 0) : Type 0 where
  pub result : Result (DetachedWriter W)
  pub sent : List (W × Bytes)
  pub handle : EncryptionHandle
  -- The memory of a session key that the call has generated.
  pub key_memory : Option Bytes

-- Writes to a signAndEncryptWriteCloser go to its signing writer.
unfoldable pub output_of : {W : Type 0} → PlainWriter W → W
output_of (single w) = w
output_of (sign_and_encrypt sign_w encrypt_w) = sign_w

module _ {W : Type 0} (codec : EncryptCodec W) (sign : SignCodec W) (profile : Custom) where
  -- The three writers; the handle has no key ring to sign with here.
  unfoldable pub detached_writers :
      EncryptionHandle
      → EncryptionHandle
      → Option LiteralMetadata
      → W
      → W
      → Bool
      → Result (DetachedWriter W)
  detached_writers eh without metadata signature_writer data_writer encrypt_signature = do
    pt ← encrypt_stream_with_session_key codec sign profile without data_writer metadata
    sig ←
        if encrypt_signature
        then encrypt_stream_with_session_key codec sign profile without signature_writer none
        else ok (single signature_writer)
    enc_sig ←
        sign_message_detached_writer sign eh.sign_key_ring (output_of sig) without.is_utf8
          without.signing_context without.clock (encryption_config profile)
    ok (record { pt_to_ciphertext = pt; pt_to_enc_sig = enc_sig; sig_to_ciphertext = sig })

  -- encryptSignDetachedStreamWithSessionKey: the key ring is taken out of the handle and put back.
  unfoldable pub encrypt_sign_detached_stream_with_session_key :
      EncryptionHandle
      → Option LiteralMetadata
      → W
      → W
      → Bool
      → Result (DetachedWriter W) × EncryptionHandle
  unfolding detached_writers
  encrypt_sign_detached_stream_with_session_key eh metadata signature_writer data_writer
        encrypt_signature =
      let without : EncryptionHandle = record eh { sign_key_ring = none } in
      (
        detached_writers eh without metadata signature_writer data_writer encrypt_signature,
        record without { sign_key_ring = eh.sign_key_ring },
      )

  module _ (packets : SessionCodec) (keys : Option W) (metadata : Option LiteralMetadata)
      (signature_writer data_writer : W) (encrypt_signature : Bool) where
    -- The streams behind the key packets.
    unfoldable pub streams_behind : EncryptionHandle → Bytes × Option Error → Outcome W
    unfolding send_keys encrypt_sign_detached_stream_with_session_key
    streams_behind eh (b, some e) = record {
      result = err e;
      sent = send_keys keys data_writer signature_writer b;
      handle = eh;
      key_memory = none;
    }
    streams_behind eh (b, none) =
        let (answer, eh') =
          encrypt_sign_detached_stream_with_session_key eh metadata signature_writer data_writer
            encrypt_signature in
        record {
          result =
              if no_key_material eh
              then err (Error.new "openpgp: no key material to encrypt")
              else answer;
          sent = send_keys keys data_writer signature_writer b;
          handle = if no_key_material eh then eh else eh';
          key_memory = none;
        }

    -- The deferred function: a generated key is cleared and taken out of the handle.
    unfoldable pub clear_generated : SessionKey → Outcome W → Outcome W
    clear_generated sk outcome = record outcome {
      handle = record outcome.handle { session_key = none };
      key_memory = some (clear_mem sk.key);
    }

    -- What the call does with the key that it generates.
    unfoldable pub with_generated : EncryptionHandle → Result SessionKey → Outcome W
    unfolding streams_behind clear_generated key_packets
    with_generated eh (ok sk) = clear_generated sk (
        streams_behind (record eh { session_key = some sk })
          (key_packets packets (record eh { session_key = some sk }) sk))
    with_generated eh (err e) = record {
      result = err e;
      sent = [];
      handle = record eh { session_key = none };
      key_memory = none;
    }
    with_generated eh panic = record {
      result = panic;
      sent = [];
      handle = record eh { session_key = none };
      key_memory = none;
    }

    -- The session key of the handle, or one that is generated.
    unfoldable pub by_session_key :
        Result SessionKey → EncryptionHandle → Option SessionKey → Outcome W
    unfolding with_generated
    by_session_key generated eh none = with_generated eh generated
    by_session_key generated eh (some sk) = streams_behind eh (key_packets packets eh sk)

    -- encryptSignDetachedStreamToRecipients; `generated` is what generateSessionKey answers for the
    -- profile's configuration.
    unfoldable pub encrypt_sign_detached_stream_to_recipients :
        Result SessionKey → EncryptionHandle → Outcome W
    unfolding by_session_key
    encrypt_sign_detached_stream_to_recipients generated eh =
        by_session_key generated eh eh.session_key
