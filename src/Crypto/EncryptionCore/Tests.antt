-- ===== src/Crypto/EncryptionCore/Tests.antt =====
-- Streams of small handles (crypto/encryption_core.go).
use gopenpgp.Base.{ℕ, true, false, none, some, [], ◌∷◌, ok, ◌≡◌}
use gopenpgp.Profile.{default}
use gopenpgp.Crypto.Samples.{entity, private_key}
use gopenpgp.Crypto.KeyRing.{KeyRing}
use gopenpgp.Crypto.SessionKey.{SessionKey}
use gopenpgp.Crypto.SessionPackets.Sample as Sample
use gopenpgp.Crypto.SignHandle.{SignCodec}
use gopenpgp.Crypto.EncryptionHandle.{EncryptionHandle}
use gopenpgp.Crypto.EncryptionCore.{EncryptCodec}
use gopenpgp.Crypto.EncryptionCore.Stream.{encrypt_sign_detached_stream_to_recipients}
use gopenpgp.Crypto.EncryptionCore.Detached.{encrypt_sign_detached-handle}

-- Writers are numbers.
abbrev codec : EncryptCodec ℕ
codec = record {
  cipher = λ config. 9;
  aead_mode = λ config. 0;
  encrypt_with_params = λ k w to hidden params. ok 10;
  symmetrically_encrypt_with_params = λ p k w params. ok 11;
  serialize_symmetrically_encrypted = λ w cipher aead mode key config. ok 12;
  serialize_compressed = λ w algo level. ok 13;
  serialize_literal = λ w binary name time. ok 14;
}

abbrev sign : SignCodec ℕ
sign = record {
  armor_writer = λ w header headers checksum. ok 20;
  sign_with_params = λ w signers params. ok 21;
  detach_sign_writer = λ w signers params. ok 22;
  encode_cleartext = λ keys config headers message. ok message;
  signing_key = λ e config. some e.private_key;
  is_valid_utf8 = λ b. true;
}

abbrev signing_ring : KeyRing
signing_ring = record { entities = entity (some (private_key false)) ∷ []; first_key_id = "" }

abbrev handle : EncryptionHandle
handle = record {
  recipients = none;
  hidden_recipients = none;
  session_key = none;
  password = some (5 ∷ []);
  sign_key_ring = some signing_ring;
  signing_context = none;
  compression = 0;
  detached_signature = true;
  plain_detached_signature = false;
  is_utf8 = false;
  external_signature = none;
  encryption_time_override = none;
  clock = none;
}

handle_example :
    (encrypt_sign_detached_stream_to_recipients codec sign default Sample.codec none none 1 2 true
      (ok Sample.sk)
      handle).handle
    ≡ handle
handle_example =
    encrypt_sign_detached-handle codec sign default Sample.codec none none 1 2 true (ok Sample.sk)
      handle
