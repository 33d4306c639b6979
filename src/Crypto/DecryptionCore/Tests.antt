-- ===== src/Crypto/DecryptionCore/Tests.antt =====
-- Small messages that the decryption streams run on (crypto/decryption_core.go).
use gopenpgp.Base.{
  ℕ, Bool, true, false, none, some, List, [], ◌∷◌, Bytes, Error, eof, Result, ok, err, panic, ◌≡◌,
  ◌≢◌, refl, any, ◌==◌, if◌then◌else◌, arith,
}
use gopenpgp.Internal.Reader.{bytes_reader, bytes_reader-IsReader}
use gopenpgp.Internal.ResetReader.{read}
use gopenpgp.Internal.ResetReader.Again.{source_content}
use gopenpgp.Profile.{default}
use gopenpgp.Crypto.Samples.{ring, details}
use gopenpgp.Crypto.SessionKey.{SessionKey, get_algo, sym_key_algos, get_cipher_func, lookup}
use gopenpgp.Crypto.Config.{know_context, unix}
use gopenpgp.Crypto.Reading.{Details, Sanitized}
use gopenpgp.Crypto.VerifyReader.{VerifyDataReader}
use gopenpgp.Crypto.DecryptionHandle.{DecryptionHandle}
use gopenpgp.Crypto.DecryptionCore.{
  DataPacket, encrypted_key, symmetrically_encrypted, other, DecryptCodec, Inner,
  create_password_prompt, decryption_config, entities_of, decrypt_stream_with_session_key,
  decrypt_packet, try_session_keys,
}
use gopenpgp.Crypto.DecryptionCore.Streams.{
  decrypt_stream, decrypt_stream_with_session, decrypt_stream_with_session_and_parse,
}
use gopenpgp.Crypto.DecryptionCore.Passwords.{
  IsParser, Opens, is_ok, wrong_password, decrypt_stream-passwords,
  decrypt_stream-ignores_passwords,
}
use gopenpgp.Crypto.DecryptionCore.Packets.{decrypt_stream_with_session_key_sound, IsOpened}
use gopenpgp.Crypto.DecryptionCore.SessionKeys.{
  GivesBack, decrypt_stream_with_session-used_up, decrypt_stream_with_session-get_session_key,
}

abbrev opened_by : Bytes → Bytes → Bool
opened_by (c ∷ all) (d ∷ p) = c == d
opened_by _ _ = false

-- A message opens for the passwords that start with its first byte.
abbrev opens : Opens
opens all entries none config = false
opens all entries (some prompt) config = opened_by all prompt.password

abbrev message : Bytes → Details Bytes
message b = record {
  details = details;
  literal_data = none;
  session_key = none;
  decrypted_with = 0;
  unverified_body = b;
}

abbrev answer_if : Bool → Result (Details Bytes)
answer_if true = ok (message (1 ∷ 2 ∷ []))
answer_if false = err (Error.foreign 1)

-- 1 stands for a key packet, 2 for protected data; what follows is the ciphertext.
abbrev packet_of : Bytes → Result DataPacket × Bytes
packet_of [] = (err eof, [])
packet_of (c ∷ s) =
    if c == 1
    then (ok encrypted_key, s)
    else if c == 2
    then (ok (symmetrically_encrypted true), s)
    else (ok (other c), s)

-- A session key opens the ciphertext that starts as the key does; a failure uses the input up.
abbrev decrypted_if : Bool → Bytes → Result Bytes × Bytes
decrypted_if true s = (ok s, [])
decrypted_if false s = (err (Error.foreign 2), [])

abbrev codec : DecryptCodec Bytes Bytes Bytes Bytes
codec = record {
  read_message = λ s entries prompt config. (answer_if (opened_by s (7 ∷ [])), s);
  read_buffered = λ rr entries prompt config. (
    answer_if (
        opens (source_content bytes_reader (λ s. s) bytes_reader-IsReader rr.reader) entries prompt
          config),
    (read bytes_reader rr 2).2,
  );
  read_decrypted = λ d entries config. ok (message d);
  next = packet_of;
  decrypt = λ s p dc key. decrypted_if (opened_by s key) s;
  verify_detached = λ entries b signature config. ok (message []);
}

answer_if-is_ok : (b : Bool) → is_ok (answer_if b) ≡ b
answer_if-is_ok true = refl
answer_if-is_ok false = refl

answer_if-returns : (b : Bool) → answer_if b ≢ panic
answer_if-returns true = λ h. absurd (ground arith)
answer_if-returns false = λ h. absurd (ground arith)

parser : IsParser codec bytes_reader (λ s. s) bytes_reader-IsReader opens
parser = record {
  decides = λ rr entries prompt config. answer_if-is_ok _;
  only_reads = λ rr entries prompt config. (2 ∷ [], refl);
  returns = λ rr entries prompt config. answer_if-returns _;
}

abbrev handle : DecryptionHandle
handle = record {
  decryption_key_ring = none;
  session_keys = [];
  passwords = (9 ∷ []) ∷ (5 ∷ []) ∷ [];
  verify_key_ring = none;
  verification_context = none;
  plain_detached_signature = false;
  disable_intended_recipients = false;
  disable_verify_time_check = false;
  disable_strict_message_parsing = false;
  disable_automatic_text_sanitize = false;
  insecure_disable_unauthenticated_messages_check = false;
  insecure_allow_decryption_with_signing_keys = false;
  retrieve_session_key = false;
  is_utf8 = false;
  clock = none;
}

passwords_example :
    (is_ok (decrypt_stream codec default handle (5 ∷ 6 ∷ 7 ∷ []))
      ≡ any
          (λ p.
            opens
              (5 ∷ 6 ∷ 7 ∷ [])
              (entities_of none)
              (create_password_prompt (some p))
              (know_context none (decryption_config default handle (unix none))))
          handle.passwords)
    × (is_ok (decrypt_stream codec default handle (5 ∷ 6 ∷ 7 ∷ [])) ≡ false
        → decrypt_stream codec default handle (5 ∷ 6 ∷ 7 ∷ []) ≡ err wrong_password)
passwords_example =
    decrypt_stream-passwords codec bytes_reader (λ s. s) bytes_reader-IsReader opens parser default
      handle (5 ∷ 6 ∷ 7 ∷ []) refl

ignores_example :
    decrypt_stream codec default (record handle { decryption_key_ring = some ring }) (5 ∷ [])
    ≡ decrypt_stream codec default
        (record handle { decryption_key_ring = some ring; passwords = (5 ∷ []) ∷ [] })
        (5 ∷ [])
ignores_example =
    decrypt_stream-ignores_passwords codec default
      (record handle { decryption_key_ring = some ring }) ((5 ∷ []) ∷ []) (5 ∷ [])
      (λ h. absurd (ground arith))

abbrev key_of : ℕ → SessionKey
key_of n = record { key = n ∷ []; algo = "aes256"; v6 = false }

sound_run :
    decrypt_stream_with_session_key codec 4 (key_of 8) (1 ∷ 2 ∷ 8 ∷ []) ≡ some (ok (8 ∷ []), [])
unfolding decrypt_stream_with_session_key decrypt_packet get_cipher_func lookup
sound_run = refl

sound_example : IsOpened codec (key_of 8) (1 ∷ 2 ∷ 8 ∷ []) (8 ∷ []) []
sound_example =
    decrypt_stream_with_session_key_sound codec 4 (key_of 8) (1 ∷ 2 ∷ 8 ∷ []) [] (8 ∷ []) sound_run

abbrev with_keys : List SessionKey → DecryptionHandle
with_keys sks = record handle { session_keys = sks }

failed_run :
    decrypt_stream_with_session_key codec 4 (key_of 3) (1 ∷ 2 ∷ 8 ∷ [])
    ≡ some
        (err (Error.wrapped "gopenpgp: unable to decrypt symmetric packet" (Error.foreign 2)), [])
unfolding decrypt_stream_with_session_key decrypt_packet get_cipher_func lookup
failed_run = refl

-- The second key alone would open the message.
used_up_example :
    (e : Error) × (decrypt_stream_with_session codec default 4
        (with_keys (key_of 3 ∷ key_of 8 ∷ []))
        (1 ∷ 2 ∷ 8 ∷ [])
      ≡ some (
        err (
            Error.wrapped "gopenpgp: error in reading message"
              (Error.wrapped "gopenpgp: unable to decrypt message with session key" e)),
        [],
      ))
used_up_example =
    decrypt_stream_with_session-used_up codec default 3 (with_keys (key_of 3 ∷ key_of 8 ∷ []))
      (1 ∷ 2 ∷ 8 ∷ []) [] (key_of 3) (key_of 8 ∷ [])
      (Error.wrapped "gopenpgp: unable to decrypt symmetric packet" (Error.foreign 2)) eof refl
      failed_run refl

no_zero : get_algo sym_key_algos 0 ≡ ""
unfolding get_algo
no_zero = refl

opened_run :
    (reader : VerifyDataReader (Sanitized (Inner Bytes Bytes))) × (decrypt_stream_with_session codec
        default 4
        (with_keys (key_of 8 ∷ []))
        (1 ∷ 2 ∷ 8 ∷ [])
      ≡ some (ok reader, []))
unfolding decrypt_stream_with_session decrypt_stream_with_session_and_parse try_session_keys
    decrypt_stream_with_session_key decrypt_packet get_cipher_func lookup
opened_run = (_, refl)

session_key_example : GivesBack codec default sym_key_algos (key_of 8 ∷ []) opened_run.0
session_key_example =
    decrypt_stream_with_session-get_session_key codec default sym_key_algos
      (λ d entries config md h. ground arith) no_zero 4 (with_keys (key_of 8 ∷ [])) (1 ∷ 2 ∷ 8 ∷ [])
      [] opened_run.0 opened_run.1
