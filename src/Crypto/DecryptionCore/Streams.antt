-- ===== src/Crypto/DecryptionCore/Streams.antt =====
-- crypto/decryption_core.go: decryptStream, decryptStreamWithSession and decryptStreamAndVerifyDetached.
use gopenpgp.Base.{
  ℕ, Bool, true, false, Option, none, some, ◌++◌, Bytes, String, Error, ◌⊎◌, inl, inr, Result, ok,
  err, panic, ◌>>=◌, wrap_err, is_cons, is_some, if◌then◌else◌,
}
use gopenpgp.Internal.ResetReader.{new_reset_reader}
use gopenpgp.Profile.{Custom}
use gopenpgp.Crypto.SessionKey.{SessionKey}
use gopenpgp.Crypto.Config.{Config, unix, know_context}
use gopenpgp.Crypto.VerifyReader.{VerifyDataReader}
use gopenpgp.Crypto.DecryptionHandle.{DecryptionHandle}
use gopenpgp.Crypto.Reading.{Details, Sanitized}
use gopenpgp.Crypto.DetachedReader.{verifying_detached_reader}
use gopenpgp.Crypto.DecryptionCore.{
  Inner, body, checked, SignatureReader, as_given, decrypted, DecryptCodec, Found, found, not_found,
  create_password_prompt, decryption_config, entities_of, opened_reader, try_passwords,
  try_session_keys, wrapped_nil, with_answer,
}

-- The configuration with which a packet is read that a session key has opened.
pub session_config : Custom → DecryptionHandle → Config
session_config profile dh =
    know_context dh.verification_context
      (record (decryption_config profile dh (unix dh.clock)) { check_packet_sequence = some false })

-- `md.SessionKey = …; md.UnverifiedBody = checkReader{…}`
unfoldable pub with_session_key : {R D : Type 0} → SessionKey → D → Details R → Details (Inner R D)
with_session_key sk d md = record {
  details = md.details;
  literal_data = md.literal_data;
  session_key = some sk.key;
  decrypted_with = md.decrypted_with;
  unverified_body = checked d md.unverified_body;
}

module _ {S R D V : Type 0} (codec : DecryptCodec S R D V) (profile : Custom) where
  -- What decryptStream does behind the loop over the passwords.
  unfoldable pub read_found :
      DecryptionHandle → Result (Found R) → Result (VerifyDataReader (Sanitized (Inner R D)))
  read_found dh (ok (found p md)) =
      ok (opened_reader dh md (body md.unverified_body) (unix dh.clock))
  read_found dh (ok (not_found last)) = err (
      Error.new
        "gopenpgp: error in reading password protected message: wrong password or malformed message")
  read_found dh (err e) = err e
  read_found dh panic = panic

  -- What decryptStream does with the answer for its key ring.
  unfoldable pub read_opened :
      DecryptionHandle → Result (Details R) → Result (VerifyDataReader (Sanitized (Inner R D)))
  read_opened dh (ok md) = ok (opened_reader dh md (body md.unverified_body) (unix dh.clock))
  read_opened dh (err e) =
      err (Error.wrapped "gopenpgp: decrypting message with private keys failed" e)
  read_opened dh panic = panic

  -- (*decryptionHandle).decryptStream
  unfoldable pub decrypt_stream :
      DecryptionHandle → S → Result (VerifyDataReader (Sanitized (Inner R D)))
  unfolding read_found read_opened
  decrypt_stream dh s =
      let config =
        know_context dh.verification_context (decryption_config profile dh (unix dh.clock)) in
      let entries = entities_of dh.decryption_key_ring ++ entities_of dh.verify_key_ring in
      if is_some dh.decryption_key_ring
      then read_opened dh (codec.read_message s entries none config).0
      else read_found dh (try_passwords codec entries config none (new_reset_reader s) dh.passwords)

  -- What decryptStreamWithSessionAndParse does behind the loop over the session keys: nil details if
  -- there is neither a key nor an error.
  unfoldable pub parse_decrypted :
      DecryptionHandle
      → Result ((SessionKey × D) ⊎ Option Error)
      → Result (Option (Details (Inner R D)))
  unfolding with_session_key
  parse_decrypted dh (ok (inl (sk, d))) =
      wrap_err "gopenpgp: unable to decode symmetric packet" (
        codec.read_decrypted d
          (entities_of dh.verify_key_ring ++ entities_of dh.decryption_key_ring)
          (session_config profile dh))
      >>= λ md. ok (some (with_session_key sk d md))
  parse_decrypted dh (ok (inr last)) =
      wrapped_nil "gopenpgp: unable to decrypt message with session key" last
  parse_decrypted dh (err e) = err e
  parse_decrypted dh panic = panic

  -- (*decryptionHandle).decryptStreamWithSessionAndParse; the time is that of the handle's clock.
  unfoldable pub decrypt_stream_with_session_and_parse :
      ℕ → DecryptionHandle → S → Option (Result (Option (Details (Inner R D))) × S)
  unfolding parse_decrypted with_answer
  decrypt_stream_with_session_and_parse fuel dh s =
      with_answer (parse_decrypted dh) (try_session_keys codec fuel none dh.session_keys s)

  -- What decryptStreamWithSession does with the details; nil ones are dereferenced.
  unfoldable pub read_parsed :
      DecryptionHandle
      → Result (Option (Details (Inner R D)))
      → Result (VerifyDataReader (Sanitized (Inner R D)))
  read_parsed dh (ok (some md)) = ok (opened_reader dh md md.unverified_body (unix dh.clock))
  read_parsed dh (ok none) = panic
  read_parsed dh (err e) = err (Error.wrapped "gopenpgp: error in reading message" e)
  read_parsed dh panic = panic

  -- (*decryptionHandle).decryptStreamWithSession
  unfoldable pub decrypt_stream_with_session :
      ℕ → DecryptionHandle → S → Option (Result (VerifyDataReader (Sanitized (Inner R D))) × S)
  unfolding read_parsed with_answer
  decrypt_stream_with_session fuel dh s =
      with_answer (read_parsed dh) (decrypt_stream_with_session_and_parse fuel dh s)

  -- The data message that decryptStreamAndVerifyDetached has read, with the password that opened it; nil
  -- if the loop over the passwords has neither found one nor an error.
  pub data_found : Result (Found R) → Result (Option (Option Bytes × Details R))
  data_found (ok (found p md)) = ok (some (some p, md))
  data_found (ok (not_found last)) =
      wrapped_nil "gopenpgp: error in reading data message: no password matched" last
  data_found (err e) = err e
  data_found panic = panic

  data_read : Result (Details R) → Result (Option (Option Bytes × Details R))
  data_read answer = do
    md ← wrap_err "gopenpgp: error in reading data message" answer
    ok (some (none, md))

  -- The data message, by a password or a private key.
  pub read_data_message : DecryptionHandle → S → Result (Option (Option Bytes × Details R))
  unfolding data_found data_read
  read_data_message dh s =
      let config = decryption_config profile dh (unix dh.clock) in
      let entries = entities_of dh.decryption_key_ring in
      if is_cons dh.passwords
      then data_found (try_passwords codec entries config none (new_reset_reader s) dh.passwords)
      else data_read (codec.read_message s entries none config).0

  -- The encrypted signature, with the password that has opened the data.
  pub read_signature_message : DecryptionHandle → Option Bytes → S → Result (Details R)
  read_signature_message dh password s =
      wrap_err "gopenpgp: error in reading detached signature message"
        (codec.read_message s (entities_of dh.decryption_key_ring) (create_password_prompt password)
          (record (decryption_config profile dh (unix dh.clock)) {
            check_packet_sequence = some false;
          })).0

  -- The reader that verifies, with the literal data and the session key of the data message.
  pub verify_opened :
      DecryptionHandle
      → Details (Inner R D)
      → SignatureReader S R D
      → Result (VerifyDataReader (Sanitized V))
  verify_opened dh md signature = do
    reader ←
        verifying_detached_reader codec.verify_detached md.unverified_body signature
          dh.verify_key_ring dh.verification_context dh.disable_verify_time_check
          dh.disable_automatic_text_sanitize (some (decryption_config profile dh (unix dh.clock)))
          (some (unix dh.clock))
    ok (record reader { literal_data = md.literal_data; session_key = md.session_key })

  -- decryptStreamAndVerifyDetached without session keys; nil is returned with no error where the data
  -- message is nil.
  pub verify_detached_message :
      DecryptionHandle → S → S → Bool → Result (Option (VerifyDataReader (Sanitized V)))
  unfolding read_data_message read_signature_message verify_opened
  verify_detached_message dh data_s signature_s is_plain = do
    opened ← read_data_message dh data_s
    elim opened [
      | none ↦ ok none
      | some (password, md) ↦ do
        signature ←
            if is_plain
            then ok (as_given signature_s)
            else (read_signature_message dh password signature_s >>= λ sig.
                ok (decrypted (body sig.unverified_body)))
        reader ←
            verify_opened dh
              (record {
                details = md.details;
                literal_data = md.literal_data;
                session_key = md.session_key;
                decrypted_with = md.decrypted_with;
                unverified_body = body md.unverified_body;
              })
              signature
        ok (some reader)
    ]

  -- The details of a message read with a session key. They are nil only without session keys, and then
  -- dereferenced.
  pub parsed_or : String → Result (Option (Details (Inner R D))) → Result (Details (Inner R D))
  parsed_or message (ok (some md)) = ok md
  parsed_or message (ok none) = panic
  parsed_or message (err e) = err (Error.wrapped message e)
  parsed_or message panic = panic

  -- The signature, and the reader that verifies, behind the data message.
  pub verify_parsed :
      ℕ
      → DecryptionHandle
      → S
      → Bool
      → Result (Details (Inner R D))
      → Option (Result (VerifyDataReader (Sanitized V)))
  unfolding parsed_or verify_opened
  verify_parsed fuel dh signature_s is_plain (err e) = some (err e)
  verify_parsed fuel dh signature_s is_plain panic = some panic
  verify_parsed fuel dh signature_s true (ok md) = some (verify_opened dh md (as_given signature_s))
  verify_parsed fuel dh signature_s false (ok md) =
      elim (decrypt_stream_with_session_and_parse fuel dh signature_s) [
        | none ↦ none
        | some (answer, rest) ↦ some (
            parsed_or "gopenpgp: error in reading detached signature message" answer >>= λ sig.
            verify_opened dh md (decrypted sig.unverified_body))
      ]

  -- decryptStreamAndVerifyDetached with session keys.
  pub verify_detached_session :
      ℕ → DecryptionHandle → S → S → Bool → Option (Result (VerifyDataReader (Sanitized V)))
  unfolding verify_parsed
  verify_detached_session fuel dh data_s signature_s is_plain =
      elim (decrypt_stream_with_session_and_parse fuel dh data_s) [
        | none ↦ none
        | some (answer, rest) ↦
            verify_parsed fuel dh signature_s is_plain
              (parsed_or "gopenpgp: error in reading data message" answer)
      ]

  -- (*decryptionHandle).decryptStreamAndVerifyDetached
  pub decrypt_stream_and_verify_detached :
      ℕ
      → DecryptionHandle
      → S
      → S
      → Bool
      → Option (Result (Option (VerifyDataReader (Sanitized V))))
  decrypt_stream_and_verify_detached fuel dh data_s signature_s is_plain =
      if is_cons dh.session_keys
      then elim (verify_detached_session fuel dh data_s signature_s is_plain) [
        | none ↦ none
        | some answer ↦ some (answer >>= λ reader. ok (some reader))
      ]
      else some (verify_detached_message dh data_s signature_s is_plain)
