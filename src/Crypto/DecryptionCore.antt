-- ===== src/Crypto/DecryptionCore.antt =====
-- crypto/decryption_core.go: how a decryption handle opens a stream. go-crypto's readers are the
-- parameter `DecryptCodec`: `S` are the states of an input, `R` those of the body of a message, `D` those
-- of a decrypted packet and `V` those of a body whose detached signature is verified.
pub mod Prompts
pub mod Streams
pub mod Passwords
pub mod SessionKeys
pub mod Packets
mod Tests
use gopenpgp.Base.{
  ℕ, zero, suc, Bool, true, false, not, ◌&&◌, Option, none, some, List, [], ◌∷◌, ◌++◌, Bytes,
  String, ℤ, Error, ◌⊎◌, inl, inr, Result, ok, err, panic, ◌>>=◌, wrap_err, deref, get_last?,
  is_cons, is_some, if◌then◌else◌,
}
use gopenpgp.Internal.ResetReader.{Source, ResetReader, reset}
use gopenpgp.Profile.{Custom, encryption_config}
use gopenpgp.Crypto.Entity.{Entity}
use gopenpgp.Crypto.KeyRing.{KeyRing}
use gopenpgp.Crypto.SessionKey.{SessionKey, get_cipher_func}
use gopenpgp.Crypto.Config.{Config as PacketConfig, unix, know_context}
use gopenpgp.Crypto.VerifyReader.{VerifyDataReader}
use gopenpgp.Crypto.DecryptionHandle.{DecryptionHandle}
use gopenpgp.Crypto.Reading.{Details, Sanitized, sanitize_if, is_text, details_reader}
use gopenpgp.Crypto.DetachedReader.{verifying_detached_reader}

-- The closure that createPasswordPrompt returns, with its variables.
pub record Prompt : Type 0 where
  pub password : Bytes
  pub first_time_called : Bool

-- createPasswordPrompt; a nil password is `none`.
pub create_password_prompt : Option Bytes → Option Prompt
create_password_prompt none = none
create_password_prompt (some p) = some (record { password = p; first_time_called = true })

-- One call of the closure.
pub ask : Prompt → Result Bytes × Prompt
ask prompt =
    if prompt.first_time_called
    then (ok prompt.password, record prompt { first_time_called = false })
    else (err (Error.new "gopenpgp: wrong password in symmetric decryption"), prompt)

-- The body of a message, or `checkReader{decrypted, body}`.
pub data Inner (R D : Type 0) : Type 0 where
  body : R → Inner R D
  checked : D → R → Inner R D

-- The signature that decryptStreamAndVerifyDetached verifies.
pub data SignatureReader (S R D : Type 0) : Type 0 where
  as_given : S → SignatureReader S R D
  decrypted : Inner R D → SignatureReader S R D

-- The packets that decryptStreamWithSessionKey tells apart; a symmetrically encrypted one tells whether
-- its integrity is protected.
pub data DataPacket : Type 0 where
  encrypted_key : DataPacket
  symmetric_key_encrypted : DataPacket
  symmetrically_encrypted : Bool → DataPacket
  aead_encrypted : DataPacket
  other : ℕ → DataPacket

-- `openpgp.ReadMessage` on an input, on a ResetReader of one and on a decrypted packet (with no prompt),
-- `packet.NewReader(r).Next()`, `Decrypt` of a packet, and `openpgp.VerifyDetachedSignatureReader`.
pub record DecryptCodec (S R D V : Type 0) : Type 0 where
  pub read_message : S → List Entity → Option Prompt → PacketConfig → Result (Details R) × S
  pub read_buffered :
      ResetReader S
      → List Entity
      → Option Prompt
      → PacketConfig
      → Result (Details R) × ResetReader S
  pub read_decrypted : D → List Entity → PacketConfig → Result (Details R)
  pub next : S → Result DataPacket × S
  pub decrypt : S → DataPacket → ℕ → Bytes → Result D × S
  pub verify_detached :
      List Entity → Inner R D → SignatureReader S R D → PacketConfig → Result (Details V)

-- (*decryptionHandle).decryptionConfig
pub decryption_config : Custom → DecryptionHandle → ℤ → PacketConfig
decryption_config profile dh config_time = record (encryption_config profile) {
  check_intended_recipients = some (not dh.disable_intended_recipients);
  check_packet_sequence = some (not dh.disable_strict_message_parsing);
  insecure_allow_unauthenticated_messages = dh.insecure_disable_unauthenticated_messages_check;
  insecure_allow_decryption_with_signing_keys =
      if dh.insecure_allow_decryption_with_signing_keys
      then true
      else (encryption_config profile).insecure_allow_decryption_with_signing_keys;
  cache_session_key = dh.retrieve_session_key;
  time = some config_time;
}

-- `ring.entities`, of a ring that may be nil.
pub entities_of : Option KeyRing → List Entity
entities_of none = []
entities_of (some ring) = ring.entities

-- What a loop over passwords ends with: the password and the details, or the last error.
pub data Found (R : Type 0) : Type 0 where
  found : Bytes → Details R → Found R
  not_found : Option Error → Found R

-- `errors.Wrap(err, message)`, which is nil for a nil error, returned beside nil.
pub wrapped_nil : {A : Type 0} → String → Option Error → Result (Option A)
wrapped_nil message none = ok none
wrapped_nil message (some e) = err (Error.wrapped message e)

-- What a function makes of an answer, unless the fuel was used up.
pub with_answer : {A B S : Type 0} → (A → B) → Option (A × S) → Option (B × S)
with_answer f none = none
with_answer f (some (a, s)) = some (f a, s)

-- Whether the reader of the details is wrapped to sanitize.
pub sanitizes : {R : Type 0} → DecryptionHandle → Details R → Bool
sanitizes dh md =
    md.details.is_signed
    && (not dh.disable_automatic_text_sanitize
        && is_text (get_last? md.details.signature_candidates))

-- The reader that decryptStream and decryptStreamWithSession return.
pub opened_reader :
    {A B : Type 0} → DecryptionHandle → Details A → B → ℤ → VerifyDataReader (Sanitized B)
unfolding sanitizes
opened_reader dh md inner time =
    details_reader md (sanitize_if (sanitizes dh md) inner) dh.verify_key_ring time
      dh.disable_verify_time_check dh.verification_context

module _ {S R D V : Type 0} (codec : DecryptCodec S R D V) where
  -- `if _, err := resetReader.Reset(); err != nil`
  pub restart :
      (ResetReader S → Result (Found R)) → Result (Source S) × ResetReader S → Result (Found R)
  restart go_on (ok r, rr) = go_on rr
  restart go_on (err e, rr) = err (Error.wrapped "gopenpgp: buffer reset failed" e)
  restart go_on (panic, rr) = panic

  -- One round: a failure resets the reader, and the loop goes on with it.
  pub attempted :
      Bytes
      → ResetReader S
      → (Error → ResetReader S → Result (Found R))
      → Result (Details R)
      → Result (Found R)
  unfolding restart
  attempted p rr go_on (ok md) = ok (found p md)
  attempted p rr go_on (err e) = restart (go_on e) (reset rr)
  attempted p rr go_on panic = panic

  -- The loop over the passwords of decryptStream and of decryptStreamAndVerifyDetached.
  pub try_passwords :
      List Entity → PacketConfig → Option Error → ResetReader S → List Bytes → Result (Found R)
  unfolding attempted
  try_passwords entries config last rr [] = ok (not_found last)
  try_passwords entries config last rr (p ∷ ps) =
      let (answer, rr') = codec.read_buffered rr entries (create_password_prompt (some p)) config in
      attempted p rr' (λ e rr''. try_passwords entries config (some e) rr'' ps) answer

  -- `Decrypt` with the cipher, or the error of its choice.
  pub decrypt_with : SessionKey → S → DataPacket → Result ℕ → Result D × S
  decrypt_with sk s p (ok dc) =
      let (answer, s') = codec.decrypt s p dc sk.key in
      (wrap_err "gopenpgp: unable to decrypt symmetric packet" answer, s')
  decrypt_with sk s p (err e) =
      (err (Error.wrapped "gopenpgp: unable to decrypt with session key" e), s)
  decrypt_with sk s p panic = (panic, s)

  -- decryptStreamWithSessionKey behind the check of the packet; a v6 key has the zero cipher.
  pub decrypt_packet : SessionKey → S → DataPacket → Result D × S
  unfolding decrypt_with
  decrypt_packet sk s p = decrypt_with sk s p (if sk.v6 then ok 0 else get_cipher_func sk)

  -- One round of the loop: key packets are skipped.
  pub on_packet :
      SessionKey → (S → Option (Result D × S)) → Result DataPacket × S → Option (Result D × S)
  unfolding decrypt_packet
  on_packet sk go_on (err e, s) =
      some (err (Error.wrapped "gopenpgp: unable to read symmetric packet" e), s)
  on_packet sk go_on (panic, s) = some (panic, s)
  on_packet sk go_on (ok encrypted_key, s) = go_on s
  on_packet sk go_on (ok symmetric_key_encrypted, s) = go_on s
  on_packet sk go_on (ok (symmetrically_encrypted protected), s) =
      if not protected
      then some (err (Error.new "gopenpgp: message is not authenticated"), s)
      else some (decrypt_packet sk s (DataPacket.symmetrically_encrypted protected))
  on_packet sk go_on (ok aead_encrypted, s) = some (decrypt_packet sk s DataPacket.aead_encrypted)
  on_packet sk go_on (ok (other n), s) = some (err (Error.new "gopenpgp: invalid packet type"), s)

  -- decryptStreamWithSessionKey; `none` if the fuel, the number of rounds, is used up.
  pub decrypt_stream_with_session_key : ℕ → SessionKey → S → Option (Result D × S)
  unfolding on_packet
  decrypt_stream_with_session_key zero sk s = none
  decrypt_stream_with_session_key (suc fuel) sk s =
      on_packet sk (decrypt_stream_with_session_key fuel sk) (codec.next s)

  -- One round: a failure goes on with what it has left of the input.
  pub tried_key :
      SessionKey
      → (Error → S → Option (Result ((SessionKey × D) ⊎ Option Error) × S))
      → Option (Result D × S)
      → Option (Result ((SessionKey × D) ⊎ Option Error) × S)
  tried_key sk go_on none = none
  tried_key sk go_on (some (ok d, s)) = some (ok (inl (sk, d)), s)
  tried_key sk go_on (some (err e, s)) = go_on e s
  tried_key sk go_on (some (panic, s)) = some (panic, s)

  -- The loop over the session keys: the key and the decrypted packet, or the last error.
  pub try_session_keys :
      ℕ → Option Error → List SessionKey → S → Option (Result ((SessionKey × D) ⊎ Option Error) × S)
  unfolding tried_key
  try_session_keys fuel last [] s = some (ok (inr last), s)
  try_session_keys fuel last (sk ∷ sks) s =
      tried_key sk (λ e s'. try_session_keys fuel (some e) sks s')
        (decrypt_stream_with_session_key fuel sk s)
