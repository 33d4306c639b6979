-- ===== src/Crypto/VerifyHandle/Tests.antt =====
-- A small message that VerifyInline reads (crypto/verify_handle.go).
use gopenpgp.Base.{
  Option, ℕ, false, none, some, List, [], ◌∷◌, Bytes, Result, ok, err, Error, pos, Ensures, refl,
  ◌≡◌, eof,
}
use gopenpgp.Internal.Reader.{Read, bytes_reader}
use gopenpgp.Profile.{default}
use gopenpgp.Crypto.Samples.{ring, details, open_key, locked_key}
use gopenpgp.Crypto.VerifyReader.{ends, verify_signature, read_all, read, read_on}
use gopenpgp.Crypto.Reading.{Details, Sanitized, direct, details_reader, sanitize_if}
use gopenpgp.Crypto.VerifyHandle.{VerifyHandle, VerifyCodec, Verifying, inline}
use gopenpgp.Crypto.VerifyHandle.Builder.{
  new_verify_handle_builder, VerifyMethod, verification_key, verify_time, utf8, apply_all, build,
  HasUsableRing, build-apply_all,
}
use gopenpgp.Crypto.VerifyHandle.Cleartext.{
  Block, VerifyCleartextResult, is_trimmed_empty, signature_read, signature_opened,
  verify_detached_signature, cleartext_verified, signature_found, block_found, verify_cleartext,
  IsVerified, verify_cleartext-IsVerified,
}
use gopenpgp.Crypto.DetachedReader.{verifying_detached_reader, detached_config}
use gopenpgp.Crypto.Signature.{create_verify_result, select_signature, verify_candidates}

abbrev message : Bytes → Details Bytes
message b = record {
  details = details;
  literal_data = none;
  session_key = none;
  decrypted_with = 0;
  unverified_body = b;
}

-- The armor is one byte in front of the message.
abbrev behind_armor : Bytes → Result Bytes
behind_armor [] = err (Error.foreign 1)
behind_armor (c ∷ s) = ok s

abbrev codec : VerifyCodec Bytes Bytes Bytes
codec = record {
  read_message = λ s entries config. ok (message s);
  verify_detached = λ entries b signature config. ok (message []);
  armor_decode = behind_armor;
  is_pgp_armored = λ s. (s, false);
  bytes_reader = λ b. b;
}

abbrev handle : VerifyHandle
handle = record {
  verify_key_ring = some ring;
  verification_context = none;
  disable_verify_time_check = false;
  disable_strict_message_parsing = false;
  disable_automatic_text_sanitize = false;
  is_utf8 = false;
  clock = some (pos 3);
}

abbrev text : Bytes
text = 65 ∷ 13 ∷ 10 ∷ []

abbrev sizes : List ℕ
sizes = 2 ∷ 2 ∷ 2 ∷ 2 ∷ 2 ∷ []

-- Reads of data as they are; other readers are at their end.
abbrev internal : Read (Verifying Bytes Bytes)
internal (inline (direct b)) k =
    let (given, e, b') = bytes_reader b k in (given, e, Verifying.inline (Sanitized.direct b'))
internal r k = ([], some eof, r)

abbrev content : Verifying Bytes Bytes → Bytes
content (inline (direct b)) = b
content r = []

-- A locked key, which is refused, and then one that is not locked.
abbrev methods : List VerifyMethod
methods = verification_key locked_key ∷ utf8 ∷ verification_key open_key ∷ verify_time (pos 3) ∷ []

builder_example :
    Ensures HasUsableRing (build (apply_all (new_verify_handle_builder none) methods)).0
builder_example = build-apply_all none methods (tt, (tt, (tt, (tt, tt))))

-- Every input is a cleartext block with a line end behind it.
abbrev decode : Bytes → Option (Block Bytes) × Bytes
decode b = (some (record { plaintext = b; bytes = b; armored_signature = 9 ∷ [] }), 10 ∷ [])

abbrev cleartext_result : VerifyCleartextResult
cleartext_result = record {
  verify_result = select_signature (record {
    signatures = (verify_candidates (some ring) none (pos 3) false details.signature_candidates).1;
    selected_signature = none;
    signature_error = none;
  });
  cleartext = text;
}

cleartext_run :
    verify_cleartext codec default internal decode (λ s. ok s) handle text (2 ∷ [])
    ≡ some (ok cleartext_result)
unfolding verify_cleartext block_found signature_found verify_detached_signature signature_opened
    signature_read cleartext_verified is_trimmed_empty verify_signature create_verify_result
    read_all read read_on verifying_detached_reader detached_config sanitize_if details_reader ends
cleartext_run = refl

cleartext_example :
    IsVerified codec default internal decode
      (λ s. ok s)
      handle
      (2 ∷ [])
      (decode text)
      cleartext_result
cleartext_example =
    verify_cleartext-IsVerified codec default internal decode (λ s. ok s) handle text (2 ∷ [])
      cleartext_result cleartext_run
