-- ===== src/Crypto/VerifyHandle/Cleartext.antt =====
-- VerifyCleartext of crypto/verify_handle.go. What `clearsign.Decode` gives is a parameter.
use gopenpgp.Base.{
  ℕ, Bool, true, false, ◌&&◌, ◌||◌, Option, none, some, List, [], ◌∷◌, Bytes, Error, Result, ok,
  err, panic, ◌>>=◌, wrap_err, ◌==◌, if◌then◌else◌, ◌≡◌, refl, sym, ap, arith,
}
use gopenpgp.Internal.Reader.{Read}
use gopenpgp.Internal.Utf8.{between}
use gopenpgp.Profile.{Custom, sign_config}
use gopenpgp.Crypto.Signature.{VerifyResult}
use gopenpgp.Crypto.VerifyReader.{VerifyDataReader, read_all, verify_signature}
use gopenpgp.Crypto.DetachedReader.{verifying_detached_reader}
use gopenpgp.Crypto.VerifyHandle.{VerifyHandle, DataReader, VerifyCodec, Verifying, with_reader}

-- The parts of a `clearsign.Block`.
pub record Block (S : Type 0) : Type 0 where
  pub plaintext : Bytes
  pub bytes : Bytes
  pub armored_signature : S

pub record VerifyCleartextResult : Type 0 where
  pub verify_result : VerifyResult
  pub cleartext : Bytes

-- The white space of one, two and three bytes that `bytes.TrimSpace` trims.
abbrev pub is_space_one : ℕ → Bool
is_space_one c = between 9 13 c || c == 32

abbrev pub is_space_two : ℕ → ℕ → Bool
is_space_two c d = c == 0xC2 && (d == 0x85 || d == 0xA0)

abbrev pub is_space_three : ℕ → ℕ → ℕ → Bool
is_space_three c d e =
    (c == 0xE1 && (d == 0x9A && e == 0x80))
    || ((c == 0xE2
          && (d == 0x80 && (between 0x80 0x8A e || (e == 0xA8 || (e == 0xA9 || e == 0xAF)))))
        || ((c == 0xE2 && (d == 0x81 && e == 0x9F)) || (c == 0xE3 && (d == 0x80 && e == 0x80))))

-- `len(bytes.TrimSpace(b)) == 0`
unfoldable pub is_trimmed_empty : Bytes → Bool
is_trimmed_empty [] = true
is_trimmed_empty (c ∷ []) = is_space_one c
is_trimmed_empty (c ∷ d ∷ []) = (is_space_one c && is_space_one d) || is_space_two c d
is_trimmed_empty (c ∷ d ∷ e ∷ s) =
    (is_space_one c && is_trimmed_empty (d ∷ e ∷ s))
    || ((is_space_two c d && is_trimmed_empty (e ∷ s))
        || (is_space_three c d e && is_trimmed_empty s))

module _ {S B V : Type 0} (codec : VerifyCodec S B V) (profile : Custom)
    (internal : Read (Verifying B V)) where
  -- verifyDetachedSignature behind the copying of the data.
  unfoldable pub signature_read :
      Option (Result Bytes × VerifyDataReader (Verifying B V)) → Option (Result VerifyResult)
  signature_read none = none
  signature_read (some (ok b, msg)) = some (verify_signature msg).1
  signature_read (some (err e, msg)) =
      some (err (Error.wrapped "gopenpgp: reading all data from plaintext reader failed" e))
  signature_read (some (panic, msg)) = some panic

  unfoldable pub signature_opened :
      List ℕ → Result (VerifyDataReader (Verifying B V)) → Option (Result VerifyResult)
  unfolding signature_read
  signature_opened ks (ok msg) = signature_read (read_all internal msg ks)
  signature_opened ks (err e) = some (err (Error.wrapped "gopenpgp: verify signature failed" e))
  signature_opened ks panic = some panic

  -- (*verifyHandle).verifyDetachedSignature with buffers of the given lengths.
  unfoldable pub verify_detached_signature :
      VerifyHandle → S → Bytes → List ℕ → Option (Result VerifyResult)
  unfolding signature_opened
  verify_detached_signature vh orig_text signature ks = signature_opened ks (
      verifying_detached_reader codec.verify_detached (DataReader.raw orig_text)
        (codec.bytes_reader signature) vh.verify_key_ring vh.verification_context
        vh.disable_verify_time_check vh.disable_automatic_text_sanitize (some (sign_config profile))
        vh.clock
      >>= λ msg. ok (with_reader Verifying.detached msg))

  -- What verifyCleartext makes of the result of the verification.
  unfoldable pub cleartext_verified :
      Bytes → Option (Result VerifyResult) → Option (Result VerifyCleartextResult)
  cleartext_verified plaintext none = none
  cleartext_verified plaintext (some answer) = some (
      wrap_err "gopenpgp: cleartext verify failed with non-signature error" answer >>= λ vr.
      ok (record { verify_result = vr; cleartext = plaintext }))

  -- `clearsign.Decode`, and io.ReadAll of the body of the armored signature.
  module _ (decode : Bytes → Option (Block S) × Bytes) (read_signature : S → Result Bytes) where
    -- verifyCleartext behind the reading of the signature.
    unfoldable pub signature_found :
        VerifyHandle → List ℕ → Block S → Result Bytes → Option (Result VerifyCleartextResult)
    unfolding verify_detached_signature cleartext_verified
    signature_found vh ks block (ok signature) =
        cleartext_verified block.plaintext
          (verify_detached_signature vh (codec.bytes_reader block.bytes) signature ks)
    signature_found vh ks block (err e) =
        some (err (Error.wrapped "gopenpgp: signature not parsable in cleartext" e))
    signature_found vh ks block panic = some panic

    -- verifyCleartext behind the decoding.
    unfoldable pub block_found :
        VerifyHandle → List ℕ → Option (Block S) × Bytes → Option (Result VerifyCleartextResult)
    unfolding is_trimmed_empty signature_found
    block_found vh ks (none, rest) =
        some (err (Error.new "gopenpgp: not able to parse cleartext message"))
    block_found vh ks (some block, rest) =
        if is_trimmed_empty rest
        then signature_found vh ks block (read_signature block.armored_signature)
        else some (err (Error.new "gopenpgp: cleartext message has trailing text"))

    -- (*verifyHandle).VerifyCleartext and verifyCleartext
    unfoldable pub verify_cleartext :
        VerifyHandle → Bytes → List ℕ → Option (Result VerifyCleartextResult)
    unfolding block_found
    verify_cleartext vh cleartext ks = block_found vh ks (decode cleartext)

  cleartext_verified_lem :
      (plaintext : Bytes) (o : Option (Result VerifyResult)) (r : VerifyCleartextResult)
      → cleartext_verified plaintext o ≡ some (ok r)
      → (o ≡ some (ok r.verify_result)) × (r.cleartext ≡ plaintext)
  unfolding cleartext_verified
  cleartext_verified_lem plaintext none r h = absurd (ground arith)
  cleartext_verified_lem plaintext (some (ok vr)) r h =
      let same = ap (result_or (record { verify_result = vr; cleartext = plaintext })) h in
      (ap (λ x. some (ok x.verify_result)) same, ap (λ x. x.cleartext) (sym same))
    where
      result_or :
          VerifyCleartextResult → Option (Result VerifyCleartextResult) → VerifyCleartextResult
      result_or d (some (ok x)) = x
      result_or d _ = d
  cleartext_verified_lem plaintext (some (err e)) r h = absurd (ground arith)
  cleartext_verified_lem plaintext (some panic) r h = absurd (ground arith)

  module _ (decode : Bytes → Option (Block S) × Bytes) (read_signature : S → Result Bytes) where
    -- The text that is returned is that of a cleartext block with nothing but white space behind it, and the
    -- result is that of the verification of this block's bytes against its signature.
    abbrev pub IsVerified :
        VerifyHandle → List ℕ → Option (Block S) × Bytes → VerifyCleartextResult → Type 0
    IsVerified vh ks found r =
        (block : Block S) × (signature : Bytes) × (found.0 ≡ some block)
        × (is_trimmed_empty found.1 ≡ true)
        × (read_signature block.armored_signature ≡ ok signature)
        × (verify_detached_signature vh (codec.bytes_reader block.bytes) signature ks
            ≡ some (ok r.verify_result))
        × (r.cleartext ≡ block.plaintext)

    signature_found_lem :
        (vh : VerifyHandle) (ks : List ℕ) (block : Block S) (answer : Result Bytes)
        (r : VerifyCleartextResult)
        → signature_found decode read_signature vh ks block answer ≡ some (ok r)
        → (signature : Bytes) × (answer ≡ ok signature)
          × (verify_detached_signature vh (codec.bytes_reader block.bytes) signature ks
              ≡ some (ok r.verify_result))
          × (r.cleartext ≡ block.plaintext)
    unfolding signature_found
    signature_found_lem vh ks block (ok signature) r h =
        let (verified, text) =
          cleartext_verified_lem block.plaintext
            (verify_detached_signature vh (codec.bytes_reader block.bytes) signature ks) r h in
        (signature, refl, verified, text)
    signature_found_lem vh ks block (err e) r h = absurd (ground arith)
    signature_found_lem vh ks block panic r h = absurd (ground arith)

    -- If VerifyCleartext returns a result, its text is that of the cleartext block in the input, behind which there
    -- is nothing but white space, and it holds the result of the verification of this block's bytes against the
    -- block's signature.
    pub verify_cleartext-IsVerified :
        (vh : VerifyHandle) (cleartext : Bytes) (ks : List ℕ) (r : VerifyCleartextResult)
        → verify_cleartext decode read_signature vh cleartext ks ≡ some (ok r)
        → IsVerified vh ks (decode cleartext) r
    unfolding verify_cleartext block_found
    verify_cleartext-IsVerified vh cleartext ks r h =
        by_block (decode cleartext) (is_trimmed_empty (decode cleartext).1) refl h
      where
        by_block :
            (found : Option (Block S) × Bytes) (b : Bool)
            → is_trimmed_empty found.1 ≡ b
            → block_found decode read_signature vh ks found ≡ some (ok r)
            → IsVerified vh ks found r
        by_block (none, rest) b e k = absurd (ground arith)
        by_block (some block, rest) false e k = absurd (ground arith)
        by_block (some block, rest) true e k =
            let (signature, read, verified, text) =
              signature_found_lem vh ks block (read_signature block.armored_signature) r
                (ground arith) in
            (block, signature, refl, e, read, verified, text)
