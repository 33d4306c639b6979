-- ===== src/Crypto/VerifyHandle/Inline.antt =====
-- VerifyInline from the message to its result (crypto/verify_handle.go).
use gopenpgp.Base.{Bytes, Result}
use gopenpgp.Internal.Reader.{Read, IsReader}
use gopenpgp.Profile.{Custom}
use gopenpgp.Crypto.Config.{unix}
use gopenpgp.Crypto.Signature.{create_verify_result}
use gopenpgp.Crypto.VerifyReader.{VerifyDataReader, VerifiedDataResult}
use gopenpgp.Crypto.Reading.{Details}
use gopenpgp.Crypto.VerifyHandle.{
  VerifyHandle, VerifyCodec, Verifying, inline_reader, wrap_inline, verified_inline,
}

module _ {S B V : Type 0} (codec : VerifyCodec S B V) (profile : Custom)
    (internal : Read (Verifying B V)) (content : Verifying B V → Bytes)
    (law : IsReader internal content) where
  -- The reader that the handle makes of the details.
  abbrev pub reader_of : VerifyHandle → Details B → VerifyDataReader (Verifying B V)
  reader_of vh md = wrap_inline codec profile vh (inline_reader codec profile vh md)

  -- What VerifyInline returns when it gets to the verification.
  abbrev pub verified_of : VerifyHandle → Details B → Result VerifiedDataResult
  verified_of vh md =
      verified_inline codec profile internal (reader_of vh md)
        (content (reader_of vh md).internal_reader)
        (create_verify_result md.details vh.verify_key_ring vh.verification_context (unix vh.clock)
          vh.disable_verify_time_check).1
