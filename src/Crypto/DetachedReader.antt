-- ===== src/Crypto/DetachedReader.antt =====
-- The function verifyingDetachedReader of crypto/verify_handle.go, which the verification handle and the
-- decryption handle share.
use gopenpgp.Base.{Bool, not, ◌&&◌, Option, none, some, List, ℤ, Result, ok, ◌>>=◌, wrap_err}
use gopenpgp.Crypto.Entity.{Entity}
use gopenpgp.Crypto.KeyRing.{KeyRing, get_entities}
use gopenpgp.Crypto.Config.{Config, zero_config, unix, know_context}
use gopenpgp.Crypto.Signature.{VerificationContext}
use gopenpgp.Crypto.VerifyReader.{VerifyDataReader}
use gopenpgp.Crypto.Reading.{Details, Sanitized, sanitize_if, is_text, get_first?, details_reader}

-- `if config == nil { config = &packet.Config{} }`, the time and the notation.
unfoldable pub detached_config : Option Config → Option ℤ → Option VerificationContext → Config
detached_config none clock context =
    know_context context (record zero_config { time = some (unix clock) })
detached_config (some config) clock context =
    know_context context (record config { time = some (unix clock) })

-- verifyingDetachedReader; `verify` is `openpgp.VerifyDetachedSignatureReader`.
unfoldable pub verifying_detached_reader :
    {A G V : Type 0}
    → (List Entity → A → G → Config → Result (Details V))
    → A
    → G
    → Option KeyRing
    → Option VerificationContext
    → Bool
    → Bool
    → Option Config
    → Option ℤ
    → Result (VerifyDataReader (Sanitized V))
unfolding detached_config
verifying_detached_reader verify data_reader signature ring context disable_time disable_sanitize
      config clock =
    do
      md ←
          wrap_err "gopenpgp: verify signature reader failed" (
            verify (get_entities ring) data_reader signature (detached_config config clock context))
      let text = is_text (get_first? md.details.signature_candidates) && not disable_sanitize
      ok (
          details_reader md (sanitize_if text md.unverified_body) ring (unix clock) disable_time
            context)
