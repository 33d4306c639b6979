-- ===== src/Crypto/Reading.antt =====
-- What go-crypto's readers of messages give (`openpgp.MessageDetails` with its body), and how the
-- repository wraps a body in a reader that sanitizes text and verifies at the end.
use gopenpgp.Base.{ℕ, Bool, true, false, Option, none, some, List, [], ◌∷◌, Bytes, ℤ, ◌==◌}
use gopenpgp.Internal.Sanitize.{SanitizeReader}
use gopenpgp.Internal.SanitizeUtf8.{SanitizeUtf8Reader, new_text_reader}
use gopenpgp.Crypto.KeyRing.{KeyRing}
use gopenpgp.Crypto.Signature.{VerificationContext, MessageDetails, Candidate}
use gopenpgp.Crypto.VerifyReader.{VerifyDataReader, LiteralData}

-- `openpgp.MessageDetails`; `B` are the states of the unverified body.
pub record Details (B : Type 0) : Type 0 where
  pub details : MessageDetails
  pub literal_data : Option LiteralData
  pub session_key : Option Bytes
  pub decrypted_with : ℕ
  pub unverified_body : B

-- A reader as it is, or wrapped by `internal.NewSanitizeReader`.
pub data Sanitized (B : Type 0) : Type 0 where
  direct : B → Sanitized B
  sanitizing : SanitizeUtf8Reader (SanitizeReader B) → Sanitized B

unfoldable pub sanitize_if : {B : Type 0} → Bool → B → Sanitized B
sanitize_if false b = Sanitized.direct b
sanitize_if true b = Sanitized.sanitizing (new_text_reader b)

-- `packet.SigTypeText`
abbrev pub sig_type_text : ℕ
sig_type_text = 1

abbrev pub is_text : Option Candidate → Bool
is_text none = false
is_text (some c) = c.sig_type == sig_type_text

abbrev pub get_first? : List Candidate → Option Candidate
get_first? [] = none
get_first? (c ∷ cs) = some c

-- `&VerifyDataReader{md, internalReader, …, false, …}`
unfoldable pub details_reader :
    {B C : Type 0}
    → Details B
    → C
    → Option KeyRing
    → ℤ
    → Bool
    → Option VerificationContext
    → VerifyDataReader C
details_reader md internal_reader ring time disable context = record {
  details = md.details;
  literal_data = md.literal_data;
  session_key = md.session_key;
  decrypted_with = md.decrypted_with;
  internal_reader = internal_reader;
  verify_key_ring = ring;
  verify_time = time;
  disable_time_check = disable;
  read_all = false;
  verification_context = context;
}
