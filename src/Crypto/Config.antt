-- ===== src/Crypto/Config.antt =====
-- The fields of go-crypto's `packet.Config` that the repository sets, and Unix times (crypto/time.go).
use gopenpgp.Base.{
  ℕ, Bool, false, Option, none, some, List, [], ◌∷◌, String, ℤ, negsuc, pos, ◌%◌, ◌^◌, ◌-◌,
}
use gopenpgp.Crypto.Signature.{Notation, VerificationContext, signature_context_name}

-- Algorithms are their numbers, a configuration of AEAD its mode, one of S2K its mode, and one of the
-- compression its level. `known_notations` holds the keys that are true. `time` is the Unix time of the
-- clock, and `none` if no clock is set.
pub record Config : Type 0 where
  pub default_hash : ℕ
  pub default_cipher : ℕ
  pub aead_config : Option ℕ
  pub s2k_config : Option ℕ
  pub default_compression_algo : ℕ
  pub compression_config : Option ℕ
  pub v6_keys : Bool
  pub key_lifetime_secs : ℕ
  pub algorithm : ℕ
  pub curve : String
  pub rsa_bits : ℕ
  pub min_rsa_bits : ℕ
  pub reject_public_key_algorithms : Option (List ℕ)
  pub check_intended_recipients : Option Bool
  pub check_packet_sequence : Option Bool
  pub insecure_allow_decryption_with_signing_keys : Bool
  pub insecure_allow_unauthenticated_messages : Bool
  pub cache_session_key : Bool
  pub known_notations : List String
  pub signature_notations : List Notation
  pub time : Option ℤ

-- `packet.Config{}`
abbrev pub zero_config : Config
zero_config = record {
  default_hash = 0;
  default_cipher = 0;
  aead_config = none;
  s2k_config = none;
  default_compression_algo = 0;
  compression_config = none;
  v6_keys = false;
  key_lifetime_secs = 0;
  algorithm = 0;
  curve = "";
  rsa_bits = 0;
  min_rsa_bits = 0;
  reject_public_key_algorithms = none;
  check_intended_recipients = none;
  check_packet_sequence = none;
  insecure_allow_decryption_with_signing_keys = false;
  insecure_allow_unauthenticated_messages = false;
  cache_session_key = false;
  known_notations = [];
  signature_notations = [];
  time = none;
}

-- `clock().Unix()`; the zero time lies in the year 1.
abbrev pub unix : Option ℤ → ℤ
unix none = negsuc 62135596799
unix (some t) = t

-- `if context != nil { config.KnownNotations = map[string]bool{constants.SignatureContextName: true} }`
pub know_context : Option VerificationContext → Config → Config
know_context none config = config
know_context (some context) config = record config { known_notations = signature_context_name ∷ [] }

-- `uint32(t)`
unfoldable pub to_uint32 : ℤ → ℕ
to_uint32 (pos n) = n % 2 ^ 32
to_uint32 (negsuc n) = 2 ^ 32 - 1 - n % 2 ^ 32
