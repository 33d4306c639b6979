-- ===== src/Crypto/Samples.antt =====
-- Small keys, signatures and codecs that the examples run the code on.
use gopenpgp.Base.{
  ℕ, Bool, true, false, Option, none, some, List, [], ◌∷◌, Bytes, pos, unknown_issuer,
  signature_expired, Result, ok, ◌==◌, if◌then◌else◌,
}
use gopenpgp.Crypto.Entity.{PublicKey, PrivateKey, Material, Entity}
use gopenpgp.Crypto.Key.{Key}
use gopenpgp.Crypto.KeyLife.{KeyCodec}
use gopenpgp.Crypto.KeyRing.{KeyRing}
use gopenpgp.Crypto.Signature.{
  PacketSignature, SignatureVerificationError, VerifiedSignature, VerifyResult, VerificationContext,
  MessageDetails, signature_context_name,
}

abbrev pub public_key : PublicKey
public_key = record { key_id = 7; fingerprint = 1 ∷ 2 ∷ []; version = 4 }

abbrev pub private_key : Bool → PrivateKey
private_key encrypted = record {
  encrypted = encrypted;
  dummy = false;
  material = Material.ecdh (5 ∷ 6 ∷ []);
}

abbrev pub entity : Option PrivateKey → Entity
entity p = record { primary_key = public_key; private_key = p; subkeys = []; identities = [] }

abbrev pub open_key : Key
open_key = record { entity = entity (some (private_key false)) }

abbrev pub locked_key : Key
locked_key = record { entity = entity (some (private_key true)) }

abbrev pub ring : KeyRing
ring = record { entities = entity none ∷ []; first_key_id = "" }

-- A codec for the two keys above: the first byte tells whether the key is locked.
abbrev pub is_sealed : Option PrivateKey → ℕ
is_sealed none = 0
is_sealed (some p) = elim p.encrypted [ true ↦ 1 | false ↦ 2 ]

abbrev pub read_sealed : Bytes → Result (List Entity)
read_sealed [] = ok []
read_sealed (c ∷ b) =
    if c == 0 then ok (entity none ∷ []) else ok (entity (some (private_key (c == 1))) ∷ [])

abbrev pub codec : KeyCodec ℕ
codec = record {
  serialize = λ e. ok (is_sealed e.private_key ∷ []);
  serialize_private_without_signing = λ e. ok (is_sealed e.private_key ∷ []);
  read_key_ring = read_sealed;
  read_armored_key_ring = read_sealed;
  is_pgp_armored = λ b. false;
  encrypt_private_keys = λ e p c. ok (entity (some (private_key true)));
  decrypt_private_keys = λ e p. ok (entity (some (private_key false)));
  new_entity = λ n c m config. ok (entity (some (private_key false)));
}

-- A signature packet made at a time, with a context notation.
abbrev pub packet_signature : ℕ → PacketSignature
packet_signature t = record {
  creation_time = pos t;
  sig_type = 0;
  issuer_key_id = some 7;
  issuer_fingerprint = none;
  notations =
      (record {
        name = signature_context_name;
        value = "mail";
        is_critical = true;
        is_human_readable = true;
      })
      ∷ [];
}

abbrev pub verification_error : SignatureVerificationError
verification_error = record { status = 3; message = "failed"; cause = none }

abbrev pub good_signature : VerifiedSignature
good_signature = record {
  signature = some (packet_signature 20);
  signed_by = some open_key;
  signature_error = none;
}

abbrev pub bad_signature : VerifiedSignature
bad_signature = record {
  signature = some (packet_signature 90);
  signed_by = none;
  signature_error = some verification_error;
}

abbrev pub result : VerifyResult
result = record {
  signatures = bad_signature ∷ good_signature ∷ [];
  selected_signature = none;
  signature_error = none;
}

abbrev pub context : VerificationContext
context = record { value = "mail"; is_required = true; required_after = pos 0 }

abbrev pub details : MessageDetails
details = record {
  is_signed = true;
  is_verified = true;
  signature_candidates =
      (record {
        corresponding_sig = some (packet_signature 20);
        signed_by = some (entity none);
        signature_error = some signature_expired;
        sig_type = 0;
      })
      ∷ (record {
        corresponding_sig = none;
        signed_by = none;
        signature_error = some unknown_issuer;
        sig_type = 0;
      })
      ∷ [];
}
