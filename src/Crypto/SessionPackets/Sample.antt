-- ===== src/Crypto/SessionPackets/Sample.antt =====
-- A small codec that the examples encrypt and decrypt session keys with.
use gopenpgp.Base.{true, false, none, some, List, [], ◌∷◌, Bytes, ok, if◌then◌else◌}
use gopenpgp.Crypto.Samples.{entity, private_key, public_key}
use gopenpgp.Crypto.SessionKey.{SessionKey, EncryptedKey, sym_key_algos}
use gopenpgp.Crypto.Packets.{Item, encrypted_key, symmetric_key_encrypted, packet}
use gopenpgp.Crypto.SessionPackets.{SessionCodec}

abbrev pub sealed : EncryptedKey
sealed = record { key_id = 7; cipher_func = 9; version = 3; key = none }

-- Packets: an empty buffer has a public-key packet, every other one a symmetric-key packet.
abbrev pub parse : Bytes → List Item
parse [] = (record { next = packet (encrypted_key sealed); left = 0 }) ∷ []
parse (c ∷ b) = (record { next = packet (symmetric_key_encrypted c); left = 0 }) ∷ []

abbrev pub codec : SessionCodec
codec = record {
  key_size = λ cipher. 2;
  algo_order = sym_key_algos;
  packets = parse;
  entities_by_id = λ id. entity (some (private_key false)) ∷ [];
  decryption_keys = λ e id. private_key false ∷ [];
  decrypt = λ ek p. (record ek { key = some (1 ∷ 2 ∷ []) }, none);
  decrypt_symmetric = λ n p. ok (1 ∷ 2 ∷ [], n);
  encryption_key = λ e. some public_key;
  primary_self_signature = λ e. elim e.private_key [ none ↦ none | some p ↦ some true ];
  config_cipher = 9;
  has_aead = true;
  serialize_encrypted_key = λ k cf aead key hidden. (cf ∷ (if hidden then 1 else 0) ∷ [], none);
  serialize_symmetric = λ cf key p. ok (cf ∷ []);
}

abbrev pub sk : SessionKey
sk = record { key = 1 ∷ 2 ∷ []; algo = "aes256"; v6 = false }
