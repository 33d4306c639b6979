-- ===== src/Crypto/Packets.antt =====
-- What go-crypto's packet reader gives for a buffer: the packets that crypto/message.go and
-- crypto/encryption_session.go tell apart, one for each call of `Next`.
use gopenpgp.Base.{ℕ, Option, Error}
use gopenpgp.Crypto.SessionKey.{EncryptedKey}

-- The kinds of packets, with the fields that are read. A symmetric-key encrypted session key is its number.
pub data Packet : Type 0 where
  encrypted_key : EncryptedKey → Packet
  symmetric_key_encrypted : ℕ → Packet
  symmetrically_encrypted : Packet
  aead_encrypted : Packet
  compressed : Packet
  literal_data : Packet
  one_pass_signature : ℕ → Packet
  signature : Option ℕ → Packet
  other : ℕ → Packet

-- The answer of one call of `Next`. When the answers are used up it answers `io.EOF`.
pub data Next : Type 0 where
  packet : Packet → Next
  failed : Error → Next

-- An answer with the number of bytes that are left in the buffer after it.
pub record Item : Type 0 where
  pub next : Next
  pub left : ℕ
