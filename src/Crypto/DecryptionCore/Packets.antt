-- ===== src/Crypto/DecryptionCore/Packets.antt =====
-- The loop over packets of decryptStreamWithSessionKey (crypto/decryption_core.go).
use gopenpgp.Base.{
  ℕ, zero, suc, Bool, true, false, some, Result, ok, err, panic, ◌≡◌, refl, arith, if◌then◌else◌,
}
use gopenpgp.Crypto.SessionKey.{SessionKey, get_cipher_func}
use gopenpgp.Crypto.DecryptionCore.{
  DecryptCodec, DataPacket, encrypted_key, symmetric_key_encrypted, symmetrically_encrypted,
  aead_encrypted, other, decrypt_with, decrypt_packet, on_packet, decrypt_stream_with_session_key,
}

module _ {S R D V : Type 0} (codec : DecryptCodec S R D V) where
  -- Key packets are skipped.
  abbrev pub is_key_packet : DataPacket → Bool
  is_key_packet encrypted_key = true
  is_key_packet symmetric_key_encrypted = true
  is_key_packet (symmetrically_encrypted protected) = false
  is_key_packet aead_encrypted = false
  is_key_packet (other n) = false

  -- The first packet that is no key packet, and the input behind it.
  pub data FirstData : S → DataPacket → S → Type 0 where
    here :
        (s s' : S) (p : DataPacket)
        → codec.next s ≡ (ok p, s')
        → is_key_packet p ≡ false
        → FirstData s p s'
    skip :
        (s s' t : S) (k p : DataPacket)
        → codec.next s ≡ (ok k, s')
        → is_key_packet k ≡ true
        → FirstData s' p t
        → FirstData s p t

  -- Encrypted data whose integrity is protected.
  abbrev pub is_protected : DataPacket → Bool
  is_protected (symmetrically_encrypted protected) = protected
  is_protected aead_encrypted = true
  is_protected _ = false

  -- The packet is decrypted with the session key: with the cipher of its algorithm, or with the zero
  -- cipher if it is a v6 key.
  abbrev pub IsDecrypted : SessionKey → S → DataPacket → D → S → Type 0
  IsDecrypted sk s p d t =
      (dc : ℕ) × (codec.decrypt s p dc sk.key ≡ (ok d, t))
      × (sk.v6 ≡ false → get_cipher_func sk ≡ ok dc)
      × (sk.v6 ≡ true → dc ≡ 0)

  -- What a success means.
  abbrev pub IsOpened : SessionKey → S → D → S → Type 0
  IsOpened sk s d t =
      (p : DataPacket) × (s' : S) × FirstData s p s'
      × (is_protected p ≡ true)
      × IsDecrypted sk s' p d t

  decrypt_packet_lem :
      (sk : SessionKey) (s t : S) (p : DataPacket) (d : D)
      → decrypt_packet codec sk s p ≡ (ok d, t)
      → IsDecrypted sk s p d t
  unfolding decrypt_packet
  decrypt_packet_lem sk s t p d h = by_cipher (if sk.v6 then ok 0 else get_cipher_func sk) refl h
    where
      by_cipher :
          (c : Result ℕ)
          → (if sk.v6 then ok 0 else get_cipher_func sk) ≡ c
          → decrypt_with codec sk s p c ≡ (ok d, t)
          → IsDecrypted sk s p d t
      by_cipher (ok dc) e k = (dc, ground arith, ground arith, ground arith)
      by_cipher (err x) e k = absurd (ground arith)
      by_cipher panic e k = absurd (ground arith)

  -- If decryptStreamWithSessionKey succeeds, it has decrypted the first packet that is no key packet,
  -- with the session key and its cipher, and the integrity of this packet is protected.
  pub decrypt_stream_with_session_key_sound :
      (fuel : ℕ) (sk : SessionKey) (s t : S) (d : D)
      → decrypt_stream_with_session_key codec fuel sk s ≡ some (ok d, t)
      → IsOpened sk s d t
  unfolding decrypt_stream_with_session_key
  decrypt_stream_with_session_key_sound zero sk s t d h = absurd (ground arith)
  decrypt_stream_with_session_key_sound (suc fuel) sk s t d h =
      by_answer (codec.next s) refl
        (λ (s' : S). decrypt_stream_with_session_key_sound fuel sk s' t d) h
    where
      by_answer :
          (a : Result DataPacket × S)
          → codec.next s ≡ a
          → ((s' : S)
              → decrypt_stream_with_session_key codec fuel sk s' ≡ some (ok d, t)
              → IsOpened sk s' d t)
          → on_packet codec sk (decrypt_stream_with_session_key codec fuel sk) a ≡ some (ok d, t)
          → IsOpened sk s d t
      by_answer (err x, s') e ih k = absurd (ground arith)
      by_answer (panic, s') e ih k = absurd (ground arith)
      by_answer (ok encrypted_key, s') e ih k =
          let (p, r, first, rest, last) = ih s' k in
          (p, r, skip s s' r encrypted_key p e refl first, rest, last)
      by_answer (ok symmetric_key_encrypted, s') e ih k =
          let (p, r, first, rest, last) = ih s' k in
          (p, r, skip s s' r symmetric_key_encrypted p e refl first, rest, last)
      by_answer (ok (symmetrically_encrypted true), s') e ih k = (
        symmetrically_encrypted true,
        s',
        here s s' (symmetrically_encrypted true) e refl,
        refl,
        decrypt_packet_lem sk s' t (symmetrically_encrypted true) d (ground arith),
      )
      by_answer (ok (symmetrically_encrypted false), s') e ih k = absurd (ground arith)
      by_answer (ok aead_encrypted, s') e ih k = (
        aead_encrypted,
        s',
        here s s' aead_encrypted e refl,
        refl,
        decrypt_packet_lem sk s' t aead_encrypted d (ground arith),
      )
      by_answer (ok (other n), s') e ih k = absurd (ground arith)
