-- ===== src/Crypto/SessionPackets/Password.antt =====
-- Session keys under a password (crypto/encryption_session.go).
use mathlib.Core.List.{Permᴰ}
use gopenpgp.Base.{
  ℕ, true, false, Option, none, some, [], ◌∷◌, Bytes, String, ok, length, ◌==◌, ◌≡◌, refl, arith,
  Returns,
}
use gopenpgp.Crypto.SessionKey.{
  SessionKey, sym_key_algos, get_cipher_func, check_size, lookup, or_error,
}
use gopenpgp.Crypto.SessionKey.Algorithms.{lookup-get_algo, lookup-positive}
use gopenpgp.Crypto.Packets.{symmetric_key_encrypted, packet}
use gopenpgp.Crypto.SessionPackets.{
  SessionCodec, cipher_for, symmetric_keys, with_password, try_password,
  decrypt_session_key_with_password, check_known_size, encrypt_session_key_with_password,
}

-- go-crypto undoes the encryption of this key under this password: the output is read as one packet,
-- which the password opens and which gives the key and its cipher.
pub record IsUndoneAt (codec : SessionCodec) (key password : Bytes) : Type 0 where
  pub number : ℕ → ℕ
  pub left : ℕ
  pub reads :
      (cf : ℕ) (out : Bytes)
      → codec.serialize_symmetric cf key password ≡ ok out
      → codec.packets out
        ≡ (record { next = packet (symmetric_key_encrypted (number cf)); left = left }) ∷ []
  pub opens :
      (cf : ℕ) (out : Bytes)
      → codec.serialize_symmetric cf key password ≡ ok out
      → codec.decrypt_symmetric (number cf) password ≡ ok (key, cf)

module _ (codec : SessionCodec) (d : Permᴰ sym_key_algos codec.algo_order) where
  with_password_lem :
      (algo : String) (key : Bytes) (cf : ℕ)
      → lookup sym_key_algos algo ≡ some cf
      → (codec.key_size cf == length key) ≡ true
      → Returns
          (λ sk'. (sk'.key ≡ key) × (get_cipher_func sk' ≡ ok cf))
          (with_password codec key cf)
  unfolding with_password check_size get_cipher_func or_error
  with_password_lem algo key cf known size =
      ground
        (arith, lookup-get_algo codec.algo_order algo cf d known, lookup-positive algo cf known)

-- What a success of encryptSessionKeyWithPassword says of a key that is not v6.
encrypted_lem :
    (codec : SessionCodec) (sk : SessionKey) (password out : Bytes)
    → sk.v6 ≡ false
    → encrypt_session_key_with_password codec sk password ≡ ok out
    → (cf : ℕ) × (lookup sym_key_algos sk.algo ≡ some cf)
      × ((codec.key_size cf == length sk.key) ≡ true)
      × (codec.serialize_symmetric cf sk.key password ≡ ok out)
unfolding encrypt_session_key_with_password cipher_for check_known_size check_size get_cipher_func
    or_error
encrypted_lem codec sk password out old h = by_cipher (lookup sym_key_algos sk.algo) refl
  where
    by_cipher :
        (o : Option ℕ)
        → lookup sym_key_algos sk.algo ≡ o
        → (cf : ℕ) × (lookup sym_key_algos sk.algo ≡ some cf)
          × ((codec.key_size cf == length sk.key) ≡ true)
          × (codec.serialize_symmetric cf sk.key password ≡ ok out)
    by_cipher none e = absurd (ground arith)
    by_cipher (some cf) e = (cf, e, ground arith, ground arith)

-- Encrypt a session key of a known algorithm under a password, and decrypt the packet with the same
-- password. If the encryption succeeds and go-crypto undoes it, the decryption succeeds with the same
-- key and the same cipher, whatever the order of the loop over `symKeyAlgos`.
pub decrypt-encrypt :
    (codec : SessionCodec) (sk : SessionKey) (password out : Bytes)
    → Permᴰ sym_key_algos codec.algo_order
    → sk.v6 ≡ false
    → IsUndoneAt codec sk.key password
    → encrypt_session_key_with_password codec sk password ≡ ok out
    → Returns
        (λ sk'. (sk'.key ≡ sk.key) × (get_cipher_func sk' ≡ get_cipher_func sk))
        (decrypt_session_key_with_password codec out (some password))
unfolding decrypt_session_key_with_password symmetric_keys try_password get_cipher_func or_error
decrypt-encrypt codec sk password out d old undone h =
    let (cf, known, size, serialized) = encrypted_lem codec sk password out old h in
    rw (undone.reads cf out serialized, undone.opens cf out serialized, old, known)
      (with_password_lem codec d sk.algo sk.key cf known size)
