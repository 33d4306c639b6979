-- ===== src/Crypto/SessionPackets/Tests.antt =====
-- Runs that encrypt and decrypt session keys with a small codec.
use mathlib.Core.List.Permᴰ
use gopenpgp.Base.{false, none, some, [], ◌∷◌, ◌++◌, Bytes, ok, Returns, subst, ◌≡◌, refl, arith}
use gopenpgp.Crypto.Entity.{Entity}
use gopenpgp.Crypto.Samples.{entity, private_key, public_key}
use gopenpgp.Crypto.SessionKey.{
  EncryptedKey, sym_key_algos, lookup, or_error, get_algo, get_cipher_func, check_size, key_bytes,
  checked, new_session_key_from_encrypted,
}
use gopenpgp.Crypto.Packets.{symmetric_key_encrypted, packet}
use gopenpgp.Crypto.SessionPackets.{
  cipher_for, decrypt_session_key, encrypt_session_key, encrypt_session_key_with_password,
  decrypt_session_key_with_password, search, try_keys, try_entities, opened, check_known_size,
}
use gopenpgp.Crypto.SessionPackets.Sample.{parse, codec, sk}
use gopenpgp.Crypto.SessionPackets.Opened.{Opening, decrypt_session_key-Opening}
use gopenpgp.Crypto.SessionPackets.Password.{IsUndoneAt, decrypt-encrypt}
use gopenpgp.Crypto.SessionPackets.Recipients.{encrypt_session_key_lem, encrypt_session_key-empty}

opening_run : decrypt_session_key codec [] ≡ ok sk
unfolding decrypt_session_key search try_keys try_entities opened get_algo
    new_session_key_from_encrypted checked check_size key_bytes lookup
opening_run = refl

opening_example : (ek : EncryptedKey) × Opening codec ek × (sk.key ≡ key_bytes ek.key)
opening_example = decrypt_session_key-Opening codec [] sk ((λ k e. ground arith), tt) opening_run

inside : (a b : Bytes) → ok a ≡ ok b → a ≡ b
inside a b h = cc

password_undone : IsUndoneAt codec (1 ∷ 2 ∷ []) (5 ∷ [])
password_undone = record {
  number = λ cf. cf;
  left = 0;
  reads = λ cf out h.
      subst (λ o. parse o ≡ (record { next = packet (symmetric_key_encrypted cf); left = 0 }) ∷ [])
        (inside (cf ∷ []) out h) refl;
  opens = λ cf out h. refl;
}

password_run : encrypt_session_key_with_password codec sk (5 ∷ []) ≡ ok (9 ∷ [])
unfolding encrypt_session_key_with_password cipher_for get_cipher_func check_known_size check_size
    lookup or_error
password_run = refl

password_example :
    Returns
      (λ sk'. (sk'.key ≡ sk.key) × (get_cipher_func sk' ≡ get_cipher_func sk))
      (decrypt_session_key_with_password codec (9 ∷ []) (some (5 ∷ [])))
password_example =
    decrypt-encrypt codec sk (5 ∷ []) (9 ∷ []) (Permᴰ.refl sym_key_algos) refl password_undone
      password_run

cipher_run : cipher_for codec sk ≡ ok 9
unfolding cipher_for get_cipher_func lookup or_error
cipher_run = refl

abbrev signed : Entity
signed = entity (some (private_key false))

encrypt_example : encrypt_session_key codec (signed ∷ []) (signed ∷ []) sk ≡ ok (9 ∷ 0 ∷ 9 ∷ 1 ∷ [])
encrypt_example =
    encrypt_session_key_lem codec (signed ∷ []) (signed ∷ []) sk 9 public_key (public_key ∷ [])
      (9 ∷ 0 ∷ 9 ∷ 1 ∷ []) cipher_run refl refl

empty_example : encrypt_session_key codec ((signed ∷ []) ++ entity none ∷ signed ∷ []) [] sk ≡ ok []
empty_example =
    encrypt_session_key-empty codec (signed ∷ []) (signed ∷ []) (entity none) sk 9 (public_key ∷ [])
      public_key cipher_run refl refl refl
