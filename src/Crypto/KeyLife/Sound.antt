-- ===== src/Crypto/KeyLife/Sound.antt =====
-- What a lock or an unlock that succeeds has established (crypto/key.go).
use gopenpgp.Base.{true, false, Option, none, some, Bytes, ok, ◌≡◌, ◌≢◌, arith}
use gopenpgp.Crypto.Key.{Key, is_locked, is_unlocked}
use gopenpgp.Crypto.KeyLife.{
  KeyCodec, copy, lock, lock_with, unlock, unlock_locked, unlock_not_locked,
}

module _ {Config : Type 0} (codec : KeyCodec Config) (key : Key) (config : Config) where
  -- A lock that succeeds with a passphrase started from an unlocked key and gives a locked one, and
  -- no passphrase gives a plain copy.
  pub lock_sound :
      (passphrase : Option Bytes) (locked : Key)
      → lock codec key passphrase config ≡ ok locked
      → (is_unlocked key ≡ ok true)
        × (passphrase ≢ none → is_locked locked ≡ ok true)
        × (passphrase ≡ none → copy codec key ≡ ok locked)
  unfolding lock lock_with
  lock_sound none locked h = ground arith
  lock_sound (some p) locked h = ground arith

module _ {Config : Type 0} (codec : KeyCodec Config) (key : Key) where
  -- An unlock that succeeds gives an unlocked key if the key was locked; if it was not, there was no
  -- passphrase and the result is a plain copy.
  pub unlock_sound :
      (passphrase : Option Bytes) (unlocked : Key)
      → unlock codec key passphrase ≡ ok unlocked
      → (is_locked key ≡ ok true → is_unlocked unlocked ≡ ok true)
        × (is_locked key ≡ ok false → (passphrase ≡ none) × (copy codec key ≡ ok unlocked))
  unfolding unlock unlock_not_locked unlock_locked
  unlock_sound none unlocked h = ground arith
  unlock_sound (some p) unlocked h = ground arith
