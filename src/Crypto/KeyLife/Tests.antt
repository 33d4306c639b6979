-- ===== src/Crypto/KeyLife/Tests.antt =====
-- Runs that lock and unlock a key.
use gopenpgp.Base.{Option, some, [], ◌∷◌, Bytes, ok, ◌≡◌, refl}
use gopenpgp.Crypto.Samples.{open_key, locked_key, codec}
use gopenpgp.Crypto.Key.{is_locked, is_unlocked}
use gopenpgp.Crypto.KeyLife.{
  copy, serialize, new_key, lock, lock_with, unlock, unlock_not_locked, unlock_locked,
}
use gopenpgp.Crypto.KeyLife.Locking.{unlock-lock}

abbrev passphrase : Option Bytes
passphrase = some (9 ∷ [])

lock_run : lock codec open_key passphrase 0 ≡ ok locked_key
unfolding lock lock_with copy new_key serialize is_unlocked is_locked
lock_run = refl

unlock_run : unlock codec locked_key passphrase ≡ ok open_key
unfolding unlock unlock_locked unlock_not_locked copy new_key serialize is_locked is_unlocked
unlock_run = refl

unlock-lock_example : unlock codec locked_key passphrase ≡ ok open_key
unlock-lock_example =
    unlock-lock codec open_key locked_key (9 ∷ []) 0 (2 ∷ [], refl, refl, refl)
      (1 ∷ [], refl, refl, refl) (λ e h. refl) lock_run
