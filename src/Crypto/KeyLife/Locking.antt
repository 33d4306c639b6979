-- ===== src/Crypto/KeyLife/Locking.antt =====
-- Unlocking undoes locking (crypto/key.go).
use gopenpgp.Base.{true, false, some, [], ◌∷◌, Bytes, ok, ◌≡◌, arith, is_some}
use gopenpgp.Crypto.Entity.{Entity}
use gopenpgp.Crypto.Key.{Key, is_locked, is_unlocked}
use gopenpgp.Crypto.Key.State.{is_unlocked-private, is_locked-private}
use gopenpgp.Crypto.KeyLife.Sound.{lock_sound}
use gopenpgp.Crypto.KeyLife.{KeyCodec, copy, lock, lock_with, unlock, unlock_locked}

module _ {Config : Type 0} (codec : KeyCodec Config) where
  -- The library writes the private entity `e` as bytes without armor, and reads these back as `e`.
  abbrev pub IsFaithfulAt : Entity → Type 0
  IsFaithfulAt e =
      (b : Bytes) × (codec.serialize_private_without_signing e ≡ ok b)
      × (codec.is_pgp_armored b ≡ false)
      × (codec.read_key_ring b ≡ ok (e ∷ []))

  copy-eq_self :
      (key : Key)
      → is_some key.entity.private_key ≡ true
      → IsFaithfulAt key.entity
      → copy codec key ≡ ok key
  unfolding copy
  copy-eq_self key p (b, s, a, r) = ground arith

  lock_inv :
      (key copied locked : Key) (p : Bytes) (config : Config)
      → copy codec key ≡ ok copied
      → lock codec key (some p) config ≡ ok locked
      → (codec.encrypt_private_keys copied.entity p config ≡ ok locked.entity)
        × (is_locked locked ≡ ok true)
  unfolding lock lock_with
  lock_inv key copied locked p config c h = ground arith

  unlock_run :
      (key locked : Key) (p : Bytes)
      → is_locked locked ≡ ok true
      → copy codec locked ≡ ok locked
      → codec.decrypt_private_keys locked.entity p ≡ ok key.entity
      → is_unlocked key ≡ ok true
      → unlock codec locked (some p) ≡ ok key
  unfolding unlock unlock_locked
  unlock_run key locked p l c d u = rw (l, c, d, u)

  -- Locking with a passphrase and unlocking with it gives the key back, if the library serializes the
  -- key and the locked key faithfully, and its decryption with a passphrase undoes its encryption.
  pub unlock-lock :
      (key locked : Key) (passphrase : Bytes) (config : Config)
      → IsFaithfulAt key.entity
      → IsFaithfulAt locked.entity
      → ((e : Entity)
          → codec.encrypt_private_keys key.entity passphrase config ≡ ok e
          → codec.decrypt_private_keys e passphrase ≡ ok key.entity)
      → lock codec key (some passphrase) config ≡ ok locked
      → unlock codec locked (some passphrase) ≡ ok key
  unlock-lock key locked passphrase config fk fl undo h =
      let open_key = (lock_sound codec key config (some passphrase) locked h).0 in
      let copied = copy-eq_self key (is_unlocked-private key true open_key) fk in
      let (sealed, l) = lock_inv key key locked passphrase config copied h in
      unlock_run key locked passphrase l (copy-eq_self locked (is_locked-private locked true l) fl)
        (undo locked.entity sealed) open_key
