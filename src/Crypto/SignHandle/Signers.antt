-- ===== src/Crypto/SignHandle/Signers.antt =====
-- Which keys sign (crypto/sign_handle.go).
use gopenpgp.Base.{
  Bool, true, false, Option, none, some, List, [], ◌∷◌, Bytes, Result, ok, err, panic, ◌>>=◌, ◌≡◌,
  ◌↔◌, refl, arith,
}
use gopenpgp.Profile.{Custom, sign_config}
use gopenpgp.Crypto.Entity.{Entity, PrivateKey}
use gopenpgp.Crypto.KeyRing.{KeyRing}
use gopenpgp.Crypto.Config.{Config, unix}
use gopenpgp.Crypto.SignHandle.{
  SignatureHandle, SignCodec, Headers, usable_key, cleartext_keys, signed_cleartext, sign_cleartext,
}

module _ {W : Type 0} (codec : SignCodec W) where
  -- The signing keys of the entities in their order, none of them locked.
  abbrev pub AreKeys : Config → List Entity → List PrivateKey → Type 0
  AreKeys config [] [] = Unit
  AreKeys config [] (p ∷ ps) = ⊥
  AreKeys config (e ∷ es) [] = ⊥
  AreKeys config (e ∷ es) (p ∷ ps) =
      (codec.signing_key e config ≡ some (some p)) × (p.encrypted ≡ false) × AreKeys config es ps

  usable_key_lem :
      (o : Option (Option PrivateKey)) (p : PrivateKey)
      → (usable_key o ≡ ok p) ↔ ((o ≡ some (some p)) × (p.encrypted ≡ false))
  unfolding usable_key
  usable_key_lem none p = ground arith
  usable_key_lem (some none) p = ground arith
  usable_key_lem (some (some q)) p = ground arith

  cleartext_keys_lem :
      (config : Config) (es : List Entity) (ps : List PrivateKey)
      → (cleartext_keys codec config es ≡ ok ps) ↔ AreKeys config es ps
  unfolding cleartext_keys
  cleartext_keys_lem config [] [] = ground arith
  cleartext_keys_lem config [] (p ∷ ps) = ground arith
  cleartext_keys_lem config (e ∷ es) [] =
      by_key (usable_key (codec.signing_key e config)) (cleartext_keys codec config es)
    where
      by_key :
          (o : Result PrivateKey) (r : Result (List PrivateKey))
          → ((o >>= λ q. r >>= λ qs. ok (q ∷ qs)) ≡ ok []) ↔ ⊥
      by_key (ok q) (ok qs) = ground arith
      by_key (ok q) (err x) = ground arith
      by_key (ok q) panic = ground arith
      by_key (err x) r = ground arith
      by_key panic r = ground arith
  cleartext_keys_lem config (e ∷ es) (p ∷ ps) =
      by_key (usable_key (codec.signing_key e config)) (cleartext_keys codec config es)
        (usable_key_lem (codec.signing_key e config) p) (cleartext_keys_lem config es ps)
    where
      by_key :
          (o : Result PrivateKey) (r : Result (List PrivateKey))
          → (o ≡ ok p) ↔ ((codec.signing_key e config ≡ some (some p)) × (p.encrypted ≡ false))
          → (r ≡ ok ps) ↔ AreKeys config es ps
          → ((o >>= λ q. r >>= λ qs. ok (q ∷ qs)) ≡ ok (p ∷ ps)) ↔ (
              (codec.signing_key e config ≡ some (some p))
              × (p.encrypted ≡ false)
              × AreKeys config es ps)
      by_key (ok q) (ok qs) h k = ground arith
      by_key (ok q) (err x) h k = ground arith
      by_key (ok q) panic h k = ground arith
      by_key (err x) r h k = ground arith
      by_key panic r h k = ground arith

  signed_cleartext_sound :
      (config : Config) (headers : Headers) (message out : Bytes) (b : Bool) (o : Option KeyRing)
      → signed_cleartext codec config headers message b o ≡ ok out
      → (b ≡ true)
        × ((ring : KeyRing) × (ps : List PrivateKey) × (o ≡ some ring)
            × AreKeys config ring.entities ps
            × (codec.encode_cleartext ps config headers message ≡ ok out))
  unfolding signed_cleartext
  signed_cleartext_sound config headers message out false o h = absurd (ground arith)
  signed_cleartext_sound config headers message out true none h = absurd (ground arith)
  signed_cleartext_sound config headers message out true (some ring) h =
      by_keys (cleartext_keys codec config ring.entities)
        (λ ps. (cleartext_keys_lem config ring.entities ps).0) h
    where
      by_keys :
          (r : Result (List PrivateKey))
          → ((ps : List PrivateKey) → r ≡ ok ps → AreKeys config ring.entities ps)
          → (r >>= λ keys. codec.encode_cleartext keys config headers message) ≡ ok out
          → (◌≡◌ {A = Bool} true true)
            × ((ring' : KeyRing) × (ps : List PrivateKey) × (some ring ≡ some ring')
                × AreKeys config ring'.entities ps
                × (codec.encode_cleartext ps config headers message ≡ ok out))
      by_keys (ok ps) law k = (refl, (ring, ps, refl, law ps refl, k))
      by_keys (err x) law k = absurd (ground arith)
      by_keys panic law k = absurd (ground arith)

  -- A cleartext message is signed only if it is UTF-8 and the handle has a key ring, and then with one key of
  -- each of its entities, in order, none of them locked, on the message as it is.
  pub sign_cleartext_sound :
      (profile : Custom) (sh : SignatureHandle) (headers : Headers) (message out : Bytes)
      → sign_cleartext codec profile sh headers message ≡ ok out
      → (codec.is_valid_utf8 message ≡ true)
        × ((ring : KeyRing) × (ps : List PrivateKey) × (sh.sign_key_ring ≡ some ring)
            × AreKeys
                (record (sign_config profile) { time = some (unix sh.clock) })
                ring.entities
                ps
            × (codec.encode_cleartext ps
                  (record (sign_config profile) { time = some (unix sh.clock) })
                  headers
                  message
                ≡ ok out))
  unfolding sign_cleartext
  sign_cleartext_sound profile sh headers message out h =
      signed_cleartext_sound (record (sign_config profile) { time = some (unix sh.clock) }) headers
        message out (codec.is_valid_utf8 message) sh.sign_key_ring h
