-- ===== src/Crypto/SessionPackets/Opened.antt =====
-- Which private keys decryptSessionKey uses (crypto/encryption_session.go).
use mathlib.Core.List.{Memᴰ}
use mathlib.Core.List.Memᴰ.{head, tail}
use gopenpgp.Base.{
  ℕ, Bool, true, false, Option, none, some, List, [], ◌∷◌, Bytes, Error, ok, if◌then◌else◌, ◌≡◌,
  ◌≢◌, refl, subst, ◌⊎◌, inl, inr, arith, All, Bool-cases,
}
use gopenpgp.Crypto.Entity.{Entity, PrivateKey}
use gopenpgp.Crypto.SessionKey.{SessionKey, EncryptedKey, key_bytes, new_session_key_from_encrypted}
use gopenpgp.Crypto.SessionKey.Algorithms.{new_session_key_from_encrypted-key}
use gopenpgp.Crypto.Packets.{
  Next, Item, encrypted_key, symmetric_key_encrypted, symmetrically_encrypted, aead_encrypted,
  compressed, literal_data, one_pass_signature, signature, other, packet, failed,
}
use gopenpgp.Crypto.SessionPackets.{
  SessionCodec, Search, try_keys, try_entities, search, opened, decrypt_session_key,
}

-- The parser leaves the session key of a packet nil.
abbrev pub IsFresh : Item → Type 0
IsFresh item = (k : EncryptedKey) → item.next ≡ packet (encrypted_key k) → k.key ≡ none

module _ (codec : SessionCodec) where
  -- The key ring has the private key for some key id.
  pub data Offers (priv : PrivateKey) : Type 0 where
    offers :
        (id : ℕ) (e : Entity)
        → Memᴰ e (codec.entities_by_id id)
        → Memᴰ priv (codec.decryption_keys e id)
        → Offers priv

  -- A private key of the ring that is not encrypted has opened the packet.
  pub data Opening (ek : EncryptedKey) : Type 0 where
    opening :
        (priv : PrivateKey) (sealed : EncryptedKey)
        → Offers priv
        → priv.encrypted ≡ false
        → codec.decrypt sealed priv ≡ (ek, none)
        → Opening ek

  -- What the loop knows of a packet while its last error is nil.
  abbrev IsSafe : EncryptedKey → Option Error → Type 0
  IsSafe ek last = last ≡ none → (ek.key ≡ none) ⊎ Opening ek

  abbrev IsSafeResult : EncryptedKey × Option Error × Bool → Type 0
  IsSafeResult (ek, last, found) = IsSafe ek last

  try_keys-IsSafe :
      (privs : List PrivateKey) (ek : EncryptedKey) (last : Option Error)
      → All Offers privs
      → IsSafe ek last
      → IsSafeResult (try_keys codec ek last privs)
  unfolding try_keys
  try_keys-IsSafe [] ek last o h = h
  try_keys-IsSafe (priv ∷ privs) ek last (o, os) h = elim (Bool-cases priv.encrypted) [
    | inl e ↦ rw e (try_keys-IsSafe privs ek last os h)
    | inr e ↦
        by_answer (codec.decrypt ek priv) refl e
          (λ ek' x. try_keys-IsSafe privs ek' (some x) os (λ h'. cc))
  ]
    where
      by_answer :
          (r : EncryptedKey × Option Error)
          → codec.decrypt ek priv ≡ r
          → priv.encrypted ≡ false
          → ((ek' : EncryptedKey) (x : Error) → IsSafeResult (try_keys codec ek' (some x) privs))
          → IsSafeResult (try_keys codec ek last (priv ∷ privs))
      by_answer (ek', none) answer e ih = rw (answer, e) (λ _. inr (opening priv ek o e answer))
      by_answer (ek', some x) answer e ih = rw (answer, e) (ih ek' x)

  All-of : {A : Type 0} (P : A → Type 0) (xs : List A) → ((x : A) → Memᴰ x xs → P x) → All P xs
  All-of P [] h = tt
  All-of P (x ∷ xs) h = (h x (head refl), All-of P xs (λ y m. h y (tail m)))

  try_entities-IsSafe :
      (id : ℕ) (es : List Entity) (ek : EncryptedKey) (last : Option Error)
      → All (λ e. Memᴰ e (codec.entities_by_id id)) es
      → IsSafe ek last
      → IsSafeResult (try_entities codec id ek last es)
  unfolding try_entities
  try_entities-IsSafe id [] ek last o h = h
  try_entities-IsSafe id (e ∷ es) ek last (m, ms) h =
      by_keys (try_keys codec ek last (codec.decryption_keys e id)) refl
        (try_keys-IsSafe (codec.decryption_keys e id) ek last
          (All-of Offers (codec.decryption_keys e id) (λ p mp. offers id e m mp)) h)
        (λ ek' last' h'. try_entities-IsSafe id es ek' last' ms h')
    where
      by_keys :
          (r : EncryptedKey × Option Error × Bool)
          → try_keys codec ek last (codec.decryption_keys e id) ≡ r
          → IsSafeResult r
          → ((ek' : EncryptedKey) (last' : Option Error)
              → IsSafe ek' last'
              → IsSafeResult (try_entities codec id ek' last' es))
          → IsSafeResult (try_entities codec id ek last (e ∷ es))
      by_keys (ek', last', true) e h ih = rw e h
      by_keys (ek', last', false) e h ih = rw e (ih ek' last' h)

  -- The state of the loop between two packets.
  abbrev IsSafeSearch : Search → Type 0
  IsSafeSearch s = (ek : EncryptedKey) → s.ek ≡ some ek → IsSafe ek s.decrypt_error

  search-IsSafe :
      (items : List Item) (s : Search)
      → All IsFresh items
      → IsSafeSearch s
      → IsSafeSearch (search codec s items)
  unfolding search
  search-IsSafe [] s f h = h
  search-IsSafe (item ∷ items) s (f, fs) h =
      by_next item.next refl f (search-IsSafe items s fs h) (λ s' h'. search-IsSafe items s' fs h')
    where
      inside : (a b : EncryptedKey) → some a ≡ some b → a ≡ b
      inside a b e = cc

      by_result :
          (r : EncryptedKey × Option Error × Bool)
          → IsSafeResult r
          → ((s' : Search) → IsSafeSearch s' → IsSafeSearch (search codec s' items))
          → let s' : Search = record { ek = some r.0; decrypt_error = r.1; next_error = none } in
            IsSafeSearch (if r.2 then s' else search codec s' items)
      by_result (ek', last', true) safe go_on =
          λ ek e. subst (λ x. IsSafe x last') (inside ek' ek e) safe
      by_result (ek', last', false) safe go_on =
          go_on (record { ek = some ek'; decrypt_error = last'; next_error = none })
            (λ ek e. subst (λ x. IsSafe x last') (inside ek' ek e) safe)

      by_next :
          (n : Next)
          → item.next ≡ n
          → IsFresh item
          → IsSafeSearch (search codec s items)
          → ((s' : Search) → IsSafeSearch s' → IsSafeSearch (search codec s' items))
          → IsSafeSearch (search codec s (item ∷ items))
      by_next (failed x) e f skip go_on = rw e h
      by_next (packet symmetrically_encrypted) e f skip go_on = rw e h
      by_next (packet aead_encrypted) e f skip go_on = rw e h
      by_next (packet compressed) e f skip go_on = rw e h
      by_next (packet literal_data) e f skip go_on = rw e h
      by_next (packet (symmetric_key_encrypted n)) e f skip go_on = rw e skip
      by_next (packet (one_pass_signature n)) e f skip go_on = rw e skip
      by_next (packet (signature n)) e f skip go_on = rw e skip
      by_next (packet (other n)) e f skip go_on = rw e skip
      by_next (packet (encrypted_key k)) e f skip go_on = rw e (
          by_result (try_entities codec k.key_id k s.decrypt_error (codec.entities_by_id k.key_id))
            (try_entities-IsSafe k.key_id (codec.entities_by_id k.key_id) k s.decrypt_error
              (All-of (λ x. Memᴰ x (codec.entities_by_id k.key_id)) (codec.entities_by_id k.key_id)
                (λ x m. m))
              (λ _. inl (f k e)))
            go_on)

  -- The last step: the session key is that of the packet.
  opened_lem :
      (s : Search) (sk : SessionKey)
      → IsSafeSearch s
      → opened codec s ≡ ok sk
      → (ek : EncryptedKey) × Opening ek × (sk.key ≡ key_bytes ek.key)
  unfolding opened
  opened_lem s sk h e = by_state s.ek refl
    where
      opened_by : (ek : EncryptedKey) → ek.key ≢ none → (ek.key ≡ none) ⊎ Opening ek → Opening ek
      opened_by ek n (inl e) = absurd (n e)
      opened_by ek n (inr o) = o

      by_state :
          (o : Option EncryptedKey)
          → s.ek ≡ o
          → (ek : EncryptedKey) × Opening ek × (sk.key ≡ key_bytes ek.key)
      by_state none e' = absurd (ground arith)
      by_state (some ek) e' =
          let answer : new_session_key_from_encrypted codec.key_size codec.algo_order ek ≡ ok sk =
            ground arith in
          (
            ek,
            opened_by ek (ground arith) (h ek e' (ground arith)),
            new_session_key_from_encrypted-key codec.key_size codec.algo_order ek sk answer,
          )

-- If decryptSessionKey returns a session key, a private key that the ring has for some key id and that is
-- not encrypted has opened a packet with that key. The hypothesis on go-crypto's parser is that it
-- leaves the session key of a packet nil.
pub decrypt_session_key-Opening :
    (codec : SessionCodec) (key_packet : Bytes) (sk : SessionKey)
    → All IsFresh (codec.packets key_packet)
    → decrypt_session_key codec key_packet ≡ ok sk
    → (ek : EncryptedKey) × Opening codec ek × (sk.key ≡ key_bytes ek.key)
unfolding decrypt_session_key
decrypt_session_key-Opening codec key_packet sk fresh h =
    opened_lem codec
      (search codec (record { ek = none; decrypt_error = none; next_error = none })
        (codec.packets key_packet))
      sk
      (search-IsSafe codec (codec.packets key_packet)
        (record { ek = none; decrypt_error = none; next_error = none }) fresh (λ ek e. cc))
      h
