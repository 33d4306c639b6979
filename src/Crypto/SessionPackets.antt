-- ===== src/Crypto/SessionPackets.antt =====
-- crypto/encryption_session.go: packets with encrypted session keys. What go-crypto decides about
-- entities and does with packets is the parameter `SessionCodec`; a writer is the bytes written to it.
pub mod Opened
pub mod Password
pub mod Recipients
pub mod Sample
mod Tests
use gopenpgp.Base.{
  ℕ, suc, ◌+◌, Bool, true, false, not, ◌&&◌, Option, none, some, List, [], ◌∷◌, ◌++◌, Bytes, String,
  Error, eof, Result, ok, err, panic, ◌>>=◌, ◌>>◌, fail_if, wrap_err, length, leb, ◌==◌, is_none,
  is_some, is_cons, if◌then◌else◌,
}
use gopenpgp.Crypto.Entity.{Entity, PrivateKey, PublicKey}
use gopenpgp.Crypto.SessionKey.{
  SessionKey, EncryptedKey, get_algo, get_cipher_func, check_size, new_session_key_from_encrypted,
}
use gopenpgp.Crypto.Packets.{
  Packet, Next, Item, encrypted_key, symmetric_key_encrypted, symmetrically_encrypted,
  aead_encrypted, compressed, literal_data, packet, failed,
}

-- The functions of go-crypto for a key ring, a time and a configuration that stay the same during a call.
pub record SessionCodec : Type 0 where
  pub key_size : ℕ → ℕ
  -- The entries of `symKeyAlgos` in the order that the run gets them.
  pub algo_order : List (String × ℕ)
  pub packets : Bytes → List Item
  pub entities_by_id : ℕ → List Entity
  pub decryption_keys : Entity → ℕ → List PrivateKey
  pub decrypt : EncryptedKey → PrivateKey → EncryptedKey × Option Error
  pub decrypt_symmetric : ℕ → Bytes → Result (Bytes × ℕ)
  pub encryption_key : Entity → Option PublicKey
  -- Whether the primary self-signature, if there is one, announces SEIPDv2.
  pub primary_self_signature : Entity → Option Bool
  pub config_cipher : ℕ
  pub has_aead : Bool
  -- The bytes written and the error.
  pub serialize_encrypted_key : PublicKey → ℕ → Bool → Bytes → Bool → Bytes × Option Error
  pub serialize_symmetric : ℕ → Bytes → Bytes → Result Bytes

-- The variables of the loop of decryptSessionKey; `hasPacket` holds exactly if `ek` is not nil.
pub record Search : Type 0 where
  pub ek : Option EncryptedKey
  pub decrypt_error : Option Error
  pub next_error : Option Error

-- `pubKeys = append(pubKeys, …)`, in front of what the rest of the loop gives.
pub add_public_key :
    PublicKey
    → Option Error × Option (List PublicKey × Bool)
    → Option Error × Option (List PublicKey × Bool)
add_public_key k (failure, none) = (failure, none)
add_public_key k (failure, some (ks, aead)) = (failure, some (k ∷ ks, aead))

-- The bytes of the buffer, unless the writing failed.
pub buffered : Bytes × Option Error → Result Bytes
buffered (out, none) = ok out
buffered (out, some e) = err e

module _ (codec : SessionCodec) where
  -- The keys of one entity: the packet, the last error, and whether a key has opened it.
  pub try_keys : EncryptedKey → Option Error → List PrivateKey → EncryptedKey × Option Error × Bool
  try_keys ek last [] = (ek, last, false)
  try_keys ek last (priv ∷ privs) =
      let (ek', failure) = codec.decrypt ek priv in
      let skip = try_keys ek last privs in
      let go_on = try_keys ek' failure privs in
      if priv.encrypted then skip else if is_none failure then (ek', none, true) else go_on

  -- The entities that the key id of the packet points at.
  pub try_entities :
      ℕ → EncryptedKey → Option Error → List Entity → EncryptedKey × Option Error × Bool
  unfolding try_keys
  try_entities id ek last [] = (ek, last, false)
  try_entities id ek last (e ∷ es) =
      let (ek', last', found) = try_keys ek last (codec.decryption_keys e id) in
      let go_on = try_entities id ek' last' es in if found then (ek', last', true) else go_on

  -- The loop over the packets.
  pub search : Search → List Item → Search
  unfolding try_entities
  search s [] = record s { next_error = some eof }
  search s (item ∷ items) = elim item.next [
    | failed e ↦ record s { next_error = some e }
    | packet p ↦ elim p [
      | encrypted_key k ↦
          let (ek, last, found) =
            try_entities k.key_id k s.decrypt_error (codec.entities_by_id k.key_id) in
          let s' : Search = record { ek = some ek; decrypt_error = last; next_error = none } in
          let go_on = search s' items in if found then s' else go_on
      | symmetrically_encrypted ↦ record s { next_error = none }
      | aead_encrypted ↦ record s { next_error = none }
      | compressed ↦ record s { next_error = none }
      | literal_data ↦ record s { next_error = none }
      | _ ↦ search s items
    ]
  ]

  -- What decryptSessionKey does behind the loop.
  pub opened : Search → Result SessionKey
  opened s = elim s.ek [
    | none ↦ elim s.next_error [
      | some e ↦ err (Error.wrapped "gopenpgp: couldn't find a session key packet" e)
      | none ↦ err (Error.new "gopenpgp: couldn't find a session key packet")
    ]
    | some ek ↦ elim s.decrypt_error [
      | some e ↦ err (Error.wrapped "gopenpgp: error in decrypting" e)
      | none ↦
          if is_none ek.key
          then err (Error.new "gopenpgp: unable to decrypt session key: no valid decryption key")
          else new_session_key_from_encrypted codec.key_size codec.algo_order ek
    ]
  ]

  -- decryptSessionKey
  pub decrypt_session_key : Bytes → Result SessionKey
  unfolding search opened
  decrypt_session_key key_packet = opened (
      search (record { ek = none; decrypt_error = none; next_error = none })
        (codec.packets key_packet))

  -- The cipher of both functions that encrypt a session key.
  unfoldable pub cipher_for : SessionKey → Result ℕ
  cipher_for sk = if sk.v6 then ok codec.config_cipher else get_cipher_func sk

  -- The loop over the entities: the keys and the support of AEAD. A missing self-signature returns
  -- `errors.Wrap(err, …)`, and `err` is nil there: the function returns without an error. The key id is
  -- left out of the other error.
  pub collect : List Entity → Bool → Option Error × Option (List PublicKey × Bool)
  unfolding add_public_key
  collect [] aead = (none, some ([], aead))
  collect (e ∷ es) aead =
      let rest = collect es aead in
      let without = collect es false in
      elim (codec.encryption_key e) [
        | none ↦ (some (Error.new "gopenpgp: encryption key is unavailable for key id "), none)
        | some pub_key ↦ elim (codec.primary_self_signature e) [
          | none ↦ (none, none)
          | some seipd_v2 ↦ add_public_key pub_key (if seipd_v2 then rest else without)
        ]
      ]

  -- The loop over the keys: the bytes written and the error.
  pub write_keys : List PublicKey → ℕ → ℕ → ℕ → Bool → SessionKey → Bytes × Option Error
  write_keys [] index visible cf aead sk = ([], none)
  write_keys (k ∷ ks) index visible cf aead sk =
      let (out, failure) = write_keys ks (suc index) visible cf aead sk in
      let (b, problem) = codec.serialize_encrypted_key k cf aead sk.key (leb visible index) in
      elim problem [
        | none ↦ (b ++ out, failure)
        | some e ↦ (b, some (Error.wrapped "gopenpgp: cannot set key" e))
      ]

  -- encryptSessionKeyToWriter behind the loop over the entities.
  pub encrypt_to_keys :
      ℕ → SessionKey → ℕ → Option Error × Option (List PublicKey × Bool) → Bytes × Option Error
  encrypt_to_keys visible sk cf (failure, none) = ([], failure)
  encrypt_to_keys visible sk cf (failure, some (ks, aead)) =
      if is_cons ks
      then write_keys ks 0 visible cf aead sk
      else ([], some (Error.new "gopenpgp: cannot set key: no public key available"))

  -- encryptSessionKeyToWriter behind the choice of the cipher.
  pub encrypt_to : List Entity → List Entity → SessionKey → ℕ → Bytes × Option Error
  encrypt_to recipients hidden sk cf =
      encrypt_to_keys (length recipients) sk cf (collect (recipients ++ hidden) codec.has_aead)

  -- What encryptSessionKeyToWriter does with the cipher or the error of its choice, which does not panic.
  pub encrypt_with : List Entity → List Entity → SessionKey → Result ℕ → Bytes × Option Error
  encrypt_with recipients hidden sk (ok cf) = encrypt_to recipients hidden sk cf
  encrypt_with recipients hidden sk (err e) =
      ([], some (Error.wrapped "gopenpgp: unable to encrypt session key" e))
  encrypt_with recipients hidden sk panic = ([], none)

  -- encryptSessionKeyToWriter
  pub encrypt_session_key_to_writer : List Entity → List Entity → SessionKey → Bytes × Option Error
  encrypt_session_key_to_writer recipients hidden sk =
      encrypt_with recipients hidden sk (cipher_for sk)

  -- encryptSessionKey
  pub encrypt_session_key : List Entity → List Entity → SessionKey → Result Bytes
  encrypt_session_key recipients hidden sk =
      buffered (encrypt_session_key_to_writer recipients hidden sk)

  -- The symmetric-key packets up to the first answer that is an error.
  pub symmetric_keys : List Item → List ℕ
  symmetric_keys [] = []
  symmetric_keys (item ∷ items) = elim item.next [
    | failed e ↦ []
    | packet p ↦ elim p [
      | symmetric_key_encrypted s ↦ s ∷ symmetric_keys items
      | _ ↦ symmetric_keys items
    ]
  ]

  -- The session key of a packet that the password has opened.
  pub with_password : Bytes → ℕ → Result SessionKey
  with_password key cipher_func =
      let sk : SessionKey = record {
        key = key;
        algo = get_algo codec.algo_order cipher_func;
        v6 = cipher_func == 0;
      } in
      elim (check_size codec.key_size sk) [
        | none ↦ ok sk
        | some e ↦
            if sk.v6
            then ok sk
            else err (Error.wrapped "gopenpgp: unable to decrypt session key with password" e)
      ]

  -- The loop over the symmetric-key packets: the first one that the password opens.
  pub try_password : Bytes → List ℕ → Result SessionKey
  unfolding with_password
  try_password password [] = err (Error.new "gopenpgp: unable to decrypt any packet")
  try_password password (s ∷ ss) = elim (codec.decrypt_symmetric s password) [
    | ok (key, cipher_func) ↦ with_password key cipher_func
    | err e ↦ try_password password ss
    | panic ↦ panic
  ]

  -- decryptSessionKeyWithPassword; a nil password is `none`.
  pub decrypt_session_key_with_password : Bytes → Option Bytes → Result SessionKey
  unfolding symmetric_keys try_password
  decrypt_session_key_with_password key_packet none =
      err (Error.new "gopenpgp: unable to decrypt any packet")
  decrypt_session_key_with_password key_packet (some password) =
      try_password password (symmetric_keys (codec.packets key_packet))

  -- The test of the size, which a v6 session key has no need to pass.
  unfoldable pub check_known_size : SessionKey → Result (Unit {0})
  check_known_size sk = elim (check_size codec.key_size sk) [
    | none ↦ ok tt
    | some e ↦
        if sk.v6
        then ok tt
        else err (Error.wrapped "gopenpgp: unable to encrypt session key with password" e)
  ]

  -- encryptSessionKeyWithPassword and the function to a writer that it calls.
  unfoldable pub encrypt_session_key_with_password : SessionKey → Bytes → Result Bytes
  unfolding cipher_for check_known_size
  encrypt_session_key_with_password sk password = do
    cf ← wrap_err "gopenpgp: unable to encrypt session key with password" (cipher_for sk)
    fail_if (not (is_cons password)) (Error.new "gopenpgp: password can't be empty")
    check_known_size sk
    wrap_err "gopenpgp: unable to encrypt session key with password"
        (codec.serialize_symmetric cf sk.key password)
