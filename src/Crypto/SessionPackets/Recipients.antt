-- ===== src/Crypto/SessionPackets/Recipients.antt =====
-- What encryptSessionKeyToWriter writes for which recipients (crypto/encryption_session.go).
use gopenpgp.Base.{
  ℕ, suc, Bool, true, false, ◌&&◌, Option, none, some, List, [], ◌∷◌, ◌++◌, Bytes, ok, length, leb,
  ◌≡◌, refl, ◌∙◌, append-nil, ap, arith,
}
use gopenpgp.Crypto.Entity.{Entity, PublicKey}
use gopenpgp.Crypto.SessionKey.{SessionKey}
use gopenpgp.Crypto.SessionPackets.{
  SessionCodec, cipher_for, add_public_key, collect, write_keys, encrypt_to_keys, encrypt_to,
  encrypt_with, buffered, encrypt_session_key_to_writer, encrypt_session_key,
}

module _ (codec : SessionCodec) where
  -- The recipients' keys, if each has an encryption key and a self-signature.
  abbrev pub all_keys : List Entity → Option (List PublicKey)
  all_keys [] = some []
  all_keys (e ∷ es) = elim (codec.encryption_key e) [
    | none ↦ none
    | some k ↦ elim (codec.primary_self_signature e) [
      | none ↦ none
      | some b ↦ elim (all_keys es) [ none ↦ none | some ks ↦ some (k ∷ ks) ]
    ]
  ]

  -- Every recipient's self-signature announces SEIPDv2.
  abbrev pub all_seipd_v2 : List Entity → Bool
  all_seipd_v2 [] = true
  all_seipd_v2 (e ∷ es) = elim (codec.primary_self_signature e) [
    | none ↦ false
    | some b ↦ b && all_seipd_v2 es
  ]

  -- A packet for each key, hidden from the given index on.
  abbrev pub all_packets : List PublicKey → ℕ → ℕ → ℕ → Bool → Bytes → Option Bytes
  all_packets [] index visible cf aead key = some []
  all_packets (k ∷ ks) index visible cf aead key =
      let (b, failed) = codec.serialize_encrypted_key k cf aead key (leb visible index) in
      elim failed [
        | some e ↦ none
        | none ↦ elim (all_packets ks (suc index) visible cf aead key) [
          | none ↦ none
          | some out ↦ some (b ++ out)
        ]
      ]

  collect_lem :
      (es : List Entity) (aead : Bool) (ks : List PublicKey)
      → all_keys es ≡ some ks
      → collect codec es aead ≡ (none, some (ks, aead && all_seipd_v2 es))
  unfolding collect add_public_key
  collect_lem [] aead ks h = ground arith
  collect_lem (e ∷ es) aead ks h = by_rest (all_keys es) refl (λ b ks' h'. collect_lem es b ks' h')
    where
      by_rest :
          (o : Option (List PublicKey))
          → all_keys es ≡ o
          → ((b : Bool) (ks' : List PublicKey)
              → all_keys es ≡ some ks'
              → collect codec es b ≡ (none, some (ks', b && all_seipd_v2 es)))
          → collect codec (e ∷ es) aead ≡ (none, some (ks, aead && all_seipd_v2 (e ∷ es)))
      by_rest none e' ih = absurd (ground arith)
      by_rest (some ks') e' ih = ground (arith, ih aead ks' e', ih false ks' e')

  write_keys_lem :
      (ks : List PublicKey) (index visible cf : ℕ) (aead : Bool) (sk : SessionKey) (out : Bytes)
      → all_packets ks index visible cf aead sk.key ≡ some out
      → write_keys codec ks index visible cf aead sk ≡ (out, none)
  unfolding write_keys
  write_keys_lem [] index visible cf aead sk out h = ground arith
  write_keys_lem (k ∷ ks) index visible cf aead sk out h =
      by_rest (all_packets ks (suc index) visible cf aead sk.key) refl
        (λ out' h'. write_keys_lem ks (suc index) visible cf aead sk out' h')
    where
      by_rest :
          (o : Option Bytes)
          → all_packets ks (suc index) visible cf aead sk.key ≡ o
          → ((out' : Bytes)
              → all_packets ks (suc index) visible cf aead sk.key ≡ some out'
              → write_keys codec ks (suc index) visible cf aead sk ≡ (out', none))
          → write_keys codec (k ∷ ks) index visible cf aead sk ≡ (out, none)
      by_rest none e ih = absurd (ground arith)
      by_rest (some out') e ih = ground (arith, ih out' e)

module _ (codec : SessionCodec) (e : Entity) (after : List Entity) (k : PublicKey) where
  -- The loop ends at the entity without a self-signature, without an error.
  collect-unsigned :
      codec.encryption_key e ≡ some k
      → codec.primary_self_signature e ≡ none
      → (es : List Entity) (aead : Bool) (ks : List PublicKey) → all_keys codec es ≡ some ks
      → collect codec (es ++ e ∷ after) aead ≡ (none, none)
  unfolding collect add_public_key
  collect-unsigned key unsigned [] aead ks h = ground arith
  collect-unsigned key unsigned (x ∷ es) aead ks h =
      by_rest (all_keys codec es) refl (λ b ks' h'. collect-unsigned key unsigned es b ks' h')
    where
      by_rest :
          (o : Option (List PublicKey))
          → all_keys codec es ≡ o
          → ((b : Bool) (ks' : List PublicKey)
              → all_keys codec es ≡ some ks'
              → collect codec (es ++ e ∷ after) b ≡ (none, none))
          → collect codec (x ∷ es ++ e ∷ after) aead ≡ (none, none)
      by_rest none e' ih = absurd (ground arith)
      by_rest (some ks') e' ih = ground (arith, ih aead ks' e', ih false ks' e')

-- Every recipient, hidden or not, has an encryption key and a self-signature, there is one at least, and
-- go-crypto serializes a packet for each. Then encryptSessionKey gives these packets in the order of the
-- recipients, marked hidden exactly behind the visible ones, with AEAD only if the configuration has it
-- and every self-signature announces SEIPDv2.
pub encrypt_session_key_lem :
    (codec : SessionCodec) (recipients hidden : List Entity) (sk : SessionKey) (cf : ℕ)
    (k : PublicKey) (ks : List PublicKey) (out : Bytes)
    → cipher_for codec sk ≡ ok cf
    → all_keys codec (recipients ++ hidden) ≡ some (k ∷ ks)
    → all_packets codec
        (k ∷ ks)
        0
        (length recipients)
        cf
        (codec.has_aead && all_seipd_v2 codec (recipients ++ hidden))
        sk.key
      ≡ some out
    → encrypt_session_key codec recipients hidden sk ≡ ok out
unfolding encrypt_session_key encrypt_session_key_to_writer encrypt_with encrypt_to encrypt_to_keys
    buffered
encrypt_session_key_lem codec recipients hidden sk cf k ks out cipher keys packets = ap buffered (
    ap (encrypt_with codec recipients hidden sk) cipher
    ∙ ap (encrypt_to_keys codec (length recipients) sk cf)
        (collect_lem codec (recipients ++ hidden) codec.has_aead (k ∷ ks) keys)
    ∙ write_keys_lem codec (k ∷ ks) 0 (length recipients) cf
        (codec.has_aead && all_seipd_v2 codec (recipients ++ hidden)) sk out packets)

-- If the recipients up to one have encryption keys and self-signatures, and that one has an encryption
-- key but no self-signature, encryptSessionKey reports success with an empty packet, whatever
-- recipients stand behind.
pub encrypt_session_key-empty :
    (codec : SessionCodec) (before after : List Entity) (e : Entity) (sk : SessionKey) (cf : ℕ)
    (ks : List PublicKey) (k : PublicKey)
    → cipher_for codec sk ≡ ok cf
    → all_keys codec before ≡ some ks
    → codec.encryption_key e ≡ some k
    → codec.primary_self_signature e ≡ none
    → encrypt_session_key codec (before ++ e ∷ after) [] sk ≡ ok []
unfolding encrypt_session_key encrypt_session_key_to_writer encrypt_with encrypt_to encrypt_to_keys
    buffered
encrypt_session_key-empty codec before after e sk cf ks k cipher keys key unsigned = ap buffered (
    ap (encrypt_with codec (before ++ e ∷ after) [] sk) cipher
    ∙ ap (encrypt_to_keys codec (length (before ++ e ∷ after)) sk cf) (
        ap (λ es. collect codec es codec.has_aead) (append-nil (before ++ e ∷ after))
        ∙ collect-unsigned codec e after k key unsigned before codec.has_aead ks keys))
