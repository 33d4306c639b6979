-- ===== src/Crypto/EncryptionCore/Detached.antt =====
-- What a stream with a detached signature leaves behind (crypto/encryption_core.go).
use gopenpgp.Base.{
  Bool, false, Option, none, some, Bytes, Error, Result, ok, err, panic, ◌≡◌, refl, sym, ◌∙◌, ap,
  arith, ◌⊎◌,
}
use gopenpgp.Profile.{Custom}
use gopenpgp.Crypto.KeyClear.{clear_mem}
use gopenpgp.Crypto.SessionKey.{SessionKey}
use gopenpgp.Crypto.SessionPackets.{SessionCodec}
use gopenpgp.Crypto.Message.{LiteralMetadata}
use gopenpgp.Crypto.SignHandle.{SignCodec}
use gopenpgp.Crypto.EncryptionHandle.{EncryptionHandle}
use gopenpgp.Crypto.EncryptionCore.{EncryptCodec, DetachedWriter}
use gopenpgp.Crypto.EncryptionCore.Stream.{
  Outcome, encrypt_sign_detached_stream_with_session_key, streams_behind, clear_generated,
  with_generated, encrypt_sign_detached_stream_to_recipients, key_packets, send_keys,
  by_session_key, no_key_material, detached_writers,
}

module _ {W : Type 0} (codec : EncryptCodec W) (sign : SignCodec W) (profile : Custom)
    (packets : SessionCodec) (keys : Option W) (metadata : Option LiteralMetadata)
    (signature_writer data_writer : W) (encrypt_signature : Bool) where
  abbrev run : Result SessionKey → EncryptionHandle → Outcome W
  run =
      encrypt_sign_detached_stream_to_recipients codec sign profile packets keys metadata
        signature_writer data_writer encrypt_signature

  abbrev behind : EncryptionHandle → Bytes × Option Error → Outcome W
  behind =
      streams_behind codec sign profile packets keys metadata signature_writer data_writer
        encrypt_signature

  behind-handle : (eh : EncryptionHandle) (b : Bytes × Option Error) → (behind eh b).handle ≡ eh
  unfolding streams_behind encrypt_sign_detached_stream_with_session_key
  behind-handle eh (b, some e) = refl
  behind-handle eh (b, none) = ground arith

  abbrev by_key : Result SessionKey → EncryptionHandle → Option SessionKey → Outcome W
  by_key =
      by_session_key codec sign profile packets keys metadata signature_writer data_writer
        encrypt_signature

  without_key :
      (eh : EncryptionHandle) → eh.session_key ≡ none → record eh { session_key = none } ≡ eh
  without_key eh h = ap (λ (k : Option SessionKey). record eh { session_key = k }) (sym h)

  by_key-handle :
      (generated : Result SessionKey) (eh : EncryptionHandle) (o : Option SessionKey)
      → eh.session_key ≡ o
      → (by_key generated eh o).handle ≡ eh
  unfolding by_session_key with_generated clear_generated
  by_key-handle (ok sk) eh none h =
      ap (λ (e : EncryptionHandle). record e { session_key = none })
        (behind-handle (record eh { session_key = some sk })
          (key_packets packets (record eh { session_key = some sk }) sk))
      ∙ without_key eh h
  by_key-handle (err e) eh none h = without_key eh h
  by_key-handle panic eh none h = without_key eh h
  by_key-handle generated eh (some sk) h = behind-handle eh (key_packets packets eh sk)

  -- On every path, errors included, the handle is afterwards as it was: the key ring to sign with is back and
  -- a generated session key is gone.
  pub encrypt_sign_detached-handle :
      (generated : Result SessionKey) (eh : EncryptionHandle) → (run generated eh).handle ≡ eh
  unfolding encrypt_sign_detached_stream_to_recipients
  encrypt_sign_detached-handle generated eh = by_key-handle generated eh eh.session_key refl

  -- The session key of the handle, or the generated one, which is zero afterwards.
  abbrev pub Uses : Result SessionKey → EncryptionHandle → SessionKey → Option Bytes → Type 0
  Uses generated eh sk memory =
      (eh.session_key ≡ some sk)
      ⊎ ((eh.session_key ≡ none) × (generated ≡ ok sk) × (memory ≡ some (clear_mem sk.key)))

  -- Key packets and streams for one session key.
  abbrev pub Sent : EncryptionHandle → SessionKey → Outcome W → DetachedWriter W → Type 0
  Sent eh sk outcome w =
      (no_key_material eh ≡ false)
      × ((key_packets packets (record eh { session_key = some sk }) sk).1 ≡ none)
      × (outcome.sent
          ≡ send_keys keys data_writer signature_writer
              (key_packets packets (record eh { session_key = some sk }) sk).0)
      × (detached_writers codec sign profile (record eh { session_key = some sk })
            (record eh { session_key = some sk; sign_key_ring = none }) metadata signature_writer
            data_writer encrypt_signature
          ≡ ok w)

  no_key_material-session_key :
      (eh : EncryptionHandle) (sk : SessionKey)
      → no_key_material (record eh { session_key = some sk }) ≡ no_key_material eh
  unfolding no_key_material
  no_key_material-session_key eh sk = refl
