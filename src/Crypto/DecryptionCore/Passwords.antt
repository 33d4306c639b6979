-- ===== src/Crypto/DecryptionCore/Passwords.antt =====
-- Which password opens a message (decryptStream of crypto/decryption_core.go).
use gopenpgp.Base.{
  ℕ, Bool, true, false, Option, none, some, List, [], ◌∷◌, ◌++◌, map, Bytes, Error, Result, ok, err,
  panic, any, ◌≡◌, ◌≢◌, refl, sym, ◌∙◌, ap, arith, is_some,
}
use gopenpgp.Internal.Reader.{Read, IsReader}
use gopenpgp.Internal.ResetReader.{ResetReader, Source, new_reset_reader}
use gopenpgp.Internal.ResetReader.Again.{
  reset_on, reading, source_content, calls, calls_lem, all_of,
}
use gopenpgp.Profile.{Custom}
use gopenpgp.Crypto.Entity.{Entity}
use gopenpgp.Crypto.Config.{Config, know_context, unix}
use gopenpgp.Crypto.DecryptionHandle.{DecryptionHandle}
use gopenpgp.Crypto.DecryptionCore.{
  DecryptCodec, Found, found, not_found, Prompt, create_password_prompt, decryption_config,
  entities_of, try_passwords, opened_reader, sanitizes,
}
use gopenpgp.Crypto.Reading.{Details}
use gopenpgp.Crypto.DecryptionCore.Streams.{decrypt_stream, read_found, read_opened}

-- What `openpgp.ReadMessage` accepts: bytes, keys, a prompt and a configuration.
abbrev pub Opens : Type 0
Opens = Bytes → List Entity → Option Prompt → Config → Bool

abbrev pub is_ok {ℓ} : {A : Type ℓ} → Result A → Bool
is_ok (ok a) = true
is_ok (err e) = false
is_ok panic = false

abbrev pub wrong_password : Error
wrong_password =
    Error.new
      "gopenpgp: error in reading password protected message: wrong password or malformed message"

module _ {S R D V : Type 0} (codec : DecryptCodec S R D V) (internal : Read S) (content : S → Bytes)
    (law : IsReader internal content) where
  -- `openpgp.ReadMessage` only reads from its input, decides by the bytes that the input has to give, and
  -- does not panic.
  pub record IsParser (opens : Opens) : Type 0 where
    pub decides :
        (rr : ResetReader S) (entries : List Entity) (prompt : Option Prompt) (config : Config)
        → is_ok (codec.read_buffered rr entries prompt config).0
          ≡ opens (source_content internal content law rr.reader) entries prompt config
    pub only_reads :
        (rr : ResetReader S) (entries : List Entity) (prompt : Option Prompt) (config : Config)
        → (ks : List ℕ) × ((codec.read_buffered rr entries prompt config).1
            ≡ calls internal content law (map reading ks) rr)
    pub returns :
        (rr : ResetReader S) (entries : List Entity) (prompt : Option Prompt) (config : Config)
        → (codec.read_buffered rr entries prompt config).0 ≢ panic

  -- Whether a password was found; `none` if the loop did not end by itself.
  abbrev outcome : Result (Found R) → Option Bool
  outcome (ok (found p md)) = some true
  outcome (ok (not_found last)) = some false
  outcome (err e) = none
  outcome panic = none

  module _ (opens : Opens) (parser : IsParser opens) (entries : List Entity) (config : Config)
      (all : Bytes) where
    abbrev fits : Bytes → Bool
    fits p = opens all entries (create_password_prompt (some p)) config

    -- A reset behind the reads of a failed attempt: everything comes again.
    reset_lem :
        (rr : ResetReader S) (prompt : Option Prompt)
        → all_of internal content law rr ≡ all
        → rr.buffer_data ≡ true
        → (all_of internal content law (codec.read_buffered rr entries prompt config).1 ≡ all)
          × ((codec.read_buffered rr entries prompt config).1.buffer_data ≡ true)
    reset_lem rr prompt h on =
        let (ks, same) = parser.only_reads rr entries prompt config in
        let (kept, still) = calls_lem internal content law (map reading ks) rr on in
        rw same (kept ∙ h, still)

    try_passwords_lem :
        (ps : List Bytes) (last : Option Error) (rr : ResetReader S)
        → rr.buffer ≡ []
        → source_content internal content law rr.reader ≡ all
        → rr.buffer_data ≡ true
        → outcome (try_passwords codec entries config last rr ps) ≡ some (any fits ps)
    unfolding try_passwords
    try_passwords_lem [] last rr b h on = refl
    try_passwords_lem (p ∷ ps) last rr b h on =
        by_answer (codec.read_buffered rr entries (create_password_prompt (some p)) config).0 refl
          (reset_lem rr (create_password_prompt (some p))
            (ap (λ t. t ++ source_content internal content law rr.reader) b ∙ h) on)
          (λ (e : Error) (rr' : ResetReader S). try_passwords_lem ps (some e) rr')
      where
        after : ResetReader S
        after = (codec.read_buffered rr entries (create_password_prompt (some p)) config).1

        decided :
            (o : Result (Details R))
            → (codec.read_buffered rr entries (create_password_prompt (some p)) config).0 ≡ o
            → fits p ≡ is_ok o
        decided o e =
            ap (λ t. opens t entries (create_password_prompt (some p)) config) (sym h)
            ∙ sym (parser.decides rr entries (create_password_prompt (some p)) config)
            ∙ ap is_ok e

        by_answer :
            (o : Result (Details R))
            → (codec.read_buffered rr entries (create_password_prompt (some p)) config).0 ≡ o
            → (all_of internal content law after ≡ all) × (after.buffer_data ≡ true)
            → ((e : Error) (rr' : ResetReader S)
                → rr'.buffer ≡ []
                → source_content internal content law rr'.reader ≡ all
                → rr'.buffer_data ≡ true
                → outcome (try_passwords codec entries config (some e) rr' ps) ≡ some (any fits ps))
            → outcome (try_passwords codec entries config last rr (p ∷ ps))
              ≡ some (any fits (p ∷ ps))
        by_answer (ok md) e (kept, still) ih = rw (e, decided (ok md) e) refl
        by_answer (err x) e (kept, still) ih =
            rw (e, reset_on after still, decided (err x) e)
              (ih x
                (record {
                  reader = Source.multi after.buffer after.reader;
                  buffer = [];
                  buffer_data = true;
                })
                refl kept refl)
        by_answer panic e (kept, still) ih =
            absurd (parser.returns rr entries (create_password_prompt (some p)) config e)

  read_found_lem :
      (profile : Custom) (dh : DecryptionHandle) (b : Bool) (o : Result (Found R))
      → outcome o ≡ some b
      → (is_ok (read_found codec profile dh o) ≡ b)
        × (is_ok (read_found codec profile dh o) ≡ false
            → read_found codec profile dh o ≡ err wrong_password)
  unfolding read_found
  read_found_lem profile dh b (ok (found p md)) h = (ground arith, λ k. absurd (ground arith))
  read_found_lem profile dh b (ok (not_found last)) h = (ground arith, λ k. refl)
  read_found_lem profile dh b (err e) h = absurd (ground arith)
  read_found_lem profile dh b panic h = absurd (ground arith)

  -- For a handle without a decryption key ring, over an input with a content and a parser that decides by
  -- content: decryptStream succeeds exactly if one of the passwords opens the message, each of them being
  -- tried on the whole of it; otherwise it reports a wrong password or a malformed message.
  pub decrypt_stream-passwords :
      (opens : Opens)
      → IsParser opens
      → (profile : Custom) (dh : DecryptionHandle) (s : S) → dh.decryption_key_ring ≡ none
      → (is_ok (decrypt_stream codec profile dh s)
          ≡ any
              (λ p.
                opens
                  (content s)
                  (entities_of dh.verify_key_ring)
                  (create_password_prompt (some p))
                  (know_context dh.verification_context
                    (decryption_config profile dh (unix dh.clock))))
              dh.passwords)
        × (is_ok (decrypt_stream codec profile dh s) ≡ false
            → decrypt_stream codec profile dh s ≡ err wrong_password)
  unfolding decrypt_stream new_reset_reader entities_of
  decrypt_stream-passwords opens parser profile dh s no_ring = simp no_ring (
      read_found_lem profile dh _ _ (
        try_passwords_lem opens parser _ _ _ dh.passwords none (new_reset_reader s) refl refl refl))

module _ {S R D V : Type 0} (codec : DecryptCodec S R D V) where
  read_opened-passwords :
      (profile : Custom) (dh : DecryptionHandle) (ps : List Bytes) (o : Result (Details R))
      → read_opened codec profile dh o ≡ read_opened codec profile (record dh { passwords = ps }) o
  unfolding read_opened opened_reader sanitizes
  read_opened-passwords profile dh ps (ok md) = refl
  read_opened-passwords profile dh ps (err e) = refl
  read_opened-passwords profile dh ps panic = refl

  is_some-ne-none : {A : Type 0} (o : Option A) → o ≢ none → is_some o ≡ true
  is_some-ne-none none h = absurd (h refl)
  is_some-ne-none (some a) h = refl

  -- With a decryption key ring decryptStream never tries a password: the handle's passwords make no
  -- difference.
  pub decrypt_stream-ignores_passwords :
      (profile : Custom) (dh : DecryptionHandle) (ps : List Bytes) (s : S)
      → dh.decryption_key_ring ≢ none
      → decrypt_stream codec profile dh s
        ≡ decrypt_stream codec profile (record dh { passwords = ps }) s
  unfolding decrypt_stream decryption_config
  decrypt_stream-ignores_passwords profile dh ps s ring =
      rw (is_some-ne-none dh.decryption_key_ring ring) (read_opened-passwords profile dh ps _)
