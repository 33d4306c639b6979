-- ===== src/Crypto/DecryptionCore/SessionKeys.antt =====
-- Session keys that are tried in turn, and the session key that a reader gives back
-- (crypto/decryption_core.go).
use gopenpgp.Base.{
  ℕ, suc, false, Option, none, some, List, [], ◌∷◌, ◌++◌, String, Error, ◌⊎◌, inl, inr, Result, ok,
  err, panic, ◌≡◌, refl, ◌∙◌, ap, arith, subst, wrap_err, ◌>>=◌,
}
use gopenpgp.Profile.{Custom}
use gopenpgp.Crypto.SessionKey.{SessionKey, get_algo, new_session_key_from_token}
use gopenpgp.Crypto.Config.{Config, unix}
use gopenpgp.Crypto.Entity.{Entity}
use gopenpgp.Crypto.VerifyReader.{VerifyDataReader, get_session_key}
use gopenpgp.Crypto.Reading.{Details, Sanitized, details_reader}
use gopenpgp.Crypto.DecryptionHandle.{DecryptionHandle}
use gopenpgp.Crypto.DecryptionCore.{
  Inner, DecryptCodec, entities_of, on_packet, decrypt_stream_with_session_key, try_session_keys,
  wrapped_nil, opened_reader, with_answer, tried_key,
}
use gopenpgp.Crypto.DecryptionCore.Streams.{
  decrypt_stream_with_session_and_parse, parse_decrypted, decrypt_stream_with_session, read_parsed,
  with_session_key, session_config,
}

ok_inj : {A : Type 0} (a b : A) → ◌≡◌ {A = Result A} (ok a) (ok b) → a ≡ b
ok_inj a b h = cc

module _ {S R D V : Type 0} (codec : DecryptCodec S R D V) (profile : Custom) where
  -- At an input that only reports an error, no session key opens anything.
  try_at_end :
      (fuel : ℕ) (s : S) (x : Error)
      → codec.next s ≡ (err x, s)
      → (last : Error) (sks : List SessionKey)
      → (e : Error) × (try_session_keys codec (suc fuel) (some last) sks s
          ≡ some (ok (inr (some e)), s))
  unfolding try_session_keys decrypt_stream_with_session_key on_packet
  try_at_end fuel s x done last [] = (last, refl)
  try_at_end fuel s x done last (sk ∷ sks) =
      let (e, h) =
        try_at_end fuel s x done (Error.wrapped "gopenpgp: unable to read symmetric packet" x)
          sks in
      (e, rw (try_session_keys, decrypt_stream_with_session_key, done) h)

  -- The input is not reset between session keys: once a session key has failed and left an input that
  -- only reports an error, decryptStreamWithSession fails, whichever session keys follow.
  pub decrypt_stream_with_session-used_up :
      (fuel : ℕ) (dh : DecryptionHandle) (s s' : S) (sk : SessionKey) (sks : List SessionKey)
      (failure x : Error)
      → dh.session_keys ≡ sk ∷ sks
      → decrypt_stream_with_session_key codec (suc fuel) sk s ≡ some (err failure, s')
      → codec.next s' ≡ (err x, s')
      → (e : Error) × (decrypt_stream_with_session codec profile (suc fuel) dh s
          ≡ some (
            err (
                Error.wrapped "gopenpgp: error in reading message"
                  (Error.wrapped "gopenpgp: unable to decrypt message with session key" e)),
            s',
          ))
  unfolding decrypt_stream_with_session decrypt_stream_with_session_and_parse parse_decrypted
      read_parsed try_session_keys wrapped_nil
  decrypt_stream_with_session-used_up fuel dh s s' sk sks failure x keys fails done =
      let (e, h) = try_at_end fuel s' x done failure sks in
      (
        e,
        ap
              (λ ks. with_answer (read_parsed codec profile dh) (
                with_answer (parse_decrypted codec profile dh)
                  (try_session_keys codec (suc fuel) none ks s)))
              keys
            ∙ ap
                (λ a. with_answer (read_parsed codec profile dh) (
                  with_answer (parse_decrypted codec profile dh) (
                    tried_key codec sk
                      (λ e' s''. try_session_keys codec (suc fuel) (some e') sks s'') a)))
                fails
            ∙ ap
                (λ a.
                  with_answer (read_parsed codec profile dh)
                    (with_answer (parse_decrypted codec profile dh) a))
                h,
      )

  abbrev pub IsIn : SessionKey → List SessionKey → Type 0
  IsIn sk [] = ⊥
  IsIn sk (k ∷ ks) = (sk ≡ k) ⊎ IsIn sk ks

  tried_key_lem :
      (fuel : ℕ) (k sk : SessionKey) (d : D) (t : S) (P : Type 0)
      (go_on : Error → S → Option (Result ((SessionKey × D) ⊎ Option Error) × S))
      (o : Option (Result D × S))
      → ((e : Error) (s : S) → go_on e s ≡ some (ok (inl (sk, d)), t) → P)
      → tried_key codec k go_on o ≡ some (ok (inl (sk, d)), t)
      → (sk ≡ k) ⊎ P
  unfolding tried_key
  tried_key_lem fuel k sk d t P go_on none h q = absurd (ground arith)
  tried_key_lem fuel k sk d t P go_on (some (ok d', s)) h q = inl (ground arith)
  tried_key_lem fuel k sk d t P go_on (some (err e, s)) h q = inr (h e s q)
  tried_key_lem fuel k sk d t P go_on (some (panic, s)) h q = absurd (ground arith)

  try_session_keys-IsIn :
      (fuel : ℕ) (sks : List SessionKey) (last : Option Error) (s t : S) (sk : SessionKey) (d : D)
      → try_session_keys codec fuel last sks s ≡ some (ok (inl (sk, d)), t)
      → IsIn sk sks
  unfolding try_session_keys
  try_session_keys-IsIn fuel [] last s t sk d h = absurd (ground arith)
  try_session_keys-IsIn fuel (k ∷ sks) last s t sk d h =
      tried_key_lem fuel k sk d t (IsIn sk sks)
        (λ e s'. try_session_keys codec fuel (some e) sks s')
        (decrypt_stream_with_session_key codec fuel k s)
        (λ e s'. try_session_keys-IsIn fuel sks (some e) s' t sk d) h

  -- A reader gives back one of the session keys, but with no algorithm.
  abbrev pub GivesBack :
      List (String × ℕ) → List SessionKey → VerifyDataReader (Sanitized (Inner R D)) → Type 0
  GivesBack es sks reader =
      (sk : SessionKey) × IsIn sk sks
      × (get_session_key es reader ≡ some (record { key = sk.key; algo = ""; v6 = false }))

  -- `openpgp.ReadMessage` on a decrypted packet decrypts nothing itself.
  abbrev pub DecryptsNothing : Type 0
  DecryptsNothing =
      (d : D) (entries : List Entity) (config : Config) (md : Details R)
      → codec.read_decrypted d entries config ≡ ok md
      → md.decrypted_with ≡ 0

  opened_reader-gives :
      (es : List (String × ℕ)) (dh : DecryptionHandle) (sk : SessionKey) (d : D) (md : Details R)
      → get_algo es 0 ≡ ""
      → md.decrypted_with ≡ 0
      → get_session_key es (
          opened_reader dh
            (with_session_key sk d md)
            (with_session_key sk d md).unverified_body
            (unix dh.clock))
        ≡ some (record { key = sk.key; algo = ""; v6 = false })
  unfolding get_session_key opened_reader details_reader with_session_key new_session_key_from_token
  opened_reader-gives es dh sk d md none_zero nothing =
      ap (λ n. some (record { key = sk.key; algo = get_algo es n; v6 = false })) nothing
      ∙ ap (λ a. some (record { key = sk.key; algo = a; v6 = false })) none_zero

  -- The fuel ran out, or a panic or an error came first, or a session key has opened the packet.
  parsed_lem :
      (es : List (String × ℕ)) (dh : DecryptionHandle)
      → DecryptsNothing
      → get_algo es 0 ≡ ""
      → (reader : VerifyDataReader (Sanitized (Inner R D)))
      → (a : Result ((SessionKey × D) ⊎ Option Error))
      → ((sk : SessionKey) (d : D) → a ≡ ok (inl (sk, d)) → IsIn sk dh.session_keys)
      → read_parsed codec profile dh (parse_decrypted codec profile dh a) ≡ ok reader
      → GivesBack es dh.session_keys reader
  unfolding read_parsed parse_decrypted wrapped_nil
  parsed_lem es dh law none_zero reader (ok (inl (sk, d))) is_in h =
      by_details
        (codec.read_decrypted d
          (entities_of dh.verify_key_ring ++ entities_of dh.decryption_key_ring)
          (session_config profile dh))
        refl h
    where
      by_details :
          (o : Result (Details R))
          → codec.read_decrypted d
              (entities_of dh.verify_key_ring ++ entities_of dh.decryption_key_ring)
              (session_config profile dh)
            ≡ o
          → read_parsed codec profile dh (
              wrap_err "gopenpgp: unable to decode symmetric packet" o >>= λ md.
              ok (some (with_session_key sk d md)))
            ≡ ok reader
          → GivesBack es dh.session_keys reader
      by_details (ok md) e k = (
        sk,
        is_in sk d refl,
        subst (λ r. get_session_key es r ≡ some (record { key = sk.key; algo = ""; v6 = false }))
            (ok_inj _ _ k) (opened_reader-gives es dh sk d md none_zero (law d _ _ md e)),
      )
      by_details (err x) e k = absurd (ground arith)
      by_details panic e k = absurd (ground arith)
  parsed_lem es dh law none_zero reader (ok (inr none)) is_in h = absurd (ground arith)
  parsed_lem es dh law none_zero reader (ok (inr (some e))) is_in h = absurd (ground arith)
  parsed_lem es dh law none_zero reader (err e) is_in h = absurd (ground arith)
  parsed_lem es dh law none_zero reader panic is_in h = absurd (ground arith)

  -- A reader that decryptStreamWithSession returns gives back one of the handle's session keys, but
  -- without its algorithm, where reading a decrypted packet decrypts nothing more and no name in
  -- symKeyAlgos stands for the cipher 0.
  pub decrypt_stream_with_session-get_session_key :
      (es : List (String × ℕ))
      → DecryptsNothing
      → get_algo es 0 ≡ ""
      → (fuel : ℕ) (dh : DecryptionHandle) (s t : S)
        (reader : VerifyDataReader (Sanitized (Inner R D)))
      → decrypt_stream_with_session codec profile fuel dh s ≡ some (ok reader, t)
      → GivesBack es dh.session_keys reader
  unfolding decrypt_stream_with_session decrypt_stream_with_session_and_parse with_answer
  decrypt_stream_with_session-get_session_key es law none_zero fuel dh s t reader h =
      by_answer (try_session_keys codec fuel none dh.session_keys s) refl h
    where
      by_answer :
          (a : Option (Result ((SessionKey × D) ⊎ Option Error) × S))
          → try_session_keys codec fuel none dh.session_keys s ≡ a
          → with_answer
              (read_parsed codec profile dh)
              (with_answer (parse_decrypted codec profile dh) a)
            ≡ some (ok reader, t)
          → GivesBack es dh.session_keys reader
      by_answer none e k = absurd (ground arith)
      by_answer (some (a, s')) e k =
          parsed_lem es dh law none_zero reader a
            (λ sk d q.
              try_session_keys-IsIn fuel dh.session_keys none s s' sk d
                (e ∙ ap (λ x. some (x, s')) q))
            (ground arith)
