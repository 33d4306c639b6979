-- ===== src/Crypto/VerifyReader/Whole.antt =====
-- ReadAllAndVerifySignature gives all of the data, or panics (crypto/verify_reader.go).
use gopenpgp.Base.{
  ℕ, Bool, true, Option, none, some, List, [], ◌∷◌, ◌++◌, Bytes, String, Error, eof, Result, ok,
  err, panic, ◌≡◌, refl, sym, ◌∙◌, ap, arith, append-nil, ◌||◌,
}
use gopenpgp.Internal.Reader.{Read, IsReader}
use gopenpgp.Crypto.Signature.{VerifyResult, create_verify_result}
use gopenpgp.Crypto.VerifyReader.{
  VerifyDataReader, VerifiedDataResult, get_metadata, get_session_key, ends, read, read_on,
  read_all, verify_signature, verify_discarded, discard_all_and_verify_signature,
}
use gopenpgp.Crypto.VerifyReader.Guard.{saw_end}

ends_eof : (a : Bool) (e : Error) → e ≡ eof → (a || ends (some e)) ≡ true
unfolding ends
ends_eof a e h = rw h (ground arith)

-- The outcome of ReadAllAndVerifySignature when VerifySignature has given an answer.
abbrev pub whole :
    {S : Type 0}
    → List (String × ℕ)
    → VerifyDataReader S
    → Bytes
    → Result VerifyResult
    → Result VerifiedDataResult
whole es msg b (ok vr) = ok (record {
  verify_result = vr;
  metadata = get_metadata msg;
  bytes = b;
  cached_session_key = get_session_key es msg;
})
whole es msg b (err e) = panic
whole es msg b panic = panic

module _ {S : Type 0} (internal : Read S) (content : S → Bytes)
    (law : IsReader internal content) where
  -- The whole content is read, and the end is noted.
  abbrev pub IsRead : VerifyDataReader S → Option (Result Bytes × VerifyDataReader S) → Type 0
  IsRead msg o =
      (s : S) × (o
        ≡ some
            (ok (content msg.internal_reader), record msg { internal_reader = s; read_all = true }))

  read_on_lem :
      (msg : VerifyDataReader S) (b : Bytes) (failure : Option Error) (s : S)
      (rest : Option (Result Bytes × VerifyDataReader S))
      → content msg.internal_reader ≡ b ++ content s
      → ((e : Error) → failure ≡ some e → (e ≡ eof) × (content s ≡ []))
      → (failure ≡ none
          → IsRead
              (record msg { internal_reader = s; read_all = msg.read_all || ends failure })
              rest)
      → IsRead msg (
          read_on internal
            (
              b,
              failure,
              record msg { internal_reader = s; read_all = msg.read_all || ends failure },
            )
            rest)
  unfolding read_on
  read_on_lem msg b none s rest takes last h =
      let (s', same) = h refl in
      (
        s',
        ap
              (λ x.
                read_on internal
                  (
                    b,
                    none,
                    record msg { internal_reader = s; read_all = msg.read_all || ends none },
                  )
                  x)
              same
            ∙ ap (λ t. some (ok t, record msg { internal_reader = s'; read_all = true }))
                (sym takes),
      )
  read_on_lem msg b (some e) s rest takes last h =
      let (is_end, nothing) = last e refl in
      (
        s,
        ap
              (λ x.
                read_on internal
                  (
                    b,
                    some x,
                    record msg { internal_reader = s; read_all = msg.read_all || ends (some e) },
                  )
                  rest)
              is_end
            ∙ ap (λ a. some (ok b, record msg { internal_reader = s; read_all = a }))
                (ends_eof msg.read_all e is_end)
            ∙ ap (λ t. some (ok t, record msg { internal_reader = s; read_all = true }))
                (sym (takes ∙ ap (λ t. b ++ t) nothing ∙ append-nil b)),
      )

  later : (o : Option Error) (b : Bool) → (ends o || b) ≡ true → o ≡ none → b ≡ true
  unfolding ends
  later none b h e = h
  later (some x) b h e = absurd (ground arith)

  pub read_all_lem :
      (ks : List ℕ) (msg : VerifyDataReader S)
      → saw_end internal msg.internal_reader ks ≡ true
      → IsRead msg (read_all internal msg ks)
  unfolding read_all read
  read_all_lem [] msg h = absurd (ground arith)
  read_all_lem (k ∷ ks) msg h =
      read_on_lem msg (internal msg.internal_reader k).0 (internal msg.internal_reader k).1
        (internal msg.internal_reader k).2 (read_all internal (read internal msg k).2 ks)
        (law.takes msg.internal_reader k) (law.ends msg.internal_reader k)
        (λ e. read_all_lem ks (read internal msg k).2 (
          later (internal msg.internal_reader k).1
            (saw_end internal (internal msg.internal_reader k).2 ks) h e))

  -- For a wrapped reader with a content, if the buffers reach the end of it:
  -- DiscardAllAndVerifySignature returns what the verification of the signatures returns.
  pub discard_all_and_verify_signature_lem :
      (msg : VerifyDataReader S) (ks : List ℕ)
      → saw_end internal msg.internal_reader ks ≡ true
      → discard_all_and_verify_signature internal msg ks
        ≡ some (
            create_verify_result msg.details msg.verify_key_ring msg.verification_context
              msg.verify_time msg.disable_time_check)
  unfolding discard_all_and_verify_signature verify_discarded verify_signature
  discard_all_and_verify_signature_lem msg ks h =
      ap (verify_discarded internal) (read_all_lem ks msg h).1
