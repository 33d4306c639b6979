-- ===== src/Crypto/Signature/Verdict.antt =====
-- When a verification reports success (createVerifyResult of crypto/signature.go).
use gopenpgp.Base.{
  ℤ, Bool, true, false, ◌&&◌, Option, none, some, List, [], ◌∷◌, Error, ok, err, ◌≡◌, ◌≢◌, refl,
  ◌↔◌, arith, All, any, Returns, is_some, is_none, is_cons,
}
use gopenpgp.Crypto.KeyRing.{KeyRing, get_entities}
use gopenpgp.Crypto.Signature.{
  PacketSignature, VerifyResult, VerificationContext, Candidate, MessageDetails, verify_context,
  process_signature_expiration, switch_error, verify_candidate, verify_candidates,
  create_verify_result, new_signature_not_signed,
}
use gopenpgp.Crypto.Signature.Selected.{is_verified, NoKeyFails, select_signature-success}

module _ (verifier_key : Option KeyRing) (context : Option VerificationContext) (verify_time : ℤ)
    (disable : Bool) where
  -- The candidate's error once an expiration has been forgiven.
  abbrev pub remaining_error : Candidate → Option Error
  remaining_error c =
      process_signature_expiration c.corresponding_sig c.signature_error verify_time disable

  -- No context is wanted, or the candidate's packet has it.
  abbrev pub has_context : Candidate → Bool
  has_context c = elim context [
    | none ↦ true
    | some w ↦ is_none (verify_context w c.corresponding_sig)
  ]

  -- A candidate that counts: its key is known, no error remains and it has the wanted context.
  abbrev pub is_good : Candidate → Bool
  is_good c = is_some c.signed_by && (is_none (remaining_error c) && has_context c)

  -- A candidate with no key comes with an error that is not an expiration.
  abbrev pub NoSignerFails : Candidate → Type 0
  NoSignerFails c = c.signed_by ≡ none → remaining_error c ≢ none

  verify_candidate-verified :
      (c : Candidate)
      → is_verified (verify_candidate verifier_key context verify_time disable c).1
        ≡ (is_cons (get_entities verifier_key) && is_good c)
  unfolding verify_candidate switch_error
  verify_candidate-verified c = ground arith

  verify_candidates-any :
      (cs : List Candidate)
      → any is_verified (verify_candidates verifier_key context verify_time disable cs).1
        ≡ (is_cons (get_entities verifier_key) && any is_good cs)
  unfolding verify_candidates
  verify_candidates-any [] = ground arith
  verify_candidates-any (c ∷ cs) =
      ground (arith, verify_candidate-verified c, verify_candidates-any cs)

  verify_candidate-NoKeyFails :
      (c : Candidate)
      → NoSignerFails c
      → (verify_candidate verifier_key context verify_time disable c).1.signed_by ≡ none
      → (verify_candidate verifier_key context verify_time disable c).1.signature_error ≢ none
  unfolding verify_candidate switch_error
  verify_candidate-NoKeyFails c h n = ground arith

  verify_candidates-NoKeyFails :
      (cs : List Candidate)
      → All NoSignerFails cs
      → NoKeyFails (verify_candidates verifier_key context verify_time disable cs).1
  unfolding verify_candidates
  verify_candidates-NoKeyFails [] h = tt
  verify_candidates-NoKeyFails (c ∷ cs) (hc, hs) =
      (verify_candidate-NoKeyFails c hc, verify_candidates-NoKeyFails cs hs)

  verify_candidates-ne_nil :
      (cs : List Candidate)
      → cs ≢ []
      → (verify_candidates verifier_key context verify_time disable cs).1 ≢ []
  unfolding verify_candidates
  verify_candidates-ne_nil [] h = absurd (h refl)
  verify_candidates-ne_nil (c ∷ cs) h = ground arith

  -- A signed and verified message with at least one candidate, each of which has a key or fails, is
  -- reported as successfully verified exactly if there is a verification key and some candidate counts.
  pub create_verify_result-success :
      (md : MessageDetails)
      → md.is_signed ≡ true
      → md.is_verified ≡ true
      → md.signature_candidates ≢ []
      → All NoSignerFails md.signature_candidates
      → Returns
          (λ (vr : VerifyResult).
            (vr.signature_error ≡ none)
            ↔ ((get_entities verifier_key ≢ []) × (any is_good md.signature_candidates ≡ true)))
          (create_verify_result md verifier_key context verify_time disable).1
  unfolding create_verify_result
  create_verify_result-success md s v n h =
      rw (s, v)
        (ground (
          arith,
          select_signature-success
              (record {
                signatures =
                    (verify_candidates verifier_key context verify_time disable
                      md.signature_candidates).1;
                selected_signature = none;
                signature_error = none;
              })
              (verify_candidates-ne_nil md.signature_candidates n)
              (verify_candidates-NoKeyFails md.signature_candidates h),
          verify_candidates-any md.signature_candidates,
        ))

  -- Success needs a message that is signed and whose signatures have been checked: without a signature
  -- the result is the error for that, and unchecked signatures give no result.
  pub create_verify_result-unchecked :
      (md : MessageDetails)
      → (md.is_signed ≡ false
          → (create_verify_result md verifier_key context verify_time disable).1
            ≡ ok (record {
              signatures = [];
              selected_signature = none;
              signature_error = some new_signature_not_signed;
            }))
        × (md.is_signed ≡ true
            → md.is_verified ≡ false
            → (create_verify_result md verifier_key context verify_time disable).1
              ≡ err (Error.new "gopenpgp: message has not been verified"))
  unfolding create_verify_result
  create_verify_result-unchecked md = (λ s. rw s, λ s v. rw (s, v))

  process-process :
      (sig : Option PacketSignature) (o : Option Error)
      → process_signature_expiration sig
          (process_signature_expiration sig o verify_time disable)
          verify_time
          disable
        ≡ process_signature_expiration sig o verify_time disable
  unfolding process_signature_expiration
  process-process none o = refl
  process-process (some sig) none = refl
  process-process (some sig) (some e) = ground arith

  verify_candidate-again :
      (c : Candidate)
      → verify_candidate verifier_key context verify_time disable
          (verify_candidate verifier_key context verify_time disable c).0
        ≡ verify_candidate verifier_key context verify_time disable c
  unfolding verify_candidate
  verify_candidate-again c = ground (arith, process-process c.corresponding_sig c.signature_error)

  verify_candidates-again :
      (cs : List Candidate)
      → verify_candidates verifier_key context verify_time disable
          (verify_candidates verifier_key context verify_time disable cs).0
        ≡ verify_candidates verifier_key context verify_time disable cs
  unfolding verify_candidates
  verify_candidates-again [] = refl
  verify_candidates-again (c ∷ cs) = rw (verify_candidate-again c, verify_candidates-again cs)

  -- The call writes the forgiven errors into the message details; called again on these, it gives the
  -- same details and the same result.
  pub create_verify_result-again :
      (md : MessageDetails)
      → create_verify_result
          (create_verify_result md verifier_key context verify_time disable).0
          verifier_key
          context
          verify_time
          disable
        ≡ create_verify_result md verifier_key context verify_time disable
  unfolding create_verify_result
  create_verify_result-again md = ground (arith, verify_candidates-again md.signature_candidates)
