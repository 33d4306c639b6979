-- ===== src/Crypto/Signature/Tests.antt =====
-- Runs of the signature code on small results and messages.
use gopenpgp.Base.{true, false, none, some, [], pos, any, Returns, ◌≡◌, ◌≢◌, ◌↔◌, refl, arith}
use gopenpgp.Crypto.Samples.{ring, result, context, details}
use gopenpgp.Crypto.KeyRing.{get_entities}
use gopenpgp.Crypto.Signature.{
  VerifyResult, select_signature, create_verify_result, process_signature_expiration,
}
use gopenpgp.Crypto.Signature.Selected.{or_else, policy, error_of, select_signature_lem}
use gopenpgp.Crypto.Signature.Verdict.{is_good, create_verify_result-success}

select_signature_example : select_signature result ≡ record {
  signatures = result.signatures;
  selected_signature = or_else (policy result.signatures) none;
  signature_error = error_of (policy result.signatures) none;
}
select_signature_example = select_signature_lem result

create_success_example :
    Returns
      (λ (vr : VerifyResult). (vr.signature_error ≡ none) ↔ (
        (get_entities (some ring) ≢ [])
        × (any (is_good (some ring) (some context) (pos 0) false) details.signature_candidates
            ≡ true)))
      (create_verify_result details (some ring) (some context) (pos 0) false).1
unfolding process_signature_expiration
create_success_example =
    create_verify_result-success (some ring) (some context) (pos 0) false details refl refl
      (λ e. ground arith) ((λ n. absurd (ground arith)), ((λ n e. ground arith), tt))
