-- ===== src/Crypto/Signature.antt =====
-- crypto/signature.go: the result of a verification. What go-crypto's reader has found out stands in
-- `MessageDetails`; pointers into the list of signatures are copies of its elements.
pub mod Context
pub mod Selected
mod Tests
pub mod Verdict
use text.Mathlib.Text.{◌==◌ as str_eq}
use gopenpgp.Base.{
  ℕ, zero, suc, ◌+◌, ◌-◌, Bool, true, false, not, ◌&&◌, ◌||◌, Option, none, some, List, [], ◌∷◌,
  ◌++◌, map, Bytes, String, ℤ, is_zero, ltb_ℤ, Error, Result, ok, err, panic, ◌>>=◌, ◌>>◌, fail_if,
  wrap_err, ◌==◌, is_some, is_none, is_cons, is_unknown_issuer, is_signature_expired, get_last?,
  if◌then◌else◌,
}
use gopenpgp.Crypto.Entity.{Entity}
use gopenpgp.Crypto.Key.{Key, get_fingerprint_bytes}
use gopenpgp.Crypto.KeyRing.{KeyRing, get_entities}

pub record Notation : Type 0 where
  pub name : String
  pub value : String
  pub is_critical : Bool
  pub is_human_readable : Bool

-- The fields of a `packet.Signature` that are read; the creation time is in Unix seconds.
pub record PacketSignature : Type 0 where
  pub creation_time : ℤ
  pub sig_type : ℕ
  pub issuer_key_id : Option ℕ
  pub issuer_fingerprint : Option Bytes
  pub notations : List Notation

pub record SignatureVerificationError : Type 0 where
  pub status : ℕ
  pub message : String
  pub cause : Option Error

pub record VerifiedSignature : Type 0 where
  pub signature : Option PacketSignature
  pub signed_by : Option Key
  pub signature_error : Option SignatureVerificationError

pub record VerifyResult : Type 0 where
  pub signatures : List VerifiedSignature
  pub selected_signature : Option VerifiedSignature
  pub signature_error : Option SignatureVerificationError

-- constants/cipher.go
abbrev pub signature_ok : ℕ
signature_ok = 0

abbrev pub signature_not_signed : ℕ
signature_not_signed = 1

abbrev pub signature_no_verifier : ℕ
signature_no_verifier = 2

abbrev pub signature_failed : ℕ
signature_failed = 3

abbrev pub signature_bad_context : ℕ
signature_bad_context = 4

-- constants/context.go
abbrev pub signature_context_name : String
signature_context_name = "context@proton.ch"

abbrev pub new_signature_bad_context : Error → SignatureVerificationError
new_signature_bad_context cause = record {
  status = signature_bad_context;
  message = "Invalid signature context";
  cause = some cause;
}

abbrev pub new_signature_failed : Error → SignatureVerificationError
new_signature_failed cause = record {
  status = signature_failed;
  message = "Invalid signature";
  cause = some cause;
}

abbrev pub new_signature_not_signed : SignatureVerificationError
new_signature_not_signed = record {
  status = signature_not_signed;
  message = "Missing signature";
  cause = none;
}

abbrev pub new_signature_no_verifier : SignatureVerificationError
new_signature_no_verifier = record {
  status = signature_no_verifier;
  message = "No matching signature";
  cause = none;
}

-- The two fields that selectSignature sets, and its flag.
pub record Selection : Type 0 where
  pub key_match : Bool
  pub selected_signature : Option VerifiedSignature
  pub signature_error : Option SignatureVerificationError

-- The assignments for a signature with a key.
pub matched : VerifiedSignature → Selection
matched v = record {
  key_match = true;
  selected_signature = some v;
  signature_error = v.signature_error;
}

-- The loop; `break` after a signature that verified.
pub select_loop : List VerifiedSignature → Selection → Selection
unfolding matched
select_loop [] s = s
select_loop (v ∷ vs) s =
    let skip = select_loop vs s in
    let go_on = select_loop vs (matched v) in
    if is_some v.signed_by then (if is_none v.signature_error then matched v else go_on) else skip

-- The last signature, if no key matched.
pub select_last : List VerifiedSignature → Selection → Selection
select_last vs s = elim (get_last? vs) [
  | none ↦ s
  | some v ↦ record s { selected_signature = some v; signature_error = v.signature_error }
]

pub select_signature : VerifyResult → VerifyResult
unfolding select_loop select_last
select_signature vr =
    let s = select_loop vr.signatures (record {
      key_match = false;
      selected_signature = vr.selected_signature;
      signature_error = vr.signature_error;
    }) in
    let t = if s.key_match then s else select_last vr.signatures s in
    record vr { selected_signature = t.selected_signature; signature_error = t.signature_error }

-- `sigUnixTime < unixFrom || sigUnixTime > unixTo`
pub is_out_of_range : ℤ → ℤ → PacketSignature → Bool
is_out_of_range from to sig = ltb_ℤ sig.creation_time from || ltb_ℤ to sig.creation_time

pub out_of_range_error : SignatureVerificationError
out_of_range_error =
    new_signature_failed (Error.new "gopenpgp: signature creation time is out of range")

pub constrain_signature : ℤ → ℤ → VerifiedSignature → Option PacketSignature → VerifiedSignature
unfolding is_out_of_range out_of_range_error
constrain_signature from to v none = v
constrain_signature from to v (some sig) =
    if is_none v.signature_error && is_out_of_range from to sig
    then record v { signature_error = some out_of_range_error }
    else v

pub constrain_loop : ℤ → ℤ → List VerifiedSignature → List VerifiedSignature
unfolding constrain_signature
constrain_loop from to [] = []
constrain_loop from to (v ∷ vs) =
    constrain_signature from to v v.signature ∷ constrain_loop from to vs

pub constrain_to_time_range : VerifyResult → ℤ → ℤ → VerifyResult
unfolding constrain_loop select_signature
constrain_to_time_range vr from to =
    select_signature (record vr { signatures = constrain_loop from to vr.signatures })

-- What SignatureError gives; a nil result has no error.
pub signature_error : Option VerifyResult → Option SignatureVerificationError
signature_error none = none
signature_error (some vr) = vr.signature_error

-- The selected signature's packet, which the accessors look for.
pub selected_packet : VerifyResult → Option PacketSignature
selected_packet vr = elim vr.selected_signature [ none ↦ none | some v ↦ v.signature ]

pub signature_creation_time : VerifyResult → ℤ
unfolding selected_packet
signature_creation_time vr = elim (selected_packet vr) [
  | none ↦ ℤ.pos 0
  | some sig ↦ sig.creation_time
]

pub signed_with_type : VerifyResult → ℕ
unfolding selected_packet
signed_with_type vr = elim (selected_packet vr) [ none ↦ 0 | some sig ↦ sig.sig_type ]

-- `*IssuerKeyId`, which panics if the packet names no issuer.
pub signed_by_key_id : VerifyResult → Result ℕ
unfolding selected_packet
signed_by_key_id vr = elim (selected_packet vr) [
  | none ↦ ok 0
  | some sig ↦ elim sig.issuer_key_id [ none ↦ panic | some k ↦ ok k ]
]

pub signed_by_key : VerifyResult → Option Key
unfolding selected_packet
signed_by_key vr = elim (selected_packet vr) [
  | none ↦ none
  | some sig ↦ elim vr.selected_signature [ none ↦ none | some v ↦ v.signed_by ]
]

pub signed_by_fingerprint : VerifyResult → Option Bytes
unfolding selected_packet signed_by_key
signed_by_fingerprint vr = elim (selected_packet vr) [
  | none ↦ none
  | some sig ↦ elim sig.issuer_fingerprint [
    | some f ↦ some f
    | none ↦ elim (signed_by_key vr) [ none ↦ none | some k ↦ some (get_fingerprint_bytes k) ]
  ]
]

pub process_signature_expiration : Option PacketSignature → Option Error → ℤ → Bool → Option Error
process_signature_expiration none to_check verify_time disable = to_check
process_signature_expiration (some sig) none verify_time disable = none
process_signature_expiration (some sig) (some e) verify_time disable =
    if not (is_signature_expired e)
    then some e
    else if disable || is_zero verify_time
    then none
    else some e

pub record SigningContext : Type 0 where
  pub value : String
  pub is_critical : Bool

-- (*SigningContext).getNotation
pub get_notation : SigningContext → Notation
get_notation context = record {
  name = signature_context_name;
  value = context.value;
  is_critical = context.is_critical;
  is_human_readable = true;
}

pub record VerificationContext : Type 0 where
  pub value : String
  pub is_required : Bool
  pub required_after : ℤ

pub is_required_at_time : VerificationContext → ℤ → Bool
is_required_at_time context signature_time =
    context.is_required
    && (is_zero context.required_after || ltb_ℤ context.required_after signature_time)

-- The loop of findContext over the notations, with the context found so far.
pub find_context_loop : List Notation → String → String × Option Error
find_context_loop [] context = (context, none)
find_context_loop (n ∷ ns) context =
    let skip = find_context_loop ns context in
    let found = find_context_loop ns n.value in
    if str_eq n.name signature_context_name
    then (if not (str_eq context "")
        then ("", some (Error.new "gopenpgp: signature has multiple context notations"))
        else if not n.is_human_readable
        then ("", some (Error.new "gopenpgp: context notation was not set as human-readable"))
        else found)
    else skip

pub find_context : List Notation → String × Option Error
unfolding find_context_loop
find_context notations = find_context_loop notations ""

-- The comparison of verifyContext, with the error it returns.
pub compare_context : VerificationContext → ℤ → String → Option Error
unfolding is_required_at_time
compare_context context t found =
    if str_eq found context.value
    then none
    else if is_required_at_time context t
    then some (Error.new "gopenpgp: signature did not have the required context")
    else if not (str_eq found "")
    then some (Error.new "gopenpgp: signature had a wrong context")
    else none

pub checked_context : VerificationContext → ℤ → String × Option Error → Option Error
unfolding compare_context
checked_context context t (found, none) = compare_context context t found
checked_context context t (found, some e) = some e

pub verify_context : VerificationContext → Option PacketSignature → Option Error
unfolding find_context checked_context
verify_context context none = some (Error.new "gopenpgp: no signature packet found for signature")
verify_context context (some sig) =
    checked_context context sig.creation_time (find_context sig.notations)

-- The fields of `openpgp.SignatureCandidate` and `openpgp.MessageDetails` that are read.
pub record Candidate : Type 0 where
  pub corresponding_sig : Option PacketSignature
  pub signed_by : Option Entity
  pub signature_error : Option Error
  pub sig_type : ℕ

pub record MessageDetails : Type 0 where
  pub is_signed : Bool
  pub is_verified : Bool
  pub signature_candidates : List Candidate

-- `errors.Is(err, ErrUnknownIssuer)` for an error that may be nil.
pub unknown : Option Error → Bool
unknown none = false
unknown (some e) = is_unknown_issuer e

pub context_error :
    Option VerificationContext → Option PacketSignature → Option SignatureVerificationError
context_error none sig = none
context_error (some context) sig = elim (verify_context context sig) [
  | none ↦ none
  | some e ↦ some (new_signature_bad_context e)
]

-- The `switch` of createVerifyResult on the candidate's error; `none` is SIGNATURE_OK.
pub switch_error :
    Option KeyRing
    → Option VerificationContext
    → Option PacketSignature
    → Option Error
    → Option SignatureVerificationError
unfolding unknown context_error
switch_error verifier_key context sig error =
    if not (is_cons (get_entities verifier_key)) || unknown error
    then some new_signature_no_verifier
    else elim error [ some e ↦ some (new_signature_failed e) | none ↦ context_error context sig ]

pub key_of : Option Entity → Option Key
key_of none = none
key_of (some e) = some (record { entity = e })

-- The body of the loop: the candidate with its error rewritten, and the signature that is listed.
pub verify_candidate :
    Option KeyRing
    → Option VerificationContext
    → ℤ
    → Bool
    → Candidate
    → Candidate × VerifiedSignature
unfolding switch_error key_of process_signature_expiration
verify_candidate verifier_key context verify_time disable c =
    let error =
      process_signature_expiration c.corresponding_sig c.signature_error verify_time disable in
    (
      record c { signature_error = error },
      record {
        signature = c.corresponding_sig;
        signed_by = key_of c.signed_by;
        signature_error = switch_error verifier_key context c.corresponding_sig error;
      },
    )

pub verify_candidates :
    Option KeyRing
    → Option VerificationContext
    → ℤ
    → Bool
    → List Candidate
    → List Candidate × List VerifiedSignature
verify_candidates verifier_key context verify_time disable [] = ([], [])
verify_candidates verifier_key context verify_time disable (c ∷ cs) =
    let (c', v) = verify_candidate verifier_key context verify_time disable c in
    let (cs', vs) = verify_candidates verifier_key context verify_time disable cs in
    (c' ∷ cs', v ∷ vs)

-- The details afterwards, and the result.
unfoldable pub create_verify_result :
    MessageDetails
    → Option KeyRing
    → Option VerificationContext
    → ℤ
    → Bool
    → MessageDetails × Result VerifyResult
create_verify_result md verifier_key context verify_time disable =
    if not md.is_signed
    then (
      md,
      ok (record {
        signatures = [];
        selected_signature = none;
        signature_error = some new_signature_not_signed;
      }),
    )
    else if not md.is_verified
    then (md, err (Error.new "gopenpgp: message has not been verified"))
    else let (cs, vs) =
        verify_candidates verifier_key context verify_time disable md.signature_candidates in
      (
        record md { signature_candidates = cs },
        ok (
            select_signature
              (record { signatures = vs; selected_signature = none; signature_error = none })),
      )
