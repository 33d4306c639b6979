-- ===== src/Crypto/Signature/Context.antt =====
-- Which contexts a verification accepts (findContext and verifyContext of crypto/signature.go).
use text.Mathlib.Text.{◌==◌ as str_eq}
use text.Mathlib.TextEquality.{eq_iff}
use gopenpgp.Base.{
  ℤ, true, false, Option, none, some, List, [], ◌∷◌, String, Error, ◌≡◌, ◌↔◌, arith, if◌then◌else◌,
  ◌⊎◌,
}
use gopenpgp.Crypto.Signature.{
  Notation, PacketSignature, VerificationContext, signature_context_name, find_context_loop,
  find_context, is_required_at_time, compare_context, checked_context, verify_context,
}

-- The context notations of a signature, in their order.
abbrev pub contexts : List Notation → List Notation
contexts [] = []
contexts (n ∷ ns) = if str_eq n.name signature_context_name then n ∷ contexts ns else contexts ns

-- A value that findContext accepts: every context notation is human-readable, and only the last one
-- may have a value that is not empty.
abbrev pub Accepted : List Notation → String → String → Type 0
Accepted [] found value = found ≡ value
Accepted (n ∷ ns) found value =
    (str_eq found "" ≡ true) × (n.is_human_readable ≡ true) × Accepted ns n.value value

find_context_loop_lem :
    (ns : List Notation) (found value : String)
    → (find_context_loop ns found ≡ (value, none)) ↔ Accepted (contexts ns) found value
unfolding find_context_loop
find_context_loop_lem [] found value = ground arith
find_context_loop_lem (n ∷ ns) found value =
    ground (arith, find_context_loop_lem ns found value, find_context_loop_lem ns n.value value)

-- findContext gives a value exactly if it is that of the last context notation, or empty without one,
-- every context notation is human-readable and all before the last are empty.
pub find_context_lem :
    (ns : List Notation) (value : String)
    → (find_context ns ≡ (value, none)) ↔ Accepted (contexts ns) "" value
unfolding find_context
find_context_lem ns value = find_context_loop_lem ns "" value

checked_context_lem :
    (context : VerificationContext) (t : ℤ) (r : String × Option Error)
    → (checked_context context t r ≡ none) ↔ (
        (r.1 ≡ none)
        × ((r.0 ≡ context.value) ⊎ ((r.0 ≡ "") × (is_required_at_time context t ≡ false))))
unfolding checked_context compare_context
checked_context_lem context t (value, none) =
    ground (arith, eq_iff value context.value, eq_iff value "")
checked_context_lem context t (value, some e) = ground arith

pub verify_context_lem :
    (context : VerificationContext) (sig : PacketSignature)
    → let (value, error) = find_context sig.notations in
      (verify_context context (some sig) ≡ none) ↔ (
        (error ≡ none)
        × ((value ≡ context.value)
            ⊎ ((value ≡ "") × (is_required_at_time context sig.creation_time ≡ false))))
unfolding verify_context
verify_context_lem context sig =
    checked_context_lem context sig.creation_time (find_context sig.notations)

-- A required context is compared by value alone: where it is required, only the wanted value passes.
pub verify_context_required :
    (context : VerificationContext) (sig : PacketSignature)
    → is_required_at_time context sig.creation_time ≡ true
    → verify_context context (some sig) ≡ none
    → Accepted (contexts sig.notations) "" context.value
verify_context_required context sig required h =
    let fact = (verify_context_lem context sig).0 h in
    let found : find_context sig.notations ≡ (context.value, none) = ground arith in
    (find_context_lem sig.notations context.value).0 found
