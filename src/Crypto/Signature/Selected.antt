-- ===== src/Crypto/Signature/Selected.antt =====
-- Which signature a result reports (selectSignature and ConstrainToTimeRange of crypto/signature.go).
use mathlib.Core.Option
use gopenpgp.Base.{
  ℤ, ◌≤ℤ◌, leb_ℤ, not-ltb_ℤ, Bool, true, false, ◌&&◌, ◌||◌, Option, none, some, List, [], ◌∷◌, ◌≡◌,
  ◌≢◌, refl, sym, subst, ◌↔◌, ap, arith, All, any, is_some, is_none, get_last?, if◌then◌else◌,
}
use gopenpgp.Crypto.Signature.{
  PacketSignature, SignatureVerificationError, VerifiedSignature, VerifyResult, Selection, matched,
  select_loop, select_signature, constrain_signature, constrain_loop, constrain_to_time_range,
}

-- `a`, or `b` if there is none.
abbrev pub or_else {ℓ} : {A : Type ℓ} → Option A → Option A → Option A
or_else none b = b
or_else (some a) b = some a

-- A matching key, and no error.
abbrev pub is_verified : VerifiedSignature → Bool
is_verified v = is_some v.signed_by && is_none v.signature_error

abbrev pub first_verified : List VerifiedSignature → Option VerifiedSignature
first_verified [] = none
first_verified (v ∷ vs) = if is_verified v then some v else first_verified vs

abbrev pub last_matched : List VerifiedSignature → Option VerifiedSignature
last_matched [] = none
last_matched (v ∷ vs) = or_else (last_matched vs) (if is_some v.signed_by then some v else none)

-- The selection policy, from its description.
abbrev pub policy : List VerifiedSignature → Option VerifiedSignature
policy vs = or_else (first_verified vs) (or_else (last_matched vs) (get_last? vs))

-- The error of the chosen signature.
abbrev pub error_of :
    Option VerifiedSignature → Option SignatureVerificationError → Option SignatureVerificationError
error_of none e = e
error_of (some v) e = v.signature_error

abbrev picked : List VerifiedSignature → Option VerifiedSignature
picked vs = or_else (first_verified vs) (last_matched vs)

select_loop_lem :
    (vs : List VerifiedSignature) (s : Selection)
    → select_loop vs s ≡ record {
      key_match = s.key_match || is_some (picked vs);
      selected_signature = or_else (picked vs) s.selected_signature;
      signature_error = error_of (picked vs) s.signature_error;
    }
unfolding select_loop
select_loop_lem [] s = ground arith
select_loop_lem (v ∷ vs) s = ground (arith, select_loop_lem vs s, select_loop_lem vs (matched v))

select_signature_step :
    (vr : VerifyResult)
    → ((select_signature vr).selected_signature
        ≡ or_else (policy vr.signatures) vr.selected_signature)
      × ((select_signature vr).signature_error ≡ error_of (policy vr.signatures) vr.signature_error)
      × ((select_signature vr).signatures ≡ vr.signatures)
unfolding select_signature
select_signature_step vr = ground (
  arith,
  select_loop_lem vr.signatures (record {
    key_match = false;
    selected_signature = vr.selected_signature;
    signature_error = vr.signature_error;
  }),
)

-- selectSignature reports the first signature that verified with a key, else the last one with a
-- matching key, else the last one; its error is that signature's. Without signatures nothing changes.
pub select_signature_lem :
    (vr : VerifyResult)
    → select_signature vr ≡ record {
      signatures = vr.signatures;
      selected_signature = or_else (policy vr.signatures) vr.selected_signature;
      signature_error = error_of (policy vr.signatures) vr.signature_error;
    }
select_signature_lem vr = ground (arith, select_signature_step vr)

first_verified-any :
    (vs : List VerifiedSignature) → is_some (first_verified vs) ≡ any is_verified vs
first_verified-any [] = refl
first_verified-any (v ∷ vs) = ground (arith, first_verified-any vs)

first_verified_sound :
    (vs : List VerifiedSignature) (v : VerifiedSignature)
    → first_verified vs ≡ some v
    → is_verified v ≡ true
first_verified_sound [] v h = ground arith
first_verified_sound (w ∷ vs) v h = ground (arith, first_verified_sound vs v)

-- A signature that has no key has an error.
abbrev pub NoKeyFails : List VerifiedSignature → Type 0
NoKeyFails = All (λ (v : VerifiedSignature). v.signed_by ≡ none → v.signature_error ≢ none)

last_matched-fails :
    (vs : List VerifiedSignature) (v : VerifiedSignature)
    → any is_verified vs ≡ false
    → last_matched vs ≡ some v
    → v.signature_error ≢ none
last_matched-fails [] v n h = ground arith
last_matched-fails (w ∷ vs) v n h = ground (arith, last_matched-fails vs v)

get_last?-fails :
    (vs : List VerifiedSignature) (v : VerifiedSignature)
    → NoKeyFails vs
    → any is_verified vs ≡ false
    → get_last? vs ≡ some v
    → v.signature_error ≢ none
get_last?-fails [] v k n h = ground arith
get_last?-fails (w ∷ []) v k n h = ground (arith, k.0)
get_last?-fails (w ∷ x ∷ vs) v k n h = ground (arith, get_last?-fails (x ∷ vs) v k.1)

get_last?-none : (vs : List VerifiedSignature) → vs ≢ [] → get_last? vs ≢ none
get_last?-none [] n h = n refl
get_last?-none (w ∷ []) n h = ground arith
get_last?-none (w ∷ x ∷ vs) n h = get_last?-none (x ∷ vs) (ground arith) h

module _ (vs : List VerifiedSignature) (e : Option SignatureVerificationError) where
  abbrev IsRight : Type 0
  IsRight = (error_of (policy vs) e ≡ none) ↔ (any is_verified vs ≡ true)

  by_last :
      (o : Option VerifiedSignature)
      → get_last? vs ≡ o
      → vs ≢ []
      → NoKeyFails vs
      → first_verified vs ≡ none
      → last_matched vs ≡ none
      → any is_verified vs ≡ false
      → IsRight
  by_last none q n k f l a = absurd (get_last?-none vs n q)
  by_last (some v) q n k f l a = rw (f, l, q, a) (ground (arith, get_last?-fails vs v k a q))

  by_matched :
      (o : Option VerifiedSignature)
      → last_matched vs ≡ o
      → vs ≢ []
      → NoKeyFails vs
      → first_verified vs ≡ none
      → any is_verified vs ≡ false
      → IsRight
  by_matched none l n k f a = by_last (get_last? vs) refl n k f l a
  by_matched (some v) l n k f a = rw (f, l, a) (ground (arith, last_matched-fails vs v a l))

  by_verified :
      (o : Option VerifiedSignature) → first_verified vs ≡ o → vs ≢ [] → NoKeyFails vs → IsRight
  by_verified none f n k =
      by_matched (last_matched vs) refl n k f (ground (arith, first_verified-any vs))
  by_verified (some v) f n k =
      rw f (ground (arith, first_verified-any vs, first_verified_sound vs v f))

-- Where some signature is listed and each one without a key has an error, the result reports success
-- exactly if some listed signature has a matching key and no error.
pub select_signature-success :
    (vr : VerifyResult)
    → vr.signatures ≢ []
    → NoKeyFails vr.signatures
    → ((select_signature vr).signature_error ≡ none) ↔ (any is_verified vr.signatures ≡ true)
select_signature-success vr n k =
    rw select_signature_lem
      (by_verified vr.signatures vr.signature_error (first_verified vr.signatures) refl n k)

-- The creation time lies in the range, both ends included.
abbrev pub InRange : ℤ → ℤ → VerifiedSignature → Type 0
InRange from to v =
    v.signature_error ≡ none
    → (sig : PacketSignature) → v.signature ≡ some sig
    → (from ≤ℤ sig.creation_time) × (sig.creation_time ≤ℤ to)

constrain_signature-InRange :
    (from to : ℤ) (v : VerifiedSignature) (o : Option PacketSignature)
    → v.signature ≡ o
    → InRange from to (constrain_signature from to v o)
unfolding constrain_signature
constrain_signature-InRange from to v none e h sig k = ground arith
constrain_signature-InRange from to v (some s) e h sig k =
    let t = s.creation_time in
    ground (
      arith,
      not-ltb_ℤ t from,
      not-ltb_ℤ to t,
      ap (λ (o : Option PacketSignature). Option.map (λ (x : PacketSignature). x.creation_time) o)
          e,
      ap (λ (o : Option PacketSignature). Option.map (λ (x : PacketSignature). x.creation_time) o)
          k,
    )

-- After ConstrainToTimeRange every listed signature without an error that has a packet was created in
-- the range, both ends included.
pub constrain_to_time_range-InRange :
    (vr : VerifyResult) (from to : ℤ)
    → All (InRange from to) (constrain_to_time_range vr from to).signatures
unfolding constrain_to_time_range
constrain_to_time_range-InRange vr from to =
    subst (All (InRange from to))
      (sym
        (select_signature_step (record vr { signatures = constrain_loop from to vr.signatures })).2)
      (loop vr.signatures)
  where
    loop : (vs : List VerifiedSignature) → All (InRange from to) (constrain_loop from to vs)
    loop [] = tt
    loop (v ∷ vs) = (constrain_signature-InRange from to v v.signature refl, loop vs)

-- The packet, if there is one, was created in the range.
abbrev pub is_timely : ℤ → ℤ → VerifiedSignature → Bool
is_timely from to v = elim v.signature [
  | none ↦ true
  | some sig ↦ leb_ℤ from sig.creation_time && leb_ℤ sig.creation_time to
]

module _ (from to : ℤ) where
  constrain_signature-verified :
      (v : VerifiedSignature)
      → is_verified (constrain_signature from to v v.signature)
        ≡ (is_verified v && is_timely from to v)
  unfolding constrain_signature
  constrain_signature-verified v = ground arith

  constrain_loop-verified :
      (vs : List VerifiedSignature)
      → any is_verified (constrain_loop from to vs)
        ≡ any (λ v. is_verified v && is_timely from to v) vs
  unfolding constrain_loop
  constrain_loop-verified [] = refl
  constrain_loop-verified (v ∷ vs) = rw (constrain_signature-verified v, constrain_loop-verified vs)

  constrain_loop-NoKeyFails :
      (vs : List VerifiedSignature) → NoKeyFails vs → NoKeyFails (constrain_loop from to vs)
  unfolding constrain_loop constrain_signature
  constrain_loop-NoKeyFails [] h = tt
  constrain_loop-NoKeyFails (v ∷ vs) (hv, hs) =
      (by_packet v.signature, constrain_loop-NoKeyFails vs hs)
    where
      by_packet :
          (o : Option PacketSignature)
          → (constrain_signature from to v o).signed_by ≡ none
          → (constrain_signature from to v o).signature_error ≢ none
      by_packet none n = hv n
      by_packet (some sig) n = ground arith

constrain_loop-ne_nil :
    (from to : ℤ) (vs : List VerifiedSignature) → vs ≢ [] → constrain_loop from to vs ≢ []
unfolding constrain_loop
constrain_loop-ne_nil from to [] h = absurd (h refl)
constrain_loop-ne_nil from to (v ∷ vs) h = ground arith

-- Where some signature is listed and each one without a key has an error, the constrained result
-- reports success exactly if some signature had a matching key, no error and a timely packet.
pub constrain_to_time_range-success :
    (vr : VerifyResult) (from to : ℤ)
    → vr.signatures ≢ []
    → NoKeyFails vr.signatures
    → ((constrain_to_time_range vr from to).signature_error ≡ none)
      ↔ (any (λ v. is_verified v && is_timely from to v) vr.signatures ≡ true)
unfolding constrain_to_time_range
constrain_to_time_range-success vr from to n k =
    rw (← constrain_loop-verified from to vr.signatures) (
      select_signature-success _ (constrain_loop-ne_nil from to vr.signatures n)
        (constrain_loop-NoKeyFails from to vr.signatures k))
