-- ===== src/Crypto/VerifyHandle/Builder.antt =====
-- crypto/verify_handle_builder.go: the builder of verification handles.
use gopenpgp.Base.{
  true, Option, none, some, List, [], ◌∷◌, ℤ, Error, Result, ok, err, Ensures, ◌≡◌, refl, All,
}
use gopenpgp.Crypto.Key.{Key}
use gopenpgp.Crypto.KeyRing.{KeyRing, empty, new_key_ring}
use gopenpgp.Crypto.KeyRing.Unlocked.{IsUsableRing, add_key-IsUsableRing}
use gopenpgp.Crypto.Signature.{VerificationContext}
use gopenpgp.Crypto.EncryptionHandle.{add_to}
use gopenpgp.Crypto.VerifyHandle.{VerifyHandle, default_verify_handle, validate}

pub record VerifyHandleBuilder : Type 0 where
  pub handle : VerifyHandle
  pub default_clock : Option ℤ
  pub error : Option Error

-- newVerifyHandleBuilder
pub new_verify_handle_builder : Option ℤ → VerifyHandleBuilder
new_verify_handle_builder clock = record {
  handle = default_verify_handle clock;
  default_clock = clock;
  error = none;
}

-- The builder's methods, with their arguments.
pub data VerifyMethod : Type 0 where
  verification_keys : Option KeyRing → VerifyMethod
  verification_key : Key → VerifyMethod
  verification_context : Option VerificationContext → VerifyMethod
  verify_time : ℤ → VerifyMethod
  utf8 : VerifyMethod
  disable_verify_time_check : VerifyMethod
  disable_strict_message_parsing : VerifyMethod
  disable_automatic_text_sanitize : VerifyMethod

set_handle : VerifyHandleBuilder → VerifyHandle → VerifyHandleBuilder
set_handle vhb handle = record vhb { handle = handle }

pub apply : VerifyHandleBuilder → VerifyMethod → VerifyHandleBuilder
unfolding set_handle
apply vhb (verification_keys ring) = set_handle vhb (record vhb.handle { verify_key_ring = ring })
apply vhb (verification_key key) =
    let (ring, failure) = add_to vhb.handle.verify_key_ring key in
    record vhb { handle = record vhb.handle { verify_key_ring = some ring }; error = failure }
apply vhb (verification_context context) =
    set_handle vhb (record vhb.handle { verification_context = context })
apply vhb (verify_time t) = set_handle vhb (record vhb.handle { clock = some t })
apply vhb utf8 = set_handle vhb (record vhb.handle { is_utf8 = true })
apply vhb disable_verify_time_check =
    set_handle vhb (record vhb.handle { disable_verify_time_check = true })
apply vhb disable_strict_message_parsing =
    set_handle vhb (record vhb.handle { disable_strict_message_parsing = true })
apply vhb disable_automatic_text_sanitize =
    set_handle vhb (record vhb.handle { disable_automatic_text_sanitize = true })

pub apply_all : VerifyHandleBuilder → List VerifyMethod → VerifyHandleBuilder
apply_all vhb [] = vhb
apply_all vhb (m ∷ ms) = apply_all (apply vhb m) ms

-- (*VerifyHandleBuilder).New
pub build : VerifyHandleBuilder → Result VerifyHandle × VerifyHandleBuilder
unfolding validate
build vhb = elim vhb.error [
  | some e ↦ (err e, vhb)
  | none ↦ elim (validate vhb.handle) [
    | some e ↦ (err e, record vhb { error = some e })
    | none ↦ (ok vhb.handle, record vhb { handle = default_verify_handle vhb.default_clock })
  ]
]

-- A ring that is not there, or one without a locked private key.
abbrev pub IsUsableOption : Option KeyRing → Type 0
IsUsableOption none = Unit
IsUsableOption (some ring) = IsUsableRing ring

-- The rings that are given as a whole have no locked private key.
abbrev pub GivesUsable : VerifyMethod → Type 0
GivesUsable (verification_keys ring) = IsUsableOption ring
GivesUsable _ = Unit

add_to-IsUsableRing :
    (ring : Option KeyRing) (key : Key) → IsUsableOption ring → IsUsableRing (add_to ring key).0
unfolding add_to new_key_ring
add_to-IsUsableRing none key h = add_key-IsUsableRing empty key tt
add_to-IsUsableRing (some ring) key h = add_key-IsUsableRing ring key h

apply-IsUsable :
    (vhb : VerifyHandleBuilder) (m : VerifyMethod)
    → GivesUsable m
    → IsUsableOption vhb.handle.verify_key_ring
    → IsUsableOption (apply vhb m).handle.verify_key_ring
unfolding apply
apply-IsUsable vhb (verification_keys ring) g h = g
apply-IsUsable vhb (verification_key key) g h = add_to-IsUsableRing vhb.handle.verify_key_ring key h
apply-IsUsable vhb (verification_context context) g h = h
apply-IsUsable vhb (verify_time t) g h = h
apply-IsUsable vhb utf8 g h = h
apply-IsUsable vhb disable_verify_time_check g h = h
apply-IsUsable vhb disable_strict_message_parsing g h = h
apply-IsUsable vhb disable_automatic_text_sanitize g h = h

apply_all-IsUsable :
    (ms : List VerifyMethod) (vhb : VerifyHandleBuilder)
    → All GivesUsable ms
    → IsUsableOption vhb.handle.verify_key_ring
    → IsUsableOption (apply_all vhb ms).handle.verify_key_ring
unfolding apply_all
apply_all-IsUsable [] vhb g h = h
apply_all-IsUsable (m ∷ ms) vhb (g, gs) h =
    apply_all-IsUsable ms (apply vhb m) gs (apply-IsUsable vhb m g h)

-- The key ring of a handle is there, and has no locked private key.
abbrev pub HasUsableRing : VerifyHandle → Type 0
HasUsableRing vh = (ring : KeyRing) × (vh.verify_key_ring ≡ some ring) × IsUsableRing ring

build-HasUsableRing :
    (vhb : VerifyHandleBuilder)
    → IsUsableOption vhb.handle.verify_key_ring
    → Ensures HasUsableRing (build vhb).0
unfolding build validate
build-HasUsableRing vhb h = by_error vhb.error vhb.handle.verify_key_ring refl h
  where
    by_error :
        (o : Option Error) (r : Option KeyRing)
        → vhb.handle.verify_key_ring ≡ r
        → IsUsableOption r
        → Ensures HasUsableRing (build (record vhb { error = o })).0
    by_error (some e) r same u = tt
    by_error none none same u = rw same tt
    by_error none (some ring) same u = rw same (ring, refl, u)

-- Whatever methods are called on a new builder, if the key rings that are given as a whole have no
-- locked private key: where New succeeds, the handle has a key ring, and no private key of it is locked.
pub build-apply_all :
    (clock : Option ℤ) (ms : List VerifyMethod)
    → All GivesUsable ms
    → Ensures HasUsableRing (build (apply_all (new_verify_handle_builder clock) ms)).0
unfolding new_verify_handle_builder default_verify_handle
build-apply_all clock ms g =
    build-HasUsableRing (apply_all (new_verify_handle_builder clock) ms)
      (apply_all-IsUsable ms (new_verify_handle_builder clock) g tt)
