-- ===== src/Crypto/SignHandle/Builder.antt =====
-- crypto/sign_handle_builder.go: the builder of signing handles, and the armor headers that all of them share.
use text.Mathlib.Text.{◌==◌ as str_eq}
use gopenpgp.Base.{
  true, Option, none, some, List, [], ◌∷◌, String, ℤ, Error, Result, ok, err, if◌then◌else◌,
}
use gopenpgp.Crypto.Key.{Key}
use gopenpgp.Crypto.KeyRing.{KeyRing}
use gopenpgp.Crypto.Signature.{SigningContext}
use gopenpgp.Crypto.EncryptionHandle.{add_to}
use gopenpgp.Crypto.SignHandle.{Headers, SignatureHandle, default_signature_handle, validate}

-- `m[key] = value`
pub set_header : String → String → Headers → Headers
set_header k v [] = (k, v) ∷ []
set_header k v ((j, w) ∷ m) = if str_eq j k then (k, v) ∷ m else (j, w) ∷ set_header k v m

pub record SignHandleBuilder : Type 0 where
  pub handle : SignatureHandle
  pub default_clock : Option ℤ
  pub error : Option Error

-- newSignHandleBuilder
pub new_sign_handle_builder : Option ℤ → SignHandleBuilder
unfolding default_signature_handle
new_sign_handle_builder clock = record {
  handle = default_signature_handle clock;
  default_clock = clock;
  error = none;
}

-- The builder's methods, with their arguments.
pub data SignMethod : Type 0 where
  signing_key : Key → SignMethod
  signing_keys : Option KeyRing → SignMethod
  signing_context : Option SigningContext → SignMethod
  detached : SignMethod
  armor_header : String → String → SignMethod
  utf8 : SignMethod
  sign_time : ℤ → SignMethod

-- A method on the builder and the shared headers.
pub apply : SignHandleBuilder × Headers → SignMethod → SignHandleBuilder × Headers
unfolding set_header
apply (shb, h) (signing_key key) =
    let (ring, failure) = add_to shb.handle.sign_key_ring key in
    (record shb { handle = record shb.handle { sign_key_ring = some ring }; error = failure }, h)
apply (shb, h) (signing_keys ring) =
    (record shb { handle = record shb.handle { sign_key_ring = ring } }, h)
apply (shb, h) (signing_context context) =
    (record shb { handle = record shb.handle { sign_context = context } }, h)
apply (shb, h) detached = (record shb { handle = record shb.handle { detached = true } }, h)
apply (shb, h) (armor_header version comment) =
    (shb, set_header "Comment" comment (set_header "Version" version h))
apply (shb, h) utf8 = (record shb { handle = record shb.handle { is_utf8 = true } }, h)
apply (shb, h) (sign_time t) = (record shb { handle = record shb.handle { clock = some t } }, h)

pub apply_all : SignHandleBuilder × Headers → List SignMethod → SignHandleBuilder × Headers
unfolding apply
apply_all s [] = s
apply_all s (m ∷ ms) = apply_all (apply s m) ms

-- (*SignHandleBuilder).New
pub build : SignHandleBuilder → Result SignatureHandle × SignHandleBuilder
unfolding validate default_signature_handle
build shb = elim shb.error [
  | some e ↦ (err e, shb)
  | none ↦ elim (validate shb.handle) [
    | some e ↦ (err e, record shb { error = some e })
    | none ↦ (ok shb.handle, record shb { handle = default_signature_handle shb.default_clock })
  ]
]

-- `m[key]`
abbrev pub get_header : String → Headers → Option String
get_header k [] = none
get_header k ((j, v) ∷ m) = if str_eq j k then some v else get_header k m
