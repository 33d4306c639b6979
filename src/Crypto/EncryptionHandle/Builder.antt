-- ===== src/Crypto/EncryptionHandle/Builder.antt =====
-- How the encryption builder keeps and loses errors (crypto/encryption_handle_builder.go).
use gopenpgp.Base.{
  ℤ, Bool, true, false, ◌&&◌, Option, none, some, List, [], ◌∷◌, Error, ok, err, ltb, ◌≡◌, refl,
  ◌∙◌, arith, All, Bool-cases, inl, inr,
}
use gopenpgp.Crypto.Key.{Key, is_private, is_unlocked}
use gopenpgp.Crypto.KeyRing.{empty, append_key, not_unlocked, add_key, new_key_ring}
use gopenpgp.Crypto.EncryptionHandle.{
  default_encryption_handle, validate, EncryptionHandleBuilder, new_encryption_handle_builder,
  add_to, Method, recipient, recipients, hidden_recipient, hidden_recipients, signing_key,
  signing_keys, signing_context, session_key, password, compress, compress_with, utf8,
  detached_signature, plain_detached_signature, include_external_signature, encryption_time,
  sign_time, apply, apply_all, build,
}

-- The methods that set the error.
abbrev pub sets_error : Method → Bool
sets_error (recipient key) = true
sets_error (hidden_recipient key) = true
sets_error (signing_key key) = true
sets_error _ = false

apply-error :
    (ehb : EncryptionHandleBuilder) (m : Method)
    → sets_error m ≡ false
    → (apply ehb m).error ≡ ehb.error
unfolding apply
apply-error ehb (recipient k) h = absurd (ground arith)
apply-error ehb (hidden_recipient k) h = absurd (ground arith)
apply-error ehb (signing_key k) h = absurd (ground arith)
apply-error ehb (recipients r) h = refl
apply-error ehb (hidden_recipients r) h = refl
apply-error ehb (signing_keys r) h = refl
apply-error ehb (signing_context c) h = refl
apply-error ehb (session_key k) h = refl
apply-error ehb (password p) h = refl
apply-error ehb compress h = refl
apply-error ehb (compress_with n) h = elim (Bool-cases (ltb n 4)) [
  | inl e ↦ rw e refl
  | inr e ↦ rw e refl
]
apply-error ehb utf8 h = refl
apply-error ehb detached_signature h = refl
apply-error ehb plain_detached_signature h = refl
apply-error ehb (include_external_signature x) h = refl
apply-error ehb (encryption_time t) h = refl
apply-error ehb (sign_time t) h = refl

apply_all-error :
    (ms : List Method) (ehb : EncryptionHandleBuilder)
    → All (λ m. sets_error m ≡ false) ms
    → (apply_all ehb ms).error ≡ ehb.error
unfolding apply_all
apply_all-error [] ehb h = refl
apply_all-error (m ∷ ms) ehb (hm, hms) = apply_all-error ms (apply ehb m) hms ∙ apply-error ehb m hm

-- A New that fails leaves its error in the builder.
failed_error :
    (ehb : EncryptionHandleBuilder) (e : Error)
    → (build ehb).0 ≡ err e
    → (build ehb).1.error ≡ some e
unfolding build
failed_error ehb e h = by_error ehb.error refl (validate ehb.handle) refl
  where
    by_error :
        (o : Option Error)
        → ehb.error ≡ o
        → (v : Option Error) → validate ehb.handle ≡ v
        → (build ehb).1.error ≡ some e
    by_error (some x) e' v ev = ground arith
    by_error none e' (some x) ev = ground arith
    by_error none e' none ev = absurd (ground arith)

still_fails :
    (ehb : EncryptionHandleBuilder) (e : Error) → ehb.error ≡ some e → (build ehb).0 ≡ err e
unfolding build
still_fails ehb e h = rw h refl

-- After a New that fails, every later New fails with the same error, whatever is set in between, as long
-- as no single key is added.
pub build-again :
    (ehb : EncryptionHandleBuilder) (e : Error) (ms : List Method)
    → (build ehb).0 ≡ err e
    → All (λ m. sets_error m ≡ false) ms
    → (build (apply_all (build ehb).1 ms)).0 ≡ err e
unfolding build
build-again ehb e ms h others =
    still_fails (apply_all (build ehb).1 ms) e
      (apply_all-error ms (build ehb).1 others ∙ failed_error ehb e h)

-- A locked key that is added first is refused, and the unlocked key that is added next hides it: New
-- succeeds with the second key as the only recipient.
pub build-masks :
    (locked unlocked : Key) (clock : Option ℤ)
    → (is_private locked && not_unlocked (is_unlocked locked)) ≡ true
    → (is_private unlocked && not_unlocked (is_unlocked unlocked)) ≡ false
    → (build (
        apply_all
          (new_encryption_handle_builder clock)
          (recipient locked ∷ recipient unlocked ∷ []))).0
      ≡ ok (record (default_encryption_handle clock) {
        recipients = some (append_key empty unlocked);
      })
unfolding build apply_all apply add_to new_key_ring add_key validate new_encryption_handle_builder
    default_encryption_handle
build-masks locked unlocked clock l u = rw (l, u) refl
