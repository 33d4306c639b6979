-- ===== src/Crypto/SignHandle/Tests.antt =====
-- Signing with small handles (crypto/sign_handle.go).
use text.Mathlib.Text.{◌==◌ as str_eq}
use gopenpgp.Base.{ℕ, Bool, true, false, none, some, List, [], ◌∷◌, ok, ◌≡◌, refl}
use gopenpgp.Profile.{default, sign_config}
use gopenpgp.Crypto.Entity.{PrivateKey}
use gopenpgp.Crypto.KeyRing.{KeyRing}
use gopenpgp.Crypto.Config.{unix}
use gopenpgp.Crypto.Samples.{entity, private_key}
use gopenpgp.Crypto.SignHandle.{
  SignatureHandle, SignCodec, sign_cleartext, signed_cleartext, cleartext_keys, usable_key,
}
use gopenpgp.Crypto.SignHandle.Signers.{AreKeys, sign_cleartext_sound}

abbrev codec : SignCodec ℕ
codec = record {
  armor_writer = λ w header headers checksum. ok 20;
  sign_with_params = λ w signers params. ok 21;
  detach_sign_writer = λ w signers params. ok 22;
  encode_cleartext = λ keys config headers message. ok message;
  signing_key = λ e config. some e.private_key;
  is_valid_utf8 = λ b. true;
}

abbrev handle : SignatureHandle
handle = record {
  sign_key_ring =
      some (record { entities = entity (some (private_key false)) ∷ []; first_key_id = "" });
  sign_context = none;
  is_utf8 = true;
  detached = false;
  clock = none;
}

sign_run : sign_cleartext codec default handle [] (104 ∷ 105 ∷ []) ≡ ok (104 ∷ 105 ∷ [])
unfolding sign_cleartext signed_cleartext cleartext_keys usable_key
sign_run = refl

sign_example :
    (◌≡◌ {A = Bool} true true)
    × ((ring : KeyRing) × (ps : List PrivateKey) × (handle.sign_key_ring ≡ some ring)
        × AreKeys codec (record (sign_config default) { time = some (unix none) }) ring.entities ps
        × (codec.encode_cleartext ps
              (record (sign_config default) { time = some (unix none) })
              []
              (104 ∷ 105 ∷ [])
            ≡ ok (104 ∷ 105 ∷ [])))
sign_example =
    sign_cleartext_sound codec default handle [] (104 ∷ 105 ∷ []) (104 ∷ 105 ∷ []) sign_run
