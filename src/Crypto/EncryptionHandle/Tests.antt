-- ===== src/Crypto/EncryptionHandle/Tests.antt =====
-- Runs of the builder and of a handle with a password.
use gopenpgp.Base.{true, false, ◌&&◌, none, some, [], ◌∷◌, ok, is_some, ◌≡◌, refl}
use gopenpgp.Crypto.Samples.{open_key, locked_key}
use gopenpgp.Crypto.Key.{is_private, is_unlocked}
use gopenpgp.Crypto.KeyRing.{empty, append_key, not_unlocked, count_entities}
use gopenpgp.Crypto.EncryptionHandle.{
  EncryptionHandle, default_encryption_handle, with_password, KeysTo, Plan, choose_route,
  keys_target, stop_at, validate, handle_armor, encrypting_writers, new_encryption_handle_builder,
  recipient, apply_all, build,
}
use gopenpgp.Crypto.EncryptionHandle.Routes.{HasMaterial, encrypting_writers_lem}
use gopenpgp.Crypto.EncryptionHandle.Builder.{build-masks}

abbrev handle : EncryptionHandle
handle = record (default_encryption_handle none) { password = some (5 ∷ []) }

abbrev plan : Plan
plan = record {
  route = with_password;
  detached = none;
  keys_to = KeysTo.to_data;
  armored = true;
  checks_utf8 = false;
}

plan_run : encrypting_writers handle false false true none none ≡ ok plan
unfolding encrypting_writers handle_armor validate stop_at choose_route keys_target
    default_encryption_handle count_entities
plan_run = refl

plan_example :
    HasMaterial handle plan.route
    × (plan.detached ≡ some true → is_some handle.sign_key_ring ≡ true)
    × (is_some plan.detached ≡ true → false ≡ true)
    × (plan.armored ≡ true → false ≡ false)
plan_example = encrypting_writers_lem handle false false true none none plan plan_run

locked_refused : (is_private locked_key && not_unlocked (is_unlocked locked_key)) ≡ true
unfolding is_private not_unlocked is_unlocked
locked_refused = refl

open_accepted : (is_private open_key && not_unlocked (is_unlocked open_key)) ≡ false
unfolding is_private not_unlocked is_unlocked
open_accepted = refl

masks_example :
    (build (
      apply_all
        (new_encryption_handle_builder none)
        (recipient locked_key ∷ recipient open_key ∷ []))).0
    ≡ ok (record (default_encryption_handle none) { recipients = some (append_key empty open_key) })
masks_example = build-masks locked_key open_key none locked_refused open_accepted
