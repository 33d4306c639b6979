-- ===== src/Crypto/EncryptionHandle/Routes.antt =====
-- What an encryption handle must have for the stream that it chooses (crypto/encryption_handle.go).
use gopenpgp.Base.{
  ℕ, ◌+◌, ◌<◌, Bool, true, false, Option, none, some, Error, ok, is_none, is_some, ◌≡◌, arith,
}
use gopenpgp.Crypto.KeyRing.{count_entities}
use gopenpgp.Crypto.EncryptionHandle.{
  EncryptionHandle, validate, Route, to_recipients, with_password, with_session_key, KeysTo, Plan,
  handle_armor, choose_route, keys_target, stop_at, encrypting_writers,
}

-- The entities of both key rings.
abbrev pub count_all : EncryptionHandle → ℕ
count_all eh = count_entities eh.recipients + count_entities eh.hidden_recipients

-- The material of the stream: entities before a password, a password before a session key.
abbrev pub HasMaterial : EncryptionHandle → Route → Type 0
HasMaterial eh to_recipients = 0 < count_all eh
HasMaterial eh with_password = (count_all eh ≡ 0) × (is_some eh.password ≡ true)
HasMaterial eh with_session_key =
    (count_all eh ≡ 0) × (is_some eh.password ≡ false) × (is_some eh.session_key ≡ true)

choose_route_lem :
    (eh : EncryptionHandle) (route : Route) → choose_route eh ≡ ok route → HasMaterial eh route
unfolding choose_route
choose_route_lem eh to_recipients h = ground arith
choose_route_lem eh with_password h = ground arith
choose_route_lem eh with_session_key h = ground arith

-- If encryptingWriters sets up a stream, the handle has the material of the stream, recipients being
-- preferred to a password and a password to a session key; an encrypted detached signature has a signing
-- key ring; a detached signature has a writer; and armored output has no separate writer for the keys.
pub encrypting_writers_lem :
    (eh : EncryptionHandle) (has_keys has_signature_writer armor_output : Bool)
    (data_error signature_error : Option Error) (plan : Plan)
    → encrypting_writers eh has_keys has_signature_writer armor_output data_error signature_error
      ≡ ok plan
    → HasMaterial eh plan.route
      × (plan.detached ≡ some true → is_some eh.sign_key_ring ≡ true)
      × (is_some plan.detached ≡ true → has_signature_writer ≡ true)
      × (plan.armored ≡ true → has_keys ≡ false)
unfolding encrypting_writers handle_armor validate stop_at keys_target
encrypting_writers_lem eh has_keys has_signature_writer armor_output data_error signature_error plan
      h =
    (
      choose_route_lem eh plan.route (ground arith),
      (λ d. ground arith),
      (λ d. ground arith),
      λ a. ground arith,
    )

-- A handle without a signing key ring that asks for a plain detached signature passes the checks: a
-- stream with a detached signature is set up for it.
pub encrypting_writers-unsigned :
    (eh : EncryptionHandle) (route : Route)
    → is_none eh.sign_key_ring ≡ true
    → is_none eh.signing_context ≡ true
    → eh.detached_signature ≡ false
    → eh.plain_detached_signature ≡ true
    → choose_route eh ≡ ok route
    → encrypting_writers eh false true false none none
      ≡ ok (record {
        route = route;
        detached = some false;
        keys_to = KeysTo.to_data;
        armored = false;
        checks_utf8 = eh.is_utf8;
      })
unfolding encrypting_writers validate stop_at keys_target choose_route count_entities
encrypting_writers-unsigned eh route no_ring no_context not_encrypted plain chosen = ground arith
