-- ===== src/Crypto/KeyGeneration/Tests.antt =====
-- Generating small keys (crypto/key_generation_handle.go).
use gopenpgp.Base.{
  ◌^◌, ◌<◌, none, some, List, [], ◌∷◌, ◌++◌, negsuc, pos, Result, sym, ap, false, ok, Ensures, ◌≡◌,
  refl, arith,
}
use gopenpgp.Profile.{default}
use gopenpgp.Crypto.Samples.{entity, private_key}
use gopenpgp.Crypto.Entity.{Entity, Identity}
use gopenpgp.Crypto.KeyGeneration.{
  UserId, KeyGenerationHandle, KeyGenCodec, new_key_generation_builder, generation_time, lifetime,
  add_user_id, generation_config, generate_key_with_security, apply_all, build, first_entity,
  add_user_ids, valid, check_private,
}
use gopenpgp.Crypto.KeyGeneration.Identities.{
  AddsIds, IsGenerated, generate_key_with_security-IsGenerated,
}
use gopenpgp.Crypto.KeyGeneration.Lifetime.{IsWrapped, build-lifetime}

-- An entity keeps each user id as two identities, the last one first.
abbrev with_ids : List Identity → Entity
with_ids is = record (entity (some (private_key false))) { identities = is }

abbrev put : UserId → List Identity → List Identity
put uid is =
    record { name = uid.name; email = uid.comment } ∷ record { name = ""; email = uid.email } ∷ is

abbrev user_ids : List Identity → List UserId
user_ids (i ∷ j ∷ is) =
    user_ids is ++ record { name = i.name; comment = i.email; email = j.email } ∷ []
user_ids _ = []

abbrev codec : KeyGenCodec
codec = record {
  new_entity_without_id = λ config. ok (with_ids []);
  new_entity = λ uid config. ok (with_ids (put uid []));
  add_user_id = λ e uid config. ok (with_ids (put uid e.identities));
}

abbrev ids : Entity → List UserId
ids e = user_ids e.identities

abbrev ids_of : Result Entity → List UserId
ids_of (ok e) = ids e
ids_of _ = []

codec-AddsIds : AddsIds codec ids
codec-AddsIds = record {
  none_given = λ config e h. ap ids_of (sym h);
  first = λ uid config e h. ap ids_of (sym h);
  adds = λ e e' uid config h. ap ids_of (sym h);
}

abbrev handle : KeyGenerationHandle
handle = record {
  identities =
      record { name = "a"; comment = ""; email = "" }
      ∷ record { name = ""; comment = ""; email = "b" }
      ∷ [];
  key_lifetime_secs = 0;
  override_algorithm = 0;
  clock = some (pos 3);
}

generated_run :
    generate_key_with_security codec default handle 0
    ≡ ok (record {
      entity = with_ids (
          put
            (record { name = ""; comment = ""; email = "b" })
            (put (record { name = "a"; comment = ""; email = "" }) []));
    })
unfolding generate_key_with_security first_entity add_user_ids valid check_private
generated_run = refl

user_ids_example :
    Ensures
      (IsGenerated codec ids codec-AddsIds (generation_config default handle 0) handle.identities)
      (generate_key_with_security codec default handle 0)
user_ids_example = generate_key_with_security-IsGenerated codec ids codec-AddsIds default handle 0

-- A negative lifetime.
lifetime_example :
    let kgh =
      (build (
        apply_all
          (new_key_generation_builder none)
          ((add_user_id "a" "b" ∷ []) ++ lifetime (negsuc 9) ∷ generation_time (pos 3) ∷ []))).0 in
    (kgh.key_lifetime_secs < 2 ^ 32) × IsWrapped (negsuc 9) kgh.key_lifetime_secs
lifetime_example =
    build-lifetime (new_key_generation_builder none) (add_user_id "a" "b" ∷ [])
      (generation_time (pos 3) ∷ []) (negsuc 9) (omega arith) (refl, tt)
