-- ===== src/Crypto/KeyGeneration/Identities.antt =====
-- The user ids of a generated key (crypto/key_generation_handle.go).
use text.Mathlib.Text.{◌==◌ as str_eq}
use gopenpgp.Base.{
  ℕ, Bool, true, false, ◌&&◌, List, [], ◌∷◌, ◌++◌, Error, if◌then◌else◌, Result, ok, err, is_some,
  ◌≡◌, refl, sym, ◌∙◌, ap, arith, All, Ensures, Ensures-bind, Ensures-wrap_err, Ensures-ok,
  Ensures-map, append-nil, append_assoc,
}
use gopenpgp.Profile.{Custom}
use gopenpgp.Crypto.Entity.{Entity}
use gopenpgp.Crypto.Key.{Key}
use gopenpgp.Crypto.Config.{Config}
use gopenpgp.Crypto.KeyGeneration.{
  UserId, KeyGenerationHandle, KeyGenCodec, valid, generation_config, check_private, first_entity,
  add_user_ids, others, generate_key_with_security,
}

-- A user id with a name or an email address.
abbrev pub IsNamed : UserId → Type 0
IsNamed uid = (str_eq uid.email "" && str_eq uid.name "") ≡ false

-- go-crypto's functions give an entity the user ids that they are called with.
pub record AddsIds (codec : KeyGenCodec) (ids : Entity → List UserId) : Type 0 where
  pub none_given :
      (config : Config) (e : Entity) → codec.new_entity_without_id config ≡ ok e → ids e ≡ []
  pub first :
      (uid : UserId) (config : Config) (e : Entity)
      → codec.new_entity uid config ≡ ok e
      → ids e ≡ uid ∷ []
  pub adds :
      (e e' : Entity) (uid : UserId) (config : Config)
      → codec.add_user_id e uid config ≡ ok e'
      → ids e' ≡ ids e ++ uid ∷ []

valid_lem : (uid : UserId) → Ensures (λ _. IsNamed uid) (valid uid)
unfolding valid
valid_lem uid = by_test (str_eq uid.email "" && str_eq uid.name "") refl
  where
    by_test :
        (b : Bool)
        → (str_eq uid.email "" && str_eq uid.name "") ≡ b
        → Ensures (λ (_ : Unit {0}). IsNamed uid) (valid uid)
    by_test true h = rw h tt
    by_test false h = rw h refl

module _ (codec : KeyGenCodec) (ids : Entity → List UserId) (law : AddsIds codec ids) where
  -- The user ids of the key are those of the handle, in order, each with a name or an email address; the key
  -- is private, and without user ids it is a v6 key.
  abbrev pub IsGenerated : Config → List UserId → Key → Type 0
  IsGenerated config uids key =
      (ids key.entity ≡ uids)
      × All IsNamed uids
      × (is_some key.entity.private_key ≡ true)
      × (uids ≡ [] → config.v6_keys ≡ true)

  first_lem :
      (config : Config) (uid : UserId) (uids : List UserId)
      → Ensures (λ e. (ids e ≡ uid ∷ []) × IsNamed uid) (first_entity codec config (uid ∷ uids))
  unfolding first_entity
  first_lem config uid uids =
      Ensures-bind (λ _. IsNamed uid) (λ e. (ids e ≡ uid ∷ []) × IsNamed uid) (valid uid) _
        (valid_lem uid)
        (λ _ named.
          Ensures-wrap_err (λ e. (ids e ≡ uid ∷ []) × IsNamed uid) _ (codec.new_entity uid config)
            (Ensures-map (λ e. codec.new_entity uid config ≡ ok e) _ (codec.new_entity uid config)
              (λ e h. (law.first uid config e h, named))
              (Ensures-ok (codec.new_entity uid config))))

  add_lem :
      (config : Config) (uids : List UserId) (e : Entity)
      → Ensures
          (λ e'. (ids e' ≡ ids e ++ uids) × All IsNamed uids)
          (add_user_ids codec config uids e)
  unfolding add_user_ids
  add_lem config [] e = (sym (append-nil (ids e)), tt)
  add_lem config (uid ∷ uids) e =
      Ensures-bind (λ _. IsNamed uid)
        (λ e'. (ids e' ≡ ids e ++ uid ∷ uids) × (IsNamed uid × All IsNamed uids)) (valid uid) _
        (valid_lem uid)
        (λ _ named.
          Ensures-bind (λ e'. ids e' ≡ ids e ++ uid ∷ []) _ _ (add_user_ids codec config uids)
            (Ensures-wrap_err (λ e'. ids e' ≡ ids e ++ uid ∷ []) _ (codec.add_user_id e uid config)
              (Ensures-map (λ e'. codec.add_user_id e uid config ≡ ok e') _
                (codec.add_user_id e uid config) (λ e' h. law.adds e e' uid config h)
                (Ensures-ok (codec.add_user_id e uid config))))
            (λ e' h.
              Ensures-map (λ e''. (ids e'' ≡ ids e' ++ uids) × All IsNamed uids) _
                (add_user_ids codec config uids e')
                (λ e'' (same, all). (
                  same ∙ ap (λ l. l ++ uids) h ∙ append_assoc (ids e) (uid ∷ []) uids,
                  (named, all),
                ))
                (add_lem config uids e')))

  private_lem :
      (e : Entity)
      → Ensures
          (λ key. (key.entity ≡ e) × (is_some key.entity.private_key ≡ true))
          (check_private e)
  unfolding check_private
  private_lem e = by_test (is_some e.private_key) refl
    where
      by_test :
          (b : Bool)
          → is_some e.private_key ≡ b
          → Ensures
              (λ key. (key.entity ≡ e) × (is_some key.entity.private_key ≡ true))
              (check_private e)
      by_test true h = rw h (refl, h)
      by_test false h = rw h tt

  if_lem :
      (P : Entity → Type 0) (b : Bool) (r : Result Entity) (x : Error)
      → (b ≡ true → Ensures P r)
      → Ensures P (if b then r else err x)
  if_lem P true r x h = h refl
  if_lem P false r x h = tt

  -- The entity in front of the loop, which adds the other user ids.
  abbrev IsFirst : Config → List UserId → Entity → Type 0
  IsFirst config uids e =
      All IsNamed (others uids)
      → (ids e ++ others uids ≡ uids) × All IsNamed uids × (uids ≡ [] → config.v6_keys ≡ true)

  entity_lem :
      (config : Config) (uids : List UserId)
      → Ensures (IsFirst config uids) (first_entity codec config uids)
  unfolding first_entity
  entity_lem config [] = if_lem (IsFirst config []) config.v6_keys _ _ (λ h.
      Ensures-wrap_err (IsFirst config []) _ (codec.new_entity_without_id config) (
        Ensures-map (λ e. codec.new_entity_without_id config ≡ ok e) (IsFirst config [])
          (codec.new_entity_without_id config)
          (λ e made _. (append-nil (ids e) ∙ law.none_given config e made, tt, λ _. h))
          (Ensures-ok (codec.new_entity_without_id config))))
  entity_lem config (uid ∷ uids) =
      Ensures-map (λ e. (ids e ≡ uid ∷ []) × IsNamed uid) (IsFirst config (uid ∷ uids))
        (first_entity codec config (uid ∷ uids))
        (λ e (same, named) all.
          (ap (λ l. l ++ uids) same, (named, all), λ h. absurd (ground arith)))
        (first_lem config uid uids)

  -- For functions of go-crypto that give an entity the user ids that they are called with: a generated key has the
  -- user ids of the handle, in order, each with a name or an email address; it is private, and a key without user
  -- ids is only generated where the configuration asks for a v6 key.
  pub generate_key_with_security-IsGenerated :
      (profile : Custom) (kgh : KeyGenerationHandle) (security : ℕ)
      → Ensures
          (IsGenerated (generation_config profile kgh security) kgh.identities)
          (generate_key_with_security codec profile kgh security)
  unfolding generate_key_with_security
  generate_key_with_security-IsGenerated profile kgh security =
      let config = generation_config profile kgh security in
      let uids = kgh.identities in
      let Made : Key → Type 0 = IsGenerated config uids in
      Ensures-bind (IsFirst config uids) Made (first_entity codec config uids) _
        (entity_lem config uids)
        (λ e h.
          Ensures-bind (λ e'. (ids e' ≡ ids e ++ others uids) × All IsNamed (others uids)) Made
            (add_user_ids codec config (others uids) e) check_private
            (add_lem config (others uids) e)
            (λ e' (same, all).
              Ensures-map (λ key. (key.entity ≡ e') × (is_some key.entity.private_key ≡ true)) Made
                (check_private e')
                (λ key (is_e, has).
                  let (front, named, v6) = h all in (ap ids is_e ∙ same ∙ front, named, has, v6))
                (private_lem e')))
