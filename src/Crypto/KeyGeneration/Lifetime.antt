-- ===== src/Crypto/KeyGeneration/Lifetime.antt =====
-- The lifetime that the builder of a key generation keeps (crypto/key_generation_handle_builder.go).
use gopenpgp.Base.{
  ℕ, suc, ◌+◌, ◌^◌, ◌<◌, Bool, true, false, List, [], ◌∷◌, ◌++◌, ℤ, pos, negsuc, ◌≡◌, refl, ◌∙◌,
  arith, All,
}
use gopenpgp.Crypto.Config.{to_uint32}
use gopenpgp.Crypto.KeyGeneration.{
  KeyGenerationBuilder, GenerationMethod, generation_time, lifetime, add_user_id,
  override_profile_algorithm, apply, apply_all, build,
}

-- The values of an `int32`.
abbrev pub IsInt32 : ℤ → Type 0
IsInt32 (pos n) = n < 2 ^ 31
IsInt32 (negsuc n) = n < 2 ^ 31

-- What an `int32` becomes as a `uint32`: a negative value is counted down from 2^32.
abbrev pub IsWrapped : ℤ → ℕ → Type 0
IsWrapped (pos n) k = k ≡ n
IsWrapped (negsuc n) k = k + suc n ≡ 2 ^ 32

abbrev pub sets_lifetime : GenerationMethod → Bool
sets_lifetime (lifetime s) = true
sets_lifetime _ = false

to_uint32_lem : (s : ℤ) → IsInt32 s → (to_uint32 s < 2 ^ 32) × IsWrapped s (to_uint32 s)
unfolding to_uint32
to_uint32_lem (pos n) h = (omega arith, omega arith)
to_uint32_lem (negsuc n) h = (omega arith, omega arith)

apply-lifetime :
    (kgb : KeyGenerationBuilder) (m : GenerationMethod)
    → sets_lifetime m ≡ false
    → (apply kgb m).handle.key_lifetime_secs ≡ kgb.handle.key_lifetime_secs
unfolding apply
apply-lifetime kgb (generation_time t) h = refl
apply-lifetime kgb (lifetime s) h = absurd (ground arith)
apply-lifetime kgb (add_user_id name email) h = refl
apply-lifetime kgb (override_profile_algorithm a) h = refl

apply_all-lifetime :
    (ms : List GenerationMethod) (kgb : KeyGenerationBuilder)
    → All (λ m. sets_lifetime m ≡ false) ms
    → (apply_all kgb ms).handle.key_lifetime_secs ≡ kgb.handle.key_lifetime_secs
unfolding apply_all
apply_all-lifetime [] kgb h = refl
apply_all-lifetime (m ∷ ms) kgb (other, others) =
    apply_all-lifetime ms (apply kgb m) others ∙ apply-lifetime kgb m other

apply_all-append :
    (ms ms' : List GenerationMethod) (kgb : KeyGenerationBuilder)
    → apply_all kgb (ms ++ ms') ≡ apply_all (apply_all kgb ms) ms'
unfolding apply_all
apply_all-append [] ms' kgb = refl
apply_all-append (m ∷ ms) ms' kgb = apply_all-append ms ms' (apply kgb m)

last_lem :
    (kgb : KeyGenerationBuilder) (s : ℤ) (after : List GenerationMethod)
    → All (λ m. sets_lifetime m ≡ false) after
    → (apply_all kgb (lifetime s ∷ after)).handle.key_lifetime_secs ≡ to_uint32 s
unfolding apply_all apply
last_lem kgb s after others = apply_all-lifetime after (apply kgb (lifetime s)) others

-- The lifetime of a handle is the last one that was set, which for an `int32` fits into 32 bits: a lifetime
-- that is not negative is kept, and a negative one of -k seconds becomes one of 2^32 - k.
pub build-lifetime :
    (kgb : KeyGenerationBuilder) (before after : List GenerationMethod) (s : ℤ)
    → IsInt32 s
    → All (λ m. sets_lifetime m ≡ false) after
    → let kgh = (build (apply_all kgb (before ++ lifetime s ∷ after))).0 in
      (kgh.key_lifetime_secs < 2 ^ 32) × IsWrapped s kgh.key_lifetime_secs
unfolding build
build-lifetime kgb before after s h others =
    rw
      (
        apply_all-append before (lifetime s ∷ after) kgb,
        last_lem (apply_all kgb before) s after others,
      )
      (to_uint32_lem s h)
