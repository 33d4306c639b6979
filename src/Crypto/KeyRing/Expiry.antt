-- ===== src/Crypto/KeyRing/Expiry.antt =====
-- Which key rings FilterExpiredKeys keeps (crypto/keyring.go).
use gopenpgp.Base.{
  ℤ, Bool, false, not, ◌&&◌, ◌||◌, Option, List, [], ◌∷◌, ◌++◌, Error, Result, ok, err, panic,
  ◌>>=◌, ◌≡◌, refl, arith, append-nil, append_assoc, Bool-cases, inl, inr, ap, ◌∙◌, any,
  if◌then◌else◌,
}
use gopenpgp.Crypto.Entity.{Entity, Subkey}
use gopenpgp.Crypto.KeyRing.{
  KeyRing, KeyQueries, subkey_flags, ring_flags, filter_loop, filter_expired_keys, expired_error,
}

or_assoc : (a b c : Bool) → ((a || b) || c) ≡ (a || (b || c))
or_assoc a b c = ground arith

-- The copies of the rings, or the first error.
abbrev pub copies : (KeyRing → Result KeyRing) → List KeyRing → Result (List KeyRing)
copies copy [] = ok []
copies copy (r ∷ rs) = do c ← copy r; cs ← copies copy rs; ok (c ∷ cs)

module _ {Binding : Type 0} (queries : KeyQueries Binding) (now : ℤ) where
  -- A subkey counts as unexpired by the time of its latest binding alone.
  abbrev pub is_live : Subkey → Bool
  is_live sub = not (queries.key_expired sub.public_key (queries.latest_valid sub now).0 now)

  -- Some subkey of some entity is unexpired.
  abbrev pub has_live : KeyRing → Bool
  has_live ring = any (λ (e : Entity). any is_live e.subkeys) ring.entities

  abbrev pub keep : List KeyRing → List KeyRing
  keep [] = []
  keep (r ∷ rs) = if has_live r then r ∷ keep rs else keep rs

  subkey_flags-live :
      (subs : List Subkey) (x u : Bool)
      → (subkey_flags queries subs now (x, u)).1 ≡ (u || any is_live subs)
  unfolding subkey_flags
  subkey_flags-live [] x u = ground arith
  subkey_flags-live (b ∷ subs) x u =
      subkey_flags-live subs _ _ ∙ or_assoc u (is_live b) (any is_live subs)

  ring_flags-live :
      (es : List Entity) (u t : Bool)
      → (ring_flags queries es now (u, t)).0 ≡ (u || any (λ (e : Entity). any is_live e.subkeys) es)
  unfolding ring_flags
  ring_flags-live [] u t = ground arith
  ring_flags-live (e ∷ es) u t =
      ring_flags-live es _ _
      ∙ ap (λ (b : Bool). (u || b) || any (λ (d : Entity). any is_live d.subkeys) es)
          (subkey_flags-live e.subkeys false false)
      ∙ or_assoc u (any is_live e.subkeys) _

  -- No subkey of the ring is unexpired, and some entity has an expired one.
  abbrev pub is_stale : KeyRing → Bool
  is_stale ring = not (has_live ring) && (ring_flags queries ring.entities now (false, false)).1

  -- One ring more in front of the rings that are copied later.
  shift :
      (kept : List KeyRing) (c : KeyRing) (b : Bool) (m : Result (List KeyRing))
      → ◌≡◌ {A = Result (List KeyRing × Bool)}
          (do cs ← m; ok ((kept ++ c ∷ []) ++ cs, b))
          (do cs ← (do cs ← m; ok (c ∷ cs)); ok (kept ++ cs, b))
  shift kept c b (ok cs) = rw append_assoc
  shift kept c b (err e) = refl
  shift kept c b panic = refl

  filter_loop_lem :
      (copy : KeyRing → Result KeyRing) (rings kept : List KeyRing) (x : Bool)
      → filter_loop queries copy now rings (kept, x)
        ≡ (do cs ← copies copy (keep rings); ok (kept ++ cs, x || any is_stale rings))
  unfolding filter_loop
  filter_loop_lem copy [] kept x = ground (arith, append-nil kept)
  filter_loop_lem copy (r ∷ rs) kept x =
      rw (ring_flags-live r.entities false false) (elim (Bool-cases (has_live r)) [
        | inl live ↦ rw live (kept_case (λ k. filter_loop_lem copy rs k x) (copy r))
        | inr dead ↦ rw dead (simp (filter_loop_lem copy rs kept, or_assoc))
      ])
    where
      kept_case :
          ((k : List KeyRing)
            → filter_loop queries copy now rs (k, x)
              ≡ (do cs ← copies copy (keep rs); ok (k ++ cs, x || any is_stale rs)))
          → (c : Result KeyRing)
          → (do c' ← c; filter_loop queries copy now rs (kept ++ c' ∷ [], x)) ≡ (do
            cs ← (do c' ← c; cs ← copies copy (keep rs); ok (c' ∷ cs))
            ok (kept ++ cs, x || any is_stale rs))
      kept_case ih (ok c) =
          ih (kept ++ c ∷ []) ∙ shift kept c (x || any is_stale rs) (copies copy (keep rs))
      kept_case ih (err e) = refl
      kept_case ih panic = refl

  bind_assoc :
      (rings : List KeyRing) (m : Result (List KeyRing))
      → (◌>>=◌ {A = List KeyRing × Bool} {B = List KeyRing × Option Error}
          (do cs ← m; ok ([] ++ cs, false || any is_stale rings))
          (λ r. ok (r.0, expired_error r.0 r.1)))
        ≡ (do cs ← m; ok (cs, expired_error cs (any is_stale rings)))
  bind_assoc rings (ok cs) = refl
  bind_assoc rings (err e) = refl
  bind_assoc rings panic = refl

  -- FilterExpiredKeys returns whole copies of exactly the rings that hold an unexpired subkey, in their
  -- order, or the first error of a copy; beside them stands an error if it keeps no ring and a ring
  -- without such a subkey had an expired one.
  pub filter_expired_keys_lem :
      (copy : KeyRing → Result KeyRing) (rings : List KeyRing)
      → filter_expired_keys queries copy now rings
        ≡ (do cs ← copies copy (keep rings); ok (cs, expired_error cs (any is_stale rings)))
  unfolding filter_expired_keys
  filter_expired_keys_lem copy rings =
      rw (filter_loop_lem copy rings [] false) (bind_assoc rings (copies copy (keep rings)))
