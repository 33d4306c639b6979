-- ===== src/Crypto/KeyClear/Zeroed.antt =====
-- What is left of a private key after ClearPrivateParams (crypto/key_clear.go).
use gopenpgp.Base.{
  ℕ, zero, suc, Bool, Option, none, some, List, [], ◌∷◌, ◌++◌, Bytes, ok, ◌≡◌, ◌≤◌, refl, arith,
  All, Returns, Returns-bind, map, ap, take, drop, length,
}
use gopenpgp.Crypto.Entity.{
  BigInt, CrtValue, RsaPrivateKey, Material, rsa, dsa, elgamal, ecdsa, eddsa, ecdh, x25519, ed25519,
  x448, ed448, unknown, PrivateKey, PublicKey, Subkey, Entity,
}
use gopenpgp.Crypto.Key.{Key}
use gopenpgp.Crypto.KeyClear.{
  clear_mem, clear_big_int, clear_big_ints, clear_crt_values, clear_rsa_private_key, clear_prefix,
  clear_private_key, clear_counted, clear_optional, clear_subkeys, clear_private_with_subkeys,
  drop_private, clear_private_params,
}

abbrev pub AllZero : List ℕ → Type 0
AllZero = All (λ w. w ≡ 0)

abbrev pub CrtZero : CrtValue → Type 0
CrtZero v = AllZero v.exp × AllZero v.coeff × AllZero v.r

abbrev pub RsaZero : RsaPrivateKey → Type 0
RsaZero k =
    AllZero k.d
    × All AllZero k.primes
    × AllZero k.qinv
    × AllZero k.dp
    × AllZero k.dq
    × All CrtZero k.crt_values

-- The secret words of a known kind are zero: all of them, or the seed in front of the public half.
abbrev pub MaterialZero : ℕ → ℕ → Material → Type 0
MaterialZero s t (rsa k) = RsaZero k
MaterialZero s t (dsa x) = AllZero x
MaterialZero s t (elgamal x) = AllZero x
MaterialZero s t (ecdsa d) = AllZero d
MaterialZero s t (eddsa d) = AllZero d
MaterialZero s t (ecdh d) = AllZero d
MaterialZero s t (x25519 d) = AllZero d
MaterialZero s t (ed25519 k) = AllZero (take s k)
MaterialZero s t (x448 d) = AllZero d
MaterialZero s t (ed448 k) = AllZero (take t k)
MaterialZero s t (unknown n) = Unit

clear_mem-zero : (ws : Bytes) → AllZero (clear_mem ws)
unfolding clear_mem
clear_mem-zero [] = tt
clear_mem-zero (w ∷ ws) = (refl, clear_mem-zero ws)

clear_big_int-zero : (ws : BigInt) → AllZero (clear_big_int ws)
unfolding clear_big_int
clear_big_int-zero [] = tt
clear_big_int-zero (w ∷ ws) = (refl, clear_big_int-zero ws)

clear_big_ints-zero : (ns : List BigInt) → All AllZero (clear_big_ints ns)
unfolding clear_big_ints
clear_big_ints-zero [] = tt
clear_big_ints-zero (n ∷ ns) = (clear_big_int-zero n, clear_big_ints-zero ns)

clear_crt_values-zero : (vs : List CrtValue) → All CrtZero (clear_crt_values vs)
unfolding clear_crt_values
clear_crt_values-zero [] = tt
clear_crt_values-zero (v ∷ vs) = (
  (clear_big_int-zero v.exp, clear_big_int-zero v.coeff, clear_big_int-zero v.r),
  clear_crt_values-zero vs,
)

clear_rsa-zero : (k : RsaPrivateKey) → RsaZero (clear_rsa_private_key k)
unfolding clear_rsa_private_key
clear_rsa-zero k = (
  clear_big_int-zero k.d,
  clear_big_ints-zero k.primes,
  clear_big_int-zero k.qinv,
  clear_big_int-zero k.dp,
  clear_big_int-zero k.dq,
  clear_crt_values-zero k.crt_values,
)

-- Clearing the first n bytes in place zeroes them.
take-clear_mem : (n : ℕ) (ws : Bytes) → AllZero (take n (clear_mem (take n ws) ++ drop n ws))
unfolding clear_mem
take-clear_mem zero ws = tt
take-clear_mem (suc n) [] = tt
take-clear_mem (suc n) (w ∷ ws) = (refl, take-clear_mem n ws)

-- A seed has the bytes that its algorithm asks for.
abbrev pub IsSized : ℕ → ℕ → Material → Type 0
IsSized s t (ed25519 k) = s ≤ length k
IsSized s t (ed448 k) = t ≤ length k
IsSized s t _ = Unit

abbrev pub IsSizedOptional : ℕ → ℕ → Option PrivateKey → Type 0
IsSizedOptional s t none = Unit
IsSizedOptional s t (some p) = IsSized s t p.material

abbrev pub IsSizedEntity : ℕ → ℕ → Entity → Type 0
IsSizedEntity s t e =
    IsSizedOptional s t e.private_key
    × All (λ (b : Subkey). IsSizedOptional s t b.private_key) e.subkeys

abbrev pub ZeroOptional : ℕ → ℕ → Option PrivateKey → Type 0
ZeroOptional s t none = Unit
ZeroOptional s t (some p) = MaterialZero s t p.material

clear_prefix_lem :
    (n : ℕ) (k : Bytes) → n ≤ length k → clear_prefix n k ≡ ok (clear_mem (take n k) ++ drop n k)
unfolding clear_prefix
clear_prefix_lem n k h = ground arith

module _ (s t : ℕ) where
  -- The key after its material has been cleared and counted.
  abbrev ZeroKey : PrivateKey × ℕ → Type 0
  ZeroKey r = MaterialZero s t r.0.material

  abbrev ZeroPart : Option PrivateKey × ℕ → Type 0
  ZeroPart r = ZeroOptional s t r.0

  clear_counted-zero :
      (p : PrivateKey) (num : ℕ) (m : Material)
      → p.material ≡ m
      → IsSized s t m
      → Returns ZeroKey (clear_counted s t p (clear_private_key s t m) num)
  unfolding clear_counted clear_private_key
  clear_counted-zero p num (rsa k) e h = clear_rsa-zero k
  clear_counted-zero p num (dsa x) e h = clear_big_int-zero x
  clear_counted-zero p num (elgamal x) e h = clear_big_int-zero x
  clear_counted-zero p num (ecdsa x) e h = clear_big_int-zero x
  clear_counted-zero p num (eddsa x) e h = clear_mem-zero x
  clear_counted-zero p num (ecdh x) e h = clear_mem-zero x
  clear_counted-zero p num (x25519 x) e h = clear_mem-zero x
  clear_counted-zero p num (x448 x) e h = clear_mem-zero x
  clear_counted-zero p num (unknown n) e h = rw e tt
  clear_counted-zero p num (ed25519 k) e h = rw (clear_prefix_lem s k h) (take-clear_mem s k)
  clear_counted-zero p num (ed448 k) e h = rw (clear_prefix_lem t k h) (take-clear_mem t k)

  clear_optional-zero :
      (o : Option PrivateKey) (num : ℕ)
      → IsSizedOptional s t o
      → Returns ZeroPart (clear_optional s t o num)
  unfolding clear_optional
  clear_optional-zero none num h = tt
  clear_optional-zero (some p) num h =
      Returns-bind ZeroKey ZeroPart _ _ (clear_counted-zero p num p.material refl h) (λ a z. z)

  -- The subkeys with their secret parts zeroed, and all else as it was.
  abbrev ZeroSubkeys : List Subkey → List Subkey × ℕ → Type 0
  ZeroSubkeys subs r =
      All (λ (b : Subkey). ZeroOptional s t b.private_key) r.0
      × (map (λ (b : Subkey). b.public_key) r.0 ≡ map (λ (b : Subkey). b.public_key) subs)

  clear_subkeys-zero :
      (subs : List Subkey) (num : ℕ)
      → All (λ (b : Subkey). IsSizedOptional s t b.private_key) subs
      → Returns (ZeroSubkeys subs) (clear_subkeys s t subs num)
  unfolding clear_subkeys
  clear_subkeys-zero [] num h = (tt, refl)
  clear_subkeys-zero (b ∷ subs) num (hb, hs) =
      Returns-bind ZeroPart (ZeroSubkeys (b ∷ subs)) _ _ (clear_optional-zero b.private_key num hb)
        λ a za.
          Returns-bind (ZeroSubkeys subs) (ZeroSubkeys (b ∷ subs)) _ _
            (clear_subkeys-zero subs a.1 hs) λ r z. ((za, z.0), ap (λ l. b.public_key ∷ l) z.1)

abbrev pub strip : PublicKey → Subkey
strip k = record { public_key = k; private_key = none }

-- The entity without its secret parts.
abbrev pub public_part : Entity → Entity
public_part e = record e {
  private_key = none;
  subkeys = map strip (map (λ (b : Subkey). b.public_key) e.subkeys);
}

drop_private_lem :
    (subs : List Subkey) → drop_private subs ≡ map strip (map (λ (b : Subkey). b.public_key) subs)
unfolding drop_private
drop_private_lem [] = refl
drop_private_lem (b ∷ subs) =
    ap (λ (l : List Subkey). strip b.public_key ∷ l) (drop_private_lem subs)

module _ (s t : ℕ) (e : Entity) where
  -- The entity in memory with its secret parts zeroed, and all else as it was.
  abbrev ZeroEntity : Entity × ℕ → Type 0
  ZeroEntity r =
      ZeroOptional s t r.0.private_key
      × ZeroSubkeys s t e.subkeys (r.0.subkeys, 0)
      × (r.0.primary_key ≡ e.primary_key)
      × (r.0.identities ≡ e.identities)

  clear_private_with_subkeys-zero :
      IsSizedEntity s t e → Returns ZeroEntity (clear_private_with_subkeys s t e)
  unfolding clear_private_with_subkeys
  clear_private_with_subkeys-zero (hp, hs) =
      Returns-bind (ZeroPart s t) ZeroEntity _ _ (clear_optional-zero s t e.private_key 0 hp)
        λ a za.
          Returns-bind (ZeroSubkeys s t e.subkeys) ZeroEntity _ _
            (clear_subkeys-zero s t e.subkeys a.1 hs) λ r zr. (za, zr, refl, refl)

-- Where the seeds have the lengths of their algorithms, ClearPrivateParams returns; the key has then
-- only the public part of the old one, and in memory every secret word of a known kind is zero.
pub clear_private_params_lem :
    (s t : ℕ) (key : Key)
    → IsSizedEntity s t key.entity
    → Returns
        (λ (r : Key × Entity × Bool).
          (r.0.entity ≡ public_part key.entity)
          × ZeroOptional s t r.1.private_key
          × All (λ (b : Subkey). ZeroOptional s t b.private_key) r.1.subkeys)
        (clear_private_params s t key)
unfolding clear_private_params
clear_private_params_lem s t key h =
    Returns-bind (ZeroEntity s t key.entity) _ _ _
      (clear_private_with_subkeys-zero s t key.entity h)
      λ a z. (ground (arith, drop_private_lem a.0.subkeys), z.0, z.1.0)
