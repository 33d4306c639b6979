-- ===== src/Crypto/KeyClear.antt =====
-- crypto/key_clear.go: zeroing of secret parameters. The lengths of an Ed25519 and an Ed448 seed are
-- constants of go-crypto, so they are parameters.
pub mod Zeroed
mod Tests
use gopenpgp.Base.{
  ℕ, zero, suc, ◌+◌, Bool, true, false, Option, none, some, List, [], ◌∷◌, ◌++◌, map, Bytes, Error,
  Result, ok, err, panic, ◌>>=◌, ltb, length, take, drop, if◌then◌else◌,
}
use gopenpgp.Crypto.Entity.{
  BigInt, CrtValue, RsaPrivateKey, Material, rsa, dsa, elgamal, ecdsa, eddsa, ecdh, x25519, ed25519,
  x448, ed448, unknown, PrivateKey, Subkey, Entity,
}
use gopenpgp.Crypto.Key.{Key}

-- The loop over the bytes of a slice.
pub clear_mem : Bytes → Bytes
clear_mem [] = []
clear_mem (w ∷ ws) = 0 ∷ clear_mem ws

-- The loop over the words of a big integer.
pub clear_big_int : BigInt → BigInt
clear_big_int [] = []
clear_big_int (w ∷ ws) = 0 ∷ clear_big_int ws

pub clear_big_ints : List BigInt → List BigInt
clear_big_ints [] = []
clear_big_ints (n ∷ ns) = clear_big_int n ∷ clear_big_ints ns

pub clear_crt_values : List CrtValue → List CrtValue
clear_crt_values [] = []
clear_crt_values (v ∷ vs) =
    record { exp = clear_big_int v.exp; coeff = clear_big_int v.coeff; r = clear_big_int v.r }
    ∷ clear_crt_values vs

pub clear_rsa_private_key : RsaPrivateKey → RsaPrivateKey
unfolding clear_big_ints clear_crt_values
clear_rsa_private_key k = record {
  d = clear_big_int k.d;
  primes = clear_big_ints k.primes;
  qinv = clear_big_int k.qinv;
  dp = clear_big_int k.dp;
  dq = clear_big_int k.dq;
  crt_values = clear_crt_values k.crt_values;
}

-- `key.entity.Subkeys[k].PrivateKey = nil` for every k.
pub drop_private : List Subkey → List Subkey
drop_private [] = []
drop_private (sub ∷ subs) = record sub { private_key = none } ∷ drop_private subs

-- `clearMem(priv.Key[:size])`, which panics on a slice that is too short.
pub clear_prefix : ℕ → Bytes → Result Bytes
clear_prefix size key =
    if ltb (length key) size then panic else ok (clear_mem (take size key) ++ drop size key)

module _ (ed25519_seed_size ed448_seed_size : ℕ) where
  pub clear_private_key : Material → Result Material
  unfolding clear_prefix clear_rsa_private_key
  clear_private_key (rsa k) = ok (rsa (clear_rsa_private_key k))
  clear_private_key (dsa x) = ok (dsa (clear_big_int x))
  clear_private_key (elgamal x) = ok (elgamal (clear_big_int x))
  clear_private_key (ecdsa d) = ok (ecdsa (clear_big_int d))
  clear_private_key (eddsa d) = ok (eddsa (clear_mem d))
  clear_private_key (ecdh d) = ok (ecdh (clear_mem d))
  clear_private_key (x25519 s) = ok (x25519 (clear_mem s))
  clear_private_key (ed25519 k) = do c ← clear_prefix ed25519_seed_size k; ok (ed25519 c)
  clear_private_key (x448 s) = ok (x448 (clear_mem s))
  clear_private_key (ed448 k) = do c ← clear_prefix ed448_seed_size k; ok (ed448 c)
  clear_private_key (unknown n) = err (Error.new "gopenpgp: unknown private key")

  -- `err := clearPrivateKey(p.PrivateKey); if err == nil { num++ }`: the key in memory and the count.
  pub clear_counted : PrivateKey → Result Material → ℕ → Result (PrivateKey × ℕ)
  clear_counted p (ok m) num = ok (record p { material = m }, num + 1)
  clear_counted p (err e) num = ok (p, num)
  clear_counted p panic num = panic

  pub clear_optional : Option PrivateKey → ℕ → Result (Option PrivateKey × ℕ)
  unfolding clear_private_key clear_counted
  clear_optional none num = ok (none, num)
  clear_optional (some p) num = do
    (q, n) ← clear_counted p (clear_private_key p.material) num
    ok (some q, n)

  -- The loop over the subkeys.
  pub clear_subkeys : List Subkey → ℕ → Result (List Subkey × ℕ)
  unfolding clear_optional
  clear_subkeys [] num = ok ([], num)
  clear_subkeys (sub ∷ subs) num = do
    (p, n) ← clear_optional sub.private_key num
    (rest, n') ← clear_subkeys subs n
    ok (record sub { private_key = p } ∷ rest, n')

  pub clear_private_with_subkeys : Entity → Result (Entity × ℕ)
  unfolding clear_subkeys
  clear_private_with_subkeys e = do
    (p, n) ← clear_optional e.private_key 0
    (subs, n') ← clear_subkeys e.subkeys n
    ok (record e { private_key = p; subkeys = subs }, n')

  -- The key afterwards, the secret parameters as they are left in memory, and the result.
  pub clear_private_params : Key → Result (Key × Entity × Bool)
  unfolding clear_private_with_subkeys drop_private
  clear_private_params key = do
    (cleared, num) ← clear_private_with_subkeys key.entity
    ok (
      record {
        entity = record cleared { private_key = none; subkeys = drop_private cleared.subkeys };
      },
      cleared,
      ltb 0 num,
    )
