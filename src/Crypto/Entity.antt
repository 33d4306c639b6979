-- ===== src/Crypto/Entity.antt =====
-- The parts of a go-crypto `openpgp.Entity` that the repository's code reads and writes
-- (crypto/key.go, crypto/key_clear.go, crypto/keyring.go).
use gopenpgp.Base.{ℕ, String, Bool, Option, List, Bytes}

-- The words of a `big.Int`.
abbrev pub BigInt : Type 0
BigInt = List ℕ

pub record CrtValue : Type 0 where
  pub exp : BigInt
  pub coeff : BigInt
  pub r : BigInt

pub record RsaPrivateKey : Type 0 where
  pub d : BigInt
  pub primes : List BigInt
  pub qinv : BigInt
  pub dp : BigInt
  pub dq : BigInt
  pub crt_values : List CrtValue

-- The secret parameters behind `packet.PrivateKey.PrivateKey`, by the type of the interface value.
pub data Material : Type 0 where
  rsa : RsaPrivateKey → Material
  dsa : BigInt → Material
  elgamal : BigInt → Material
  ecdsa : BigInt → Material
  eddsa : Bytes → Material
  ecdh : Bytes → Material
  x25519 : Bytes → Material
  ed25519 : Bytes → Material
  x448 : Bytes → Material
  ed448 : Bytes → Material
  unknown : ℕ → Material

pub record PrivateKey : Type 0 where
  pub encrypted : Bool
  pub dummy : Bool
  pub material : Material

pub record PublicKey : Type 0 where
  pub key_id : ℕ
  pub fingerprint : Bytes
  pub version : ℕ

pub record Subkey : Type 0 where
  pub public_key : PublicKey
  pub private_key : Option PrivateKey

pub record Identity : Type 0 where
  pub name : String
  pub email : String

pub record Entity : Type 0 where
  pub primary_key : PublicKey
  pub private_key : Option PrivateKey
  pub subkeys : List Subkey
  pub identities : List Identity
