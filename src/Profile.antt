-- ===== src/Profile.antt =====
-- The package `profile`: profile/profile.go, which turns a profile into configurations of go-crypto, and
-- the profiles of profile/preset.go.
use gopenpgp.Base.{ℕ, Bool, true, false, Option, none, some, [], ◌==◌, if◌then◌else◌}
use gopenpgp.Crypto.Config.{Config, zero_config}

pub record Custom : Type 0 where
  pub set_key_algorithm : Config → ℕ → Config
  pub aead_key_encryption : Option ℕ
  pub s2k_key_encryption : Option ℕ
  pub aead_encryption : Option ℕ
  pub s2k_encryption : Option ℕ
  pub compression_configuration : Option ℕ
  pub hash : ℕ
  pub sign_hash : Option ℕ
  pub cipher_key_encryption : ℕ
  pub cipher_encryption : ℕ
  pub compression_algorithm : ℕ
  pub v6 : Bool
  pub allow_all_public_key_algorithms : Bool
  pub disable_intended_recipients : Bool
  pub insecure_allow_weak_rsa : Bool
  pub insecure_allow_decryption_with_signing_keys : Bool

abbrev pub weak_min_rsa_bits : ℕ
weak_min_rsa_bits = 1023

-- (*Custom).KeyGenerationConfig
pub key_generation_config : Custom → ℕ → Config
key_generation_config p security_level =
    p.set_key_algorithm
      (record zero_config {
        default_hash = p.hash;
        default_cipher = p.cipher_encryption;
        aead_config = p.aead_encryption;
        default_compression_algo = p.compression_algorithm;
        compression_config = p.compression_configuration;
        v6_keys = p.v6;
      })
      security_level

-- The three ifs of EncryptionConfig and SignConfig.
pub set_flags : Custom → Config → Config
set_flags p config = record config {
  check_intended_recipients =
      if p.disable_intended_recipients then some false else config.check_intended_recipients;
  reject_public_key_algorithms =
      if p.allow_all_public_key_algorithms then some [] else config.reject_public_key_algorithms;
  min_rsa_bits = if p.insecure_allow_weak_rsa then weak_min_rsa_bits else config.min_rsa_bits;
}

-- (*Custom).EncryptionConfig
pub encryption_config : Custom → Config
unfolding set_flags
encryption_config p = set_flags p (record zero_config {
  default_hash = p.hash;
  default_cipher = p.cipher_encryption;
  aead_config = p.aead_encryption;
  s2k_config = p.s2k_encryption;
  insecure_allow_decryption_with_signing_keys = p.insecure_allow_decryption_with_signing_keys;
})

-- (*Custom).KeyEncryptionConfig
pub key_encryption_config : Custom → Config
key_encryption_config p = record zero_config {
  default_hash = p.hash;
  default_cipher = p.cipher_key_encryption;
  aead_config = p.aead_key_encryption;
  s2k_config = p.s2k_key_encryption;
}

-- (*Custom).SignConfig
pub sign_config : Custom → Config
unfolding set_flags
sign_config p =
    set_flags p
      (record zero_config { default_hash = elim p.sign_hash [ none ↦ p.hash | some h ↦ h ] })

-- (*Custom).CompressionConfig
pub compression_config : Custom → Config
compression_config p = record zero_config {
  compression_config = p.compression_configuration;
  default_compression_algo = p.compression_algorithm;
}

-- The numbers of go-crypto: hashes of Go's package crypto, public-key algorithms, the ciphers and the
-- compressions; the security levels of constants/security.go.
abbrev pub sha256 : ℕ
sha256 = 5

abbrev pub sha512 : ℕ
sha512 = 7

abbrev pub algo_rsa : ℕ
algo_rsa = 1

abbrev pub algo_eddsa : ℕ
algo_eddsa = 22

abbrev pub algo_ed25519 : ℕ
algo_ed25519 = 27

abbrev pub algo_ed448 : ℕ
algo_ed448 = 28

abbrev pub cipher_aes256 : ℕ
cipher_aes256 = 9

abbrev pub compression_zlib : ℕ
compression_zlib = 2

abbrev pub argon2_s2k : ℕ
argon2_s2k = 4

abbrev pub high_security : ℕ
high_security = 1

-- What the three profiles share.
abbrev base : (Config → ℕ → Config) → Custom
base set = record {
  set_key_algorithm = set;
  aead_key_encryption = none;
  s2k_key_encryption = none;
  aead_encryption = none;
  s2k_encryption = none;
  compression_configuration = none;
  hash = sha256;
  sign_hash = none;
  cipher_key_encryption = 0;
  cipher_encryption = cipher_aes256;
  compression_algorithm = compression_zlib;
  v6 = false;
  allow_all_public_key_algorithms = false;
  disable_intended_recipients = false;
  insecure_allow_weak_rsa = false;
  insecure_allow_decryption_with_signing_keys = false;
}

-- Default; both levels of security choose the same curve.
pub default : Custom
default = record (base (λ cfg level. record cfg { algorithm = algo_eddsa; curve = "Curve25519" })) {
  compression_configuration = some 6;
}

-- RFC4880
pub rfc4880 : Custom
rfc4880 = base (λ cfg level. record cfg {
  algorithm = algo_rsa;
  rsa_bits = if level == high_security then 4096 else 3072;
})

-- RFC9580
pub rfc9580 : Custom
rfc9580 =
    record (base (λ cfg level. record cfg {
      algorithm = if level == high_security then algo_ed448 else algo_ed25519;
    })) {
      hash = sha512;
      aead_key_encryption = some 0;
      aead_encryption = some 0;
      s2k_key_encryption = some argon2_s2k;
      s2k_encryption = some argon2_s2k;
      v6 = true;
    }
