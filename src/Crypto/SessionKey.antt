-- ===== src/Crypto/SessionKey.antt =====
-- crypto/sessionkey.go: session keys and the tables of symmetric algorithms. The key sizes of
-- go-crypto's ciphers and its source of randomness are parameters; a Go map is the list of its entries,
-- and a loop over one gets them in an order that the caller does not choose.
pub mod Algorithms
use text.Mathlib.Text.{◌==◌ as str_eq}
use gopenpgp.Base.{
  ℕ, Bool, true, false, not, ◌&&◌, Option, none, some, List, [], ◌∷◌, Bytes, String, Error, eof,
  Result, ok, err, panic, ◌>>=◌, ◌>>◌, fail_if, wrap_err, deref, length, ltb, ◌==◌, is_none,
  is_some, if◌then◌else◌,
}

pub record SessionKey : Type 0 where
  pub key : Bytes
  pub algo : String
  pub v6 : Bool

-- `packet.CipherFunction`, by its number (constants/cipher.go).
abbrev pub cipher_3des : ℕ
cipher_3des = 2

abbrev pub cipher_cast5 : ℕ
cipher_cast5 = 3

abbrev pub cipher_aes128 : ℕ
cipher_aes128 = 7

abbrev pub cipher_aes192 : ℕ
cipher_aes192 = 8

abbrev pub cipher_aes256 : ℕ
cipher_aes256 = 9

-- The entries of `symKeyAlgos`.
abbrev pub sym_key_algos : List (String × ℕ)
sym_key_algos =
    ("3des", cipher_3des)
    ∷ ("tripledes", cipher_3des)
    ∷ ("cast5", cipher_cast5)
    ∷ ("aes128", cipher_aes128)
    ∷ ("aes192", cipher_aes192)
    ∷ ("aes256", cipher_aes256)
    ∷ []

-- The entries of `algosToSymKey`.
abbrev pub algos_to_sym_key : List (ℕ × String)
algos_to_sym_key =
    (cipher_3des, "tripledes")
    ∷ (cipher_cast5, "cast5")
    ∷ (cipher_aes128, "aes128")
    ∷ (cipher_aes192, "aes192")
    ∷ (cipher_aes256, "aes256")
    ∷ []

-- `cf, ok := symKeyAlgos[algo]`
unfoldable pub lookup : List (String × ℕ) → String → Option ℕ
lookup [] algo = none
lookup ((k, v) ∷ es) algo = if str_eq k algo then some v else lookup es algo

-- `algo, ok := algosToSymKey[cipher]`
pub lookup_cipher : List (ℕ × String) → ℕ → Option String
lookup_cipher [] cipher = none
lookup_cipher ((k, v) ∷ es) cipher = if k == cipher then some v else lookup_cipher es cipher

unfoldable pub or_error {ℓ} : {A : Type ℓ} → Option A → Error → Result A
or_error none e = err e
or_error (some a) e = ok a

-- (*SessionKey).GetCipherFunc; the name of the algorithm is part of the error's text.
unfoldable pub get_cipher_func : SessionKey → Result ℕ
unfolding or_error
get_cipher_func sk =
    if sk.v6
    then err (Error.new "gopenpgp: no cipher function available for a v6 session key")
    else or_error (lookup sym_key_algos sk.algo)
        (Error.wrapped sk.algo (Error.new "gopenpgp: unsupported cipher function: "))

-- `getAlgo`, the loop over the entries of `symKeyAlgos` in the order that the run gets them.
unfoldable pub get_algo : List (String × ℕ) → ℕ → String
get_algo [] cipher = ""
get_algo ((k, v) ∷ es) cipher = if v == cipher then k else get_algo es cipher

-- NewSessionKeyFromToken
unfoldable pub new_session_key_from_token : Bytes → String → SessionKey
new_session_key_from_token token algo = record { key = token; algo = algo; v6 = false }

-- The fields of `packet.EncryptedKey`; a nil key is `none`.
pub record EncryptedKey : Type 0 where
  pub key_id : ℕ
  pub cipher_func : ℕ
  pub version : ℕ
  pub key : Option Bytes

unfoldable pub key_bytes : Option Bytes → Bytes
key_bytes none = []
key_bytes (some k) = k

module _ (key_size : ℕ → ℕ) where
  -- (*SessionKey).checkSize
  unfoldable pub check_size : SessionKey → Option Error
  check_size sk =
      if sk.v6 then some (Error.new "unknown key size") else elim (lookup sym_key_algos sk.algo) [
        | none ↦ some (Error.new "unknown symmetric key algorithm")
        | some cf ↦
            if key_size cf == length sk.key then none else some (Error.new "wrong session key size")
      ]

  -- `if err := sk.checkSize(); err != nil { return nil, errors.Wrap(err, message) }`
  unfoldable pub checked : String → SessionKey → Result SessionKey
  unfolding check_size
  checked message sk = elim (check_size sk) [
    | none ↦ ok sk
    | some e ↦ err (Error.wrapped message e)
  ]

  -- newSessionKeyFromEncrypted; the number of an unsupported cipher is left out of the error. `es` are the entries of `symKeyAlgos` in the order of the loop.
  unfoldable pub new_session_key_from_encrypted :
      List (String × ℕ) → EncryptedKey → Result SessionKey
  unfolding get_algo checked key_bytes
  new_session_key_from_encrypted es ek =
      let algo = get_algo es ek.cipher_func in
      let sk : SessionKey = record { key = key_bytes ek.key; algo = algo; v6 = ek.version == 6 } in
      if str_eq algo "" && ltb ek.version 6
      then err (Error.new "gopenpgp: unsupported cipher function")
      else if ltb ek.version 6
      then checked "gopenpgp: unable to decrypt session key" sk
      else ok sk

  module _ (read_random : ℕ → Result Bytes) where
    -- RandomToken; `read_random` is `io.ReadFull` of go-crypto's random reader.
    pub random_token : ℕ → Result Bytes
    random_token size = wrap_err "gopenpgp: error in generating random token" (read_random size)

    -- GenerateSessionKeyAlgo
    pub generate_session_key_algo : String → Result SessionKey
    unfolding random_token or_error
    generate_session_key_algo algo = do
      cf ←
          or_error (lookup sym_key_algos algo)
            (Error.new "gopenpgp: unknown symmetric key generation algorithm")
      r ← random_token (key_size cf)
      ok (record { key = r; algo = algo; v6 = false })

    -- generateSessionKey
    pub generate_session_key : ℕ → Result SessionKey
    unfolding lookup_cipher generate_session_key_algo or_error
    generate_session_key default_cipher = do
      algo ←
          or_error (lookup_cipher algos_to_sym_key default_cipher)
            (Error.new "gopenpgp: unsupported cipher function")
      generate_session_key_algo algo

-- The readers behind `checkReader`: one call of `body.Read`, and the error of `decrypted.Close`.
pub check_reader_read :
    {S : Type 0}
    → (S → ℕ → ℕ × Option Error × S)
    → (S → Option Error)
    → S
    → ℕ
    → ℕ × Option Error × S
check_reader_read body_read close s k =
    let (n, failed, s') = body_read s k in
    elim failed [
      | none ↦ (n, none, s')
      | some eof ↦ elim (close s') [ none ↦ (n, some eof, s') | some e ↦ (n, some e, s') ]
      | some _ ↦ (n, some (Error.new "parsing error"), s')
    ]
