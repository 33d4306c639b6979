-- ===== src/Crypto/SessionKey/Algorithms.antt =====
-- The tables of algorithms agree, whatever the order of the loops over them (crypto/sessionkey.go).
use mathlib.Core.List.{Permᴰ}
use mathlib.Core.List.Permᴰ
use mathlib.Core.List.Permᴰ.{nil, cons, swap, trans, symm}
use gopenpgp.Base.{
  ℕ, false, none, some, List, [], ◌∷◌, Bytes, String, Result, ok, length, ◌==◌, ◌<◌, ◌≡◌, ◌≢◌, refl,
  sym, ◌∙◌, ap, subst, ◌⊎◌, inl, inr, arith, All, Ensures, Bool-cases, ==_iff,
}
use gopenpgp.Crypto.SessionKey.{
  SessionKey, EncryptedKey, cipher_3des, cipher_cast5, cipher_aes128, cipher_aes192, cipher_aes256,
  sym_key_algos, lookup, lookup_cipher, or_error, get_cipher_func, get_algo, key_bytes, check_size,
  checked, new_session_key_from_encrypted, random_token, generate_session_key_algo,
  generate_session_key,
}

-- An entry that the table finds under its name.
abbrev pub IsEntry : String × ℕ → Type 0
IsEntry (k, v) = lookup sym_key_algos k ≡ some v

module _ {A : Type 0} (P : A → Type 0) where
  All-Perm : {xs ys : List A} → Permᴰ xs ys → All P xs → All P ys
  All-Perm nil h = h
  All-Perm (cons e d) (px, h) = (subst P e px, All-Perm d h)
  All-Perm (swap e d) (px, (py, h)) = (subst P d py, (subst P e px, h))
  All-Perm (trans d e) h = All-Perm e (All-Perm d h)

pub entries_are : (es : List (String × ℕ)) → Permᴰ sym_key_algos es → All IsEntry es
unfolding lookup
entries_are es d = All-Perm IsEntry d (refl, (refl, (refl, (refl, (refl, (refl, tt))))))

-- What the loop of getAlgo finds.
pub get_algo_lem :
    (es : List (String × ℕ)) (cipher : ℕ)
    → All IsEntry es
    → ((get_algo es cipher ≡ "") × All (λ (e : String × ℕ). (e.1 == cipher) ≡ false) es)
      ⊎ (lookup sym_key_algos (get_algo es cipher) ≡ some cipher)
unfolding get_algo
get_algo_lem [] cipher h = inl (refl, tt)
get_algo_lem ((k, v) ∷ es) cipher (p, h) = elim (Bool-cases (v == cipher)) [
  | inl e ↦ rw e (inr (p ∙ ap some ((==_iff v cipher).0 e)))
  | inr e ↦ rw e (elim (get_algo_lem es cipher h) [
    | inl (nothing, none_is) ↦ inl (nothing, (refl, none_is))
    | inr found ↦ inr found
  ])
]

none_found :
    (es : List (String × ℕ)) (cipher : ℕ)
    → All (λ (e : String × ℕ). (e.1 == cipher) ≡ false) es
    → get_algo es cipher ≡ ""
unfolding get_algo
none_found [] cipher h = refl
none_found (e ∷ es) cipher (n, h) = rw n (none_found es cipher h)

-- Whatever the order in which the run goes through the entries of `symKeyAlgos`, the name that getAlgo
-- finds for a cipher stands for the same cipher, or for none in both orders.
pub get_algo-lookup :
    (es : List (String × ℕ)) (cipher : ℕ)
    → Permᴰ sym_key_algos es
    → lookup sym_key_algos (get_algo es cipher)
      ≡ lookup sym_key_algos (get_algo sym_key_algos cipher)
get_algo-lookup es cipher d = elim (get_algo_lem es cipher (entries_are es d)) [
  | inl (nothing, none_is) ↦
      ap (lookup sym_key_algos)
        (nothing ∙ sym (none_found sym_key_algos cipher (All-Perm IsOther (symm d) none_is)))
  | inr found ↦
      elim (get_algo_lem sym_key_algos cipher
        (entries_are sym_key_algos (Permᴰ.refl sym_key_algos))) [
          | inl (nothing, none_is) ↦
              ap (lookup sym_key_algos)
                (none_found es cipher (All-Perm IsOther d none_is) ∙ sym nothing)
          | inr found' ↦ found ∙ sym found'
        ]
]
  where
    IsOther : String × ℕ → Type 0
    IsOther (k, v) = (v == cipher) ≡ false

lookup-not-some :
    (es : List (String × ℕ)) (algo : String) (cipher : ℕ)
    → All (λ (e : String × ℕ). (e.1 == cipher) ≡ false) es
    → lookup es algo ≢ some cipher
unfolding lookup
lookup-not-some [] algo cipher h = λ e. cc
lookup-not-some (e ∷ es) algo cipher (n, h) = ground (arith, lookup-not-some es algo cipher h)

-- A cipher that some name stands for is found again.
pub lookup-get_algo :
    (es : List (String × ℕ)) (algo : String) (cipher : ℕ)
    → Permᴰ sym_key_algos es
    → lookup sym_key_algos algo ≡ some cipher
    → lookup sym_key_algos (get_algo es cipher) ≡ some cipher
lookup-get_algo es algo cipher d h = elim (get_algo_lem es cipher (entries_are es d)) [
  | inl (nothing, none_is) ↦ absurd (
      lookup-not-some sym_key_algos algo cipher
        (All-Perm (λ (e : String × ℕ). (e.1 == cipher) ≡ false) (symm d) none_is) h)
  | inr found ↦ found
]

-- No cipher of the table is 0.
pub lookup-positive :
    (algo : String) (cipher : ℕ) → lookup sym_key_algos algo ≡ some cipher → (cipher == 0) ≡ false
unfolding lookup
lookup-positive algo cipher h = ground arith

-- A session key read from a packet of a version below 6 has the cipher of the packet and the packet's
-- key, which is as long as the cipher wants, whatever the order of the loop over `symKeyAlgos`.
pub new_session_key_from_encrypted_lem :
    (key_size : ℕ → ℕ) (es : List (String × ℕ)) (ek : EncryptedKey)
    → Permᴰ sym_key_algos es
    → ek.version < 6
    → Ensures
        (λ sk.
          (get_cipher_func sk ≡ ok ek.cipher_func)
          × (sk.key ≡ key_bytes ek.key)
          × (length sk.key ≡ key_size ek.cipher_func))
        (new_session_key_from_encrypted key_size es ek)
unfolding new_session_key_from_encrypted checked get_cipher_func check_size or_error
new_session_key_from_encrypted_lem key_size es ek d old =
    elim (get_algo_lem es ek.cipher_func (entries_are es d)) [
      | inl (nothing, none_is) ↦ rw nothing (ground arith)
      | inr found ↦ ground (arith, found)
    ]

-- A key generated for a default cipher has that cipher and passes checkSize, if the source of randomness
-- gives as many bytes as it is asked for.
pub generate_session_key_lem :
    (key_size : ℕ → ℕ) (read_random : ℕ → Result Bytes) (cipher : ℕ)
    → ((n : ℕ) → Ensures (λ r. length r ≡ n) (read_random n))
    → Ensures
        (λ sk. (get_cipher_func sk ≡ ok cipher) × (check_size key_size sk ≡ none))
        (generate_session_key key_size read_random cipher)
unfolding generate_session_key lookup_cipher generate_session_key_algo random_token or_error
    get_cipher_func check_size lookup
generate_session_key_lem key_size read_random cipher fills = ground (
  arith,
  fills (key_size cipher_3des),
  fills (key_size cipher_cast5),
  fills (key_size cipher_aes128),
  fills (key_size cipher_aes192),
  fills (key_size cipher_aes256),
)

-- The bytes are the packet's.
pub new_session_key_from_encrypted-key :
    (key_size : ℕ → ℕ) (es : List (String × ℕ)) (ek : EncryptedKey) (sk : SessionKey)
    → new_session_key_from_encrypted key_size es ek ≡ ok sk
    → sk.key ≡ key_bytes ek.key
unfolding new_session_key_from_encrypted checked
new_session_key_from_encrypted-key key_size es ek sk h = ground arith
