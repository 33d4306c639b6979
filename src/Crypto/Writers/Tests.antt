-- ===== src/Crypto/Writers/Tests.antt =====
-- A writer to two logs (encryptSignDetachedWriter of crypto/encryption_core.go).
use gopenpgp.Base.{none, [], ◌∷◌, ◌++◌, Bytes, length, take, arith, ◌≡◌, refl}
use gopenpgp.Internal.Reader.{WriteCloser}
use gopenpgp.Crypto.Writers.{encrypt_sign_detached_writer, write_each}
use gopenpgp.Crypto.Writers.Detached.{Takes, concat, write_each-detached}

abbrev Logs : Type 0
Logs = Bytes × Bytes

abbrev to_ciphertext : WriteCloser Logs
to_ciphertext = record { write = λ t p. (length p, none, (t.0 ++ p, t.1)); close = λ t. (none, t) }

abbrev to_signature : WriteCloser Logs
to_signature = record { write = λ t p. (length p, none, (t.0, t.1 ++ p)); close = λ t. (none, t) }

take-all : (p : Bytes) → p ≡ take (length p) p
take-all [] = refl
take-all (x ∷ p) = ground (arith, take-all p)

to_ciphertext-Takes : Takes to_ciphertext (λ t. t.0) (λ t. t.1)
to_ciphertext-Takes = record { appends = λ t p. ground (arith, take-all p); separate = λ t p. refl }

to_signature-Takes : Takes to_signature (λ t. t.1) (λ t. t.0)
to_signature-Takes = record { appends = λ t p. ground (arith, take-all p); separate = λ t p. refl }

abbrev both : WriteCloser Logs
both = encrypt_sign_detached_writer to_ciphertext to_signature to_signature

detached_example :
    ((write_each both ([], []) ((1 ∷ 2 ∷ []) ∷ (3 ∷ []) ∷ [])).0 ≡ none
      → ((write_each both ([], []) ((1 ∷ 2 ∷ []) ∷ (3 ∷ []) ∷ [])).1.0
          ≡ concat ((1 ∷ 2 ∷ []) ∷ (3 ∷ []) ∷ []))
        × ((write_each both ([], []) ((1 ∷ 2 ∷ []) ∷ (3 ∷ []) ∷ [])).1.1
            ≡ concat ((1 ∷ 2 ∷ []) ∷ (3 ∷ []) ∷ [])))
    × ((rest : Bytes) × ((write_each both ([], []) ((1 ∷ 2 ∷ []) ∷ (3 ∷ []) ∷ [])).1.0
          ≡ (write_each both ([], []) ((1 ∷ 2 ∷ []) ∷ (3 ∷ []) ∷ [])).1.1 ++ rest))
detached_example =
    write_each-detached to_ciphertext to_signature to_signature (λ t. t.0) (λ t. t.1)
      to_ciphertext-Takes to_signature-Takes ([], []) ((1 ∷ 2 ∷ []) ∷ (3 ∷ []) ∷ []) refl refl
