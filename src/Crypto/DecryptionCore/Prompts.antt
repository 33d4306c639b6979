-- ===== src/Crypto/DecryptionCore/Prompts.antt =====
-- createPasswordPrompt of crypto/decryption_core.go.
use gopenpgp.Base.{ℕ, zero, suc, true, false, none, some, Bytes, Error, Result, ok, err, ◌≡◌, refl}
use gopenpgp.Crypto.DecryptionCore.{Prompt, create_password_prompt, ask}

-- The answer of the call behind n others.
abbrev pub answer : ℕ → Prompt → Result Bytes
answer zero prompt = (ask prompt).0
answer (suc n) prompt = answer n (ask prompt).1

refuses :
    (n : ℕ) (p : Bytes)
    → answer n (record { password = p; first_time_called = false })
      ≡ err (Error.new "gopenpgp: wrong password in symmetric decryption")
unfolding ask
refuses zero p = refl
refuses (suc n) p = refuses n p

-- The prompt of a password gives the password at the first call and fails at every later one; without a
-- password there is no prompt.
pub create_password_prompt_lem :
    (create_password_prompt none ≡ none)
    × ((p : Bytes)
        → (prompt : Prompt) × (create_password_prompt (some p) ≡ some prompt)
          × (answer 0 prompt ≡ ok p)
          × ((n : ℕ)
              → answer (suc n) prompt
                ≡ err (Error.new "gopenpgp: wrong password in symmetric decryption")))
unfolding create_password_prompt ask
create_password_prompt_lem =
    (refl, λ p. (record { password = p; first_time_called = true }, refl, refl, λ n. refuses n p))
