-- ===== src/Crypto/DecryptionHandle/Tests.antt =====
-- A run of a handle with a session key and a password, of which the second opens the message.
use gopenpgp.Base.{ℕ, false, suc, none, [], ◌∷◌, Error, Result, ok, err}
use gopenpgp.Crypto.DecryptionHandle.{
  DecryptionHandle, default_decryption_handle, Attempt, session_keys, key_ring, passwords,
}

abbrev handle : DecryptionHandle
handle = record (default_decryption_handle none) {
  session_keys = (record { key = 1 ∷ []; algo = "aes256"; v6 = false }) ∷ [];
  passwords = (5 ∷ []) ∷ [];
}

-- Only the password opens the message; the state counts the attempts.
abbrev attempt : Attempt → ℕ → Result ℕ × ℕ
attempt session_keys s = (err (Error.new "wrong session key"), suc s)
attempt key_ring s = (err (Error.new "wrong key"), suc s)
attempt passwords s = (ok 42, suc s)
