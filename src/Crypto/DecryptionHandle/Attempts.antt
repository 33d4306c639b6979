-- ===== src/Crypto/DecryptionHandle/Attempts.antt =====
-- In which order a decryption handle tries its material, and when it gives up (crypto/decryption_handle.go).
use gopenpgp.Base.{Bool, some, List, [], ◌∷◌, ◌++◌, Result, is_some, is_cons, if◌then◌else◌}
use gopenpgp.Crypto.DecryptionHandle.{
  DecryptionHandle, Attempt, session_keys, key_ring, passwords, Tried, is_open,
}

-- Put an attempt in front if there is material for it.
abbrev pub if_has : Bool → Attempt → List Attempt → List Attempt
if_has b a rest = (if b then a ∷ [] else []) ++ rest

-- The attempts that the handle has material for, in the order of preference.
abbrev pub attempts : DecryptionHandle → List Attempt
attempts dh =
    if_has (is_cons dh.session_keys) session_keys (
      if_has (is_some dh.decryption_key_ring) key_ring (if_has (is_cons dh.passwords) passwords []))

module _ {R S : Type 0} (attempt : Attempt → S → Result R × S) where
  -- Make the attempts one after the other, each on what the one before has left, up to one that does not fail.
  abbrev pub first_success : Tried R × S → List Attempt → Tried R × S
  first_success run [] = run
  first_success (tried, s) (a ∷ rest) =
      let (answer, s') = attempt a s in
      let go_on = first_success (some answer, s') rest in
      if is_open tried then go_on else (tried, s)
