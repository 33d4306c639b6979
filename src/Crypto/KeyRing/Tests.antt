-- ===== src/Crypto/KeyRing/Tests.antt =====
-- Runs on small key rings.
use gopenpgp.Base.{ℕ, true, none, [], ◌∷◌, pos, ok, any, ◌>>=◌, ◌≡◌, arith}
use gopenpgp.Crypto.Samples.{open_key, locked_key, ring, public_key}
use gopenpgp.Crypto.Key.{is_private}
use gopenpgp.Crypto.KeyRing.{KeyRing, KeyQueries, filter_expired_keys, expired_error}
use gopenpgp.Crypto.KeyRing.Unlocked.{IsUsableRing, add_keys, add_keys-IsUsableRing}
use gopenpgp.Crypto.KeyRing.Expiry.{copies, keep, is_stale, filter_expired_keys_lem}

add_keys_example : IsUsableRing (add_keys ring (locked_key ∷ open_key ∷ []))
unfolding is_private
add_keys_example =
    add_keys-IsUsableRing (locked_key ∷ open_key ∷ []) ring ((λ p. absurd (ground arith)), tt)

-- Every key is expired.
abbrev queries : KeyQueries ℕ
queries = record {
  can_verify = λ e t. true;
  can_encrypt = λ e t. true;
  decryption_keys = λ e t. [];
  latest_valid = λ s t. (none, none);
  key_expired = λ k b t. true;
}

abbrev with_subkey : KeyRing
with_subkey = record {
  entities =
      (record {
        primary_key = public_key;
        private_key = none;
        subkeys = (record { public_key = public_key; private_key = none }) ∷ [];
        identities = [];
      })
      ∷ [];
  first_key_id = "";
}

filter_example : filter_expired_keys queries ok (pos 5) (with_subkey ∷ ring ∷ []) ≡ (do
  cs ← copies ok (keep queries (pos 5) (with_subkey ∷ ring ∷ []))
  ok (cs, expired_error cs (any (is_stale queries (pos 5)) (with_subkey ∷ ring ∷ []))))
filter_example = filter_expired_keys_lem queries (pos 5) ok (with_subkey ∷ ring ∷ [])
