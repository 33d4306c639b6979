-- ===== src/Crypto/VerifyReader/Tests.antt =====
-- Reads of a small message (crypto/verify_reader.go).
use gopenpgp.Base.{ℕ, true, false, some, List, [], ◌∷◌, Bytes, String, pos, ◌≡◌, refl}
use gopenpgp.Internal.Reader.{bytes_reader, bytes_reader-IsReader}
use gopenpgp.Crypto.Signature.{create_verify_result}
use gopenpgp.Crypto.Samples.{ring, context, details}
use gopenpgp.Crypto.VerifyReader.{VerifyDataReader, ends, discard_all_and_verify_signature}
use gopenpgp.Crypto.VerifyReader.Guard.{saw_end}
use gopenpgp.Crypto.VerifyReader.Whole.{discard_all_and_verify_signature_lem}

abbrev message : VerifyDataReader Bytes
message = record {
  details = details;
  literal_data = some (record { file_name = "note"; is_binary = false; time = pos 3 });
  session_key = some (1 ∷ 2 ∷ []);
  decrypted_with = 9;
  internal_reader = 10 ∷ 20 ∷ 30 ∷ [];
  verify_key_ring = some ring;
  verify_time = pos 0;
  disable_time_check = false;
  read_all = false;
  verification_context = some context;
}

abbrev algos : List (String × ℕ)
algos = ("aes256", 9) ∷ []

ends_example : saw_end bytes_reader (10 ∷ 20 ∷ 30 ∷ []) (2 ∷ 2 ∷ 2 ∷ []) ≡ true
unfolding ends bytes_reader
ends_example = refl

discard_example :
    discard_all_and_verify_signature bytes_reader message (2 ∷ 2 ∷ 2 ∷ [])
    ≡ some (create_verify_result details (some ring) (some context) (pos 0) false)
discard_example =
    discard_all_and_verify_signature_lem bytes_reader (λ s. s) bytes_reader-IsReader message
      (2 ∷ 2 ∷ 2 ∷ []) ends_example
