-- ===== src/Crypto/VerifyReader/Guard.antt =====
-- VerifySignature waits for the end of the data (crypto/verify_reader.go).
use gopenpgp.Base.{ℕ, Bool, false, ◌||◌, List, [], ◌∷◌}
use gopenpgp.Internal.Reader.{Read}
use gopenpgp.Crypto.VerifyReader.{VerifyDataReader, ends, read}

module _ {S : Type 0} (internal : Read S) where
  -- The reader after reads with buffers of the given lengths, whatever they answer.
  abbrev pub reads : VerifyDataReader S → List ℕ → VerifyDataReader S
  reads msg [] = msg
  reads msg (k ∷ ks) = reads (read internal msg k).2 ks

  -- One of the reads of the wrapped reader reports the end.
  abbrev pub saw_end : S → List ℕ → Bool
  saw_end s [] = false
  saw_end s (k ∷ ks) = ends (internal s k).1 || saw_end (internal s k).2 ks

  -- The reader after these reads of the wrapped reader.
  abbrev state : S → List ℕ → S
  state s [] = s
  state s (k ∷ ks) = state (internal s k).2 ks
