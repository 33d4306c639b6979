-- ===== src/Internal/ResetReader/Tests.antt =====
-- Reads and resets of a small reader (ResetReader of internal/common.go).
use gopenpgp.Base.{ℕ, none, some, List, [], ◌∷◌, ◌++◌, Bytes, eof, ok, ◌≡◌, ◌≢◌}
use gopenpgp.Internal.Reader.{bytes_reader, bytes_reader-IsReader, drain}
use gopenpgp.Internal.ResetReader.{Source, new_reset_reader, source_read, reset}
use gopenpgp.Internal.ResetReader.Again.{reading, resetting, source_content, calls, reset-calls}

reset_example :
    (r : Source Bytes) × ((reset (
        calls bytes_reader
          (λ s. s)
          bytes_reader-IsReader
          (reading 2 ∷ resetting ∷ reading 1 ∷ reading 5 ∷ [])
          (new_reset_reader (1 ∷ 2 ∷ 3 ∷ 4 ∷ [])))).0
      ≡ ok r)
    × ((ks : List ℕ)
        → ((1 ∷ 2 ∷ 3 ∷ 4 ∷ [])
            ≡ (drain (source_read bytes_reader) r ks).0
              ++ source_content bytes_reader
                  (λ s. s)
                  bytes_reader-IsReader
                  (drain (source_read bytes_reader) r ks).2)
          × ((drain (source_read bytes_reader) r ks).1 ≢ none
              → ((drain (source_read bytes_reader) r ks).1 ≡ some eof)
                × ((drain (source_read bytes_reader) r ks).0 ≡ 1 ∷ 2 ∷ 3 ∷ 4 ∷ [])))
reset_example =
    reset-calls bytes_reader (λ s. s) bytes_reader-IsReader
      (reading 2 ∷ resetting ∷ reading 1 ∷ reading 5 ∷ []) (1 ∷ 2 ∷ 3 ∷ 4 ∷ [])
