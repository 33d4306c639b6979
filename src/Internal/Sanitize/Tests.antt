-- ===== src/Internal/Sanitize/Tests.antt =====
-- Runs of the sanitizing reader on a text and on a source that fails.
use gopenpgp.Base.{ℕ, none, some, [], ◌∷◌, ◌++◌, Bytes, false, Error, eof, ◌≡◌, ◌≢◌}
use gopenpgp.Internal.Text.{replace_all, rnl, nl}
use gopenpgp.Internal.Reader.{Read, drain, bytes_reader, bytes_reader-IsReader}
use gopenpgp.Internal.Sanitize.{SanitizeReader, new_sanitize_reader, sanitize_read}
use gopenpgp.Internal.Sanitize.Lines.{pending}
use gopenpgp.Internal.Sanitize.Faults.{sanitize-replace_all}

abbrev text : Bytes
text = 97 ∷ 13 ∷ 10 ∷ 98 ∷ 13 ∷ []

sanitize_example :
    let run = drain (sanitize_read bytes_reader) (new_sanitize_reader text) (2 ∷ 1 ∷ 4 ∷ 4 ∷ []) in
    let wanted = replace_all text rnl nl in
    (wanted ≡ run.0 ++ pending bytes_reader (λ s. s) run.2)
    × (run.1 ≢ none → (run.1 ≡ some eof) × (run.0 ≡ wanted))
sanitize_example =
    sanitize-replace_all bytes_reader (λ s. s) bytes_reader-IsReader text (2 ∷ 1 ∷ 4 ∷ 4 ∷ [])

-- A source whose every read fails.
abbrev broken : Read ℕ
broken s k = ([], some (Error.foreign 5), s)

abbrev waiting : SanitizeReader ℕ
waiting = record { r = 0; buffer = 97 ∷ 98 ∷ []; pin = false }
