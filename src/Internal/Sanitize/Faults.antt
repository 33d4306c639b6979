-- ===== src/Internal/Sanitize/Faults.antt =====
-- The sanitizing reader over whole runs, and what an error of its source does
-- (internal/sanitize_string.go).
use gopenpgp.Base.{ℕ, none, some, List, ◌++◌, Bytes, eof, ◌≡◌, ◌≢◌}
use gopenpgp.Internal.Text.{replace_all, rnl, nl}
use gopenpgp.Internal.Text.Lines.{strip-replace_all}
use gopenpgp.Internal.Reader.{Read, IsReader, drain, drain-content}
use gopenpgp.Internal.Sanitize.{new_sanitize_reader, sanitize_read}
use gopenpgp.Internal.Sanitize.Lines.{pending, sanitize_read-IsReader}

-- Whatever the lengths of the reads, what a fresh sanitizing reader has given and what it still has to
-- give make up its source's content with CR LF replaced by LF; once a read ends in an error, that error
-- is EOF and all has been given.
pub sanitize-replace_all :
    {S : Type 0} (upstream : Read S) (content : S → Bytes)
    → IsReader upstream content
    → (s : S) (ks : List ℕ)
    → let run = drain (sanitize_read upstream) (new_sanitize_reader s) ks in
      let wanted = replace_all (content s) rnl nl in
      (wanted ≡ run.0 ++ pending upstream content run.2)
      × (run.1 ≢ none → (run.1 ≡ some eof) × (run.0 ≡ wanted))
sanitize-replace_all upstream content law s ks = rw (← strip-replace_all (content s)) (
    drain-content (sanitize_read upstream) (pending upstream content)
      (sanitize_read-IsReader upstream content law) ks (new_sanitize_reader s))
