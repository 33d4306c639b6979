-- ===== src/Internal/Sanitize.antt =====
-- internal/sanitize_string.go: `sanitizeReader`, which turns CR LF into LF while it is read through.
pub mod Lines
pub mod Faults
mod Tests
use gopenpgp.Base.{
  ℕ, zero, suc, ◌-◌, Bool, true, false, not, ◌&&◌, Option, none, some, List, [], ◌∷◌, ◌++◌, Bytes,
  Error, eof, length, take, drop, ◌==◌, is_some, if◌then◌else◌,
}
use gopenpgp.Internal.Text.{cr, lf}
use gopenpgp.Internal.Reader.{Read, is_exactly_eof}

-- `buffer` holds the bytes that have not been read yet.
pub record SanitizeReader (S : Type 0) : Type 0 where
  pub r : S
  pub buffer : Bytes
  pub pin : Bool

-- newSanitizeReader's initial state.
abbrev pub new_sanitize_reader : {S : Type 0} → S → SanitizeReader S
new_sanitize_reader r = record { r = r; buffer = []; pin = false }

-- The `for` loop over the bytes that were read: the flag and the buffer afterwards. A CR held back in
-- front of a byte other than LF is written, and the next round, which is written out here, takes the
-- byte itself.
pub sanitize_loop : Bool → Bytes → Bytes → Bool × Bytes
sanitize_loop pin [] buffer = (pin, buffer)
sanitize_loop true (c ∷ s) buffer =
    let newline = sanitize_loop false s (buffer ++ lf ∷ []) in
    let held = sanitize_loop true s (buffer ++ cr ∷ []) in
    let other = sanitize_loop false s ((buffer ++ cr ∷ []) ++ c ∷ []) in
    if c == lf then newline else if c == cr then held else other
sanitize_loop false (c ∷ s) buffer =
    let held = sanitize_loop true s buffer in
    let other = sanitize_loop false s (buffer ++ c ∷ []) in if c == cr then held else other

-- `if err == io.EOF && sr.pin`
pub flush_pin : Bool → Bool × Bytes → Bool × Bytes
flush_pin at_eof (pin, buffer) = if at_eof && pin then (false, buffer ++ cr ∷ []) else (pin, buffer)

-- The error that Read returns once it has filled the caller's buffer.
pub final_error : Bool → Bytes → Option Error
final_error true [] = some eof
final_error true (c ∷ s) = none
final_error false s = none

module _ {S : Type 0} (upstream : Read S) where
  -- What Read does with the upstream's answer; `internal` is what the buffer gave, `room` the length
  -- that is left. On an error other than EOF it returns the upstream's count, of the caller's buffer.
  pub sanitize_answer :
      Bytes → ℕ → Bool → Bytes × Option Error × S → Bytes × Option Error × SanitizeReader S
  sanitize_answer internal room pin (given, error, r) =
      if is_some error && not (is_exactly_eof error)
      then (
        take (length given) (internal ++ given),
        error,
        record { r = r; buffer = []; pin = pin },
      )
      else let (pin', buffer) = flush_pin (is_exactly_eof error) (sanitize_loop pin given []) in
        (
          internal ++ take room buffer,
          final_error (is_exactly_eof error) (drop room buffer),
          record { r = r; buffer = drop room buffer; pin = pin' },
        )

  -- (*sanitizeReader).Read with a buffer of length k. If the buffer does not fill it, it is empty
  -- afterwards.
  pub sanitize_read : Read (SanitizeReader S)
  sanitize_read sr k =
      let internal = take k sr.buffer in
      if length internal == k
      then (internal, none, record sr { buffer = drop k sr.buffer })
      else sanitize_answer internal (k - length internal) sr.pin
          (upstream sr.r (k - length internal))
