-- ===== src/Internal/SanitizeUtf8/Tests.antt =====
-- Text with bytes that are not UTF-8 (internal/sanitize_string.go).
use gopenpgp.Base.{false, none, some, [], ◌∷◌, ◌++◌, Bytes, ◌≡◌, refl, arith}
use gopenpgp.Internal.Reader.{bytes_reader, bytes_reader-IsReader}
use gopenpgp.Internal.Utf8.Whole.{IsUtf8}
use gopenpgp.Internal.SanitizeUtf8.{
  SanitizeUtf8Reader, new_sanitize_utf8_reader, text_reads, read_text, decode_rune, rune_loop,
  on_rune, put_rune, read_rune, await_rune, next_rune, fill, full_rune, rest_of, read_failure,
}
use gopenpgp.Internal.Utf8.{first, accept_lo, accept_hi, decode_size, two, three, four}
use gopenpgp.Internal.SanitizeUtf8.Runes.{reminder_bytes}
use gopenpgp.Internal.SanitizeUtf8.Rounds.{text_reads-IsUtf8}

-- `A`, two bytes that begin no rune, and `B`.
abbrev source : Bytes
source = 65 ∷ 0xFF ∷ 0xFE ∷ 66 ∷ []

runes_example :
    (x : Bytes × SanitizeUtf8Reader Bytes) × (text_reads bytes_reader 5
        (2 ∷ 3 ∷ [])
        (new_sanitize_utf8_reader source)
      ≡ some x)
    × IsUtf8 (x.0 ++ reminder_bytes bytes_reader x.1)
runes_example =
    text_reads-IsUtf8 bytes_reader (λ s. s) bytes_reader-IsReader 5 (2 ∷ 3 ∷ []) source
      (omega arith)

-- The two bytes become one replacement character, which the first buffer cuts.
text_run :
    text_reads bytes_reader 5 (2 ∷ 3 ∷ []) (new_sanitize_utf8_reader source)
    ≡ some (
      65 ∷ 0xEF ∷ 0xBF ∷ 0xBD ∷ 66 ∷ [],
      record {
        r = record { rd = []; buffer = []; failure = none };
        reminder = none;
        last_rune_invalid = false;
      },
    )
unfolding text_reads read_text rune_loop on_rune put_rune read_rune await_rune next_rune fill
    full_rune decode_rune rest_of read_failure new_sanitize_utf8_reader bytes_reader first accept_lo
    accept_hi decode_size two three four
text_run = refl
