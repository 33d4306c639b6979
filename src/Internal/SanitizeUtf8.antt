-- ===== src/Internal/SanitizeUtf8.antt =====
-- internal/sanitize_string.go: `sanitizeUtf8Reader`, which replaces what is not UTF-8, and NewSanitizeReader,
-- which puts it around a `sanitizeReader`. A rune stands for the bytes that encode it.
pub mod Rounds
pub mod Runes
mod Tests
use gopenpgp.Base.{
  ℕ, zero, suc, ◌-◌, ◌/◌, ◌%◌, Bool, true, false, not, ◌&&◌, ◌||◌, Option, none, some, List, [],
  ◌∷◌, ◌++◌, Bytes, Error, Result, ok, err, panic, length, take, drop, is_some, is_cons, ltb, leb,
  ◌==◌, if◌then◌else◌,
}
use gopenpgp.Internal.Reader.{Read}
use gopenpgp.Internal.Sanitize.{SanitizeReader, new_sanitize_reader}
use gopenpgp.Internal.Utf8.{decode_size, first, accept_lo, accept_hi}

-- `bufio.Reader`: the bytes that it holds, and the error that it has still to report.
pub record BufferedReader (S : Type 0) : Type 0 where
  pub rd : S
  pub buffer : Bytes
  pub failure : Option Error

-- The internal buffer of four bytes only holds what `reminder` gives.
pub record SanitizeUtf8Reader (S : Type 0) : Type 0 where
  pub r : BufferedReader S
  pub reminder : Option Bytes
  pub last_rune_invalid : Bool

-- newSanitizeUtf8Reader
pub new_sanitize_utf8_reader : {S : Type 0} → S → SanitizeUtf8Reader S
new_sanitize_utf8_reader reader = record {
  r = record { rd = reader; buffer = []; failure = none };
  reminder = none;
  last_rune_invalid = false;
}

-- NewSanitizeReader
pub new_text_reader : {S : Type 0} → S → SanitizeUtf8Reader (SanitizeReader S)
unfolding new_sanitize_utf8_reader
new_text_reader r = new_sanitize_utf8_reader (new_sanitize_reader r)

-- `unicode.ReplacementChar`
abbrev pub replacement : Bytes
replacement = 0xEF ∷ 0xBF ∷ 0xBD ∷ []

abbrev pub same_bytes : Bytes → Bytes → Bool
same_bytes [] [] = true
same_bytes (c ∷ p) (d ∷ q) = c == d && same_bytes p q
same_bytes _ _ = false

-- `utf8.FullRune`: a rune or an error of one byte can be read from the front.
pub full_rune : Bytes → Bool
full_rune [] = false
full_rune (c ∷ p) = if leb (first c % 8) (length (c ∷ p)) then true else elim p [
  | [] ↦ false
  | d ∷ q ↦
      if ltb d (accept_lo (first c / 16)) || ltb (accept_hi (first c / 16)) d
      then true
      else elim q [ [] ↦ false | e ∷ s ↦ ltb e 0x80 || ltb 0xBF e ]
]

-- `utf8.DecodeRune` of a buffer that is not empty: the rune, and the number of its bytes.
pub decode_rune : Bytes → Bytes × ℕ
decode_rune p = elim (decode_size p) [ some n ↦ (take n p, n) | none ↦ (replacement, 1) ]

-- The size of the buffer of a `bufio.Reader`, and how many empty reads it makes.
abbrev pub buffer_size : ℕ
buffer_size = 4096

abbrev pub max_consecutive_empty_reads : ℕ
max_consecutive_empty_reads = 100

-- The error that a `bufio.Reader` has to report; a read fails only if there is one.
pub read_failure : Option Error → Result Bytes
read_failure none = panic
read_failure (some e) = err e

module _ {S : Type 0} (upstream : Read S) where
  -- `fill` of a `bufio.Reader`, with the number of reads that are left.
  pub fill : ℕ → BufferedReader S → BufferedReader S
  fill zero b = record b {
    failure = some (Error.new "multiple Read calls return no data or error");
  }
  fill (suc n) b =
      let (given, failure, rd) = upstream b.rd (buffer_size - length b.buffer) in
      let b' : BufferedReader S = record {
        rd = rd;
        buffer = b.buffer ++ given;
        failure = failure;
      } in
      let rest = fill n b' in if is_some failure || is_cons given then b' else rest

  -- The loop of `ReadRune`. Each `fill` adds a byte or an error, and four bytes are a full rune.
  pub await_rune : ℕ → BufferedReader S → BufferedReader S
  unfolding fill full_rune
  await_rune zero b = b
  await_rune (suc n) b =
      let rest = await_rune n (fill max_consecutive_empty_reads b) in
      if full_rune b.buffer || is_some b.failure then b else rest

  -- `ReadRune` behind its loop; an error is reported once.
  pub next_rune : BufferedReader S → Bytes → Result Bytes × BufferedReader S
  unfolding read_failure decode_rune
  next_rune b [] = (read_failure b.failure, record b { failure = none })
  next_rune b (c ∷ p) =
      let (rune, n) = decode_rune (c ∷ p) in (ok rune, record b { buffer = drop n (c ∷ p) })

  -- `ReadRune` of a `bufio.Reader`
  pub read_rune : BufferedReader S → Result Bytes × BufferedReader S
  unfolding await_rune next_rune
  read_rune b = let b' = await_rune 4 b in next_rune b' b'.buffer

  -- What a round of Read puts in front of the rounds behind it.
  pub put_rune :
      Bytes
      → Option (Bytes × Option Error × SanitizeUtf8Reader S)
      → Option (Bytes × Option Error × SanitizeUtf8Reader S)
  put_rune rune none = none
  put_rune rune (some (given, failure, sr)) = some (rune ++ given, failure, sr)

  -- A round of Read that has read a rune or failed, with the rounds behind it, for the bytes that are left of the
  -- caller's buffer: those for a rune that is skipped, and those for one that fits.
  pub on_rune :
      SanitizeUtf8Reader S
      → ℕ
      → (SanitizeUtf8Reader S → ℕ → Option (Bytes × Option Error × SanitizeUtf8Reader S))
      → Result Bytes × BufferedReader S
      → Option (Bytes × Option Error × SanitizeUtf8Reader S)
  unfolding put_rune
  on_rune sr room go_on (err e, r) = some ([], some e, record sr { r = r })
  on_rune sr room go_on (panic, r) = none
  on_rune sr room go_on (ok rune, r) =
      let invalid = same_bytes rune replacement in
      let sr' : SanitizeUtf8Reader S = record sr { r = r; last_rune_invalid = invalid } in
      if invalid && sr.last_rune_invalid
      then go_on sr' room
      else if leb (length rune) room
      then put_rune rune (go_on sr' (room - length rune))
      else some (take room rune, none, record sr' { reminder = some (drop room rune) })

  -- The loop of Read, with the bytes that are left of the caller's buffer; `none` if the rounds are used up.
  pub rune_loop :
      ℕ → SanitizeUtf8Reader S → ℕ → Option (Bytes × Option Error × SanitizeUtf8Reader S)
  unfolding on_rune read_rune
  rune_loop zero sr room = none
  rune_loop (suc n) sr zero = some ([], none, sr)
  rune_loop (suc n) sr (suc room) = on_rune sr (suc room) (rune_loop n) (read_rune sr.r)

  -- What is left of the reminder, behind the bytes that were copied.
  pub rest_of : ℕ → Bytes → Option Bytes
  rest_of n p = if ltb n (length p) then some (drop n p) else none

  -- (*sanitizeUtf8Reader).Read with a buffer of length k.
  pub read_text :
      ℕ → SanitizeUtf8Reader S → ℕ → Option (Bytes × Option Error × SanitizeUtf8Reader S)
  unfolding rune_loop put_rune rest_of
  read_text rounds sr k = elim sr.reminder [
    | none ↦ rune_loop rounds sr k
    | some p ↦
        put_rune (take k p)
          (rune_loop rounds (record sr { reminder = rest_of k p }) (k - length (take k p)))
  ]

  -- What a run of reads gives, whatever errors they report; `none` if a read uses up its rounds.
  abbrev pub then_reads :
      Option (Bytes × Option Error × SanitizeUtf8Reader S)
      → (SanitizeUtf8Reader S → Option (Bytes × SanitizeUtf8Reader S))
      → Option (Bytes × SanitizeUtf8Reader S)
  then_reads none rest = none
  then_reads (some (b, e, sr)) rest = elim (rest sr) [
    | none ↦ none
    | some (b', sr') ↦ some (b ++ b', sr')
  ]

  pub text_reads : ℕ → List ℕ → SanitizeUtf8Reader S → Option (Bytes × SanitizeUtf8Reader S)
  unfolding read_text
  text_reads n [] sr = some ([], sr)
  text_reads n (k ∷ ks) sr = then_reads (read_text n sr k) (text_reads n ks)
