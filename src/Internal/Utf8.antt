-- ===== src/Internal/Utf8.antt =====
-- internal/utf8.go: the streaming UTF-8 checker. `decode_size` is what the checker asks of Go's
-- `utf8.DecodeRune`: the number of bytes of the well-formed rune at the front, if there is one.
pub mod Decode
pub mod Whole
pub mod Stream
pub mod Writer
mod Tests
use gopenpgp.Base.{
  ℕ, zero, suc, ◌+◌, ◌-◌, ◌/◌, ◌%◌, ◌≤◌, ◌<◌, Bool, true, false, not, ◌&&◌, ◌||◌, Option, none,
  some, List, [], ◌∷◌, ◌++◌, Bytes, Error, incorrect_utf8, length, take, drop, get_elem?, is_cons,
  is_some, ltb, leb, ◌==◌, if◌then◌else◌,
}
use gopenpgp.Internal.Reader.{WriteCloser}

-- Between two bounds.
abbrev pub between : ℕ → ℕ → ℕ → Bool
between lo hi c = leb lo c && leb c hi

-- A continuation byte.
abbrev pub is_tail : ℕ → Bool
is_tail c = between 0x80 0xBF c

-- The second byte of a rune of three bytes: no overlong forms and no surrogates.
abbrev pub second_of_three : ℕ → ℕ → Bool
second_of_three c d =
    if c == 0xE0 then between 0xA0 0xBF d else if c == 0xED then between 0x80 0x9F d else is_tail d

-- The second byte of a rune of four bytes: no overlong forms and nothing above U+10FFFF.
abbrev pub second_of_four : ℕ → ℕ → Bool
second_of_four c d =
    if c == 0xF0 then between 0x90 0xBF d else if c == 0xF4 then between 0x80 0x8F d else is_tail d

unfoldable pub two : Bytes → Option ℕ
two [] = none
two (d ∷ s) = if is_tail d then some 2 else none

unfoldable pub three : ℕ → Bytes → Option ℕ
three c [] = none
three c (d ∷ []) = none
three c (d ∷ e ∷ s) = if second_of_three c d && is_tail e then some 3 else none

unfoldable pub four : ℕ → Bytes → Option ℕ
four c [] = none
four c (d ∷ []) = none
four c (d ∷ e ∷ []) = none
four c (d ∷ e ∷ f ∷ s) = if second_of_four c d && (is_tail e && is_tail f) then some 4 else none

-- The table of well-formed UTF-8 (RFC 3629).
unfoldable pub decode_size : Bytes → Option ℕ
unfolding two three four
decode_size [] = none
decode_size (c ∷ s) =
    if leb c 0x7F
    then some 1
    else if between 0xC2 0xDF c
    then two s
    else if between 0xE0 0xEF c
    then three c s
    else if between 0xF0 0xF4 c
    then four c s
    else none

abbrev pub max_rune_size : ℕ
max_rune_size = 4

abbrev pub xx : ℕ
xx = 0xF1

-- The table `first`, by the ranges of its rows.
unfoldable pub first : ℕ → ℕ
first c =
    if leb c 0x7F
    then 0xF0
    else if leb c 0xC1
    then xx
    else if leb c 0xDF
    then 0x02
    else if c == 0xE0
    then 0x13
    else if c == 0xED
    then 0x23
    else if leb c 0xEF
    then 0x03
    else if c == 0xF0
    then 0x34
    else if leb c 0xF3
    then 0x04
    else if c == 0xF4
    then 0x44
    else xx

-- `acceptRanges`, the bounds of the second byte; the entries from 5 on are zero.
unfoldable pub accept_lo : ℕ → ℕ
accept_lo i =
    if i == 0
    then 0x80
    else if i == 1
    then 0xA0
    else if i == 2
    then 0x80
    else if i == 3
    then 0x90
    else if i == 4
    then 0x80
    else 0

unfoldable pub accept_hi : ℕ → ℕ
accept_hi i =
    if i == 0
    then 0xBF
    else if i == 1
    then 0xBF
    else if i == 2
    then 0x9F
    else if i == 3
    then 0xBF
    else if i == 4
    then 0x8F
    else 0

-- A nil result is the empty list, whose length is what the callers ask for.
pub can_overlap : Bytes → Bytes
can_overlap s = if ltb (length s) max_rune_size then s else []

-- `(first32|second32)&0x80808080 != 0`: one of the eight bytes has its top bit set.
pub skip_ascii : Bytes → Bytes
skip_ascii (a ∷ b ∷ c ∷ d ∷ e ∷ f ∷ g ∷ h ∷ s) =
    let rest = skip_ascii s in
    if ltb a 0x80
      && (ltb b 0x80
          && (ltb c 0x80
              && (ltb d 0x80 && (ltb e 0x80 && (ltb f 0x80 && (ltb g 0x80 && ltb h 0x80))))))
    then rest
    else a ∷ b ∷ c ∷ d ∷ e ∷ f ∷ g ∷ h ∷ s
skip_ascii s = s

-- The byte at an index that the code has checked.
pub at : Bytes → ℕ → ℕ
at s i = elim (get_elem? s i) [ none ↦ 0 | some c ↦ c ]

-- The tests on the bytes behind the first; `true` is to go on behind the rune.
pub tail_ok : Bytes → ℕ → ℕ → Bool
unfolding at
tail_ok p size x =
    if ltb (at p 1) (accept_lo (x / 16)) || ltb (accept_hi (x / 16)) (at p 1)
    then false
    else if size == 2
    then true
    else if ltb (at p 2) 0x80 || ltb 0xBF (at p 2)
    then false
    else if size == 3
    then true
    else not (ltb (at p 3) 0x80 || ltb 0xBF (at p 3))

-- One round of the loop at the front of what is left: how far to go on, if it goes on.
pub round : ℕ → Bytes → Option ℕ
unfolding first tail_ok
round c p =
    if ltb c 0x80
    then some 1
    else if first c == xx
    then none
    else if ltb (length p) (first c % 8)
    then none
    else if tail_ok p (first c % 8) (first c)
    then some (first c % 8)
    else none

-- The loop over the indices; the list is `p[i:]`, and its length is fuel enough.
pub valid_loop : ℕ → Bytes → Bool × Bytes
unfolding round can_overlap
valid_loop zero p = (true, [])
valid_loop (suc f) [] = (true, [])
valid_loop (suc f) (c ∷ s) = elim (round c (c ∷ s)) [
  | none ↦ (false, can_overlap (c ∷ s))
  | some k ↦ valid_loop f (drop k (c ∷ s))
]

pub valid : Bytes → Bool × Bytes
unfolding skip_ascii valid_loop
valid p = let q = skip_ascii p in valid_loop (length q) q

-- The part of `check` that looks at the bytes behind the overflow buffer.
pub check_rest : Bytes → Bytes × Option Error
unfolding valid
check_rest [] = ([], none)
check_rest (c ∷ s) =
    let (is_valid, rest) = valid (c ∷ s) in
    if not is_valid && is_cons rest
    then (rest, none)
    else if not is_valid
    then ([], some incorrect_utf8)
    else ([], none)

-- The part of `check` for a buffer that is not empty, filled up to `filled` by `copied` bytes of `p`.
pub check_overflow : Bytes → ℕ → Bytes → Bytes × Option Error
unfolding check_rest
check_overflow filled copied p = elim (decode_size filled) [
  | none ↦
      if ltb (length filled) max_rune_size then (filled, none) else (filled, some incorrect_utf8)
  | some size ↦ check_rest (drop (copied - (length filled - size)) p)
]

-- (*utf8Checker).check on the state `buffer[:overflowSize]`: the state afterwards and the error. The
-- difference in `check_overflow` is never negative: `overflowSize-runeSize` bytes of `p` are behind the rune.
pub check : Bytes → Bytes → Bytes × Option Error
unfolding check_overflow
check [] p = check_rest p
check (o ∷ os) p =
    let room = max_rune_size - length (o ∷ os) in
    check_overflow ((o ∷ os) ++ take room p) (length (take room p)) p

-- (*utf8Checker).close
pub close : Bytes → Option Error
close [] = none
close (o ∷ os) = some incorrect_utf8

pub record Utf8CheckWriteCloser (W : Type 0) : Type 0 where
  pub overflow : Bytes
  pub internal : W

-- NewUtf8CheckWriteCloser
pub new_utf8_check_write_closer : {W : Type 0} → W → Utf8CheckWriteCloser W
new_utf8_check_write_closer w = record { overflow = []; internal = w }

module _ {W : Type 0} (sink : WriteCloser W) where
  -- The part of `Write` behind the check.
  pub write_checked :
      Utf8CheckWriteCloser W
      → Bytes
      → Bytes × Option Error
      → ℕ × Option Error × Utf8CheckWriteCloser W
  write_checked cw p (o, some e) = (0, some e, record { overflow = o; internal = cw.internal })
  write_checked cw p (o, none) =
      let (n, failed, w) = sink.write cw.internal p in
      (n, failed, record { overflow = o; internal = w })

  -- (*Utf8CheckWriteCloser).Write
  pub write : Utf8CheckWriteCloser W → Bytes → ℕ × Option Error × Utf8CheckWriteCloser W
  unfolding write_checked
  write cw p = write_checked cw p (check cw.overflow p)

  -- (*Utf8CheckWriteCloser).Close
  pub close_writer : Utf8CheckWriteCloser W → Option Error × Utf8CheckWriteCloser W
  unfolding close
  close_writer cw = elim (close cw.overflow) [
    | some e ↦ (some e, cw)
    | none ↦
        let (failed, w) = sink.close cw.internal in
        (failed, record { overflow = cw.overflow; internal = w })
  ]

  -- Writing the chunks one after the other up to the first error, and closing behind the last.
  pub write_all : Utf8CheckWriteCloser W → List Bytes → Option Error × Utf8CheckWriteCloser W
  write_all cw [] = close_writer cw
  write_all cw (p ∷ ps) =
      let (n, failed, cw') = write cw p in
      let rest = write_all cw' ps in if is_some failed then (failed, cw') else rest
