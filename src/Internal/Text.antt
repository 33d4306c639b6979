-- ===== src/Internal/Text.antt =====
-- internal/common.go: line endings and trailing white space. `replace_all`, `split`, `join` and
-- `trim_right` are the functions of Go's packages `bytes` and `strings`, over bytes.
pub mod Lines
pub mod Trim
mod Tests
use gopenpgp.Base.{
  ℕ, zero, suc, Bool, true, false, ◌&&◌, ◌||◌, List, [], ◌∷◌, ◌++◌, map, Bytes, length, drop, ◌==◌,
  if◌then◌else◌,
}

abbrev pub cr : ℕ
cr = 13

abbrev pub lf : ℕ
lf = 10

pub starts_with : Bytes → Bytes → Bool
starts_with [] s = true
starts_with (p ∷ ps) [] = false
starts_with (p ∷ ps) (c ∷ s) = (p == c) && starts_with ps s

-- Replaces from the left, a round for each byte or match; `replace_all` gives fuel enough.
pub replace_loop : ℕ → Bytes → Bytes → Bytes → Bytes
unfolding starts_with
replace_loop zero old new s = s
replace_loop (suc f) old new [] = []
replace_loop (suc f) old new (c ∷ s) =
    let found = new ++ replace_loop f old new (drop (length old) (c ∷ s)) in
    let skip = c ∷ replace_loop f old new s in if starts_with old (c ∷ s) then found else skip

-- `bytes.ReplaceAll` for an `old` that is not empty.
pub replace_all : Bytes → Bytes → Bytes → Bytes
unfolding replace_loop
replace_all s old new = replace_loop (length s) old new s

-- `nl` and `rnl`
abbrev pub nl : Bytes
nl = lf ∷ []

abbrev pub rnl : Bytes
rnl = cr ∷ lf ∷ []

pub canonicalize_bytes : Bytes → Bytes
unfolding replace_all
canonicalize_bytes text = replace_all (replace_all text rnl nl) nl rnl

-- Canonicalize is the same on a string's bytes.
pub canonicalize : Bytes → Bytes
unfolding replace_all
canonicalize text = replace_all (replace_all text rnl nl) nl rnl

-- The line that is being read stands in front of the lines behind it.
pub put : ℕ → List Bytes → List Bytes
put c [] = (c ∷ []) ∷ []
put c (l ∷ ls) = (c ∷ l) ∷ ls

-- `bytes.Split(s, "\n")`
pub split : Bytes → List Bytes
unfolding put
split [] = [] ∷ []
split (c ∷ s) = let rest = split s in if c == lf then [] ∷ rest else put c rest

-- `bytes.Join(lines, "\n")`
pub join : List Bytes → Bytes
join [] = []
join (l ∷ []) = l
join (l ∷ m ∷ ls) = l ++ lf ∷ join (m ∷ ls)

-- In the cutset " \t\r".
pub is_blank : ℕ → Bool
is_blank c = c == 32 || c == 9 || c == cr

pub prepend_kept : ℕ → Bytes → Bytes
unfolding is_blank
prepend_kept c [] = if is_blank c then [] else c ∷ []
prepend_kept c (d ∷ s) = c ∷ d ∷ s

-- `bytes.TrimRight(line, " \t\r")`
pub trim_right : Bytes → Bytes
unfolding prepend_kept
trim_right [] = []
trim_right (c ∷ s) = prepend_kept c (trim_right s)

pub trim_lines : List Bytes → List Bytes
trim_lines [] = []
trim_lines (l ∷ ls) = trim_right l ∷ trim_lines ls

pub trim_each_line_bytes : Bytes → Bytes
unfolding split join trim_right trim_lines
trim_each_line_bytes text = join (trim_lines (split text))
