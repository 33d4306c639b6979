-- ===== src/Internal/Text/Trim.antt =====
-- TrimEachLineBytes line by line (internal/common.go).
use gopenpgp.Base.{
  ℕ, true, false, some, List, [], ◌∷◌, ◌++◌, Bytes, ◌==◌, ◌≡◌, ◌≢◌, refl, sym, ap, ◌∙◌, arith, All,
  get_last?, Bool-cases, inl, inr, append-nil,
}
use gopenpgp.Internal.Text.{
  lf, put, split, join, is_blank, prepend_kept, trim_right, trim_lines, trim_each_line_bytes,
}

abbrev pub LacksLf : Bytes → Type 0
LacksLf = All (λ c. (c == lf) ≡ false)

-- `t` is the line `l` without its trailing white space.
abbrev pub IsTrimmed : Bytes → Bytes → Type 0
IsTrimmed l t =
    (blanks : Bytes) × (l ≡ t ++ blanks)
    × All (λ c. is_blank c ≡ true) blanks
    × ((c : ℕ) → get_last? t ≡ some c → is_blank c ≡ false)

abbrev pub AllTrimmed : List Bytes → List Bytes → Type 0
AllTrimmed [] [] = Unit
AllTrimmed [] (t ∷ ts) = ⊥
AllTrimmed (l ∷ ls) [] = ⊥
AllTrimmed (l ∷ ls) (t ∷ ts) = IsTrimmed l t × AllTrimmed ls ts

prepend_kept-IsTrimmed :
    (c : ℕ) (s t : Bytes) → IsTrimmed s t → IsTrimmed (c ∷ s) (prepend_kept c t)
unfolding prepend_kept
prepend_kept-IsTrimmed c s [] (b, e, h, n) = elim (Bool-cases (is_blank c)) [
  | inl k ↦ rw k (c ∷ b, ap (λ (l : Bytes). c ∷ l) e, (k, h), λ d q. ground arith)
  | inr k ↦ rw k (b, ap (λ (l : Bytes). c ∷ l) e, h, λ d q. ground arith)
]
prepend_kept-IsTrimmed c s (d ∷ t) (b, e, h, n) = (b, ap (λ (l : Bytes). c ∷ l) e, h, n)

trim_right-IsTrimmed : (l : Bytes) → IsTrimmed l (trim_right l)
unfolding trim_right
trim_right-IsTrimmed [] = ([], refl, tt, λ c q. ground arith)
trim_right-IsTrimmed (c ∷ l) = prepend_kept-IsTrimmed c l (trim_right l) (trim_right-IsTrimmed l)

trim_lines-AllTrimmed : (ls : List Bytes) → AllTrimmed ls (trim_lines ls)
unfolding trim_lines
trim_lines-AllTrimmed [] = tt
trim_lines-AllTrimmed (l ∷ ls) = (trim_right-IsTrimmed l, trim_lines-AllTrimmed ls)

prepend_kept-LacksLf :
    (c : ℕ) (t : Bytes) → (c == lf) ≡ false → LacksLf t → LacksLf (prepend_kept c t)
unfolding prepend_kept
prepend_kept-LacksLf c [] n h = ground arith
prepend_kept-LacksLf c (d ∷ t) n h = (n, h)

trim_right-LacksLf : (l : Bytes) → LacksLf l → LacksLf (trim_right l)
unfolding trim_right
trim_right-LacksLf [] h = tt
trim_right-LacksLf (c ∷ l) (hc, hl) =
    prepend_kept-LacksLf c (trim_right l) hc (trim_right-LacksLf l hl)

trim_lines-LacksLf : (ls : List Bytes) → All LacksLf ls → All LacksLf (trim_lines ls)
unfolding trim_lines
trim_lines-LacksLf [] h = tt
trim_lines-LacksLf (l ∷ ls) (hl, hs) = (trim_right-LacksLf l hl, trim_lines-LacksLf ls hs)

put-LacksLf :
    (c : ℕ) (ls : List Bytes) → (c == lf) ≡ false → All LacksLf ls → All LacksLf (put c ls)
unfolding put
put-LacksLf c [] n h = ((n, tt), tt)
put-LacksLf c (l ∷ ls) n (hl, hs) = ((n, hl), hs)

split-LacksLf : (s : Bytes) → All LacksLf (split s)
unfolding split
split-LacksLf [] = (tt, tt)
split-LacksLf (c ∷ s) = elim (Bool-cases (c == lf)) [
  | inl e ↦ rw e (tt, split-LacksLf s)
  | inr e ↦ rw e (put-LacksLf c (split s) e (split-LacksLf s))
]

put-split : (c : ℕ) (s : Bytes) → (c == lf) ≡ false → split (c ∷ s) ≡ put c (split s)
unfolding split
put-split c s n = rw n

-- A line without LF stands in front of a text whose lines are known.
split-append :
    (l rest : Bytes) (ls : List Bytes)
    → LacksLf l
    → split rest ≡ [] ∷ ls
    → split (l ++ rest) ≡ l ∷ ls
split-append [] rest ls h e = e
split-append (c ∷ l) rest ls (hc, hl) e =
    put-split c (l ++ rest) hc ∙ ap (put c) (split-append l rest ls hl e) ∙ unfold put in refl

split-lf : (s : Bytes) → split (lf ∷ s) ≡ [] ∷ split s
unfolding split
split-lf s = refl

split-join : (ls : List Bytes) → ls ≢ [] → All LacksLf ls → split (join ls) ≡ ls
unfolding join
split-join [] n h = absurd (n refl)
split-join (l ∷ []) n (hl, hs) =
    ap split (sym (append-nil l)) ∙ split-append l [] [] hl (unfold split in refl)
split-join (l ∷ m ∷ ls) n (hl, hs) = split-append l (lf ∷ join (m ∷ ls)) (m ∷ ls) hl (
    split-lf (join (m ∷ ls))
    ∙ ap (λ (r : List Bytes). [] ∷ r) (split-join (m ∷ ls) (λ q. ground arith) hs))

split-ne-nil : (s : Bytes) → split s ≢ []
unfolding split put
split-ne-nil [] h = ground arith
split-ne-nil (c ∷ s) h = ground (arith, split-ne-nil s)

trim_lines-ne-nil : (ls : List Bytes) → ls ≢ [] → trim_lines ls ≢ []
unfolding trim_lines
trim_lines-ne-nil [] n h = n refl
trim_lines-ne-nil (l ∷ ls) n h = ground arith

split-trim_each_line : (s : Bytes) → split (trim_each_line_bytes s) ≡ trim_lines (split s)
unfolding trim_each_line_bytes
split-trim_each_line s =
    split-join (trim_lines (split s)) (trim_lines-ne-nil (split s) (split-ne-nil s))
      (trim_lines-LacksLf (split s) (split-LacksLf s))

-- The trimmed text has as many lines as the text, and each is the line at its place without its
-- trailing spaces, tabs and CRs.
pub trim_each_line-AllTrimmed : (s : Bytes) → AllTrimmed (split s) (split (trim_each_line_bytes s))
trim_each_line-AllTrimmed s = rw split-trim_each_line (trim_lines-AllTrimmed (split s))

prepend_kept_lem :
    (c : ℕ) (t : Bytes) → trim_right t ≡ t → trim_right (prepend_kept c t) ≡ prepend_kept c t
unfolding trim_right prepend_kept
prepend_kept_lem c [] h = ground arith
prepend_kept_lem c (d ∷ t) h = ap (prepend_kept c) h

trim_right-trim_right : (l : Bytes) → trim_right (trim_right l) ≡ trim_right l
unfolding trim_right
trim_right-trim_right [] = refl
trim_right-trim_right (c ∷ l) = prepend_kept_lem c (trim_right l) (trim_right-trim_right l)

trim_lines-trim_lines : (ls : List Bytes) → trim_lines (trim_lines ls) ≡ trim_lines ls
unfolding trim_lines
trim_lines-trim_lines [] = refl
trim_lines-trim_lines (l ∷ ls) = rw (trim_right-trim_right l, trim_lines-trim_lines ls)

trim_each_line_step : (s : Bytes) → trim_each_line_bytes s ≡ join (trim_lines (split s))
unfolding trim_each_line_bytes
trim_each_line_step s = refl

-- TrimEachLineBytes is idempotent.
pub trim-trim : (s : Bytes) → trim_each_line_bytes (trim_each_line_bytes s) ≡ trim_each_line_bytes s
trim-trim s =
    trim_each_line_step (trim_each_line_bytes s)
    ∙ ap (λ (ls : List Bytes). join (trim_lines ls)) (split-trim_each_line s)
    ∙ ap join (trim_lines-trim_lines (split s))
    ∙ sym (trim_each_line_step s)
