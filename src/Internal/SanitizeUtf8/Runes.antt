-- ===== src/Internal/SanitizeUtf8/Runes.antt =====
-- What a `sanitizeUtf8Reader` gives is UTF-8 (internal/sanitize_string.go).
use gopenpgp.Base.{
  ℕ, zero, suc, ◌-◌, ◌≤◌, Bool, true, false, ◌&&◌, Option, none, some, List, [], ◌∷◌, ◌++◌, Bytes,
  Error, Result, ok, err, panic, length, take, drop, take-append-drop, length-take, ltb, leb,
  Ensures, if◌then◌else◌, ◌≡◌, refl, sym, ◌∙◌, ap, subst, arith, append-nil, append_assoc,
}
use gopenpgp.Internal.Reader.{Read}
use gopenpgp.Internal.Utf8.{decode_size}
use gopenpgp.Internal.Utf8.Decode.{decode_size_bounds, decode_size-front}
use gopenpgp.Internal.Utf8.Whole.{done, step, IsUtf8, Splits-trans, Splits-append}
use gopenpgp.Internal.SanitizeUtf8.{
  BufferedReader, SanitizeUtf8Reader, new_sanitize_utf8_reader, replacement, same_bytes,
  decode_rune, read_failure, await_rune, next_rune, read_rune, put_rune, on_rune, rune_loop,
  rest_of, read_text, then_reads, text_reads,
}

IsUtf8-append : (p q : Bytes) → IsUtf8 p → IsUtf8 q → IsUtf8 (p ++ q)
IsUtf8-append p q hp hq = Splits-trans (Splits-append q hp) hq

drop-take : (k : ℕ) (p : Bytes) → drop k (take k p) ≡ []
drop-take zero p = refl
drop-take (suc k) [] = refl
drop-take (suc k) (c ∷ p) = drop-take k p

replacement-IsUtf8 : IsUtf8 replacement
unfolding decode_size
replacement-IsUtf8 = step 3 refl (done refl)

take-IsUtf8 : (p : Bytes) (k : ℕ) → decode_size p ≡ some k → IsUtf8 (take k p)
take-IsUtf8 p k h =
    step k
      (decode_size-front (take k p) (drop k p) k (rw (take-append-drop k p) h)
        (omega (arith, length-take k p, decode_size_bounds p k h)))
      (done (drop-take k p))

decode_rune-IsUtf8 : (p : Bytes) → IsUtf8 (decode_rune p).0
unfolding decode_rune
decode_rune-IsUtf8 p = by_size (decode_size p) refl
  where
    by_size : (o : Option ℕ) → decode_size p ≡ o → IsUtf8 (decode_rune p).0
    by_size none h = rw (h, decode_rune) replacement-IsUtf8
    by_size (some k) h = rw (h, decode_rune) (take-IsUtf8 p k h)

read_failure-IsUtf8 : (o : Option Error) → Ensures IsUtf8 (read_failure o)
unfolding read_failure
read_failure-IsUtf8 none = tt
read_failure-IsUtf8 (some e) = tt

take-short : (k : ℕ) (p : Bytes) → ltb k (length p) ≡ false → take k p ≡ p
take-short zero [] h = refl
take-short zero (c ∷ p) h = absurd (ground arith)
take-short (suc k) [] h = refl
take-short (suc k) (c ∷ p) h = ap (λ q. c ∷ q) (take-short k p (ground arith))

ltb_lem : (k n : ℕ) → ltb k n ≡ true → k ≤ n
ltb_lem k n h = ground arith

module _ {S : Type 0} (upstream : Read S) where
  next_rune-IsUtf8 : (b : BufferedReader S) (p : Bytes) → Ensures IsUtf8 (next_rune upstream b p).0
  unfolding next_rune
  next_rune-IsUtf8 b [] = read_failure-IsUtf8 b.failure
  next_rune-IsUtf8 b (c ∷ p) = decode_rune-IsUtf8 (c ∷ p)

  read_rune-IsUtf8 : (b : BufferedReader S) → Ensures IsUtf8 (read_rune upstream b).0
  unfolding read_rune
  read_rune-IsUtf8 b = next_rune-IsUtf8 (await_rune upstream 4 b) (await_rune upstream 4 b).buffer

  abbrev pub reminder_bytes : SanitizeUtf8Reader S → Bytes
  reminder_bytes sr = elim sr.reminder [ none ↦ [] | some p ↦ p ]

  -- What was given and what is still to be given make up whole runes, behind `before`.
  abbrev IsText : Bytes → Option (Bytes × Option Error × SanitizeUtf8Reader S) → Type 0
  IsText before none = Unit
  IsText before (some (b, e, sr)) = IsUtf8 (before ++ (b ++ reminder_bytes sr))

  if_lem :
      (b : Bool) (x y : Option (Bytes × Option Error × SanitizeUtf8Reader S))
      → IsText [] x
      → IsText [] y
      → IsText [] (if b then x else y)
  if_lem true x y hx hy = hx
  if_lem false x y hx hy = hy

  put_lem :
      (before rune : Bytes) (o : Option (Bytes × Option Error × SanitizeUtf8Reader S))
      → IsUtf8 (before ++ rune)
      → IsText [] o
      → IsText before (put_rune upstream rune o)
  unfolding put_rune
  put_lem before rune none u h = tt
  put_lem before rune (some (b, e, sr)) u h =
      subst IsUtf8
        (append_assoc before rune (b ++ reminder_bytes sr)
          ∙ ap (λ t. before ++ t) (sym (append_assoc rune b (reminder_bytes sr))))
        (IsUtf8-append (before ++ rune) (b ++ reminder_bytes sr) u h)

  on_rune_lem :
      (sr : SanitizeUtf8Reader S) (room : ℕ)
      (go_on : SanitizeUtf8Reader S → ℕ → Option (Bytes × Option Error × SanitizeUtf8Reader S))
      → sr.reminder ≡ none
      → ((sr' : SanitizeUtf8Reader S) (room' : ℕ)
          → sr'.reminder ≡ none
          → IsText [] (go_on sr' room'))
      → (x : Result Bytes × BufferedReader S) → Ensures IsUtf8 x.0
      → IsText [] (on_rune upstream sr room go_on x)
  unfolding on_rune
  on_rune_lem sr room go_on clear ih (err e, r) u = rw clear (done refl)
  on_rune_lem sr room go_on clear ih (panic, r) u = tt
  on_rune_lem sr room go_on clear ih (ok rune, r) u =
      let invalid = same_bytes rune replacement in
      let sr' : SanitizeUtf8Reader S = record sr { r = r; last_rune_invalid = invalid } in
      if_lem (invalid && sr.last_rune_invalid) _ _ (ih sr' room clear) (
        if_lem (leb (length rune) room) _ _
          (put_lem [] rune (go_on sr' (room - length rune)) u (ih sr' (room - length rune) clear))
          (subst IsUtf8 (sym (take-append-drop room rune)) u))

  loop_lem :
      (n : ℕ) (sr : SanitizeUtf8Reader S) (room : ℕ)
      → sr.reminder ≡ none
      → IsText [] (rune_loop upstream n sr room)
  unfolding rune_loop
  loop_lem zero sr room clear = tt
  loop_lem (suc n) sr zero clear = rw clear (done refl)
  loop_lem (suc n) sr (suc room) clear =
      on_rune_lem sr (suc room) (rune_loop upstream n) clear (loop_lem n) (read_rune upstream sr.r)
        (read_rune-IsUtf8 sr.r)

  behind :
      (before : Bytes) (o : Option (Bytes × Option Error × SanitizeUtf8Reader S))
      → IsUtf8 before
      → IsText [] o
      → IsText before o
  behind before none u h = tt
  behind before (some (b, e, sr)) u h = IsUtf8-append before (b ++ reminder_bytes sr) u h

  -- The caller's buffer is filled by the reminder alone.
  filled_lem :
      (before p : Bytes) (n k : ℕ) (sr : SanitizeUtf8Reader S)
      → IsUtf8 (before ++ p)
      → IsText before (
          put_rune upstream
            (take k p)
            (rune_loop upstream n (record sr { reminder = some (drop k p) }) 0))
  unfolding rune_loop put_rune
  filled_lem before p zero k sr u = tt
  filled_lem before p (suc n) k sr u =
      subst (λ t. IsUtf8 (before ++ t))
        (sym (ap (λ t. t ++ drop k p) (append-nil (take k p)) ∙ take-append-drop k p)) u

  copied_lem :
      (before p : Bytes) (n k : ℕ) (sr : SanitizeUtf8Reader S) (b : Bool)
      → ltb k (length p) ≡ b
      → IsUtf8 (before ++ p)
      → IsText before (
          put_rune upstream (take k p) (
            rune_loop upstream n
              (record sr { reminder = if b then some (drop k p) else none })
              (k - length (take k p))))
  copied_lem before p n k sr true h u =
      subst
        (λ room. IsText before (
          put_rune upstream (take k p)
            (rune_loop upstream n (record sr { reminder = some (drop k p) }) room)))
        (omega (arith, length-take k p, ltb_lem k (length p) h)) (filled_lem before p n k sr u)
  copied_lem before p n k sr false h u =
      put_lem before (take k p) _ (subst (λ q. IsUtf8 (before ++ q)) (sym (take-short k p h)) u)
        (loop_lem n (record sr { reminder = none }) (k - length (take k p)) refl)

  read_lem :
      (before : Bytes) (n : ℕ) (sr : SanitizeUtf8Reader S) (k : ℕ)
      → IsUtf8 (before ++ reminder_bytes sr)
      → IsText before (read_text upstream n sr k)
  unfolding read_text rest_of
  read_lem before n sr k u = by_reminder sr.reminder refl u
    where
      by_reminder :
          (o : Option Bytes)
          → sr.reminder ≡ o
          → IsUtf8 (before ++ (elim o [ none ↦ [] | some p ↦ p ]))
          → IsText before (elim o [
            | none ↦ rune_loop upstream n sr k
            | some p ↦ put_rune upstream (take k p) (
                rune_loop upstream n
                  (record sr { reminder = if ltb k (length p) then some (drop k p) else none })
                  (k - length (take k p)))
          ])
      by_reminder none clear u' =
          behind before (rune_loop upstream n sr k) (subst IsUtf8 (append-nil before) u')
            (loop_lem n sr k clear)
      by_reminder (some p) is_p u' = copied_lem before p n k sr (ltb k (length p)) refl u'

  abbrev pub IsRun : Bytes → Option (Bytes × SanitizeUtf8Reader S) → Type 0
  IsRun before none = Unit
  IsRun before (some (b, sr)) = IsUtf8 (before ++ (b ++ reminder_bytes sr))

  runs_lem :
      (n : ℕ) (ks : List ℕ) (before : Bytes) (sr : SanitizeUtf8Reader S)
      → IsUtf8 (before ++ reminder_bytes sr)
      → IsRun before (text_reads upstream n ks sr)
  unfolding text_reads
  runs_lem n [] before sr u = u
  runs_lem n (k ∷ ks) before sr u =
      by_read (read_text upstream n sr k) (read_lem before n sr k u) (runs_lem n ks)
    where
      by_rest :
          (b : Bytes) (o : Option (Bytes × SanitizeUtf8Reader S))
          → IsRun (before ++ b) o
          → IsRun before (elim o [ none ↦ none | some (b', sr') ↦ some (b ++ b', sr') ])
      by_rest b none h = tt
      by_rest b (some (b', sr')) h =
          subst IsUtf8
            (append_assoc before b (b' ++ reminder_bytes sr')
              ∙ ap (λ t. before ++ t) (sym (append_assoc b b' (reminder_bytes sr'))))
            h

      by_read :
          (o : Option (Bytes × Option Error × SanitizeUtf8Reader S))
          → IsText before o
          → ((before' : Bytes) (sr' : SanitizeUtf8Reader S)
              → IsUtf8 (before' ++ reminder_bytes sr')
              → IsRun before' (text_reads upstream n ks sr'))
          → IsRun before (then_reads upstream o (text_reads upstream n ks))
      by_read none h ih = tt
      by_read (some (b, e, sr')) h ih =
          by_rest b (text_reads upstream n ks sr') (
            ih (before ++ b) sr'
              (subst IsUtf8 (sym (append_assoc before b (reminder_bytes sr'))) h))

  -- A new reader is not in the middle of a rune.
  pub new_run_lem :
      (n : ℕ) (ks : List ℕ) (s : S)
      → IsRun [] (text_reads upstream n ks (new_sanitize_utf8_reader s))
  unfolding new_sanitize_utf8_reader
  new_run_lem n ks s = runs_lem n ks [] (new_sanitize_utf8_reader s) (done refl)
