-- ===== src/Internal/Utf8/Stream.antt =====
-- The streaming checker accepts a stream exactly if it is UTF-8 as a whole (internal/utf8.go).
use gopenpgp.Base.{
  ℕ, zero, suc, ◌-◌, ◌≤◌, ◌<◌, Bool, true, false, not, ◌&&◌, Option, none, some, [], ◌∷◌, ◌++◌,
  Bytes, length, take, drop, ◌≡◌, ◌≢◌, refl, sym, ◌∙◌, ap, arith, ltb, length-append,
  take-append-drop, is_cons, if◌then◌else◌, Bool-cases, inl, inr, subst, append_assoc, Error,
  incorrect_utf8,
}
use gopenpgp.Internal.Utf8.{
  decode_size, can_overlap, valid, check, check_rest, check_overflow, max_rune_size,
}
use gopenpgp.Internal.Utf8.Decode.{
  decode_size_bounds, decode_size-append, decode_size-front, decode_size-long,
}
use gopenpgp.Internal.Utf8.Whole.{
  Splits, Splits.done, Splits.step, IsUtf8, Splits-trans, drop-append, Verdict, Verdict.yes,
  Verdict.no, valid_lem,
}

-- What `check` must answer when the stream since the last full rune is `p`: a short overflow that starts
-- with no rune, or an error if nothing behind `p` makes it UTF-8.
pub data Answer (p : Bytes) : Bytes × Option Error → Type 0 where
  keep : (o : Bytes) → Splits p o → decode_size o ≡ none → length o < 4 → Answer p (o, none)
  reject : (o : Bytes) → ((q : Bytes) → ¬ IsUtf8 (p ++ q)) → Answer p (o, some incorrect_utf8)

pub none-some : {k : ℕ} → none ≡ some k → ⊥
none-some x = cc

-- The runes of a well-formed text are determined: taking one off leaves a well-formed text.
IsUtf8-drop : (p : Bytes) (k : ℕ) → decode_size p ≡ some k → IsUtf8 p → IsUtf8 (drop k p)
unfolding decode_size
IsUtf8-drop p k h (done e) = absurd (none-some (ap decode_size (sym e) ∙ h))
IsUtf8-drop p k h (step j e s) = subst (λ x. IsUtf8 (drop x p)) (same (sym e ∙ h)) s
  where
    same : some j ≡ some k → j ≡ k
    same x = cc

-- So are the runes at the front of one.
pub IsUtf8-Splits : (p r q : Bytes) → Splits p r → IsUtf8 (p ++ q) → IsUtf8 (r ++ q)
IsUtf8-Splits p r q (done h) u = subst (λ x. IsUtf8 (x ++ q)) h u
IsUtf8-Splits p r q (step k h s) u = IsUtf8-Splits (drop k p) r q s (
    subst IsUtf8 (drop-append k p q (decode_size_bounds p k h).2)
      (IsUtf8-drop (p ++ q) k (decode_size-append p q k h) u))

-- Four bytes that start with no rune are not the front of a well-formed text.
pub not-IsUtf8 : (p q : Bytes) → decode_size p ≡ none → 4 ≤ length p → ¬ IsUtf8 (p ++ q)
not-IsUtf8 p q h l (done e) = omega (arith, length-append p q, ap length e)
not-IsUtf8 p q h l (step k e s) = none-some (sym h ∙ sym (decode_size-long p q l) ∙ e)

Answer-Splits : {p r : Bytes} {a : Bytes × Option Error} → Splits p r → Answer r a → Answer p a
Answer-Splits {p = p} {r = r} s (keep o t d l) = keep o (Splits-trans s t) d l
Answer-Splits {p = p} {r = r} s (reject o n) = reject o (λ q u. n q (IsUtf8-Splits p r q s u))

Answer_nothing : {p : Bytes} → IsUtf8 p → Answer p ([], none)
unfolding decode_size
Answer_nothing u = keep [] u refl (omega arith)

-- What `check_rest` does with the answer of `valid`.
abbrev finish : Bool × Bytes → Bytes × Option Error
finish (is_valid, rest) =
    if not is_valid && is_cons rest
    then (rest, none)
    else if not is_valid
    then ([], some incorrect_utf8)
    else ([], none)

finish_rest :
    (p r : Bytes)
    → Splits p r
    → r ≢ []
    → decode_size r ≡ none
    → Answer p (finish (false, can_overlap r))
unfolding can_overlap
finish_rest p [] s n d = absurd (n refl)
finish_rest p (c ∷ r) s n d = elim (Bool-cases (ltb (length (c ∷ r)) max_rune_size)) [
  | inl h ↦ rw h (keep (c ∷ r) s d (ground arith))
  | inr h ↦
      rw h
        (reject [] (λ q u. not-IsUtf8 (c ∷ r) q d (ground arith) (IsUtf8-Splits p (c ∷ r) q s u)))
]

finish_lem : (p : Bytes) (v : Bool × Bytes) → Verdict p v → Answer p (finish v)
finish_lem p _ (yes u) = Answer_nothing u
finish_lem p _ (no r s n d) = finish_rest p r s n d

check_rest_lem : (p : Bytes) → Answer p (check_rest p)
unfolding check_rest
check_rest_lem [] = Answer_nothing (done refl)
check_rest_lem (c ∷ s) = finish_lem (c ∷ s) (valid (c ∷ s)) (valid_lem (c ∷ s))

drop-append_long : (k : ℕ) (o p : Bytes) → length o ≤ k → drop k (o ++ p) ≡ drop (k - length o) p
drop-append_long k [] p h = ap (λ n. drop n p) (omega arith)
drop-append_long zero (c ∷ o) p h = absurd (omega arith)
drop-append_long (suc k) (c ∷ o) p h =
    drop-append_long k o p (omega arith) ∙ ap (λ n. drop n p) (omega arith)

take_all : (k : ℕ) (p : Bytes) → length (take k p) < k → take k p ≡ p
take_all zero p h = absurd (omega arith)
take_all (suc k) [] h = refl
take_all (suc k) (c ∷ p) h = ap (λ (t : Bytes). c ∷ t) (take_all k p (omega arith))

module _ (o p : Bytes) (stuck : decode_size o ≡ none) (short : length o < 4) where
  -- The buffer, filled up.
  abbrev copied : Bytes
  copied = take (4 - length o) p

  split_copied : (o ++ copied) ++ drop (4 - length o) p ≡ o ++ p
  split_copied = rw (append_assoc, take-append-drop (4 - length o) p)

  -- The rune in the buffer ends behind the overflow.
  found_rune :
      (size : ℕ)
      → decode_size (o ++ copied) ≡ some size
      → Answer (o ++ p) (check_rest (drop (length copied - (length (o ++ copied) - size)) p))
  found_rune size e =
      let (l0, l1, l2) = decode_size_bounds (o ++ copied) size e in
      let e' =
        subst (λ x. decode_size x ≡ some size) split_copied
          (decode_size-append (o ++ copied) (drop (4 - length o) p) size e) in
      Answer-Splits
        (step size e' (
          done (
            drop-append_long size o p (lt_is_le (not_inside size e'))
            ∙ ap (λ k. drop k p) (sym (amount_lem size (not_inside size e') l2)))))
        (check_rest_lem (drop (length copied - (length (o ++ copied) - size)) p))
    where
      not_inside : (size : ℕ) → decode_size (o ++ p) ≡ some size → length o < size
      not_inside size e = elim (Bool-cases (ltb (length o) size)) [
        | inl h ↦ ground arith
        | inr h ↦ absurd (none-some (sym stuck ∙ decode_size-front o p size e (ground arith)))
      ]

      lt_is_le : {a b : ℕ} → a < b → a ≤ b
      lt_is_le h = omega arith

      amount_lem :
          (size : ℕ)
          → length o < size
          → size ≤ length (o ++ copied)
          → length copied - (length (o ++ copied) - size) ≡ size - length o
      amount_lem size b l = omega (arith, length-append o copied)

  no_rune :
      decode_size (o ++ copied) ≡ none
      → Answer (o ++ p) (
          if ltb (length (o ++ copied)) max_rune_size
          then (o ++ copied, none)
          else (o ++ copied, some incorrect_utf8))
  no_rune e = elim (Bool-cases (ltb (length (o ++ copied)) max_rune_size)) [
    | inl h ↦ rw h (
        keep (o ++ copied) (done (sym (ap (λ x. o ++ x) (take_all (4 - length o) p (room h))))) e
          (ground arith))
    | inr h ↦ rw h (
        reject (o ++ copied) (λ q u. not-IsUtf8 (o ++ copied) (left ++ q) e (ground arith) (
          subst IsUtf8 (ap (λ x. x ++ q) (sym split_copied) ∙ append_assoc (o ++ copied) left q)
            u)))
  ]
    where
      left : Bytes
      left = drop (4 - length o) p

      room : ltb (length (o ++ copied)) max_rune_size ≡ true → length copied < 4 - length o
      room h = ground (arith, length-append o copied)

-- One call of `check` answers for the stream since the last full rune.
pub check_lem : (o p : Bytes) → decode_size o ≡ none → length o < 4 → Answer (o ++ p) (check o p)
unfolding check check_overflow
check_lem [] p stuck short = check_rest_lem p
check_lem (c ∷ o) p stuck short = by_rune (decode_size filled) refl
  where
    filled : Bytes
    filled = (c ∷ o) ++ take (4 - length (c ∷ o)) p

    by_rune :
        (r : Option ℕ)
        → decode_size filled ≡ r
        → Answer ((c ∷ o) ++ p) (elim r as (λ _. Bytes × Option Error) [
          | none ↦
              if ltb (length filled) max_rune_size
              then (filled, none)
              else (filled, some incorrect_utf8)
          | some size ↦
              check_rest (drop (length (take (4 - length (c ∷ o)) p) - (length filled - size)) p)
        ])
    by_rune none e = no_rune (c ∷ o) p stuck short e
    by_rune (some size) e = found_rune (c ∷ o) p stuck short size e
