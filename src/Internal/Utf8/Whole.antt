-- ===== src/Internal/Utf8/Whole.antt =====
-- `valid` against UTF-8 as sequences of well-formed runes (internal/utf8.go).
use gopenpgp.Base.{
  ℕ, zero, suc, ◌≤◌, Bool, true, false, ◌&&◌, Option, none, some, [], ◌∷◌, ◌++◌, Bytes, length,
  drop, ◌≡◌, ◌≢◌, refl, sym, ◌∙◌, ap, arith, ltb, length-drop, if◌then◌else◌, Bool-cases, inl, inr,
  subst,
}
use gopenpgp.Internal.Utf8.{decode_size, round, can_overlap, skip_ascii, valid_loop, valid}
use gopenpgp.Internal.Utf8.Decode.{round_lem, decode_size_bounds, decode_size-append}

-- `p` is a sequence of well-formed runes and `r` behind them.
pub data Splits : Bytes → Bytes → Type 0 where
  done : {p r : Bytes} → p ≡ r → Splits p r
  step : {p r : Bytes} (k : ℕ) → decode_size p ≡ some k → Splits (drop k p) r → Splits p r

-- Well-formed UTF-8.
abbrev pub IsUtf8 : Bytes → Type 0
IsUtf8 p = Splits p []

pub Splits-trans : {p q r : Bytes} → Splits p q → Splits q r → Splits p r
Splits-trans {r = r} (done h) t = subst (λ x. Splits x r) (sym h) t
Splits-trans (step k h s) t = step k h (Splits-trans s t)

pub drop-append : (k : ℕ) (p q : Bytes) → k ≤ length p → drop k (p ++ q) ≡ drop k p ++ q
drop-append zero p q h = refl
drop-append (suc k) [] q h = absurd (omega arith)
drop-append (suc k) (x ∷ p) q h = drop-append k p q (omega arith)

pub Splits-append : {p r : Bytes} (q : Bytes) → Splits p r → Splits (p ++ q) (r ++ q)
Splits-append q (done h) = done (ap (λ x. x ++ q) h)
Splits-append {p = p} {r = r} q (step k h s) = step k (decode_size-append p q k h) (
    subst (λ x. Splits x (r ++ q)) (sym (drop-append k p q (decode_size_bounds p k h).2))
      (Splits-append q s))

decode_size-ascii : (c : ℕ) (s : Bytes) → ltb c 0x80 ≡ true → decode_size (c ∷ s) ≡ some 1
unfolding decode_size
decode_size-ascii c s h = ground arith

ascii_step : (c : ℕ) (s r : Bytes) → ltb c 0x80 ≡ true → Splits s r → Splits (c ∷ s) r
ascii_step c s r h t = step 1 (decode_size-ascii c s h) t

both : (a b : Bool) → (a && b) ≡ true → (a ≡ true) × (b ≡ true)
both true b h = (refl, h)
both false b h = absurd (ground arith)

module _ (a b c d e f g h : ℕ) (s r : Bytes) (ih : Splits s r) where
  -- None of the eight bytes has its top bit set.
  abbrev are_ascii : Bool
  are_ascii =
      ltb a 0x80
      && (ltb b 0x80
          && (ltb c 0x80
              && (ltb d 0x80 && (ltb e 0x80 && (ltb f 0x80 && (ltb g 0x80 && ltb h 0x80))))))

  ascii_steps : are_ascii ≡ true → Splits (a ∷ b ∷ c ∷ d ∷ e ∷ f ∷ g ∷ h ∷ s) r
  ascii_steps t =
      let (ta, t1) = both (ltb a 0x80) _ t in
      let (tb, t2) = both (ltb b 0x80) _ t1 in
      let (tc, t3) = both (ltb c 0x80) _ t2 in
      let (td, t4) = both (ltb d 0x80) _ t3 in
      let (te, t5) = both (ltb e 0x80) _ t4 in
      let (tf, t6) = both (ltb f 0x80) _ t5 in
      let (tg, th) = both (ltb g 0x80) _ t6 in
      ascii_step a _ _ ta (
        ascii_step b _ _ tb (
          ascii_step c _ _ tc (
            ascii_step d _ _ td (
              ascii_step e _ _ te
                (ascii_step f _ _ tf (ascii_step g _ _ tg (ascii_step h _ _ th ih)))))))

  ascii_eight :
      Splits
        (a ∷ b ∷ c ∷ d ∷ e ∷ f ∷ g ∷ h ∷ s)
        (if are_ascii then r else a ∷ b ∷ c ∷ d ∷ e ∷ f ∷ g ∷ h ∷ s)
  ascii_eight = elim (Bool-cases are_ascii) [
    | inl t ↦ rw t (ascii_steps t)
    | inr t ↦ rw t (done refl)
  ]

-- Splitting off the ASCII front keeps the rest.
pub skip_ascii-Splits : (p : Bytes) → Splits p (skip_ascii p)
unfolding skip_ascii
skip_ascii-Splits [] = done refl
skip_ascii-Splits (a ∷ []) = done refl
skip_ascii-Splits (a ∷ b ∷ []) = done refl
skip_ascii-Splits (a ∷ b ∷ c ∷ []) = done refl
skip_ascii-Splits (a ∷ b ∷ c ∷ d ∷ []) = done refl
skip_ascii-Splits (a ∷ b ∷ c ∷ d ∷ e ∷ []) = done refl
skip_ascii-Splits (a ∷ b ∷ c ∷ d ∷ e ∷ f ∷ []) = done refl
skip_ascii-Splits (a ∷ b ∷ c ∷ d ∷ e ∷ f ∷ g ∷ []) = done refl
skip_ascii-Splits (a ∷ b ∷ c ∷ d ∷ e ∷ f ∷ g ∷ h ∷ s) =
    ascii_eight a b c d e f g h s (skip_ascii s) (skip_ascii-Splits s)

-- What `valid` may answer for `p`: yes, and `p` is well-formed, or no, with what could still become a
-- rune of a rest `r` that starts with none.
pub data Verdict (p : Bytes) : Bool × Bytes → Type 0 where
  yes : IsUtf8 p → Verdict p (true, [])
  no : (r : Bytes) → Splits p r → r ≢ [] → decode_size r ≡ none → Verdict p (false, can_overlap r)

Verdict-Splits : {p q : Bytes} {v : Bool × Bytes} → Splits p q → Verdict q v → Verdict p v
Verdict-Splits s (yes u) = yes (Splits-trans s u)
Verdict-Splits s (no r t n d) = no r (Splits-trans s t) n d

-- The loop behind a round with the answer `o`.
abbrev after : ℕ → ℕ → Bytes → Option ℕ → Bool × Bytes
after f c s none = (false, can_overlap (c ∷ s))
after f c s (some k) = valid_loop f (drop k (c ∷ s))

valid_loop-suc :
    (f c : ℕ) (s : Bytes) → valid_loop (suc f) (c ∷ s) ≡ after f c s (decode_size (c ∷ s))
unfolding valid_loop
valid_loop-suc f c s = by_answer (round c (c ∷ s)) ∙ ap (after f c s) (round_lem c s)
  where
    by_answer :
        (o : Option ℕ)
        → (elim o as (λ _. Bool × Bytes) [
          | none ↦ (false, can_overlap (c ∷ s))
          | some k ↦ valid_loop f (drop k (c ∷ s))
        ])
          ≡ after f c s o
    by_answer none = refl
    by_answer (some k) = refl

-- With a fuel of the number of bytes the loop looks at all of them.
valid_loop_lem : (fuel : ℕ) (p : Bytes) → length p ≤ fuel → Verdict p (valid_loop fuel p)
unfolding valid_loop
valid_loop_lem zero [] l = yes (done refl)
valid_loop_lem zero (c ∷ s) l = absurd (omega arith)
valid_loop_lem (suc f) [] l = yes (done refl)
valid_loop_lem (suc f) (c ∷ s) l = rw (valid_loop-suc f c s) (
    by_size (decode_size (c ∷ s)) refl
      (λ (k : ℕ) (b : length (drop k (c ∷ s)) ≤ f). valid_loop_lem f (drop k (c ∷ s)) b))
  where
    by_size :
        (o : Option ℕ)
        → decode_size (c ∷ s) ≡ o
        → ((k : ℕ)
            → length (drop k (c ∷ s)) ≤ f
            → Verdict (drop k (c ∷ s)) (valid_loop f (drop k (c ∷ s))))
        → Verdict (c ∷ s) (after f c s o)
    by_size none e ih = no (c ∷ s) (done refl) (λ h. cc) e
    by_size (some k) e ih =
        let (l0, l1, l2) = decode_size_bounds (c ∷ s) k e in
        Verdict-Splits (step k e (done refl)) (ih k (omega (arith, length-drop k (c ∷ s))))

pub valid_lem : (p : Bytes) → Verdict p (valid p)
unfolding valid
valid_lem p =
    Verdict-Splits (skip_ascii-Splits p)
      (valid_loop_lem (length (skip_ascii p)) (skip_ascii p) (omega arith))
