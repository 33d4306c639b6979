-- ===== src/Internal/Utf8/Decode.antt =====
-- How `decode_size` depends on its bytes, and that a round of `valid` computes it (internal/utf8.go).
use gopenpgp.Base.{ℕ, ◌≤◌, ◌<◌, some, [], ◌∷◌, ◌++◌, Bytes, length, ◌≡◌, ◌≢◌, refl, arith}
use gopenpgp.Internal.Utf8.{decode_size, first, accept_lo, accept_hi, round}

module _ (c d e f : ℕ) (s : Bytes) where
  -- The round on a front of four bytes or more.
  abbrev IsRight : Type 0
  IsRight = round c (c ∷ d ∷ e ∷ f ∷ s) ≡ decode_size (c ∷ d ∷ e ∷ f ∷ s)

  round_short : c ≤ 0xDF → IsRight
  unfolding round decode_size accept_lo accept_hi
  round_short h = ground arith

  round_e0 : c ≡ 0xE0 → IsRight
  unfolding round decode_size accept_lo accept_hi
  round_e0 h = rw h (ground arith)

  round_ed : c ≡ 0xED → IsRight
  unfolding round decode_size accept_lo accept_hi
  round_ed h = rw h (ground arith)

  first_three : 0xE0 < c → c ≤ 0xEF → c ≢ 0xED → first c ≡ 0x03
  unfolding first
  first_three l h n = ground arith

  round_three : 0xE0 < c → c ≤ 0xEF → c ≢ 0xED → IsRight
  unfolding round decode_size accept_lo accept_hi
  round_three l h n = ground arith

  round_f0 : c ≡ 0xF0 → IsRight
  unfolding round decode_size accept_lo accept_hi
  round_f0 h = rw h (ground arith)

  round_f4 : c ≡ 0xF4 → IsRight
  unfolding round decode_size accept_lo accept_hi
  round_f4 h = rw h (ground arith)

  round_long : 0xF4 < c → IsRight
  unfolding round decode_size accept_lo accept_hi
  round_long h = ground arith

  round_four : 0xF0 < c → c ≤ 0xF3 → IsRight
  unfolding round decode_size accept_lo accept_hi
  round_four l h = ground arith

round_of_four : (c d e f : ℕ) (s : Bytes) → IsRight c d e f s
round_of_four c d e f s = ground (
  arith,
  round_short c d e f s,
  round_e0 c d e f s,
  round_ed c d e f s,
  round_three c d e f s,
  round_f0 c d e f s,
  round_f4 c d e f s,
  round_four c d e f s,
  round_long c d e f s,
)

-- A round of the loop of `valid` finds the rune at the front exactly if there is one.
pub round_lem : (c : ℕ) (s : Bytes) → round c (c ∷ s) ≡ decode_size (c ∷ s)
unfolding round decode_size accept_lo accept_hi
round_lem c [] = ground arith
round_lem c (d ∷ []) = ground arith
round_lem c (d ∷ e ∷ []) = ground arith
round_lem c (d ∷ e ∷ f ∷ s) = round_of_four c d e f s

-- A rune has one to four bytes, all of which are there.
pub decode_size_bounds :
    (p : Bytes) (k : ℕ) → decode_size p ≡ some k → (0 < k) × (k ≤ 4) × (k ≤ length p)
unfolding decode_size
decode_size_bounds [] k h = ground arith
decode_size_bounds (c ∷ []) k h = ground arith
decode_size_bounds (c ∷ d ∷ []) k h = ground arith
decode_size_bounds (c ∷ d ∷ e ∷ []) k h = ground arith
decode_size_bounds (c ∷ d ∷ e ∷ f ∷ s) k h = ground arith

-- The size is read off the rune's own bytes: what stands behind them does not matter.
pub decode_size-append :
    (p q : Bytes) (k : ℕ) → decode_size p ≡ some k → decode_size (p ++ q) ≡ some k
unfolding decode_size
decode_size-append [] q k h = ground arith
decode_size-append (c ∷ []) q k h = ground arith
decode_size-append (c ∷ d ∷ []) q k h = ground arith
decode_size-append (c ∷ d ∷ e ∷ []) q k h = ground arith
decode_size-append (c ∷ d ∷ e ∷ f ∷ p) q k h = h

-- Nor do they where the rune is known to end in front of them.
pub decode_size-front :
    (p q : Bytes) (k : ℕ) → decode_size (p ++ q) ≡ some k → k ≤ length p → decode_size p ≡ some k
unfolding decode_size
decode_size-front [] q k h l = absurd (omega (arith, decode_size_bounds q k h))
decode_size-front (c ∷ []) q k h l = ground arith
decode_size-front (c ∷ d ∷ []) q k h l = ground arith
decode_size-front (c ∷ d ∷ e ∷ []) q k h l = ground arith
decode_size-front (c ∷ d ∷ e ∷ f ∷ p) q k h l = h

-- Four bytes decide.
pub decode_size-long : (p q : Bytes) → 4 ≤ length p → decode_size (p ++ q) ≡ decode_size p
unfolding decode_size
decode_size-long [] q h = absurd (omega arith)
decode_size-long (c ∷ []) q h = absurd (omega arith)
decode_size-long (c ∷ d ∷ []) q h = absurd (omega arith)
decode_size-long (c ∷ d ∷ e ∷ []) q h = absurd (omega arith)
decode_size-long (c ∷ d ∷ e ∷ f ∷ p) q h = refl
