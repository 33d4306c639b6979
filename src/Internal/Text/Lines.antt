-- ===== src/Internal/Text/Lines.antt =====
-- CanonicalizeBytes against a description of line endings (internal/common.go).
use gopenpgp.Base.{
  ℕ, zero, suc, Bool, true, false, [], ◌∷◌, Bytes, length, ◌==◌, ◌≡◌, refl, sym, ap, ◌∙◌, ◌≤◌,
  arith, if◌then◌else◌, Bool-cases, inl, inr,
}
use gopenpgp.Internal.Text.{cr, lf, nl, rnl, replace_loop, replace_all, canonicalize_bytes}

-- Every CR LF becomes LF. The flag says that a CR is held back.
unfoldable pub strip : Bool → Bytes → Bytes
strip false [] = []
strip true [] = cr ∷ []
strip false (c ∷ s) =
    let held = strip true s in let free = strip false s in if c == cr then held else c ∷ free
strip true (c ∷ s) =
    let held = strip true s in
    let free = strip false s in
    if c == lf then lf ∷ free else if c == cr then cr ∷ held else cr ∷ c ∷ free

-- Every LF becomes CR LF.
abbrev pub expand : Bytes → Bytes
expand [] = []
expand (c ∷ s) = if c == lf then cr ∷ lf ∷ expand s else c ∷ expand s

replace_nl : (f : ℕ) (s : Bytes) → length s ≤ f → replace_loop f nl rnl s ≡ expand s
unfolding replace_loop
replace_nl zero [] h = refl
replace_nl zero (c ∷ s) h = absurd (omega arith)
replace_nl (suc f) [] h = refl
replace_nl (suc f) (c ∷ s) h = ground (arith, replace_nl f s)

replace_rnl : (f : ℕ) (s : Bytes) → length s ≤ f → replace_loop f rnl nl s ≡ strip false s
unfolding replace_loop strip
replace_rnl zero [] h = refl
replace_rnl zero (c ∷ s) h = absurd (omega arith)
replace_rnl (suc f) [] h = refl
replace_rnl (suc f) (c ∷ []) h = ground (arith, replace_rnl f [])
replace_rnl (suc f) (c ∷ d ∷ s) h = ground (arith, replace_rnl f s, replace_rnl f (d ∷ s))

-- Replacing CR LF by LF is `strip`.
pub strip-replace_all : (s : Bytes) → strip false s ≡ replace_all s rnl nl
unfolding replace_all
strip-replace_all s = sym (replace_rnl (length s) s (omega arith))

-- CanonicalizeBytes first turns every CR LF into LF and then every LF into CR LF.
pub canonicalize_bytes_lem : (s : Bytes) → canonicalize_bytes s ≡ expand (strip false s)
unfolding canonicalize_bytes
canonicalize_bytes_lem s =
    rw (replace_rnl (length s) s (omega arith))
      (replace_nl (length (strip false s)) (strip false s) (omega arith))

strip-cr-lf :
    (b : Bool) (s : Bytes)
    → strip b (cr ∷ lf ∷ s) ≡ (if b then cr ∷ lf ∷ strip false s else lf ∷ strip false s)
unfolding strip
strip-cr-lf true s = refl
strip-cr-lf false s = refl

-- Behind the expansion of `c` and the text `t`, of which the results are known.
strip_step :
    (c : ℕ) (t s : Bytes)
    → strip true t ≡ cr ∷ s
    → strip false t ≡ s
    → (c == lf) ≡ false
    → (strip true (c ∷ t) ≡ cr ∷ c ∷ s) × (strip false (c ∷ t) ≡ c ∷ s)
unfolding strip
strip_step c t s h g n = ground arith

strip-expand_both : (s : Bytes) → (strip true (expand s) ≡ cr ∷ s) × (strip false (expand s) ≡ s)
strip-expand_both [] = unfold strip in (refl, refl)
strip-expand_both (c ∷ s) =
    let (h, g) = strip-expand_both s in
    elim (Bool-cases (c == lf)) [
      | inl e ↦ rw (e, strip-cr-lf true, strip-cr-lf false, g) (ground arith)
      | inr e ↦ rw e (strip_step c (expand s) s h g e)
    ]

-- Taking the canonical line endings back gives the text with its CR LF turned into LF.
pub strip-canonicalize : (s : Bytes) → strip false (canonicalize_bytes s) ≡ strip false s
strip-canonicalize s = rw canonicalize_bytes_lem (strip-expand_both (strip false s)).1

-- CanonicalizeBytes is idempotent.
pub canonicalize-canonicalize :
    (s : Bytes) → canonicalize_bytes (canonicalize_bytes s) ≡ canonicalize_bytes s
canonicalize-canonicalize s =
    canonicalize_bytes_lem (canonicalize_bytes s)
    ∙ ap expand (strip-canonicalize s)
    ∙ sym (canonicalize_bytes_lem s)

-- Every LF stands behind a CR; the flag says that a CR is in front.
abbrev pub IsCanonical : Bool → Bytes → Type 0
IsCanonical after_cr [] = Unit
IsCanonical after_cr (c ∷ s) = (c ≡ lf → after_cr ≡ true) × IsCanonical (c == cr) s

expand-IsCanonical : (b : Bool) (s : Bytes) → IsCanonical b (expand s)
expand-IsCanonical b [] = tt
expand-IsCanonical b (c ∷ s) = elim (Bool-cases (c == lf)) [
  | inl e ↦ rw e (λ h. ground arith, (λ h. refl, expand-IsCanonical false s))
  | inr e ↦ rw e (λ h. ground arith, expand-IsCanonical (c == cr) s)
]

-- In a canonicalized text no LF stands without a CR in front.
pub canonicalize-IsCanonical : (s : Bytes) → IsCanonical false (canonicalize_bytes s)
canonicalize-IsCanonical s = rw canonicalize_bytes_lem (expand-IsCanonical false (strip false s))
