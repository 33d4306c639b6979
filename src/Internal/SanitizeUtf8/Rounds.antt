-- ===== src/Internal/SanitizeUtf8/Rounds.antt =====
-- A `sanitizeUtf8Reader` gets through its source (internal/sanitize_string.go).
use gopenpgp.Base.{
  ℕ, zero, suc, ◌+◌, ◌-◌, ◌≤◌, ◌<◌, Bool, true, false, ◌&&◌, ◌||◌, Option, none, some, List, [],
  ◌∷◌, ◌++◌, Bytes, Error, Result, ok, err, panic, length, length-drop, take, length-append,
  is_some, is_cons, leb, if◌then◌else◌, ◌≡◌, refl, ◌∙◌, ap, subst, arith,
}
use gopenpgp.Internal.Reader.{Read, IsReader}
use gopenpgp.Internal.Utf8.{decode_size}
use gopenpgp.Internal.Utf8.Decode.{decode_size_bounds}
use gopenpgp.Internal.Utf8.Whole.{IsUtf8}
use gopenpgp.Internal.SanitizeUtf8.{
  BufferedReader, SanitizeUtf8Reader, new_sanitize_utf8_reader, replacement, same_bytes, full_rune,
  decode_rune, read_failure, buffer_size, max_consecutive_empty_reads, fill, await_rune, next_rune,
  read_rune, put_rune, on_rune, rune_loop, rest_of, read_text, then_reads, text_reads,
}
use gopenpgp.Internal.SanitizeUtf8.Runes.{reminder_bytes, IsRun, new_run_lem}

if_case :
    {A : Type 0} (P : A → Type 0) (b : Bool) (x y : A)
    → (b ≡ true → P x)
    → P y
    → P (if b then x else y)
if_case P true x y h k = h refl
if_case P false x y h k = k

is_cons-append : (p q : Bytes) → is_cons q ≡ true → is_cons (p ++ q) ≡ true
is_cons-append [] q h = h
is_cons-append (c ∷ p) q h = refl

joined :
    (o : Option Error) (p q : Bytes)
    → (is_some o || is_cons q) ≡ true
    → (is_some o || is_cons (p ++ q)) ≡ true
joined none p q h = is_cons-append p q h
joined (some e) p q h = refl

decode_rune-positive : (p : Bytes) → 0 < (decode_rune p).1
unfolding decode_rune
decode_rune-positive p = by_size (decode_size p) refl
  where
    by_size : (o : Option ℕ) → decode_size p ≡ o → 0 < (decode_rune p).1
    by_size none h = rw (h, decode_rune) (omega arith)
    by_size (some k) h = rw (h, decode_rune) (omega (arith, decode_size_bounds p k h))

module _ {S : Type 0} (upstream : Read S) (content : S → Bytes)
    (law : IsReader upstream content) where
  -- How many bytes are still to be decoded.
  abbrev pub pending : BufferedReader S → ℕ
  pending b = length b.buffer + length (content b.rd)

  -- There is a byte, or an error to report.
  abbrev settled : BufferedReader S → Bool
  settled b = is_some b.failure || is_cons b.buffer

  abbrev IsFilled : BufferedReader S → BufferedReader S → Type 0
  IsFilled b b' = (pending b' ≡ pending b) × (settled b' ≡ true)

  fill_lem : (n : ℕ) (b : BufferedReader S) → IsFilled b (fill upstream n b)
  unfolding fill
  fill_lem zero b = (refl, refl)
  fill_lem (suc n) b =
      if_case (IsFilled b) (is_some failure || is_cons given) b' (fill upstream n b')
        (λ h. (same, joined failure b.buffer given h)) (let (p, t) = fill_lem n b' in (p ∙ same, t))
    where
      given : Bytes
      given = (upstream b.rd (buffer_size - length b.buffer)).0

      failure : Option Error
      failure = (upstream b.rd (buffer_size - length b.buffer)).1

      b' : BufferedReader S
      b' = record {
        rd = (upstream b.rd (buffer_size - length b.buffer)).2;
        buffer = b.buffer ++ given;
        failure = failure;
      }

      same : pending b' ≡ pending b
      same = omega (
        arith,
        length-append b.buffer given,
        length-append given (content b'.rd),
        ap length (law.takes b.rd (buffer_size - length b.buffer)),
      )

  full_rune-settled :
      (p : Bytes) (o : Option Error)
      → (full_rune p || is_some o) ≡ true
      → (is_some o || is_cons p) ≡ true
  unfolding full_rune
  full_rune-settled [] none h = absurd (ground arith)
  full_rune-settled [] (some e) h = refl
  full_rune-settled (c ∷ p) none h = refl
  full_rune-settled (c ∷ p) (some e) h = refl

  await_settled :
      (n : ℕ) (b : BufferedReader S) → settled b ≡ true → IsFilled b (await_rune upstream n b)
  unfolding await_rune
  await_settled zero b h = (refl, h)
  await_settled (suc n) b h =
      if_case (IsFilled b) (full_rune b.buffer || is_some b.failure) b _ (λ _. (refl, h))
        (let (p, t) = fill_lem max_consecutive_empty_reads b in
          let (p', t') = await_settled n (fill upstream max_consecutive_empty_reads b) t in
          (p' ∙ p, t'))

  await_lem : (n : ℕ) (b : BufferedReader S) → IsFilled b (await_rune upstream (suc n) b)
  unfolding await_rune
  await_lem n b =
      if_case (IsFilled b) (full_rune b.buffer || is_some b.failure) b _
        (λ h. (refl, full_rune-settled b.buffer b.failure h))
        (let (p, t) = fill_lem max_consecutive_empty_reads b in
          let (p', t') = await_settled n (fill upstream max_consecutive_empty_reads b) t in
          (p' ∙ p, t'))

  -- A rune takes a byte of those that are left; an error takes none.
  abbrev IsStep : ℕ → Result Bytes × BufferedReader S → Type 0
  IsStep m (ok rune, r) = pending r < m
  IsStep m (err e, r) = pending r ≤ m
  IsStep m (panic, r) = ⊥

  next_lem :
      (b : BufferedReader S) (p : Bytes) (o : Option Error)
      → b.buffer ≡ p
      → b.failure ≡ o
      → (is_some o || is_cons p) ≡ true
      → IsStep (pending b) (next_rune upstream b p)
  unfolding next_rune read_failure
  next_lem b [] none same e h = absurd (ground arith)
  next_lem b [] (some x) same e h = rw e (omega arith)
  next_lem b (c ∷ p) o same e h = omega (
    arith,
    length-drop (decode_rune (c ∷ p)).1 (c ∷ p),
    decode_rune-positive (c ∷ p),
    ap length same,
  )

  read_lem : (b : BufferedReader S) → IsStep (pending b) (read_rune upstream b)
  unfolding read_rune
  read_lem b =
      let (same, t) = await_lem 3 b in
      let b' = await_rune upstream 4 b in
      subst (λ m. IsStep m (read_rune upstream b)) same
        (next_lem b' b'.buffer b'.failure refl refl t)

  -- The rounds suffice, and no byte comes back.
  abbrev IsDone : ℕ → Option (Bytes × Option Error × SanitizeUtf8Reader S) → Type 0
  IsDone m none = ⊥
  IsDone m (some (b, e, sr)) = pending sr.r ≤ m

  weaken :
      (m m' : ℕ) (o : Option (Bytes × Option Error × SanitizeUtf8Reader S))
      → m ≤ m'
      → IsDone m o
      → IsDone m' o
  weaken m m' none l h = absurd h
  weaken m m' (some (b, e, sr)) l h = omega arith

  put_lem :
      (m : ℕ) (rune : Bytes) (o : Option (Bytes × Option Error × SanitizeUtf8Reader S))
      → IsDone m o
      → IsDone m (put_rune upstream rune o)
  unfolding put_rune
  put_lem m rune none h = absurd h
  put_lem m rune (some (b, e, sr)) h = h

  on_rune_lem :
      (m : ℕ) (sr : SanitizeUtf8Reader S) (room : ℕ)
      (go_on : SanitizeUtf8Reader S → ℕ → Option (Bytes × Option Error × SanitizeUtf8Reader S))
      → ((sr' : SanitizeUtf8Reader S) (room' : ℕ)
          → pending sr'.r < m
          → IsDone (pending sr'.r) (go_on sr' room'))
      → (x : Result Bytes × BufferedReader S) → IsStep m x
      → IsDone m (on_rune upstream sr room go_on x)
  unfolding on_rune
  on_rune_lem m sr room go_on ih (err e, r) h = h
  on_rune_lem m sr room go_on ih (panic, r) h = absurd h
  on_rune_lem m sr room go_on ih (ok rune, r) h =
      let invalid = same_bytes rune replacement in
      let sr' : SanitizeUtf8Reader S = record sr { r = r; last_rune_invalid = invalid } in
      if_case (IsDone m) (invalid && sr.last_rune_invalid) (go_on sr' room) _
        (λ _. weaken (pending r) m (go_on sr' room) (omega arith) (ih sr' room h))
        (if_case (IsDone m) (leb (length rune) room) _ _
          (λ _. put_lem m rune (go_on sr' (room - length rune)) (
            weaken (pending r) m (go_on sr' (room - length rune)) (omega arith)
              (ih sr' (room - length rune) h)))
          (omega arith))

  loop_lem :
      (n : ℕ) (sr : SanitizeUtf8Reader S) (room : ℕ)
      → pending sr.r < n
      → IsDone (pending sr.r) (rune_loop upstream n sr room)
  unfolding rune_loop
  loop_lem zero sr room l = absurd (omega arith)
  loop_lem (suc n) sr zero l = omega arith
  loop_lem (suc n) sr (suc room) l =
      on_rune_lem (pending sr.r) sr (suc room) (rune_loop upstream n)
        (λ sr' room' l'. loop_lem n sr' room' (omega arith)) (read_rune upstream sr.r)
        (read_lem sr.r)

  text_lem :
      (n : ℕ) (sr : SanitizeUtf8Reader S) (k : ℕ)
      → pending sr.r < n
      → IsDone (pending sr.r) (read_text upstream n sr k)
  unfolding read_text rest_of
  text_lem n sr k l = by_reminder sr.reminder
    where
      by_reminder :
          (o : Option Bytes)
          → IsDone (pending sr.r) (elim o [
            | none ↦ rune_loop upstream n sr k
            | some p ↦ put_rune upstream (take k p) (
                rune_loop upstream n
                  (record sr { reminder = rest_of upstream k p })
                  (k - length (take k p)))
          ])
      by_reminder none = loop_lem n sr k l
      by_reminder (some p) =
          put_lem (pending sr.r) (take k p) _
            (loop_lem n (record sr { reminder = rest_of upstream k p }) (k - length (take k p)) l)

  abbrev prepended :
      Bytes → Option (Bytes × SanitizeUtf8Reader S) → Option (Bytes × SanitizeUtf8Reader S)
  prepended b none = none
  prepended b (some (b', sr)) = some (b ++ b', sr)

  runs_lem :
      (n : ℕ) (ks : List ℕ) (sr : SanitizeUtf8Reader S)
      → pending sr.r < n
      → (x : Bytes × SanitizeUtf8Reader S) × (text_reads upstream n ks sr ≡ some x)
  unfolding text_reads
  runs_lem n [] sr l = (([], sr), refl)
  runs_lem n (k ∷ ks) sr l = by_read (read_text upstream n sr k) (text_lem n sr k l) (runs_lem n ks)
    where
      by_read :
          (o : Option (Bytes × Option Error × SanitizeUtf8Reader S))
          → IsDone (pending sr.r) o
          → ((sr' : SanitizeUtf8Reader S)
              → pending sr'.r < n
              → (x : Bytes × SanitizeUtf8Reader S) × (text_reads upstream n ks sr' ≡ some x))
          → (x : Bytes × SanitizeUtf8Reader S) × (then_reads upstream o (text_reads upstream n ks)
              ≡ some x)
      by_read none h ih = absurd h
      by_read (some (b, e, sr')) h ih =
          let ((b', sr''), same) = ih sr' (omega arith) in ((b ++ b', sr''), ap (prepended b) same)

  -- For a source with a content and at least one round more than it has bytes: any run of reads of a new
  -- reader returns, whatever the lengths of the buffers, and what it gives is well-formed UTF-8, together
  -- with the rest of the last rune where a buffer was too short for it.
  pub text_reads-IsUtf8 :
      (n : ℕ) (ks : List ℕ) (s : S)
      → length (content s) < n
      → (x : Bytes × SanitizeUtf8Reader S) × (text_reads upstream n ks (new_sanitize_utf8_reader s)
          ≡ some x)
        × IsUtf8 (x.0 ++ reminder_bytes upstream x.1)
  unfolding new_sanitize_utf8_reader
  text_reads-IsUtf8 n ks s l =
      let (x, same) = runs_lem n ks (new_sanitize_utf8_reader s) (omega arith) in
      (x, same, subst (IsRun upstream []) same (new_run_lem upstream n ks s))
