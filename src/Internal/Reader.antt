-- ===== src/Internal/Reader.antt =====
-- Go's `io.Reader` as an interface: the state of a reader, one call of `Read` with a buffer of a given
-- length, and what a reader promises about the bytes that it still has to give.
use gopenpgp.Base.{
  take, drop, take-append-drop, length-take, arith, ℕ, ◌≤◌, Bool, true, false, Option, none, some,
  List, [], ◌∷◌, ◌++◌, Bytes, Error, eof, length, ◌≡◌, ◌≢◌, refl, sym, ap, ◌∙◌, append-nil,
  append_assoc, is_some, if◌then◌else◌,
}

-- The bytes written to the buffer, the error and the state afterwards.
abbrev pub Read : Type 0 → Type 0
Read S = S → ℕ → Bytes × Option Error × S

-- The error is `io.EOF` itself.
abbrev pub is_exactly_eof : Option Error → Bool
is_exactly_eof (some eof) = true
is_exactly_eof _ = false

-- A reader that has a content: each call takes a front part of it that fits the buffer, and fails only
-- by `io.EOF`, when nothing is left.
pub record IsReader {S : Type 0} (read : Read S) (content : S → Bytes) : Type 0 where
  pub takes : (s : S) (k : ℕ) → content s ≡ (read s k).0 ++ content (read s k).2
  pub fits : (s : S) (k : ℕ) → length (read s k).0 ≤ k
  pub ends :
      (s : S) (k : ℕ) (e : Error) → (read s k).1 ≡ some e → (e ≡ eof) × (content (read s k).2 ≡ [])

-- A run of reads with buffers of the given lengths, up to the first error.
pub drain : {S : Type 0} → Read S → S → List ℕ → Bytes × Option Error × S
drain read s [] = ([], none, s)
drain read s (k ∷ ks) =
    let (given, error, s') = read s k in
    let (rest, error', s'') = drain read s' ks in
    if is_some error then (given, error, s') else (given ++ rest, error', s'')

module _ {S : Type 0} (read : Read S) (content : S → Bytes) (law : IsReader read content) where
  -- What a run has given and what is left make up the content; after an error nothing is left.
  pub drain-content :
      (ks : List ℕ) (s : S)
      → (content s ≡ (drain read s ks).0 ++ content (drain read s ks).2)
        × ((drain read s ks).1 ≢ none
            → ((drain read s ks).1 ≡ some eof) × ((drain read s ks).0 ≡ content s))
  unfolding drain
  drain-content [] s = (refl, λ h. absurd (h refl))
  drain-content (k ∷ ks) s = by_error (read s k).1 refl (drain-content ks (read s k).2)
    where
      by_error :
          (o : Option Error)
          → (read s k).1 ≡ o
          → (content (read s k).2
              ≡ (drain read (read s k).2 ks).0 ++ content (drain read (read s k).2 ks).2)
            × ((drain read (read s k).2 ks).1 ≢ none
                → ((drain read (read s k).2 ks).1 ≡ some eof)
                  × ((drain read (read s k).2 ks).0 ≡ content (read s k).2))
          → (content s ≡ (drain read s (k ∷ ks)).0 ++ content (drain read s (k ∷ ks)).2)
            × ((drain read s (k ∷ ks)).1 ≢ none
                → ((drain read s (k ∷ ks)).1 ≡ some eof) × ((drain read s (k ∷ ks)).0 ≡ content s))
      by_error none e (ih, end) = rw e (
        law.takes s k ∙ ap (λ (t : Bytes). (read s k).0 ++ t) ih ∙ rw append_assoc,
        λ h. ((end h).0, ap (λ (t : Bytes). (read s k).0 ++ t) (end h).1 ∙ sym (law.takes s k)),
      )
      by_error (some x) e ih =
          let (is_eof, nothing) = law.ends s k x e in
          rw e (
            law.takes s k,
            λ h. (
              ap some is_eof,
              sym (append-nil (read s k).0)
                  ∙ ap (λ (t : Bytes). (read s k).0 ++ t) (sym nothing)
                  ∙ sym (law.takes s k),
            ),
          )

-- Go's `io.WriteCloser`: the count and the error of a `Write`, and the error of a `Close`.
pub record WriteCloser (W : Type 0) : Type 0 where
  pub write : W → Bytes → ℕ × Option Error × W
  pub close : W → Option Error × W

-- A writer that keeps all it is given and never fails.
pub record IsSink {W : Type 0} (sink : WriteCloser W) (written : W → Bytes) : Type 0 where
  pub keeps : (w : W) (p : Bytes) → written (sink.write w p).2 ≡ written w ++ p
  pub succeeds : (w : W) (p : Bytes) → (sink.write w p).1 ≡ none
  pub closes : (w : W) → (sink.close w).0 ≡ none
  pub keeps_closing : (w : W) → written (sink.close w).1 ≡ written w

-- `bytes.NewReader`: a reader of the bytes that it holds, which reports EOF when none are left.
unfoldable pub bytes_reader : Read Bytes
bytes_reader [] k = ([], some eof, [])
bytes_reader (c ∷ s) k = (take k (c ∷ s), none, drop k (c ∷ s))

pub bytes_reader-IsReader : IsReader bytes_reader (λ s. s)
unfolding bytes_reader
bytes_reader-IsReader = record {
  takes = λ s k. takes_lem s k;
  fits = λ s k. fits_lem s k;
  ends = λ s k e h. ends_lem s k e h;
}
  where
    takes_lem : (s : Bytes) (k : ℕ) → s ≡ (bytes_reader s k).0 ++ (bytes_reader s k).2
    takes_lem [] k = refl
    takes_lem (c ∷ s) k = sym (take-append-drop k (c ∷ s))

    fits_lem : (s : Bytes) (k : ℕ) → length (bytes_reader s k).0 ≤ k
    fits_lem [] k = omega arith
    fits_lem (c ∷ s) k = omega (arith, length-take k (c ∷ s))

    ends_lem :
        (s : Bytes) (k : ℕ) (e : Error)
        → (bytes_reader s k).1 ≡ some e
        → (e ≡ eof) × ((bytes_reader s k).2 ≡ [])
    ends_lem [] k e h = (ground arith, refl)
    ends_lem (c ∷ s) k e h = absurd (ground arith)
