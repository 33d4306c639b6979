-- ===== src/Internal/ResetReader/Again.antt =====
-- After Reset the data come again from the beginning (ResetReader of internal/common.go).
use gopenpgp.Base.{
  ℕ, Bool, true, false, Option, none, some, List, [], ◌∷◌, ◌++◌, Bytes, Error, eof, ok,
  take-append-drop, append_assoc, ◌==◌, if◌then◌else◌, ◌≡◌, refl, sym, ◌∙◌, ap, arith, ◌≤◌, ◌≢◌,
  length, length-take,
}
use gopenpgp.Internal.Reader.{Read, IsReader, is_exactly_eof, drain, drain-content}
use gopenpgp.Internal.ResetReader.{
  Source, raw, multi, last, done, ResetReader, new_reset_reader, last_answer, source_read, read,
  reset,
}

-- What a caller does before buffering is disabled.
pub data Call : Type 0 where
  reading : ℕ → Call
  resetting : Call

exactly_eof : (o : Option Error) → is_exactly_eof o ≡ true → o ≡ some eof
exactly_eof none h = absurd (ground arith)
exactly_eof (some e) h = ground arith

pub reset_on :
    {S : Type 0} (rr : ResetReader S)
    → rr.buffer_data ≡ true
    → reset rr ≡ (
      ok (Source.multi rr.buffer rr.reader),
      record { reader = Source.multi rr.buffer rr.reader; buffer = []; buffer_data = true },
    )
unfolding reset
reset_on rr on = ground (arith, on)

module _ {S : Type 0} (internal : Read S) (content : S → Bytes)
    (law : IsReader internal content) where
  -- What a reader still has to give.
  abbrev pub source_content : Source S → Bytes
  source_content (raw s) = content s
  source_content (multi b r) = b ++ source_content r
  source_content (last r) = source_content r
  source_content done = []

  -- The answer is a front part of `all` that fits, the rest is left, and the only error is the end.
  abbrev IsAnswer : ℕ → Bytes → Bytes × Option Error × Source S → Type 0
  IsAnswer k all (b, e, r) =
      (all ≡ b ++ source_content r)
      × (length b ≤ k)
      × ((e' : Error) → e ≡ some e' → (e' ≡ eof) × (source_content r ≡ []))

  last_answer_lem :
      (k : ℕ) (all : Bytes) (x : Bytes × Option Error × Source S)
      → IsAnswer k all x
      → IsAnswer k all (last_answer x)
  unfolding last_answer
  last_answer_lem k all (b, e, r) (takes, fits, end) = by_end (is_exactly_eof e) refl
    where
      by_end :
          (c : Bool)
          → is_exactly_eof e ≡ c
          → IsAnswer k all (if c then (b, some eof, Source.done) else (b, e, Source.last r))
      by_end true q = (
        takes ∙ ap (λ t. b ++ t) (end eof (exactly_eof e q)).1,
        fits,
        λ e' h. (ground arith, refl),
      )
      by_end false q = (takes, fits, end)

  source_read_lem :
      (r : Source S) (k : ℕ) → IsAnswer k (source_content r) (source_read internal r k)
  unfolding source_read
  source_read_lem (raw s) k = (law.takes s k, law.fits s k, law.ends s k)
  source_read_lem (multi [] r) k = by_room (k == 0) (source_read_lem r k)
    where
      by_room :
          (c : Bool)
          → IsAnswer k (source_content r) (source_read internal r k)
          → IsAnswer k
              (source_content r)
              (if c then ([], none, Source.multi [] r) else last_answer (source_read internal r k))
      by_room true ih = (refl, omega arith, λ e' h. absurd (ground arith))
      by_room false ih = last_answer_lem k (source_content r) (source_read internal r k) ih
  source_read_lem (multi (c ∷ b) r) k = (
    ap (λ t. t ++ source_content r) (sym (take-append-drop k (c ∷ b))) ∙ rw append_assoc,
    omega (arith, length-take k (c ∷ b)),
    λ e' h. absurd (ground arith),
  )
  source_read_lem (last r) k =
      last_answer_lem k (source_content r) (source_read internal r k) (source_read_lem r k)
  source_read_lem done k = (refl, omega arith, λ e' h. (ground arith, refl))

  -- The readers that stand in a ResetReader keep the laws of a reader.
  pub source_read-IsReader : IsReader (source_read internal) source_content
  source_read-IsReader = record {
    takes = λ r k. (source_read_lem r k).0;
    fits = λ r k. (source_read_lem r k).1;
    ends = λ r k. (source_read_lem r k).2;
  }

  abbrev pub call : Call → ResetReader S → ResetReader S
  call (reading k) rr = (read internal rr k).2
  call resetting rr = (reset rr).1

  abbrev pub calls : List Call → ResetReader S → ResetReader S
  calls [] rr = rr
  calls (c ∷ cs) rr = calls cs (call c rr)

  -- The bytes that are kept and those that are left.
  abbrev pub all_of : ResetReader S → Bytes
  all_of rr = rr.buffer ++ source_content rr.reader

  call_lem :
      (c : Call) (rr : ResetReader S)
      → rr.buffer_data ≡ true
      → (all_of (call c rr) ≡ all_of rr) × ((call c rr).buffer_data ≡ true)
  unfolding read reset
  call_lem (reading k) rr on =
      (rw on (rw append_assoc (ap (λ t. rr.buffer ++ t) (sym (source_read_lem rr.reader k).0))), on)
  call_lem resetting rr on = ground (arith, on)

  pub calls_lem :
      (cs : List Call) (rr : ResetReader S)
      → rr.buffer_data ≡ true
      → (all_of (calls cs rr) ≡ all_of rr) × ((calls cs rr).buffer_data ≡ true)
  calls_lem [] rr on = (refl, on)
  calls_lem (c ∷ cs) rr on =
      let (same, on') = call_lem c rr on in
      let (same', on'') = calls_lem cs (call c rr) on' in (same' ∙ same, on'')

  -- For a wrapped reader with a content, after any reads and resets of a new ResetReader, Reset succeeds,
  -- and every run of reads of the reader that it returns gives a front part of the whole content of the
  -- wrapped reader, and all of it if the run ends with an error, which is EOF.
  pub reset-calls :
      (cs : List Call) (s : S)
      → (r : Source S) × ((reset (calls cs (new_reset_reader s))).0 ≡ ok r)
        × ((ks : List ℕ)
            → (content s
                ≡ (drain (source_read internal) r ks).0
                  ++ source_content (drain (source_read internal) r ks).2)
              × ((drain (source_read internal) r ks).1 ≢ none
                  → ((drain (source_read internal) r ks).1 ≡ some eof)
                    × ((drain (source_read internal) r ks).0 ≡ content s)))
  unfolding reset new_reset_reader
  reset-calls cs s =
      let rr = calls cs (new_reset_reader s) in
      let (same, on) = calls_lem cs (new_reset_reader s) refl in
      let r = Source.multi rr.buffer rr.reader in
      (
        r,
        rw on refl,
        λ ks.
            let (all, end) =
              drain-content (source_read internal) source_content source_read-IsReader ks r in
            (sym same ∙ all, λ h. ((end h).0, (end h).1 ∙ same)),
      )
