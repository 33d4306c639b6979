-- ===== src/Internal/Utf8/Writer.antt =====
-- The checking writer lets a stream through exactly if it is UTF-8 (internal/utf8.go).
use gopenpgp.Base.{
  ℕ, ◌<◌, Option, none, some, List, [], ◌∷◌, ◌++◌, Bytes, length, ◌≡◌, ◌≢◌, ◌↔◌, refl, sym, ◌∙◌, ap,
  arith, is_some, if◌then◌else◌, subst, append-nil, append_assoc, Error, incorrect_utf8,
}
use gopenpgp.Internal.Reader.{WriteCloser, IsSink}
use gopenpgp.Internal.Utf8.{
  decode_size, check, close, Utf8CheckWriteCloser, new_utf8_check_write_closer, write,
  write_checked, close_writer, write_all,
}
use gopenpgp.Internal.Utf8.Whole.{
  Splits, Splits.done, Splits.step, IsUtf8, Splits-append, Splits-trans,
}
use gopenpgp.Internal.Utf8.Stream.{
  Answer, Answer.keep, Answer.reject, IsUtf8-Splits, check_lem, none-some,
}

-- The bytes of a stream.
abbrev pub concat : List Bytes → Bytes
concat [] = []
concat (p ∷ ps) = p ++ concat ps

module _ {W : Type 0} (sink : WriteCloser W) (written : W → Bytes) (law : IsSink sink written) where
  -- The run succeeds exactly on UTF-8, and then all of it is written; a failure is `ErrIncorrectUtf8`.
  abbrev IsRight :
      Bytes → Utf8CheckWriteCloser W → Bytes → Option Error × Utf8CheckWriteCloser W → Type 0
  IsRight o cw p (error, cw') =
      ((error ≡ none) ↔ IsUtf8 (o ++ p))
      × (error ≡ none → written cw'.internal ≡ written cw.internal ++ p)
      × (error ≢ none → error ≡ some incorrect_utf8)

  close_lem :
      (o : Bytes) (w : W)
      → decode_size o ≡ none
      → IsRight o
          (record { overflow = o; internal = w })
          []
          (close_writer sink (record { overflow = o; internal = w }))
  unfolding close_writer close
  close_lem [] w stuck = (
    ((λ _. done refl), (λ _. law.closes w)),
    (λ _. law.keeps_closing w ∙ sym (append-nil (written w))),
    λ h. absurd (h (law.closes w)),
  )
  close_lem (c ∷ o) w stuck = (((λ h. cc), (λ h. absurd (stuck_lem h))), (λ h. cc), λ h. refl)
    where
      stuck_lem : ¬ IsUtf8 ((c ∷ o) ++ [])
      stuck_lem (done e) = cc
      stuck_lem (step k e s) = none-some (sym stuck ∙ ap decode_size (sym (append-nil (c ∷ o))) ∙ e)

  -- From the state behind a chunk back to the one in front of it.
  go_back :
      (o o' p rest : Bytes) (cw cw' : Utf8CheckWriteCloser W)
      (run : Option Error × Utf8CheckWriteCloser W)
      → Splits (o ++ p) o'
      → written cw'.internal ≡ written cw.internal ++ p
      → IsRight o' cw' rest run
      → IsRight o cw (p ++ rest) run
  go_back o o' p rest cw cw' run s w ((to, from), all, failure) = (
    (
      (λ h. subst IsUtf8 (append_assoc o p rest) (Splits-trans (Splits-append rest s) (to h))),
      (λ u. from (IsUtf8-Splits (o ++ p) o' rest s (subst IsUtf8 (sym (append_assoc o p rest)) u))),
    ),
    (λ h. all h ∙ ap (λ x. x ++ rest) w ∙ append_assoc (written cw.internal) p rest),
    failure,
  )

  -- What `write_all` does behind the first chunk.
  abbrev go_on :
      List Bytes → ℕ × Option Error × Utf8CheckWriteCloser W → Option Error × Utf8CheckWriteCloser W
  go_on ps (n, failed, cw) = if is_some failed then (failed, cw) else write_all sink cw ps

  write_all_lem :
      (ps : List Bytes) (o : Bytes) (w : W)
      → decode_size o ≡ none
      → length o < 4
      → IsRight o
          (record { overflow = o; internal = w })
          (concat ps)
          (write_all sink (record { overflow = o; internal = w }) ps)
  unfolding write_all write write_checked
  write_all_lem [] o w stuck short = close_lem o w stuck
  write_all_lem (p ∷ ps) o w stuck short =
      by_answer (check o p) (check_lem o p stuck short) refl
        (λ o' stuck' short'. write_all_lem ps o' (sink.write w p).2 stuck' short')
    where
      cw : Utf8CheckWriteCloser W
      cw = record { overflow = o; internal = w }

      by_answer :
          (a : Bytes × Option Error)
          → Answer (o ++ p) a
          → check o p ≡ a
          → ((o' : Bytes)
              → decode_size o' ≡ none
              → length o' < 4
              → IsRight o'
                  (record { overflow = o'; internal = (sink.write w p).2 })
                  (concat ps)
                  (write_all sink (record { overflow = o'; internal = (sink.write w p).2 }) ps))
          → IsRight o cw (p ++ concat ps) (write_all sink cw (p ∷ ps))
      by_answer _ (keep o' s stuck' short') e ih =
          subst (IsRight o cw (p ++ concat ps))
            (sym (
              ap (λ a. go_on ps (write_checked sink cw p a)) e
              ∙ ap
                  (λ failed. go_on ps (
                    (sink.write w p).0,
                    failed,
                    record { overflow = o'; internal = (sink.write w p).2 },
                  ))
                  (law.succeeds w p)))
            (go_back o o' p (concat ps) cw (record { overflow = o'; internal = (sink.write w p).2 })
              (write_all sink (record { overflow = o'; internal = (sink.write w p).2 }) ps) s
              (law.keeps w p) (ih o' stuck' short'))
      by_answer _ (reject o' never) e ih =
          subst (IsRight o cw (p ++ concat ps))
            (sym (ap (λ a. go_on ps (write_checked sink cw p a)) e))
            (
              (
                (λ h. cc),
                (λ u.
                    absurd
                      (never (concat ps) (subst IsUtf8 (sym (append_assoc o p (concat ps))) u))),
              ),
              (λ h. cc),
              λ h. refl,
            )

-- Write the chunks of a stream, however they are cut, to a checking writer around a sink that keeps what
-- it is given. The run succeeds exactly if the stream is well-formed UTF-8 as a whole; all of it is
-- then written to the sink; and the only failure is `ErrIncorrectUtf8`.
pub write_all-IsUtf8 :
    {W : Type 0} (sink : WriteCloser W) (written : W → Bytes)
    → IsSink sink written
    → (w : W) (ps : List Bytes)
    → let run = write_all sink (new_utf8_check_write_closer w) ps in
      ((run.0 ≡ none) ↔ IsUtf8 (concat ps))
      × (run.0 ≡ none → written run.1.internal ≡ written w ++ concat ps)
      × (run.0 ≢ none → run.0 ≡ some incorrect_utf8)
unfolding new_utf8_check_write_closer decode_size
write_all-IsUtf8 sink written law w ps = write_all_lem sink written law ps [] w refl (omega arith)
