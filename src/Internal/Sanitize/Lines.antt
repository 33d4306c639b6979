-- ===== src/Internal/Sanitize/Lines.antt =====
-- The sanitizing reader is a reader of its source's content with every CR LF turned into LF
-- (internal/sanitize_string.go).
use gopenpgp.Base.{
  ℕ, zero, suc, ◌+◌, ◌-◌, ◌≤◌, Bool, true, false, Option, none, some, [], ◌∷◌, ◌++◌, Bytes, Error,
  eof, length, length-append, length-take, take, drop, take-append-drop, ◌==◌, ◌≡◌, refl, sym, ap,
  ◌∙◌, arith, append_assoc, Bool-cases, inl, inr,
}
use gopenpgp.Internal.Text.{cr, lf}
use gopenpgp.Internal.Text.Lines.{strip}
use gopenpgp.Internal.Reader.{Read, IsReader, is_exactly_eof}
use gopenpgp.Internal.Sanitize.{
  SanitizeReader, sanitize_loop, flush_pin, final_error, sanitize_answer, sanitize_read,
}

sanitize_loop-strip :
    (pin : Bool) (s t buffer : Bytes)
    → let (pin', buffer') = sanitize_loop pin s buffer in
      buffer' ++ strip pin' t ≡ buffer ++ strip pin (s ++ t)
unfolding sanitize_loop strip
sanitize_loop-strip pin [] t buffer = refl
sanitize_loop-strip true (c ∷ s) t buffer = elim (Bool-cases (c == lf)) [
  | inl e ↦ rw e (simp (sanitize_loop-strip false s t, append_assoc))
  | inr e ↦ rw e (elim (Bool-cases (c == cr)) [
    | inl q ↦ rw q (simp (sanitize_loop-strip true s t, append_assoc))
    | inr q ↦ rw q (simp (sanitize_loop-strip false s t, append_assoc))
  ])
]
sanitize_loop-strip false (c ∷ s) t buffer = elim (Bool-cases (c == cr)) [
  | inl q ↦ rw q (sanitize_loop-strip true s t buffer)
  | inr q ↦ rw q (simp (sanitize_loop-strip false s t, append_assoc))
]

flush_pin-strip :
    (r : Bool × Bytes)
    → let (pin, buffer) = flush_pin true r in buffer ++ strip pin [] ≡ r.1 ++ strip r.0 []
unfolding flush_pin strip
flush_pin-strip (true, b) = rw append_assoc
flush_pin-strip (false, b) = refl

-- A buffer is cut in two where the caller's room ends.
cut_lem :
    (internal b rest : Bytes) (room : ℕ)
    → internal ++ (b ++ rest) ≡ (internal ++ take room b) ++ (drop room b ++ rest)
cut_lem internal b rest room =
    ap (λ (x : Bytes). internal ++ (x ++ rest)) (sym (take-append-drop room b)) ∙ simp append_assoc

module _ {S : Type 0} (upstream : Read S) (content : S → Bytes) where
  -- The bytes that the sanitizing reader still has to give.
  abbrev pub pending : SanitizeReader S → Bytes
  pending sr = sr.buffer ++ strip sr.pin (content sr.r)

  answer-takes :
      (internal : Bytes) (room : ℕ) (pin : Bool) (before given : Bytes) (error : Option Error)
      (r : S)
      → before ≡ given ++ content r
      → ((e : Error) → error ≡ some e → (e ≡ eof) × (content r ≡ []))
      → let a = sanitize_answer upstream internal room pin (given, error, r) in
        internal ++ strip pin before ≡ a.0 ++ pending a.2
  unfolding sanitize_answer
  answer-takes internal room pin before given none r h law =
      ap (λ (x : Bytes). internal ++ x)
        (ap (strip pin) h ∙ sym (sanitize_loop-strip pin given (content r) []))
      ∙ unfold flush_pin in cut_lem internal (sanitize_loop pin given []).1 _ room
  answer-takes internal room pin before given (some e) r h law =
      let (is_eof, nothing) = law e refl in
      let w = flush_pin true (sanitize_loop pin given []) in
      rw (is_eof, h, nothing)
        (ap (λ (x : Bytes). internal ++ x)
            (sym (sanitize_loop-strip pin given [] [])
              ∙ sym (flush_pin-strip (sanitize_loop pin given [])))
          ∙ cut_lem internal w.1 (strip w.0 []) room)

  answer-fits :
      (internal : Bytes) (room : ℕ) (pin : Bool) (given : Bytes) (error : Option Error) (r : S)
      → length given ≤ room
      → length (sanitize_answer upstream internal room pin (given, error, r)).0
        ≤ length internal + room
  unfolding sanitize_answer
  answer-fits internal room pin given error r h = ground (
    arith,
    length-append internal given,
    length-take (length given) (internal ++ given),
    length-append internal
        (take room (flush_pin (is_exactly_eof error) (sanitize_loop pin given [])).1),
    length-take room (flush_pin (is_exactly_eof error) (sanitize_loop pin given [])).1,
  )

  flush_pin-unpinned : (r : Bool × Bytes) → (flush_pin true r).0 ≡ false
  unfolding flush_pin
  flush_pin-unpinned (true, b) = refl
  flush_pin-unpinned (false, b) = refl

  answer-ends :
      (internal : Bytes) (room : ℕ) (pin : Bool) (given : Bytes) (error : Option Error) (r : S)
      → ((e : Error) → error ≡ some e → (e ≡ eof) × (content r ≡ []))
      → (e : Error) → (sanitize_answer upstream internal room pin (given, error, r)).1 ≡ some e
      → (e ≡ eof) × (pending (sanitize_answer upstream internal room pin (given, error, r)).2 ≡ [])
  unfolding sanitize_answer final_error strip
  answer-ends internal room pin given none r law e h = ground arith
  answer-ends internal room pin given (some x) r law e h =
      let (is_eof, nothing) = law x refl in
      ground (arith, flush_pin-unpinned (sanitize_loop pin given []))

  -- If the caller's buffer is not filled, all of the own buffer went into it.
  drop-short :
      (k : ℕ) (b : Bytes) → (length (take k b) == k) ≡ false → (take k b ≡ b) × (drop k b ≡ [])
  drop-short zero b h = ground arith
  drop-short (suc k) [] h = (refl, refl)
  drop-short (suc k) (c ∷ b) h = ground (arith, drop-short k b)

  module _ (law : IsReader upstream content) where
    read-takes :
        (sr : SanitizeReader S) (k : ℕ)
        → pending sr ≡ (sanitize_read upstream sr k).0 ++ pending (sanitize_read upstream sr k).2
    unfolding sanitize_read
    read-takes sr k = elim (Bool-cases (length (take k sr.buffer) == k)) [
      | inl full ↦ rw full (cut_lem [] sr.buffer (strip sr.pin (content sr.r)) k)
      | inr short ↦ rw short (
          ap (λ (b : Bytes). b ++ strip sr.pin (content sr.r))
            (sym (drop-short k sr.buffer short).0)
          ∙ answer-takes (take k sr.buffer) _ sr.pin (content sr.r) _ _ _ (law.takes sr.r _)
              (law.ends sr.r _))
    ]

    read-fits : (sr : SanitizeReader S) (k : ℕ) → length (sanitize_read upstream sr k).0 ≤ k
    unfolding sanitize_read
    read-fits sr k = elim (Bool-cases (length (take k sr.buffer) == k)) [
      | inl full ↦ rw full (ground arith)
      | inr short ↦
          let room = k - length (take k sr.buffer) in
          let fits =
            answer-fits (take k sr.buffer) room sr.pin _ (upstream sr.r room).1
              (upstream sr.r room).2 (law.fits sr.r room) in
          rw short (omega (arith, fits, length-take k sr.buffer))
    ]

    read-ends :
        (sr : SanitizeReader S) (k : ℕ) (e : Error)
        → (sanitize_read upstream sr k).1 ≡ some e
        → (e ≡ eof) × (pending (sanitize_read upstream sr k).2 ≡ [])
    unfolding sanitize_read
    read-ends sr k e = elim (Bool-cases (length (take k sr.buffer) == k)) [
      | inl full ↦ rw full (λ h. ground arith)
      | inr short ↦ rw short (answer-ends (take k sr.buffer) _ sr.pin _ _ _ (law.ends sr.r _) e)
    ]

-- Whatever the sizes of the reads, the sanitizing reader of a reader is again a reader: its content is
-- that of the source with every CR LF turned into LF, and it ends when that content has been given.
pub sanitize_read-IsReader :
    {S : Type 0} (upstream : Read S) (content : S → Bytes)
    → IsReader upstream content
    → IsReader (sanitize_read upstream) (pending upstream content)
sanitize_read-IsReader upstream content law = record {
  takes = read-takes upstream content law;
  fits = read-fits upstream content law;
  ends = read-ends upstream content law;
}
