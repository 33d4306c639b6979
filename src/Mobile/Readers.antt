-- ===== src/Mobile/Readers.antt =====
-- Readers keep their bytes when they cross between Go and a mobile runtime (mobile/mobile_stream.go).
use gopenpgp.Base.{
  ℕ, zero, suc, ◌≤◌, Bool, true, false, Option, none, some, List, [], ◌∷◌, ◌++◌, Bytes, Error, eof,
  length, take, ltb, if◌then◌else◌, ◌≡◌, refl, sym, ◌∙◌, ap, arith, append_assoc,
}
use gopenpgp.Internal.Reader.{Read, IsReader}
use gopenpgp.Mobile.{
  ios_answer, go_to_ios_read, mobile_to_go_answer, mobile_to_go_read, Go2AndroidReader, AndroidRead,
  end_of_data, given, android_answer, go_to_android_read,
}

ltb_irrefl : (n : ℕ) → ltb n n ≡ false
ltb_irrefl n = ground arith

take_fits : (k : ℕ) (b : Bytes) → length b ≤ k → take k b ≡ b
take_fits zero [] h = refl
take_fits zero (c ∷ b) h = absurd (omega arith)
take_fits (suc k) [] h = refl
take_fits (suc k) (c ∷ b) h = ap (λ (t : Bytes). c ∷ t) (take_fits k b (omega arith))

there_and_back :
    {S : Type 0} (k : ℕ) (r : Bytes × Option Error × S)
    → length r.0 ≤ k
    → ((e : Error) → r.1 ≡ some e → e ≡ eof)
    → mobile_to_go_answer k (ios_answer r) ≡ some r
unfolding mobile_to_go_answer ios_answer
there_and_back k (b, none, s) fits ends =
    rw (ltb_irrefl (length b), take_fits (length b) b (omega arith), take_fits k b fits) refl
there_and_back k (b, some e, s) fits ends =
    rw
      (ends e refl, ltb_irrefl (length b), take_fits (length b) b (omega arith), take_fits k b fits)
      refl

-- A reader that goes to iOS and comes back answers as it did: the same bytes, the same end and the same
-- state. The reader has a content, of which it gives a part that fits the buffer, and fails only by EOF.
pub mobile_to_go-go_to_ios :
    {S : Type 0} (reader : Read S) (content : S → Bytes)
    → IsReader reader content
    → (s : S) (k : ℕ) → mobile_to_go_read (go_to_ios_read reader) s k ≡ some (reader s k)
unfolding mobile_to_go_read go_to_ios_read
mobile_to_go-go_to_ios reader content law s k =
    there_and_back k (reader s k) (law.fits s k) (λ e h. (law.ends s k e h).0)

-- What a run gives from one answer on.
abbrev pub android_collect :
    {S : Type 0}
    → (Go2AndroidReader S → Bytes × Bool × Go2AndroidReader S)
    → AndroidRead × Go2AndroidReader S
    → Bytes × Bool × Go2AndroidReader S
android_collect rest (end_of_data, r) = ([], true, r)
android_collect rest (given b failure, r) = let (b', ended, r') = rest r in (b ++ b', ended, r')

-- Reads of the given lengths until the end of the data: the bytes, and whether the end was reached.
abbrev pub android_drain :
    {S : Type 0} → Read S → Go2AndroidReader S → List ℕ → Bytes × Bool × Go2AndroidReader S
android_drain reader r [] = ([], false, r)
android_drain reader r (k ∷ ks) =
    android_collect (λ r'. android_drain reader r' ks) (go_to_android_read reader r k)

module _ {S : Type 0} (reader : Read S) (content : S → Bytes) (law : IsReader reader content) where
  -- Nothing is left once the reader has seen the end.
  abbrev IsDone : Go2AndroidReader S → Type 0
  IsDone r = r.is_eof ≡ true → content r.reader ≡ []

  -- What a run gives.
  abbrev IsGiven : S → Bytes × Bool × Go2AndroidReader S → Type 0
  IsGiven s (b, ended, r) =
      (content s ≡ b ++ content r.reader) × (ended ≡ true → content r.reader ≡ [])

  -- One call.
  abbrev IsAnswer : S → AndroidRead × Go2AndroidReader S → Type 0
  IsAnswer s (end_of_data, r) = (content s ≡ []) × (content r.reader ≡ [])
  IsAnswer s (given b failure, r) =
      (content s ≡ b ++ content r.reader) × (failure ≡ none) × IsDone r

  android_answer_lem :
      (s : S) (r : Bytes × Option Error × S)
      → content s ≡ r.0 ++ content r.2
      → ((e : Error) → r.1 ≡ some e → (e ≡ eof) × (content r.2 ≡ []))
      → IsAnswer s (android_answer r)
  unfolding android_answer
  android_answer_lem s (b, none, s') takes ends = (takes, refl, λ h. cc)
  android_answer_lem s ([], some e, s') takes ends =
      let (e', nothing) = ends e refl in rw e' (takes ∙ nothing, nothing)
  android_answer_lem s (c ∷ b, some e, s') takes ends =
      let (e', nothing) = ends e refl in rw e' (takes, refl, λ h. nothing)

  read_lem :
      (r : Go2AndroidReader S) (k : ℕ)
      → IsDone r
      → IsAnswer r.reader (go_to_android_read reader r k)
  unfolding go_to_android_read
  read_lem r k done = by_flag r.is_eof refl
    where
      by_flag :
          (b : Bool)
          → r.is_eof ≡ b
          → IsAnswer r.reader (if b then (end_of_data, r) else android_answer (reader r.reader k))
      by_flag true e = (done e, done e)
      by_flag false e =
          android_answer_lem r.reader (reader r.reader k) (law.takes r.reader k)
            (λ x h. law.ends r.reader k x h)

  drain_lem :
      (ks : List ℕ) (r : Go2AndroidReader S)
      → IsDone r
      → IsGiven r.reader (android_drain reader r ks)
  drain_lem [] r done = (refl, λ h. cc)
  drain_lem (k ∷ ks) r done =
      by_answer (go_to_android_read reader r k) (read_lem r k done)
        (λ r' done'. drain_lem ks r' done')
    where
      by_answer :
          (a : AndroidRead × Go2AndroidReader S)
          → IsAnswer r.reader a
          → ((r' : Go2AndroidReader S) → IsDone r' → IsGiven r'.reader (android_drain reader r' ks))
          → IsGiven r.reader (android_collect (λ r'. android_drain reader r' ks) a)
      by_answer (end_of_data, r') (empty, nothing) ih = (empty ∙ sym nothing, λ _. nothing)
      by_answer (given b failure, r') (takes, fine, done') ih =
          let (rest, ended) = ih r' done' in
          (
            takes
                ∙ ap (λ t. b ++ t) rest
                ∙ sym (
                    append_assoc b (android_drain reader r' ks).0
                      (content (android_drain reader r' ks).2.reader)),
            ended,
          )

-- Read a reader with a content through Go2AndroidReader, with buffers of any lengths. What the reads give
-- and what is left make up the content, and nothing is left when a read answers `n = -1`.
pub android_drain-content :
    {S : Type 0} (reader : Read S) (content : S → Bytes)
    → IsReader reader content
    → (s : S) (ks : List ℕ)
    → let (b, ended, r) = android_drain reader (record { is_eof = false; reader = s }) ks in
      (content s ≡ b ++ content r.reader) × (ended ≡ true → content r.reader ≡ [])
android_drain-content reader content law s ks =
    drain_lem reader content law ks (record { is_eof = false; reader = s }) (λ h. cc)
