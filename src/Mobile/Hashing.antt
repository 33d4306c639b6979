-- ===== src/Mobile/Hashing.antt =====
-- The hash is over exactly what was written (mobile/mobile_stream.go).
use gopenpgp.Base.{
  ℕ, zero, suc, ◌≤◌, Option, none, some, [], ◌∷◌, ◌++◌, Bytes, Error, length, take, drop, is_none,
  if◌then◌else◌, ◌≡◌, refl, sym, ◌∙◌, ap, subst, arith, append-nil, length-take,
}
use gopenpgp.Mobile.{
  hash_step, hash_loop, hash_written, Mobile2GoWriterWithSha256, write_with_sha256,
}

-- A hash takes every byte and never fails, as Go's `hash.Hash` promises.
pub record IsHash {H : Type 0} (hash : H → Bytes → ℕ × Option Error × H) (hashed : H → Bytes)
    : Type 0 where
  pub takes : (h : H) (b : Bytes) → hashed (hash h b).2 ≡ hashed h ++ b
  pub counts : (h : H) (b : Bytes) → (hash h b).0 ≡ length b
  pub succeeds : (h : H) (b : Bytes) → (hash h b).1 ≡ none

module _ {H : Type 0} (hash : H → Bytes → ℕ × Option Error × H) (hashed : H → Bytes)
    (law : IsHash hash hashed) where
  drop_all : (b : Bytes) → drop (length b) b ≡ []
  drop_all [] = refl
  drop_all (c ∷ b) = drop_all b

  nothing_left : (fuel : ℕ) (h : H) → hash_loop hash fuel h [] ≡ (none, h)
  unfolding hash_loop
  nothing_left zero h = refl
  nothing_left (suc f) h = refl

  -- Any fuel of at least the number of bytes is enough.
  hash_loop_lem :
      (fuel : ℕ) (h : H) (b : Bytes)
      → length b ≤ fuel
      → ((hash_loop hash fuel h b).0 ≡ none) × (hashed (hash_loop hash fuel h b).1 ≡ hashed h ++ b)
  unfolding hash_loop hash_step
  hash_loop_lem zero h [] l = (refl, sym (append-nil (hashed h)))
  hash_loop_lem zero h (c ∷ b) l = absurd (omega arith)
  hash_loop_lem (suc f) h [] l = (refl, sym (append-nil (hashed h)))
  hash_loop_lem (suc f) h (c ∷ b) l =
      subst (λ (r : Option Error × H). (r.0 ≡ none) × (hashed r.1 ≡ hashed h ++ c ∷ b))
        (sym (
          ap
            (λ failure.
              hash_step failure h' (hash_loop hash f h' (drop (hash h (c ∷ b)).0 (c ∷ b))))
            (law.succeeds h (c ∷ b))
          ∙ ap (λ k. hash_loop hash f h' (drop k (c ∷ b))) (law.counts h (c ∷ b))
          ∙ ap (hash_loop hash f h') (drop_all b)
          ∙ nothing_left f h'))
        (refl, law.takes h (c ∷ b))
    where
      h' : H
      h' = (hash h (c ∷ b)).2

-- A write that the wrapped writer accepts adds the bytes that it has written, and only them, to what is
-- hashed, and answers as the writer did; a write that it refuses leaves the hash as it was.
pub write_with_sha256_lem :
    {W H : Type 0} (write : W → Bytes → ℕ × Option Error × W)
    (hash : H → Bytes → ℕ × Option Error × H) (hashed : H → Bytes)
    → IsHash hash hashed
    → (mw : Mobile2GoWriterWithSha256 W H) (b : Bytes)
    → let (n, failure, w) = write mw.writer b in
      let (n', failure', mw') = write_with_sha256 write hash mw b in
      (n' ≡ n)
      × (failure' ≡ failure)
      × (mw'.writer ≡ w)
      × (hashed mw'.sha256 ≡ hashed mw.sha256 ++ (if is_none failure then take n b else []))
unfolding write_with_sha256 hash_written
write_with_sha256_lem {W = W} write hash hashed law mw b = by_answer (write mw.writer b)
  where
    by_answer :
        (r : ℕ × Option Error × W)
        → let (n', failure', mw') = hash_written hash mw.sha256 b r in
          (n' ≡ r.0)
          × (failure' ≡ r.1)
          × (mw'.writer ≡ r.2)
          × (hashed mw'.sha256 ≡ hashed mw.sha256 ++ (if is_none r.1 then take r.0 b else []))
    by_answer (n, some e, w) = (refl, refl, refl, sym (append-nil (hashed mw.sha256)))
    by_answer (n, none, w) =
        let (fine, all) =
          hash_loop_lem hash hashed law n mw.sha256 (take n b) (omega (arith, length-take n b)) in
        (ap (λ x. if is_none x then n else 0) fine, fine, refl, all)
