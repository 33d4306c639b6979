-- ===== src/Crypto/Writers/Detached.antt =====
-- What is encrypted is what is signed (encryptSignDetachedWriter of crypto/encryption_core.go).
use gopenpgp.Base.{
  ℕ, zero, suc, drop, take-append-drop, Bool, true, false, Option, none, some, List, [], ◌∷◌, ◌++◌,
  append_assoc, append-nil, Bytes, Error, length, take, ◌==◌, is_some, if◌then◌else◌, ◌≡◌, refl,
  sym, ◌∙◌, ap, arith,
}
use gopenpgp.Internal.Reader.{WriteCloser}
use gopenpgp.Crypto.Writers.{written_to, multi_write, encrypt_sign_detached_writer, write_each}

-- A writer that takes the front part of the bytes that it counts, and that leaves what another one has
-- taken alone.
pub record Takes {T : Type 0} (w : WriteCloser T) (taken others : T → Bytes) : Type 0 where
  pub appends : (t : T) (p : Bytes) → taken (w.write t p).2 ≡ taken t ++ take (w.write t p).0 p
  pub separate : (t : T) (p : Bytes) → others (w.write t p).2 ≡ others t

abbrev pub concat : List Bytes → Bytes
concat [] = []
concat (p ∷ ps) = p ++ concat ps

take-length : (n : ℕ) (p : Bytes) → (n == length p) ≡ true → take n p ≡ p
take-length zero [] h = refl
take-length zero (x ∷ p) h = absurd (ground arith)
take-length (suc n) [] h = absurd (ground arith)
take-length (suc n) (x ∷ p) h = ap (λ q. x ∷ q) (take-length n p (ground arith))

module _ {T : Type 0} (pt sig encrypt : WriteCloser T) (encrypted signed : T → Bytes)
    (pt_law : Takes pt encrypted signed) (sig_law : Takes sig signed encrypted) where
  abbrev w : WriteCloser T
  w = encrypt_sign_detached_writer pt sig encrypt

  -- The encrypted bytes go on where the signed ones end.
  abbrev IsAhead : T → Type 0
  IsAhead t = (rest : Bytes) × (encrypted t ≡ signed t ++ rest)

  -- What a write from equal states comes to.
  abbrev Outcome : T → Bytes → ℕ × Option Error × T → Type 0
  Outcome t p (n, none, t') = (encrypted t' ≡ encrypted t ++ p) × (signed t' ≡ signed t ++ p)
  Outcome t p (n, some e, t') = IsAhead t'

  second_lem :
      (t t' : T) (p : Bytes) (a : ℕ × Option Error × T)
      → encrypted t ≡ signed t
      → encrypted a.2 ≡ encrypted t ++ p
      → signed a.2 ≡ signed t ++ take a.0 p
      → Outcome t p (written_to p (λ t''. (length p, none, t'')) a)
  unfolding written_to
  second_lem t t' p (n, some e, u) same all part = (
    drop n p,
    all
        ∙ ap (λ x. x ++ p) same
        ∙ ap (λ x. signed t ++ x) (sym (take-append-drop n p))
        ∙ sym (append_assoc (signed t) (take n p) (drop n p))
        ∙ ap (λ x. x ++ drop n p) (sym part),
  )
  second_lem t t' p (n, none, u) same all part = by_count (n == length p) refl
    where
      by_count :
          (b : Bool)
          → (n == length p) ≡ b
          → Outcome t p (if b then (length p, none, u) else (n, some (Error.new "short write"), u))
      by_count true e = (all, part ∙ ap (λ x. signed t ++ x) (take-length n p e))
      by_count false e = (
        drop n p,
        all
            ∙ ap (λ x. x ++ p) same
            ∙ ap (λ x. signed t ++ x) (sym (take-append-drop n p))
            ∙ sym (append_assoc (signed t) (take n p) (drop n p))
            ∙ ap (λ x. x ++ drop n p) (sym part),
      )

  first_lem :
      (t : T) (p : Bytes) (a : ℕ × Option Error × T)
      → encrypted t ≡ signed t
      → encrypted a.2 ≡ encrypted t ++ take a.0 p
      → signed a.2 ≡ signed t
      → Outcome t p
          (written_to p (λ t'. written_to p (λ t''. (length p, none, t'')) (sig.write t' p)) a)
  unfolding written_to
  first_lem t p (n, some e, u) same part left =
      (take n p, part ∙ ap (λ x. x ++ take n p) (same ∙ sym left))
  first_lem t p (n, none, u) same part left = by_count (n == length p) refl
    where
      by_count :
          (b : Bool)
          → (n == length p) ≡ b
          → Outcome t p (
              if b
              then written_to p (λ t''. (length p, none, t'')) (sig.write u p)
              else (n, some (Error.new "short write"), u))
      by_count true e =
          second_lem t u p (sig.write u p) same
            (sig_law.separate u p ∙ part ∙ ap (λ x. encrypted t ++ x) (take-length n p e))
            (sig_law.appends u p ∙ ap (λ x. x ++ take (sig.write u p).0 p) left)
      by_count false e = (take n p, part ∙ ap (λ x. x ++ take n p) (same ∙ sym left))

  write_lem : (t : T) (p : Bytes) → encrypted t ≡ signed t → Outcome t p (w.write t p)
  unfolding encrypt_sign_detached_writer multi_write
  write_lem t p same = first_lem t p (pt.write t p) same (pt_law.appends t p) (pt_law.separate t p)

  -- A run of writes that starts from equal states.
  abbrev Run : T → List Bytes → Option Error × T → Type 0
  Run t ps (none, t') =
      (encrypted t' ≡ encrypted t ++ concat ps) × (signed t' ≡ signed t ++ concat ps)
  Run t ps (some e, t') = IsAhead t'

  step_lem :
      (t : T) (p : Bytes) (ps : List Bytes) (a : ℕ × Option Error × T) (rest : Option Error × T)
      → encrypted t ≡ signed t
      → Outcome t p a
      → (encrypted a.2 ≡ signed a.2 → Run a.2 ps rest)
      → Run t (p ∷ ps) (if is_some a.1 then (a.1, a.2) else rest)
  step_lem t p ps (n, some e, u) rest same o ih = o
  step_lem t p ps (n, none, u) (some e, u') same (all, all') ih =
      ih (all ∙ ap (λ x. x ++ p) same ∙ sym all')
  step_lem t p ps (n, none, u) (none, u') same (all, all') ih =
      let (more, more') = ih (all ∙ ap (λ x. x ++ p) same ∙ sym all') in
      (
        more ∙ ap (λ x. x ++ concat ps) all ∙ append_assoc (encrypted t) p (concat ps),
        more' ∙ ap (λ x. x ++ concat ps) all' ∙ append_assoc (signed t) p (concat ps),
      )

  run_lem : (ps : List Bytes) (t : T) → encrypted t ≡ signed t → Run t ps (write_each w t ps)
  unfolding write_each
  run_lem [] t same = (sym (append-nil (encrypted t)), sym (append-nil (signed t)))
  run_lem (p ∷ ps) t same =
      step_lem t p ps (w.write t p) (write_each w (w.write t p).2 ps) same (write_lem t p same)
        (run_lem ps (w.write t p).2)

  stopped_lem :
      (t : T) (ps : List Bytes) (r : Option Error × T)
      → encrypted t ≡ []
      → signed t ≡ []
      → Run t ps r
      → (r.0 ≡ none → (encrypted r.1 ≡ concat ps) × (signed r.1 ≡ concat ps))
        × ((rest : Bytes) × (encrypted r.1 ≡ signed r.1 ++ rest))
  stopped_lem t ps (none, u) e s (all, all') =
      let at_ciphertext = all ∙ ap (λ x. x ++ concat ps) e in
      let at_signature = all' ∙ ap (λ x. x ++ concat ps) s in
      (
        λ h. (at_ciphertext, at_signature),
        ([], at_ciphertext ∙ sym at_signature ∙ sym (append-nil (signed u))),
      )
  stopped_lem t ps (some x, u) e s (rest, ahead) = (λ h. absurd (ground arith), (rest, ahead))

  -- Where the writers to the ciphertext and to the signature take the bytes that they count and leave each
  -- other's alone, and nothing has been written: after writes that all succeed, what was encrypted and what
  -- was signed are both the written bytes; after a write that fails, what was signed is a front part of what
  -- was encrypted.
  pub write_each-detached :
      (t : T) (ps : List Bytes)
      → encrypted t ≡ []
      → signed t ≡ []
      → ((write_each w t ps).0 ≡ none
          → (encrypted (write_each w t ps).1 ≡ concat ps)
            × (signed (write_each w t ps).1 ≡ concat ps))
        × ((rest : Bytes) × (encrypted (write_each w t ps).1
              ≡ signed (write_each w t ps).1 ++ rest))
  write_each-detached t ps none_encrypted none_signed =
      stopped_lem t ps (write_each w t ps) none_encrypted none_signed
        (run_lem ps t (none_encrypted ∙ sym none_signed))
