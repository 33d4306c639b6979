-- ===== src/Crypto/Writers.antt =====
-- The writers that the handles put together (crypto/encryption_handle.go and crypto/encryption_core.go).
-- The parts of one message write to one another, so they share a state `T`.
pub mod Detached
mod Tests
use gopenpgp.Base.{
  ℕ, Bool, true, false, Option, none, some, List, [], ◌∷◌, Bytes, Error, length, ◌==◌, is_some,
  if◌then◌else◌,
}
use gopenpgp.Internal.Reader.{WriteCloser}

-- `if err := w.Close(); err != nil { return err }` in front of the rest of a Close.
pub and_then : {T : Type 0} → Option Error × T → (T → Option Error × T) → Option Error × T
and_then (some e, t) rest = (some e, t)
and_then (none, t) rest = rest t

module _ {T : Type 0} where
  -- armoredWriteCloser, with its message writer, its signature's armor writer, if any, and its armor writer.
  pub armored_write_closer : WriteCloser T → Option (WriteCloser T) → WriteCloser T → WriteCloser T
  unfolding and_then
  armored_write_closer message sig armor = record {
    write = message.write;
    close = λ t.
        and_then (message.close t)
          (λ t'. elim sig [ none ↦ armor.close t' | some s ↦ and_then (s.close t') armor.close ]);
  }

  -- signAndEncryptWriteCloser
  pub sign_and_encrypt_write_closer : WriteCloser T → WriteCloser T → WriteCloser T
  unfolding and_then
  sign_and_encrypt_write_closer sign encrypt = record {
    write = sign.write;
    close = λ t. and_then (sign.close t) encrypt.close;
  }

  -- The rest of a `Write` of `io.MultiWriter`, behind the answer of one of its writers.
  pub written_to : Bytes → (T → ℕ × Option Error × T) → ℕ × Option Error × T → ℕ × Option Error × T
  written_to p rest (n, some e, t) = (n, some e, t)
  written_to p rest (n, none, t) =
      if n == length p then rest t else (n, some (Error.new "short write"), t)

  -- `Write` of `io.MultiWriter` with two writers.
  pub multi_write : WriteCloser T → WriteCloser T → T → Bytes → ℕ × Option Error × T
  unfolding written_to
  multi_write first second t p =
      written_to p (λ t'. written_to p (λ t''. (length p, none, t'')) (second.write t' p))
        (first.write t p)

  -- encryptSignDetachedWriter: the writers to the ciphertext and to the signature of the plaintext, and
  -- the writer of the signature.
  pub encrypt_sign_detached_writer : WriteCloser T → WriteCloser T → WriteCloser T → WriteCloser T
  unfolding and_then multi_write
  encrypt_sign_detached_writer pt_to_ciphertext pt_to_enc_sig sig_to_ciphertext = record {
    write = multi_write pt_to_ciphertext pt_to_enc_sig;
    close = λ t.
        and_then (pt_to_ciphertext.close t)
          (λ t'. and_then (pt_to_enc_sig.close t') sig_to_ciphertext.close);
  }

  -- noOpWriteCloser of internal/common.go, around the `Write` of a writer.
  pub new_no_op_write_closer : (T → Bytes → ℕ × Option Error × T) → WriteCloser T
  new_no_op_write_closer write = record { write = write; close = λ t. (none, t) }

  -- What a caller does that writes until an error.
  pub write_each : WriteCloser T → T → List Bytes → Option Error × T
  write_each w t [] = (none, t)
  write_each w t (p ∷ ps) =
      let (n, failure, t') = w.write t p in
      let rest = write_each w t' ps in if is_some failure then (failure, t') else rest
