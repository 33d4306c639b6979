-- ===== src/Mobile.antt =====
-- mobile/mobile_stream.go: readers and writers that cross between Go and a mobile runtime. A clone of a
-- buffer is equal to it; the runtime's readers, the wrapped writers and the hash are parameters.
pub mod Readers
pub mod Hashing
use gopenpgp.Base.{
  ℕ, zero, suc, ◌+◌, ◌-◌, Bool, true, false, Option, none, some, List, [], ◌∷◌, ◌++◌, Bytes, Error,
  eof, is_eof, Result, ok, err, panic, length, take, drop, ltb, ◌==◌, is_cons, is_none,
  if◌then◌else◌,
}
use gopenpgp.Internal.Reader.{Read}

-- `n` is the length of the data that are read.
pub record MobileReadResult : Type 0 where
  pub n : ℕ
  pub is_eof : Bool
  pub bytes : Bytes

-- MobileReader.Read
abbrev pub MobileRead : Type 0 → Type 0
MobileRead S = S → ℕ → Result MobileReadResult × S

-- What (*Go2IOSReader).Read makes of the reader's answer.
pub ios_answer : {S : Type 0} → Bytes × Option Error × S → Result MobileReadResult × S
ios_answer (b, none, s) = (ok (record { n = length b; is_eof = false; bytes = b }), s)
ios_answer (b, some e, s) =
    if is_eof e then (ok (record { n = length b; is_eof = true; bytes = b }), s) else (err e, s)

-- (*Go2IOSReader).Read; the reader gives at most `max` bytes.
pub go_to_ios_read : {S : Type 0} → Read S → MobileRead S
go_to_ios_read reader s max = ios_answer (reader s max)

-- What (*Mobile2GoReader).Read does with the answer: the buffer has `k` places, and `result.Data[:n]`
-- panics if there are fewer data, which is `none`.
pub mobile_to_go_answer :
    {S : Type 0} → ℕ → Result MobileReadResult × S → Option (Bytes × Option Error × S)
mobile_to_go_answer k (ok result, s) =
    if ltb (length result.bytes) result.n
    then none
    else some (take k (take result.n result.bytes), (if result.is_eof then some eof else none), s)
mobile_to_go_answer k (err e, s) =
    some ([], some (Error.wrapped "gopenpgp: couldn't read from mobile reader" e), s)
mobile_to_go_answer k (panic, s) = none

-- (*Mobile2GoReader).Read
pub mobile_to_go_read : {S : Type 0} → MobileRead S → S → ℕ → Option (Bytes × Option Error × S)
mobile_to_go_read reader s k = mobile_to_go_answer k (reader s k)

pub record Go2AndroidReader (S : Type 0) : Type 0 where
  pub is_eof : Bool
  pub reader : S

-- What (*Go2AndroidReader).Read gives: `end_of_data` is `n = -1`.
pub data AndroidRead : Type 0 where
  end_of_data : AndroidRead
  given : Bytes → Option Error → AndroidRead

pub android_answer : {S : Type 0} → Bytes × Option Error × S → AndroidRead × Go2AndroidReader S
android_answer (b, none, s) = (given b none, record { is_eof = false; reader = s })
android_answer (b, some e, s) =
    if is_eof e
    then if is_cons b
      then (given b none, record { is_eof = true; reader = s })
      else (end_of_data, record { is_eof = false; reader = s })
    else (given b (some e), record { is_eof = false; reader = s })

-- (*Go2AndroidReader).Read
pub go_to_android_read :
    {S : Type 0} → Read S → Go2AndroidReader S → ℕ → AndroidRead × Go2AndroidReader S
go_to_android_read reader r k =
    if r.is_eof then (end_of_data, r) else android_answer (reader r.reader k)

-- `if err != nil { return 0, errors.Wrap(err, …) }` in the loop that hashes.
pub hash_step : {H : Type 0} → Option Error → H → Option Error × H → Option Error × H
hash_step (some e) h go_on = (some (Error.wrapped "gopenpgp: couldn't hash encrypted data" e), h)
hash_step none h go_on = go_on

-- The loop that hashes `bufferCopy[hashedTotal:n]`, with fuel for each byte.
pub hash_loop : {H : Type 0} → (H → Bytes → ℕ × Option Error × H) → ℕ → H → Bytes → Option Error × H
hash_loop hash zero h rest = (none, h)
hash_loop hash (suc fuel) h [] = (none, h)
hash_loop hash (suc fuel) h (c ∷ rest) =
    let (hashed, failure, h') = hash h (c ∷ rest) in
    hash_step failure h' (hash_loop hash fuel h' (drop hashed (c ∷ rest)))

pub record Mobile2GoWriterWithSha256 (W H : Type 0) : Type 0 where
  pub writer : W
  pub sha256 : H

-- (*Mobile2GoWriterWithSHA256).Write behind the write.
pub hash_written :
    {W H : Type 0}
    → (H → Bytes → ℕ × Option Error × H)
    → H
    → Bytes
    → ℕ × Option Error × W
    → ℕ × Option Error × Mobile2GoWriterWithSha256 W H
hash_written hash h b (n, some e, w) = (n, some e, record { writer = w; sha256 = h })
hash_written hash h b (n, none, w) =
    let (failure, h') = hash_loop hash n h (take n b) in
    ((if is_none failure then n else 0), failure, record { writer = w; sha256 = h' })

-- (*Mobile2GoWriterWithSHA256).Write
pub write_with_sha256 :
    {W H : Type 0}
    → (W → Bytes → ℕ × Option Error × W)
    → (H → Bytes → ℕ × Option Error × H)
    → Mobile2GoWriterWithSha256 W H
    → Bytes
    → ℕ × Option Error × Mobile2GoWriterWithSha256 W H
write_with_sha256 write hash mw b = hash_written hash mw.sha256 b (write mw.writer b)
