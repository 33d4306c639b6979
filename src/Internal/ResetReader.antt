-- ===== src/Internal/ResetReader.antt =====
-- internal/common.go: ResetReader, a reader that can start again. The reader that it wraps is a parameter
-- with a state.
pub mod Again
mod Tests
use gopenpgp.Base.{
  ℕ, Bool, true, false, not, Option, none, some, List, [], ◌∷◌, ◌++◌, Bytes, Error, eof, Result, ok,
  err, take, drop, ◌==◌, if◌then◌else◌,
}
use gopenpgp.Internal.Reader.{Read, is_exactly_eof}

-- The readers that stand in a ResetReader: the wrapped one, and an `io.MultiReader` with a buffer and a
-- reader, with the reader only, or with none.
pub data Source (S : Type 0) : Type 0 where
  raw : S → Source S
  multi : Bytes → Source S → Source S
  last : Source S → Source S
  done : Source S

pub record ResetReader (S : Type 0) : Type 0 where
  pub reader : Source S
  pub buffer : Bytes
  pub buffer_data : Bool

-- NewResetReader
unfoldable pub new_reset_reader : {S : Type 0} → S → ResetReader S
new_reset_reader s = record { reader = Source.raw s; buffer = []; buffer_data = true }

-- An `io.MultiReader` drops its only reader at the end.
pub last_answer : {S : Type 0} → Bytes × Option Error × Source S → Bytes × Option Error × Source S
last_answer (b, e, r) =
    if is_exactly_eof e then (b, some eof, Source.done) else (b, e, Source.last r)

-- `Read` of the readers: the buffer of an `io.MultiReader` is read first.
pub source_read : {S : Type 0} → Read S → Source S → ℕ → Bytes × Option Error × Source S
source_read internal (raw s) k = let (b, e, s') = internal s k in (b, e, Source.raw s')
source_read internal (multi [] r) k =
    let answer = last_answer (source_read internal r k) in
    if k == 0 then ([], none, Source.multi [] r) else answer
source_read internal (multi (c ∷ b) r) k = (take k (c ∷ b), none, Source.multi (drop k (c ∷ b)) r)
source_read internal (last r) k = last_answer (source_read internal r k)
source_read internal done k = ([], some eof, Source.done)

-- (*ResetReader).Read
pub read : {S : Type 0} → Read S → ResetReader S → ℕ → Bytes × Option Error × ResetReader S
read internal rr k =
    let (b, e, r) = source_read internal rr.reader k in
    (
      b,
      e,
      record {
        reader = r;
        buffer = if rr.buffer_data then rr.buffer ++ b else rr.buffer;
        buffer_data = rr.buffer_data;
      },
    )

-- (*ResetReader).DisableBuffering
pub disable_buffering : {S : Type 0} → ResetReader S → ResetReader S
disable_buffering rr = record rr { buffer_data = false }

-- (*ResetReader).Reset: the reader that it returns is the one that it keeps.
pub reset : {S : Type 0} → ResetReader S → Result (Source S) × ResetReader S
reset rr =
    if not rr.buffer_data
    then (err (Error.new "reset not possible if buffering is disabled"), rr)
    else (
      ok (Source.multi rr.buffer rr.reader),
      record {
        reader = Source.multi rr.buffer rr.reader;
        buffer = [];
        buffer_data = rr.buffer_data;
      },
    )
