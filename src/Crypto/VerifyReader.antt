-- ===== src/Crypto/VerifyReader.antt =====
-- crypto/verify_reader.go: the reader of data that are to be verified. The reader that it wraps is a
-- parameter with a state; a run of reads with buffers of given lengths stands for io.ReadAll, which reads
-- until an error.
pub mod Guard
pub mod Whole
mod Tests
use gopenpgp.Base.{
  ℕ, Bool, true, false, not, ◌||◌, Option, none, some, List, [], ◌∷◌, ◌++◌, Bytes, String, ℤ, Error,
  eof, is_eof, Result, ok, err, panic, if◌then◌else◌,
}
use gopenpgp.Internal.Reader.{Read}
use gopenpgp.Crypto.KeyRing.{KeyRing}
use gopenpgp.Crypto.Message.{LiteralMetadata}
use gopenpgp.Crypto.SessionKey.{SessionKey, get_algo, new_session_key_from_token}
use gopenpgp.Crypto.Signature.{
  VerificationContext, VerifyResult, MessageDetails, create_verify_result,
}

-- The fields of a `packet.LiteralData` that are read.
pub record LiteralData : Type 0 where
  pub file_name : String
  pub is_binary : Bool
  pub time : ℤ

-- `literal_data`, `session_key` and `decrypted_with` stand in the message details.
pub record VerifyDataReader (S : Type 0) : Type 0 where
  pub details : MessageDetails
  pub literal_data : Option LiteralData
  pub session_key : Option Bytes
  pub decrypted_with : ℕ
  pub internal_reader : S
  pub verify_key_ring : Option KeyRing
  pub verify_time : ℤ
  pub disable_time_check : Bool
  pub read_all : Bool
  pub verification_context : Option VerificationContext

-- The fields of VerifiedDataResult.
pub record VerifiedDataResult : Type 0 where
  pub verify_result : VerifyResult
  pub metadata : Option LiteralMetadata
  pub bytes : Bytes
  pub cached_session_key : Option SessionKey

-- (*VerifyDataReader).GetMetadata
unfoldable pub get_metadata : {S : Type 0} → VerifyDataReader S → Option LiteralMetadata
get_metadata msg = elim msg.literal_data [
  | none ↦ none
  | some l ↦ some (record { is_utf8 = not l.is_binary; filename = l.file_name; mod_time = l.time })
]

-- (*VerifyDataReader).SessionKey; the list is symKeyAlgos in the order of the loop of getAlgo.
unfoldable pub get_session_key :
    {S : Type 0} → List (String × ℕ) → VerifyDataReader S → Option SessionKey
get_session_key es msg = elim msg.session_key [
  | none ↦ none
  | some k ↦ some (new_session_key_from_token k (get_algo es msg.decrypted_with))
]

-- `errors.Is(err, io.EOF)` for an error that may be nil.
unfoldable pub ends : Option Error → Bool
ends none = false
ends (some e) = is_eof e

-- (*VerifyDataReader).VerifySignature: the details afterwards, and the result.
unfoldable pub verify_signature :
    {S : Type 0} → VerifyDataReader S → MessageDetails × Result VerifyResult
verify_signature msg =
    if not msg.read_all
    then (
      msg.details,
      err (
          Error.new
            "gopenpgp: can't verify the signature until the message reader has been read entirely"),
    )
    else create_verify_result msg.details msg.verify_key_ring msg.verification_context
        msg.verify_time msg.disable_time_check

module _ {S : Type 0} (internal : Read S) where
  -- (*VerifyDataReader).Read
  unfoldable pub read : VerifyDataReader S → ℕ → Bytes × Option Error × VerifyDataReader S
  read msg k =
      let (b, failure, s) = internal msg.internal_reader k in
      (b, failure, record msg { internal_reader = s; read_all = msg.read_all || ends failure })

  -- What io.ReadAll does with the answer of a read and the rest of the run.
  unfoldable pub read_on :
      Bytes × Option Error × VerifyDataReader S
      → Option (Result Bytes × VerifyDataReader S)
      → Option (Result Bytes × VerifyDataReader S)
  read_on (b, some eof, msg) rest = some (ok b, msg)
  read_on (b, some e, msg) rest = some (err e, msg)
  read_on (b, none, msg) (some (ok b', msg')) = some (ok (b ++ b'), msg')
  read_on (b, none, msg) rest = rest

  -- (*VerifyDataReader).ReadAll with buffers of the given lengths; `none` if they are used up.
  unfoldable pub read_all : VerifyDataReader S → List ℕ → Option (Result Bytes × VerifyDataReader S)
  read_all msg [] = none
  read_all msg (k ∷ ks) = read_on (read msg k) (read_all (read msg k).2 ks)

  -- The result of VerifySignature is dereferenced; it is nil when there is an error.
  pub verified :
      List (String × ℕ)
      → VerifyDataReader S
      → Bytes
      → MessageDetails × Result VerifyResult
      → Result VerifiedDataResult
  verified es msg b (details, ok vr) = ok (record {
    verify_result = vr;
    metadata = get_metadata msg;
    bytes = b;
    cached_session_key = get_session_key es msg;
  })
  verified es msg b (details, err e) = panic
  verified es msg b (details, panic) = panic

  -- What ReadAllAndVerifySignature does behind ReadAll.
  pub verify_all :
      List (String × ℕ)
      → Option (Result Bytes × VerifyDataReader S)
      → Option (Result VerifiedDataResult)
  verify_all es none = none
  verify_all es (some (ok b, msg)) = some (verified es msg b (verify_signature msg))
  verify_all es (some (err e, msg)) =
      some (err (Error.wrapped "gopenpgp: reading all data from reader failed" e))
  verify_all es (some (panic, msg)) = some panic

  -- (*VerifyDataReader).ReadAllAndVerifySignature
  pub read_all_and_verify_signature :
      List (String × ℕ) → VerifyDataReader S → List ℕ → Option (Result VerifiedDataResult)
  read_all_and_verify_signature es msg ks = verify_all es (read_all msg ks)

  -- What DiscardAllAndVerifySignature does behind DiscardAll.
  pub verify_discarded :
      Option (Result Bytes × VerifyDataReader S) → Option (MessageDetails × Result VerifyResult)
  verify_discarded none = none
  verify_discarded (some (ok b, msg)) = some (verify_signature msg)
  verify_discarded (some (err e, msg)) =
      some (msg.details, err (Error.wrapped "gopenpgp: discarding data from reader failed" e))
  verify_discarded (some (panic, msg)) = some (msg.details, panic)

  -- (*VerifyDataReader).DiscardAllAndVerifySignature: the details afterwards, and the result. `io.Copy` to
  -- `io.Discard` reads as ReadAll does and keeps nothing.
  pub discard_all_and_verify_signature :
      VerifyDataReader S → List ℕ → Option (MessageDetails × Result VerifyResult)
  discard_all_and_verify_signature msg ks = verify_discarded (read_all msg ks)
