-- ===== src/Crypto/Message.antt =====
-- crypto/message.go: PGP messages split into key packets and data packets. A byte slice that may be nil
-- is an `Option Bytes`; go-crypto's packet reader and the armor package are parameters.
pub mod Split
pub mod KeyIds
mod Tests
use gopenpgp.Base.{
  ℕ, suc, ◌+◌, ◌-◌, Bool, true, false, not, ◌&&◌, ◌||◌, Option, none, some, List, [], ◌∷◌, ◌++◌,
  map, Bytes, String, ℤ, pos, Error, is_eof, Result, ok, err, panic, ◌>>=◌, ◌>>◌, fail_if, wrap_err,
  length, take, drop, is_none, is_some, is_cons, if◌then◌else◌,
}
use gopenpgp.Crypto.SessionKey.{EncryptedKey}
use gopenpgp.Crypto.Packets.{
  Packet, Next, Item, encrypted_key, symmetric_key_encrypted, symmetrically_encrypted,
  aead_encrypted, compressed, literal_data, one_pass_signature, signature, other, packet, failed,
}

pub record LiteralMetadata : Type 0 where
  pub is_utf8 : Bool
  pub filename : String
  pub mod_time : ℤ

-- The getters of a metadata that may be nil.
pub get_filename : Option LiteralMetadata → String
get_filename none = ""
get_filename (some m) = m.filename

pub get_is_utf8 : Option LiteralMetadata → Bool
get_is_utf8 none = false
get_is_utf8 (some m) = m.is_utf8

pub get_time : Option LiteralMetadata → ℤ
get_time none = pos 0
get_time (some m) = m.mod_time

pub record PgpMessage : Type 0 where
  pub key_packet : Option Bytes
  pub data_packet : Option Bytes
  pub detached_signature : Option Bytes
  pub detached_signature_is_plain : Bool
  pub omit_armor_checksum : Bool

-- The bytes of a slice.
pub bytes_of : Option Bytes → Bytes
bytes_of none = []
bytes_of (some b) = b

-- `clone`, whose result is never nil.
pub clone : Option Bytes → Option Bytes
unfolding bytes_of
clone b = some (bytes_of b)

-- `data[:k]` and `data[k:]`
pub slice_to : ℕ → Option Bytes → Option Bytes
slice_to k none = none
slice_to k (some b) = some (take k b)

pub slice_from : ℕ → Option Bytes → Option Bytes
slice_from k none = none
slice_from k (some b) = some (drop k b)

-- A message with these packets and nothing else.
abbrev pub message_of : Option Bytes → Option Bytes → PgpMessage
message_of key content = record {
  key_packet = key;
  data_packet = content;
  detached_signature = none;
  detached_signature_is_plain = false;
  omit_armor_checksum = false;
}

-- (*PGPMessage).Bytes
pub get_bytes : PgpMessage → Bytes
unfolding bytes_of
get_bytes msg = bytes_of msg.key_packet ++ bytes_of msg.data_packet

-- The loop of splitMessage: `total` is the size of the reader, the second number the split point.
pub split_loop : ℕ → ℕ → List Item → Result ℕ
split_loop total point [] = ok point
split_loop total point (item ∷ items) = elim item.next [
  | failed e ↦ if is_eof e then ok point else err e
  | packet p ↦ elim p [
    | symmetric_key_encrypted s ↦ split_loop total (total - item.left) items
    | encrypted_key k ↦ split_loop total (total - item.left) items
    | symmetrically_encrypted ↦ ok point
    | aead_encrypted ↦ ok point
    | _ ↦ split_loop total point items
  ]
]

-- The loop of GetNumberOfKeyPackets.
pub count_key_packets : List Item → Result ℕ
count_key_packets [] = ok 0
count_key_packets (item ∷ items) = elim item.next [
  | failed e ↦ if is_eof e then ok 0 else err e
  | packet p ↦ elim p [
    | symmetric_key_encrypted s ↦ count_key_packets items >>= λ n. ok (suc n)
    | encrypted_key k ↦ count_key_packets items >>= λ n. ok (suc n)
    | _ ↦ count_key_packets items
  ]
]

-- The loop of EncryptionKeyIDs; an error that is not EOF leaves `p` nil and goes on.
pub encryption_key_ids_loop : List Item → List ℕ
encryption_key_ids_loop [] = []
encryption_key_ids_loop (item ∷ items) =
    let rest = encryption_key_ids_loop items in
    elim item.next [
      | failed e ↦ if is_eof e then [] else rest
      | packet p ↦ elim p [
        | encrypted_key k ↦ k.key_id ∷ rest
        | symmetrically_encrypted ↦ []
        | aead_encrypted ↦ []
        | compressed ↦ []
        | literal_data ↦ []
        | _ ↦ rest
      ]
    ]

-- The loop of SignatureKeyIDs.
pub signature_key_ids_loop : List Item → List ℕ
signature_key_ids_loop [] = []
signature_key_ids_loop (item ∷ items) =
    let rest = signature_key_ids_loop items in
    elim item.next [
      | failed e ↦ if is_eof e then [] else rest
      | packet p ↦ elim p [
        | one_pass_signature id ↦ id ∷ rest
        | signature issuer ↦ elim issuer [ none ↦ rest | some id ↦ id ∷ rest ]
        | symmetrically_encrypted ↦ []
        | aead_encrypted ↦ []
        | compressed ↦ []
        | literal_data ↦ []
        | _ ↦ rest
      ]
    ]

pub record PgpMessageBuffer : Type 0 where
  pub key : Bytes
  pub content : Bytes
  pub signature : Bytes

-- NewPGPMessageBuffer
pub new_pgp_message_buffer : PgpMessageBuffer
new_pgp_message_buffer = record { key = []; content = []; signature = [] }

-- (*PGPMessageBuffer).Write, and the writers that Keys and Signature give.
pub write_data : PgpMessageBuffer → Bytes → PgpMessageBuffer
write_data mb b = record mb { content = mb.content ++ b }

pub write_key : PgpMessageBuffer → Bytes → PgpMessageBuffer
write_key mb b = record mb { key = mb.key ++ b }

pub write_signature : PgpMessageBuffer → Bytes → PgpMessageBuffer
write_signature mb b = record mb { signature = mb.signature ++ b }

-- (*PGPMessage).EncryptedDetachedSignature
pub encrypted_detached_signature : PgpMessage → Option PgpMessage
encrypted_detached_signature msg =
    if is_none msg.detached_signature || msg.detached_signature_is_plain
    then none
    else some (message_of msg.key_packet msg.detached_signature)

-- (*PGPMessage).PlainDetachedSignature
pub plain_detached_signature : PgpMessage → Result Bytes
plain_detached_signature msg = elim msg.detached_signature [
  | none ↦ err (Error.new "gopenpgp: no plaintext detached signature found")
  | some b ↦
      if not msg.detached_signature_is_plain
      then err (Error.new "gopenpgp: no plaintext detached signature found")
      else ok b
]

-- The packet reader of go-crypto and the functions of the armor package: the flag is whether to write a
-- checksum, and the strings are version and comment.
pub record MessageCodec : Type 0 where
  pub packets : Bytes → List Item
  pub unarmor : Bytes → Result Bytes
  pub read_all : Bytes → Result Bytes
  pub armor_message : Bytes → Bool → Result Bytes
  pub armor_with_headers : Bytes → String → String → Bool → Result Bytes
  pub armor_signature : Bytes → Result Bytes
  pub key_id_to_hex : ℕ → String

module _ (codec : MessageCodec) where
  -- `data[:splitPoint]` and `data[splitPoint:]`
  pub split_at : Option Bytes → Result ℕ → Result PgpMessage
  unfolding slice_to slice_from
  split_at content (ok k) = ok (message_of (slice_to k content) (slice_from k content))
  split_at content (err e) = err e
  split_at content panic = panic

  -- (*PGPMessage).splitMessage
  pub split_message : PgpMessage → Result PgpMessage
  unfolding bytes_of split_loop
  split_message msg =
      split_at msg.data_packet (
        split_loop (length (bytes_of msg.data_packet)) 0 (codec.packets (bytes_of msg.data_packet)))

  -- If there is an error in the split the data are data packets.
  pub or_data : Option Bytes → Result PgpMessage → PgpMessage
  or_data content (ok msg) = msg
  or_data content (err e) = message_of none content
  or_data content panic = message_of none content

  -- NewPGPMessageWithCloneFlag
  pub new_pgp_message_with_clone_flag : Option Bytes → Bool → PgpMessage
  unfolding clone split_message
  new_pgp_message_with_clone_flag content do_clone =
      let packet_data = if do_clone then clone content else content in
      or_data packet_data (split_message (message_of none packet_data))

  -- NewPGPMessage
  pub new_pgp_message : Option Bytes → PgpMessage
  new_pgp_message content = new_pgp_message_with_clone_flag content true

  -- NewPGPMessageFromArmored
  pub new_pgp_message_from_armored : Bytes → Result PgpMessage
  new_pgp_message_from_armored armored = do
    body ← wrap_err "gopenpgp: error in unarmoring message" (codec.unarmor armored)
    message ← wrap_err "gopenpgp: error in reading armored message" (codec.read_all body)
    wrap_err "gopenpgp: error in splitting message" (split_message (message_of none (some message)))

  -- NewPGPSplitMessage
  pub new_pgp_split_message : Option Bytes → Option Bytes → PgpMessage
  new_pgp_split_message key content = message_of (clone key) (clone content)

  -- (*PGPMessage).Armor and (*PGPMessage).ArmorBytes
  pub armor : PgpMessage → Result Bytes
  armor msg =
      if is_none msg.key_packet
      then err (Error.new "gopenpgp: missing key packets in pgp message")
      else codec.armor_message (get_bytes msg) (not msg.omit_armor_checksum)

  -- (*PGPMessage).ArmorWithCustomHeaders
  pub armor_with_custom_headers : PgpMessage → String → String → Result Bytes
  armor_with_custom_headers msg comment version =
      codec.armor_with_headers (get_bytes msg) version comment (not msg.omit_armor_checksum)

  -- (*PGPMessage).PlainDetachedSignatureArmor
  pub plain_detached_signature_armor : PgpMessage → Result Bytes
  plain_detached_signature_armor msg = plain_detached_signature msg >>= codec.armor_signature

  -- (*PGPMessage).GetNumberOfKeyPackets
  pub get_number_of_key_packets : PgpMessage → Result ℕ
  get_number_of_key_packets msg = count_key_packets (codec.packets (bytes_of msg.key_packet))

  -- `if len(ids) > 0 { return ids, true }`
  pub with_found : List ℕ → List ℕ × Bool
  with_found ids = (ids, is_cons ids)

  -- (*PGPMessage).EncryptionKeyIDs
  pub encryption_key_ids : PgpMessage → List ℕ × Bool
  encryption_key_ids msg =
      with_found (encryption_key_ids_loop (codec.packets (bytes_of msg.key_packet)))

  -- SignatureKeyIDs, which the method of a message calls on its data packet
  pub signature_key_ids : Bytes → List ℕ × Bool
  signature_key_ids b = with_found (signature_key_ids_loop (codec.packets b))

  -- hexKeyIDs
  pub hex_key_ids : List ℕ × Bool → List String × Bool
  hex_key_ids (ids, found) = (map codec.key_id_to_hex ids, found)

  -- (*PGPMessageBuffer).PGPMessageWithOptions
  pub pgp_message_with_options : PgpMessageBuffer → Bool → Bool → PgpMessage
  pgp_message_with_options mb is_plain omit_armor_checksum =
      let detached = if is_cons mb.signature then some mb.signature else none in
      if not (is_cons mb.key)
      then record (new_pgp_message (some mb.content)) { detached_signature = detached }
      else record {
        key_packet = some mb.key;
        data_packet = some mb.content;
        detached_signature = detached;
        detached_signature_is_plain = is_plain;
        omit_armor_checksum = omit_armor_checksum;
      }
