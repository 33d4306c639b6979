-- ===== src/Crypto/Message/Tests.antt =====
-- Runs on a message of a key packet and a data packet.
use gopenpgp.Base.{
  true, ◌&&◌, Option, some, List, [], ◌∷◌, ◌++◌, Bytes, Error, Result, ok, err, is_cons, ◌≡◌,
}
use gopenpgp.Crypto.Packets.{Item, symmetric_key_encrypted, symmetrically_encrypted, packet}
use gopenpgp.Crypto.Message.{
  MessageCodec, PgpMessageBuffer, bytes_of, get_bytes, split_loop, new_pgp_message, armor,
  pgp_message_with_options,
}
use gopenpgp.Crypto.Message.Split.{
  front, end_of_keys, split_loop_lem, armor-new_pgp_message, pgp_message_with_options_lem,
}

abbrev items : List Item
items =
    (record { next = packet (symmetric_key_encrypted 1); left = 3 })
    ∷ (record { next = packet symmetrically_encrypted; left = 0 })
    ∷ []

abbrev codec : MessageCodec
codec = record {
  packets = λ b. items;
  unarmor = λ b. ok b;
  read_all = λ b. ok b;
  armor_message = λ b c. ok (0 ∷ b);
  armor_with_headers = λ b v c s. ok (0 ∷ b);
  armor_signature = λ b. ok (0 ∷ b);
  key_id_to_hex = λ n. "7";
}

abbrev text : Option Bytes
text = some (1 ∷ 2 ∷ 3 ∷ 4 ∷ 5 ∷ [])

split_example : split_loop 5 0 items ≡ end_of_keys 5 0 (front items)
split_example = split_loop_lem 5 0 items

armor_example :
    armor codec (new_pgp_message codec text)
    ≡ (elim (front (codec.packets (bytes_of text))) as (λ _. Result Bytes) [
      | ok xs ↦ codec.armor_message (bytes_of text) true
      | _ ↦ err (Error.new "gopenpgp: missing key packets in pgp message")
    ])
armor_example = armor-new_pgp_message codec text

abbrev buffer : PgpMessageBuffer
buffer = record { key = 1 ∷ []; content = 2 ∷ []; signature = [] }

options_example :
    let msg = pgp_message_with_options codec buffer true true in
    (get_bytes msg ≡ buffer.key ++ buffer.content)
    × (bytes_of msg.detached_signature ≡ buffer.signature)
    × (msg.detached_signature_is_plain ≡ (is_cons buffer.key && true))
    × (msg.omit_armor_checksum ≡ (is_cons buffer.key && true))
options_example = pgp_message_with_options_lem codec buffer true true
