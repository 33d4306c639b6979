-- ===== src/Crypto/Message/KeyIds.antt =====
-- The key ids of a message against the number of its key packets (crypto/message.go).
use gopenpgp.Base.{
  ℕ, suc, ◌≤◌, List, [], ◌∷◌, is_eof, Result, ok, err, panic, ◌>>=◌, length, ◌≡◌, refl, arith,
  Ensures, Bool-cases, inl, inr,
}
use gopenpgp.Crypto.Packets.{
  Next, Item, encrypted_key, symmetric_key_encrypted, symmetrically_encrypted, aead_encrypted,
  compressed, literal_data, one_pass_signature, signature, other, packet, failed,
}
use gopenpgp.Crypto.Message.{
  PgpMessage, MessageCodec, bytes_of, count_key_packets, encryption_key_ids_loop, with_found,
  encryption_key_ids, get_number_of_key_packets,
}

-- At most the count, if the count succeeds.
abbrev Bounds : ℕ → Result ℕ → Type 0
Bounds k r = Ensures (λ n. k ≤ n) r

Bounds-suc : (k : ℕ) (r : Result ℕ) → Bounds k r → Bounds (suc k) (r >>= λ n. ok (suc n))
Bounds-suc k (ok n) h = omega arith
Bounds-suc k (err e) h = tt
Bounds-suc k panic h = tt

Bounds-more : (k : ℕ) (r : Result ℕ) → Bounds k r → Bounds k (r >>= λ n. ok (suc n))
Bounds-more k (ok n) h = omega arith
Bounds-more k (err e) h = tt
Bounds-more k panic h = tt

Bounds-zero : (r : Result ℕ) → Bounds 0 r
Bounds-zero (ok n) = omega arith
Bounds-zero (err e) = tt
Bounds-zero panic = tt

loop_lem :
    (items : List Item) → Bounds (length (encryption_key_ids_loop items)) (count_key_packets items)
unfolding encryption_key_ids_loop count_key_packets
loop_lem [] = omega arith
loop_lem (item ∷ items) = by_next item.next refl (loop_lem items)
  where
    by_next :
        (n : Next)
        → item.next ≡ n
        → Bounds (length (encryption_key_ids_loop items)) (count_key_packets items)
        → Bounds
            (length (encryption_key_ids_loop (item ∷ items)))
            (count_key_packets (item ∷ items))
    by_next (failed x) e ih = elim (Bool-cases (is_eof x)) [
      | inl h ↦ rw (e, h) (omega arith)
      | inr h ↦ rw (e, h) tt
    ]
    by_next (packet (encrypted_key k)) e ih =
        rw e (Bounds-suc (length (encryption_key_ids_loop items)) (count_key_packets items) ih)
    by_next (packet (symmetric_key_encrypted k)) e ih =
        rw e (Bounds-more (length (encryption_key_ids_loop items)) (count_key_packets items) ih)
    by_next (packet symmetrically_encrypted) e ih = rw e (Bounds-zero (count_key_packets items))
    by_next (packet aead_encrypted) e ih = rw e (Bounds-zero (count_key_packets items))
    by_next (packet compressed) e ih = rw e (Bounds-zero (count_key_packets items))
    by_next (packet literal_data) e ih = rw e (Bounds-zero (count_key_packets items))
    by_next (packet (one_pass_signature k)) e ih = rw e ih
    by_next (packet (signature k)) e ih = rw e ih
    by_next (packet (other k)) e ih = rw e ih

-- When GetNumberOfKeyPackets succeeds, EncryptionKeyIDs gives at most as many ids, one for each
-- public-key packet in front of the first data packet.
pub encryption_key_ids-get_number_of_key_packets :
    (codec : MessageCodec) (msg : PgpMessage)
    → Ensures
        (λ n. length (encryption_key_ids codec msg).0 ≤ n)
        (get_number_of_key_packets codec msg)
unfolding encryption_key_ids get_number_of_key_packets with_found
encryption_key_ids-get_number_of_key_packets codec msg =
    loop_lem (codec.packets (bytes_of msg.key_packet))
