-- ===== src/Crypto/Message/Split.antt =====
-- Where a message is split, and that no byte is lost (crypto/message.go).
use gopenpgp.Base.{
  ℕ, ◌-◌, Bool, true, false, ◌&&◌, Option, none, some, List, [], ◌∷◌, ◌++◌, Bytes, Error, is_eof,
  Result, ok, err, panic, length, is_cons, if◌then◌else◌, get_last?, take-append-drop, ◌≡◌, ◌≢◌,
  refl, sym, ◌∙◌, ap, arith, Bool-cases, inl, inr,
}
use gopenpgp.Crypto.Packets.{
  Packet, Next, Item, encrypted_key, symmetric_key_encrypted, symmetrically_encrypted,
  aead_encrypted, compressed, literal_data, one_pass_signature, signature, other, packet, failed,
}
use gopenpgp.Crypto.Message.{
  PgpMessageBuffer, MessageCodec, bytes_of, clone, slice_to, slice_from, get_bytes, split_loop,
  split_at, split_message, or_data, new_pgp_message_with_clone_flag, new_pgp_message, armor,
  pgp_message_with_options,
}

-- The answers in front of the encrypted data or the end, unless the parser fails there.
abbrev pub front : List Item → Result (List Item)
front [] = ok []
front (item ∷ items) = elim item.next [
  | failed e ↦ if is_eof e then ok [] else err e
  | packet p ↦ elim p [
    | symmetrically_encrypted ↦ ok []
    | aead_encrypted ↦ ok []
    | _ ↦ elim (front items) [ ok xs ↦ ok (item ∷ xs) | err e ↦ err e | panic ↦ panic ]
  ]
]

-- The answers that are packets with an encrypted session key.
abbrev pub key_items : List Item → List Item
key_items [] = []
key_items (item ∷ items) = elim item.next [
  | failed e ↦ key_items items
  | packet p ↦ elim p [
    | symmetric_key_encrypted s ↦ item ∷ key_items items
    | encrypted_key k ↦ item ∷ key_items items
    | _ ↦ key_items items
  ]
]

-- The number of bytes up to the end of the last key packet, or `point` if there is none.
abbrev pub end_of_keys : ℕ → ℕ → Result (List Item) → Result ℕ
end_of_keys total point (ok xs) = elim (get_last? (key_items xs)) [
  | none ↦ ok point
  | some item ↦ ok (total - item.left)
]
end_of_keys total point (err e) = err e
end_of_keys total point panic = panic

-- A packet with an encrypted session key.
abbrev is_key : Packet → Bool
is_key (encrypted_key k) = true
is_key (symmetric_key_encrypted s) = true
is_key _ = false

get_last?-some : {A : Type 0} (x : A) (xs : List A) → get_last? (x ∷ xs) ≢ none
get_last?-some x [] = λ h. cc
get_last?-some x (y ∷ xs) = get_last?-some y xs

-- The answer in front of what the rest of the run gives.
abbrev before : Item → Result (List Item) → Result (List Item)
before item (ok xs) = ok (item ∷ xs)
before item (err e) = err e
before item panic = panic

module _ (total point : ℕ) (item : Item) where
  last_key :
      (ys : List Item)
      → (elim (get_last? ys) as (λ _. Result ℕ) [
        | none ↦ ok (total - item.left)
        | some i ↦ ok (total - i.left)
      ])
        ≡ (elim (get_last? (item ∷ ys)) as (λ _. Result ℕ) [
          | none ↦ ok point
          | some i ↦ ok (total - i.left)
        ])
  last_key [] = refl
  last_key (y ∷ ys) = by_last (get_last? (y ∷ ys)) (get_last?-some y ys)
    where
      by_last :
          (o : Option Item)
          → o ≢ none
          → (elim o as (λ _. Result ℕ) [
            | none ↦ ok (total - item.left)
            | some i ↦ ok (total - i.left)
          ])
            ≡ (elim o as (λ _. Result ℕ) [ none ↦ ok point | some i ↦ ok (total - i.left) ])
      by_last none n = absurd (n refl)
      by_last (some i) n = refl

  -- Whether the answer counts as a key packet.
  key_items-cons :
      (p : Packet) (xs : List Item)
      → item.next ≡ packet p
      → key_items (item ∷ xs) ≡ (if is_key p then item ∷ key_items xs else key_items xs)
  key_items-cons (encrypted_key k) xs e = ground arith
  key_items-cons (symmetric_key_encrypted s) xs e = ground arith
  key_items-cons symmetrically_encrypted xs e = ground arith
  key_items-cons aead_encrypted xs e = ground arith
  key_items-cons compressed xs e = ground arith
  key_items-cons literal_data xs e = ground arith
  key_items-cons (one_pass_signature n) xs e = ground arith
  key_items-cons (signature n) xs e = ground arith
  key_items-cons (other n) xs e = ground arith

  -- The end of the last of these key packets.
  abbrev end_of : List Item → Result ℕ
  end_of ys = elim (get_last? ys) as (λ _. Result ℕ) [
    | none ↦ ok point
    | some i ↦ ok (total - i.left)
  ]

  -- One answer more in front.
  step_over :
      (p : Packet)
      → item.next ≡ packet p
      → (r : Result (List Item))
      → end_of_keys total (if is_key p then total - item.left else point) r
        ≡ end_of_keys total point (before item r)
  step_over p e (err x) = refl
  step_over p e panic = refl
  step_over p e (ok xs) = elim (Bool-cases (is_key p)) [
    | inl h ↦ rw h (
        last_key (key_items xs)
        ∙ ap end_of (
            sym (
              key_items-cons p xs e ∙ ap (λ b. if b then item ∷ key_items xs else key_items xs) h)))
    | inr h ↦ rw h (
        ap end_of (
          sym
            (key_items-cons p xs e ∙ ap (λ b. if b then item ∷ key_items xs else key_items xs) h)))
  ]

-- The split point is the end of the last key packet in front of the encrypted data, and 0 without one;
-- the split fails exactly if the parser fails in front of the encrypted data.
pub split_loop_lem :
    (total point : ℕ) (items : List Item)
    → split_loop total point items ≡ end_of_keys total point (front items)
unfolding split_loop
split_loop_lem total point [] = refl
split_loop_lem total point (item ∷ items) =
    by_next item.next refl (λ point'. split_loop_lem total point' items)
  where
    by_next :
        (n : Next)
        → item.next ≡ n
        → ((point' : ℕ) → split_loop total point' items ≡ end_of_keys total point' (front items))
        → split_loop total point (item ∷ items) ≡ end_of_keys total point (front (item ∷ items))
    by_next (failed x) e ih = ground arith
    by_next (packet symmetrically_encrypted) e ih = rw e refl
    by_next (packet aead_encrypted) e ih = rw e refl
    by_next (packet (encrypted_key k)) e ih =
        rw e (ih (total - item.left) ∙ step_over total point item (encrypted_key k) e (front items))
    by_next (packet (symmetric_key_encrypted k)) e ih = rw e (
        ih (total - item.left)
        ∙ step_over total point item (symmetric_key_encrypted k) e (front items))
    by_next (packet compressed) e ih =
        rw e (ih point ∙ step_over total point item compressed e (front items))
    by_next (packet literal_data) e ih =
        rw e (ih point ∙ step_over total point item literal_data e (front items))
    by_next (packet (one_pass_signature k)) e ih =
        rw e (ih point ∙ step_over total point item (one_pass_signature k) e (front items))
    by_next (packet (signature k)) e ih =
        rw e (ih point ∙ step_over total point item (signature k) e (front items))
    by_next (packet (other k)) e ih =
        rw e (ih point ∙ step_over total point item (other k) e (front items))

split_keeps :
    (codec : MessageCodec) (b : Option Bytes) (r : Result ℕ)
    → get_bytes (or_data codec b (split_at codec b r)) ≡ bytes_of b
unfolding or_data split_at get_bytes
split_keeps codec none (ok k) = refl
split_keeps codec (some b) (ok k) = take-append-drop k b
split_keeps codec b (err e) = refl
split_keeps codec b panic = refl

-- A message made from data has all of its bytes in order, whether the split succeeds or not and whether
-- the data are cloned or not.
pub get_bytes-new_pgp_message :
    (codec : MessageCodec) (content : Option Bytes) (do_clone : Bool)
    → get_bytes (new_pgp_message_with_clone_flag codec content do_clone) ≡ bytes_of content
unfolding new_pgp_message_with_clone_flag split_message clone
get_bytes-new_pgp_message codec content true =
    split_keeps codec (some (bytes_of content))
      (split_loop (length (bytes_of content)) 0 (codec.packets (bytes_of content)))
get_bytes-new_pgp_message codec content false =
    split_keeps codec content
      (split_loop (length (bytes_of content)) 0 (codec.packets (bytes_of content)))

-- A message from NewPGPMessage can be armored, with a checksum and all bytes of the data, if the parser
-- gets through its packets up to the encrypted data; otherwise Armor reports missing key packets.
pub armor-new_pgp_message :
    (codec : MessageCodec) (content : Option Bytes)
    → armor codec (new_pgp_message codec content)
      ≡ (elim (front (codec.packets (bytes_of content))) as (λ _. Result Bytes) [
        | ok xs ↦ codec.armor_message (bytes_of content) true
        | _ ↦ err (Error.new "gopenpgp: missing key packets in pgp message")
      ])
unfolding new_pgp_message new_pgp_message_with_clone_flag split_message clone armor or_data split_at
    get_bytes bytes_of slice_to slice_from
armor-new_pgp_message codec content =
    armor-split (split_loop (length b) 0 (codec.packets b))
    ∙ ap armored_if (split_loop_lem (length b) 0 (codec.packets b))
    ∙ if_front (front (codec.packets b))
  where
    b : Bytes
    b = bytes_of content

    armored_if : {A : Type 0} → Result A → Result Bytes
    armored_if (ok k) = codec.armor_message (bytes_of content) true
    armored_if (err e) = err (Error.new "gopenpgp: missing key packets in pgp message")
    armored_if panic = err (Error.new "gopenpgp: missing key packets in pgp message")

    armor-split :
        (r : Result ℕ)
        → armor codec (or_data codec (some b) (split_at codec (some b) r)) ≡ armored_if r
    armor-split (ok k) = ap (λ x. codec.armor_message x true) (take-append-drop k b)
    armor-split (err e) = refl
    armor-split panic = refl

    if_front :
        (r : Result (List Item))
        → armored_if (end_of_keys (length b) 0 r) ≡ (elim r as (λ _. Result Bytes) [
          | ok xs ↦ codec.armor_message b true
          | _ ↦ err (Error.new "gopenpgp: missing key packets in pgp message")
        ])
    if_front (ok xs) = by_last (get_last? (key_items xs))
      where
        by_last :
            (o : Option Item)
            → armored_if
                (elim o as (λ _. Result ℕ) [ none ↦ ok 0 | some item ↦ ok (length b - item.left) ])
              ≡ codec.armor_message b true
        by_last none = refl
        by_last (some item) = refl
    if_front (err e) = refl
    if_front panic = refl

-- A split sets no option.
unflagged :
    (codec : MessageCodec) (b : Bytes) (r : Result ℕ)
    → let msg = or_data codec (some b) (split_at codec (some b) r) in
      (get_bytes msg ≡ b)
      × (msg.detached_signature_is_plain ≡ false)
      × (msg.omit_armor_checksum ≡ false)
unfolding or_data split_at get_bytes slice_to slice_from bytes_of
unflagged codec b (ok k) = (take-append-drop k b, refl, refl)
unflagged codec b (err e) = (refl, refl, refl)
unflagged codec b panic = (refl, refl, refl)

options_lem :
    (codec : MessageCodec) (key content sig : Bytes) (is_plain omit_armor_checksum : Bool)
    → let msg =
        pgp_message_with_options codec
          (record { key = key; content = content; signature = sig })
          is_plain
          omit_armor_checksum in
      (get_bytes msg ≡ key ++ content)
      × (bytes_of msg.detached_signature ≡ sig)
      × (msg.detached_signature_is_plain ≡ (is_cons key && is_plain))
      × (msg.omit_armor_checksum ≡ (is_cons key && omit_armor_checksum))
unfolding pgp_message_with_options new_pgp_message new_pgp_message_with_clone_flag split_message
    clone or_data split_at get_bytes bytes_of
options_lem codec [] content [] is_plain omit =
    let (bytes, plain, checksum) =
      unflagged codec content (split_loop (length content) 0 (codec.packets content)) in
    (bytes, refl, plain, checksum)
options_lem codec [] content (c ∷ sig) is_plain omit =
    let (bytes, plain, checksum) =
      unflagged codec content (split_loop (length content) 0 (codec.packets content)) in
    (bytes, refl, plain, checksum)
options_lem codec (k ∷ key) content [] is_plain omit = (refl, refl, refl, refl)
options_lem codec (k ∷ key) content (c ∷ sig) is_plain omit = (refl, refl, refl, refl)

-- The message of a buffer has the bytes of the key writer and then those of the data writer. The two
-- options are those that are asked for if a key packet was written, and false otherwise.
pub pgp_message_with_options_lem :
    (codec : MessageCodec) (mb : PgpMessageBuffer) (is_plain omit_armor_checksum : Bool)
    → let msg = pgp_message_with_options codec mb is_plain omit_armor_checksum in
      (get_bytes msg ≡ mb.key ++ mb.content)
      × (bytes_of msg.detached_signature ≡ mb.signature)
      × (msg.detached_signature_is_plain ≡ (is_cons mb.key && is_plain))
      × (msg.omit_armor_checksum ≡ (is_cons mb.key && omit_armor_checksum))
pgp_message_with_options_lem codec mb is_plain omit_armor_checksum =
    options_lem codec mb.key mb.content mb.signature is_plain omit_armor_checksum
