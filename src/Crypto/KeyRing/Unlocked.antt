-- ===== src/Crypto/KeyRing/Unlocked.antt =====
-- A key ring that is built by AddKey never holds a locked key (crypto/keyring.go).
use gopenpgp.Base.{
  true, Option, none, some, List, [], ◌∷◌, ◌++◌, Bytes, Error, Result, ok, err, panic, Ensures,
  Ensures-bind, String, ap, sym, ◌∙◌, wrap_err, ◌≡◌, ◌≢◌, refl, ◌↔◌, arith, All, All-append,
}
use gopenpgp.Crypto.Entity.{Entity}
use gopenpgp.Crypto.Key.{Key, is_private, is_unlocked}
use gopenpgp.Crypto.KeyRing.{
  KeyRing, empty, add_key, add_entities, added, new_key_ring_from_binary, signing_entities,
  signing_entities_loop, can_sign,
}

-- A public key, or a private key with no encrypted secret part.
abbrev pub IsUsable : Entity → Type 0
IsUsable e =
    is_private (record { entity = e }) ≡ true → is_unlocked (record { entity = e }) ≡ ok true

abbrev pub IsUsableRing : KeyRing → Type 0
IsUsableRing ring = All IsUsable ring.entities

-- AddKey refuses exactly the keys that are locked, and then leaves the ring alone; an accepted key is
-- the last one of the ring.
pub add_key_lem :
    (ring : KeyRing) (key : Key)
    → ((add_key ring key).1 ≡ none ↔ IsUsable key.entity)
      × ((add_key ring key).1 ≡ none
          → (add_key ring key).0.entities ≡ ring.entities ++ key.entity ∷ [])
      × ((add_key ring key).1 ≢ none → (add_key ring key).0 ≡ ring)
unfolding add_key
add_key_lem ring key = ground arith

pub add_key-IsUsableRing :
    (ring : KeyRing) (key : Key) → IsUsableRing ring → IsUsableRing (add_key ring key).0
add_key-IsUsableRing ring key h = by_error (add_key ring key).1 refl
  where
    by_error : (o : Option Error) → (add_key ring key).1 ≡ o → IsUsableRing (add_key ring key).0
    by_error none e =
        rw ((add_key_lem ring key).1 e)
          (All-append IsUsable ring.entities (key.entity ∷ []) h ((add_key_lem ring key).0.0 e, tt))
    by_error (some x) e = rw ((add_key_lem ring key).2 (ground arith)) h

added-IsUsableRing :
    (m : String) (r : KeyRing × Option Error)
    → IsUsableRing r.0
    → Ensures IsUsableRing (wrap_err m (added r))
unfolding added
added-IsUsableRing m (ring, none) h = h
added-IsUsableRing m (ring, some e) h = tt

add_entities-IsUsableRing :
    (es : List Entity) (ring : KeyRing)
    → IsUsableRing ring
    → Ensures IsUsableRing (add_entities ring es)
unfolding add_entities
add_entities-IsUsableRing [] ring h = h
add_entities-IsUsableRing (e ∷ es) ring h =
    Ensures-bind IsUsableRing IsUsableRing _ _
      (added-IsUsableRing _ (add_key ring (record { entity = e }))
        (add_key-IsUsableRing ring (record { entity = e }) h))
      (λ r hr. add_entities-IsUsableRing es r hr)

-- A key ring that is read from binary data holds no locked key.
pub new_key_ring_from_binary-IsUsableRing :
    (read : Bytes → Result (List Entity)) (b : Bytes)
    → Ensures IsUsableRing (new_key_ring_from_binary read b)
unfolding new_key_ring_from_binary
new_key_ring_from_binary-IsUsableRing read b =
    Ensures-bind (λ (es : List Entity). Unit) IsUsableRing
      (wrap_err "gopenpgp: error in reading keyring" (read b)) _ (any_result _)
      (λ es _. add_entities-IsUsableRing es empty tt)
  where
    any_result : (r : Result (List Entity)) → Ensures (λ (es : List Entity). Unit) r
    any_result (ok a) = tt
    any_result (err e) = tt
    any_result panic = tt

-- The keys that NewKeyRing and AddKey accept one after the other form a ring of usable keys.
pub add_keys : KeyRing → List Key → KeyRing
add_keys ring [] = ring
add_keys ring (k ∷ ks) = add_keys (add_key ring k).0 ks

-- Adding any keys one after the other, refused or not, leaves a ring without locked private keys without one.
pub add_keys-IsUsableRing :
    (ks : List Key) (ring : KeyRing) → IsUsableRing ring → IsUsableRing (add_keys ring ks)
unfolding add_keys
add_keys-IsUsableRing [] ring h = h
add_keys-IsUsableRing (k ∷ ks) ring h =
    add_keys-IsUsableRing ks (add_key ring k).0 (add_key-IsUsableRing ring k h)

abbrev pub AllCanSign : List Entity → Type 0
AllCanSign = All (λ (e : Entity). can_sign e.private_key ≡ true)

signing_loop_sound :
    (xs ys : List Entity) → signing_entities_loop xs ≡ ok ys → (ys ≡ xs) × AllCanSign xs
unfolding signing_entities_loop
signing_loop_sound [] ys h = ground arith
signing_loop_sound (e ∷ xs) [] h = ground arith
signing_loop_sound (e ∷ xs) (y ∷ ys) h = ground (arith, signing_loop_sound xs ys)

signing_loop_complete : (xs : List Entity) → AllCanSign xs → signing_entities_loop xs ≡ ok xs
unfolding signing_entities_loop
signing_loop_complete [] h = refl
signing_loop_complete (e ∷ xs) (he, hs) = ground (arith, signing_loop_complete xs hs)

-- signingEntities gives all the entities of the ring exactly if each has an unencrypted primary key.
pub signing_entities_lem :
    (ring : KeyRing) (es : List Entity)
    → (signing_entities (some ring) ≡ ok es) ↔ ((es ≡ ring.entities) × AllCanSign ring.entities)
unfolding signing_entities
signing_entities_lem ring es = (
  signing_loop_sound ring.entities es,
  λ h. signing_loop_complete ring.entities h.1 ∙ ap ok (sym h.0),
)
