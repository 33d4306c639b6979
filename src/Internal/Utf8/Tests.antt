-- ===== src/Internal/Utf8/Tests.antt =====
-- A run that writes a rune of two bytes in two chunks.
use gopenpgp.Base.{none, some, [], ◌∷◌, ◌++◌, Bytes, length, incorrect_utf8, ◌≡◌, ◌≢◌, ◌↔◌, refl}
use gopenpgp.Internal.Reader.{WriteCloser, IsSink}
use gopenpgp.Internal.Utf8.{new_utf8_check_write_closer, write_all}
use gopenpgp.Internal.Utf8.Whole.{IsUtf8}
use gopenpgp.Internal.Utf8.Writer.{concat, write_all-IsUtf8}

abbrev sink : WriteCloser Bytes
sink = record { write = λ w p. (length p, none, w ++ p); close = λ w. (none, w) }

sink-IsSink : IsSink sink (λ w. w)
sink-IsSink = record {
  keeps = λ w p. refl;
  succeeds = λ w p. refl;
  closes = λ w. refl;
  keeps_closing = λ w. refl;
}

write_all_example :
    let run =
      write_all sink (new_utf8_check_write_closer []) ((97 ∷ 0xC3 ∷ []) ∷ (0xA9 ∷ []) ∷ []) in
    ((run.0 ≡ none) ↔ IsUtf8 (concat ((97 ∷ 0xC3 ∷ []) ∷ (0xA9 ∷ []) ∷ [])))
    × (run.0 ≡ none → run.1.internal ≡ [] ++ concat ((97 ∷ 0xC3 ∷ []) ∷ (0xA9 ∷ []) ∷ []))
    × (run.0 ≢ none → run.0 ≡ some incorrect_utf8)
write_all_example =
    write_all-IsUtf8 sink (λ w. w) sink-IsSink [] ((97 ∷ 0xC3 ∷ []) ∷ (0xA9 ∷ []) ∷ [])
