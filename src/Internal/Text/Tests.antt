-- ===== src/Internal/Text/Tests.antt =====
-- Runs on a text with both kinds of line ends.
use gopenpgp.Base.{[], ◌∷◌, Bytes, false, ◌≡◌}
use gopenpgp.Internal.Text.{canonicalize_bytes}
use gopenpgp.Internal.Text.Lines.{strip, expand, canonicalize_bytes_lem}

abbrev text : Bytes
text = 97 ∷ 32 ∷ 13 ∷ 10 ∷ 98 ∷ 9 ∷ 10 ∷ []

canonicalize_example : canonicalize_bytes text ≡ expand (strip false text)
canonicalize_example = canonicalize_bytes_lem text
