-- ===== src/Crypto/KeyClear/Tests.antt =====
-- A run that clears a key.
use gopenpgp.Base.{Bool, All, Returns, ◌≡◌}
use gopenpgp.Crypto.Samples.{open_key}
use gopenpgp.Crypto.Entity.{Entity, Subkey}
use gopenpgp.Crypto.Key.{Key}
use gopenpgp.Crypto.KeyClear.{clear_private_params}
use gopenpgp.Crypto.KeyClear.Zeroed.{public_part, ZeroOptional, clear_private_params_lem}

clear_example :
    Returns
      (λ (r : Key × Entity × Bool).
        (r.0.entity ≡ public_part open_key.entity)
        × ZeroOptional 32 57 r.1.private_key
        × All (λ (b : Subkey). ZeroOptional 32 57 b.private_key) r.1.subkeys)
      (clear_private_params 32 57 open_key)
clear_example = clear_private_params_lem 32 57 open_key (tt, tt)
