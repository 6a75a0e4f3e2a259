-- ===== src/Operational/Sanitize.antt =====
-- ingestion/operational_repository.py: the removal of secrets from what is stored of an error.
pub mod Secrets
use market_regime_loader.Prelude.{
  ℕ, zero, suc, ◌-◌, Str, codes, Bool, true, false, ◌&&◌, ◌||◌, Option, none, some, List, [], ◌∷◌,
  ◌++◌, length, ◌==◌, if◌then◌else◌,
}

-- `text.startswith(prefix)`
unfoldable pub starts_with : Str → Str → Bool
starts_with [] s = true
starts_with (_ ∷ _) [] = false
starts_with (p ∷ prefix) (c ∷ s) = (p == c) && starts_with prefix s

-- `secret in text`
unfoldable pub contains : Str → Str → Bool
unfolding starts_with
contains secret [] = starts_with secret []
contains secret (c ∷ s) = starts_with secret (c ∷ s) || contains secret s

abbrev pub stars : Str
stars = codes "***"

-- `text.replace(secret, "***")` for a secret that is not empty: the occurrences from the left, of
-- which none overlaps the one before. The first `skip` characters belong to an occurrence.
unfoldable pub replaced : Str → ℕ → Str → Str
unfolding starts_with
replaced secret skip [] = []
replaced secret (suc skip) (c ∷ s) = replaced secret skip s
replaced secret zero (c ∷ s) =
    if starts_with secret (c ∷ s)
    then stars ++ replaced secret (length secret - 1) s
    else c ∷ replaced secret zero s

-- `if secret: sanitized = sanitized.replace(secret, "***")`
unfoldable pub without_secret : Str → Str → Str
unfolding replaced
without_secret [] s = s
without_secret (c ∷ secret) s = replaced (c ∷ secret) 0 s

unfoldable pub without_secrets : List Str → Str → Str
unfolding without_secret
without_secrets [] s = s
without_secrets (secret ∷ secrets) s = without_secrets secrets (without_secret secret s)

-- `_sanitize`
unfoldable pub sanitize : List Str → Option Str → Option Str
unfolding without_secrets
sanitize secrets none = none
sanitize secrets (some s) = some (without_secrets secrets s)
