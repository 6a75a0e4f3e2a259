-- ===== src/Operational/Sanitize/Secrets.antt =====
-- ingestion/operational_repository.py: what is left of the secrets in a sanitized text.
use market_regime_loader.Prelude.{
  ℕ, zero, suc, ◌-◌, ◌≡◌, refl, ap, inl, inr, arith, Str, true, false, List, [], ◌∷◌, length, any,
  ◌==◌, Bool-cases,
}
use mathlib.Core.List.{Memᴰ}
use market_regime_loader.Operational.Sanitize.{
  starts_with, contains, replaced, without_secret, without_secrets,
}

-- There is no asterisk in it.
abbrev pub IsPlain : Str → Type 0
IsPlain s = any (λ c. c == 42) s ≡ false

-- What a plain prefix of the output is, the input begins with.
starts_with-replaced :
    (prefix secret s : Str)
    → IsPlain prefix
    → starts_with prefix (replaced secret 0 s) ≡ true
    → starts_with prefix s ≡ true
unfolding starts_with replaced
starts_with-replaced [] secret s p h = refl
starts_with-replaced (c ∷ prefix) secret [] p h = h
starts_with-replaced (c ∷ prefix) secret (d ∷ s) p h =
    elim (Bool-cases (starts_with secret (d ∷ s))) [
      | inl found ↦ let marked = rw found at h in absurd (ground arith)
      | inr plain ↦ let kept = rw plain at h in ground (arith, starts_with-replaced prefix secret s)
    ]

no_mark :
    (plain s r : Str)
    → IsPlain plain
    → starts_with plain s ≡ false
    → starts_with plain (42 ∷ r) ≡ false
unfolding starts_with
no_mark [] s r p h = cc
no_mark (c ∷ plain) s r p h = ground arith

-- A text that is not in the input is not in the output.
contains-replaced :
    (plain secret : Str) (skip : ℕ) (s : Str)
    → IsPlain plain
    → contains plain s ≡ false
    → contains plain (replaced secret skip s) ≡ false
unfolding contains replaced
contains-replaced plain secret skip [] p h = h
contains-replaced plain secret (suc skip) (c ∷ s) p h =
    contains-replaced plain secret skip s p (ground arith)
contains-replaced plain secret zero (c ∷ s) p h =
    let absent : starts_with plain (c ∷ s) ≡ false = ground arith in
    let later : contains plain s ≡ false = ground arith in
    elim (Bool-cases (starts_with secret (c ∷ s))) [
      | inl found ↦
          rw
            (
              found,
              no_mark plain (c ∷ s) (42 ∷ 42 ∷ replaced secret (length secret - 1) s) p absent,
              no_mark plain (c ∷ s) (42 ∷ replaced secret (length secret - 1) s) p absent,
              no_mark plain (c ∷ s) (replaced secret (length secret - 1) s) p absent,
            )
            (contains-replaced plain secret (length secret - 1) s p later)
      | inr kept ↦
          let rest = contains-replaced plain secret 0 s p later in
          rw kept (elim (Bool-cases (starts_with plain (c ∷ replaced secret 0 s))) [
            | inl there ↦
                let whole : starts_with plain (replaced secret 0 (c ∷ s)) ≡ true = rw kept there in
                let wrong = starts_with-replaced plain secret (c ∷ s) p whole in cc
            | inr gone ↦ rw gone rest
          ])
    ]

-- The secret itself is not in the output.
contains-own :
    (c : ℕ) (secret : Str) (skip : ℕ) (s : Str)
    → IsPlain (c ∷ secret)
    → contains (c ∷ secret) (replaced (c ∷ secret) skip s) ≡ false
unfolding contains replaced starts_with
contains-own c secret skip [] p = refl
contains-own c secret (suc skip) (d ∷ s) p = contains-own c secret skip s p
contains-own c secret zero (d ∷ s) p = elim (Bool-cases (starts_with (c ∷ secret) (d ∷ s))) [
  | inl found ↦
      let differs : (c == 42) ≡ false = ground arith in
      rw (found, differs) (contains-own c secret (length (c ∷ secret) - 1) s p)
  | inr kept ↦
      let rest = contains-own c secret 0 s p in
      rw kept (elim (Bool-cases (starts_with (c ∷ secret) (d ∷ replaced (c ∷ secret) 0 s))) [
        | inl there ↦
            let whole : starts_with (c ∷ secret) (replaced (c ∷ secret) 0 (d ∷ s)) ≡ true =
              rw kept there in
            let wrong = starts_with-replaced (c ∷ secret) (c ∷ secret) (d ∷ s) p whole in cc
        | inr gone ↦ rw gone rest
      ])
]

without_secrets-keeps :
    (plain : Str) (secrets : List Str) (s : Str)
    → IsPlain plain
    → contains plain s ≡ false
    → contains plain (without_secrets secrets s) ≡ false
unfolding without_secrets without_secret
without_secrets-keeps plain [] s p h = h
without_secrets-keeps plain ([] ∷ secrets) s p h = without_secrets-keeps plain secrets s p h
without_secrets-keeps plain ((c ∷ secret) ∷ secrets) s p h =
    without_secrets-keeps plain secrets _ p (contains-replaced plain (c ∷ secret) 0 s p h)

-- A sanitized text has none of the secrets in it that have characters, and no asterisk among them.
pub without_secrets-contains :
    (secrets : List Str) (s : Str) (c : ℕ) (secret : Str)
    → Memᴰ (c ∷ secret) secrets
    → IsPlain (c ∷ secret)
    → contains (c ∷ secret) (without_secrets secrets s) ≡ false
unfolding without_secrets without_secret
without_secrets-contains [] s c secret m p = elim m [ ]
without_secrets-contains (_ ∷ secrets) s c secret (Memᴰ.head e) p =
    rw (← e) (without_secrets-keeps (c ∷ secret) secrets _ p (contains-own c secret 0 s p))
without_secrets-contains (other ∷ secrets) s c secret (Memᴰ.tail m) p =
    without_secrets-contains secrets (without_secret other s) c secret m p

-- A text without any of the secrets stays as it is.
replaced-absent : (secret s : Str) → contains secret s ≡ false → replaced secret 0 s ≡ s
unfolding contains replaced
replaced-absent secret [] h = refl
replaced-absent secret (c ∷ s) h =
    let absent : starts_with secret (c ∷ s) ≡ false = ground arith in
    let later : contains secret s ≡ false = ground arith in
    rw absent (ap (λ rest. c ∷ rest) (replaced-absent secret s later))

pub without_secrets-absent :
    (secrets : List Str) (s : Str)
    → ((c : ℕ) (secret : Str) → Memᴰ (c ∷ secret) secrets → contains (c ∷ secret) s ≡ false)
    → without_secrets secrets s ≡ s
unfolding without_secrets without_secret
without_secrets-absent [] s h = refl
without_secrets-absent ([] ∷ secrets) s h =
    without_secrets-absent secrets s (λ c secret m. h c secret (Memᴰ.tail m))
without_secrets-absent ((c ∷ secret) ∷ secrets) s h =
    rw (replaced-absent (c ∷ secret) s (h c secret (Memᴰ.head refl)))
      (without_secrets-absent secrets s (λ d other m. h d other (Memᴰ.tail m)))
