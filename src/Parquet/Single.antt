-- ===== src/Parquet/Single.antt =====
-- ingestion/parquet_repository.py: frames in which no two rows have the same key, null keys apart.
use market_regime_loader.Prelude.{
  ◌≡◌, refl, inl, inr, Str, Bool, false, Bool-cases, List, [], ◌∷◌, ◌++◌, keep, All,
}
use mathlib.Core.Path.{subst}
use mathlib.Core.List.{Memᴰ, Permᴰ}
use mathlib.Core.List.Memᴰ
use market_regime_loader.Prelude.Membership.{All-of_mem, mem-All, mem-keep, perm-All}
use market_regime_loader.Parquet.{Row, joined_on}

module _ {V : Type 0} (eq : V → V → Bool) (key : List Str) where
  -- No two rows of the list have the same key.
  abbrev pub Single : List (Row V) → Type 0
  Single [] = Unit
  Single (x ∷ xs) = All (λ y. joined_on eq key x y ≡ false) xs × Single xs

  pub Single-keep : (p : Row V → Bool) (xs : List (Row V)) → Single xs → Single (keep p xs)
  Single-keep p [] h = tt
  Single-keep p (x ∷ xs) (h, hs) = elim (Bool-cases (p x)) [
    | inl passes ↦ rw passes (
      All-of_mem (keep p xs)
          (λ y m. mem-All (λ y. joined_on eq key x y ≡ false) xs h (mem-keep p xs m).0),
      Single-keep p xs hs,
    )
    | inr fails ↦ rw fails (Single-keep p xs hs)
  ]

  pub Single-append :
      (xs ys : List (Row V))
      → Single xs
      → Single ys
      → ((x y : Row V) → Memᴰ x xs → Memᴰ y ys → joined_on eq key x y ≡ false)
      → Single (xs ++ ys)
  Single-append [] ys h k apart = k
  Single-append (x ∷ xs) ys (h, hs) k apart = (
    All-of_mem (xs ++ ys) (λ y m. elim (Memᴰ.append_cases xs m) [
      | inl old ↦ mem-All (λ y. joined_on eq key x y ≡ false) xs h old
      | inr new ↦ apart x y (Memᴰ.head refl) new
    ]),
    Single-append xs ys hs k (λ a b m n. apart a b (Memᴰ.tail m) n),
  )

  module _
      (symmetric : (a b : Row V)
        → joined_on eq key a b ≡ false
        → joined_on eq key b a ≡ false) where
    pub Single-perm : {xs ys : List (Row V)} → Permᴰ xs ys → Single xs → Single ys
    Single-perm Permᴰ.nil h = tt
    Single-perm (Permᴰ.cons {a = a} {l₂ = ys} e p) (h, hs) = (
      subst (λ b. All (λ y. joined_on eq key b y ≡ false) ys) e
          (perm-All (λ y. joined_on eq key a y ≡ false) p h),
      Single-perm p hs,
    )
    Single-perm (Permᴰ.swap {a = a} {b = b} {l = l} e f) ((first, h), (k, hs)) = (
      (
        rw (← e, ← f) (symmetric a b first),
        subst (λ r. All (λ y. joined_on eq key r y ≡ false) l) f k,
      ),
      (subst (λ r. All (λ y. joined_on eq key r y ≡ false) l) e h, hs),
    )
    Single-perm (Permᴰ.trans p q) h = Single-perm q (Single-perm p h)
