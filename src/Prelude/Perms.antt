-- ===== src/Prelude/Perms.antt =====
-- What a reordering keeps: lengths, filtered lists, and any filter with at most one answer.
use Prim.Native.Nat.{suc, ◌≤◌}
use mathlib.Core.Path.{◌≡◌, refl, ap, ◌∙◌}
use mathlib.Core.Bool.{Bool, true, false}
use mathlib.Core.List.{List, [], ◌∷◌, Permᴰ}
use mathlib.Core.List.Permᴰ
use native.Mathlib.Omega.{arith}
use market_regime_loader.Prelude.Lists.{length, keep, count, length-keep}
use market_regime_loader.Prelude.Tests.{if◌then◌else◌}

module _ {A : Type 0} where
  pub length-perm : {xs ys : List A} → Permᴰ xs ys → length xs ≡ length ys
  length-perm Permᴰ.nil = refl
  length-perm (Permᴰ.cons e p) = ap suc (length-perm p)
  length-perm (Permᴰ.swap e f) = refl
  length-perm (Permᴰ.trans p q) = length-perm p ∙ length-perm q

  keep-cons :
      (p : A → Bool) (a b : A) (xs ys : List A)
      → a ≡ b
      → Permᴰ (keep p xs) (keep p ys)
      → Permᴰ (keep p (a ∷ xs)) (keep p (b ∷ ys))
  keep-cons p a b xs ys e d = rw e (go (p b))
    where
      go :
          (t : Bool)
          → Permᴰ (if t then b ∷ keep p xs else keep p xs) (if t then b ∷ keep p ys else keep p ys)
      go true = Permᴰ.cons refl d
      go false = d

  keep-swap :
      (p : A → Bool) (a b : A) (l : List A) → Permᴰ (keep p (a ∷ b ∷ l)) (keep p (b ∷ a ∷ l))
  keep-swap p a b l = go (p a) (p b)
    where
      go :
          (s t : Bool)
          → Permᴰ
              (if s
                then a ∷ (if t then b ∷ keep p l else keep p l)
                else (if t then b ∷ keep p l else keep p l))
              (if t
                then b ∷ (if s then a ∷ keep p l else keep p l)
                else (if s then a ∷ keep p l else keep p l))
      go true true = Permᴰ.swap refl refl
      go true false = Permᴰ.refl _
      go false true = Permᴰ.refl _
      go false false = Permᴰ.refl _

  pub keep-perm : (p : A → Bool) {xs ys : List A} → Permᴰ xs ys → Permᴰ (keep p xs) (keep p ys)
  keep-perm p Permᴰ.nil = Permᴰ.nil
  keep-perm p (Permᴰ.cons {a = x} {b = y} {l₁ = xs} {l₂ = ys} e d) =
      keep-cons p x y xs ys e (keep-perm p d)
  keep-perm p (Permᴰ.swap {a = x} {b = y} {l = l} e f) = rw (← e, ← f) (keep-swap p x y l)
  keep-perm p (Permᴰ.trans d q) = Permᴰ.trans (keep-perm p d) (keep-perm p q)

  pub eq_of_perm_short : {xs ys : List A} → Permᴰ xs ys → length ys ≤ 1 → xs ≡ ys
  eq_of_perm_short Permᴰ.nil h = refl
  eq_of_perm_short (Permᴰ.cons {l₁ = []} {l₂ = []} e d) h = rw e
  eq_of_perm_short (Permᴰ.cons {l₁ = []} {l₂ = y ∷ ys} e d) h = absurd (omega arith)
  eq_of_perm_short (Permᴰ.cons {l₁ = x ∷ xs} {l₂ = ys} e d) h =
      absurd (omega (arith, length-perm d))
  eq_of_perm_short (Permᴰ.swap e f) h = absurd (omega arith)
  eq_of_perm_short (Permᴰ.trans d q) h =
      eq_of_perm_short d (omega (arith, length-perm q)) ∙ eq_of_perm_short q h

  -- A filter with at most one answer gives the same list in any order.
  pub keep-eq_of_perm :
      (p : A → Bool) {xs ys : List A} → Permᴰ xs ys → count p ys ≤ 1 → keep p xs ≡ keep p ys
  keep-eq_of_perm p {ys = ys} d h =
      eq_of_perm_short (keep-perm p d) (omega (arith, length-keep p ys))

  pub count-perm : (p : A → Bool) {xs ys : List A} → Permᴰ xs ys → count p xs ≡ count p ys
  count-perm p {xs} {ys} d =
      omega (arith, length-perm (keep-perm p d), length-keep p xs, length-keep p ys)
