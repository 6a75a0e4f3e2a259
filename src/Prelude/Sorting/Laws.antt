-- ===== src/Prelude/Sorting/Laws.antt =====
-- Sorting reorders, and what it returns is ordered, where the order is one on the given elements.
use mathlib.Core.Path.{◌≡◌, refl}
use mathlib.Core.Bool.{Bool, true, false}
use mathlib.Core.Logic.{inl, inr}
use mathlib.Core.List.{List, [], ◌∷◌, Permᴰ}
use mathlib.Core.List.Permᴰ
use native.Mathlib.Omega.{arith}
use market_regime_loader.Prelude.Tests.{Bool-cases}
use market_regime_loader.Prelude.Text.{str_lt_trans, str_lt_negative, str_lt_irrefl}
use market_regime_loader.Prelude.Times.{is_aware, naive, aware}
use market_regime_loader.Prelude.Lists.{All}
use market_regime_loader.Prelude.Sorting.{insert_sorted, sort_by, Keyed, key_lt}

module _ {A : Type 0} (lt : A → A → Bool) where
  insert_sorted-perm : (x : A) (ys : List A) → Permᴰ (insert_sorted lt x ys) (x ∷ ys)
  insert_sorted-perm x [] = Permᴰ.refl _
  insert_sorted-perm x (y ∷ ys) = elim (Bool-cases (lt y x)) [
    | inl later ↦
        rw later (Permᴰ.trans (Permᴰ.cons refl (insert_sorted-perm x ys)) (Permᴰ.swap refl refl))
    | inr here ↦ rw here (Permᴰ.refl _)
  ]

  pub sort_by-perm : (xs : List A) → Permᴰ (sort_by lt xs) xs
  unfolding sort_by
  sort_by-perm [] = Permᴰ.nil
  sort_by-perm (x ∷ xs) =
      Permᴰ.trans (insert_sorted-perm x (sort_by lt xs)) (Permᴰ.cons refl (sort_by-perm xs))

  All-insert_sorted :
      (Q : A → Type 0) (x : A) (ys : List A) → Q x → All Q ys → All Q (insert_sorted lt x ys)
  All-insert_sorted Q x [] q qs = (q, tt)
  All-insert_sorted Q x (y ∷ ys) q qs = elim (Bool-cases (lt y x)) [
    | inl later ↦ rw later (qs.0, All-insert_sorted Q x ys q qs.1)
    | inr here ↦ rw here (q, qs)
  ]

  -- No later element is before an earlier one.
  abbrev pub Sorted : List A → Type 0
  Sorted [] = Unit
  Sorted (x ∷ xs) = All (λ y. lt y x ≡ false) xs × Sorted xs

  module _ (P : A → Type 0) (asym : (a b : A) → P a → P b → lt a b ≡ true → lt b a ≡ false)
      (trans : (a b c : A)
        → P a
        → P b
        → P c
        → lt b a ≡ false
        → lt c b ≡ false
        → lt c a ≡ false) where
    pub All-sort_by : (xs : List A) → All P xs → All P (sort_by lt xs)
    unfolding sort_by
    All-sort_by [] h = tt
    All-sort_by (x ∷ xs) h = All-insert_sorted P x (sort_by lt xs) h.0 (All-sort_by xs h.1)

    above :
        (x y : A) (ys : List A)
        → P x
        → P y
        → All P ys
        → lt y x ≡ false
        → All (λ z. lt z y ≡ false) ys
        → All (λ z. lt z x ≡ false) ys
    above x y [] px py ps e h = tt
    above x y (z ∷ ys) px py ps e h = (trans x y z px py ps.0 e h.0, above x y ys px py ps.1 e h.1)

    insert_sorted-Sorted :
        (x : A) (ys : List A) → P x → All P ys → Sorted ys → Sorted (insert_sorted lt x ys)
    insert_sorted-Sorted x [] px ps s = (tt, tt)
    insert_sorted-Sorted x (y ∷ ys) px ps s = elim (Bool-cases (lt y x)) [
      | inl later ↦ rw later (
        All-insert_sorted (λ z. lt z y ≡ false) x ys (asym y x ps.0 px later) s.0,
        insert_sorted-Sorted x ys px ps.1 s.1,
      )
      | inr here ↦ rw here ((here, above x y ys px ps.0 ps.1 here s.0), s)
    ]

    pub sort_by-Sorted : (xs : List A) → All P xs → Sorted (sort_by lt xs)
    unfolding sort_by
    sort_by-Sorted [] h = tt
    sort_by-Sorted (x ∷ xs) h =
        insert_sorted-Sorted x (sort_by lt xs) h.0 (All-sort_by xs h.1) (sort_by-Sorted xs h.1)

-- The order of the keys, where the times are aware.
module _ {A : Type 0} where
  abbrev pub AwareKey : Keyed A → Type 0
  AwareKey (d, _, _) = is_aware d ≡ true

  pub key_lt_asym :
      (a b : Keyed A) → AwareKey a → AwareKey b → key_lt a b ≡ true → key_lt b a ≡ false
  key_lt_asym (naive m, s, x) b p q h = cc
  key_lt_asym (aware m, s, x) (naive n, t, y) p q h = cc
  key_lt_asym (aware m, s, x) (aware n, t, y) p q h =
      ground (arith, str_lt_trans s t s, str_lt_irrefl s)

  pub key_lt_trans :
      (a b c : Keyed A)
      → AwareKey a
      → AwareKey b
      → AwareKey c
      → key_lt b a ≡ false
      → key_lt c b ≡ false
      → key_lt c a ≡ false
  key_lt_trans (naive m, s, x) b c p q r h k = cc
  key_lt_trans (aware m, s, x) (naive n, t, y) c p q r h k = cc
  key_lt_trans (aware m, s, x) (aware n, t, y) (naive o, u, z) p q r h k = cc
  key_lt_trans (aware m, s, x) (aware n, t, y) (aware o, u, z) p q r h k =
      ground (arith, str_lt_negative s t u)
