-- ===== src/Prelude/Sorting.antt =====
-- Python's stable `sorted(key=...)` and `max(key=...)`. The keys in the program are pairs of a time
-- and an identifier, compared as tuples; a mixture of aware and naive times cannot be ordered.
pub mod Laws
use mathlib.Core.Bool.{Bool, true, false, ◌&&◌, ◌||◌}
use mathlib.Core.List.{List, [], ◌∷◌, map}
use market_regime_loader.Prelude.Tests.{if◌then◌else◌}
use market_regime_loader.Prelude.Text.{Str, str_lt}
use market_regime_loader.Prelude.Times.{Datetime, datetime_lt, datetime_eq, mixed}
use market_regime_loader.Prelude.Effects.{Result, ok, type_error, refuse, bind}

module _ {A : Type 0} (lt : A → A → Bool) where
  -- `x` goes before the first element that is not smaller, so a list that is built from the right
  -- keeps the order of equal elements.
  abbrev pub insert_sorted : A → List A → List A
  insert_sorted x [] = x ∷ []
  insert_sorted x (y ∷ ys) =
      let rest = insert_sorted x ys in if lt y x then y ∷ rest else x ∷ y ∷ ys

  unfoldable pub sort_by : List A → List A
  sort_by [] = []
  sort_by (x ∷ xs) = insert_sorted x (sort_by xs)

  -- `max`: the first greatest element.
  unfoldable pub max_by : A → List A → A
  max_by best [] = best
  max_by best (x ∷ xs) = max_by (if lt best x then x else best) xs

-- An element behind its key.
abbrev pub Keyed : Type 0 → Type 0
Keyed A = Datetime × Str × A

module _ {A : Type 0} where
  abbrev pub key_lt : Keyed A → Keyed A → Bool
  key_lt (d, s, _) (e, t, _) = datetime_lt d e || (datetime_eq d e && str_lt s t)

  abbrev pub unkeyed : List (Keyed A) → List A
  unkeyed ks = map (λ (_, _, a). a) ks

  abbrev pub key_times : List (Keyed A) → List Datetime
  key_times ks = map (λ (d, _, _). d) ks

  unfoldable pub sort_keyed : List (Keyed A) → Result (List A)
  unfolding sort_by
  sort_keyed ks =
      bind (refuse (mixed (key_times ks)) type_error) (λ _. ok (unkeyed (sort_by key_lt ks)))

  unfoldable pub max_keyed : Keyed A → List (Keyed A) → Result A
  unfolding max_by
  max_keyed k ks =
      bind (refuse (mixed (key_times (k ∷ ks))) type_error) (λ _. ok (max_by key_lt k ks).2)
