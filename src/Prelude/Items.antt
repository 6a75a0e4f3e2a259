-- ===== src/Prelude/Items.antt =====
-- Python dictionaries that are written to: `d[k] = v`, `d.pop(k, None)`, and the sets of their keys.
-- Keys are compared by a test that decides equality.
pub mod Laws
use mathlib.Core.Path.{◌≡◌, refl, sym, ◌∙◌}
use mathlib.Core.Logic.{◌↔◌, inl, inr}
use mathlib.Core.Bool.{Bool, true, false, not, ◌&&◌, ◌||◌}
use mathlib.Core.Option.{Option, none, some}
use mathlib.Core.List.{List, [], ◌∷◌, ◌++◌, map}
use native.Mathlib.Omega.{arith}
use Prim.Native.Nat.{ℕ, suc, ◌+◌}
use market_regime_loader.Prelude.Tests.{if◌then◌else◌, Bool-cases, is_some}
use market_regime_loader.Prelude.Lists.{length}
use market_regime_loader.Prelude.Dict.{get, has}

module _ {K : Type 0} (eq : K → K → Bool) where
  abbrev pub member : K → List K → Bool
  member k [] = false
  member k (j ∷ js) = eq k j || member k js

  -- `set(keys)`
  abbrev pub to_set : List K → List K
  to_set [] = []
  to_set (k ∷ ks) = let rest = to_set ks in if member k rest then rest else k ∷ rest

  -- `keys - others`
  abbrev pub without : List K → List K → List K
  without [] others = []
  without (k ∷ ks) others =
      let rest = without ks others in if member k others then rest else k ∷ rest

  module _ {V : Type 0} where
    -- `d[k] = v`
    abbrev pub set_item : K → V → List (K × V) → List (K × V)
    set_item k v [] = (k, v) ∷ []
    set_item k v ((j, w) ∷ d) =
        let rest = set_item k v d in if eq k j then (k, v) ∷ d else (j, w) ∷ rest

    -- `d.pop(k, None)`, or `DELETE ... WHERE key = k`
    abbrev pub pop_item : K → List (K × V) → List (K × V)
    pop_item k [] = []
    pop_item k ((j, w) ∷ d) = let rest = pop_item k d in if eq k j then rest else (j, w) ∷ rest

    abbrev pub keys_of : List (K × V) → List K
    keys_of [] = []
    keys_of ((k, _) ∷ d) = k ∷ keys_of d

    -- `{k: v for k, v in entries}`: a later value replaces an earlier one.
    abbrev pub set_items : List (K × V) → List (K × V) → List (K × V)
    set_items d [] = d
    set_items d ((k, v) ∷ entries) = set_items (set_item k v d) entries

  module _ (decides : (j k : K) → (eq j k ≡ true) ↔ (j ≡ k)) where
    pub eq_same : (k : K) → eq k k ≡ true
    eq_same k = (decides k k).1 refl

    pub eq_replace : (i j k : K) → eq j k ≡ true → eq i j ≡ eq i k
    eq_replace i j k h = rw ((decides j k).0 h)

    pub eq_comm : (j k : K) → eq j k ≡ eq k j
    eq_comm j k = elim (Bool-cases (eq j k)) [
      | inl h ↦ elim (Bool-cases (eq k j)) [
        | inl g ↦ h ∙ sym g
        | inr g ↦ let e = rw ((decides j k).0 h, eq_same k) at g in cc
      ]
      | inr h ↦ elim (Bool-cases (eq k j)) [
        | inl g ↦ let e = rw ((decides k j).0 g, eq_same j) at h in cc
        | inr g ↦ h ∙ sym g
      ]
    ]

    pub member-to_set : (k : K) (ks : List K) → member k (to_set ks) ≡ member k ks
    member-to_set k [] = refl
    member-to_set k (j ∷ ks) = elim (Bool-cases (member j (to_set ks))) [
      | inl old ↦ elim (Bool-cases (eq k j)) [
        | inl here ↦ rw (old, here, (decides k j).0 here, old)
        | inr other ↦ rw (old, other, member-to_set k ks)
      ]
      | inr new ↦ rw (new, member-to_set k ks)
    ]
