-- ===== src/Prelude/Items/Laws.antt =====
-- What a lookup finds in a dictionary after it was written to, and how large sets of keys are.
use mathlib.Core.Path.{◌≡◌, refl, ◌∙◌}
use mathlib.Core.Logic.{◌↔◌, inl, inr}
use mathlib.Core.Bool.{Bool, true, false, not, ◌&&◌, ◌||◌}
use mathlib.Core.Option.{none, some}
use mathlib.Core.List.{List, [], ◌∷◌, ◌++◌}
use native.Mathlib.Omega.{arith}
use Prim.Native.Nat.{◌+◌}
use market_regime_loader.Prelude.Tests.{if◌then◌else◌, Bool-cases}
use market_regime_loader.Prelude.Lists.{length, All}
use market_regime_loader.Prelude.Dict.{get, has}
use market_regime_loader.Prelude.Sorting.{sort_by, insert_sorted}
use market_regime_loader.Prelude.Items.{
  member, to_set, without, set_item, pop_item, keys_of, eq_same, eq_comm, member-to_set,
}

module _ {K : Type 0} (eq : K → K → Bool) where
  pub member-append :
      (k : K) (xs ys : List K) → member eq k (xs ++ ys) ≡ member eq k xs || member eq k ys
  member-append k [] ys = refl
  member-append k (x ∷ xs) ys = ground (arith, member-append k xs ys)

  -- No key of the first list is in the second one.
  abbrev pub Apart : List K → List K → Type 0
  Apart xs ys = All (λ x. member eq x ys ≡ false) xs

  -- Sorting keeps the members.
  member-insert_sorted :
      (lt : K → K → Bool) (k x : K) (ys : List K)
      → member eq k (insert_sorted lt x ys) ≡ eq k x || member eq k ys
  member-insert_sorted lt k x [] = refl
  member-insert_sorted lt k x (y ∷ ys) = ground (arith, member-insert_sorted lt k x ys)

  pub member-sort_by :
      (lt : K → K → Bool) (k : K) (xs : List K) → member eq k (sort_by lt xs) ≡ member eq k xs
  unfolding sort_by
  member-sort_by lt k [] = refl
  member-sort_by lt k (x ∷ xs) =
      member-insert_sorted lt k x (sort_by lt xs) ∙ rw (member-sort_by lt k xs)

module _ {K : Type 0} (eq : K → K → Bool) (decides : (j k : K) → (eq j k ≡ true) ↔ (j ≡ k)) where
  -- What holds of every member holds of all elements, and back.
  pub All-of_member :
      {P : K → Type 0} (xs : List K) → ((k : K) → member eq k xs ≡ true → P k) → All P xs
  All-of_member [] h = tt
  All-of_member (x ∷ xs) h =
      (h x (rw (eq_same eq decides x) refl), All-of_member xs (λ k m. h k (ground arith)))

  pub member-All : (P : K → Type 0) (k : K) (xs : List K) → All P xs → member eq k xs ≡ true → P k
  member-All P k [] h m = cc
  member-All P k (x ∷ xs) h m = elim (Bool-cases (eq k x)) [
    | inl here ↦ rw ((decides k x).0 here) h.0
    | inr other ↦ member-All P k xs h.1 (rw other at m)
  ]

  pub length-to_set_append :
      (xs ys : List K)
      → Apart eq xs ys
      → length (to_set eq (xs ++ ys)) ≡ length (to_set eq xs) + length (to_set eq ys)
  length-to_set_append [] ys h = omega arith
  length-to_set_append (x ∷ xs) ys h =
      let whole = member-to_set eq decides x (xs ++ ys) in
      let part = member-to_set eq decides x xs in
      let split = member-append eq x xs ys in
      let fresh = h.0 in
      let rest = length-to_set_append xs ys h.1 in
      elim (Bool-cases (member eq x (to_set eq xs))) [
        | inl old ↦
            let also : member eq x (to_set eq (xs ++ ys)) ≡ true = ground arith in
            rw (old, also, rest) (omega arith)
        | inr new ↦
            let also : member eq x (to_set eq (xs ++ ys)) ≡ false = ground arith in
            rw (new, also, rest) (omega arith)
      ]

  pub member-without :
      (k : K) (xs ys : List K)
      → member eq k (without eq xs ys) ≡ member eq k xs && not (member eq k ys)
  member-without k [] ys = refl
  member-without k (x ∷ xs) ys = elim (Bool-cases (eq k x)) [
    | inl here ↦
        let same = (decides k x).0 here in
        elim (Bool-cases (member eq x ys)) [
          | inl out ↦ rw (same, out, member-without x xs ys, out) (ground arith)
          | inr in_it ↦ rw (same, in_it, eq_same eq decides x) refl
        ]
    | inr other ↦ elim (Bool-cases (member eq x ys)) [
      | inl out ↦ rw (out, other, member-without k xs ys)
      | inr kept ↦ rw (kept, other, member-without k xs ys)
    ]
  ]

  module _ {V : Type 0} where
    pub get-set_item :
        (j k : K) (v : V) (d : List (K × V))
        → get eq j (set_item eq k v d) ≡ (if eq j k then some v else get eq j d)
    get-set_item j k v [] = refl
    get-set_item j k v ((i, w) ∷ d) = elim (Bool-cases (eq k i)) [
      | inl here ↦ let same = (decides k i).0 here in rw (here, ← same) (ground arith)
      | inr other ↦ elim (Bool-cases (eq j i)) [
        | inl found ↦
            let same = (decides j i).0 found in
            rw (other, found, same, eq_comm eq decides i k, other)
        | inr elsewhere ↦ rw (other, elsewhere, get-set_item j k v d)
      ]
    ]

    pub get-pop_item :
        (j k : K) (d : List (K × V))
        → get eq j (pop_item eq k d) ≡ (if eq j k then none else get eq j d)
    get-pop_item j k [] = ground arith
    get-pop_item j k ((i, w) ∷ d) = elim (Bool-cases (eq k i)) [
      | inl here ↦
          let same = (decides k i).0 here in rw (here, ← same, get-pop_item j k d) (ground arith)
      | inr other ↦ elim (Bool-cases (eq j i)) [
        | inl found ↦
            let same = (decides j i).0 found in
            rw (other, found, same, eq_comm eq decides i k, other)
        | inr elsewhere ↦ rw (other, elsewhere, get-pop_item j k d)
      ]
    ]

    pub get-snoc :
        (j k : K) (v : V) (d : List (K × V))
        → has eq k d ≡ false
        → get eq j (d ++ (k, v) ∷ []) ≡ (if eq j k then some v else get eq j d)
    get-snoc j k v [] h = refl
    get-snoc j k v ((i, w) ∷ d) h = elim (Bool-cases (eq k i)) [
      | inl here ↦ let found = rw here at h in cc
      | inr other ↦ elim (Bool-cases (eq j i)) [
        | inl found ↦
            let same = (decides j i).0 found in rw (found, same, eq_comm eq decides i k, other)
        | inr elsewhere ↦ rw (elsewhere, get-snoc j k v d (rw other at h))
      ]
    ]

    -- A key that is new is put at the end.
    pub set_item-new :
        (k : K) (v : V) (d : List (K × V))
        → has eq k d ≡ false
        → set_item eq k v d ≡ d ++ (k, v) ∷ []
    set_item-new k v [] h = refl
    set_item-new k v ((i, w) ∷ d) h = elim (Bool-cases (eq k i)) [
      | inl here ↦ let found = rw here at h in cc
      | inr other ↦ rw (other, set_item-new k v d (rw other at h))
    ]

    pub member-keys_of : (k : K) (d : List (K × V)) → member eq k (keys_of eq d) ≡ has eq k d
    member-keys_of k [] = refl
    member-keys_of k ((j, v) ∷ d) = ground (arith, member-keys_of k d)
