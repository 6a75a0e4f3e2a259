-- ===== src/Prelude/Dict.antt =====
-- Python dictionaries as association lists in insertion order, and the loop that registers values
-- under keys of their own, where a second value of the same key is refused.
use mathlib.Core.Path.{◌≡◌, refl, sym, ap}
use mathlib.Core.Logic.{inl, inr}
use mathlib.Core.Bool.{Bool, true, false}
use mathlib.Core.Option.{Option, none, some}
use mathlib.Core.List.{List, [], ◌∷◌, ◌++◌, Memᴰ}
use mathlib.Core.List.Memᴰ
use market_regime_loader.Prelude.Tests.{if◌then◌else◌, Bool-cases, is_some}
use market_regime_loader.Prelude.Lists.{All}
use market_regime_loader.Prelude.Effects.{Exn, Result, ok, ok-injective, refuse, ◌⨟◌, refuse-eq-ok}

some-injective : {A : Type 0} {a b : A} → some a ≡ some b → a ≡ b
some-injective e = cc

pub All-snoc :
    {A : Type 0} (P : A → Type 0) (xs : List A) (x : A) → All P xs → P x → All P (xs ++ x ∷ [])
All-snoc P [] x h p = (p, tt)
All-snoc P (y ∷ xs) x h p = (h.0, All-snoc P xs x h.1 p)

module _ {K V : Type 0} (eq : K → K → Bool) where
  abbrev pub get : K → List (K × V) → Option V
  get k [] = none
  get k ((j, v) ∷ entries) = let rest = get k entries in if eq k j then some v else rest

  abbrev pub has : K → List (K × V) → Bool
  has k entries = is_some (get k entries)

  -- `for value in values: if key(value) in by_key: raise ...; by_key[key(value)] = value`
  abbrev pub register : (V → K) → Exn → List (K × V) → List V → Result (List (K × V))
  register key e by_key [] = ok by_key
  register key e by_key (v ∷ values) =
      let rest = register key e (by_key ++ (key v, v) ∷ []) values in
      refuse (has (key v) by_key) e ⨟ rest

  get-append_old :
      (k : K) {v : V} (entries more : List (K × V))
      → get k entries ≡ some v
      → get k (entries ++ more) ≡ some v
  get-append_old k [] more h = cc
  get-append_old k ((j, u) ∷ entries) more h = elim (Bool-cases (eq k j)) [
    | inl here ↦ rw here (rw here at h)
    | inr later ↦ rw later (get-append_old k entries more (rw later at h))
  ]

  get-append_new :
      (k : K) (entries more : List (K × V))
      → has k entries ≡ false
      → get k (entries ++ more) ≡ get k more
  get-append_new k [] more h = refl
  get-append_new k ((j, u) ∷ entries) more h = elim (Bool-cases (eq k j)) [
    | inl here ↦ let found = rw here at h in cc
    | inr later ↦ rw later (get-append_new k entries more (rw later at h))
  ]

  register-keeps :
      (key : V → K) (e : Exn) (k : K) {v : V} (by_key : List (K × V)) (values : List V)
      {registry : List (K × V)}
      → register key e by_key values ≡ ok registry
      → get k by_key ≡ some v
      → get k registry ≡ some v
  register-keeps key e k by_key [] h found = rw (← ok-injective h) found
  register-keeps key e k by_key (u ∷ values) h found =
      let (fresh, rest) = refuse-eq-ok (has (key u) by_key) e _ h in
      register-keeps key e k (by_key ++ (key u, u) ∷ []) values rest
        (get-append_old k by_key _ found)

  module _ (same : (k : K) → eq k k ≡ true) (key : V → K) (e : Exn) where
    put :
        (by_key : List (K × V)) {v : V} (u : V)
        → v ≡ u
        → has (key u) by_key ≡ false
        → get (key v) (by_key ++ (key u, u) ∷ []) ≡ some v
    put by_key u here fresh =
        rw (here, get-append_new (key u) by_key ((key u, u) ∷ []) fresh, same (key u))

    pub get-register :
        (by_key : List (K × V)) (values : List V) {registry : List (K × V)} {v : V}
        → register key e by_key values ≡ ok registry
        → Memᴰ v values
        → get (key v) registry ≡ some v
    get-register by_key [] h m = elim m [ ]
    get-register by_key (u ∷ values) {v = v} h m =
        let (fresh, rest) = refuse-eq-ok (has (key u) by_key) e _ h in
        elim (Memᴰ.cases_cons m) [
          | inl here ↦
              register-keeps key e (key v) (by_key ++ (key u, u) ∷ []) values rest
                (put by_key u here fresh)
          | inr later ↦ get-register (by_key ++ (key u, u) ∷ []) values rest later
        ]

  -- A lookup finds an entry of the registry, and the entries are those that were registered.
  pub get-entry :
      (k : K) (entries : List (K × V)) {v : V}
      → get k entries ≡ some v
      → (j : K) × Memᴰ (j, v) entries × (eq k j ≡ true)
  get-entry k [] h = cc
  get-entry k ((j, u) ∷ entries) h = elim (Bool-cases (eq k j)) [
    | inl here ↦ (j, Memᴰ.head (ap (λ (w : V). (j, w)) (sym (some-injective (rw here at h)))), here)
    | inr later ↦ let (i, m, e) = get-entry k entries (rw later at h) in (i, Memᴰ.tail m, e)
  ]

  pub register-All :
      (P : K × V → Type 0) (key : V → K) (e : Exn) (by_key : List (K × V)) (values : List V)
      {registry : List (K × V)}
      → register key e by_key values ≡ ok registry
      → All P by_key
      → All (λ v. P (key v, v)) values
      → All P registry
  register-All P key e by_key [] h before all = rw (← ok-injective h) before
  register-All P key e by_key (u ∷ values) h before all =
      let (fresh, rest) = refuse-eq-ok (has (key u) by_key) e _ h in
      register-All P key e (by_key ++ (key u, u) ∷ []) values rest
        (All-snoc P by_key (key u, u) before all.0) all.1
