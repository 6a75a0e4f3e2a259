-- ===== src/Bronze/Registry/Lookup.antt =====
-- What `series_contract` of application/registry.py finds.
use mathlib.Core.List.{Memᴰ}
use market_regime_loader.Prelude.{
  ◌≡◌, refl, sym, ◌∙◌, ◌↔◌, Option, none, some, Str, str_eq, str_eq_refl, str_eq→eq, List, [],
}
use market_regime_loader.Prelude.Membership.{All-of_mem, mem-All}
use market_regime_loader.Prelude.Effects.{ok, value_error}
use market_regime_loader.Prelude.Dict.{get, get-register, get-entry, register-All}
use market_regime_loader.Bronze.Contracts.{SeriesContract, validate_series_registry}
use market_regime_loader.Bronze.Registry.{
  initial_series, series_registry, or_unknown, series_contract,
}

series_registry-returns :
    (registry : List (Str × SeriesContract)) × (series_registry ≡ ok registry)
    × (validate_series_registry initial_series ≡ ok registry)
unfolding series_registry validate_series_registry str_eq
series_registry-returns = (_, refl, refl)

-- Each entry of a validated registry is found under its own id, and under no other one.
pub validate_series_registry-get :
    (entries : List SeriesContract) (registry : List (Str × SeriesContract))
    → validate_series_registry entries ≡ ok registry
    → (series_id : Str) (c : SeriesContract)
    → (get str_eq series_id registry ≡ some c) ↔ (Memᴰ c entries × (c.series_id ≡ series_id))
unfolding validate_series_registry
validate_series_registry-get entries registry h series_id c = (there, back)
  where
    there : get str_eq series_id registry ≡ some c → Memᴰ c entries × (c.series_id ≡ series_id)
    there e =
        let (key, m, same) = get-entry str_eq series_id registry e in
        let (inside, own) =
          mem-All (λ (k, d). Memᴰ d entries × (d.series_id ≡ k)) registry
            (register-All str_eq (λ (k, d). Memᴰ d entries × (d.series_id ≡ k))
              (λ (d : SeriesContract). d.series_id) value_error [] entries h tt
              (All-of_mem entries (λ d k. (k, refl))))
            m in
        (inside, own ∙ sym (str_eq→eq series_id key same))

    back : Memᴰ c entries × (c.series_id ≡ series_id) → get str_eq series_id registry ≡ some c
    back (m, own) = rw (← own) (
        get-register str_eq str_eq_refl (λ (d : SeriesContract). d.series_id) value_error [] entries
          h m)

or_unknown-ok :
    (found : Option SeriesContract) (c : SeriesContract)
    → (or_unknown found ≡ ok c) ↔ (found ≡ some c)
or_unknown-ok none c = (λ h. cc, λ h. cc)
or_unknown-ok (some d) c = (λ h. cc, λ h. cc)

-- An id resolves to a contract exactly if the contract is one of the initial series and has this id;
-- in particular the initial series pass the validation.
pub series_contract_iff :
    (series_id : Str) (c : SeriesContract)
    → (series_contract series_id ≡ ok c) ↔ (Memᴰ c initial_series × (c.series_id ≡ series_id))
unfolding series_contract
series_contract_iff series_id c =
    let (registry, found, valid) = series_registry-returns in
    let (to_entry, of_entry) =
      validate_series_registry-get initial_series registry valid series_id c in
    let (to_found, of_found) = or_unknown-ok (get str_eq series_id registry) c in
    (λ h. to_entry (to_found (rw found at h)), λ m. rw found (of_found (of_entry m)))
