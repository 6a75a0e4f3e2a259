-- ===== src/Bronze/Adapters.antt =====
-- application/ports/provider_registry.py: the registry of one adapter per provider.
use mathlib.Core.List.{Memᴰ}
use market_regime_loader.Prelude.{◌≡◌, refl, Bool, true, false, Option, none, some, List, []}
use market_regime_loader.Prelude.Effects.{Result, ok, err, value_error, key_error}
use market_regime_loader.Prelude.Dict.{get, register, get-register}
use market_regime_loader.Bronze.Contracts.{Provider}

abbrev pub provider_eq : Provider → Provider → Bool
provider_eq Provider.cboe Provider.cboe = true
provider_eq Provider.stoxx Provider.stoxx = true
provider_eq Provider.yahoo Provider.yahoo = true
provider_eq Provider.ecb Provider.ecb = true
provider_eq Provider.fred Provider.fred = true
provider_eq _ _ = false

provider_eq_refl : (p : Provider) → provider_eq p p ≡ true
provider_eq_refl Provider.cboe = refl
provider_eq_refl Provider.stoxx = refl
provider_eq_refl Provider.yahoo = refl
provider_eq_refl Provider.ecb = refl
provider_eq_refl Provider.fred = refl

abbrev pub or_unregistered : {A : Type 0} → Option A → Result A
or_unregistered none = err key_error
or_unregistered (some a) = ok a

module _ {Adapter : Type 0} (provider : Adapter → Provider) where
  -- `AdapterRegistry.__init__`
  unfoldable pub adapter_registry : List Adapter → Result (List (Provider × Adapter))
  adapter_registry adapters = register provider_eq provider value_error [] adapters

  -- `AdapterRegistry.resolve`
  unfoldable pub resolve : List (Provider × Adapter) → Provider → Result Adapter
  resolve adapters p = or_unregistered (get provider_eq p adapters)

  -- Each adapter that a registry was built from is what its provider resolves to.
  pub resolve-adapter_registry :
      (adapters : List Adapter) (registry : List (Provider × Adapter)) (adapter : Adapter)
      → adapter_registry adapters ≡ ok registry
      → Memᴰ adapter adapters
      → resolve registry (provider adapter) ≡ ok adapter
  unfolding adapter_registry resolve
  resolve-adapter_registry adapters registry adapter h m =
      rw (get-register provider_eq provider_eq_refl provider value_error [] adapters h m)
