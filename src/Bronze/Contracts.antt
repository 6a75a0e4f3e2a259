-- ===== src/Bronze/Contracts.antt =====
-- application/contracts.py: the contract of a source series, and the registry of contracts.
use market_regime_loader.Prelude.{ℕ, Str, str_eq, Bool, not, ◌||◌, ◌&&◌, List, [], any, ltb, ◌==◌}
use market_regime_loader.Prelude.Effects.{Result, ok, value_error, refuse, ◌⨟◌}
use market_regime_loader.Prelude.Dict.{register}

pub data Provider : Type 0 where
  cboe stoxx yahoo ecb fred : Provider

pub data NativeShape : Type 0 where
  ohlc scalar : NativeShape

pub data FetchCapability : Type 0 where
  date_range full_file : FetchCapability

pub data Frequency : Type 0 where
  daily : Frequency

pub data BootstrapPolicy : Type 0 where
  maximum_exposed_history : BootstrapPolicy

pub record SeriesContract : Type 0 where
  pub series_id : Str
  pub provider : Provider
  pub source_id : Str
  pub unit : Str
  pub native_shape : NativeShape
  pub frequency : Frequency
  pub bootstrap_policy : BootstrapPolicy
  pub fetch_capability : FetchCapability

-- What `str.strip` removes.
abbrev pub is_space : ℕ → Bool
is_space c =
    (ltb 8 c && ltb c 14)
    || ((ltb 27 c && ltb c 33)
        || ((c == 133)
            || ((c == 160)
                || ((c == 5760)
                    || ((ltb 8191 c && ltb c 8203)
                        || ((c == 8232)
                            || ((c == 8233) || ((c == 8239) || ((c == 8287) || (c == 12288))))))))))

-- `not value or not value.strip()`
abbrev pub is_blank : Str → Bool
is_blank s = not (any (λ c. not (is_space c)) s)

-- `SeriesContract.__post_init__`; that the fields are members of their enumerations is in their types.
unfoldable pub series_contract_of : SeriesContract → Result SeriesContract
series_contract_of c =
    refuse (is_blank c.series_id) value_error
    ⨟ refuse (is_blank c.source_id) value_error
    ⨟ refuse (is_blank c.unit) value_error
    ⨟ ok c

unfoldable pub validate_series_registry : List SeriesContract → Result (List (Str × SeriesContract))
unfolding str_eq
validate_series_registry entries =
    register str_eq (λ (c : SeriesContract). c.series_id) value_error [] entries
