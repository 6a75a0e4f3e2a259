-- ===== src/Bronze/Registry.antt =====
-- application/registry.py: the canonical series.
pub mod Lookup
use market_regime_loader.Prelude.{Str, codes, Option, none, some, List, [], ◌∷◌}
use market_regime_loader.Prelude.Effects.{Result, ok, err, key_error, bind}
use market_regime_loader.Prelude.Dict.{get}
use market_regime_loader.Prelude.{str_eq}
use market_regime_loader.Bronze.Contracts.{
  Provider, NativeShape, FetchCapability, Frequency, BootstrapPolicy, SeriesContract,
  validate_series_registry,
}

-- A daily series, whose first load takes all the history that the provider exposes.
abbrev pub series : Str → Provider → Str → Str → NativeShape → FetchCapability → SeriesContract
series series_id provider source_id unit native_shape fetch_capability = record {
  series_id = series_id;
  provider = provider;
  source_id = source_id;
  unit = unit;
  native_shape = native_shape;
  frequency = Frequency.daily;
  bootstrap_policy = BootstrapPolicy.maximum_exposed_history;
  fetch_capability = fetch_capability;
}

abbrev pub initial_series : List SeriesContract
initial_series =
    series (codes "vix") Provider.cboe (codes "VIX_History.csv") (codes "index_points")
      NativeShape.ohlc FetchCapability.full_file
    ∷ series (codes "vix9d") Provider.cboe (codes "VIX9D_History.csv") (codes "index_points")
        NativeShape.ohlc FetchCapability.full_file
    ∷ series (codes "vix3m") Provider.cboe (codes "VIX3M_History.csv") (codes "index_points")
        NativeShape.ohlc FetchCapability.full_file
    ∷ series (codes "vix6m") Provider.cboe (codes "VIX6M_History.csv") (codes "index_points")
        NativeShape.ohlc FetchCapability.full_file
    ∷ series (codes "vix1y") Provider.cboe (codes "VIX1Y_History.csv") (codes "index_points")
        NativeShape.ohlc FetchCapability.full_file
    ∷ series (codes "vstoxx") Provider.stoxx (codes "V2TX") (codes "index_points")
        NativeShape.scalar FetchCapability.full_file
    ∷ series (codes "move") Provider.yahoo (codes "^MOVE") (codes "index_points") NativeShape.ohlc
        FetchCapability.date_range
    ∷ series (codes "ciss") Provider.ecb (codes "CISS.D.U2.Z0Z.4F.EC.SS_CIN.IDX") (codes "index")
        NativeShape.scalar FetchCapability.date_range
    ∷ series (codes "estr") Provider.ecb (codes "EST.B.EU000A2X2A25.WT") (codes "percent")
        NativeShape.scalar FetchCapability.date_range
    ∷ series (codes "euro_hy_oas") Provider.fred (codes "BAMLHE00EHYIOAS") (codes "percent")
        NativeShape.scalar FetchCapability.date_range
    ∷ series (codes "us_2y") Provider.fred (codes "DGS2") (codes "percent") NativeShape.scalar
        FetchCapability.date_range
    ∷ series (codes "us_10y") Provider.fred (codes "DGS10") (codes "percent") NativeShape.scalar
        FetchCapability.date_range
    ∷ series (codes "usd_broad") Provider.fred (codes "DTWEXBGS") (codes "index") NativeShape.scalar
        FetchCapability.date_range
    ∷ []

unfoldable pub series_registry : Result (List (Str × SeriesContract))
unfolding validate_series_registry
series_registry = validate_series_registry initial_series

abbrev pub or_unknown : Option SeriesContract → Result SeriesContract
or_unknown none = err key_error
or_unknown (some c) = ok c

unfoldable pub series_contract : Str → Result SeriesContract
series_contract series_id =
    bind series_registry (λ registry. or_unknown (get str_eq series_id registry))
