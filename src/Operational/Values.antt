-- ===== src/Operational/Values.antt =====
-- How the enumerations of application/contracts.py, application/planner.py and
-- application/operational_records.py are stored: as their texts.
use market_regime_loader.Prelude.{◌≡◌, refl, Str, codes, str_eq, if◌then◌else◌}
use market_regime_loader.Prelude.Effects.{Result, ok, err, value_error}
use market_regime_loader.Bronze.Contracts.{Provider}
use market_regime_loader.Bronze.Planner.{OperationMode}
use market_regime_loader.Bronze.Records.{RunStatus}

-- `provider.value`
abbrev pub provider_value : Provider → Str
provider_value Provider.cboe = codes "cboe"
provider_value Provider.stoxx = codes "stoxx"
provider_value Provider.yahoo = codes "yahoo"
provider_value Provider.ecb = codes "ecb"
provider_value Provider.fred = codes "fred"

-- `Provider(value)`
unfoldable pub provider_of : Str → Result Provider
unfolding str_eq
provider_of s =
    if str_eq s (codes "cboe")
    then ok Provider.cboe
    else if str_eq s (codes "stoxx")
    then ok Provider.stoxx
    else if str_eq s (codes "yahoo")
    then ok Provider.yahoo
    else if str_eq s (codes "ecb")
    then ok Provider.ecb
    else if str_eq s (codes "fred")
    then ok Provider.fred
    else err value_error

-- `mode.value`
abbrev pub mode_value : OperationMode → Str
mode_value OperationMode.bootstrap = codes "bootstrap"
mode_value OperationMode.update = codes "update"
mode_value OperationMode.reconcile = codes "reconcile"

-- `OperationMode(value)` and `RunMode(value)`
unfoldable pub mode_of : Str → Result OperationMode
unfolding str_eq
mode_of s =
    if str_eq s (codes "bootstrap")
    then ok OperationMode.bootstrap
    else if str_eq s (codes "update")
    then ok OperationMode.update
    else if str_eq s (codes "reconcile")
    then ok OperationMode.reconcile
    else err value_error

-- `status.value`
abbrev pub status_value : RunStatus → Str
status_value RunStatus.success = codes "success"
status_value RunStatus.failed = codes "failed"

-- `RunStatus(value)`
unfoldable pub status_of : Str → Result RunStatus
unfolding str_eq
status_of s =
    if str_eq s (codes "success")
    then ok RunStatus.success
    else if str_eq s (codes "failed")
    then ok RunStatus.failed
    else err value_error

pub provider_of-provider_value : (p : Provider) → provider_of (provider_value p) ≡ ok p
unfolding provider_of
provider_of-provider_value Provider.cboe = refl
provider_of-provider_value Provider.stoxx = refl
provider_of-provider_value Provider.yahoo = refl
provider_of-provider_value Provider.ecb = refl
provider_of-provider_value Provider.fred = refl

pub mode_of-mode_value : (m : OperationMode) → mode_of (mode_value m) ≡ ok m
unfolding mode_of
mode_of-mode_value OperationMode.bootstrap = refl
mode_of-mode_value OperationMode.update = refl
mode_of-mode_value OperationMode.reconcile = refl

pub status_of-status_value : (s : RunStatus) → status_of (status_value s) ≡ ok s
unfolding status_of
status_of-status_value RunStatus.success = refl
status_of-status_value RunStatus.failed = refl
