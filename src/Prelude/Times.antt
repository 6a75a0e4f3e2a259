-- ===== src/Prelude/Times.antt =====
-- Python's `datetime` and `date`. A `datetime` without a zone is `naive`; one with a zone is
-- `aware`, and is the instant that it denotes: Python compares aware values by their instants, and
-- `astimezone(UTC)` keeps them. Both are counted in microseconds from the year 1, UTC for `aware`.
-- A `date` is its proleptic ordinal, 1 for 0001-01-01.
use Prim.Native.Nat.{ℕ}
use mathlib.Core.Path.{◌≡◌}
use mathlib.Core.Logic.{◌↔◌}
use native.Mathlib.Omega.{arith}
use mathlib.Core.Option.{Option, none, some}
use mathlib.Core.Bool.{Bool, true, false, not, ◌&&◌, ◌||◌}
use mathlib.Core.List.{List, [], ◌∷◌}
use market_regime_loader.Prelude.Tests.{ltb, ◌==◌}

pub data Datetime : Type 0 where
  naive aware : ℕ → Datetime

abbrev pub Date : Type 0
Date = ℕ

abbrev pub is_aware : Datetime → Bool
is_aware (naive _) = false
is_aware (aware _) = true

abbrev pub microseconds : Datetime → ℕ
microseconds (naive n) = n
microseconds (aware n) = n

-- `a < b`, where both have a zone or neither has one.
abbrev pub datetime_lt : Datetime → Datetime → Bool
datetime_lt a b = ltb (microseconds a) (microseconds b)

-- `a == b`: an aware value never equals a naive one.
abbrev pub datetime_eq : Datetime → Datetime → Bool
datetime_eq (naive a) (naive b) = a == b
datetime_eq (aware a) (aware b) = a == b
datetime_eq (naive _) (aware _) = false
datetime_eq (aware _) (naive _) = false

abbrev pub all_aware : List Datetime → Bool
all_aware [] = true
all_aware (d ∷ ds) = is_aware d && all_aware ds

abbrev pub all_naive : List Datetime → Bool
all_naive [] = true
all_naive (naive _ ∷ ds) = all_naive ds
all_naive (aware _ ∷ ds) = false

-- Python refuses to order an aware value and a naive one, so sorting such a mixture raises.
abbrev pub mixed : List Datetime → Bool
mixed ds = not (all_aware ds || all_naive ds)

pub datetime_eq_iff : (a b : Datetime) → (datetime_eq a b ≡ true) ↔ (a ≡ b)
datetime_eq_iff (naive a) (naive b) = ground arith
datetime_eq_iff (aware a) (aware b) = ground arith
datetime_eq_iff (naive a) (aware b) = (λ h. cc, λ h. cc)
datetime_eq_iff (aware a) (naive b) = (λ h. cc, λ h. cc)

-- The instant is the same, in UTC; a time without a zone is taken for one in UTC.
abbrev pub in_utc : Datetime → Datetime
in_utc d = aware (microseconds d)

abbrev pub map_time : {A B : Type 0} → (A → B) → Option A → Option B
map_time f none = none
map_time f (some a) = some (f a)
