-- ===== src/Http/Delays.antt =====
-- application/retry.py: what the delay after a failed attempt has to be.
use market_regime_loader.Prelude.{
  ℕ, suc, ◌≡◌, refl, ◌⊎◌, inl, inr, arith, Bool-cases, ◌-◌, ltb, true, false, Option, none, some,
}
use mathlib.Core.Path.{subst}
use market_regime_loader.Prelude.Effects.{Result, ok, err, overflow_error}
use market_regime_loader.Http.{exponential, smaller, Floats, RetryPolicy, delay_after, not_negative}

after_first : (a : ℕ) → ltb (suc a) 1 ≡ false
after_first a = ground arith

module _ {F : Type 0} (floats : Floats F) (p : RetryPolicy F) where
  abbrev pub IsShort : F → Type 0
  IsShort seconds = floats.lt p.max_delay_seconds seconds ≡ false

  abbrev pub IsExponential : ℕ → F → Type 0
  IsExponential attempt d =
      (factor : F) × (floats.power p.multiplier (attempt - 1) ≡ some factor)
      × (d ≡ smaller floats (floats.times p.initial_delay_seconds factor) p.max_delay_seconds)

  -- What the delay after a failed attempt has to be: what the reply said, if it is not negative, and else
  -- the exponential one, and the longest one at most.
  abbrev pub IsPace : ℕ → Option F → F → Type 0
  IsPace attempt none d = IsExponential attempt d
  IsPace attempt (some s) d =
      (floats.le floats.zero_seconds s ≡ true) × (d ≡ smaller floats s p.max_delay_seconds)
      ⊎ (floats.le floats.zero_seconds s ≡ false) × IsExponential attempt d

  -- The exponential delay is called for and cannot be calculated.
  abbrev pub Overflows : ℕ → Option F → Type 0
  Overflows attempt none = floats.power p.multiplier (attempt - 1) ≡ none
  Overflows attempt (some s) =
      (floats.le floats.zero_seconds s ≡ false) × (floats.power p.multiplier (attempt - 1) ≡ none)

  module _ (same : floats.lt p.max_delay_seconds p.max_delay_seconds ≡ false) where
    smaller-IsShort : (d : F) → IsShort (smaller floats d p.max_delay_seconds)
    smaller-IsShort d = elim (Bool-cases (floats.lt p.max_delay_seconds d)) [
      | inl h ↦ rw h same
      | inr h ↦ rw h h
    ]

    abbrev pub Delayed : ℕ → Option F → Result F → Type 0
    Delayed attempt told r =
        ((d : F) × (r ≡ ok d) × IsShort d × IsPace attempt told d)
        ⊎ ((r ≡ err overflow_error) × Overflows attempt told)

    exponential-Delayed :
        (a : ℕ) (factor : Option F)
        → floats.power p.multiplier (suc a - 1) ≡ factor
        → Delayed (suc a) none (exponential floats p factor)
    exponential-Delayed a none e = inr (refl, e)
    exponential-Delayed a (some factor) e = inl (_, refl, smaller-IsShort _, (factor, e, refl))

    not_told :
        (a : ℕ) (s : F) (r : Result F)
        → floats.le floats.zero_seconds s ≡ false
        → Delayed (suc a) none r
        → Delayed (suc a) (some s) r
    not_told a s r h (inl (d, e, short, pace)) = inl (d, e, short, inr (h, pace))
    not_told a s r h (inr (e, over)) = inr (e, (h, over))

    delay_after-told :
        (a : ℕ) (s : F)
        → floats.le floats.zero_seconds s ≡ true
        → ok (smaller floats s p.max_delay_seconds)
          ≡ delay_after floats p (suc a) (not_negative floats (some s))
    unfolding delay_after
    delay_after-told a s h = rw (h, after_first a, h) refl

    delay_after-negative :
        (a : ℕ) (s : F)
        → floats.le floats.zero_seconds s ≡ false
        → exponential floats p (floats.power p.multiplier (suc a - 1))
          ≡ delay_after floats p (suc a) (not_negative floats (some s))
    unfolding delay_after
    delay_after-negative a s h = rw (h, after_first a) refl

    -- The delay for what a reply says, negative values of which are left out first.
    pub delay_after-Delayed :
        (a : ℕ) (told : Option F)
        → Delayed (suc a) told (delay_after floats p (suc a) (not_negative floats told))
    unfolding delay_after
    delay_after-Delayed a none = rw (after_first a) (exponential-Delayed a _ refl)
    delay_after-Delayed a (some s) = elim (Bool-cases (floats.le floats.zero_seconds s)) [
      | inl usable ↦
          subst (Delayed (suc a) (some s)) (delay_after-told a s usable)
            (inl (_, refl, smaller-IsShort s, inl (usable, refl)))
      | inr negative ↦
          subst (Delayed (suc a) (some s)) (delay_after-negative a s negative)
            (not_told a s _ negative (exponential-Delayed a _ refl))
    ]
