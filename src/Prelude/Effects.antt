-- ===== src/Prelude/Effects.antt =====
-- The Python exceptions that the code raises or catches, values that may be an exception, and
-- methods that change a state and may raise: what was changed before a raise stays changed.
-- Messages are left out, and a failing external call raises `external n`, whatever its class is.
use Prim.Native.Nat.{ℕ}
use mathlib.Core.Path.{◌≡◌, refl}
use mathlib.Core.Bool.{Bool, true, false}
use mathlib.Core.List.{List, [], ◌∷◌}
use market_regime_loader.Prelude.Text.{Str}

pub data Exn : Type 0 where
  value_error key_error lookup_error type_error assertion_error overflow_error stop_iteration : Exn
  provider_http_error repository_error : Exn
  sync_source_error sync_compatibility_error sync_verification_error : Exn
  provider_batch_error : List Str → Exn
  external : ℕ → Exn
  -- a `BaseException` that is no `Exception`: `KeyboardInterrupt`, `SystemExit`
  interrupt : Exn

-- What `except Exception` catches; `except BaseException` catches all.
abbrev pub is_exception : Exn → Bool
is_exception interrupt = false
is_exception _ = true

pub data Result {ℓ} (A : Type ℓ) : Type ℓ where
  ok : A → Result A
  err : Exn → Result A

abbrev pub bind {ℓ κ} : {A : Type ℓ} {B : Type κ} → Result A → (A → Result B) → Result B
bind (ok a) f = f a
bind (err e) f = err e

-- `if test: raise e`
abbrev pub refuse : Bool → Exn → Result (Unit {0})
refuse true e = err e
refuse false e = ok tt

-- A check, and what follows where it does not raise.
infixr 5 ◌⨟◌
abbrev pub ◌⨟◌ {ℓ} : {B : Type ℓ} → Result (Unit {0}) → Result B → Result B
check ⨟ rest = bind check (λ _. rest)

abbrev pub Exec : Type 0 → Type 0 → Type 0
Exec S A = S → Result A × S

module _ {S A : Type 0} where
  abbrev pub pure : A → Exec S A
  pure a s = (ok a, s)

  abbrev pub raise : Exn → Exec S A
  raise e s = (err e, s)

  abbrev pub lift : Result A → Exec S A
  lift r s = (r, s)

  abbrev pub gets : (S → A) → Exec S A
  gets f s = (ok (f s), s)

abbrev pub modify : {S : Type 0} → (S → S) → Exec S (Unit {0})
modify f s = (ok tt, f s)

abbrev pub continue : {S A B : Type 0} → (A → Exec S B) → Result A × S → Result B × S
continue f (ok a, s) = f a s
continue f (err e, s) = (err e, s)

infixl 5 ◌>>=◌ ◌>>◌
abbrev pub ◌>>=◌ : {S A B : Type 0} → Exec S A → (A → Exec S B) → Exec S B
◌>>=◌ m f s = continue f (m s)

abbrev pub ◌>>◌ : {S A B : Type 0} → Exec S A → Exec S B → Exec S B
m >> n = m >>= λ _. n

-- `try: m except ...: handler`, where the handler decides what it does about the exception.
abbrev pub recover : {S A : Type 0} → (Exn → Exec S A) → Result A × S → Result A × S
recover h (ok a, s) = (ok a, s)
recover h (err e, s) = h e s

abbrev pub catch : {S A : Type 0} → Exec S A → (Exn → Exec S A) → Exec S A
catch m h s = recover h (m s)

-- `[f(x) for x in xs]`, where `f` may raise.
abbrev pub traverse : {A B : Type 0} → (A → Result B) → List A → Result (List B)
traverse f [] = ok []
traverse f (x ∷ xs) = let rest = traverse f xs in bind (f x) (λ y. bind rest (λ ys. ok (y ∷ ys)))

pub ok-injective {ℓ} : {A : Type ℓ} {a b : A} → ok a ≡ ok b → a ≡ b
ok-injective e = cc

-- Inversion of a chain that returns.
pub bind-eq-ok {ℓ κ} :
    {A : Type ℓ} {B : Type κ} (m : Result A) (f : A → Result B) {b : B}
    → bind m f ≡ ok b
    → (a : A) × (m ≡ ok a) × (f a ≡ ok b)
bind-eq-ok (ok a) f h = (a, refl, h)
bind-eq-ok (err e) f h = cc

pub refuse-eq-ok {ℓ} :
    {B : Type ℓ} (test : Bool) (e : Exn) (rest : Result B) {b : B}
    → (refuse test e ⨟ rest) ≡ ok b
    → (test ≡ false) × (rest ≡ ok b)
refuse-eq-ok true e rest h = cc
refuse-eq-ok false e rest h = (refl, h)
