-- ===== src/Prelude/Hoare.antt =====
-- Reasoning about effectful methods: a postcondition for a return and one for a raise.
use mathlib.Core.Path.{◌≡◌, refl, ◌∙◌}
use market_regime_loader.Prelude.Effects.{
  Exn, Result, ok, err, Exec, lift, continue, recover, ◌>>=◌,
}

-- What holds of the value and the state after a method, by how it ended.
abbrev pub After : {S A : Type 0} → (A → S → Type 0) → (Exn → S → Type 0) → Result A × S → Type 0
After Q E (ok a, s) = Q a s
After Q E (err e, s) = E e s

pub record Post {S A : Type 0} (Q : A → S → Type 0) (E : Exn → S → Type 0) (x : Result A × S)
    : Type 0 where
  pub holds : After Q E x

module _ {S A B : Type 0} {Q : A → S → Type 0} {E : Exn → S → Type 0} {R : B → S → Type 0}
    {F : Exn → S → Type 0} where
  pub Post-continue :
      (f : A → Exec S B) (x : Result A × S)
      → Post Q E x
      → ((a : A) (s : S) → Q a s → Post R F (f a s))
      → ((e : Exn) (s : S) → E e s → F e s)
      → Post R F (continue f x)
  Post-continue f (ok a, s) h k l = k a s h.holds
  Post-continue f (err e, s) h k l = record { holds = l e s h.holds }

module _ {S A : Type 0} {Q : A → S → Type 0} {E : Exn → S → Type 0} {R : A → S → Type 0}
    {F : Exn → S → Type 0} where
  pub Post-recover :
      (h : Exn → Exec S A) (x : Result A × S)
      → Post Q E x
      → ((a : A) (s : S) → Q a s → R a s)
      → ((e : Exn) (s : S) → E e s → Post R F (h e s))
      → Post R F (recover h x)
  Post-recover h (ok a, s) p k l = record { holds = k a s p.holds }
  Post-recover h (err e, s) p k l = l e s p.holds

  pub Post-weaken :
      (x : Result A × S)
      → Post Q E x
      → ((a : A) (s : S) → Q a s → R a s)
      → ((e : Exn) (s : S) → E e s → F e s)
      → Post R F x
  Post-weaken (ok a, s) p k l = record { holds = k a s p.holds }
  Post-weaken (err e, s) p k l = record { holds = l e s p.holds }

module _ {S A : Type 0} {Q : A → S → Type 0} {E : Exn → S → Type 0} where
  pub Post-lift :
      (r : Result A) (s : S)
      → ((a : A) → r ≡ ok a → Q a s)
      → ((e : Exn) → E e s)
      → Post Q E (lift r s)
  Post-lift (ok a) s k l = record { holds = k a refl }
  Post-lift (err e) s k l = record { holds = l e }

-- The method leaves a part of the state alone, whether it returns or raises.
abbrev pub Keeps : {S A V : Type 0} → (S → V) → Exec S A → Type 0
Keeps view m = (s : _) → view (m s).1 ≡ view s

pub Keeps-then :
    {S A B V : Type 0} {R : B → S → Type 0} {F : Exn → S → Type 0} (view : S → V) (m : Exec S A)
    (f : A → Exec S B) (v : V) (s : S)
    → Keeps view m
    → view s ≡ v
    → ((a : A) (s' : S) → (m s).0 ≡ ok a → view s' ≡ v → Post R F (f a s'))
    → ((e : Exn) (s' : S) → view s' ≡ v → F e s')
    → Post R F (continue f (m s))
Keeps-then {S} {A} {B} {V} {R} {F} view m f v s keeps h k l = either (m s) (keeps s ∙ h) k
  where
    either :
        (x : Result A × S)
        → view x.1 ≡ v
        → ((a : A) (s' : S) → x.0 ≡ ok a → view s' ≡ v → Post R F (f a s'))
        → Post R F (continue f x)
    either (ok a, s') e k = k a s' refl e
    either (err x, s') e k = record { holds = l x s' e }

pub Keeps-continue :
    {S A B V : Type 0} (view : S → V) (f : A → Exec S B) (x : Result A × S) (v : V)
    → view x.1 ≡ v
    → ((a : A) → Keeps view (f a))
    → view (continue f x).1 ≡ v
Keeps-continue view f (ok a, s) v h k = k a s ∙ h
Keeps-continue view f (err e, s) v h k = h

pub Keeps-bind :
    {S A B V : Type 0} (view : S → V) (m : Exec S A) (f : A → Exec S B)
    → Keeps view m
    → ((a : A) → Keeps view (f a))
    → Keeps view (m >>= f)
Keeps-bind view m f h k s = Keeps-continue view f (m s) (view s) (h s) k

pub Keeps-Post :
    {S A V : Type 0} (view : S → V) (m : Exec S A) (v : V) (s : S)
    → Keeps view m
    → view s ≡ v
    → Post (λ _ s'. view s' ≡ v) (λ _ s'. view s' ≡ v) (m s)
Keeps-Post {S} {A} {V} view m v s keeps h = either (m s) (keeps s ∙ h)
  where
    either : (x : Result A × S) → view x.1 ≡ v → Post (λ _ s'. view s' ≡ v) (λ _ s'. view s' ≡ v) x
    either (ok a, s') e = record { holds = e }
    either (err x, s') e = record { holds = e }
