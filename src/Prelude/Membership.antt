-- ===== src/Prelude/Membership.antt =====
-- Membership in a list, as data: where an element stands.
use mathlib.Core.Path.{◌≡◌, refl, ◌∙◌}
use mathlib.Core.Bool.{Bool, true, false, not}
use mathlib.Core.Option.{some}
use mathlib.Core.List.{List, [], ◌∷◌, ◌++◌, Memᴰ, Permᴰ}
use mathlib.Core.List.Memᴰ
use mathlib.Core.List.Permᴰ
use native.Mathlib.Omega.{arith}
use market_regime_loader.Prelude.Lists.{All, keep, find, any}
use market_regime_loader.Prelude.Tests.{Bool-cases}
use mathlib.Core.Logic.{inl, inr}

module _ {A : Type 0} where
  pub All-of_mem : {P : A → Type 0} (xs : List A) → ((a : A) → Memᴰ a xs → P a) → All P xs
  All-of_mem [] h = tt
  All-of_mem (x ∷ xs) h = (h x (Memᴰ.head refl), All-of_mem xs (λ a m. h a (Memᴰ.tail m)))

  pub mem-All : (P : A → Type 0) {a : A} (xs : List A) → All P xs → Memᴰ a xs → P a
  mem-All P [] h m = elim m [ ]
  mem-All P (x ∷ xs) h (Memᴰ.head e) = rw e h.0
  mem-All P (x ∷ xs) h (Memᴰ.tail m) = mem-All P xs h.1 m

  pub mem-find :
      (p : A → Bool) {a : A} (xs : List A) → find p xs ≡ some a → Memᴰ a xs × (p a ≡ true)
  mem-find p [] h = cc
  mem-find p (x ∷ xs) h = elim (Bool-cases (p x)) [
    | inl passes ↦ let same = (rw passes at h) in (Memᴰ.head (ground arith), ground arith)
    | inr fails ↦ let (m, e) = mem-find p xs (rw fails at h) in (Memᴰ.tail m, e)
  ]

  pub mem-keep :
      (p : A → Bool) {a : A} (xs : List A) → Memᴰ a (keep p xs) → Memᴰ a xs × (p a ≡ true)
  mem-keep p [] m = elim m [ ]
  mem-keep p {a} (x ∷ xs) m = elim (Bool-cases (p x)) [
    | inl passes ↦ (elim (Memᴰ.cases_cons (rw passes at m)) [
      | inl e ↦ (Memᴰ.head e, rw e passes)
      | inr rest ↦ let (k, e) = mem-keep p xs rest in (Memᴰ.tail k, e)
    ])
    | inr fails ↦ let (k, e) = mem-keep p xs (rw fails at m) in (Memᴰ.tail k, e)
  ]

  pub keep-mem : (p : A → Bool) {a : A} (xs : List A) → Memᴰ a xs → p a ≡ true → Memᴰ a (keep p xs)
  keep-mem p [] m e = elim m [ ]
  keep-mem p (x ∷ xs) (Memᴰ.head same) e = rw (← same, e) (Memᴰ.head refl)
  keep-mem p (x ∷ xs) (Memᴰ.tail m) e = elim (Bool-cases (p x)) [
    | inl passes ↦ rw passes (Memᴰ.tail (keep-mem p xs m e))
    | inr fails ↦ rw fails (keep-mem p xs m e)
  ]

  pub mem-any : (p : A → Bool) {a : A} (xs : List A) → any p xs ≡ false → Memᴰ a xs → p a ≡ false
  mem-any p [] h m = elim m [ ]
  mem-any p {a} (x ∷ xs) h (Memᴰ.head same) = rw same (ground arith)
  mem-any p (x ∷ xs) h (Memᴰ.tail m) = mem-any p xs (ground arith) m

  pub perm-mem : {a : A} {xs ys : List A} → Permᴰ xs ys → Memᴰ a xs → Memᴰ a ys
  perm-mem Permᴰ.nil m = m
  perm-mem (Permᴰ.cons e p) (Memᴰ.head f) = Memᴰ.head (f ∙ e)
  perm-mem (Permᴰ.cons e p) (Memᴰ.tail m) = Memᴰ.tail (perm-mem p m)
  perm-mem (Permᴰ.swap e f) (Memᴰ.head g) = Memᴰ.tail (Memᴰ.head (g ∙ e))
  perm-mem (Permᴰ.swap e f) (Memᴰ.tail (Memᴰ.head g)) = Memᴰ.head (g ∙ f)
  perm-mem (Permᴰ.swap e f) (Memᴰ.tail (Memᴰ.tail m)) = Memᴰ.tail (Memᴰ.tail m)
  perm-mem (Permᴰ.trans p q) m = perm-mem q (perm-mem p m)

  pub perm-All : (P : A → Type 0) {xs ys : List A} → Permᴰ xs ys → All P xs → All P ys
  perm-All P {xs} {ys} p h = All-of_mem ys (λ a m. mem-All P xs h (perm-mem (Permᴰ.symm p) m))

  pub any-mem : (p : A → Bool) (xs : List A) → any p xs ≡ true → (a : A) × Memᴰ a xs × (p a ≡ true)
  any-mem p [] h = cc
  any-mem p (x ∷ xs) h = elim (Bool-cases (p x)) [
    | inl passes ↦ (x, Memᴰ.head refl, passes)
    | inr fails ↦ let (a, m, e) = any-mem p xs (ground arith) in (a, Memᴰ.tail m, e)
  ]

  keep-All : (p : A → Bool) (xs : List A) → All (λ x. p x ≡ true) (keep p xs)
  keep-All p [] = tt
  keep-All p (x ∷ xs) = elim (Bool-cases (p x)) [
    | inl passes ↦ rw passes (passes, keep-All p xs)
    | inr fails ↦ rw fails (keep-All p xs)
  ]

  keep-split : (p : A → Bool) (xs : List A) → Permᴰ xs (keep p xs ++ keep (λ x. not (p x)) xs)
  keep-split p [] = Permᴰ.nil
  keep-split p (x ∷ xs) = elim (Bool-cases (p x)) [
    | inl passes ↦ rw passes (Permᴰ.cons refl (keep-split p xs))
    | inr fails ↦ rw fails (
        Permᴰ.trans (Permᴰ.cons refl (keep-split p xs)) (Permᴰ.symm (Permᴰ.middle x (keep p xs) _)))
  ]

  All-map : {P Q : A → Type 0} (xs : List A) → ((a : A) → P a → Q a) → All P xs → All Q xs
  All-map [] f h = tt
  All-map (x ∷ xs) f (h, hs) = (f x h, All-map xs f hs)

  -- What a test separates: those that are other, and those that are the same.
  abbrev pub Separated : (A → Type 0) → List A → List A → List A → Type 0
  Separated Same xs rest gone = Permᴰ xs (rest ++ gone) × All (λ x. Same x → ⊥) rest × All Same gone

  pub keep-Separated :
      (Same : A → Type 0) (other : A → Bool) (xs : List A)
      → ((a : A) → other a ≡ true → Same a → ⊥)
      → ((a : A) → other a ≡ false → Same a)
      → Separated Same xs (keep other xs) (keep (λ x. not (other x)) xs)
  keep-Separated Same other xs apart same = (
    keep-split other xs,
    All-map (keep other xs) apart (keep-All other xs),
    All-map (keep (λ x. not (other x)) xs) (λ a e. same a (ground arith))
        (keep-All (λ x. not (other x)) xs),
  )
