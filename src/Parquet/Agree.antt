-- ===== src/Parquet/Agree.antt =====
-- ingestion/parquet_repository.py: rows that agree on columns.
use market_regime_loader.Prelude.{
  ◌≡◌, refl, sym, ap, ◌∙◌, inl, inr, Str, Bool, true, false, Bool-cases, arith, str_eq, str_eq→eq,
  mem_str, Option, none, some, List, [], ◌∷◌, any, All,
}
use mathlib.Core.Path.{subst}
use mathlib.Core.List.{Memᴰ}
use market_regime_loader.Prelude.Membership.{All-of_mem, mem-any}
use market_regime_loader.Parquet.Single.{Single}
use market_regime_loader.Parquet.{
  Row, same_cell, joined_cell, same_on, joined_on, has_duplicates, payload_columns,
}

module _ {V : Type 0} where
  -- The two rows have the same values, or nulls, in the columns.
  abbrev pub Agree : List Str → Row V → Row V → Type 0
  Agree names a b = All (λ c. a c ≡ b c) names

  pub Agree_refl : (names : List Str) (a : Row V) → Agree names a a
  Agree_refl [] a = tt
  Agree_refl (c ∷ names) a = (refl, Agree_refl names a)

module _ {V : Type 0} (eq : V → V → Bool) (eq_same : (a b : V) → eq a b ≡ true → a ≡ b)
    (eq_refl : (a : V) → eq a a ≡ true) where
  same_cell_refl : (a : Option V) → same_cell eq a a ≡ true
  same_cell_refl none = refl
  same_cell_refl (some a) = eq_refl a

  same_cell-Same : (a b : Option V) → same_cell eq a b ≡ true → a ≡ b
  same_cell-Same none none h = refl
  same_cell-Same (some a) (some b) h = ap some (eq_same a b h)
  same_cell-Same none (some b) h = cc
  same_cell-Same (some a) none h = cc

  joined_cell-Same : (a b : Option V) → joined_cell eq a b ≡ true → a ≡ b
  joined_cell-Same none b h = cc
  joined_cell-Same (some a) (some b) h = ap some (eq_same a b h)
  joined_cell-Same (some a) none h = cc

  pub joined_on-Agree : (key : List Str) (a b : Row V) → joined_on eq key a b ≡ true → Agree key a b
  joined_on-Agree [] a b h = tt
  joined_on-Agree (c ∷ key) a b h =
      (joined_cell-Same (a c) (b c) (ground arith), joined_on-Agree key a b (ground arith))

  pub same_on-Agree :
      (names : List Str) (a b : Row V) → same_on eq names a b ≡ true → Agree names a b
  same_on-Agree [] a b h = tt
  same_on-Agree (c ∷ names) a b h =
      (same_cell-Same (a c) (b c) (ground arith), same_on-Agree names a b (ground arith))

  Agree-same_on : (names : List Str) (a b : Row V) → Agree names a b → same_on eq names a b ≡ true
  Agree-same_on [] a b h = refl
  Agree-same_on (c ∷ names) a b (e, h) = rw (e, same_cell_refl (b c)) (Agree-same_on names a b h)

  Agree_sym : (names : List Str) (a b : Row V) → Agree names a b → Agree names b a
  Agree_sym [] a b h = tt
  Agree_sym (c ∷ names) a b (e, h) = (sym e, Agree_sym names a b h)

  pub Agree_trans :
      (names : List Str) (a b d : Row V) → Agree names a b → Agree names b d → Agree names a d
  Agree_trans [] a b d h k = tt
  Agree_trans (c ∷ names) a b d (e, h) (f, k) = (e ∙ f, Agree_trans names a b d h k)

  repeated :
      (key : List Str) (rows : List (Row V)) (row b : Row V)
      → any (same_on eq key row) rows ≡ false
      → Memᴰ b rows
      → Agree key row b
      → ⊥
  repeated key rows row b h m same =
      cc (mem-any (same_on eq key row) rows h m, Agree-same_on key row b same)

  -- Two of the rows of an accepted frame with the same key are the same.
  pub one_of_key :
      (key : List Str) (rows : List (Row V)) {a b : Row V}
      → has_duplicates eq key rows ≡ false
      → Memᴰ a rows
      → Memᴰ b rows
      → Agree key a b
      → a ≡ b
  one_of_key key [] h m n same = elim m [ ]
  one_of_key key (row ∷ rows) h (Memᴰ.head e) (Memᴰ.head f) same = e ∙ sym f
  one_of_key key (row ∷ rows) {a} {b} h (Memᴰ.head e) (Memᴰ.tail n) same =
      absurd (repeated key rows row b (ground arith) n (subst (λ r. Agree key r b) e same))
  one_of_key key (row ∷ rows) {a} {b} h (Memᴰ.tail m) (Memᴰ.head f) same = absurd (
      repeated key rows row a (ground arith) m
        (subst (λ r. Agree key r a) f (Agree_sym key a b same)))
  one_of_key key (row ∷ rows) h (Memᴰ.tail m) (Memᴰ.tail n) same =
      one_of_key key rows (ground arith) m n same

  mem_str-All :
      (P : Str → Type 0) (c : Str) (key : List Str) → All P key → mem_str c key ≡ true → P c
  mem_str-All P c [] h there = cc
  mem_str-All P c (k ∷ key) h there = elim (Bool-cases (str_eq c k)) [
    | inl e ↦ subst P (sym (str_eq→eq c k e)) h.0
    | inr e ↦ mem_str-All P c key h.1 (ground arith)
  ]

  joined_cell-symmetric : (a b : Option V) → joined_cell eq a b ≡ true → joined_cell eq b a ≡ true
  joined_cell-symmetric none b h = cc
  joined_cell-symmetric (some a) none h = cc
  joined_cell-symmetric (some a) (some b) h = rw (eq_same a b h) (eq_refl b)

  joined_on-symmetric :
      (key : List Str) (a b : Row V) → joined_on eq key a b ≡ true → joined_on eq key b a ≡ true
  joined_on-symmetric [] a b h = refl
  joined_on-symmetric (c ∷ key) a b h =
      let one : joined_cell eq (a c) (b c) ≡ true = ground arith in
      let more : joined_on eq key a b ≡ true = ground arith in
      rw (joined_cell-symmetric (a c) (b c) one, joined_on-symmetric key a b more) refl

  pub joined_on-apart :
      (key : List Str) (a b : Row V) → joined_on eq key a b ≡ false → joined_on eq key b a ≡ false
  joined_on-apart key a b h = elim (Bool-cases (joined_on eq key b a)) [
    | inl joins ↦ let back = joined_on-symmetric key b a joins in cc
    | inr apart ↦ apart
  ]

  -- The keys of an accepted frame are unique.
  pub has_duplicates-Single :
      (key : List Str) (rows : List (Row V))
      → has_duplicates eq key rows ≡ false
      → Single eq key rows
  has_duplicates-Single key [] h = tt
  has_duplicates-Single key (x ∷ xs) h = (
    All-of_mem xs (λ y m. elim (Bool-cases (joined_on eq key x y)) [
      | inl joins ↦ absurd (repeated key xs x y (ground arith) m (joined_on-Agree key x y joins))
      | inr apart ↦ apart
    ]),
    has_duplicates-Single key xs (ground arith),
  )

  -- A payload that agrees with a key that agrees: the whole row does.
  pub Agree-columns :
      (key names : List Str) (a b : Row V)
      → Agree key a b
      → Agree (payload_columns eq key names) a b
      → Agree names a b
  Agree-columns key [] a b h k = tt
  Agree-columns key (c ∷ names) a b h k = elim (Bool-cases (mem_str c key)) [
    | inl there ↦
        (mem_str-All (λ c. a c ≡ b c) c key h there, Agree-columns key names a b h (rw there at k))
    | inr apart ↦ let both = (rw apart at k) in (both.0, Agree-columns key names a b h both.1)
  ]
