-- ===== src/Gold/Retention/Selection.antt =====
-- `GoldRetentionPolicy.select_for_mark` of application/gold_retention.py, within one group of builds.
use mathlib.Core.List.{Permᴰ, map-append}
use mathlib.Core.List.Permᴰ
use market_regime_loader.Prelude.{
  ℕ, zero, suc, ◌+◌, ◌-◌, ◌≤◌, ◌≡◌, refl, sym, ap, ◌∙◌, inl, inr, str_lt, Datetime, aware, is_aware,
  datetime_lt, datetime_eq, all_aware, Bool, true, false, ◌&&◌, ◌||◌, Option, some, List, [], ◌∷◌,
  ◌++◌, ◌==◌, arith, length, take, drop, count, keep, All, Bool-cases, take-append-drop,
}
use market_regime_loader.Prelude.Effects.{ok, traverse}
use market_regime_loader.Prelude.Perms.{length-perm}
use market_regime_loader.Prelude.Sorting.{Keyed, key_lt, sort_by, sort_keyed, unkeyed, key_times}
use market_regime_loader.Prelude.Sorting.Laws.{
  sort_by-perm, sort_by-Sorted, Sorted, AwareKey, key_lt_asym, key_lt_trans,
}
use market_regime_loader.Catalog.Rows.{GoldCatalogRecord, is_current}
use market_regime_loader.Gold.Retention.{is_spare, completion_key, oldest, select_in_group}

-- The build has a completion time, and it has a zone.
abbrev pub IsCompleted : GoldCatalogRecord → Type 0
IsCompleted r = (t : ℕ) × (r.completed_at_utc ≡ some (aware t))

-- The order in which builds are pruned: by completion time, then by build id.
abbrev pub time_before : Option Datetime → Option Datetime → Bool → Bool
time_before (some a) (some b) tie = datetime_lt a b || (datetime_eq a b && tie)
time_before _ _ tie = false

abbrev pub completed_before : GoldCatalogRecord → GoldCatalogRecord → Bool
completed_before r s =
    time_before r.completed_at_utc s.completed_at_utc (str_lt r.build_id s.build_id)

-- None of the kept builds is older than one of the selected ones.
abbrev pub NoneOlder : List GoldCatalogRecord → List GoldCatalogRecord → Type 0
NoneOlder kept selected = All (λ s. All (λ r. completed_before r s ≡ false) kept) selected

abbrev IsKey : Keyed GoldCatalogRecord → Type 0
IsKey (t, id, r) = (is_aware t ≡ true) × (r.completed_at_utc ≡ some t) × (id ≡ r.build_id)

keys_of :
    (records : List GoldCatalogRecord)
    → All IsCompleted records
    → (ks : List (Keyed GoldCatalogRecord)) × (traverse completion_key records ≡ ok ks)
      × (unkeyed ks ≡ records)
      × All IsKey ks
unfolding completion_key
keys_of [] h = ([], refl, refl, tt)
keys_of (r ∷ records) h =
    let (ks, e, rows, valid) = keys_of records h.1 in
    (
      (aware h.0.0, r.build_id, r) ∷ ks,
      rw (h.0.1, e),
      ap (λ rest. r ∷ rest) rows,
      ((refl, h.0.1, refl), valid),
    )

not_mixed : (ks : List (Keyed GoldCatalogRecord)) → All IsKey ks → all_aware (key_times ks) ≡ true
not_mixed [] h = refl
not_mixed (k ∷ ks) h = rw (h.0.0, not_mixed ks h.1)

All-AwareKey : (ks : List (Keyed GoldCatalogRecord)) → All IsKey ks → All AwareKey ks
All-AwareKey [] h = tt
All-AwareKey (k ∷ ks) h = (h.0.0, All-AwareKey ks h.1)

All-perm_keys : {xs ys : List (Keyed GoldCatalogRecord)} → Permᴰ xs ys → All IsKey ys → All IsKey xs
All-perm_keys Permᴰ.nil h = h
All-perm_keys (Permᴰ.cons e p) h = (rw e h.0, All-perm_keys p h.1)
All-perm_keys (Permᴰ.swap e f) h = (rw e h.1.0, (rw f h.0, h.1.1))
All-perm_keys (Permᴰ.trans p q) h = All-perm_keys p (All-perm_keys q h)

pub unkeyed-perm :
    {xs ys : List (Keyed GoldCatalogRecord)} → Permᴰ xs ys → Permᴰ (unkeyed xs) (unkeyed ys)
unkeyed-perm Permᴰ.nil = Permᴰ.nil
unkeyed-perm (Permᴰ.cons e p) =
    Permᴰ.cons (ap (λ (k : Keyed GoldCatalogRecord). k.2) e) (unkeyed-perm p)
unkeyed-perm (Permᴰ.swap e f) =
    Permᴰ.swap (ap (λ (k : Keyed GoldCatalogRecord). k.2) e)
      (ap (λ (k : Keyed GoldCatalogRecord). k.2) f)
unkeyed-perm (Permᴰ.trans p q) = Permᴰ.trans (unkeyed-perm p) (unkeyed-perm q)

length-unkeyed : (ks : List (Keyed GoldCatalogRecord)) → length (unkeyed ks) ≡ length ks
length-unkeyed [] = refl
length-unkeyed (k ∷ ks) = ap suc (length-unkeyed ks)

length-take_of_le :
    (n : ℕ) (ks : List (Keyed GoldCatalogRecord)) → n ≤ length ks → length (take n ks) ≡ n
length-take_of_le zero ks h = refl
length-take_of_le (suc n) [] h = absurd (omega arith)
length-take_of_le (suc n) (k ∷ ks) h = ap suc (length-take_of_le n ks (omega arith))

take-unkeyed :
    (n : ℕ) (ks : List (Keyed GoldCatalogRecord)) → take n (unkeyed ks) ≡ unkeyed (take n ks)
take-unkeyed zero ks = refl
take-unkeyed (suc n) [] = refl
take-unkeyed (suc n) (k ∷ ks) = ap (λ rest. k.2 ∷ rest) (take-unkeyed n ks)

-- In an ordered list, the front has nothing that is after something of the back.
older_than :
    (k : Keyed GoldCatalogRecord) (ks : List (Keyed GoldCatalogRecord))
    → IsKey k
    → All IsKey ks
    → All (λ j. key_lt j k ≡ false) ks
    → All (λ r. completed_before r k.2 ≡ false) (unkeyed ks)
older_than k [] v vs h = tt
older_than (t, i, s) ((u, j, r) ∷ ks) v vs h =
    (rw (v.1, vs.0.1, ← v.2, ← vs.0.2) h.0, older_than (t, i, s) ks v vs.1 h.1)

All-drop :
    (P : Keyed GoldCatalogRecord → Type 0) (n : ℕ) (ks : List (Keyed GoldCatalogRecord))
    → All P ks
    → All P (drop n ks)
All-drop P zero ks h = h
All-drop P (suc n) [] h = tt
All-drop P (suc n) (k ∷ ks) h = All-drop P n ks h.1

split-NoneOlder :
    (n : ℕ) (ks : List (Keyed GoldCatalogRecord))
    → All IsKey ks
    → Sorted key_lt ks
    → NoneOlder (unkeyed (drop n ks)) (unkeyed (take n ks))
split-NoneOlder zero ks v s = tt
split-NoneOlder (suc n) [] v s = tt
split-NoneOlder (suc n) (k ∷ ks) v s = (
  older_than k (drop n ks) v.0 (All-drop IsKey n ks v.1)
      (All-drop (λ j. key_lt j k ≡ false) n ks s.0),
  split-NoneOlder n ks v.1 s.1,
)

All-spare :
    (group : List GoldCatalogRecord) → All IsCompleted group → All IsCompleted (keep is_spare group)
All-spare [] h = tt
All-spare (r ∷ group) h = elim (Bool-cases r.current) [
  | inl current ↦ rw current (All-spare group h.1)
  | inr spare ↦ rw spare (h.0, All-spare group h.1)
]

spare_count :
    (group : List GoldCatalogRecord)
    → length (keep is_spare group) + count is_current group ≡ length group
spare_count [] = omega arith
spare_count (r ∷ group) = ground (arith, spare_count group)

-- What a selection of `n` builds from `group` is: as many spare builds, none of which is younger than a
-- spare build that is kept.
pub record Selects (n : ℕ) (group selected kept : List GoldCatalogRecord) : Type 0 where
  pub as_many : length selected ≡ n
  pub spare : Permᴰ (selected ++ kept) (keep is_spare group)
  pub oldest : NoneOlder kept selected

oldest-ok :
    (n : ℕ) (records : List GoldCatalogRecord)
    → n ≤ length records
    → oldest n records ≡ ok (take n records)
oldest-ok n records h = ground arith

-- The sorted candidates, cut after `n`.
module _ (n : ℕ) (group : List GoldCatalogRecord) (ks : List (Keyed GoldCatalogRecord)) where
  abbrev in_order : List (Keyed GoldCatalogRecord)
  in_order = sort_by key_lt ks

  sorted_keys : All IsKey ks → sort_keyed ks ≡ ok (unkeyed in_order)
  unfolding sort_keyed
  sorted_keys v = rw (not_mixed ks v)

  long : unkeyed ks ≡ keep is_spare group → length (unkeyed in_order) ≡ length (keep is_spare group)
  long rows =
      length-unkeyed in_order
      ∙ length-perm (sort_by-perm key_lt ks)
      ∙ sym (length-unkeyed ks)
      ∙ ap length rows

  cut :
      unkeyed ks ≡ keep is_spare group
      → All IsKey ks
      → n ≤ length (keep is_spare group)
      → Selects n group (unkeyed (take n in_order)) (unkeyed (drop n in_order))
  cut rows v enough = record {
    as_many = omega (
      arith,
      length-unkeyed (take n in_order),
      length-take_of_le n in_order,
      long rows,
      length-unkeyed in_order,
    );
    spare =
        rw (← map-append, take-append-drop n in_order, ← rows)
          (unkeyed-perm (sort_by-perm key_lt ks));
    oldest =
        split-NoneOlder n in_order (All-perm_keys (sort_by-perm key_lt ks) v)
          (sort_by-Sorted key_lt AwareKey key_lt_asym key_lt_trans ks (All-AwareKey ks v));
  }

-- With at most one current build, a policy that retains at least one build always finds the builds
-- to mark: as many as the group has too many, never the current one, and the oldest of the others.
pub select_in_group-Selects :
    (retain : ℕ) (group : List GoldCatalogRecord)
    → 1 ≤ retain
    → All IsCompleted group
    → count is_current group ≤ 1
    → (selected kept : List GoldCatalogRecord) × (select_in_group retain group ≡ ok selected)
      × Selects (length group - retain) group selected kept
unfolding select_in_group
select_in_group-Selects retain group positive completed one =
    elim (Bool-cases (length group - retain == 0)) [
      | inl none_over ↦ (
        [],
        keep is_spare group,
        rw none_over,
        record { as_many = ground arith; spare = Permᴰ.refl _; oldest = tt },
      )
      | inr over ↦
          let n = length group - retain in
          let (ks, e, rows, valid) = keys_of (keep is_spare group) (All-spare group completed) in
          let enough : n ≤ length (keep is_spare group) = omega (arith, spare_count group) in
          let selects = cut n group ks rows valid enough in
          (
            unkeyed (take n (in_order n group ks)),
            unkeyed (drop n (in_order n group ks)),
            rw (over, e, sorted_keys n group ks valid)
                (oldest-ok n (unkeyed (in_order n group ks))
                    (omega (arith, long n group ks rows, enough))
                  ∙ ap ok (take-unkeyed n (in_order n group ks))),
            selects,
          )
    ]
