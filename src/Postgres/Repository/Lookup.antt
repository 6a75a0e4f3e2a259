-- ===== src/Postgres/Repository/Lookup.antt =====
-- What a lookup finds after the loops of ingestion/postgres_gold_repository.py: apply_delta.
use market_regime_loader.Prelude.{
  ◌≡◌, refl, sym, ap, ◌∙◌, inl, inr, arith, Str, str_eq_refl, Datetime, datetime_eq,
  datetime_eq_iff, true, ◌&&◌, Option, none, some, is_some, List, [], ◌∷◌, ◌++◌, map, All,
  Bool-cases, if◌then◌else◌,
}
use market_regime_loader.Prelude.Effects.{
  ok, bind, external, bind-eq-ok, refuse-eq-ok, ok-injective,
}
use market_regime_loader.Prelude.Dict.{get, has}
use market_regime_loader.Prelude.Items.Laws.{get-set_item, get-pop_item, get-snoc}
use market_regime_loader.Postgres.Contracts.{Float, GoldRowPayload}
use market_regime_loader.Postgres.Delta.{at_time, or_key_error}
use market_regime_loader.Postgres.Delta.Partition.{mem_time}
use market_regime_loader.Postgres.Tables.{
  Tables, Statement, run_statement, insert_row, update_row, delete_row, upsert_digest,
  delete_digest, update_item, key_eq, key_eq_iff,
}
use market_regime_loader.Postgres.Repository.Transaction.{Run, each}

abbrev pub Values : Type 0
Values = List (Option Float)

abbrev pub values_of : Option GoldRowPayload → Option Values
values_of none = none
values_of (some row) = some row.values

abbrev pub stored_values : Tables → Datetime → Option Values
stored_values t j = at_time j t.consumer

abbrev pub stored_digest : Str → Tables → Datetime → Option Str
stored_digest dataset_id t j = get key_eq (dataset_id, j) t.hashes

abbrev pub run_of : Statement → Run (Unit {0})
run_of s t = bind (run_statement s t) (λ u. ok (tt, u))

-- A loop of which each pass changes what is found under its own key, in a way that does nothing
-- more the second time.
pub each-lookup :
    {A V : Type 0} (look : Tables → Datetime → Option V) (change : Datetime → Option V → Option V)
    (key : A → Datetime) (g : A → Run (Unit {0})) (Good : A → Type 0)
    → ((j : Datetime) (o : Option V) → change j (change j o) ≡ change j o)
    → ((x : A) (t u : Tables) (j : Datetime)
        → Good x
        → g x t ≡ ok (tt, u)
        → look u j ≡ (if datetime_eq j (key x) then change j (look t j) else look t j))
    → (xs : List A) (t u : Tables) (j : Datetime) → All Good xs
    → each g xs t ≡ ok (tt, u)
    → look u j ≡ (if mem_time j (map key xs) then change j (look t j) else look t j)
each-lookup look change key g Good twice step [] t u j h e =
    ap (λ (p : Unit × Tables). look p.1 j) (sym (ok-injective e))
each-lookup look change key g Good twice step (x ∷ xs) t u j h e =
    let ((_, t1), first, rest) = bind-eq-ok (g x t) _ e in
    let here = step x t t1 j h.0 first in
    let later = each-lookup look change key g Good twice step xs t1 u j h.1 rest in
    elim (Bool-cases (datetime_eq j (key x))) [
      | inl this ↦ elim (Bool-cases (mem_time j (map key xs))) [
        | inl again ↦ later ∙ rw (again, here, this) (twice j (look t j))
        | inr once ↦ later ∙ rw (once, this) (here ∙ rw this refl)
      ]
      | inr other ↦
          let same : look t1 j ≡ look t j = rw other at here in rw other (rw same at later)
    ]

pub each-keeps :
    {A V : Type 0} (view : Tables → V) (g : A → Run (Unit {0}))
    → ((x : A) (t u : Tables) → g x t ≡ ok (tt, u) → view u ≡ view t)
    → (xs : List A) (t u : Tables) → each g xs t ≡ ok (tt, u)
    → view u ≡ view t
each-keeps view g step [] t u e = ap (λ (p : Unit × Tables). view p.1) (sym (ok-injective e))
each-keeps view g step (x ∷ xs) t u e =
    let ((_, t1), first, rest) = bind-eq-ok (g x t) _ e in
    each-keeps view g step xs t1 u rest ∙ step x t t1 first

-- The loops over the rows of the replica, whose source has the rows `by_time`.
module _ (by_time : List (Datetime × GoldRowPayload)) where
  abbrev pub OfSource : GoldRowPayload → Type 0
  OfSource row = at_time row.timestamp_m1 by_time ≡ some row

  abbrev pub source_values : Datetime → Option Values
  source_values j = values_of (at_time j by_time)

  abbrev pub put_values : Datetime → Option Values → Option Values
  put_values j o = source_values j

  abbrev pub change_values : Datetime → Option Values → Option Values
  change_values j none = none
  change_values j (some _) = source_values j

  own_values :
      (row : GoldRowPayload) (j : Datetime)
      → OfSource row
      → datetime_eq j row.timestamp_m1 ≡ true
      → some row.values ≡ source_values j
  own_values row j h e =
      ap values_of (sym h) ∙ ap source_values (sym ((datetime_eq_iff j row.timestamp_m1).0 e))

  pub insert-lookup :
      (row : GoldRowPayload) (t u : Tables) (j : Datetime)
      → OfSource row
      → run_of (insert_row row) t ≡ ok (tt, u)
      → stored_values u j ≡ (
          if datetime_eq j row.timestamp_m1
          then put_values j (stored_values t j)
          else stored_values t j)
  unfolding run_statement
  insert-lookup row t u j h e =
      let (u1, ran, e1) = bind-eq-ok (run_statement (insert_row row) t) _ e in
      let (fresh, e2) =
        refuse-eq-ok (has datetime_eq row.timestamp_m1 t.consumer) (external 0) _ ran in
      let after : stored_values u j
          ≡ at_time j (t.consumer ++ (row.timestamp_m1, row.values) ∷ []) =
        ap (λ (p : Unit × Tables). stored_values p.1 j) (sym (ok-injective e1))
        ∙ ap (λ (t : Tables). stored_values t j) (sym (ok-injective e2)) in
      after
      ∙ get-snoc datetime_eq datetime_eq_iff j row.timestamp_m1 row.values t.consumer fresh
      ∙ elim (Bool-cases (datetime_eq j row.timestamp_m1)) [
        | inl this ↦ rw this (own_values row j h this)
        | inr other ↦ rw other refl
      ]

  get-update_item :
      (j k : Datetime) (v : Values) (d : List (Datetime × Values))
      → at_time j (update_item k v d)
        ≡ (if datetime_eq j k && is_some (at_time j d) then some v else at_time j d)
  get-update_item j k v [] = ground arith
  get-update_item j k v ((i, w) ∷ d) = elim (Bool-cases (datetime_eq k i)) [
    | inl here ↦
        let same = (datetime_eq_iff k i).0 here in
        rw (here, ← same)
          (rw (get-update_item j k v d) (elim (Bool-cases (datetime_eq j k)) [
            | inl this ↦ rw this refl
            | inr other ↦ rw other refl
          ]))
    | inr other ↦ elim (Bool-cases (datetime_eq j i)) [
      | inl found ↦
          let same = (datetime_eq_iff j i).0 found in
          rw (other, found)
            (elim (Bool-cases (datetime_eq j k)) [
              | inl this ↦
                  let wrong : datetime_eq k i ≡ true =
                    (datetime_eq_iff k i).1 (sym ((datetime_eq_iff j k).0 this) ∙ same) in
                  cc
              | inr apart ↦ rw apart refl
            ])
      | inr elsewhere ↦ rw (other, elsewhere) (get-update_item j k v d)
    ]
  ]

  change_lem :
      (row : GoldRowPayload) (j : Datetime) (o : Option Values)
      → OfSource row
      → (if datetime_eq j row.timestamp_m1 && is_some o then some row.values else o)
        ≡ (if datetime_eq j row.timestamp_m1 then change_values j o else o)
  change_lem row j none h = ground arith
  change_lem row j (some v) h = elim (Bool-cases (datetime_eq j row.timestamp_m1)) [
    | inl this ↦ rw this (own_values row j h this)
    | inr other ↦ rw other refl
  ]

  pub update-lookup :
      (row : GoldRowPayload) (t u : Tables) (j : Datetime)
      → OfSource row
      → run_of (update_row row) t ≡ ok (tt, u)
      → stored_values u j ≡ (
          if datetime_eq j row.timestamp_m1
          then change_values j (stored_values t j)
          else stored_values t j)
  unfolding run_statement
  update-lookup row t u j h e =
      ap (λ (p : Unit × Tables). stored_values p.1 j) (sym (ok-injective e))
      ∙ get-update_item j row.timestamp_m1 row.values t.consumer
      ∙ change_lem row j (stored_values t j) h

  pub change_twice :
      (j : Datetime) (o : Option Values) → change_values j (change_values j o) ≡ change_values j o
  change_twice j none = refl
  change_twice j (some v) = go (source_values j) refl
    where
      go :
          (o : Option Values)
          → source_values j ≡ o
          → change_values j (source_values j) ≡ source_values j
      go none e = rw e refl
      go (some w) e = rw e e

abbrev pub forget : {V : Type 0} → Datetime → Option V → Option V
forget j o = none

pub delete-lookup :
    (time : Datetime) (t u : Tables) (j : Datetime)
    → run_of (delete_row time) t ≡ ok (tt, u)
    → stored_values u j
      ≡ (if datetime_eq j time then forget j (stored_values t j) else stored_values t j)
unfolding run_statement
delete-lookup time t u j e =
    ap (λ (p : Unit × Tables). stored_values p.1 j) (sym (ok-injective e))
    ∙ get-pop_item datetime_eq datetime_eq_iff j time t.consumer

-- The loops over the digests of the replica.
module _ (dataset_id : Str) where
  same_dataset : (j k : Datetime) → key_eq (dataset_id, j) (dataset_id, k) ≡ datetime_eq j k
  same_dataset j k = rw (str_eq_refl dataset_id) refl

  pub delete-digest :
      (time : Datetime) (t u : Tables) (j : Datetime)
      → run_of (delete_digest dataset_id time) t ≡ ok (tt, u)
      → stored_digest dataset_id u j ≡ (
          if datetime_eq j time
          then forget j (stored_digest dataset_id t j)
          else stored_digest dataset_id t j)
  unfolding run_statement
  delete-digest time t u j e =
      ap (λ (p : Unit × Tables). stored_digest dataset_id p.1 j) (sym (ok-injective e))
      ∙ get-pop_item key_eq key_eq_iff (dataset_id, j) (dataset_id, time) t.hashes
      ∙ rw (same_dataset j time)

  module _ (digests : List (Datetime × Str)) where
    abbrev pub put_digest : Datetime → Option Str → Option Str
    put_digest j o = at_time j digests

    abbrev pub record_run : GoldRowPayload → Run (Unit {0})
    record_run row t =
        bind (bind (or_key_error (at_time row.timestamp_m1 digests)) (λ sha256. ok (sha256, t)))
          (λ (sha256, u). run_of (upsert_digest dataset_id row.timestamp_m1 sha256) u)

    found_digest : (o : Option Str) {sha256 : Str} → or_key_error o ≡ ok sha256 → o ≡ some sha256
    found_digest none h = cc
    found_digest (some s) h = ap some (ok-injective h)

    pub record-lookup :
        (row : GoldRowPayload) (t u : Tables) (j : Datetime)
        → record_run row t ≡ ok (tt, u)
        → stored_digest dataset_id u j ≡ (
            if datetime_eq j row.timestamp_m1
            then put_digest j (stored_digest dataset_id t j)
            else stored_digest dataset_id t j)
    unfolding run_statement
    record-lookup row t u j e =
        let ((_, t1), found, e1) =
          bind-eq-ok (bind (or_key_error (at_time row.timestamp_m1 digests)) (λ s. ok (s, t))) _
            e in
        let (sha256, there, e2) =
          bind-eq-ok (or_key_error (at_time row.timestamp_m1 digests)) _ found in
        let pair : (sha256, t) ≡ (_, t1) = ok-injective e2 in
        let e3 = rw (← pair) at e1 in
        ap (λ (p : Unit × Tables). stored_digest dataset_id p.1 j) (sym (ok-injective e3))
        ∙ get-set_item key_eq key_eq_iff (dataset_id, j) (dataset_id, row.timestamp_m1) sha256
            t.hashes
        ∙ rw (same_dataset j row.timestamp_m1) (elim (Bool-cases (datetime_eq j row.timestamp_m1)) [
          | inl this ↦ rw this (
              sym (found_digest (at_time row.timestamp_m1 digests) there)
              ∙ ap (λ k. at_time k digests) (sym ((datetime_eq_iff j row.timestamp_m1).0 this)))
          | inr other ↦ rw other refl
        ])
