-- ===== src/Postgres/Delta/Partition.antt =====
-- The groups into which application/postgres_delta.py: plan_gold_delta sorts the times of the source.
use market_regime_loader.Prelude.{
  ◌≡◌, refl, sym, ap, ◌∙◌, ◌⊎◌, inl, inr, arith, Str, str_eq, Datetime, datetime_eq,
  datetime_eq_iff, Bool, true, false, not, ◌&&◌, ◌||◌, Option, none, some, List, [], ◌∷◌, map, All,
  Bool-cases, if◌then◌else◌,
}
use market_regime_loader.Prelude.Effects.{ok}
use market_regime_loader.Prelude.Items.{member, set_item, set_items}
use market_regime_loader.Prelude.Items.Laws.{get-set_item}
use market_regime_loader.Postgres.Contracts.{GoldRowPayload, GoldRowDigest, row_timestamps}
use market_regime_loader.Postgres.Delta.{
  Change, inserted, updated, unchanged, change_of, Groups, grouped, classify, at_time, has_time,
  digest_entry, row_entry,
}

abbrev pub mem_time : Datetime → List Datetime → Bool
mem_time t times = member datetime_eq t times

abbrev pub same_change : Change → Change → Bool
same_change Change.inserted Change.inserted = true
same_change Change.updated Change.updated = true
same_change Change.unchanged Change.unchanged = true
same_change _ _ = false

-- What happens to a time of the source, by what both sides have of it.
abbrev pub change_between : Option Str → Option Str → Change
change_between none _ = inserted
change_between (some target_hash) none = inserted
change_between (some target_hash) (some source_hash) =
    if not (str_eq target_hash source_hash) then updated else unchanged

abbrev pub times_of : Change → Groups → List Datetime
times_of Change.inserted g = row_timestamps g.inserts
times_of Change.updated g = row_timestamps g.updates
times_of Change.unchanged g = g.unchanged

-- The digest and the row of a time come from one row of the source, of that time.
abbrev pub Agree : List (Datetime × Str) → List (Datetime × GoldRowPayload) → Datetime → Type 0
Agree sources rows t =
    (at_time t sources ≡ none) × (at_time t rows ≡ none)
    ⊎ (h : Str) × (r : GoldRowPayload) × (at_time t sources ≡ some h)
      × (at_time t rows ≡ some r)
      × (r.timestamp_m1 ≡ t)

change_of_lem :
    (target : Option Str) (h : Str) → change_of target (ok h) ≡ ok (change_between target (some h))
change_of_lem none h = refl
change_of_lem (some k) h = refl

-- What holds of each row that is inserted or updated.
abbrev pub Rows : (GoldRowPayload → Type 0) → Groups → Type 0
Rows P g = All P g.inserts × All P g.updates

grouped_lem :
    (k : Datetime) (r : GoldRowPayload) (g : Groups) (c : Change)
    → r.timestamp_m1 ≡ k
    → (g' : Groups) × (grouped k (ok r) g c ≡ ok g')
      × ((t : Datetime) (d : Change)
          → mem_time t (times_of d g')
            ≡ (datetime_eq t k && same_change d c) || mem_time t (times_of d g))
      × ((P : GoldRowPayload → Type 0) → P r → Rows P g → Rows P g')
grouped_lem k r g Change.inserted e = (_, refl, λ t d. go t d, λ P p h. ((p, h.0), h.1))
  where
    go :
        (t : Datetime) (d : Change)
        → mem_time t (times_of d (record g { inserts = r ∷ g.inserts }))
          ≡ (datetime_eq t k && same_change d inserted) || mem_time t (times_of d g)
    go t Change.inserted = rw e (ground arith)
    go t Change.updated = ground arith
    go t Change.unchanged = ground arith
grouped_lem k r g Change.updated e = (_, refl, λ t d. go t d, λ P p h. (h.0, (p, h.1)))
  where
    go :
        (t : Datetime) (d : Change)
        → mem_time t (times_of d (record g { updates = r ∷ g.updates }))
          ≡ (datetime_eq t k && same_change d updated) || mem_time t (times_of d g)
    go t Change.inserted = ground arith
    go t Change.updated = rw e (ground arith)
    go t Change.unchanged = ground arith
grouped_lem k r g Change.unchanged e = (_, refl, λ t d. go t d, λ P p h. h)
  where
    go :
        (t : Datetime) (d : Change)
        → mem_time t (times_of d (record g { unchanged = k ∷ g.unchanged }))
          ≡ (datetime_eq t k && same_change d unchanged) || mem_time t (times_of d g)
    go t Change.inserted = ground arith
    go t Change.updated = ground arith
    go t Change.unchanged = ground arith

module _ (target sources : List (Datetime × Str)) (rows : List (Datetime × GoldRowPayload)) where
  abbrev pub change_at : Datetime → Change
  change_at t = change_between (at_time t target) (at_time t sources)

  -- The times that are grouped, each in the group of its change.
  abbrev pub Grouped : List Datetime → Groups → Type 0
  Grouped times g =
      ((t : Datetime) (c : Change)
        → mem_time t (times_of c g) ≡ mem_time t times && same_change c (change_at t))
      × Rows (λ r. at_time r.timestamp_m1 rows ≡ some r) g

  step :
      (k t : Datetime) (c : Change) (times : List Datetime)
      → (datetime_eq t k && same_change c (change_at k))
          || (mem_time t times && same_change c (change_at t))
        ≡ (datetime_eq t k || mem_time t times) && same_change c (change_at t)
  step k t c times = elim (Bool-cases (datetime_eq t k)) [
    | inl here ↦ rw (here, ← (datetime_eq_iff t k).0 here) (ground arith)
    | inr other ↦ rw other refl
  ]

  classify-cons :
      (k : Datetime) (times : List Datetime) (g g' : Groups) (hash : Str) (r : GoldRowPayload)
      (c : Change)
      → classify target sources rows times ≡ ok g
      → at_time k sources ≡ some hash
      → at_time k rows ≡ some r
      → change_of (at_time k target) (ok hash) ≡ ok c
      → grouped k (ok r) g c ≡ ok g'
      → classify target sources rows (k ∷ times) ≡ ok g'
  unfolding classify
  classify-cons k times g g' hash r c rest source row decided e = rw (rest, source, row, decided) e

  -- The loop never misses a key.
  pub classify-Grouped :
      (agree : (t : Datetime) → Agree sources rows t) (times : List Datetime)
      → All (λ t. has_time t sources ≡ true) times
      → (g : Groups) × (classify target sources rows times ≡ ok g) × Grouped times g
  unfolding classify
  classify-Grouped agree [] h = (_, refl, (λ t c. nothing t c, (tt, tt)))
    where
      nothing :
          (t : Datetime) (c : Change)
          → mem_time t (times_of c (record { inserts = []; updates = []; unchanged = [] })) ≡ false
      nothing t Change.inserted = refl
      nothing t Change.updated = refl
      nothing t Change.unchanged = refl
  classify-Grouped agree (k ∷ times) h =
      let (g, e, (grouped_rest, from)) = classify-Grouped agree times h.1 in
      elim (agree k) [
        | inl missing ↦ let found = h.0 in let none_there = missing.0 in absurd (ground arith)
        | inr (hash, r, source, row, same) ↦
            let (g', e', members, keeps) = grouped_lem k r g (change_at k) same in
            let decided : change_of (at_time k target) (ok hash) ≡ ok (change_at k) =
              change_of_lem (at_time k target) hash
              ∙ ap (λ o. ok (change_between (at_time k target) o)) (sym source) in
            (
              g',
              classify-cons k times g g' hash r (change_at k) e source row decided e',
              (
                λ t c. members t c ∙ rw (grouped_rest t c) (step k t c times),
                keeps (λ r. at_time r.timestamp_m1 rows ≡ some r)
                    (ap (λ t. at_time t rows) same ∙ row) from,
              ),
            )
      ]

-- Reading both dictionaries of the source back.
abbrev pub Paired : GoldRowPayload × GoldRowDigest → Type 0
Paired (r, d) = d.timestamp_m1 ≡ r.timestamp_m1

module _ (sources : List (Datetime × Str)) (rows : List (Datetime × GoldRowPayload))
    (agree : (t : Datetime) → Agree sources rows t) where
  Agree-set_item :
      (r : GoldRowPayload) (d : GoldRowDigest)
      → d.timestamp_m1 ≡ r.timestamp_m1
      → (t : Datetime)
      → Agree
          (set_item datetime_eq d.timestamp_m1 d.row_sha256 sources)
          (set_item datetime_eq r.timestamp_m1 r rows)
          t
  Agree-set_item r d e t =
      rw
        (
          e,
          get-set_item datetime_eq datetime_eq_iff t r.timestamp_m1 d.row_sha256 sources,
          get-set_item datetime_eq datetime_eq_iff t r.timestamp_m1 r rows,
        )
        (elim (Bool-cases (datetime_eq t r.timestamp_m1)) [
          | inl here ↦
              rw here (inr (d.row_sha256, r, refl, refl, sym ((datetime_eq_iff t _).0 here)))
          | inr other ↦ rw other (agree t)
        ])

pub Agree-set_items :
    (pairs : List (GoldRowPayload × GoldRowDigest)) (sources : List (Datetime × Str))
    (rows : List (Datetime × GoldRowPayload))
    → ((t : Datetime) → Agree sources rows t)
    → All Paired pairs
    → (t : Datetime)
    → Agree
        (set_items datetime_eq sources (map digest_entry (map (λ (_, d). d) pairs)))
        (set_items datetime_eq rows (map row_entry (map (λ (r, _). r) pairs)))
        t
Agree-set_items [] sources rows agree h t = agree t
Agree-set_items ((r, d) ∷ pairs) sources rows agree h t =
    Agree-set_items pairs _ _ (Agree-set_item sources rows agree r d h.0) h.1 t
