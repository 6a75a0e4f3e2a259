-- ===== src/Gold/Retention/Marking.antt =====
-- The rows that `GoldRetentionService.run` of application/gold_retention.py marks, and those that it sweeps.
use mathlib.Core.List.{Permᴰ}
use market_regime_loader.Prelude.{
  ◌≡◌, ap, sym, ◌∙◌, inl, inr, false, not, is_some, mixed, Option, none, some, List, [], ◌∷◌, Str,
  mem_str, Datetime, keep, Bool-cases,
}
use market_regime_loader.Prelude.Effects.{
  ok, ok-injective, value_error, type_error, refuse, traverse, bind-eq-ok, refuse-eq-ok,
}
use market_regime_loader.Prelude.Sorting.{Keyed, sort_keyed, sort_by, key_lt, unkeyed, key_times}
use market_regime_loader.Prelude.Sorting.Laws.{sort_by-perm}
use market_regime_loader.Catalog.Rows.{
  GoldCatalogRecord, is_complete, artifact_paths_complete, is_current,
}
use market_regime_loader.Gold.Retention.{tombstone, mark, mark_listed, marked_key, keyed_by}
use market_regime_loader.Gold.Retention.Selection.{unkeyed-perm}

-- Marking leaves the current rows alone.
mark-not_current :
    (marked_at : Datetime) (r s : GoldCatalogRecord)
    → mark marked_at r ≡ ok s
    → (r.current ≡ false) × (s.current ≡ false)
unfolding mark artifact_paths_complete
mark-not_current marked_at r s h =
    let (complete, h1) = refuse-eq-ok (not (is_complete r.status)) value_error _ h in
    let (spare, h2) = refuse-eq-ok r.current value_error _ h1 in
    let (fresh, h3) = refuse-eq-ok (is_some r.pruned_at_utc) value_error _ h2 in
    let (whole, h4) = refuse-eq-ok (not (artifact_paths_complete r)) value_error _ h3 in
    (
      spare,
      sym (ap (λ (t : GoldCatalogRecord). t.current) (ok-injective {a = tombstone marked_at r} h4)),
    )

current-mark_listed :
    (mark_ids : List Str) (marked_at : Datetime) (r s : GoldCatalogRecord)
    (rs ss : List GoldCatalogRecord)
    → mark_listed mark_ids marked_at r ≡ ok s
    → keep is_current ss ≡ keep is_current rs
    → keep is_current (s ∷ ss) ≡ keep is_current (r ∷ rs)
current-mark_listed mark_ids marked_at r s rs ss h k =
    elim (Bool-cases (mem_str r.build_id mark_ids)) [
      | inl listed ↦
          let (before, after) = mark-not_current marked_at r s (rw listed at h) in
          rw (before, after) k
      | inr unlisted ↦ let same = rw unlisted at h in rw (← ok-injective same, k)
    ]

pub current-marked :
    (mark_ids : List Str) (marked_at : Datetime) (records updated : List GoldCatalogRecord)
    → traverse (mark_listed mark_ids marked_at) records ≡ ok updated
    → keep is_current updated ≡ keep is_current records
current-marked mark_ids marked_at [] updated h = rw (← ok-injective h)
current-marked mark_ids marked_at (r ∷ records) updated h =
    let (s, one, rest) = bind-eq-ok (mark_listed mark_ids marked_at r) _ h in
    let (ss, others, same) =
      bind-eq-ok (traverse (mark_listed mark_ids marked_at) records) _ rest in
    rw (← ok-injective same) (
      current-mark_listed mark_ids marked_at r s records ss one
        (current-marked mark_ids marked_at records ss others))

keyed_by-row :
    (t : Option Datetime) (r : GoldCatalogRecord) (k : Keyed GoldCatalogRecord)
    → keyed_by t r ≡ ok k
    → k.2 ≡ r
keyed_by-row none r k e = cc
keyed_by-row (some t) r k e =
    sym (ap (λ (k : Keyed GoldCatalogRecord). k.2) (ok-injective {a = (t, r.build_id, r)} e))

-- The sweep takes the marked rows, in another order.
unkeyed-marked :
    (rows : List GoldCatalogRecord) (keyed : List (Keyed GoldCatalogRecord))
    → traverse marked_key rows ≡ ok keyed
    → unkeyed keyed ≡ rows
unfolding marked_key
unkeyed-marked [] keyed h = rw (← ok-injective h)
unkeyed-marked (r ∷ rows) keyed h =
    let (k, one, rest) = bind-eq-ok (marked_key r) _ h in
    let (ks, others, same) = bind-eq-ok (traverse marked_key rows) _ rest in
    rw (← ok-injective same) (
      ap (λ (q : GoldCatalogRecord). q ∷ unkeyed ks) (keyed_by-row r.pruned_at_utc r k one)
      ∙ ap (λ tail. r ∷ tail) (unkeyed-marked rows ks others))

pub sorted_marked :
    (keyed : List (Keyed GoldCatalogRecord)) (sorted rows : List GoldCatalogRecord)
    → traverse marked_key rows ≡ ok keyed
    → sort_keyed keyed ≡ ok sorted
    → Permᴰ sorted rows
unfolding sort_keyed
sorted_marked keyed sorted rows e k =
    let (u, _, same) =
      bind-eq-ok (refuse (mixed (key_times keyed)) type_error)
        (λ _. ok (unkeyed (sort_by key_lt keyed))) k in
    rw (← ok-injective same, ← unkeyed-marked rows keyed e)
      (unkeyed-perm (sort_by-perm key_lt keyed))
