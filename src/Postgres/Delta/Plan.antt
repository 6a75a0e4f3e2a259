-- ===== src/Postgres/Delta/Plan.antt =====
-- application/postgres_delta.py: the plan of plan_gold_delta, group by group.
use market_regime_loader.Prelude.{
  ◌+◌, ◌≡◌, refl, sym, ap, ◌∙◌, inl, arith, Str, str_eq, Datetime, datetime_eq, datetime_lt,
  is_aware, aware, naive, datetime_eq_iff, Bool, true, false, not, ◌&&◌, Option, none, some, List,
  [], ◌∷◌, ◌++◌, map, All, is_some, length, ==_iff,
}
use market_regime_loader.Prelude.Effects.{ok, traverse}
use market_regime_loader.Prelude.Items.{set_items, keys_of, to_set}
use market_regime_loader.Prelude.Items.Laws.{
  member-append, member-sort_by, member-without, member-keys_of, All-of_member, member-All, Apart,
  length-to_set_append,
}
use market_regime_loader.Postgres.Contracts.{
  GoldRowPayload, GoldRowDigest, GoldDeltaPlan, row_timestamps, utc, gold_delta_plan,
}
use market_regime_loader.Postgres.Delta.{
  inserted, updated, unchanged, Groups, at_time, has_time, digest_entry, row_entry, deleted_times,
  source_times, plan_of,
}
use market_regime_loader.Postgres.Delta.Partition.{
  mem_time, same_change, change_between, Grouped, classify-Grouped, Paired, Agree-set_items,
}

-- The digests of a time differ, and are the same.
abbrev pub revised : Option Str → Option Str → Bool
revised (some old) (some new) = not (str_eq old new)
revised _ _ = false

abbrev pub same_digest : Option Str → Option Str → Bool
same_digest (some old) (some new) = str_eq old new
same_digest _ _ = false

-- What the groups of a plan are, for the digests of the target and of the source.
abbrev pub Reconciles : List (Datetime × Str) → List (Datetime × Str) → GoldDeltaPlan → Type 0
Reconciles target sources plan =
    (t : Datetime)
    → (mem_time t (row_timestamps plan.inserts) ≡ has_time t sources && not (has_time t target))
      × (mem_time t (row_timestamps plan.updates) ≡ revised (at_time t target) (at_time t sources))
      × (mem_time t plan.unchanged ≡ same_digest (at_time t target) (at_time t sources))
      × (mem_time t plan.deletes ≡ has_time t target && not (has_time t sources))

inserted_lem :
    (a b : Option Str)
    → is_some b && same_change inserted (change_between a b) ≡ is_some b && not (is_some a)
inserted_lem none b = ground arith
inserted_lem (some x) none = refl
inserted_lem (some x) (some y) = ground arith

updated_lem :
    (a b : Option Str) → is_some b && same_change updated (change_between a b) ≡ revised a b
updated_lem none none = refl
updated_lem none (some y) = refl
updated_lem (some x) none = refl
updated_lem (some x) (some y) = ground arith

unchanged_lem :
    (a b : Option Str) → is_some b && same_change unchanged (change_between a b) ≡ same_digest a b
unchanged_lem none none = refl
unchanged_lem none (some y) = refl
unchanged_lem (some x) none = refl
unchanged_lem (some x) (some y) = ground arith

revised_once : (a b : Option Str) → revised a b ≡ true → same_digest a b ≡ false
revised_once none b h = cc
revised_once (some x) none h = cc
revised_once (some x) (some y) h = ground arith

both_there : (a b : Option Str) → same_digest a b ≡ true → (is_some a ≡ true) × (is_some b ≡ true)
both_there none b h = cc
both_there (some x) none h = cc
both_there (some x) (some y) h = (refl, refl)

both_revised : (a b : Option Str) → revised a b ≡ true → (is_some a ≡ true) × (is_some b ≡ true)
both_revised none b h = cc
both_revised (some x) none h = cc
both_revised (some x) (some y) h = (refl, refl)

utc-aware : (t : Datetime) → is_aware t ≡ true → utc t ≡ ok t
utc-aware (aware t) h = refl
utc-aware (naive t) h = cc

traverse-utc :
    (times : List Datetime) → All (λ t. is_aware t ≡ true) times → traverse utc times ≡ ok times
traverse-utc [] h = refl
traverse-utc (t ∷ times) h = rw (utc-aware t h.0, traverse-utc times h.1) refl

-- The groups exclude each other, so that the plan's own validation accepts it.
gold_delta_plan-Reconciles :
    (target sources : List (Datetime × Str)) (plan : GoldDeltaPlan)
    → Reconciles target sources plan
    → All (λ t. is_aware t ≡ true) plan.deletes
    → All (λ t. is_aware t ≡ true) plan.unchanged
    → gold_delta_plan plan ≡ ok plan
unfolding gold_delta_plan
gold_delta_plan-Reconciles target sources plan h deleted kept =
    let i = row_timestamps plan.inserts in
    let u = row_timestamps plan.updates in
    let d = plan.deletes in
    let n = plan.unchanged in
    let first : Apart datetime_eq i (u ++ (d ++ n)) =
      All-of_member datetime_eq datetime_eq_iff i (λ t m.
        let (hi, hu, hn, hd) = h t in
        let two = both_there (at_time t target) (at_time t sources) in
        let three = both_revised (at_time t target) (at_time t sources) in
        let one = member-append datetime_eq t u (d ++ n) in
        let more = member-append datetime_eq t d n in ground arith) in
    let second : Apart datetime_eq u (d ++ n) = All-of_member datetime_eq datetime_eq_iff u (λ t m.
      let (hi, hu, hn, hd) = h t in
      let three = both_revised (at_time t target) (at_time t sources) in
      let four = revised_once (at_time t target) (at_time t sources) in
      let more = member-append datetime_eq t d n in ground arith) in
    let third : Apart datetime_eq d n = All-of_member datetime_eq datetime_eq_iff d (λ t m.
      let (hi, hu, hn, hd) = h t in
      let two = both_there (at_time t target) (at_time t sources) in ground arith) in
    let size = (==_iff _ _).1 (
      length-to_set_append datetime_eq datetime_eq_iff i (u ++ (d ++ n)) first
      ∙ ap (λ k. length (to_set datetime_eq i) + k)
          (length-to_set_append datetime_eq datetime_eq_iff u (d ++ n) second
            ∙ ap (λ k. length (to_set datetime_eq u) + k)
                (length-to_set_append datetime_eq datetime_eq_iff d n third))) in
    rw (traverse-utc d deleted, traverse-utc n kept, size) refl

abbrev pub source_hashes : List GoldRowDigest → List (Datetime × Str)
source_hashes digests = set_items datetime_eq [] (map digest_entry digests)

abbrev pub source_rows : List GoldRowPayload → List (Datetime × GoldRowPayload)
source_rows rows = set_items datetime_eq [] (map row_entry rows)

-- What is inserted and updated are the rows of the source.
abbrev pub FromSource : List (Datetime × GoldRowPayload) → GoldDeltaPlan → Type 0
FromSource by_time plan =
    All (λ (r : GoldRowPayload). at_time r.timestamp_m1 by_time ≡ some r) plan.inserts
    × All (λ (r : GoldRowPayload). at_time r.timestamp_m1 by_time ≡ some r) plan.updates

abbrev pub Planned :
    List GoldRowPayload → List GoldRowDigest → List (Datetime × Str) → GoldDeltaPlan → Type 0
Planned rows digests target plan =
    Reconciles target (source_hashes digests) plan
    × FromSource (source_rows rows) plan
    × (plan.source_digests ≡ digests)

aware_members :
    (entries : List (Datetime × Str)) (times : List Datetime)
    → ((t : Datetime) → mem_time t times ≡ true → has_time t entries ≡ true)
    → All (λ t. is_aware t ≡ true) (keys_of datetime_eq entries)
    → All (λ t. is_aware t ≡ true) times
aware_members entries times h all = All-of_member datetime_eq datetime_eq_iff times (λ t m.
    member-All datetime_eq datetime_eq_iff (λ t. is_aware t ≡ true) t (keys_of datetime_eq entries)
      all (member-keys_of datetime_eq datetime_eq_iff t entries ∙ h t m))

module _ (target sources : List (Datetime × Str)) (rows : List (Datetime × GoldRowPayload)) where
  abbrev raw_plan : List GoldRowDigest → Groups → GoldDeltaPlan
  raw_plan digests g = record {
    inserts = g.inserts;
    updates = g.updates;
    deletes = deleted_times target sources;
    unchanged = g.unchanged;
    source_digests = digests;
  }

  source_times_lem : (t : Datetime) → mem_time t (source_times sources) ≡ has_time t sources
  source_times_lem t =
      member-sort_by datetime_eq datetime_lt t (keys_of datetime_eq sources)
      ∙ member-keys_of datetime_eq datetime_eq_iff t sources

  deleted_times_lem :
      (t : Datetime)
      → mem_time t (deleted_times target sources) ≡ has_time t target && not (has_time t sources)
  deleted_times_lem t =
      member-sort_by datetime_eq datetime_lt t _
      ∙ member-without datetime_eq datetime_eq_iff t (keys_of datetime_eq target)
          (keys_of datetime_eq sources)
      ∙ rw (
        member-keys_of datetime_eq datetime_eq_iff t target,
        member-keys_of datetime_eq datetime_eq_iff t sources,
      )

  raw_plan-Reconciles :
      (digests : List GoldRowDigest) (g : Groups)
      → Grouped target sources rows (source_times sources) g
      → Reconciles target sources (raw_plan digests g)
  raw_plan-Reconciles digests g h t =
      let i = h.0 t inserted in
      let u = h.0 t updated in
      let n = h.0 t unchanged in
      let a = at_time t target in
      let b = at_time t sources in
      (
        i ∙ rw (source_times_lem t) (inserted_lem a b),
        u ∙ rw (source_times_lem t) (updated_lem a b),
        n ∙ rw (source_times_lem t) (unchanged_lem a b),
        deleted_times_lem t,
      )

pub plan_of-Planned :
    (pairs : List (GoldRowPayload × GoldRowDigest)) (target : List (Datetime × Str))
    → All Paired pairs
    → All (λ t. is_aware t ≡ true) (keys_of datetime_eq target)
    → All (λ t. is_aware t ≡ true) (keys_of datetime_eq (source_hashes (map (λ (_, d). d) pairs)))
    → (plan : GoldDeltaPlan) × (plan_of (map (λ (r, _). r) pairs) (map (λ (_, d). d) pairs) target
        ≡ ok plan)
      × Planned (map (λ (r, _). r) pairs) (map (λ (_, d). d) pairs) target plan
unfolding plan_of
plan_of-Planned pairs target paired targets sources =
    let rows = map (λ (r, _). r) pairs in
    let digests = map (λ (_, d). d) pairs in
    let hashes = source_hashes digests in
    let by_time = source_rows rows in
    let agree = Agree-set_items pairs [] [] (λ t. inl (refl, refl)) paired in
    let listed =
      All-of_member datetime_eq datetime_eq_iff (source_times hashes)
        (λ t m. sym (source_times_lem target hashes by_time t) ∙ m) in
    let (g, e, grouped) =
      classify-Grouped target hashes by_time agree (source_times hashes) listed in
    let plan = raw_plan target hashes by_time digests g in
    let reconciles = raw_plan-Reconciles target hashes by_time digests g grouped in
    let deletes =
      aware_members target plan.deletes (λ t m. let (i, u, n, d) = reconciles t in ground arith)
        targets in
    let kept =
      aware_members hashes plan.unchanged
        (λ t m.
          let (i, u, n, d) = reconciles t in
          let both = both_there (at_time t target) (at_time t hashes) in ground arith)
        sources in
    (
      plan,
      rw e (gold_delta_plan-Reconciles target hashes plan reconciles deletes kept),
      (reconciles, grouped.1, refl),
    )
