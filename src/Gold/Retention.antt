-- ===== src/Gold/Retention.antt =====
-- application/gold_retention.py: the policy that chooses the builds to prune, and the service that
-- marks them in the catalog before any file is deleted.
pub mod Selection
pub mod Marking
pub mod Service
use market_regime_loader.Prelude.{
  ℕ, ◌-◌, ℤ, pos, negsuc, int_eq, int_lt, below_one, to_nat, Str, non_empty, str_eq, mem_str,
  Datetime, Bool, true, false, not, ◌&&◌, ◌||◌, Option, none, some, List, [], ◌∷◌, ◌++◌, map, ltb,
  ◌==◌, if◌then◌else◌, is_none, is_some, length, take, keep, any,
}
use market_regime_loader.Prelude.Effects.{
  Result, ok, err, value_error, bind, refuse, ◌⨟◌, traverse, pure, lift, ◌>>=◌, ◌>>◌,
}
use market_regime_loader.Prelude.Sorting.{Keyed, sort_by, sort_keyed}
use market_regime_loader.Catalog.Rows.{
  GoldBuildStatus, GoldCatalogRecord, is_complete, is_current, artifact_paths_complete,
}
use market_regime_loader.Gold.Ports.{
  Env, Action, swept, call, log, utc_now, read_catalog, replace_catalog, refresh_views,
}

-- `GoldRetentionPolicy.__post_init__`; the number to retain is then a positive one.
unfoldable pub retention_policy : ℤ → Result ℕ
retention_policy retain = refuse (below_one retain) value_error ⨟ ok (to_nat retain)

abbrev pub VersionKey : Type 0
VersionKey = ℤ × ℤ

abbrev pub version_eq : VersionKey → VersionKey → Bool
version_eq (a, b) (c, d) = int_eq a c && int_eq b d

abbrev pub version_lt : VersionKey → VersionKey → Bool
version_lt (a, b) (c, d) = int_lt a c || (int_eq a c && int_lt b d)

abbrev pub version_key : GoldCatalogRecord → VersionKey
version_key r = (r.schema_version, r.feature_version)

-- The builds that the policy counts: complete, not pruned, with all their artifacts.
unfoldable pub is_retained : GoldCatalogRecord → Bool
unfolding artifact_paths_complete
is_retained r = is_complete r.status && (is_none r.pruned_at_utc && artifact_paths_complete r)

abbrev pub in_group : VersionKey → GoldCatalogRecord → Bool
in_group key r = is_retained r && version_eq (version_key r) key

abbrev pub mem_version : VersionKey → List VersionKey → Bool
mem_version key [] = false
mem_version key (k ∷ keys) = version_eq key k || mem_version key keys

abbrev pub version_set : List VersionKey → List VersionKey
version_set [] = []
version_set (k ∷ keys) =
    let rest = version_set keys in if mem_version k rest then rest else k ∷ rest

-- `sorted(groups)`
unfoldable pub group_keys : List GoldCatalogRecord → List VersionKey
unfolding is_retained sort_by
group_keys records = sort_by version_lt (version_set (map version_key (keep is_retained records)))

abbrev pub keyed_by : Option Datetime → GoldCatalogRecord → Result (Keyed GoldCatalogRecord)
keyed_by none r = err value_error
keyed_by (some t) r = ok (t, r.build_id, r)

-- `_completion_key`, with the row that it is the key of
unfoldable pub completion_key : GoldCatalogRecord → Result (Keyed GoldCatalogRecord)
completion_key r = keyed_by r.completed_at_utc r

abbrev pub is_spare : GoldCatalogRecord → Bool
is_spare r = not r.current

-- `candidates[:excess]`, from the candidates in the order of their completion
abbrev pub oldest : ℕ → List GoldCatalogRecord → Result (List GoldCatalogRecord)
oldest excess sorted = refuse (ltb (length sorted) excess) value_error ⨟ ok (take excess sorted)

-- The rows of one group that are to be marked.
unfoldable pub select_in_group : ℕ → List GoldCatalogRecord → Result (List GoldCatalogRecord)
unfolding completion_key sort_keyed
select_in_group retain group =
    let excess = length group - retain in
    let selected =
      bind (traverse completion_key (keep is_spare group))
        (λ keyed. bind (sort_keyed keyed) (oldest excess)) in
    if excess == 0 then ok [] else selected

abbrev pub select_groups : ℕ → List GoldCatalogRecord → List VersionKey → Result (List Str)
select_groups retain records [] = ok []
select_groups retain records (k ∷ keys) =
    let rest = select_groups retain records keys in
    bind (select_in_group retain (keep (in_group k) records))
      (λ selected. bind rest (λ more. ok (map (λ r. r.build_id) selected ++ more)))

-- `GoldRetentionPolicy.select_for_mark`
unfoldable pub select_for_mark : ℕ → List GoldCatalogRecord → Result (List Str)
unfolding is_retained group_keys select_in_group
select_for_mark retain records = select_groups retain records (group_keys records)

abbrev pub tombstone : Datetime → GoldCatalogRecord → GoldCatalogRecord
tombstone marked_at r = record r {
  current = false;
  data_path = none;
  build_manifest_path = none;
  plot_path = none;
  pruned_at_utc = some marked_at;
}

-- `_mark`
unfoldable pub mark : Datetime → GoldCatalogRecord → Result GoldCatalogRecord
unfolding artifact_paths_complete
mark marked_at r =
    refuse (not (is_complete r.status)) value_error
    ⨟ refuse r.current value_error
    ⨟ refuse (is_some r.pruned_at_utc) value_error
    ⨟ refuse (not (artifact_paths_complete r)) value_error
    ⨟ ok (tombstone marked_at r)

abbrev pub mark_listed : List Str → Datetime → GoldCatalogRecord → Result GoldCatalogRecord
mark_listed mark_ids marked_at r = if mem_str r.build_id mark_ids then mark marked_at r else ok r

-- The rows whose files may be deleted.
abbrev pub is_marked : GoldCatalogRecord → Bool
is_marked r =
    is_complete r.status
    && (not r.current
        && (is_some r.pruned_at_utc
            && (is_none r.data_path && (is_none r.build_manifest_path && is_none r.plot_path))))

-- `_marked_key`, with the row that it is the key of
unfoldable pub marked_key : GoldCatalogRecord → Result (Keyed GoldCatalogRecord)
marked_key r = keyed_by r.pruned_at_utc r

pub record GoldRetentionResult : Type 0 where
  pub marked_build_ids : List Str
  pub swept_build_ids : List Str

module _ {Frame : Type 0} (env : Env Frame) where
  abbrev pub mark_all : List Str → List GoldCatalogRecord → Action (List GoldCatalogRecord)
  mark_all [] records = pure records
  mark_all (id ∷ mark_ids) records = do
    marked_at ← utc_now env
    updated ← lift (traverse (mark_listed (id ∷ mark_ids) marked_at) records)
    replace_catalog env updated
    refresh_views env updated
    pure updated

  abbrev pub refresh_leftovers :
      List GoldCatalogRecord → List Str → List GoldCatalogRecord → Action Unit
  refresh_leftovers [] mark_ids records = pure tt
  refresh_leftovers (r ∷ marked) (id ∷ mark_ids) records = pure tt
  refresh_leftovers (r ∷ marked) [] records = refresh_views env records

  abbrev pub sweep_all : List GoldCatalogRecord → Action (List Str)
  sweep_all [] = pure []
  sweep_all (r ∷ marked) = do
    call (λ n. env.sweep n r.build_id)
    log (swept r.build_id)
    rest ← sweep_all marked
    pure (r.build_id ∷ rest)

  -- `GoldRetentionService.run`
  unfoldable pub run_retention : ℕ → Action GoldRetentionResult
  unfolding utc_now read_catalog replace_catalog refresh_views select_for_mark mark marked_key
      sort_keyed
  run_retention retain = do
    records ← read_catalog env
    mark_ids ← lift (select_for_mark retain records)
    updated ← mark_all mark_ids records
    let marked = keep is_marked updated
    refresh_leftovers marked mark_ids updated
    keyed ← lift (traverse marked_key marked)
    sorted ← lift (sort_keyed keyed)
    swept_ids ← sweep_all sorted
    pure (record { marked_build_ids = mark_ids; swept_build_ids = swept_ids })
