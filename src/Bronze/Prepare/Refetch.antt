-- ===== src/Bronze/Prepare/Refetch.antt =====
-- ingestion/bronze_uow.py: what a merge makes of rows that are fetched again unchanged.
use market_regime_loader.Prelude.{
  ◌≡◌, refl, ap, ◌∙◌, Str, str_eq, str_eq→eq, mem_str, Bool, true, false, not, ◌||◌, Bool-cases,
  inl, inr, Option, none, some, List, [], ◌∷◌, ◌++◌, keep, any, map, All,
}
use mathlib.Core.Path.{subst}
use market_regime_loader.Prelude.Effects.{ok, external, bind-eq-ok, refuse-eq-ok, ok-injective}
use market_regime_loader.Parquet.{
  Row, Frame, FrameDiff, columns, is_nil, is_empty, old_row, same_on, same_cell, is_insert,
  is_revision, payload_columns, has_changes, classified, diff_frames, ensure_unique,
  ensure_compatible,
}
use market_regime_loader.Bronze.Prepare.{
  fetched_at, bronze_key, is_set, meaningful, with_fetched_at, stable_row, stable_incoming,
}

keep_none : {A : Type 0} (p : A → Bool) (xs : List A) → All (λ x. p x ≡ false) xs → keep p xs ≡ []
keep_none p [] h = refl
keep_none p (x ∷ xs) (e, h) = rw e (keep_none p xs h)

is_nil-map : {A B : Type 0} (f : A → B) (xs : List A) → is_nil (map f xs) ≡ is_nil xs
is_nil-map f [] = refl
is_nil-map f (x ∷ xs) = refl

module _ {V : Type 0} (eq : V → V → Bool) where
  -- The row of its key has a time of fetching and the same meaningful values.
  abbrev pub Refetched : Frame V → List Str → Row V → Type 0
  Refetched existing names row =
      (old : Row V) × (old_row eq bronze_key existing.rows row ≡ some old)
      × (is_set (old fetched_at) ≡ true)
      × (same_on eq (meaningful names) row old ≡ true)

  module _ (eq_refl : (a : V) → eq a a ≡ true) where
    same_cell_refl : (a : Option V) → same_cell eq a a ≡ true
    same_cell_refl none = refl
    same_cell_refl (some a) = eq_refl a

    payload-without :
        (key names : List Str) (row old : Row V)
        → same_on eq (payload_columns eq key names) (with_fetched_at eq (old fetched_at) row) old
          ≡ same_on eq
              (keep (λ column. not (mem_str column key || str_eq column fetched_at)) names)
              row
              old
    payload-without key [] row old = refl
    payload-without key (c ∷ names) row old = elim (Bool-cases (mem_str c key)) [
      | inl there ↦ rw there (payload-without key names row old)
      | inr apart ↦ (elim (Bool-cases (str_eq c fetched_at)) [
        | inl e ↦
            (let taken : same_cell eq (old fetched_at) (old c) ≡ true =
                rw (str_eq→eq c fetched_at e) (same_cell_refl (old fetched_at)) in
              rw (apart, e, taken) (payload-without key names row old))
        | inr e ↦ rw (apart, e, payload-without key names row old) refl
      ])
    ]

    -- The key of a row does not depend on its time of fetching.
    old_row-with_fetched_at :
        (existing : Frame V) (value : Option V) (row : Row V)
        → old_row eq bronze_key existing.rows (with_fetched_at eq value row)
          ≡ old_row eq bronze_key existing.rows row
    unfolding str_eq
    old_row-with_fetched_at existing value row = refl

    abbrev Calm : Frame V → List Str → Row V → Type 0
    Calm existing names row =
        (is_insert eq (old_row eq bronze_key existing.rows row) ≡ false)
        × (is_revision eq (payload_columns eq bronze_key names) row
              (old_row eq bronze_key existing.rows row)
            ≡ false)

    stable_row-Calm :
        (existing : Frame V) (names : List Str) (row : Row V)
        → Refetched existing names row
        → Calm existing names (stable_row eq existing names row)
    unfolding stable_row meaningful
    stable_row-Calm existing names row (old, e, set, same) =
        rw (e, set, same, old_row-with_fetched_at existing (old fetched_at) row, e)
          (refl, ap not (payload-without bronze_key names row old ∙ same))

    rows-Calm :
        (existing : Frame V) (names : List Str) (rs : List (Row V))
        → All (Refetched existing names) rs
        → All (Calm existing names) (map (stable_row eq existing names) rs)
    rows-Calm existing names [] h = tt
    rows-Calm existing names (row ∷ rs) (h, hs) =
        (stable_row-Calm existing names row h, rows-Calm existing names rs hs)

    calm_inserts :
        (existing : Frame V) (names : List Str) (rs : List (Row V))
        → All (Calm existing names) rs
        → All (λ row. is_insert eq (old_row eq bronze_key existing.rows row) ≡ false) rs
    calm_inserts existing names [] h = tt
    calm_inserts existing names (row ∷ rs) (h, hs) = (h.0, calm_inserts existing names rs hs)

    calm_revisions :
        (existing : Frame V) (names : List Str) (rs : List (Row V))
        → All (Calm existing names) rs
        → All
            (λ row.
              is_revision eq
                (payload_columns eq bronze_key names)
                row
                (old_row eq bronze_key existing.rows row)
              ≡ false)
            rs
    calm_revisions existing names [] h = tt
    calm_revisions existing names (row ∷ rs) (h, hs) = (h.1, calm_revisions existing names rs hs)

    calm-has_changes :
        (existing incoming : Frame V)
        → All (Calm existing (columns incoming)) incoming.rows
        → has_changes (classified eq existing incoming bronze_key) ≡ false
    unfolding has_changes classified
    calm-has_changes existing incoming h =
        rw
          (
            keep_none (λ row. is_insert eq (old_row eq bronze_key existing.rows row)) incoming.rows
                (calm_inserts existing (columns incoming) incoming.rows h),
            keep_none
                (λ row.
                  is_revision eq (payload_columns eq bronze_key (columns incoming)) row
                    (old_row eq bronze_key existing.rows row))
                incoming.rows (calm_revisions existing (columns incoming) incoming.rows h),
          )
          refl

    calm-diff_frames :
        (existing incoming : Frame V) (diff : FrameDiff V)
        → is_empty existing ≡ false
        → is_empty incoming ≡ false
        → All (Calm existing (columns incoming)) incoming.rows
        → diff_frames eq existing incoming bronze_key ≡ ok diff
        → has_changes diff ≡ false
    unfolding diff_frames
    calm-diff_frames existing incoming diff old new calm h =
        let (_, _, h1) = bind-eq-ok (ensure_unique eq incoming bronze_key) _ h in
        let (_, _, h2) = bind-eq-ok (ensure_unique eq existing bronze_key) _ h1 in
        let (_, _, h3) = bind-eq-ok (ensure_compatible existing incoming) _ (rw new at h2) in
        subst (λ d. has_changes d ≡ false) (ok-injective h3)
          (rw old (calm-has_changes existing incoming calm))

    -- Where two frames have rows, the incoming one has a time of fetching, and each of its rows has its
    -- key among the retained ones, with a time of fetching and with the same meaningful values, a
    -- normalisation that returns and a difference that returns have no changes, whatever the new times
    -- of fetching are; the equality of values is reflexive.
    pub stable_incoming-has_changes :
        (existing incoming normalized : Frame V) (diff : FrameDiff V)
        → is_empty existing ≡ false
        → is_empty incoming ≡ false
        → mem_str fetched_at (columns incoming) ≡ true
        → All (Refetched existing (columns incoming)) incoming.rows
        → stable_incoming eq existing incoming ≡ ok normalized
        → diff_frames eq existing normalized bronze_key ≡ ok diff
        → has_changes diff ≡ false
    unfolding stable_incoming
    stable_incoming-has_changes existing incoming normalized diff old new there rows h k =
        let (_, h1) =
          refuse-eq-ok
            (any (λ column. not (mem_str column (columns existing)))
              (bronze_key ++ meaningful (columns incoming) ++ fetched_at ∷ []))
            (external 0) _ (rw (old, new, there) at h) in
        let (_, h2) =
          refuse-eq-ok (any (λ column. not (mem_str column (columns incoming))) bronze_key)
            (external 0) _ h1 in
        calm-diff_frames existing normalized diff old
          (subst (λ f. is_empty f ≡ false) (ok-injective h2)
            (is_nil-map (stable_row eq existing (columns incoming)) incoming.rows ∙ new))
          (subst (λ f. All (Calm existing (columns f)) f.rows) (ok-injective h2)
            (rows-Calm existing (columns incoming) incoming.rows rows))
          k
