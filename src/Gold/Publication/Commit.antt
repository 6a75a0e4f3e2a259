-- ===== src/Gold/Publication/Commit.antt =====
-- What a successful replacement by promoted rows means to a consumer: the new build is the only
-- current row, selectable, compatible, and carries what the bundle port returned.
use mathlib.Core.List.{Memᴰ, head?}
use mathlib.Core.List.Memᴰ
use market_regime_loader.Prelude.{
  ℕ, ◌≡◌, refl, ap, sym, ◌∙◌, ◌⊎◌, inl, inr, true, false, some, List, [], ◌∷◌, ◌++◌, map, arith,
  Str, Datetime, keep, find, any, str_eq→eq,
}
use market_regime_loader.Prelude.Effects.{ok}
use market_regime_loader.Prelude.Membership.{mem-any, mem-All, mem-find, mem-keep}
use market_regime_loader.Catalog.Rows.{
  GoldCatalogRecord, GoldCompatibility, is_current, selectable_complete, matches,
}
use market_regime_loader.Catalog.Repository.{validate_record}
use market_regime_loader.Catalog.Resolution.{strict_current}
use market_regime_loader.Catalog.Validity.{IsSort, current-selectable, head-keep}
use market_regime_loader.Gold.Ports.{Env, World, GoldPublicationBundle, utc}
use market_regime_loader.Gold.Effects.{Stored}
use market_regime_loader.Gold.Publication.{
  same_id, building_row, complete_row, promote_row, gold_compatibility,
}
use market_regime_loader.Gold.Publication.Promotion.{IsPromotion, current-promote, find-promote}
use market_regime_loader.Gold.Publication.Currents.{is_open, currents, currents-Stored}

-- Strict resolution reads the current rows only.
pub strict_current-currents :
    (a b : List GoldCatalogRecord) (c : GoldCompatibility)
    → keep is_current a ≡ keep is_current b
    → strict_current a c ≡ strict_current b c
unfolding strict_current
strict_current-currents a b c e = rw e

pub strict_current-singleton :
    (records : List GoldCatalogRecord) {r : GoldCatalogRecord} (c : GoldCompatibility)
    → keep is_current records ≡ r ∷ []
    → selectable_complete r ≡ true
    → matches c r ≡ true
    → strict_current records c ≡ ok r
unfolding strict_current
strict_current-singleton records c e s m = rw (e, s, m)

-- The row of a committed build: what `create_and_validate` returned, marked current.
pub record IsBuilt {Frame : Type 0} (env : Env Frame) (frame : Frame) (build_id : Str)
    (started_at : Datetime) (r : GoldCatalogRecord) : Type 0 where
  pub at : ℕ
  pub candidate : GoldPublicationBundle
  pub completed : Datetime
  pub validated : env.create_and_validate at frame build_id started_at ≡ ok candidate
  pub utc_completed : utc candidate.completed_at_utc ≡ ok completed
  pub row_of_candidate : r ≡ complete_row candidate completed (building_row build_id started_at)
  pub selectable : selectable_complete r ≡ true
  pub compatible : matches gold_compatibility r ≡ true

one_member : {a b : GoldCatalogRecord} → Memᴰ a (b ∷ []) → a ≡ b
one_member (Memᴰ.head e) = e
one_member (Memᴰ.tail m) = elim m [ ]

-- The attempt that is promoted is the one that was registered: no older row is building.
registered_attempt :
    (build_id : Str) (started_at : Datetime) (records : List GoldCatalogRecord)
    (candidate : GoldPublicationBundle) {promoted : List GoldCatalogRecord}
    → any is_open records ≡ false
    → (p : IsPromotion (records ++ building_row build_id started_at ∷ []) candidate promoted)
    → (p.attempt ≡ building_row build_id started_at) × (candidate.build_id ≡ build_id)
registered_attempt build_id started_at records candidate closed p =
    either (Memᴰ.append_cases records member.0)
  where
    member :
        Memᴰ p.attempt (records ++ building_row build_id started_at ∷ [])
        × (same_id candidate.build_id p.attempt ≡ true)
    member =
        mem-keep (same_id candidate.build_id) (records ++ building_row build_id started_at ∷ [])
          (rw p.only (Memᴰ.head refl))

    either :
        (Memᴰ p.attempt records) ⊎ (Memᴰ p.attempt (building_row build_id started_at ∷ []))
        → (p.attempt ≡ building_row build_id started_at) × (candidate.build_id ≡ build_id)
    either (inl old) = absurd (cc (mem-any is_open records closed old, p.building))
    either (inr new) =
        let e = one_member new in
        (
          e,
          sym (str_eq→eq p.attempt.build_id candidate.build_id member.1)
              ∙ ap (λ (r : GoldCatalogRecord). r.build_id) e,
        )

module _ {Frame : Type 0} (env : Env Frame) (sorts : IsSort env.sort_rows) (frame : Frame)
    (build_id : Str) (started_at : Datetime) where
  -- The file holds the new build as its only current row.
  abbrev pub Committed : World → Type 0
  Committed w =
      (r : GoldCatalogRecord) × (currents w.file ≡ r ∷ []) × IsBuilt env frame build_id started_at r

  -- `promoted` is what was stored, and the new row is found in it.
  abbrev pub Promoted : List GoldCatalogRecord → World → Type 0
  Promoted promoted w =
      (r : GoldCatalogRecord) × (currents w.file ≡ r ∷ [])
      × IsBuilt env frame build_id started_at r
      × (find (same_id build_id) promoted ≡ some r)

  pub promotion :
      (records promoted : List GoldCatalogRecord) (candidate : GoldPublicationBundle) (at : ℕ)
      (w : World)
      → any is_open records ≡ false
      → env.create_and_validate at frame build_id started_at ≡ ok candidate
      → IsPromotion (records ++ building_row build_id started_at ∷ []) candidate promoted
      → Stored env promoted w
      → Promoted promoted w
  promotion records promoted candidate at w closed validated p s =
      let (e, ids) = registered_attempt build_id started_at records candidate closed p in
      let complete = complete_row candidate p.completed (building_row build_id started_at) in
      let registered = records ++ building_row build_id started_at ∷ [] in
      let only : keep (same_id build_id) registered ≡ building_row build_id started_at ∷ [] =
        ap (λ (s : Str). keep (same_id s) registered) (sym ids)
        ∙ p.only
        ∙ ap (λ (r : GoldCatalogRecord). r ∷ []) e in
      let shape : promoted ≡ map (promote_row build_id complete) registered =
        p.result
        ∙ ap
            (λ (a : GoldCatalogRecord).
              map (promote_row candidate.build_id (complete_row candidate p.completed a))
                registered)
            e
        ∙ ap (λ (s : Str). map (promote_row s complete) registered) ids in
      let found : find (same_id build_id) promoted ≡ some complete = rw shape (
        find-promote build_id complete registered
          (head-keep (same_id build_id) registered ∙ ap head? only) refl) in
      let valid =
        mem-All (λ r. validate_record r ≡ ok tt) promoted s.0.rows
          (mem-find (same_id build_id) promoted found).0 in
      (
        complete,
        currents-Stored env sorts w s
            ∙ rw shape (current-promote build_id complete registered refl ∙ rw only refl),
        record {
          at = at;
          candidate = candidate;
          completed = p.completed;
          validated = validated;
          utc_completed = p.utc_completed;
          row_of_candidate = refl;
          selectable = current-selectable complete valid refl;
          compatible = unfold matches in ground (arith, p.schema, p.feature);
        },
        found,
      )
