-- ===== src/Parquet/Upsert.antt =====
-- ingestion/parquet_repository.py: merge_frames as an upsert.
use market_regime_loader.Prelude.{
  ◌≡◌, refl, sym, ap, ◌⊎◌, inl, inr, Str, Bool, true, false, not, ◌&&◌, ◌||◌, Bool-cases, mem_str,
  List, [], ◌∷◌, ◌++◌, keep, any,
}
use mathlib.Core.Path.{subst}
use mathlib.Core.List.{Memᴰ, Permᴰ, append-nil}
use mathlib.Core.List.Permᴰ
use market_regime_loader.Prelude.Membership.{perm-mem}
use market_regime_loader.Prelude.Effects.{ok, bind-eq-ok, refuse-eq-ok, ok-injective, value_error}
use market_regime_loader.Parquet.{
  Row, Frame, FrameDiff, columns, is_nil, is_empty, no_rows, has_changes, joined_on, has_duplicates,
  classified, retained, ensure_unique, ensure_compatible, diff_frames, merged_of, merge_frames,
}
use market_regime_loader.Parquet.Single.{Single, Single-perm}
use market_regime_loader.Parquet.Agree.{
  Agree, Agree_refl, one_of_key, joined_on-Agree, has_duplicates-Single, joined_on-apart,
}
use market_regime_loader.Parquet.Merge.{
  updates_of, changed_rows, rows-present, rows-kept, rows-only, rows-replaced, rows-Single,
  rows-same,
}

module _ {V : Type 0} where
  empty-mem : {a : Row V} (xs : List (Row V)) → is_nil xs ≡ true → Memᴰ a xs → ⊥
  empty-mem [] h m = elim m [ ]
  empty-mem (x ∷ xs) h m = cc

  keep_all : (xs : List (Row V)) → keep (λ _. true) xs ≡ xs
  keep_all [] = refl
  keep_all (x ∷ xs) = ap (λ rest. x ∷ rest) (keep_all xs)

  no_changes : (d : FrameDiff V) → has_changes d ≡ false → updates_of d ≡ []
  unfolding has_changes
  no_changes d h = go d.inserts.rows d.revisions.rows h
    where
      go : (xs ys : List (Row V)) → (not (is_nil xs) || not (is_nil ys)) ≡ false → (xs ++ ys) ≡ []
      go [] [] h = refl
      go [] (y ∷ ys) h = cc
      go (x ∷ xs) ys h = cc

module _ {V : Type 0} (eq : V → V → Bool) where
  -- What the rows of a merge have to be.
  pub record Upserted (existing incoming : Frame V) (key : List Str) (merged : List (Row V))
      : Type 0 where
    -- every incoming row is there, in all of its columns
    pub present :
        (i : Row V)
        → Memᴰ i incoming.rows
        → (m : Row V) × Memᴰ m merged × Agree (columns incoming) i m
    -- every retained row is there, or an incoming one of its key is
    pub kept :
        (e : Row V)
        → Memᴰ e existing.rows
        → Memᴰ e merged
          ⊎ ((i : Row V) × Memᴰ i incoming.rows × Memᴰ i merged × (joined_on eq key e i ≡ true))
    -- a row with the key of an incoming one is this one, in all of its columns
    pub replaced :
        (m i : Row V)
        → Memᴰ m merged
        → Memᴰ i incoming.rows
        → joined_on eq key m i ≡ true
        → Agree (columns incoming) i m
    -- no two rows have the same key, unless a value of it is null
    pub single : Single eq key merged
    -- there is no other row
    pub only : (m : Row V) → Memᴰ m merged → Memᴰ m existing.rows ⊎ Memᴰ m incoming.rows

  module _ (existing incoming : Frame V) (key : List Str) where
    Upserted-perm :
        ((a b : Row V) → joined_on eq key a b ≡ false → joined_on eq key b a ≡ false)
        → {xs ys : List (Row V)} → Permᴰ ys xs
        → Upserted existing incoming key xs
        → Upserted existing incoming key ys
    Upserted-perm symmetric p h = record {
      single = Single-perm eq key symmetric (Permᴰ.symm p) h.single;
      present =
          λ i m. let (r, there, agree) = h.present i m in (r, perm-mem (Permᴰ.symm p) there, agree);
      kept = λ e m. elim (h.kept e m) [
        | inl there ↦ inl (perm-mem (Permᴰ.symm p) there)
        | inr (i, m, there, joins) ↦ inr (i, m, perm-mem (Permᴰ.symm p) there, joins)
      ];
      replaced = λ r i m. h.replaced r i (perm-mem p m);
      only = λ r m. h.only r (perm-mem p m);
    }

    ensure_unique-has_duplicates :
        (frame : Frame V)
        → ensure_unique eq frame key ≡ ok tt
        → has_duplicates eq key frame.rows ≡ false
    unfolding ensure_unique
    ensure_unique-has_duplicates frame h =
        let (_, h1) = refuse-eq-ok (is_nil key) value_error _ h in
        let (_, h2) =
          refuse-eq-ok (any (λ column. not (mem_str column (columns frame))) key) value_error _
            h1 in
        elim (Bool-cases (not (is_empty frame) && has_duplicates eq key frame.rows)) [
          | inl found ↦ let raised = (rw found at h2) in cc
          | inr e ↦ go frame.rows e
        ]
      where
        go :
            (xs : List (Row V))
            → (not (is_nil xs) && has_duplicates eq key xs) ≡ false
            → has_duplicates eq key xs ≡ false
        go [] e = refl
        go (x ∷ xs) e = e

    module _ (sort : List Str → List (Row V) → List (Row V))
        (sorts : (names : List Str) (rs : List (Row V)) → Permᴰ (sort names rs) rs) where
      merged_perm :
          (d : FrameDiff V)
          → is_empty existing ≡ false
          → Permᴰ
              (merged_of eq sort existing incoming key d).rows
              (retained eq key existing.rows (updates_of d) ++ updates_of d)
      unfolding merged_of
      merged_perm d e = elim (Bool-cases (has_changes d)) [
        | inl changes ↦ rw (changes, e, changed_rows d) (sorts key _)
        | inr same ↦
            rw (same, no_changes d same, keep_all existing.rows, append-nil existing.rows)
              (Permᴰ.refl existing.rows)
      ]

      module _ (eq_same : (a b : V) → eq a b ≡ true → a ≡ b)
          (eq_refl : (a : V) → eq a a ≡ true) where
        -- Nothing comes in.
        merged-nothing :
            is_empty incoming ≡ true
            → has_duplicates eq key existing.rows ≡ false
            → Upserted existing incoming key
                (merged_of eq sort existing incoming key
                  (record { inserts = incoming; unchanged = incoming; revisions = incoming })).rows
        unfolding merged_of has_changes
        merged-nothing e alone = rw e record {
          single = has_duplicates-Single eq eq_same eq_refl key existing.rows alone;
          present = λ i m. absurd (empty-mem incoming.rows e m);
          kept = λ r m. inl m;
          replaced = λ r i _ m. absurd (empty-mem incoming.rows e m);
          only = λ r m. inl m;
        }

        -- There is nothing yet.
        merged-first :
            is_empty existing ≡ true
            → is_empty incoming ≡ false
            → has_duplicates eq key incoming.rows ≡ false
            → Upserted existing incoming key
                (merged_of eq sort existing incoming key (record {
                  inserts = incoming;
                  unchanged = no_rows incoming;
                  revisions = no_rows incoming;
                })).rows
        unfolding merged_of has_changes
        merged-first e f distinct =
            rw (f, e)
              (Upserted-perm (joined_on-apart eq eq_same eq_refl key) (sorts key incoming.rows)
                record {
                  single = has_duplicates-Single eq eq_same eq_refl key incoming.rows distinct;
                  present = λ i m. (i, m, Agree_refl (columns incoming) i);
                  kept = λ r m. absurd (empty-mem existing.rows e m);
                  replaced = λ r i m there joins.
                      subst (λ x. Agree (columns incoming) i x)
                        (sym (
                          one_of_key eq eq_same eq_refl key incoming.rows distinct m there
                            (joined_on-Agree eq eq_same eq_refl key r i joins)))
                        (Agree_refl (columns incoming) i);
                  only = λ r m. inr m;
                })

        merged-next :
            is_empty existing ≡ false
            → has_duplicates eq key incoming.rows ≡ false
            → has_duplicates eq key existing.rows ≡ false
            → Upserted existing incoming key
                (merged_of eq sort existing incoming key (classified eq existing incoming key)).rows
        merged-next e distinct alone =
            Upserted-perm (joined_on-apart eq eq_same eq_refl key)
              (merged_perm (classified eq existing incoming key) e)
              (subst (Upserted existing incoming key)
                (rows-same eq eq_same eq_refl existing incoming key distinct)
                (record {
                  single = rows-Single eq eq_same eq_refl existing incoming key distinct alone;
                  present = rows-present eq eq_same eq_refl existing incoming key distinct;
                  kept = rows-kept eq eq_same eq_refl existing incoming key distinct;
                  replaced = rows-replaced eq eq_same eq_refl existing incoming key distinct alone;
                  only = rows-only eq eq_same eq_refl existing incoming key distinct;
                }))

        diff_frames-Upserted :
            (d : FrameDiff V)
            → diff_frames eq existing incoming key ≡ ok d
            → Upserted existing incoming key (merged_of eq sort existing incoming key d).rows
        unfolding diff_frames
        diff_frames-Upserted d h =
            let (_, unique, h1) = bind-eq-ok (ensure_unique eq incoming key) _ h in
            let (_, alone, h2) = bind-eq-ok (ensure_unique eq existing key) _ h1 in
            elim (Bool-cases (is_empty incoming)) [
              | inl nothing ↦
                  subst
                    (λ d.
                      Upserted existing incoming key
                        (merged_of eq sort existing incoming key d).rows)
                    (ok-injective (rw nothing at h2))
                    (merged-nothing nothing (ensure_unique-has_duplicates existing alone))
              | inr some_rows ↦
                  (let (_, _, h3) =
                      bind-eq-ok (ensure_compatible existing incoming) _ (rw some_rows at h2) in
                    subst
                      (λ d.
                        Upserted existing incoming key
                          (merged_of eq sort existing incoming key d).rows)
                      (ok-injective h3)
                      (elim (Bool-cases (is_empty existing)) [
                        | inl first ↦ rw first (
                            merged-first first some_rows
                              (ensure_unique-has_duplicates incoming unique))
                        | inr next ↦ rw next (
                            merged-next next (ensure_unique-has_duplicates incoming unique)
                              (ensure_unique-has_duplicates existing alone))
                      ]))
            ]

        -- A merge that returns has every incoming row, in all of its columns, and every retained row
        -- unless an incoming row of its key is there in its place, and no other row: whatever row there
        -- has the key of an incoming one is this one, in all of its columns, and no two rows there have the
        -- same key, unless a value of it is null. The sort reorders the rows,
        -- and the equality of values is a decision.
        pub merge_frames-Upserted :
            (merged : Frame V) (diff : FrameDiff V)
            → merge_frames eq sort existing incoming key ≡ ok (merged, diff)
            → Upserted existing incoming key merged.rows
        unfolding merge_frames
        merge_frames-Upserted merged diff h =
            let (d, h1, h2) = bind-eq-ok (diff_frames eq existing incoming key) _ h in
            subst (λ f. Upserted existing incoming key f.rows) (ap (λ (f, _). f) (ok-injective h2))
              (diff_frames-Upserted d h1)
