-- ===== src/Parquet/Merge.antt =====
-- ingestion/parquet_repository.py: the rows that merge_frames keeps.
use market_regime_loader.Prelude.{
  ◌≡◌, refl, sym, ◌⊎◌, inl, inr, Str, Bool, true, false, not, Bool-cases, arith, Option, none, some,
  List, [], ◌∷◌, ◌++◌, any,
}
use mathlib.Core.Path.{subst}
use mathlib.Core.List.{Memᴰ, append-nil}
use mathlib.Core.List.Memᴰ
use market_regime_loader.Prelude.Membership.{mem-keep, keep-mem, mem-any, mem-find, any-mem}
use market_regime_loader.Parquet.Agree.{
  Agree, Agree_refl, Agree_trans, Agree-columns, joined_on-Agree, same_on-Agree, one_of_key,
  has_duplicates-Single,
}
use market_regime_loader.Parquet.Single.{Single, Single-append, Single-keep}
use market_regime_loader.Parquet.{
  Row, Frame, FrameDiff, columns, changed, same_on, joined_on, has_duplicates, payload_columns,
  old_row, is_insert, is_revision, classified, retained,
}

module _ {V : Type 0} where
  abbrev pub updates_of : FrameDiff V → List (Row V)
  updates_of d = d.inserts.rows ++ d.revisions.rows

  pub changed_rows : (d : FrameDiff V) → (changed d).rows ≡ updates_of d
  unfolding changed
  changed_rows d = go d.inserts.rows d.revisions.rows refl refl
    where
      go :
          (xs ys : List (Row V))
          → d.inserts.rows ≡ xs
          → d.revisions.rows ≡ ys
          → (changed d).rows ≡ updates_of d
      go [] ys e f = rw e refl
      go (x ∷ xs) [] e f = rw (e, f) (rw (append-nil xs) refl)
      go (x ∷ xs) (y ∷ ys) e f = rw (e, f) refl

module _ {V : Type 0} (eq : V → V → Bool) (eq_same : (a b : V) → eq a b ≡ true → a ≡ b)
    (eq_refl : (a : V) → eq a a ≡ true) where
  module _ (existing incoming : Frame V) (key : List Str)
      (distinct : has_duplicates eq key incoming.rows ≡ false) where
    updates : List (Row V)
    updates = updates_of (classified eq existing incoming key)

    old_of : Row V → Option (Row V)
    old_of i = old_row eq key existing.rows i

    payload : List Str
    payload = payload_columns eq key (columns incoming)

    updates-mem :
        (u : Row V)
        → Memᴰ u updates
        → Memᴰ u incoming.rows
          × ((is_insert eq (old_of u) ≡ true) ⊎ (is_revision eq payload u (old_of u) ≡ true))
    unfolding updates classified old_of payload
    updates-mem u m =
        elim (Memᴰ.append_cases (classified eq existing incoming key).inserts.rows m) [
          | inl new ↦
              let (there, e) = mem-keep (λ i. is_insert eq (old_of i)) incoming.rows new in
              (there, inl e)
          | inr new ↦
              let (there, e) =
                mem-keep (λ i. is_revision eq payload i (old_of i)) incoming.rows new in
              (there, inr e)
        ]

    -- Its key is retained with the same payload.
    abbrev Unchanged : Row V → Type 0
    Unchanged i = (old : Row V) × (old_of i ≡ some old) × (same_on eq payload i old ≡ true)

    settled : (i : Row V) → Memᴰ i incoming.rows → Memᴰ i updates ⊎ Unchanged i
    unfolding updates classified old_of payload
    settled i m = go (old_of i) refl
      where
        go : (o : Option (Row V)) → old_of i ≡ o → Memᴰ i updates ⊎ Unchanged i
        go none e = inl (Memᴰ.append_left _ (keep-mem _ incoming.rows m (rw e refl)))
        go (some old) e = elim (Bool-cases (same_on eq payload i old)) [
          | inl same ↦ inr (old, e, same)
          | inr differs ↦
              inl (Memᴰ.append_right _ (keep-mem _ incoming.rows m (rw (e, differs) refl)))
        ]

    unchanged-not_update : (i : Row V) → Unchanged i → Memᴰ i updates → ⊥
    unchanged-not_update i (old, e, same) m = elim (updates-mem i m).1 [
      | inl new ↦ cc (rw e at new)
      | inr revised ↦ let differs = (rw (e, same) at revised) in cc
    ]

    pub rows : List (Row V)
    rows = retained eq key existing.rows updates ++ updates

    -- The retained row of an unchanged one is not replaced.
    unchanged-retained :
        (i : Row V)
        → Memᴰ i incoming.rows
        → Unchanged i
        → (m : Row V) × Memᴰ m rows × Agree (columns incoming) i m
    unfolding rows old_of payload
    unchanged-retained i there (old, e, same) =
        let (old_there, key_same) = mem-find (joined_on eq key i) existing.rows e in
        let agree : Agree key i old = joined_on-Agree eq eq_same eq_refl key i old key_same in
        (
          old,
          Memᴰ.append_left _ (
              keep-mem (λ row. not (any (joined_on eq key row) updates)) existing.rows old_there
                (elim (Bool-cases (any (joined_on eq key old) updates)) [
                  | inl hit ↦
                      let (u, m, joins) = any-mem (joined_on eq key old) updates hit in
                      absurd (
                        unchanged-not_update i (old, e, same)
                          (subst (λ r. Memᴰ r updates)
                            (sym (
                              one_of_key eq eq_same eq_refl key incoming.rows distinct there
                                (updates-mem u m).0
                                (Agree_trans eq eq_same eq_refl key i old u agree
                                  (joined_on-Agree eq eq_same eq_refl key old u joins))))
                            m))
                  | inr miss ↦ rw miss refl
                ])),
          Agree-columns eq eq_same eq_refl key (columns incoming) i old agree (
              same_on-Agree eq eq_same eq_refl (payload_columns eq key (columns incoming)) i old
                same),
        )

    pub rows-present :
        (i : Row V)
        → Memᴰ i incoming.rows
        → (m : Row V) × Memᴰ m rows × Agree (columns incoming) i m
    unfolding rows
    rows-present i there = elim (settled i there) [
      | inl m ↦ (
        i,
        Memᴰ.append_right (retained eq key existing.rows updates) m,
        Agree_refl (columns incoming) i,
      )
      | inr old ↦ unchanged-retained i there old
    ]

    pub rows-kept :
        (e : Row V)
        → Memᴰ e existing.rows
        → Memᴰ e rows
          ⊎ ((i : Row V) × Memᴰ i incoming.rows × Memᴰ i rows × (joined_on eq key e i ≡ true))
    unfolding rows
    rows-kept e there = elim (Bool-cases (any (joined_on eq key e) updates)) [
      | inl hit ↦
          let (u, m, joins) = any-mem (joined_on eq key e) updates hit in
          inr (u, (updates-mem u m).0, Memᴰ.append_right _ m, joins)
      | inr miss ↦ inl (
          Memᴰ.append_left _ (
            keep-mem (λ row. not (any (joined_on eq key row) updates)) existing.rows there
              (rw miss refl)))
    ]

    pub rows-only : (m : Row V) → Memᴰ m rows → Memᴰ m existing.rows ⊎ Memᴰ m incoming.rows
    unfolding rows
    rows-only m h = elim (Memᴰ.append_cases (retained eq key existing.rows updates) h) [
      | inl old ↦
          inl (mem-keep (λ row. not (any (joined_on eq key row) updates)) existing.rows old).0
      | inr new ↦ inr (updates-mem m new).0
    ]

    -- A row of the merge that has the key of an incoming one is the same as it, in all columns.
    pub rows-replaced :
        has_duplicates eq key existing.rows ≡ false
        → (m i : Row V) → Memᴰ m rows
        → Memᴰ i incoming.rows
        → joined_on eq key m i ≡ true
        → Agree (columns incoming) i m
    unfolding rows old_of payload
    rows-replaced alone m i h there joins =
        elim (Memᴰ.append_cases (retained eq key existing.rows updates) h) [
          | inr new ↦
              subst (λ r. Agree (columns incoming) i r)
                (sym (
                  one_of_key eq eq_same eq_refl key incoming.rows distinct (updates-mem m new).0
                    there (joined_on-Agree eq eq_same eq_refl key m i joins)))
                (Agree_refl (columns incoming) i)
          | inl kept ↦
              (let (m_there, apart) =
                  mem-keep (λ row. not (any (joined_on eq key row) updates)) existing.rows kept in
                elim (settled i there) [
                  | inl update ↦
                      let no_update : any (joined_on eq key m) updates ≡ false = ground arith in
                      let differs = mem-any (joined_on eq key m) updates no_update update in cc
                  | inr (old, e, same) ↦
                      let (old_there, key_same) = mem-find (joined_on eq key i) existing.rows e in
                      let agree : Agree key i old =
                        joined_on-Agree eq eq_same eq_refl key i old key_same in
                      subst (λ r. Agree (columns incoming) i r)
                        (sym (
                          one_of_key eq eq_same eq_refl key existing.rows alone m_there old_there (
                            Agree_trans eq eq_same eq_refl key m i old
                              (joined_on-Agree eq eq_same eq_refl key m i joins) agree)))
                        (Agree-columns eq eq_same eq_refl key (columns incoming) i old agree (
                          same_on-Agree eq eq_same eq_refl
                            (payload_columns eq key (columns incoming)) i old same))
                ])
        ]

    updates-Single : Single eq key updates
    unfolding updates classified old_of payload
    updates-Single =
        Single-append eq key (classified eq existing incoming key).inserts.rows
          (classified eq existing incoming key).revisions.rows
          (Single-keep eq key (λ i. is_insert eq (old_of i)) incoming.rows
            (has_duplicates-Single eq eq_same eq_refl key incoming.rows distinct))
          (Single-keep eq key (λ i. is_revision eq payload i (old_of i)) incoming.rows
            (has_duplicates-Single eq eq_same eq_refl key incoming.rows distinct))
          (λ x y m k. elim (Bool-cases (joined_on eq key x y)) [
            | inl joins ↦
                (let (x_there, new) = mem-keep (λ i. is_insert eq (old_of i)) incoming.rows m in
                  let (y_there, revised) =
                    mem-keep (λ i. is_revision eq payload i (old_of i)) incoming.rows k in
                  let same : x ≡ y =
                    one_of_key eq eq_same eq_refl key incoming.rows distinct x_there y_there
                      (joined_on-Agree eq eq_same eq_refl key x y joins) in
                  let new_y : is_insert eq (old_of y) ≡ true =
                    subst (λ r. is_insert eq (old_of r) ≡ true) same new in
                  absurd (not_both y (old_of y) new_y revised))
            | inr apart ↦ apart
          ])
      where
        not_both :
            (r : Row V) (o : Option (Row V))
            → is_insert eq o ≡ true
            → is_revision eq payload r o ≡ true
            → ⊥
        not_both r none h k = cc
        not_both r (some old) h k = cc

    -- No two rows of the merge have the same key.
    pub rows-Single : has_duplicates eq key existing.rows ≡ false → Single eq key rows
    unfolding rows
    rows-Single alone =
        Single-append eq key (retained eq key existing.rows updates) updates
          (Single-keep eq key (λ row. not (any (joined_on eq key row) updates)) existing.rows
            (has_duplicates-Single eq eq_same eq_refl key existing.rows alone))
          updates-Single
          (λ x y m k.
            let missed : not (any (joined_on eq key x) updates) ≡ true =
              (mem-keep (λ row. not (any (joined_on eq key row) updates)) existing.rows m).1 in
            mem-any (joined_on eq key x) updates (ground arith) k)

    pub rows-same : rows ≡ (
        retained eq key existing.rows (updates_of (classified eq existing incoming key))
        ++ updates_of (classified eq existing incoming key))
    unfolding rows updates
    rows-same = refl
