-- ===== src/Operational/Snapshot/Update.antt =====
-- What a snapshot holds after one record of it was inserted or replaced.
use market_regime_loader.Prelude.{
  suc, ◌≡◌, refl, ap, ◌∙◌, ◌⊎◌, inl, inr, Bool, Option, none, some, List, [], ◌∷◌, ◌++◌, map, keep,
  All, Bool-cases,
}
use mathlib.Core.Path.{subst}
use mathlib.Core.List.{Permᴰ}
use market_regime_loader.Prelude.Effects.{
  Result, ok, err, bind-eq-ok, refuse-eq-ok, ok-injective, traverse, value_error, lift, continue,
}
use market_regime_loader.Prelude.Hoare.{Post, Post-continue, Post-weaken, Post-lift}
use market_regime_loader.Operational.Snapshot.{
  Env, World, WriteOutcome, written, unchanged, unsynced, Format, has_duplicates, frame, read_rows,
  read, replace, write, upsert,
}

-- The laws of a format: the sort reorders, and what was read is stored again as `clean` makes it.
pub record IsFormat {R Row : Type 0} (format : Format R Row) (clean : R → R) : Type 0 where
  pub sorts : (rows : List Row) → Permᴰ (format.sort rows) rows
  pub again :
      (row : Row) (r : R)
      → format.decode row ≡ ok r
      → format.decode (format.encode r) ≡ ok (clean r)

traverse-two :
    {A B : Type 0} (f : A → Result B) (a b : A) (l : List A) {p q : B} {rest : List B}
    → f a ≡ ok p
    → f b ≡ ok q
    → traverse f l ≡ ok rest
    → traverse f (a ∷ b ∷ l) ≡ ok (p ∷ q ∷ rest)
traverse-two f a b l first second more = rw (first, second, more) refl

-- Values that are converted in another order.
traverse-perm :
    {A B : Type 0} (f : A → Result B) {xs ys : List A} {bs : List B}
    → Permᴰ xs ys
    → traverse f ys ≡ ok bs
    → (cs : List B) × (traverse f xs ≡ ok cs) × Permᴰ cs bs
traverse-perm f {bs = bs} Permᴰ.nil h = ([], refl, rw (← ok-injective h) Permᴰ.nil)
traverse-perm f (Permᴰ.cons {a = a} {b = b} {l₁ = xs} {l₂ = ys} e d) h =
    let (y, here, h1) = bind-eq-ok (f b) _ h in
    let (ys', rest, h2) = bind-eq-ok (traverse f ys) _ h1 in
    let (xs', more, p) = traverse-perm f d rest in
    (y ∷ xs', rw (e, here, more) refl, rw (← ok-injective h2) (Permᴰ.cons refl p))
traverse-perm f {bs = bs} (Permᴰ.swap {l = l} e g) h =
    let (p, first, h1) = bind-eq-ok (f _) _ h in
    let (qs, others, h2) = bind-eq-ok (traverse f (_ ∷ l)) _ h1 in
    let (q, second, h3) = bind-eq-ok (f _) _ others in
    let (rest, more, h4) = bind-eq-ok (traverse f l) _ h3 in
    let whole : p ∷ q ∷ rest ≡ bs = ap (λ xs. p ∷ xs) (ok-injective h4) ∙ ok-injective h2 in
    (
      q ∷ p ∷ rest,
      traverse-two f _ _ l (ap f e ∙ second) (ap f g ∙ first) more,
      subst (λ ys. Permᴰ (q ∷ p ∷ rest) ys) whole (Permᴰ.swap refl refl),
    )
traverse-perm f (Permᴰ.trans d q) h =
    let (ys', rest, p) = traverse-perm f q h in
    let (xs', more, r) = traverse-perm f d rest in (xs', more, Permᴰ.trans r p)

module _ {R Row : Type 0} (format : Format R Row) where
  -- The records that a file holds.
  abbrev pub Holds : Option (List Row) → List R → Type 0
  Holds none records = records ≡ []
  Holds (some rows) records = traverse format.decode rows ≡ ok records

  -- A read of the file gives these records as `clean` makes them, in some order.
  abbrev pub Stored : (R → R) → List R → Option (List Row) → Type 0
  Stored clean records file =
      (rows : List Row) × (stored : List R) × (file ≡ some rows)
      × (traverse format.decode rows ≡ ok stored)
      × Permᴰ stored (map clean records)

  abbrev pub Saved : (R → R) → List R → Option (List Row) → Result (Unit {0}) × World Row → Type 0
  Saved clean records before x =
      Post (λ _ w. Stored clean records w.file)
        (λ _ w. (w.file ≡ before) ⊎ Stored clean records w.file) x

  module _ (clean : R → R) (lawful : IsFormat format clean) where
    again-all :
        (rows : List Row) (records : List R)
        → traverse format.decode rows ≡ ok records
        → All (λ r. format.decode (format.encode r) ≡ ok (clean r)) records
    again-all [] records h = rw (← ok-injective h) tt
    again-all (row ∷ rows) records h =
        let (r, here, h1) = bind-eq-ok (format.decode row) _ h in
        let (rs, rest, h2) = bind-eq-ok (traverse format.decode rows) _ h1 in
        rw (← ok-injective h2) (lawful.again row r here, again-all rows rs rest)

    Holds-again :
        (file : Option (List Row)) (records : List R)
        → Holds file records
        → All (λ r. format.decode (format.encode r) ≡ ok (clean r)) records
    Holds-again none records h = rw h tt
    Holds-again (some rows) records h = again-all rows records h

    All-kept :
        (P : R → Type 0) (p : R → Bool) (records : List R) (r : R)
        → All P records
        → P r
        → All P (keep p records ++ r ∷ [])
    All-kept P p [] r h here = (here, tt)
    All-kept P p (x ∷ records) r h here = elim (Bool-cases (p x)) [
      | inl passes ↦ rw passes (h.0, All-kept P p records r h.1 here)
      | inr fails ↦ rw fails (All-kept P p records r h.1 here)
    ]

    traverse-again :
        (records : List R)
        → All (λ r. format.decode (format.encode r) ≡ ok (clean r)) records
        → traverse format.decode (map format.encode records) ≡ ok (map clean records)
    traverse-again [] h = refl
    traverse-again (r ∷ records) h = rw (h.0, traverse-again records h.1) refl

    frame-Holds :
        (records : List R) (rows : List Row)
        → All (λ r. format.decode (format.encode r) ≡ ok (clean r)) records
        → frame format records ≡ ok rows
        → (stored : List R) × (traverse format.decode rows ≡ ok stored)
          × Permᴰ stored (map clean records)
    unfolding frame
    frame-Holds [] rows h e = rw (← ok-injective e) ([], refl, Permᴰ.nil)
    frame-Holds (r ∷ records) rows h e =
        let (unique, e1) =
          refuse-eq-ok (has_duplicates format (map format.encode (r ∷ records))) value_error _ e in
        rw (← ok-injective e1) (
          traverse-perm format.decode (lawful.sorts (map format.encode (r ∷ records)))
            (traverse-again (r ∷ records) h))

    module _ (env : Env) where
      pub write-Post :
          (records : List R) (w : World Row)
          → All (λ r. format.decode (format.encode r) ≡ ok (clean r)) records
          → Saved clean records w.file (write format env records w)
      unfolding write
      write-Post records w h = go (frame format records) refl
        where
          go :
              (rows : Result (List Row))
              → frame format records ≡ rows
              → Saved clean records w.file (
                  continue
                    (λ rows (w : World Row). replace format env rows (env.write w.calls) w)
                    (rows, w))
          go (err e) k = record { holds = inl refl }
          go (ok rows) k = done (env.write w.calls)
            where
              done :
                  (outcome : WriteOutcome)
                  → Saved clean records w.file (replace format env rows outcome w)
              done written =
                  let (stored, e, p) = frame-Holds records rows h k in
                  record { holds = (rows, stored, refl, e, p) }
              done (unchanged e) = record { holds = inl refl }
              done (unsynced x) =
                  let (stored, e, p) = frame-Holds records rows h k in
                  record { holds = inr (rows, stored, refl, e, p) }

      read-Post :
          (w : World Row)
          → Post
              (λ records w'. Holds w.file records × (w'.file ≡ w.file))
              (λ _ w'. w'.file ≡ w.file)
              (read format env w)
      unfolding read
      read-Post w = go w.file refl
        where
          parsed :
              (rows : List Row) (r : Result (Unit {0}))
              → Post
                  (λ records w'. Holds (some rows) records × (w'.file ≡ w.file))
                  (λ _ w'. w'.file ≡ w.file)
                  (continue
                    (λ _. lift (traverse format.decode rows))
                    (r, record w { calls = suc w.calls }))
          parsed rows (err e) = record { holds = refl }
          parsed rows (ok _) =
              Post-lift (traverse format.decode rows) _ (λ records e. (e, refl)) (λ _. refl)

          go :
              (file : Option (List Row))
              → w.file ≡ file
              → Post
                  (λ records w'. Holds file records × (w'.file ≡ w.file))
                  (λ _ w'. w'.file ≡ w.file)
                  (read_rows format env file w)
          go none e = record { holds = (refl, refl) }
          go (some rows) e = parsed rows (env.read w.calls)

      -- The record takes the place of those that are not other than it, or the file stays as it was.
      pub upsert-Post :
          (other : R → R → Bool) (r : R) (w : World Row)
          → format.decode (format.encode r) ≡ ok (clean r)
          → (let Updated : Option (List Row) → Type 0 = λ file.
                (existing : List R) × Holds w.file existing
                × Stored clean (keep (other r) existing ++ r ∷ []) file in
              Post
                (λ _ w'. Updated w'.file)
                (λ _ w'. (w'.file ≡ w.file) ⊎ Updated w'.file)
                (upsert format env other r w))
      unfolding upsert
      upsert-Post other r w h =
          Post-continue _ (read format env w) (read-Post w)
            (λ existing w1 (held, same).
              let records = keep (other r) existing ++ r ∷ [] in
              Post-weaken _
                (write-Post records w1 (
                  All-kept (λ r. format.decode (format.encode r) ≡ ok (clean r)) (other r) existing
                    r (Holds-again w.file existing held) h))
                (λ _ w2 stored. (existing, held, stored))
                (λ _ w2 k. elim k [
                  | inl kept ↦ inl (kept ∙ same)
                  | inr stored ↦ inr (existing, held, stored)
                ]))
            (λ _ w1 same. inl same)
