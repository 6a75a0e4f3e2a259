-- ===== src/Postgres/Rows/Framing.antt =====
-- application/postgres_delta.py: gold_row_sha256 hashes different bytes for different rows.
use market_regime_loader.Prelude.{
  ℕ, ◌<◌, ◌≡◌, refl, sym, ap, ◌∙◌, arith, ℤ, Str, Datetime, naive, aware, Option, none, some, List,
  [], ◌∷◌, ◌++◌, All,
}
use market_regime_loader.Prelude.Effects.{ok, bind-eq-ok, ok-injective}
use market_regime_loader.Prelude.Bytes.{
  big_endian, byte_bound, pack_int, append_split, big_endian-injective, length-big_endian,
  pack_int-injective, length-pack_int,
}
use market_regime_loader.Postgres.Contracts.{
  Float, GoldRowPayload, timestamp_column, feature_columns,
}
use market_regime_loader.Postgres.Rows.{
  epoch_microseconds, canonical_float, cell_bytes, cells_bytes, row_bytes, digest_prefix,
}

-- A value of 64 bits that is as the loader stores it: finite, and without a negative zero.
abbrev pub IsCanonical : Option Float → Type 0
IsCanonical none = Unit
IsCanonical (some value) = (canonical_float value ≡ ok value) × (value < byte_bound 8)

tail_eq : {a b : ℕ} {xs ys : List ℕ} → a ∷ xs ≡ b ∷ ys → xs ≡ ys
tail_eq e = cc

head_eq : {a b : ℕ} {xs ys : List ℕ} → a ∷ xs ≡ b ∷ ys → a ≡ b
head_eq e = cc

some_cell :
    (value : Float) {bytes : List ℕ}
    → IsCanonical (some value)
    → cell_bytes (some value) ≡ ok bytes
    → bytes ≡ 70 ∷ big_endian 8 value
some_cell value h e =
    let (canonical, made, f) = bind-eq-ok (canonical_float value) _ e in
    let same : canonical ≡ value = ok-injective (sym made ∙ h.0) in
    sym (ok-injective f) ∙ ap (λ v. 70 ∷ big_endian 8 v) same

cell-injective :
    (x y : Option Float) {c d rest more : List ℕ}
    → IsCanonical x
    → IsCanonical y
    → cell_bytes x ≡ ok c
    → cell_bytes y ≡ ok d
    → c ++ rest ≡ d ++ more
    → (x ≡ y) × (rest ≡ more)
cell-injective none none {rest = rest} {more = more} p q e f same = (
  refl,
  tail_eq
      (ap (λ c. c ++ rest) (ok-injective e) ∙ same ∙ ap (λ d. d ++ more) (sym (ok-injective f))),
)
cell-injective none (some v) {rest = rest} {more = more} p q e f same =
    let wrong =
      head_eq
        (ap (λ c. c ++ rest) (ok-injective e) ∙ same ∙ ap (λ d. d ++ more) (some_cell v q f)) in
    absurd (ground arith)
cell-injective (some u) none {rest = rest} {more = more} p q e f same =
    let wrong = head_eq (
      ap (λ c. c ++ rest) (sym (some_cell u p e))
      ∙ same
      ∙ ap (λ d. d ++ more) (sym (ok-injective f))) in
    absurd (ground arith)
cell-injective (some u) (some v) {rest = rest} {more = more} p q e f same =
    let bytes = tail_eq (
      ap (λ c. c ++ rest) (sym (some_cell u p e)) ∙ same ∙ ap (λ d. d ++ more) (some_cell v q f)) in
    let (values, after) =
      append_split (big_endian 8 u) (big_endian 8 v) rest more
        (length-big_endian 8 u ∙ sym (length-big_endian 8 v)) bytes in
    (ap some (big_endian-injective 8 u v p.1 q.1 values), after)

cells-injective :
    (columns : List Str) (xs ys : List (Option Float)) {bytes : List ℕ}
    → All IsCanonical xs
    → All IsCanonical ys
    → cells_bytes columns xs ≡ ok bytes
    → cells_bytes columns ys ≡ ok bytes
    → xs ≡ ys
unfolding cells_bytes
cells-injective [] [] [] p q e f = refl
cells-injective [] [] (y ∷ ys) p q e f = cc
cells-injective [] (x ∷ xs) ys p q e f = cc
cells-injective (column ∷ columns) [] ys p q e f = cc
cells-injective (column ∷ columns) (x ∷ xs) [] p q e f = cc
cells-injective (column ∷ columns) (x ∷ xs) (y ∷ ys) p q e f =
    let (c, e1, e2) = bind-eq-ok (cell_bytes x) _ e in
    let (rest, e3, e4) = bind-eq-ok (cells_bytes columns xs) _ e2 in
    let (d, f1, f2) = bind-eq-ok (cell_bytes y) _ f in
    let (more, f3, f4) = bind-eq-ok (cells_bytes columns ys) _ f2 in
    let (_, framed) =
      append_split column column (0 ∷ (c ++ rest)) (0 ∷ (d ++ more)) refl
        (ok-injective (e4 ∙ sym f4)) in
    let (value, after) = cell-injective x y p.0 q.0 e1 f1 (tail_eq framed) in
    let values = cells-injective columns xs ys p.1 q.1 e3 (f3 ∙ ap ok (sym after)) in
    rw (value, values)

epoch_microseconds-injective :
    (t u : Datetime) {n : ℤ} → epoch_microseconds t ≡ ok n → epoch_microseconds u ≡ ok n → t ≡ u
unfolding epoch_microseconds
epoch_microseconds-injective (naive t) u e f = cc
epoch_microseconds-injective (aware t) (naive u) e f = cc
epoch_microseconds-injective (aware t) (aware u) e f = ground arith

-- Rows of canonical values that are hashed from the same bytes are the same row.
pub row_bytes-injective :
    (r s : GoldRowPayload) (bytes : List ℕ)
    → All IsCanonical r.values
    → All IsCanonical s.values
    → row_bytes r ≡ ok bytes
    → row_bytes s ≡ ok bytes
    → (r.timestamp_m1 ≡ s.timestamp_m1) × (r.values ≡ s.values)
unfolding row_bytes
row_bytes-injective r s bytes p q e f =
    let (m, e1, e2) = bind-eq-ok (epoch_microseconds r.timestamp_m1) _ e in
    let (packed, e3, e4) = bind-eq-ok (pack_int m) _ e2 in
    let (cells, e5, e6) = bind-eq-ok (cells_bytes feature_columns r.values) _ e4 in
    let (n, f1, f2) = bind-eq-ok (epoch_microseconds s.timestamp_m1) _ f in
    let (packed', f3, f4) = bind-eq-ok (pack_int n) _ f2 in
    let (cells', f5, f6) = bind-eq-ok (cells_bytes feature_columns s.values) _ f4 in
    let (_, named) =
      append_split digest_prefix digest_prefix _ _ refl (ok-injective (e6 ∙ sym f6)) in
    let (_, framed) =
      append_split timestamp_column timestamp_column (0 ∷ 84 ∷ (packed ++ cells))
        (0 ∷ 84 ∷ (packed' ++ cells')) refl named in
    let (times, values) =
      append_split packed packed' cells cells' (length-pack_int m e3 ∙ sym (length-pack_int n f3))
        (tail_eq (tail_eq framed)) in
    let same = pack_int-injective m n e3 (f3 ∙ ap ok (sym times)) in
    (
      epoch_microseconds-injective r.timestamp_m1 s.timestamp_m1 e1 (f1 ∙ ap ok (sym same)),
      cells-injective feature_columns r.values s.values p q e5 (f5 ∙ ap ok (sym values)),
    )
