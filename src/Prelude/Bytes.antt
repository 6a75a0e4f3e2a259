-- ===== src/Prelude/Bytes.antt =====
-- What Python's `struct.pack` writes for `>q` and `>d`: eight bytes, the most significant first.
use Prim.Native.Nat.{ℕ, zero, suc, ◌+◌, ◌-◌, ◌*◌, ◌/◌, ◌%◌, ◌^◌, ◌<◌}
use mathlib.Core.Path.{◌≡◌, refl, sym, ap, ◌∙◌}
use mathlib.Core.List.{List, [], ◌∷◌, ◌++◌}
use native.Mathlib.Omega.{arith}
use market_regime_loader.Prelude.Tests.{ltb, if◌then◌else◌}
use market_regime_loader.Prelude.Lists.{length, length-append}
use market_regime_loader.Prelude.Int.{ℤ, pos, negsuc}
use market_regime_loader.Prelude.Effects.{Result, ok, err, external, ok-injective}
use mathlib.Core.Bool.{Bool, true, false}

-- The lowest `k` bytes of a number.
abbrev pub big_endian : ℕ → ℕ → List ℕ
big_endian zero n = []
big_endian (suc k) n = big_endian k (n / 256) ++ (n % 256) ∷ []

-- The number that follows `acc` when these bytes are read.
abbrev pub from_bytes : ℕ → List ℕ → ℕ
from_bytes acc [] = acc
from_bytes acc (b ∷ bs) = from_bytes (acc * 256 + b) bs

abbrev pub byte_bound : ℕ → ℕ
byte_bound zero = 1
byte_bound (suc k) = 256 * byte_bound k

-- `struct.pack(">d", value)`, of a value given by its bit pattern
abbrev pub pack_double : ℕ → List ℕ
pack_double bits = big_endian 8 bits

-- `struct.pack(">q", value)`: two's complement, refused out of range
abbrev pub pack_int : ℤ → Result (List ℕ)
pack_int (pos n) = if ltb n (2 ^ 63) then ok (big_endian 8 n) else err (external 0)
pack_int (negsuc n) =
    if ltb n (2 ^ 63) then ok (big_endian 8 (2 ^ 64 - suc n)) else err (external 0)

from_bytes-snoc :
    (acc : ℕ) (bs : List ℕ) (b : ℕ) → from_bytes acc (bs ++ b ∷ []) ≡ from_bytes acc bs * 256 + b
from_bytes-snoc acc [] b = refl
from_bytes-snoc acc (c ∷ bs) b = from_bytes-snoc (acc * 256 + c) bs b

-- What was packed is read back, where it fits.
pub from_bytes-big_endian : (k n : ℕ) → n < byte_bound k → from_bytes 0 (big_endian k n) ≡ n
from_bytes-big_endian zero n h = omega arith
from_bytes-big_endian (suc k) n h =
    let rest = from_bytes-big_endian k (n / 256) (omega arith) in
    from_bytes-snoc 0 (big_endian k (n / 256)) (n % 256) ∙ omega (arith, rest)

pub length-big_endian : (k n : ℕ) → length (big_endian k n) ≡ k
length-big_endian zero n = refl
length-big_endian (suc k) n =
    omega (
      arith,
      length-append (big_endian k (n / 256)) ((n % 256) ∷ []),
      length-big_endian k (n / 256),
    )

pub big_endian-injective :
    (k m n : ℕ) → m < byte_bound k → n < byte_bound k → big_endian k m ≡ big_endian k n → m ≡ n
big_endian-injective k m n h g e =
    sym (from_bytes-big_endian k m h) ∙ ap (from_bytes 0) e ∙ from_bytes-big_endian k n g

-- Two texts of which the first parts are as long as each other.
pub append_split {ℓ} :
    {A : Type ℓ} (xs bs cs ds : List A)
    → length xs ≡ length bs
    → xs ++ cs ≡ bs ++ ds
    → (xs ≡ bs) × (cs ≡ ds)
append_split [] [] cs ds h e = (refl, e)
append_split [] (b ∷ bs) cs ds h e = absurd (omega arith)
append_split (a ∷ xs) [] cs ds h e = absurd (omega arith)
append_split (a ∷ xs) (b ∷ bs) cs ds h e =
    let (same, rest) = append_split xs bs cs ds (omega arith) (cc) in (cc, rest)

bytes_of : (m n : ℕ) → m < 2 ^ 64 → n < 2 ^ 64 → big_endian 8 m ≡ big_endian 8 n → m ≡ n
bytes_of m n h g e = big_endian-injective 8 m n h g e

if-ok :
    {A : Type 0} (test : Bool) (a : A) {b : A}
    → (if test then ok a else err (external 0)) ≡ ok b
    → (test ≡ true) × (a ≡ b)
if-ok true a h = (refl, ok-injective h)
if-ok false a h = cc

-- Packed integers are as long as each other, and differ where the integers do.
pub pack_int-injective : (x y : ℤ) {bs : List ℕ} → pack_int x ≡ ok bs → pack_int y ≡ ok bs → x ≡ y
pack_int-injective (pos m) (pos n) h g =
    let (p, e) = if-ok (ltb m (2 ^ 63)) (big_endian 8 m) h in
    let (q, f) = if-ok (ltb n (2 ^ 63)) (big_endian 8 n) g in
    ap pos (bytes_of m n (ground arith) (ground arith) (e ∙ sym f))
pack_int-injective (pos m) (negsuc n) h g =
    let (p, e) = if-ok (ltb m (2 ^ 63)) (big_endian 8 m) h in
    let (q, f) = if-ok (ltb n (2 ^ 63)) (big_endian 8 (2 ^ 64 - suc n)) g in
    let same = bytes_of m (2 ^ 64 - suc n) (ground arith) (ground arith) (e ∙ sym f) in
    absurd (ground arith)
pack_int-injective (negsuc m) (pos n) h g =
    let (p, e) = if-ok (ltb m (2 ^ 63)) (big_endian 8 (2 ^ 64 - suc m)) h in
    let (q, f) = if-ok (ltb n (2 ^ 63)) (big_endian 8 n) g in
    let same = bytes_of (2 ^ 64 - suc m) n (ground arith) (ground arith) (e ∙ sym f) in
    absurd (ground arith)
pack_int-injective (negsuc m) (negsuc n) h g =
    let (p, e) = if-ok (ltb m (2 ^ 63)) (big_endian 8 (2 ^ 64 - suc m)) h in
    let (q, f) = if-ok (ltb n (2 ^ 63)) (big_endian 8 (2 ^ 64 - suc n)) g in
    let same =
      bytes_of (2 ^ 64 - suc m) (2 ^ 64 - suc n) (ground arith) (ground arith) (e ∙ sym f) in
    ap negsuc (ground arith)

pub length-pack_int : (x : ℤ) {bs : List ℕ} → pack_int x ≡ ok bs → length bs ≡ 8
length-pack_int (pos m) h =
    let (p, e) = if-ok (ltb m (2 ^ 63)) (big_endian 8 m) h in
    ap length (sym e) ∙ length-big_endian 8 m
length-pack_int (negsuc m) h =
    let (p, e) = if-ok (ltb m (2 ^ 63)) (big_endian 8 (2 ^ 64 - suc m)) h in
    ap length (sym e) ∙ length-big_endian 8 (2 ^ 64 - suc m)
