-- ===== src/Prelude/Bits.antt =====
-- Bit masks of an `int`, read as its unsigned pattern: the k-th bit of `&`, `|` and `~`.
use Prim.Native.Nat.{
  ℕ, zero, suc, ◌+◌, ◌-◌, ◌*◌, ◌/◌, ◌%◌, ◌^◌, ◌≤◌, ◌<◌, min, max, digits, bit_and, bit_or,
  bit_and-bitwise, bit_or-bitwise,
}
use mathlib.Core.Path.{◌≡◌, refl, ap, ◌∙◌}
use native.Mathlib.Nat.{pow-suc, one-le-pow}
use native.Mathlib.Omega.{arith}

-- The k-th binary digit, 0 or 1.
abbrev pub bit : ℕ → ℕ → ℕ
bit x zero = x % 2
bit x (suc k) = bit (x / 2) k

-- `~x` on 32 bits.
abbrev pub bit_not : ℕ → ℕ
bit_not x = 2 ^ 32 - 1 - x

-- The native operations stand for `digits`, whose fuel is the number itself: more is no different.
module _ (rest : ℕ → ℕ) (op : ℕ → ℕ → ℕ) where
  one_more : (x y fuel : ℕ) → x ≤ fuel → digits rest op (suc fuel) x y ≡ digits rest op fuel x y
  one_more zero y zero le = refl
  one_more zero y (suc fuel) le = refl
  one_more (suc x) y zero le = absurd (omega arith)
  one_more (suc x) y (suc fuel) le = rw (one_more (suc x / 2) (y / 2) fuel (omega arith)) refl

  more : (extra x y : ℕ) → digits rest op (extra + x) x y ≡ digits rest op x x y
  more zero x y = let e : 0 + x ≡ x = omega arith in rw e refl
  more (suc extra) x y =
      let e : suc extra + x ≡ suc (extra + x) = omega arith in
      rw e (one_more x y (extra + x) (omega arith) ∙ more extra x y)

  enough : (fuel x y : ℕ) → x ≤ fuel → digits rest op fuel x y ≡ digits rest op x x y
  enough fuel x y le = let e : fuel - x + x ≡ fuel = omega arith in rw e at (more (fuel - x) x y)

-- The lowest digit and the digits above it.
bit_or_step : (x y : ℕ) → bit_or x y ≡ max (x % 2) (y % 2) + 2 * bit_or (x / 2) (y / 2)
bit_or_step zero y = rw (bit_or-bitwise 0 y, bit_or-bitwise 0 (y / 2)) (omega arith)
bit_or_step (suc x) y =
    let top = enough (λ t. t) max x (suc x / 2) (y / 2) (omega arith) in
    omega (arith, top, bit_or-bitwise (suc x / 2) (y / 2), bit_or-bitwise (suc x) y)

bit_and_step : (x y : ℕ) → bit_and x y ≡ min (x % 2) (y % 2) + 2 * bit_and (x / 2) (y / 2)
bit_and_step zero y = rw (bit_and-bitwise 0 y, bit_and-bitwise 0 (y / 2)) (omega arith)
bit_and_step (suc x) y =
    let top = enough (λ t. zero) min x (suc x / 2) (y / 2) (omega arith) in
    omega (arith, top, bit_and-bitwise (suc x / 2) (y / 2), bit_and-bitwise (suc x) y)

pub bit-le_one : (x k : ℕ) → bit x k ≤ 1
bit-le_one x zero = omega arith
bit-le_one x (suc k) = bit-le_one (x / 2) k

pub bit-zero : (k : ℕ) → bit 0 k ≡ 0
bit-zero zero = refl
bit-zero (suc k) = bit-zero k

pub bit-bit_and : (a b k : ℕ) → bit (bit_and a b) k ≡ min (bit a k) (bit b k)
bit-bit_and a b zero = omega (arith, bit_and_step a b)
bit-bit_and a b (suc k) =
    let halved : bit_and a b / 2 ≡ bit_and (a / 2) (b / 2) = omega (arith, bit_and_step a b) in
    rw halved (bit-bit_and (a / 2) (b / 2) k)

pub bit-bit_or : (a b k : ℕ) → bit (bit_or a b) k ≡ max (bit a k) (bit b k)
bit-bit_or a b zero = omega (arith, bit_or_step a b)
bit-bit_or a b (suc k) =
    let halved : bit_or a b / 2 ≡ bit_or (a / 2) (b / 2) = omega (arith, bit_or_step a b) in
    rw halved (bit-bit_or (a / 2) (b / 2) k)

bit-low_mask_sub : (w x k : ℕ) → x < 2 ^ w → k < w → bit (2 ^ w - 1 - x) k ≡ 1 - bit x k
bit-low_mask_sub zero x k h lt = absurd (omega arith)
bit-low_mask_sub (suc w) x zero h lt = omega (arith, pow-suc 2 w, one-le-pow w 2)
bit-low_mask_sub (suc w) x (suc k) h lt =
    let halved : (2 ^ suc w - 1 - x) / 2 ≡ 2 ^ w - 1 - x / 2 = omega (arith, pow-suc 2 w) in
    rw halved (bit-low_mask_sub w (x / 2) k (omega (arith, pow-suc 2 w)) (omega arith))

pub bit-bit_not : (x k : ℕ) → x < 2 ^ 32 → k < 32 → bit (bit_not x) k ≡ 1 - bit x k
bit-bit_not x k h lt = bit-low_mask_sub 32 x k h lt

-- Nothing is left under the empty mask.
bit_and-none : (w x : ℕ) → x < 2 ^ w → bit_and x 0 ≡ 0
bit_and-none zero x lt = let e : x ≡ 0 = omega arith in rw e refl
bit_and-none (suc w) x lt =
    omega (arith, bit_and-none w (x / 2) (omega (arith, pow-suc 2 w)), bit_and_step x 0)

lt_pow : (x : ℕ) → x < 2 ^ x
lt_pow zero = omega arith
lt_pow (suc x) = omega (arith, lt_pow x, pow-suc 2 x)

-- Masking by one bit tests that bit.
pub bit_and-pow : (x k : ℕ) → bit_and x (2 ^ k) ≡ bit x k * 2 ^ k
bit_and-pow x zero = omega (arith, bit_and_step x 1, bit_and-none (x / 2) (x / 2) (lt_pow (x / 2)))
bit_and-pow x (suc k) =
    let halved : 2 ^ suc k / 2 ≡ 2 ^ k = omega (arith, pow-suc 2 k) in
    let even : 2 ^ suc k % 2 ≡ 0 = omega (arith, pow-suc 2 k) in
    rw bit_and_step (
      rw (halved, even, bit_and-pow (x / 2) k)
        (omega (arith, ap (λ (t : ℕ). bit (x / 2) k * t) (pow-suc 2 k))))

-- Above its width a number has no digit.
pub bit_above : (w x k : ℕ) → x < 2 ^ w → w ≤ k → bit x k ≡ 0
bit_above zero x k h le = let e : x ≡ 0 = omega arith in rw e (bit-zero k)
bit_above (suc w) x zero h le = absurd (omega arith)
bit_above (suc w) x (suc k) h le = bit_above w (x / 2) k (omega (arith, pow-suc 2 w)) (omega arith)

-- The digits of a mask of w ones.
pub bit-low_mask : (w k : ℕ) → k < w → bit (2 ^ w - 1) k ≡ 1
bit-low_mask w k lt =
    let e : 2 ^ w - 1 ≡ 2 ^ w - 1 - 0 = omega arith in
    rw (e, bit-low_mask_sub w 0 k (omega (arith, one-le-pow w 2)) lt, bit-zero k) refl

pub bit_or-lt : (w a b : ℕ) → a < 2 ^ w → b < 2 ^ w → bit_or a b < 2 ^ w
bit_or-lt zero a b ha hb =
    let e : a ≡ 0 = omega arith in let e' : b ≡ 0 = omega arith in rw (e, e') (omega arith)
bit_or-lt (suc w) a b ha hb = omega (
  arith,
  bit_or_step a b,
  pow-suc 2 w,
  bit_or-lt w (a / 2) (b / 2) (omega (arith, pow-suc 2 w)) (omega (arith, pow-suc 2 w)),
)

pub bit_and-le : (w a b : ℕ) → a < 2 ^ w → bit_and a b ≤ a
bit_and-le zero a b ha = let e : a ≡ 0 = omega arith in rw e (omega (arith, bit_and-bitwise 0 b))
bit_and-le (suc w) a b ha =
    omega (arith, bit_and_step a b, bit_and-le w (a / 2) (b / 2) (omega (arith, pow-suc 2 w)))
