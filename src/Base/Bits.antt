-- ===== src/Base/Bits.antt =====
-- Facts about masks, checked by evaluation over a small range.
use Prim.Native.Nat.{
  ℕ, zero, suc, ◌+◌, ◌-◌, ◌*◌, ◌/◌, ◌%◌, ◌<◌, ◌≤◌, max, min, bit_or, bit_and, digits,
  bit_or-bitwise, bit_and-bitwise,
}
use mathlib.Core.Path.{◌≡◌, refl, sym, ap, ◌∙◌}
use mathlib.Core.Bool.{Bool, true, ◌&&◌}
use native.Mathlib.Omega.{arith}

unfoldable pub bytes_below : ℕ → (ℕ → Bool) → Bool
bytes_below zero p = true
bytes_below (suc n) p = p n && bytes_below n p

pub bytes_below_sound : (n : ℕ) (p : ℕ → Bool) (x : ℕ) → bytes_below n p ≡ true → x < n → p x ≡ true
unfolding bytes_below
bytes_below_sound zero p x h lt = absurd (omega arith)
bytes_below_sound (suc n) p x h lt = ground (arith, bytes_below_sound n p x)

-- The digit recursion that the native operations stand for does not depend on its count of rounds.
module _ (z : ℕ → ℕ) (f : ℕ → ℕ → ℕ) where
  digits-rounds : (m n a b : ℕ) → a ≤ m → a ≤ n → digits z f m a b ≡ digits z f n a b
  digits-rounds m n zero b hm hn = digits-nothing m b ∙ sym (digits-nothing n b)
    where
      digits-nothing : (k b : ℕ) → digits z f k 0 b ≡ z b
      digits-nothing zero b = refl
      digits-nothing (suc k) b = refl
  digits-rounds zero n (suc a) b hm hn = absurd (omega arith)
  digits-rounds (suc m) zero (suc a) b hm hn = absurd (omega arith)
  digits-rounds (suc m) (suc n) (suc a) b hm hn =
      ap (λ t. t * 2 + f (suc a % 2) (b % 2))
        (digits-rounds m n (suc a / 2) (b / 2) (omega arith) (omega arith))

-- `|` and `&` of two numbers, by their last digits.
bit_or-halves : (a b : ℕ) → bit_or a b ≡ bit_or (a / 2) (b / 2) * 2 + max (a % 2) (b % 2)
bit_or-halves zero b = omega (arith, bit_or-bitwise 0 b, bit_or-bitwise 0 (b / 2))
bit_or-halves (suc a) b = omega (
  arith,
  bit_or-bitwise (suc a) b,
  bit_or-bitwise (suc a / 2) (b / 2),
  digits-rounds (λ b. b) max a (suc a / 2) (suc a / 2) (b / 2) (omega arith) (omega arith),
)

bit_and-halves : (a b : ℕ) → bit_and a b ≡ bit_and (a / 2) (b / 2) * 2 + min (a % 2) (b % 2)
bit_and-halves zero b = omega (arith, bit_and-bitwise 0 b, bit_and-bitwise 0 (b / 2))
bit_and-halves (suc a) b = omega (
  arith,
  bit_and-bitwise (suc a) b,
  bit_and-bitwise (suc a / 2) (b / 2),
  digits-rounds (λ b. 0) min a (suc a / 2) (suc a / 2) (b / 2) (omega arith) (omega arith),
)

-- `2 ^ k`, by doubling.
abbrev pub pow2 : ℕ → ℕ
pow2 zero = 1
pow2 (suc k) = pow2 k + pow2 k

or_nothing : (n a : ℕ) → a ≤ n → bit_or a 0 ≡ a
or_nothing zero a h = let e : a ≡ 0 = omega arith in rw e
or_nothing (suc n) zero h = refl
or_nothing (suc n) (suc a) h =
    omega (arith, bit_or-halves (suc a) 0, or_nothing n (suc a / 2) (omega arith))

and_nothing : (n a : ℕ) → a ≤ n → bit_and a 0 ≡ 0
and_nothing zero a h = let e : a ≡ 0 = omega arith in rw e
and_nothing (suc n) zero h = refl
and_nothing (suc n) (suc a) h =
    omega (arith, bit_and-halves (suc a) 0, and_nothing n (suc a / 2) (omega arith))

-- A field above `k` digits joined by `|` to one of `k` digits is a sum.
pub bit_or_sum : (k q r : ℕ) → r < pow2 k → bit_or (q * pow2 k) r ≡ q * pow2 k + r
bit_or_sum zero q r h =
    let e : r ≡ 0 = omega arith in
    let e' : q * 1 ≡ q = omega arith in rw (e, e', or_nothing q q (omega arith)) (omega arith)
bit_or_sum (suc k) q r h =
    let e : q * (pow2 k + pow2 k) ≡ 2 * (q * pow2 k) = grind arith in
    omega (
      arith,
      e,
      bit_or-halves (q * (pow2 k + pow2 k)) r,
      ap (λ (t : ℕ). bit_or t (r / 2)) half,
      bit_or_sum k q (r / 2) (omega arith),
    )
  where
    half : q * (pow2 k + pow2 k) / 2 ≡ q * pow2 k
    half = let e : q * (pow2 k + pow2 k) ≡ 2 * (q * pow2 k) = grind arith in omega (arith, e)

pow2-pos : (k : ℕ) → 1 ≤ pow2 k
pow2-pos zero = omega arith
pow2-pos (suc k) = omega (arith, pow2-pos k)

-- A mask of `k` low digits keeps them and drops what stands above.
pub bit_and_low : (k q r : ℕ) → r < pow2 k → bit_and (q * pow2 k + r) (pow2 k - 1) ≡ r
bit_and_low zero q r h =
    let e : q * 1 + r ≡ q = omega arith in rw e (and_nothing q q (omega arith) ∙ omega arith)
bit_and_low (suc k) q r h =
    let e : q * (pow2 k + pow2 k) ≡ 2 * (q * pow2 k) = grind arith in
    let p : 1 ≤ pow2 k = pow2-pos k in
    let m : (pow2 k + pow2 k - 1) / 2 ≡ pow2 k - 1 = omega arith in
    let a : (q * (pow2 k + pow2 k) + r) / 2 ≡ q * pow2 k + r / 2 = omega (arith, e) in
    omega (
      arith,
      e,
      p,
      bit_and-halves (q * (pow2 k + pow2 k) + r) (pow2 k + pow2 k - 1),
      ap (λ (t : ℕ). bit_and t ((pow2 k + pow2 k - 1) / 2)) a,
      ap (bit_and (q * pow2 k + r / 2)) m,
      bit_and_low k q (r / 2) (omega arith),
    )
