-- ===== src/Base/Word.antt =====
-- 32-bit words as native numbers: wrap by `%`, and the bitwise operators read bit by bit.
use Prim.Native.Nat.{ℕ, zero, suc, ◌+◌, ◌-◌, ◌*◌, ◌/◌, ◌%◌, ◌^◌, ◌≤◌, ◌<◌, min, max}
use Prim.Native.Nat.{bit_and, bit_or, digits, bit_and-bitwise, bit_or-bitwise}
use mathlib.Core.Path.{◌≡◌, refl, sym, ap, ◌∙◌}
use native.Mathlib.Nat.{pow-suc, one-le-pow, add-mul-mod_self_right, mod-eq_of_lt}
use native.Mathlib.Omega.{arith}
use bbblack.Base.Int.{ℤ, pos, negsuc}
use bbblack.Base.Test.{◌==◌, ltb, if◌then◌else◌}

abbrev pub u32_mod : ℕ
u32_mod = 2 ^ 32

-- Unsigned subtraction. `-` on ℕ stops at 0, so the modulus is added first.
abbrev pub sub32 : ℕ → ℕ → ℕ
sub32 a b = (a + u32_mod - b) % u32_mod

-- The conversion of an `int` to `unsigned int`.
abbrev pub to_u32 : ℤ → ℕ
to_u32 (pos n) = n % u32_mod
to_u32 (negsuc n) = u32_mod - 1 - n % u32_mod

-- The conversion of an `unsigned int` to `int`.
abbrev pub to_int : ℕ → ℤ
to_int w = if ltb w (2 ^ 31) then pos w else negsuc (u32_mod - 1 - w)

-- The operator `~` at a width of `w` bits.
abbrev pub complement : ℕ → ℕ → ℕ
complement w x = 2 ^ w - 1 - x

-- Bit `i` of a word, 0 or 1.
abbrev pub bit : ℕ → ℕ → ℕ
bit x zero = x % 2
bit x (suc i) = bit (x / 2) i

pub bit-lt : (x i : ℕ) → bit x i < 2
bit-lt x zero = omega arith
bit-lt x (suc i) = bit-lt (x / 2) i

bit_of_zero : (i : ℕ) → bit 0 i ≡ 0
bit_of_zero zero = refl
bit_of_zero (suc i) = bit_of_zero i

-- An operation on digits acts on each bit by itself.
module _ (z : ℕ → ℕ) (f : ℕ → ℕ → ℕ) (f-lt : (x y : ℕ) → x < 2 → y < 2 → f x y < 2) where
  bit-digits :
      ((b i : ℕ) → bit (z b) i ≡ f 0 (bit b i))
      → (n a b i : ℕ) → a ≤ n
      → bit (digits z f n a b) i ≡ f (bit a i) (bit b i)
  bit-digits hz zero zero b i h = rw bit_of_zero (hz b i)
  bit-digits hz zero (suc a) b i h = absurd (omega arith)
  bit-digits hz (suc n) zero b i h = rw bit_of_zero (hz b i)
  bit-digits hz (suc n) (suc a) b zero h =
      omega (arith, f-lt (suc a % 2) (b % 2) (omega arith) (omega arith))
  bit-digits hz (suc n) (suc a) b (suc i) h =
      let half : (digits z f n (suc a / 2) (b / 2) * 2 + f (suc a % 2) (b % 2)) / 2
          ≡ digits z f n (suc a / 2) (b / 2) =
        omega (arith, f-lt (suc a % 2) (b % 2) (omega arith) (omega arith)) in
      rw half (bit-digits hz n (suc a / 2) (b / 2) i (omega arith))

pub bit-bit_and : (a b i : ℕ) → bit (bit_and a b) i ≡ min (bit a i) (bit b i)
bit-bit_and a b i = rw bit_and-bitwise (
    bit-digits (λ b. 0) min (λ x y p q. omega arith) (λ b i. rw bit_of_zero (omega arith)) a a b i
      (omega arith))

pub bit-bit_or : (a b i : ℕ) → bit (bit_or a b) i ≡ max (bit a i) (bit b i)
bit-bit_or a b i =
    rw bit_or-bitwise
      (bit-digits (λ b. b) max (λ x y p q. omega arith) (λ b i. omega arith) a a b i (omega arith))

pub bit-complement : (w x i : ℕ) → x < 2 ^ w → i < w → bit (complement w x) i ≡ 1 - bit x i
bit-complement zero x i hx hi = absurd (omega arith)
bit-complement (suc w) x zero hx hi = omega (arith, pow-suc 2 w, one-le-pow w 2)
bit-complement (suc w) x (suc i) hx hi =
    let half : complement (suc w) x / 2 ≡ complement w (x / 2) =
      omega (arith, pow-suc 2 w, one-le-pow w 2) in
    rw half (bit-complement w (x / 2) i (omega (arith, pow-suc 2 w)) (omega arith))

pub bit-pow : (k i : ℕ) → bit (2 ^ k) i ≡ (if k == i then 1 else 0)
bit-pow zero zero = ground arith
bit-pow zero (suc i) = bit_of_zero i ∙ ground arith
bit-pow (suc k) zero = grind (arith, pow-suc 2 k)
bit-pow (suc k) (suc i) =
    let half : 2 ^ suc k / 2 ≡ 2 ^ k = omega (arith, pow-suc 2 k) in
    rw half (bit-pow k i ∙ ground arith)

pub pow-lt : (w k : ℕ) → k < w → 2 ^ k < 2 ^ w
pow-lt zero k h = absurd (omega arith)
pow-lt (suc w) zero h = omega (arith, pow-suc 2 w, one-le-pow w 2)
pow-lt (suc w) (suc k) h = omega (arith, pow-suc 2 w, pow-suc 2 k, pow-lt w k (omega arith))

pub to_u32-to_int : (w : ℕ) → w < u32_mod → to_u32 (to_int w) ≡ w
to_u32-to_int w h = ground arith

mod_of_half : (k x : ℕ) → x / 2 % 2 ^ k * 2 + x % 2 ≡ x % 2 ^ suc k
mod_of_half k x =
    let m : ℕ = 2 ^ k * 2 in
    let q : ℕ = x / 2 / 2 ^ k in
    let r : ℕ = x / 2 % 2 ^ k * 2 + x % 2 in
    let split : x ≡ r + q * m = omega arith in
    let small : r < m = omega (arith, pow-suc 2 k, one-le-pow k 2) in
    rw (pow-suc 2 k)
      (sym (ap (λ y. y % m) split ∙ add-mul-mod_self_right r q m ∙ mod-eq_of_lt small))

-- `&` with a mask of the `k` low bits takes the remainder.
digits-mask : (n k a : ℕ) → a ≤ n → digits (λ b. 0) min n a (2 ^ k - 1) ≡ a % 2 ^ k
digits-mask zero k zero h = omega (arith, one-le-pow k 2)
digits-mask zero k (suc a) h = absurd (omega arith)
digits-mask (suc n) k zero h = omega (arith, one-le-pow k 2)
digits-mask (suc n) zero (suc a) h = omega (arith, digits-mask n zero (suc a / 2) (omega arith))
digits-mask (suc n) (suc k) (suc a) h =
    let half : (2 ^ suc k - 1) / 2 ≡ 2 ^ k - 1 = omega (arith, pow-suc 2 k, one-le-pow k 2) in
    let odd : (2 ^ suc k - 1) % 2 ≡ 1 = omega (arith, pow-suc 2 k, one-le-pow k 2) in
    rw half
      (rw odd (omega (arith, digits-mask n k (suc a / 2) (omega arith), mod_of_half k (suc a))))

pub bit_and-mask : (a k : ℕ) → bit_and a (2 ^ k - 1) ≡ a % 2 ^ k
bit_and-mask a k = rw bit_and-bitwise (digits-mask a k a (omega arith))
