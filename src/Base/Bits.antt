-- ===== src/Base/Bits.antt =====
-- The bit operations at variables: one equation for the lowest digit of each, and what follows.
use Prim.Native.Nat.{
  ℕ, zero, suc, ◌+◌, ◌*◌, ◌/◌, ◌%◌, ◌^◌, ◌≤◌, ◌<◌, min, max, digits, bitwise, bit_and, bit_or,
  bit_xor, differ, bit_and-bitwise, bit_or-bitwise, bit_xor-bitwise,
}
use mathlib.Core.Path.{◌≡◌, refl, ap}
use native.Mathlib.Omega.{arith}
use native.Mathlib.Nat.{pow-suc, div-div-eq-div-mul}

-- The native operations mean a recursion on the digits whose fuel is the first operand.
-- Any fuel that covers it does as well.
digits-enough :
    (rest : ℕ → ℕ) (op : ℕ → ℕ → ℕ) (fuel more x y : ℕ)
    → x ≤ fuel
    → x ≤ more
    → digits rest op more x y ≡ digits rest op fuel x y
digits-enough rest op (suc fuel) (suc more) (suc x) y h k =
    rw (digits-enough rest op fuel more (suc x / 2) (y / 2) (omega arith) (omega arith))
digits-enough rest op (suc fuel) zero (suc x) y h k = absurd (omega arith)
digits-enough rest op zero more (suc x) y h k = absurd (omega arith)
digits-enough rest op (suc fuel) (suc more) zero y h k = refl
digits-enough rest op (suc fuel) zero zero y h k = refl
digits-enough rest op zero (suc more) zero y h k = refl
digits-enough rest op zero zero zero y h k = refl

-- One round of that recursion, at the fuel of the halves.
lowest_digit :
    (rest : ℕ → ℕ) (op : ℕ → ℕ → ℕ) (x y : ℕ)
    → bitwise rest op (suc x) y ≡ op (suc x % 2) (y % 2) + 2 * bitwise rest op (suc x / 2) (y / 2)
lowest_digit rest op x y =
    omega
      (arith, digits-enough rest op (suc x / 2) x (suc x / 2) (y / 2) (omega arith) (omega arith))

differ-mod : (a b : ℕ) → differ (a % 2) (b % 2) ≡ (a % 2 + b % 2) % 2
differ-mod a b = digit_cases (a % 2) (b % 2) (omega arith) (omega arith)
  where
    digit_cases : (x y : ℕ) → x < 2 → y < 2 → differ x y ≡ (x + y) % 2
    digit_cases zero zero h k = refl
    digit_cases zero (suc zero) h k = refl
    digit_cases (suc zero) zero h k = refl
    digit_cases (suc zero) (suc zero) h k = refl
    digit_cases (suc (suc x)) y h k = absurd (omega arith)
    digit_cases zero (suc (suc y)) h k = absurd (omega arith)
    digit_cases (suc zero) (suc (suc y)) h k = absurd (omega arith)

pub bit_xor_step : (a b : ℕ) → bit_xor a b ≡ bit_xor (a / 2) (b / 2) * 2 + (a % 2 + b % 2) % 2
bit_xor_step zero b = simp bit_xor-bitwise (omega arith)
bit_xor_step (suc a) b =
    simp bit_xor-bitwise (omega (arith, lowest_digit (λ d. d) differ a b, differ-mod (suc a) b))

pub bit_or_step : (x y : ℕ) → bit_or x y ≡ max (x % 2) (y % 2) + 2 * bit_or (x / 2) (y / 2)
bit_or_step (suc x) y = simp bit_or-bitwise (lowest_digit (λ d. d) max x y)
bit_or_step zero y = simp bit_or-bitwise (omega arith)

pub bit_and_step : (x y : ℕ) → bit_and x y ≡ min (x % 2) (y % 2) + 2 * bit_and (x / 2) (y / 2)
bit_and_step (suc x) y = simp bit_and-bitwise (lowest_digit (λ d. 0) min x y)
bit_and_step zero y = simp bit_and-bitwise (omega arith)

-- Exclusive or with the same number twice gives the first one back.
cancel_fuel : (n a b : ℕ) → a + b ≤ n → bit_xor (bit_xor a b) b ≡ a
cancel_fuel zero a b h =
    let a_zero : a ≡ 0 = omega arith in let b_zero : b ≡ 0 = omega arith in rw (a_zero, b_zero) refl
cancel_fuel (suc n) zero zero h = refl
cancel_fuel (suc n) a b h = omega (
  arith,
  bit_xor_step a b,
  bit_xor_step (bit_xor a b) b,
  ap (λ (x : ℕ). bit_xor x (b / 2)) (halved a b),
  cancel_fuel n (a / 2) (b / 2) (omega arith),
)
  where
    halved : (a b : ℕ) → bit_xor a b / 2 ≡ bit_xor (a / 2) (b / 2)
    halved a b = omega (arith, bit_xor_step a b)

pub bit_xor-bit_xor_right : (a b : ℕ) → bit_xor (bit_xor a b) b ≡ a
bit_xor-bit_xor_right a b = cancel_fuel (a + b) a b (omega arith)

pub bit_xor-parity : (a b : ℕ) → bit_xor a b % 2 ≡ (a % 2 + b % 2) % 2
bit_xor-parity a b = omega (arith, bit_xor_step a b)

pub bit_xor-lt : (k a b : ℕ) → a < 2 ^ k → b < 2 ^ k → bit_xor a b < 2 ^ k
bit_xor-lt zero a b p q =
    let a_zero : a ≡ 0 = omega arith in
    let b_zero : b ≡ 0 = omega arith in rw (a_zero, b_zero) (omega arith)
bit_xor-lt (suc k) a b p q = omega (
  arith,
  pow-suc 2 k,
  bit_xor_step a b,
  bit_xor-lt k (a / 2) (b / 2) (omega (arith, pow-suc 2 k)) (omega (arith, pow-suc 2 k)),
)

zero-bit_xor : (b : ℕ) → bit_xor 0 b ≡ b
zero-bit_xor b = bit_xor-bitwise 0 b

comm_fuel : (n a b : ℕ) → a + b ≤ n → bit_xor a b ≡ bit_xor b a
comm_fuel zero a b h =
    let a_zero : a ≡ 0 = omega arith in let b_zero : b ≡ 0 = omega arith in rw (a_zero, b_zero) refl
comm_fuel (suc n) zero zero h = refl
comm_fuel (suc n) a b h =
    omega (arith, bit_xor_step a b, bit_xor_step b a, comm_fuel n (a / 2) (b / 2) (omega arith))

pub bit_xor_comm : (a b : ℕ) → bit_xor a b ≡ bit_xor b a
bit_xor_comm a b = comm_fuel (a + b) a b (omega arith)

-- Numbers that differ are told apart after exclusive or with a third.
pub bit_xor_left_cancel : (a b c : ℕ) → bit_xor a c ≡ bit_xor b c → a ≡ b
bit_xor_left_cancel a b c e = cc (bit_xor-bit_xor_right a c, bit_xor-bit_xor_right b c)

pub bit_xor_right_cancel : (a b c : ℕ) → bit_xor a b ≡ bit_xor a c → b ≡ c
bit_xor_right_cancel a b c e = bit_xor_left_cancel b c a (cc (bit_xor_comm a b, bit_xor_comm a c))

pub bit_or-zero : (a : ℕ) → bit_or a 0 ≡ a
bit_or-zero a = zero_fuel a a (omega arith)
  where
    zero_fuel : (n a : ℕ) → a ≤ n → bit_or a 0 ≡ a
    zero_fuel zero zero h = refl
    zero_fuel zero (suc a) h = absurd (omega arith)
    zero_fuel (suc n) zero h = refl
    zero_fuel (suc n) (suc a) h =
        omega (arith, bit_or_step (suc a) 0, zero_fuel n (suc a / 2) (omega arith))

-- A number shifted by `k` bits and one that fits `k` bits share no digit.
pub bit_or-shifted : (k hi lo : ℕ) → lo < 2 ^ k → bit_or (hi * 2 ^ k) lo ≡ hi * 2 ^ k + lo
bit_or-shifted zero hi lo h =
    let lo_zero : lo ≡ 0 = omega arith in rw lo_zero (omega (arith, bit_or-zero (hi * 2 ^ 0)))
bit_or-shifted (suc k) hi lo h = ground (
  arith,
  pow-suc 2 k,
  ap (λ (t : ℕ). hi * t) (pow-suc 2 k),
  bit_or_step (hi * 2 ^ suc k) lo,
  bit_or-shifted k hi (lo / 2) (omega (arith, pow-suc 2 k)),
)

pub bit_and-zero : (a : ℕ) → bit_and a 0 ≡ 0
bit_and-zero a = zero_fuel a a (omega arith)
  where
    zero_fuel : (n a : ℕ) → a ≤ n → bit_and a 0 ≡ 0
    zero_fuel zero zero h = refl
    zero_fuel zero (suc a) h = absurd (omega arith)
    zero_fuel (suc n) zero h = refl
    zero_fuel (suc n) (suc a) h =
        omega (arith, bit_and_step (suc a) 0, zero_fuel n (suc a / 2) (omega arith))

-- Division by a power of two, one halving at a time.
div-pow-suc : (k a : ℕ) → a / 2 ^ suc k ≡ a / 2 / 2 ^ k
div-pow-suc k a =
    rw (div-div-eq-div-mul a 2 (2 ^ k)) (ap (λ (t : ℕ). a / t) (omega (arith, pow-suc 2 k)))

-- A mask with one bit set reads that bit.
pub bit_and-pow : (k a : ℕ) → bit_and a (2 ^ k) ≡ a / 2 ^ k % 2 * 2 ^ k
bit_and-pow zero a = omega (arith, bit_and_step a 1, bit_and-zero (a / 2))
bit_and-pow (suc k) a = ground (
  arith,
  pow-suc 2 k,
  div-pow-suc k a,
  bit_and_step a (2 ^ suc k),
  bit_and-pow k (a / 2),
  ap (λ (t : ℕ). a / 2 / 2 ^ k % 2 * t) (pow-suc 2 k),
)

-- The upper digits of an exclusive or.
pub bit_xor-div : (k a b : ℕ) → bit_xor a b / 2 ^ k ≡ bit_xor (a / 2 ^ k) (b / 2 ^ k)
bit_xor-div zero a b =
    let x : a / 2 ^ 0 ≡ a = omega arith in
    let y : b / 2 ^ 0 ≡ b = omega arith in rw (x, y) (omega arith)
bit_xor-div (suc k) a b =
    let halved : bit_xor a b / 2 ≡ bit_xor (a / 2) (b / 2) = omega (arith, bit_xor_step a b) in
    rw (div-pow-suc k (bit_xor a b), div-pow-suc k a, div-pow-suc k b, halved)
      (bit_xor-div k (a / 2) (b / 2))

pub bit_and-one : (a : ℕ) → bit_and a 1 ≡ a % 2
bit_and-one a = omega (arith, bit_and_step a 1, bit_and-zero (a / 2))
