-- ===== src/Probe/Ring.antt =====
-- The slots as a ring: `& mask` is the remainder by a power of two, and a walk of as many rounds as
-- there are slots passes every slot.
use Prim.Native.Nat.{digits, bit_and-bitwise}
use dpdk_wrapper_library.Base.{
  ℕ, zero, suc, ◌+◌, ◌-◌, ◌*◌, ◌/◌, ◌%◌, ◌≤◌, ◌<◌, ◌≡◌, refl, ◌∙◌, sym, min, bit_and, leb, arith,
  inl, inr, Bool-cases,
}
use dpdk_wrapper_library.Probe.{double_until, bit_ceil}

-- The powers of two
pub data Doubling : ℕ → Type 0 where
  once : Doubling 1
  twice : {n : ℕ} → Doubling n → Doubling (n * 2)

Doubling-positive : {n : ℕ} → Doubling n → 1 ≤ n
Doubling-positive once = omega arith
Doubling-positive (twice p) = omega (arith, Doubling-positive p)

abbrev low_digits : ℕ → ℕ → ℕ → ℕ
low_digits fuel a b = digits (λ _. zero) min fuel a b

-- Fuel beyond the first number changes nothing.
low_digits-fuel :
    (fuel fuel' a b : ℕ) → a ≤ fuel → a ≤ fuel' → low_digits fuel a b ≡ low_digits fuel' a b
low_digits-fuel fuel fuel' zero b h h' = low_digits-zero fuel b ∙ sym (low_digits-zero fuel' b)
  where
    low_digits-zero : (n c : ℕ) → low_digits n zero c ≡ 0
    low_digits-zero zero c = refl
    low_digits-zero (suc n) c = refl
low_digits-fuel zero fuel' (suc a) b h h' = absurd (omega arith)
low_digits-fuel (suc fuel) zero (suc a) b h h' = absurd (omega arith)
low_digits-fuel (suc fuel) (suc fuel') (suc a) b h h' =
    let rest = low_digits-fuel fuel fuel' (suc a / 2) (b / 2) (omega arith) (omega arith) in
    omega (arith, rest)

lowest_digit : (a b : ℕ) → bit_and a b ≡ bit_and (a / 2) (b / 2) * 2 + min (a % 2) (b % 2)
lowest_digit zero b = omega (arith, bit_and-bitwise 0 b, bit_and-bitwise 0 (b / 2))
lowest_digit (suc a) b =
    let half = low_digits-fuel a (suc a / 2) (suc a / 2) (b / 2) (omega arith) (omega arith) in
    omega (arith, half, bit_and-bitwise (suc a) b, bit_and-bitwise (suc a / 2) (b / 2))

-- What the mask does: a value below `n`, and on numbers below `n` nothing, and `n` itself wraps.
pub record Masks (n : ℕ) : Type 0 where
  pub below : (a : ℕ) → bit_and a (n - 1) < n
  pub same : (a : ℕ) → a < n → bit_and a (n - 1) ≡ a
  pub wraps : bit_and n (n - 1) ≡ 0

bit_and-zero : (n a : ℕ) → a ≤ n → bit_and a 0 ≡ 0
bit_and-zero n zero h = bit_and-bitwise 0 0
bit_and-zero zero (suc a) h = absurd (omega arith)
bit_and-zero (suc n) (suc a) h =
    omega (arith, lowest_digit (suc a) 0, bit_and-zero n (suc a / 2) (omega arith))

pub Doubling-Masks : {n : ℕ} → Doubling n → Masks n
Doubling-Masks once = record {
  below = λ a. omega (arith, bit_and-zero a a (omega arith));
  same = λ a h. omega (arith, bit_and-zero a a (omega arith));
  wraps = omega (arith, bit_and-zero 1 1 (omega arith));
}
Doubling-Masks (twice {n} p) =
    let m = Doubling-Masks p in
    let some_n = Doubling-positive p in
    let half : (n * 2 - 1) / 2 ≡ n - 1 = omega arith in
    let ones : (n * 2 - 1) % 2 ≡ 1 = omega arith in
    let step = λ (a : ℕ). lowest_digit a (n * 2 - 1) in
    let split : (a : ℕ) → bit_and a (n * 2 - 1) ≡ bit_and (a / 2) (n - 1) * 2 + min (a % 2) 1 =
      λ a. rw (half, ones) at (step a) in
    let twice_n : n * 2 / 2 ≡ n = omega arith in
    record {
      below = λ a. omega (arith, split a, m.below (a / 2));
      same = λ a h. omega (arith, split a, m.same (a / 2) (omega arith));
      wraps = omega (arith, rw twice_n at (split (n * 2)), m.wraps);
    }

-- The mask takes the remainder.
pub bit_and-remainder : {n : ℕ} → Doubling n → (a : ℕ) → (q : ℕ) × (bit_and a (n - 1) + q * n ≡ a)
bit_and-remainder once a = (a, omega (arith, bit_and-zero a a (omega arith)))
bit_and-remainder (twice {n} p) a =
    let (q, e) = bit_and-remainder p (a / 2) in
    let half : (n * 2 - 1) / 2 ≡ n - 1 = omega (arith, Doubling-positive p) in
    let ones : (n * 2 - 1) % 2 ≡ 1 = omega (arith, Doubling-positive p) in
    let split = rw (half, ones) at (lowest_digit a (n * 2 - 1)) in (q, grind (arith, e, split))

double_until-Doubling : (fuel n p : ℕ) → Doubling p → Doubling (double_until fuel n p)
unfolding double_until
double_until-Doubling zero n p d = d
double_until-Doubling (suc fuel) n p d = elim (Bool-cases (leb n p)) [
  | inl reached ↦ rw reached d
  | inr short ↦ rw short (double_until-Doubling fuel n (p * 2) (twice d))
]

pub bit_ceil-Doubling : (n : ℕ) → Doubling (bit_ceil n)
unfolding bit_ceil
bit_ceil-Doubling n = double_until-Doubling n n 1 once

double_until-reaches : (fuel n p : ℕ) → 1 ≤ p → n ≤ fuel + p → n ≤ double_until fuel n p
unfolding double_until
double_until-reaches zero n p some_p h = omega arith
double_until-reaches (suc fuel) n p some_p h = elim (Bool-cases (leb n p)) [
  | inl reached ↦ rw reached (ground arith)
  | inr short ↦ rw short (double_until-reaches fuel n (p * 2) (omega arith) (omega arith))
]

pub bit_ceil-reaches : (n : ℕ) → n ≤ bit_ceil n
unfolding bit_ceil
bit_ceil-reaches n = double_until-reaches n n 1 (omega arith) (omega arith)
