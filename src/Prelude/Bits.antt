-- ===== src/Prelude/Bits.antt =====
-- `x & (x - 1)` clears the lowest bit of `x`: it is zero exactly for the powers of two.
use Prim.Native.Nat.{
  ℕ, zero, suc, ◌+◌, ◌-◌, ◌*◌, ◌/◌, ◌%◌, ◌^◌, ◌≤◌, ◌<◌, min, bit_and, digits, bit_and-bitwise,
}
use mathlib.Core.Path.{◌≡◌, refl, ◌∙◌, sym}
use mathlib.Core.Logic.{◌↔◌, ◌⊎◌, inl, inr}
use native.Mathlib.Nat.{two-pow-succ, one-le-pow}
use native.Mathlib.Omega.{arith}

-- Any bound on the digits of the first number gives the same conjunction.
same_digits : (a b m n : ℕ) → a ≤ m → a ≤ n → digits (λ _. 0) min m a b ≡ digits (λ _. 0) min n a b
same_digits zero b zero zero hm hn = refl
same_digits zero b zero (suc n) hm hn = refl
same_digits zero b (suc m) zero hm hn = refl
same_digits zero b (suc m) (suc n) hm hn = refl
same_digits (suc a) b zero n hm hn = absurd (omega arith)
same_digits (suc a) b (suc m) zero hm hn = absurd (omega arith)
same_digits (suc a) b (suc m) (suc n) hm hn =
    omega (arith, same_digits (suc a / 2) (b / 2) m n (omega arith) (omega arith))

zero-and : (b : ℕ) → bit_and 0 b ≡ 0
zero-and b = bit_and-bitwise 0 b

-- The lowest digit, and the rest.
and_low : (a b : ℕ) → bit_and a b ≡ 2 * bit_and (a / 2) (b / 2) + min (a % 2) (b % 2)
and_low zero b = omega (arith, zero-and b, zero-and (b / 2))
and_low (suc a) b =
    let half = suc a / 2 in
    omega (
      arith,
      bit_and-bitwise (suc a) b,
      bit_and-bitwise half (b / 2),
      same_digits half (b / 2) a half (omega arith) (omega arith),
    )

-- `bound` limits the recursion on halves.
and_self : (bound n : ℕ) → n ≤ bound → bit_and n n ≡ n
and_self bound zero h = zero-and 0
and_self zero (suc n) h = absurd (omega arith)
and_self (suc bound) (suc n) h =
    omega (arith, and_low (suc n) (suc n), and_self bound (suc n / 2) (omega arith))

and_pred-even : (m : ℕ) → 0 < m → bit_and (2 * m) (2 * m - 1) ≡ 2 * bit_and m (m - 1)
and_pred-even m h =
    let e₁ : 2 * m / 2 ≡ m = omega arith in
    let e₂ : (2 * m - 1) / 2 ≡ m - 1 = omega arith in
    and_low (2 * m) (2 * m - 1) ∙ rw (e₁, e₂) (omega arith)

and_pred-odd : (m : ℕ) → bit_and (2 * m + 1) (2 * m) ≡ 2 * m
and_pred-odd m =
    let e₁ : (2 * m + 1) / 2 ≡ m = omega arith in
    let e₂ : 2 * m / 2 ≡ m = omega arith in
    and_low (2 * m + 1) (2 * m) ∙ rw (e₁, e₂) (omega (arith, and_self m m (omega arith)))

parity : (n : ℕ) → ((m : ℕ) × (n ≡ 2 * m)) ⊎ ((m : ℕ) × (n ≡ 2 * m + 1))
parity zero = inl (0, refl)
parity (suc n) = elim (parity n) [
  | inl (m, e) ↦ inr (m, omega arith)
  | inr (m, e) ↦ inl (m + 1, omega arith)
]

power_of_and_pred :
    (bound n : ℕ) → n ≤ bound → 0 < n → bit_and n (n - 1) ≡ 0 → (k : ℕ) × (n ≡ 2 ^ k)
power_of_and_pred zero n h p e = absurd (omega arith)
power_of_and_pred (suc bound) n h p e = elim (parity n) [
  | inl (m, even) ↦
      let half : bit_and m (m - 1) ≡ 0 =
        omega (arith, and_pred-even m (omega arith), rw even at e) in
      let (k, pow) = power_of_and_pred bound m (omega arith) (omega arith) half in
      (suc k, omega (arith, two-pow-succ k))
  | inr (m, odd) ↦
      let pred : n - 1 ≡ 2 * m = omega arith in
      let none_left : 2 * m ≡ 0 = sym (and_pred-odd m) ∙ (rw (pred, odd) at e) in (0, omega arith)
]

and_pred-pow : (k : ℕ) → bit_and (2 ^ k) (2 ^ k - 1) ≡ 0
and_pred-pow zero = refl
and_pred-pow (suc k) =
    let double : 2 ^ suc k ≡ 2 * 2 ^ k = omega (arith, two-pow-succ k) in
    rw double (omega (arith, and_pred-even (2 ^ k) (one-le-pow k 2 (omega arith)), and_pred-pow k))

-- A positive number is a power of two exactly when it has no bit in common with its predecessor.
pub and_pred_iff : (n : ℕ) → 0 < n → (bit_and n (n - 1) ≡ 0) ↔ ((k : ℕ) × (n ≡ 2 ^ k))
and_pred_iff n p = (power_of_and_pred n n (omega arith) p, λ w. rw w.1 (and_pred-pow w.0))
