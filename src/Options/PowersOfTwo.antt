-- ===== src/Options/PowersOfTwo.antt =====
-- The test `(n & (n - 1)) == 0` of src/config.c. A positive `int` has 31 bits.
use iq_tool.Prelude.{
  ℕ, zero, suc, ◌+◌, ◌-◌, ◌*◌, ◌/◌, ◌%◌, ◌^◌, ◌<◌, ◌≡◌, ◌↔◌, refl, inl, inr, Bool, true, arith,
  ◌==◌, subst, Bool-cases, ==→eq, ==→ne, eq→==,
}

-- `&`, bit by bit from the lowest.
unfoldable pub bit_and : ℕ → ℕ → ℕ → ℕ
bit_and zero a b = 0
bit_and (suc bits) a b = (a % 2) * (b % 2) + 2 * bit_and bits (a / 2) (b / 2)

unfoldable pub is_power_of_two : ℕ → Bool
is_power_of_two n = bit_and 31 n (n - 1) == 0

bit_squared : (r : ℕ) → r < 2 → r * r ≡ r
bit_squared zero h = omega arith
bit_squared (suc zero) h = omega arith
bit_squared (suc (suc r)) h = absurd (omega arith)

bits_apart : (r s : ℕ) → r + s ≡ 1 → r * s ≡ 0
bits_apart zero s h = omega arith
bits_apart (suc zero) zero h = omega arith
bits_apart (suc zero) (suc s) h = absurd (omega arith)
bits_apart (suc (suc r)) s h = absurd (omega arith)

bit_and_same : (bits a : ℕ) → a < 2 ^ bits → bit_and bits a a ≡ a
unfolding bit_and
bit_and_same zero a h = omega arith
bit_and_same (suc bits) a h =
    let e = bit_and_same bits (a / 2) (omega arith) in
    omega (arith, e, bit_squared (a % 2) (omega arith))

-- Of two neighbours, the greater one even.
bit_and_even :
    (bits n : ℕ)
    → 0 < n
    → n % 2 ≡ 0
    → bit_and (suc bits) n (n - 1) ≡ 2 * bit_and bits (n / 2) (n / 2 - 1)
unfolding bit_and
bit_and_even bits n pos even =
    let e : (n - 1) / 2 ≡ n / 2 - 1 = omega arith in
    let f = bits_apart (n % 2) ((n - 1) % 2) (omega arith) in rw f (rw e (omega arith))

bit_and_odd : (bits n : ℕ) → n < 2 ^ suc bits → n % 2 ≡ 1 → bit_and (suc bits) n (n - 1) ≡ n - 1
unfolding bit_and
bit_and_odd bits n h odd =
    let e : (n - 1) / 2 ≡ n / 2 = omega arith in
    let f = bits_apart (n % 2) ((n - 1) % 2) (omega arith) in
    let g = bit_and_same bits (n / 2) (omega arith) in rw f (rw e (rw g (omega arith)))

one_power : (k : ℕ) → (2 ^ k) % 2 ≡ 1 → 2 ^ k ≡ 1
one_power zero h = refl
one_power (suc k) h = absurd (omega arith)

half_power : (n k : ℕ) → 0 < n → n % 2 ≡ 0 → n ≡ 2 ^ k → (j : ℕ) × (n / 2 ≡ 2 ^ j)
half_power n zero pos even e = absurd (omega arith)
half_power n (suc k) pos even e = (k, omega arith)

bit_and-power :
    (bits n : ℕ) → 0 < n → n < 2 ^ bits → (bit_and bits n (n - 1) ≡ 0) ↔ ((k : ℕ) × (n ≡ 2 ^ k))
bit_and-power zero n pos h = absurd (omega arith)
bit_and-power (suc bits) n pos h = elim (Bool-cases (n % 2 == 0)) [
  | inl z ↦
      let even = ==→eq (n % 2) 0 z in
      let half = bit_and-power bits (n / 2) (omega (arith, even)) (omega arith) in
      let step = bit_and_even bits n pos even in
      (
        λ e. let (k, f) = half.0 (omega (arith, step, e)) in (suc k, omega (arith, f, even)),
        λ (k, f). let g = half.1 (half_power n k pos even f) in omega (arith, step, g),
      )
  | inr z ↦
      let odd : n % 2 ≡ 1 = omega (arith, ==→ne (n % 2) 0 z) in
      let step = bit_and_odd bits n h odd in
      (
        λ e. (0, omega (arith, step, e)),
        λ (k, f). let g = one_power k (subst (λ m. m % 2 ≡ 1) f odd) in omega (arith, step, f, g),
      )
]

-- A positive `int` passes the test exactly if it is a power of two.
pub is_power_of_two_iff :
    (n : ℕ) → 0 < n → n < 2 ^ 31 → (is_power_of_two n ≡ true) ↔ ((k : ℕ) × (n ≡ 2 ^ k))
unfolding is_power_of_two
is_power_of_two_iff n pos h =
    let same = bit_and-power 31 n pos h in
    (λ e. same.0 (==→eq (bit_and 31 n (n - 1)) 0 e), λ p. eq→== (bit_and 31 n (n - 1)) 0 (same.1 p))
