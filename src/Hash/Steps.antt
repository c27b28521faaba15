-- ===== src/Hash/Steps.antt =====
-- a.yanin/common/collections.hash/include/common/collections/hash.h: the arithmetic of a probe. Steps of an
-- odd length, modulo a power of two, come to every slot.
use posix_threads.Common.{
  ℕ, zero, suc, ◌+◌, ◌*◌, ◌/◌, ◌%◌, ◌<◌, ◌≡◌, sym, ap, ◌∙◌, ◌⊎◌, inl, inr, arith, ℕ_discrete,
}
use native.Mathlib.Nat.{mul_comm, mul_assoc, add-mul-mod_self_right, mod-eq_of_lt, div-add-mod}

abbrev pub power_of_two : ℕ → ℕ
power_of_two zero = 1
power_of_two (suc k) = 2 * power_of_two k

-- The numbers differ by a multiple of `n`.
record Congruent (n a b : ℕ) : Type 0 where
  up : ℕ
  down : ℕ
  same : a + up * n ≡ b + down * n

-- a number that is twice another, or one more
record Halved (n : ℕ) : Type 0 where
  half : ℕ
  odd : ℕ
  bit : odd < 2
  sum : n ≡ 2 * half + odd

halved : (n : ℕ) → Halved n
halved n = record { half = n / 2; odd = n % 2; bit = omega arith; sum = omega arith }

double : (h o n : ℕ) → (2 * h + o) * n ≡ h * (2 * n) + o * n
double h o n = grind arith

pub spread : (a b n : ℕ) → (a + b) * n ≡ a * n + b * n
spread a b n = grind arith

times : {m : ℕ} (x : Halved m) (n : ℕ) → m * n ≡ x.half * (2 * n) + x.odd * n
times x n = ap (λ u. u * n) x.sum ∙ double x.half x.odd n

-- A half turn of an odd number of steps moves by half the size.
half_turn : (step : ℕ) → step % 2 ≡ 1 → (m : ℕ) × ((n : ℕ) → n * step ≡ m * (2 * n) + n)
half_turn step odd = (
  step / 2,
  λ n.
      let s : step ≡ 2 * (step / 2) + 1 = omega arith in
      let p : n * step ≡ (2 * (step / 2) + 1) * n = mul_comm n step ∙ ap (λ u. u * n) s in
      p ∙ double (step / 2) 1 n ∙ omega arith,
)

-- One bit more of the target is met at `j`, or a half turn later.
next_bit :
    (n i t j step : ℕ)
    → step % 2 ≡ 1
    → Congruent n (i + j * step) t
    → (Congruent (2 * n) (i + j * step) t) ⊎ (Congruent (2 * n) (i + (j + n) * step) t)
next_bit n i t j step odd h =
    let x = halved h.up in
    let y = halved h.down in
    let (m, turn) = half_turn step odd in
    let far = spread j n step in
    elim (ℕ_discrete x.odd y.odd) [
      | yes even ↦ inl (record {
        up = x.half;
        down = y.half;
        same = omega (arith, times x n, times y n, ap (λ u. u * n) even, h.same);
      })
      | no other ↦ elim (ℕ_discrete x.odd 1) [
        | yes more ↦
            let low : y.odd ≡ 0 = omega (arith, x.bit, y.bit) in
            inr (record {
              up = x.half;
              down = y.half + m;
              same = omega (
                arith,
                times x n,
                times y n,
                ap (λ u. u * n) more,
                ap (λ u. u * n) low,
                h.same,
                far,
                turn n,
                spread y.half m (2 * n),
              );
            })
        | no less ↦
            let low : x.odd ≡ 0 = omega (arith, x.bit) in
            let high : y.odd ≡ 1 = omega (arith, x.bit, y.bit) in
            inr (record {
              up = x.half;
              down = y.half + (m + 1);
              same = omega (
                arith,
                times x n,
                times y n,
                ap (λ u. u * n) low,
                ap (λ u. u * n) high,
                h.same,
                far,
                turn n,
                spread y.half (m + 1) (2 * n),
                spread m 1 (2 * n),
              );
            })
      ]
    ]

covers :
    (k i t step : ℕ)
    → step % 2 ≡ 1
    → (j : ℕ) × (j < power_of_two k) × Congruent (power_of_two k) (i + j * step) t
covers zero i t step odd = (0, omega arith, record { up = t; down = i; same = omega arith })
covers (suc k) i t step odd =
    let (j, below, h) = covers k i t step odd in
    elim (next_bit (power_of_two k) i t j step odd h) [
      | inl near ↦ (j, omega arith, near)
      | inr far ↦ (j + power_of_two k, omega arith, far)
    ]

Congruent-mod : (n a b : ℕ) → b < n → Congruent n a b → a % n ≡ b
Congruent-mod n a b small h =
    sym (add-mul-mod_self_right a h.up n)
    ∙ ap (λ u. u % n) h.same
    ∙ add-mul-mod_self_right b h.down n
    ∙ mod-eq_of_lt small

pub offset_odd : (k second : ℕ) → second % 2 ≡ 1 → (second % power_of_two (suc k)) % 2 ≡ 1
offset_odd k second odd =
    let c = power_of_two (suc k) in
    let split : c * (second / c) + second % c ≡ second = div-add-mod second c in
    let even : c * (second / c) ≡ 2 * (power_of_two k * (second / c)) =
      mul_assoc 2 (power_of_two k) (second / c) in
    omega (arith, split, even)

pub covers_mod :
    (c k start t step : ℕ)
    → c ≡ power_of_two k
    → t < c
    → step % 2 ≡ 1
    → (j : ℕ) × (j < c) × ((start + j * step) % c ≡ t)
covers_mod c k start t step e inside odd =
    let (j, left, cong) = covers k start t step odd in
    (j, omega (arith, left, e), Congruent-mod c (start + j * step) t inside (rw e cong))
