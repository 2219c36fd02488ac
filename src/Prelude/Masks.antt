-- ===== src/Prelude/Masks.antt =====
-- Masks that keep the high bits of a word, as division by a power of two.
use Prim.Native.Nat.{ℕ, zero, suc, ◌+◌, ◌-◌, ◌*◌, ◌/◌, ◌%◌, ◌^◌, ◌≤◌, ◌<◌, bit_and}
use mathlib.Core.Logic.{inl, inr}
use xddp.Prelude.Tests.{◌==◌, eq→==, ==→eq, Bool-cases}
use mathlib.Core.Path.{◌≡◌, refl, ap, sym, ◌∙◌}
use native.Mathlib.Omega.{arith}
use native.Mathlib.Nat.{
  pow-suc, pow-succ', one-le-pow, pow-le-pow_right, div-div-eq-div-mul, add-mul-mod_self_right,
  mod-eq_of_lt, mul-div_cancel,
}
use xddp.Prelude.Bits.{split_and}

all_ones : (w a : ℕ) → a < 2 ^ w → bit_and a (2 ^ w - 1) ≡ a
all_ones zero zero h = refl
all_ones zero (suc a) h = absurd (omega arith)
all_ones (suc w) a h =
    let half : (2 ^ suc w - 1) / 2 ≡ 2 ^ w - 1 =
      omega (arith, pow-suc 2 w, one-le-pow w 2 (omega arith)) in
    let odd : (2 ^ suc w - 1) % 2 ≡ 1 = omega (arith, pow-suc 2 w, one-le-pow w 2 (omega arith)) in
    omega (
      arith,
      split_and (2 ^ suc w - 1) a,
      ap (bit_and (a / 2)) half,
      odd,
      all_ones w (a / 2) (omega (arith, pow-suc 2 w)),
    )

halved : (s a : ℕ) → a / 2 ^ suc s ≡ a / 2 / 2 ^ s
halved s a = rw (pow-succ' 2 s) (sym (div-div-eq-div-mul a 2 (2 ^ s)))

doubled : (t s : ℕ) → t * 2 ^ suc s ≡ t * 2 ^ s * 2
doubled t s = omega (arith, ap (λ (u : ℕ). t * u) (pow-suc 2 s))

-- The bits from the s-th on.
pub high_bits : (s w a : ℕ) → s ≤ w → a < 2 ^ w → bit_and a (2 ^ w - 2 ^ s) ≡ a / 2 ^ s * 2 ^ s
high_bits zero w a h k = all_ones w a k ∙ omega arith
high_bits (suc s) zero a h k = absurd (omega arith)
high_bits (suc s) (suc w) a h k =
    let less = pow-le-pow_right {n = 2} (omega arith) {i = s} {j = w} (omega arith) in
    let half : (2 ^ suc w - 2 ^ suc s) / 2 ≡ 2 ^ w - 2 ^ s =
      omega (arith, pow-suc 2 w, pow-suc 2 s, less) in
    let even : (2 ^ suc w - 2 ^ suc s) % 2 ≡ 0 = omega (arith, pow-suc 2 w, pow-suc 2 s, less) in
    let rest = high_bits s w (a / 2) (omega arith) (omega (arith, pow-suc 2 w)) in
    omega (
      arith,
      split_and (2 ^ suc w - 2 ^ suc s) a,
      ap (bit_and (a / 2)) half,
      even,
      rest,
      doubled (a / 2 ^ suc s) s,
      ap (λ (t : ℕ). t * 2 ^ s) (halved s a),
    )

turned : (p q : ℕ) → 1 ≤ q → q ≤ p → (p - 1) * q ≡ p - q + (q - 1) * p
turned zero q h k = absurd (omega arith)
turned (suc p) zero h k = absurd (omega arith)
turned (suc p) (suc q) h k =
    let p_back : suc p - 1 ≡ p = omega arith in
    let q_back : suc q - 1 ≡ q = omega arith in rw (p_back, q_back) (grind arith)

-- The shift of a word of ones leaves the high ones.
pub shifted_ones : (w s : ℕ) → s ≤ w → (2 ^ w - 1) * 2 ^ s % 2 ^ w ≡ 2 ^ w - 2 ^ s
shifted_ones w s h =
    let less = pow-le-pow_right {n = 2} (omega arith) {i = s} {j = w} h in
    let some = one-le-pow s 2 (omega arith) in
    rw (turned (2 ^ w) (2 ^ s) some less) (
      add-mul-mod_self_right (2 ^ w - 2 ^ s) (2 ^ s - 1) (2 ^ w)
      ∙ mod-eq_of_lt (omega (arith, less, some)))

-- A factor does not matter to a test of equality.
pub scaled : (a n q : ℕ) → 1 ≤ q → (n * q == a * q) ≡ (a == n)
scaled a n q h = elim (Bool-cases (a == n)) [
  | inl same ↦ rw (==→eq a n same) (eq→== _ _ refl ∙ sym (eq→== n n refl))
  | inr other ↦ elim (Bool-cases (n * q == a * q)) [
    | inr apart ↦ rw (other, apart)
    | inl equal ↦
        let n_back = mul-div_cancel n {n = q} h in
        let a_back = mul-div_cancel a {n = q} h in
        let both = ap (λ (t : ℕ). t / q) (==→eq (n * q) (a * q) equal) in
        absurd (ground (arith, other, sym n_back ∙ both ∙ a_back))
  ]
]
