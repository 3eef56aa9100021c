-- ===== src/Money/Nearest.antt =====
-- How far rounding moves a value.
use native.Mathlib.Nat.{div-add-mod', mod-lt, mul-le-mul_right}
use native.Mathlib.Numerals.{unary_clauses}
use native.Mathlib.Omega.{arith}
use peanut_pos.Base.{
  ℕ, suc, zero, ◌+◌, ◌*◌, ◌/◌, ◌%◌, ◌^◌, ◌≤◌, ◌<◌, ◌≡◌, refl, inl, inr, Bool, true, false,
  Bool-cases, ◌==◌, ltb, if◌then◌else◌,
}
use peanut_pos.Money.{
  RoundingMode, half_up, truncate, bankers, Decimal, magnitude, hundredfold, denominator,
  is_negative, with_sign, half_up_cents, truncate_cents, bankers_cents, Half, below, tie, above,
  cmp_half, to_even, round_scale_2,
}

pow-pos : (n : ℕ) → 0 < 10 ^ n
pow-pos zero = omega arith
pow-pos (suc n) = simp unary_clauses (omega (arith, pow-pos n))

-- The number of cents nearest to a quotient, up to half a cent.
abbrev pub IsNearest : ℕ → ℕ → ℕ → Type 0
IsNearest n m d = (2 * (n * d) ≤ 2 * m + d) × (2 * m ≤ 2 * (n * d) + d)

half_up-near : (m d : ℕ) → 0 < d → IsNearest ((2 * m + d) / (2 * d)) m d
half_up-near m d h =
    omega (arith, div-add-mod' (2 * m + d) (2 * d), mod-lt (2 * m + d) {m = 2 * d} (omega arith))

truncate-near : (m d : ℕ) → 0 < d → (m / d * d ≤ m) × (m < m / d * d + d)
truncate-near m d h = omega (arith, div-add-mod' m d, mod-lt m {m = d} h)

-- The fraction against one half.
abbrev Compares : Half → ℕ → ℕ → Type 0
Compares below frac d = 2 * frac < d
Compares tie frac d = 2 * frac ≡ d
Compares above frac d = d < 2 * frac

at_most : (q : ℕ) → ltb q 5 ≡ true → q ≤ 4
at_most q e = ground arith

at_least : (q : ℕ) → ltb q 5 ≡ false → (q == 5) ≡ false → 6 ≤ q
at_least q e f = ground arith

five_tie :
    (frac d q r : ℕ) → q * d + r ≡ frac * 10 → (q == 5) ≡ true → (r == 0) ≡ true → 2 * frac ≡ d
five_tie frac d q r h f g =
    let q5 : q ≡ 5 = ground arith in
    let r0 : r ≡ 0 = ground arith in
    let k : 5 * d + 0 ≡ frac * 10 = rw (← q5, ← r0) h in omega (arith, k)

five_above :
    (frac d q r : ℕ) → q * d + r ≡ frac * 10 → (q == 5) ≡ true → (r == 0) ≡ false → d < 2 * frac
five_above frac d q r h f g =
    let q5 : q ≡ 5 = ground arith in
    let rp : 0 < r = ground arith in let k : 5 * d + r ≡ frac * 10 = rw (← q5) h in omega (arith, k)

digits-Compares :
    (frac d : ℕ)
    → 0 < d
    → frac < d
    → Compares
        (if ltb (frac * 10 / d) 5
          then below
          else if frac * 10 / d == 5
          then (if frac * 10 % d == 0 then tie else above)
          else above)
        frac
        d
digits-Compares frac d h lt =
    let digits = div-add-mod' (frac * 10) d in
    let rest = mod-lt (frac * 10) {m = d} h in
    elim (Bool-cases (ltb (frac * 10 / d) 5)) [
      | inl e ↦ rw e (
          omega (
            arith,
            digits,
            rest,
            mul-le-mul_right {m = frac * 10 / d} {n = 4} d (at_most (frac * 10 / d) e),
          ))
      | inr e ↦ elim (Bool-cases (frac * 10 / d == 5)) [
        | inr f ↦
            rw (e, f)
              (omega (
                arith,
                digits,
                rest,
                mul-le-mul_right {m = 6} {n = frac * 10 / d} d (at_least (frac * 10 / d) e f),
              ))
        | inl f ↦ elim (Bool-cases (frac * 10 % d == 0)) [
          | inl g ↦ rw (e, f, g) (five_tie frac d (frac * 10 / d) (frac * 10 % d) digits f g)
          | inr g ↦ rw (e, f, g) (five_above frac d (frac * 10 / d) (frac * 10 % d) digits f g)
        ]
      ]
    ]

suc-ne : (n : ℕ) → (suc n == 0) ≡ false
suc-ne n = ground arith

succ_mul : (n d : ℕ) → (n + 1) * d ≡ n * d + d
succ_mul n d = omega arith

cmp_half-Compares :
    (scale frac : ℕ)
    → frac < 10 ^ scale
    → Compares (cmp_half scale frac (10 ^ scale)) frac (10 ^ scale)
unfolding cmp_half
cmp_half-Compares zero frac h = omega arith
cmp_half-Compares (suc s) frac h =
    rw (suc-ne s, cmp_half) (digits-Compares frac (10 ^ suc s) (pow-pos (suc s)) h)

-- A tie between two numbers of cents goes to the even one.
abbrev pub TieIsEven : ℕ → ℕ → ℕ → Type 0
TieIsEven n m d = 2 * (m % d) ≡ d → n % 2 ≡ 0

to_even-near :
    (m d : ℕ) (half : Half)
    → 0 < d
    → Compares half (m % d) d
    → IsNearest (to_even (m / d) half) m d × TieIsEven (to_even (m / d) half) m d
unfolding to_even
to_even-near m d below h c = (omega (arith, div-add-mod' m d, c), λ e. absurd (omega (arith, c, e)))
to_even-near m d above h c = (
  omega (arith, div-add-mod' m d, c, succ_mul (m / d) d, mod-lt m {m = d} h),
  λ e. absurd (omega (arith, c, e)),
)
to_even-near m d tie h c = elim (Bool-cases (m / d % 10 % 2 == 0)) [
  | inl e ↦ rw e (omega (arith, div-add-mod' m d, c), λ x. ground arith)
  | inr e ↦ rw e (omega (arith, div-add-mod' m d, c, succ_mul (m / d) d), λ x. ground arith)
]

-- What each mode promises of a number of cents, for a value of `m / d` cents.
abbrev pub Rounded : RoundingMode → ℕ → ℕ → ℕ → Type 0
Rounded half_up n m d = IsNearest n m d
Rounded truncate n m d = (n * d ≤ m) × (m < n * d + d)
Rounded bankers n m d = IsNearest n m d × TieIsEven n m d

magnitude-with_sign : (b : Bool) (n : ℕ) → magnitude (with_sign b n) ≡ n
magnitude-with_sign true n = ground arith
magnitude-with_sign false n = ground arith

-- Rounding to cents keeps the sign of a value, unless it becomes 0, and moves its magnitude by at most
-- half a cent in the half-up mode and in the bankers mode, where a tie goes to the even cent, and
-- towards zero by less than a cent in the truncating mode.
pub round_scale_2-Rounded :
    (mode : RoundingMode) (v : Decimal)
    → Rounded mode (magnitude (round_scale_2 mode v)) (hundredfold v) (denominator v)
      × (round_scale_2 mode v
          ≡ with_sign (is_negative v.coefficient) (magnitude (round_scale_2 mode v)))
unfolding round_scale_2 half_up_cents truncate_cents bankers_cents
round_scale_2-Rounded half_up v =
    rw (magnitude-with_sign (is_negative v.coefficient) (half_up_cents v))
      (half_up-near (hundredfold v) (denominator v) (pow-pos v.scale), refl)
round_scale_2-Rounded truncate v =
    rw (magnitude-with_sign (is_negative v.coefficient) (truncate_cents v))
      (truncate-near (hundredfold v) (denominator v) (pow-pos v.scale), refl)
round_scale_2-Rounded bankers v =
    rw (magnitude-with_sign (is_negative v.coefficient) (bankers_cents v)) (
      to_even-near (hundredfold v) (denominator v)
          (cmp_half v.scale (hundredfold v % denominator v) (denominator v)) (pow-pos v.scale)
          (cmp_half-Compares v.scale (hundredfold v % denominator v)
            (mod-lt (hundredfold v) {m = denominator v} (pow-pos v.scale))),
      refl,
    )
