-- ===== src/Money.antt =====
-- services/common/money/src/lib.rs: rounding and the type Money. A BigDecimal is its coefficient and
-- its scale, the number of decimal places, and is taken to print in plain notation; a Money, whose scale
-- is always 2, is its number of cents. The comparison by floats and the encodings of other crates are
-- left out. `trim` and `to_ascii_lowercase` stand for the text functions of Rust's standard library.
pub mod Nearest
pub mod Cents
mod Tests
use text.Mathlib.Text.{◌==◌ as str_eq}
use peanut_pos.Base.{
  ℕ, String, ◌+◌, ◌*◌, ◌/◌, ◌%◌, ◌^◌, Bool, ◌||◌, Option, none, some, List, [], ◌∷◌, ◌==◌, ltb,
  if◌then◌else◌,
}
use peanut_pos.Base.Int.{ℤ, pos, sub_ℕ, pos_part, neg_part, ◌+ℤ◌, ◌-ℤ◌, ◌*ℤ◌, ltb_ℤ, wrap64}

pub data RoundingMode : Type 0 where
  half_up truncate bankers : RoundingMode

module _ (trim to_ascii_lowercase : String → String) where
  unfoldable pub parse : String → Option RoundingMode
  parse s =
      let t = to_ascii_lowercase (trim s) in
      if str_eq t "halfup" || str_eq t "half-up" || str_eq t "half_up"
      then some half_up
      else if str_eq t "truncate" || str_eq t "trunc"
      then some truncate
      else if str_eq t "bankers"
          || str_eq t "banker"
          || str_eq t "half-even"
          || str_eq t "halfeven"
          || str_eq t "half_even"
      then some bankers
      else none

  -- The mode that is set stays; else it is read from the environment, with half-up as the fallback.
  -- The second component is the new content of the cell.
  unfoldable pub init_rounding_mode_from_env :
      Option String → Option RoundingMode → RoundingMode × Option RoundingMode
  unfolding parse
  init_rounding_mode_from_env raw cell = elim cell [
    | some mode ↦ (mode, some mode)
    | none ↦
        let selected : RoundingMode = elim raw [
          | none ↦ half_up
          | some val ↦ elim (parse val) [ none ↦ half_up | some m ↦ m ]
        ] in
        (selected, some selected)
  ]

pub record Decimal : Type 0 where
  pub coefficient : ℤ
  pub scale : ℕ

abbrev pub magnitude : ℤ → ℕ
magnitude z = pos_part z + neg_part z

-- The value in cents is the quotient of these two, with the sign of the coefficient.
abbrev pub hundredfold : Decimal → ℕ
hundredfold v = magnitude v.coefficient * 100

abbrev pub denominator : Decimal → ℕ
denominator v = 10 ^ v.scale

abbrev pub is_negative : ℤ → Bool
is_negative z = ltb_ℤ z (pos 0)

abbrev pub with_sign : Bool → ℕ → ℤ
with_sign negative n = if negative then sub_ℕ 0 n else pos n

-- The integer part of the value in cents and one half.
unfoldable pub half_up_cents : Decimal → ℕ
half_up_cents v = (2 * hundredfold v + denominator v) / (2 * denominator v)

unfoldable pub truncate_cents : Decimal → ℕ
truncate_cents v = hundredfold v / denominator v

pub data Half : Type 0 where
  below tie above : Half

-- The comparison of the fraction with one half, by its first digit and whether the others are zero.
unfoldable pub cmp_half : ℕ → ℕ → ℕ → Half
cmp_half scale frac d =
    if scale == 0
    then below
    else if ltb (frac * 10 / d) 5
    then below
    else if frac * 10 / d == 5
    then (if frac * 10 % d == 0 then tie else above)
    else above

unfoldable pub to_even : ℕ → Half → ℕ
to_even n below = n
to_even n above = n + 1
to_even n tie = if n % 10 % 2 == 0 then n else n + 1

unfoldable pub bankers_cents : Decimal → ℕ
unfolding cmp_half to_even
bankers_cents v =
    to_even (hundredfold v / denominator v)
      (cmp_half v.scale (hundredfold v % denominator v) (denominator v))

unfoldable pub round_scale_2 : RoundingMode → Decimal → ℤ
unfolding half_up_cents truncate_cents bankers_cents
round_scale_2 half_up v = with_sign (is_negative v.coefficient) (half_up_cents v)
round_scale_2 truncate v = with_sign (is_negative v.coefficient) (truncate_cents v)
round_scale_2 bankers v = with_sign (is_negative v.coefficient) (bankers_cents v)

-- `Money::new`, in cents.
unfoldable pub new : RoundingMode → Decimal → ℤ
unfolding round_scale_2
new mode v = round_scale_2 mode v

unfoldable pub from_cents : RoundingMode → ℤ → ℤ
unfolding new
from_cents mode cents = new mode (record { coefficient = cents; scale = 2 })

unfoldable pub from_major_minor : RoundingMode → ℤ → ℤ → ℤ
unfolding new
from_major_minor mode major minor =
    new mode (record { coefficient = major *ℤ pos 100 +ℤ minor; scale = 2 })

-- The sign, the whole part and the two decimals are read off the printed value, in i64.
unfoldable pub as_cents : ℤ → ℤ
as_cents m =
    let minor = magnitude m % 100 in
    let major = magnitude m / 100 in
    wrap64 (with_sign (is_negative m) 1 *ℤ wrap64 (pos (major * 100 + minor)))

unfoldable pub add : RoundingMode → ℤ → ℤ → ℤ
unfolding new
add mode a b = new mode (record { coefficient = a +ℤ b; scale = 2 })

unfoldable pub sub : RoundingMode → ℤ → ℤ → ℤ
unfolding new
sub mode a b = new mode (record { coefficient = a -ℤ b; scale = 2 })

unfoldable pub mul : RoundingMode → ℤ → ℤ → ℤ
unfolding new
mul mode a k = new mode (record { coefficient = a *ℤ k; scale = 2 })

unfoldable pub sum_from : RoundingMode → ℤ → List ℤ → ℤ
unfolding add
sum_from mode acc [] = acc
sum_from mode acc (m ∷ ms) = sum_from mode (add mode acc m) ms

unfoldable pub sum : RoundingMode → List ℤ → ℤ
unfolding sum_from
sum mode ms = sum_from mode (new mode (record { coefficient = pos 0; scale = 0 })) ms

-- Decimals of one scale, for which the sum is that of the coefficients.
unfoldable pub total : List ℤ → ℤ
total [] = pos 0
total (c ∷ cs) = c +ℤ total cs

unfoldable pub aggregate_rounding_sum : RoundingMode → ℕ → List ℤ → ℤ
unfolding new total
aggregate_rounding_sum mode scale coefficients =
    new mode (record { coefficient = total coefficients; scale = scale })
