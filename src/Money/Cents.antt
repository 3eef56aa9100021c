-- ===== src/Money/Cents.antt =====
-- Whole cents, on which rounding does nothing.
use peanut_pos.Base.{◌≡◌, refl, sym, ◌∙◌, ap, List, [], ◌∷◌, arith}
use peanut_pos.Base.Int.{ℤ, pos, ◌+ℤ◌, ◌*ℤ◌, ◌≤ℤ◌, i64_min, i64_max, int_laws, +ℤ_assoc, wrap64}
use peanut_pos.Money.{
  RoundingMode, half_up, truncate, bankers, magnitude, is_negative, with_sign, half_up_cents,
  truncate_cents, bankers_cents, cmp_half, to_even, round_scale_2, new, from_cents, as_cents, add,
  sum_from, sum, total, aggregate_rounding_sum,
}

signed_magnitude : (z : ℤ) → with_sign (is_negative z) (magnitude z) ≡ z
signed_magnitude z = ground arith

round-cents :
    (mode : RoundingMode) (z : ℤ) → round_scale_2 mode (record { coefficient = z; scale = 2 }) ≡ z
unfolding round_scale_2 half_up_cents truncate_cents bankers_cents cmp_half to_even
round-cents half_up z = ground arith
round-cents truncate z = ground arith
round-cents bankers z = ground arith

-- Printing and parsing cents is the identity on i64, its smallest number included.
as_cents-cents : (z : ℤ) → i64_min ≤ℤ z → z ≤ℤ i64_max → as_cents z ≡ z
unfolding as_cents wrap64 ◌*ℤ◌
as_cents-cents z lo hi = ground arith

-- An amount of cents in i64 comes back from Money as it went in, in every mode.
from_cents-as_cents :
    (mode : RoundingMode) (c : ℤ) → i64_min ≤ℤ c → c ≤ℤ i64_max → as_cents (from_cents mode c) ≡ c
unfolding from_cents new
from_cents-as_cents mode c lo hi = rw (round-cents mode c) (as_cents-cents c lo hi)

new-cents : (mode : RoundingMode) (z : ℤ) → new mode (record { coefficient = z; scale = 2 }) ≡ z
unfolding new
new-cents mode z = round-cents mode z

sum_from-total :
    (mode : RoundingMode) (acc : ℤ) (ms : List ℤ) → sum_from mode acc ms ≡ acc +ℤ total ms
unfolding sum_from total add new
sum_from-total mode acc [] = omega int_laws
sum_from-total mode acc (m ∷ ms) =
    ap (λ x. sum_from mode x ms) (round-cents mode (acc +ℤ m))
    ∙ sum_from-total mode (acc +ℤ m) ms
    ∙ +ℤ_assoc acc m (total ms)

zero_rounds : (mode : RoundingMode) → new mode (record { coefficient = pos 0; scale = 0 }) ≡ pos 0
unfolding new round_scale_2 half_up_cents truncate_cents bankers_cents cmp_half to_even
zero_rounds half_up = refl
zero_rounds truncate = refl
zero_rounds bankers = refl

-- Adding amounts of whole cents one by one, rounding at each step, gives in every mode what adding
-- them all and rounding once gives, and it is their exact sum.
sum-aggregate_rounding_sum :
    (mode : RoundingMode) (ms : List ℤ)
    → (sum mode ms ≡ aggregate_rounding_sum mode 2 ms) × (sum mode ms ≡ total ms)
unfolding sum aggregate_rounding_sum
sum-aggregate_rounding_sum mode ms =
    let exact : sum_from mode (new mode (record { coefficient = pos 0; scale = 0 })) ms ≡ total ms =
      ap (λ x. sum_from mode x ms) (zero_rounds mode)
      ∙ sum_from-total mode (pos 0) ms
      ∙ omega int_laws in
    (exact ∙ sym (new-cents mode (total ms)), exact)
