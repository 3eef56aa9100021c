-- ===== src/Money/Tests.antt =====
-- Roundings of the source's tests, and the theorems at them.
use peanut_pos.Base.{◌≡◌, refl}
use peanut_pos.Base.Int.{pos, negsuc}
use peanut_pos.Money.{
  half_up, truncate, bankers, Decimal, magnitude, hundredfold, denominator, is_negative, with_sign,
  round_scale_2,
}
use peanut_pos.Money.Nearest.{Rounded, round_scale_2-Rounded}

-- -1.235.
abbrev debt : Decimal
debt = record { coefficient = negsuc 1234; scale = 3 }

half_up_debt : round_scale_2 half_up debt ≡ negsuc 123
unfolding round_scale_2
half_up_debt = refl

truncate_debt : round_scale_2 truncate debt ≡ negsuc 122
unfolding round_scale_2
truncate_debt = refl

-- A tie, to the even cent: 1.225 becomes 1.22.
bankers_tie : round_scale_2 bankers (record { coefficient = pos 1225; scale = 3 }) ≡ pos 122
unfolding round_scale_2
bankers_tie = refl

round_scale_2-Rounded_example :
    Rounded bankers (magnitude (round_scale_2 bankers debt)) (hundredfold debt) (denominator debt)
    × (round_scale_2 bankers debt
        ≡ with_sign (is_negative debt.coefficient) (magnitude (round_scale_2 bankers debt)))
round_scale_2-Rounded_example = round_scale_2-Rounded bankers debt
