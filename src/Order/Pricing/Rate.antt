-- ===== src/Order/Pricing/Rate.antt =====
-- The tax rate of a quote.
use peanut_pos.Base.{ℕ, String, ◌≡◌, refl, ◌≤◌, Option, none, some, List, [], ◌∷◌, arith}
use peanut_pos.Base.Int.{ℤ, pos}
use peanut_pos.Order.Pricing.{
  Env, ComputeOrderRequest, first_rate, rate_sources, default_tax_rate_bps, resolve_tax_rate_bps,
  and_then,
}
use peanut_pos.Order.Discount.{clamp_bps}
use peanut_pos.Order.Pricing.Bounds.{clamp_bps-bounds}

-- A rate in basis points, at most 100 %.
abbrev pub IsRate : ℤ → Type 0
IsRate v = (b : ℕ) × (v ≡ pos b) × (b ≤ 10000)

first_rate-IsRate : (rs : List (Option ℤ)) (d : ℤ) → IsRate d → IsRate (first_rate rs d)
first_rate-IsRate [] d h = h
first_rate-IsRate (none ∷ rs) d h = first_rate-IsRate rs d h
first_rate-IsRate (some v ∷ rs) d h = clamp_bps-bounds v

or_zero-IsRate : (o : Option ℤ) → IsRate (elim o [ none ↦ pos 0 | some v ↦ clamp_bps v ])
or_zero-IsRate none = (0, refl, omega arith)
or_zero-IsRate (some v) = clamp_bps-bounds v

module _ (trim to_ascii_uppercase : String → String) (parse_i32 : String → Option ℤ) where
  default-IsRate : (env : Env) → IsRate (default_tax_rate_bps trim to_ascii_uppercase parse_i32 env)
  unfolding default_tax_rate_bps
  default-IsRate env = or_zero-IsRate (and_then parse_i32 env.default_rate)

  -- Whatever the request, the headers, the table of overrides and the process's environment hold, and
  -- whichever queries are refused, the tax rate used is between 0 and 100 %.
  pub resolve_tax_rate_bps-IsRate :
      (env : Env) (t : ℕ) (req : ComputeOrderRequest)
      → IsRate (resolve_tax_rate_bps trim to_ascii_uppercase parse_i32 env t req)
  unfolding resolve_tax_rate_bps
  resolve_tax_rate_bps-IsRate env t req =
      first_rate-IsRate (rate_sources trim to_ascii_uppercase parse_i32 env t req)
        (default_tax_rate_bps trim to_ascii_uppercase parse_i32 env) (default-IsRate env)
