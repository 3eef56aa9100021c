-- ===== src/Order/Exchange/Alone.antt =====
-- An exchange that only returns, or that nothing is paid for.
use peanut_pos.Base.{ℕ, String, ◌≡◌, refl, Option, [], inl, inr, Bool-cases, Option-cases, ◌||◌}
use peanut_pos.Base.Int.{ℤ}
use peanut_pos.Base.Lists.{any}
use peanut_pos.Security.Role.{admin, manager, role_eq}
use peanut_pos.Base.Table.{first}
use peanut_pos.Base.Api.{
  ApiError, Result, err, Result-cases, internal, bad_request, not_found, forbidden_missing_role,
}
use peanut_pos.Order.Tables.{Order, is_order}
use peanut_pos.Order.Pricing
use peanut_pos.Order.Create
use peanut_pos.Order.Create.{World}
use peanut_pos.Order.FromSkus.{NewOrderFromSku, create_order_from_skus}
use peanut_pos.Order.Exchange.Request.{
  Env, ExchangeRequest, ExchangeResponse, Shop, world_of, loads_order, loads_items, begin,
}
use peanut_pos.Order.Exchange.Return.{Returned, returning}
use peanut_pos.Order.Exchange.{
  sale_of, sold, exchange_loaded, exchange_order, asks_nothing, is_exchangeable,
}

-- An error that leaves the shop as it was.
abbrev Refused : Shop → Result ApiError ExchangeResponse × Shop → Type 0
Refused s r = (e : ApiError) × (r ≡ (err e, s))

module _ (trim to_lowercase to_ascii_uppercase : String → String)
    (parse_i32 : String → Option ℤ) where
  nothing_sold :
      (pricing : Pricing.Env) (env : Create.Env) (req : NewOrderFromSku) (w : World)
      → req.items ≡ []
      → (e : ApiError) × (create_order_from_skus trim to_lowercase to_ascii_uppercase parse_i32
            pricing env req w
          ≡ (err e, w))
  unfolding create_order_from_skus
  nothing_sold pricing env req w h = elim (Bool-cases (Create.may_create env.sec)) [
    | inl e ↦ (bad_request "missing_items", rw (e, h) refl)
    | inr e ↦ (forbidden_missing_role "admin_or_manager_or_support", rw e refl)
  ]

  sold-Refused :
      (env : Env) (req : ExchangeRequest) (original : Order) (ret : Option Returned) (s : Shop)
      → req.new_items ≡ []
      → Refused s (
          sold env original.id ret s (
            create_order_from_skus trim to_lowercase to_ascii_uppercase parse_i32 env.pricing
              env.create
              (sale_of req original)
              (world_of s)))
  unfolding sold
  sold-Refused env req original ret s h =
      let (e, k) = nothing_sold env.pricing env.create (sale_of req original) (world_of s) h in
      (e, rw k refl)

  loaded-Refused :
      (env : Env) (req : ExchangeRequest) (original : Order) (s : Shop)
      → req.new_items ≡ []
      → Refused s
          (exchange_loaded trim to_lowercase to_ascii_uppercase parse_i32 env req original s)
  unfolding exchange_loaded
  loaded-Refused env req original s h =
      elim (Bool-cases (env.fails loads_items || env.fails begin)) [
        | inl e ↦ (internal, rw e refl)
        | inr e ↦ elim (Result-cases (returning env.fails original.id req s.db)) [
          | inl (x, k) ↦ (x, rw (e, k) refl)
          | inr (ret, k) ↦ rw (e, k) (sold-Refused env req original ret s h)
        ]
      ]

  -- Where the customer brings goods back and takes nothing for them, the exchange is refused with an
  -- error and the shop is left as it was, whatever the request returns and whatever the shop holds,
  -- although only a request without lines of either kind is rejected as such.
  pub returns_alone-Refused :
      (env : Env) (id : ℕ) (req : ExchangeRequest) (s : Shop)
      → req.new_items ≡ []
      → Refused s (exchange_order trim to_lowercase to_ascii_uppercase parse_i32 env id req s)
  unfolding exchange_order
  returns_alone-Refused env id req s h =
      elim (Bool-cases (any (λ r. role_eq r admin || role_eq r manager) env.create.sec.roles)) [
        | inr a ↦ (forbidden_missing_role "admin_or_manager", rw a refl)
        | inl a ↦ elim (Bool-cases (asks_nothing req)) [
          | inl b ↦ (bad_request "invalid_request", rw (a, b) refl)
          | inr b ↦ elim (Bool-cases (env.fails loads_order)) [
            | inl c ↦ (internal, rw (a, b, c) refl)
            | inr c ↦
                elim (Option-cases (first (is_order id env.create.sec.tenant_id) s.db.orders)) [
                  | inl d ↦ (not_found "order_not_found", rw (a, b, c, d) refl)
                  | inr (original, d) ↦ elim (Bool-cases (is_exchangeable original.status)) [
                    | inl x ↦ rw (a, b, c, d, x) (loaded-Refused env req original s h)
                    | inr x ↦ (bad_request "order_not_completed", rw (a, b, c, d, x) refl)
                  ]
                ]
          ]
        ]
      ]
