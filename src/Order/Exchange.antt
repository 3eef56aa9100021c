-- ===== src/Order/Exchange.antt =====
-- services/order-service/src/order_handlers.rs: `exchange_order`. The returned lines are written in a
-- transaction that stays open while `create_order_from_skus` commits the new order on connections of
-- its own, so that the writes meet the tables again at the commit. The waits for locks are left out.
pub mod Request
pub mod Return
pub mod Alone
mod Tests
use text.Mathlib.Text.{◌==◌ as str_eq}
use peanut_pos.Base.{
  ℕ, String, Bool, true, false, not, ◌&&◌, ◌||◌, Option, none, some, [], ◌∷◌, if◌then◌else◌,
}
use peanut_pos.Base.Int.{ℤ, pos, ltb_ℤ, saturating_sub}
use peanut_pos.Base.Lists.{any}
use peanut_pos.Base.Table.{first}
use peanut_pos.Base.Api.{
  ApiError, forbidden_missing_role, bad_request, not_found, internal, Result, ok, err,
}
use peanut_pos.Security.Role.{admin, manager, role_eq}
use peanut_pos.Order.Tables.{Order, is_order}
use peanut_pos.Order.Pricing
use peanut_pos.Order.Create
use peanut_pos.Order.Create.{World}
use peanut_pos.Order.FromSkus.{NewOrderFromSku, create_order_from_skus}
use peanut_pos.Order.Exchange.Request.{
  ExchangeRequest, ExchangeResponse, Env, Shop, loads_order, loads_items, begin, links, commits,
  world_of, with_world,
}
use peanut_pos.Order.Exchange.Return.{Returned, returning, apply_return}

abbrev pub sale_of : ExchangeRequest → Order → NewOrderFromSku
sale_of req original = record {
  items = req.new_items;
  discount_percent_bp = req.discount_percent_bp;
  tax_rate_bps = none;
  location_id = none;
  pos_instance_id = none;
  payment_method = elim req.payment [ none ↦ "cash" | some p ↦ p.method ];
  payment = req.payment;
  store_id = original.store_id;
  idempotency_key = req.idempotency_key;
}

abbrev pub refund_of : Option Returned → ℤ
refund_of none = pos 0
refund_of (some r) = r.refund_total

unfoldable pub settle : Env → ℕ → Option Returned → Order → ExchangeResponse
settle env original ret created =
    let delta = saturating_sub created.total (refund_of ret) in
    record {
      original_order_id = original;
      exchange_order_id = created.id;
      refund = elim ret [ none ↦ none | some _ ↦ some env.return_id ];
      refunded_cents = refund_of ret;
      new_order_total_cents = created.total;
      net_delta_cents = delta;
      net_direction =
          if ltb_ℤ (pos 0) delta
          then "collect"
          else if ltb_ℤ delta (pos 0)
          then "refund"
          else "even";
    }

-- The link and the commit; the new order stays, whatever becomes of them.
unfoldable pub finish :
    Env → ℕ → Option Returned → Order → Shop → Result ApiError ExchangeResponse × Shop
unfolding apply_return settle
finish env original ret created s =
    if env.fails links
    then (err internal, s)
    else let linked = record s { links = (created.id, original) ∷ s.links } in
      if env.fails commits then (err internal, linked) else (
        ok (settle env original ret created),
        record linked { db = apply_return env original ret linked.db },
      )

unfoldable pub sold :
    Env
    → ℕ
    → Option Returned
    → Shop
    → Result ApiError Order × World
    → Result ApiError ExchangeResponse × Shop
unfolding finish
sold env original ret s (err e, w) = (err e, with_world s w)
sold env original ret s (ok created, w) = finish env original ret created (with_world s w)

abbrev pub is_exchangeable : String → Bool
is_exchangeable st =
    str_eq st "COMPLETED"
    || str_eq st "PAID"
    || str_eq st "REFUNDED"
    || str_eq st "PARTIAL_REFUNDED"

abbrev pub asks_nothing : ExchangeRequest → Bool
asks_nothing req =
    elim req.return_items [ [] ↦ true | _ ∷ _ ↦ false ]
    && elim req.new_items [ [] ↦ true | _ ∷ _ ↦ false ]

module _ (trim to_lowercase to_ascii_uppercase : String → String)
    (parse_i32 : String → Option ℤ) where
  unfoldable pub exchange_loaded :
      Env → ExchangeRequest → Order → Shop → Result ApiError ExchangeResponse × Shop
  unfolding returning sold create_order_from_skus
  exchange_loaded env req original s =
      if env.fails loads_items || env.fails begin
      then (err internal, s)
      else elim (returning env.fails original.id req s.db) [
        | err e ↦ (err e, s)
        | ok ret ↦ sold env original.id ret s (
            create_order_from_skus trim to_lowercase to_ascii_uppercase parse_i32 env.pricing
              env.create (sale_of req original) (world_of s))
      ]

  unfoldable pub exchange_order :
      Env → ℕ → ExchangeRequest → Shop → Result ApiError ExchangeResponse × Shop
  unfolding role_eq first exchange_loaded
  exchange_order env id req s =
      if not (any (λ r. role_eq r admin || role_eq r manager) env.create.sec.roles)
      then (err (forbidden_missing_role "admin_or_manager"), s)
      else if asks_nothing req
      then (err (bad_request "invalid_request"), s)
      else if env.fails loads_order
      then (err internal, s)
      else elim (first (is_order id env.create.sec.tenant_id) s.db.orders) [
        | none ↦ (err (not_found "order_not_found"), s)
        | some original ↦
            if not (is_exchangeable original.status)
            then (err (bad_request "order_not_completed"), s)
            else exchange_loaded env req original s
      ]
