-- ===== src/Order/Pricing.antt =====
-- services/order-service/src/order_handlers.rs: the totals of a cart. Amounts are i64 cents with the
-- wrapping `+` of a release build; prices are NUMERIC(10,2) columns, read as cents. `trim`,
-- `to_ascii_uppercase` and `parse_i32` stand for the text functions of Rust's standard library.
pub mod Bounds
pub mod Rate
pub mod Lines
pub mod Quote
pub mod FromSkus
use text.Mathlib.Text.{◌==◌ as str_eq}
use peanut_pos.Base.{
  ℕ, String, Bool, true, false, not, ◌&&◌, ◌||◌, Option, none, some, List, [], ◌∷◌, ◌==◌, ltb, same,
  if◌then◌else◌, ◌++◌,
}
use peanut_pos.Base.Int.{
  ℤ, pos, ◌+ℤ◌, ◌/ℤ◌, ltb_ℤ, leb_ℤ, wrap64, saturating_add, saturating_sub, saturating_mul, max_ℤ,
}
use peanut_pos.Base.Lists.{any}
use peanut_pos.Base.Table.{select}
use peanut_pos.Base.Api.{ApiError, bad_request, not_found, internal, Result, ok, err}
use peanut_pos.Order.Discount.{
  clamp_bps, discount_of, discount_on_taxable, or_else, share_of, taxable_net,
}

pub record Product : Type 0 where
  pub tenant_id : ℕ
  pub id : ℕ
  pub price_cents : ℤ
  pub sku : Option String
  pub tax_code : Option String
  pub active : Bool

pub record TaxRateOverride : Type 0 where
  pub tenant_id : ℕ
  pub location_id : Option ℕ
  pub pos_instance_id : Option ℕ
  pub rate_bps : ℤ
  pub updated_at : ℕ

pub record ItemInput : Type 0 where
  pub sku : Option String
  pub product_id : Option ℕ
  pub quantity : ℤ

pub record ComputeOrderRequest : Type 0 where
  pub items : List ItemInput
  pub discount_percent_bp : Option ℤ
  pub location_id : Option ℕ
  pub pos_instance_id : Option ℕ
  pub tax_rate_bps : Option ℤ

pub record ComputedItemSummary : Type 0 where
  pub product_id : ℕ
  pub qty : ℤ
  pub unit_price_cents : ℤ
  pub line_subtotal_cents : ℤ

-- What the loop over the items accumulates.
pub record Sums : Type 0 where
  pub items : List ComputedItemSummary
  pub subtotal : ℤ
  pub taxable : ℤ

pub record ComputeOrderResponse : Type 0 where
  pub items : List ComputedItemSummary
  pub subtotal_cents : ℤ
  pub discount_cents : ℤ
  pub tax_cents : ℤ
  pub total_cents : ℤ

-- The queries, which the database may refuse.
pub data Site : Type 0 where
  products_by_sku products_by_id rate_of_pos rate_of_location rate_of_tenant : Site

-- The two tables read, the process's DEFAULT_TAX_RATE_BPS, and the request's header texts.
pub record Env : Type 0 where
  pub products : List Product
  pub overrides : List TaxRateOverride
  pub default_rate : Option String
  pub headers : String → Option String
  pub fails : Site → Bool

-- A requested line names its product by SKU or by id.
pub data Wanted : Type 0 where
  wanted_sku : String → Wanted
  wanted_id : ℕ → Wanted

abbrev pub and_then : {A B : Type 0} → (A → Option B) → Option A → Option B
and_then f none = none
and_then f (some a) = f a

-- ORDER BY updated_at DESC LIMIT 1.
unfoldable pub newest : List TaxRateOverride → Option TaxRateOverride
newest [] = none
newest (r ∷ rs) = elim (newest rs) [
  | none ↦ some r
  | some q ↦ some (if ltb r.updated_at q.updated_at then q else r)
]

abbrev pub rate_where : Bool → (TaxRateOverride → Bool) → List TaxRateOverride → Option ℤ
rate_where true p rows = none
rate_where false p rows = elim (newest (select p rows)) [ none ↦ none | some r ↦ some r.rate_bps ]

-- The first rate of a list of places that has one, clamped; the default where none has.
abbrev pub first_rate : List (Option ℤ) → ℤ → ℤ
first_rate [] d = d
first_rate (none ∷ rs) d = first_rate rs d
first_rate (some v ∷ rs) d = clamp_bps v

unfoldable pub response : Sums → Option ℤ → ℤ → ComputeOrderResponse
response s bp rate =
    let discount = discount_of s.subtotal bp in
    let tax =
      if ltb_ℤ (pos 0) s.taxable
      then share_of (taxable_net s.subtotal discount s.taxable) rate
      else pos 0 in
    record {
      items = s.items;
      subtotal_cents = s.subtotal;
      discount_cents = discount;
      tax_cents = tax;
      total_cents = saturating_add (saturating_sub s.subtotal discount) tax;
    }

module _ (trim to_ascii_uppercase : String → String) (parse_i32 : String → Option ℤ) where
  unfoldable pub default_tax_rate_bps : Env → ℤ
  default_tax_rate_bps env = elim (and_then parse_i32 env.default_rate) [
    | none ↦ pos 0
    | some v ↦ clamp_bps v
  ]

  unfoldable pub is_taxable : Option String → Bool
  is_taxable none = true
  is_taxable (some code) =
      let c = to_ascii_uppercase code in
      not (str_eq c "EXEMPT" || str_eq c "ZERO" || str_eq c "NONE")

  -- The places that a rate is looked for, the first that has one winning.
  abbrev pub rate_sources : Env → ℕ → ComputeOrderRequest → List (Option ℤ)
  rate_sources env t req =
      req.tax_rate_bps
      ∷ and_then parse_i32 (env.headers "x-tax-rate-bps")
      ∷ and_then parse_i32 (env.headers "x-tenant-tax-rate-bps")
      ∷ and_then
          (λ p.
            rate_where (env.fails rate_of_pos)
              (λ r. (r.tenant_id == t) && same r.pos_instance_id (some p)) env.overrides)
          req.pos_instance_id
      ∷ and_then
          (λ l.
            rate_where (env.fails rate_of_location)
              (λ r.
                (r.tenant_id == t) && (same r.location_id (some l) && same r.pos_instance_id none))
              env.overrides)
          req.location_id
      ∷ rate_where (env.fails rate_of_tenant)
          (λ r. (r.tenant_id == t) && (same r.location_id none && same r.pos_instance_id none))
          env.overrides
      ∷ []

  unfoldable pub resolve_tax_rate_bps : Env → ℕ → ComputeOrderRequest → ℤ
  unfolding default_tax_rate_bps
  resolve_tax_rate_bps env t req = first_rate (rate_sources env t req) (default_tax_rate_bps env)

  -- The trimmed SKU where it is not empty, the id otherwise.
  unfoldable pub wanted : ItemInput → Option Wanted
  wanted it = elim it.sku [
    | none ↦ elim it.product_id [ none ↦ none | some p ↦ some (wanted_id p) ]
    | some s ↦
        if str_eq (trim s) ""
        then elim it.product_id [ none ↦ none | some p ↦ some (wanted_id p) ]
        else some (wanted_sku (trim s))
  ]

  -- The first pass: quantities and identifiers, in the order of the items.
  unfoldable pub check_items : List ItemInput → Result ApiError (List Wanted)
  unfolding wanted
  check_items [] = ok []
  check_items (it ∷ its) =
      let rest = check_items its in
      if leb_ℤ it.quantity (pos 0) then err (bad_request "invalid_quantity") else elim (wanted it) [
        | none ↦ err (bad_request "missing_identifier")
        | some w ↦ elim rest [ err e ↦ err e | ok ws ↦ ok (w ∷ ws) ]
      ]

  abbrev pub has_sku : String → Product → Bool
  has_sku s r = elim r.sku [ none ↦ false | some q ↦ str_eq q s ]

  -- The map built from the rows of a query: a later row replaces an earlier one.
  unfoldable pub last_where : (Product → Bool) → List Product → Option Product
  last_where p [] = none
  last_where p (r ∷ rs) = elim (last_where p rs) [
    | some q ↦ some q
    | none ↦ if p r then some r else none
  ]

  abbrev pub is_sku : Wanted → Bool
  is_sku (wanted_sku s) = true
  is_sku (wanted_id p) = false

  -- Each of the two queries runs where something asks for it.
  abbrev pub fetch_fails : Env → List Wanted → Bool
  fetch_fails env ws =
      (any is_sku ws && env.fails products_by_sku)
      || (any (λ w. not (is_sku w)) ws && env.fails products_by_id)

  -- The product that a line names, among the tenant's. The queries ask for the very names that the
  -- lines give, so that their ANY clauses do not narrow the lookup.
  unfoldable pub row_of : Env → ℕ → Wanted → Option Product
  row_of env t (wanted_sku s) = last_where (λ r. (r.tenant_id == t) && has_sku s r) env.products
  row_of env t (wanted_id p) = last_where (λ r. (r.tenant_id == t) && (r.id == p)) env.products

  -- One line of the second pass.
  unfoldable pub add_line : Product → ℤ → Sums → Sums
  unfolding is_taxable
  add_line r qty s =
      let line = saturating_mul r.price_cents qty in
      record {
        items =
            s.items
            ++ record {
              product_id = r.id;
              qty = qty;
              unit_price_cents = r.price_cents;
              line_subtotal_cents = line;
            }
              ∷ [];
        subtotal = saturating_add s.subtotal line;
        taxable = if is_taxable r.tax_code then saturating_add s.taxable line else s.taxable;
      }

  unfoldable pub add_lines : Env → ℕ → List ItemInput → Sums → Result ApiError Sums
  unfolding wanted row_of
  add_lines env t [] s = ok s
  add_lines env t (it ∷ its) s = elim (and_then (row_of env t) (wanted it)) [
    | none ↦ err (not_found "product_not_found")
    | some r ↦ elim r.active [
      | false ↦ err (bad_request "inactive_product")
      | true ↦ add_lines env t its (add_line r it.quantity s)
    ]
  ]

  abbrev pub no_sums : Sums
  no_sums = record { items = []; subtotal = pos 0; taxable = pos 0 }

  unfoldable pub priced :
      Env → ℕ → ComputeOrderRequest → Result ApiError Sums → Result ApiError ComputeOrderResponse
  unfolding resolve_tax_rate_bps response
  priced env t req (err e) = err e
  priced env t req (ok s) = ok (response s req.discount_percent_bp (resolve_tax_rate_bps env t req))

  unfoldable pub fetched :
      Env
      → ℕ
      → ComputeOrderRequest
      → Result ApiError (List Wanted)
      → Result ApiError ComputeOrderResponse
  unfolding add_lines priced
  fetched env t req (err e) = err e
  fetched env t req (ok ws) = elim (fetch_fails env ws) [
    | true ↦ err internal
    | false ↦ priced env t req (add_lines env t req.items no_sums)
  ]

  unfoldable pub compute_with_db_inner :
      Env → ℕ → ComputeOrderRequest → Result ApiError ComputeOrderResponse
  unfolding check_items fetched
  compute_with_db_inner env t req = elim req.items [
    | [] ↦ err (bad_request "missing_items")
    | _ ∷ _ ↦ fetched env t req (check_items req.items)
  ]
