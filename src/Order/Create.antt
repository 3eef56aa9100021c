-- ===== src/Order/Create.antt =====
-- services/order-service/src/order_handlers.rs: `create_order`, with `reserve_inventory` and
-- `release_inventory`. `trim` and `to_lowercase` stand for the text functions of Rust's standard
-- library; the customer fields, which no branch reads, and the events are left out; a total is given
-- in whole cents. `held` lists the orders that inventory-service has accepted a reservation of and not
-- released; a call that fails is one that inventory-service did not accept, so a reply that is lost after
-- it accepted is not modelled.
pub mod Replay
pub mod Holds
pub mod Tests
use text.Mathlib.Text.{◌==◌ as str_eq}
use peanut_pos.Base.{
  ℕ, String, ◌+◌, Bool, true, false, not, ◌&&◌, ◌||◌, Option, none, some, List, [], ◌∷◌, ◌++◌, ◌==◌,
  if◌then◌else◌, ltb, leb,
}
use peanut_pos.Base.Int.{ℤ, pos, ltb_ℤ, wrap32, saturating_sub}
use peanut_pos.Base.Lists.{any}
use peanut_pos.Base.Table.{first, delete}
use peanut_pos.Base.Api.{
  ApiError, forbidden_missing_role, forbidden, bad_request, not_found, internal, Result, ok, err,
}
use peanut_pos.Security.Role.{SecurityContext, admin, manager, support, cashier, role_eq}
use peanut_pos.Order.Tables.{Order, OrderItem}

pub record PaymentRequest : Type 0 where
  pub method : String
  pub amount_cents : ℤ

pub record NewItem : Type 0 where
  pub product_id : ℕ
  pub quantity : ℤ
  pub unit_price : ℤ
  pub line_total : ℤ

pub record NewOrder : Type 0 where
  pub items : List NewItem
  pub payment_method : String
  pub payment : Option PaymentRequest
  pub total : ℤ
  pub store_id : Option ℕ
  pub idempotency_key : Option String

pub record Payment : Type 0 where
  pub order_id : ℕ
  pub method : String
  pub amount : ℤ
  pub change_cents : Option ℤ

pub record World : Type 0 where
  pub orders : List Order
  pub items : List OrderItem
  pub payments : List Payment
  pub held : List ℕ

pub data Site : Type 0 where
  looks_up begin acquires inserts_order inserts_items inserts_payment commits releases : Site

-- What inventory-service answered: nothing, or a status.
pub data Reply : Type 0 where
  unreachable : Reply
  answered : ℕ → Reply

pub record Env : Type 0 where
  pub sec : SecurityContext
  pub order_id : ℕ
  pub first_item_id : ℕ
  pub now : ℕ
  pub bypass : Bool
  pub inventory : Reply
  pub fails : Site → Bool

unfoldable pub map_legacy_error : ℕ → ApiError
map_legacy_error code =
    if code == 400
    then bad_request "bad_request"
    else if code == 403
    then forbidden
    else if code == 404
    then not_found "not_found"
    else if code == 409
    then bad_request "conflict"
    else if code == 502
    then bad_request "upstream_error"
    else internal

abbrev pub is_success : ℕ → Bool
is_success code = leb 200 code && ltb code 300

unfoldable pub reserve_inventory : Env → World → Result ApiError World
unfolding map_legacy_error
reserve_inventory env w = if env.bypass then ok w else elim env.inventory [
  | unreachable ↦ err (map_legacy_error 502)
  | answered code ↦
      if is_success code
      then ok (record w { held = env.order_id ∷ w.held })
      else err (map_legacy_error (if code == 409 || code == 400 then code else 502))
]

unfoldable pub release_inventory : Env → World → World
unfolding delete
release_inventory env w =
    if env.bypass || env.fails releases
    then w
    else record w { held = delete (λ o. o == env.order_id) w.held }

-- The status that the payment gives the order. Card intents are advisory: their failure is logged.
unfoldable pub payment_status : String → Option PaymentRequest → ℤ → Result ApiError String
payment_status method payment total =
    if str_eq method "cash"
    then elim payment [
      | none ↦ err (bad_request "missing_amount")
      | some p ↦
          if ltb_ℤ p.amount_cents total
          then err (bad_request "insufficient_cash")
          else ok "COMPLETED"
    ]
    else if str_eq method "card"
    then elim payment [
      | none ↦ err (bad_request "missing_amount")
      | some p ↦
          if ltb_ℤ p.amount_cents total || ltb_ℤ total p.amount_cents
          then err (bad_request "amount_mismatch")
          else ok "COMPLETED"
    ]
    else err (bad_request "invalid_method")

abbrev pub may_create : SecurityContext → Bool
may_create sec =
    any (λ r. role_eq r admin || role_eq r manager || role_eq r support || role_eq r cashier)
      sec.roles

abbrev pub same_key : ℕ → String → Order → Bool
same_key t k r = (r.tenant_id == t) && elim r.idempotency_key [ none ↦ false | some q ↦ str_eq q k ]

unfoldable pub item_rows : ℕ → ℕ → List NewItem → List OrderItem
item_rows order_id id [] = []
item_rows order_id id (i ∷ is) =
    record {
      id = id;
      order_id = order_id;
      product_id = i.product_id;
      quantity = i.quantity;
      returned_quantity = pos 0;
      unit_price = i.unit_price;
    }
    ∷ item_rows order_id (id + 1) is

unfoldable pub payment_rows : ℕ → String → ℤ → Option PaymentRequest → List Payment
payment_rows order_id method total none = []
payment_rows order_id method total (some p) =
    record {
      order_id = order_id;
      method = method;
      amount = p.amount_cents;
      change_cents =
          if str_eq method "cash"
          then some (wrap32 (saturating_sub p.amount_cents total))
          else none;
    }
    ∷ []

unfoldable pub new_row : Env → NewOrder → String → String → Option String → Order
new_row env req method status key = record {
  id = env.order_id;
  tenant_id = env.sec.tenant_id;
  total = req.total;
  status = status;
  store_id = req.store_id;
  created_at = env.now;
  payment_method = method;
  idempotency_key = key;
}

abbrev pub is_paid : NewOrder → Bool
is_paid req = elim req.payment [ none ↦ false | some _ ↦ true ]

-- The transaction. Some failures release the reservation, and some do not.
unfoldable pub persist :
    Env → NewOrder → String → String → Option String → World → Result ApiError Order × World
unfolding release_inventory item_rows payment_rows new_row
persist env req method status key w =
    if env.fails begin
    then (err internal, release_inventory env w)
    else if env.fails acquires
    then (err internal, w)
    else if env.fails inserts_order || env.fails inserts_items
    then (err internal, release_inventory env w)
    else if is_paid req && env.fails inserts_payment
    then (err internal, w)
    else if env.fails commits
    then (err internal, release_inventory env w)
    else (
      ok (new_row env req method status key),
      record w {
        orders = w.orders ++ new_row env req method status key ∷ [];
        items = w.items ++ item_rows env.order_id env.first_item_id req.items;
        payments = w.payments ++ payment_rows env.order_id method req.total req.payment;
      },
    )

unfoldable pub pay_and_persist :
    Env → NewOrder → String → Option String → World → Result ApiError Order × World
unfolding payment_status persist
pay_and_persist env req method key w = elim (payment_status method req.payment req.total) [
  | err e ↦ (err e, w)
  | ok status ↦ persist env req method status key w
]

unfoldable pub reserve_and_pay :
    Env → NewOrder → String → Option String → World → Result ApiError Order × World
unfolding reserve_inventory pay_and_persist
reserve_and_pay env req method key w = elim (reserve_inventory env w) [
  | err e ↦ (err e, w)
  | ok w' ↦ pay_and_persist env req method key w'
]

module _ (trim to_lowercase : String → String) where
  unfoldable pub method_of : NewOrder → String
  method_of req =
      let m =
        to_lowercase (trim (elim req.payment [ none ↦ req.payment_method | some p ↦ p.method ])) in
      if str_eq m "" then "cash" else m

  unfoldable pub key_of : NewOrder → Option String
  key_of req = elim req.idempotency_key [
    | none ↦ none
    | some k ↦ if str_eq (trim k) "" then none else some (trim k)
  ]

  unfoldable pub create_order : Env → NewOrder → World → Result ApiError Order × World
  unfolding role_eq method_of key_of first reserve_and_pay
  create_order env req w =
      if not (may_create env.sec)
      then (err (forbidden_missing_role "admin_or_manager_or_support"), w)
      else elim req.items [
        | [] ↦ (err (bad_request "missing_items"), w)
        | _ ∷ _ ↦ elim (key_of req) [
          | none ↦ reserve_and_pay env req (method_of req) none w
          | some k ↦
              if env.fails looks_up
              then (err internal, w)
              else elim (first (same_key env.sec.tenant_id k) w.orders) [
                | some existing ↦ (ok existing, w)
                | none ↦ reserve_and_pay env req (method_of req) (some k) w
              ]
        ]
      ]
