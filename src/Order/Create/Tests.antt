-- ===== src/Order/Create/Tests.antt =====
-- Runs of `create_order`, and the theorems at them.
use peanut_pos.Base.{◌≡◌, refl, true, false, none, some, [], ◌∷◌, arith}
use peanut_pos.Base.Int.{ℤ, pos}
use peanut_pos.Base.Table
use peanut_pos.Base.Api.{ok, err, internal}
use peanut_pos.Security.Role
use peanut_pos.Security.Role.{SecurityContext, manager}
use peanut_pos.Order.Tables.{Order}
use peanut_pos.Order.Create.{
  NewOrder, NewItem, PaymentRequest, World, create_order, commits, answered,
}
use peanut_pos.Order.Create
use peanut_pos.Order.Create.Replay.{create_all, create_order_replays}
use peanut_pos.Order.Create.Holds.{create_order_compensates}
use peanut_pos.Order.Tests.{text, boss}

abbrev pub register : Create.Env
register = record {
  sec = boss;
  order_id = 20;
  first_item_id = 30;
  now = 3000;
  bypass = false;
  inventory = answered 201;
  fails = λ s. false;
}

abbrev pub empty_world : World
empty_world = record { orders = []; items = []; payments = []; held = [] }

abbrev paid_with : ℤ → NewOrder
paid_with amount = record {
  items =
      record { product_id = 3; quantity = pos 2; unit_price = pos 450; line_total = pos 900 } ∷ [];
  payment_method = "cash";
  payment = some (record { method = "cash"; amount_cents = amount });
  total = pos 900;
  store_id = none;
  idempotency_key = some "k1";
}

abbrev pub stored_order : Order
stored_order = record {
  id = 20;
  tenant_id = 7;
  total = pos 900;
  status = "COMPLETED";
  store_id = none;
  created_at = 3000;
  payment_method = "cash";
  idempotency_key = some "k1";
}

order_created :
    (create_order text text register (paid_with (pos 1000)) empty_world).0 ≡ ok stored_order
unfolding create_order
order_created = refl

-- A second request with the same key, from a register whose inventory-service is down.
abbrev offline_register : Create.Env
offline_register = record register { order_id = 21; inventory = Create.unreachable }

has_key : Create.key_of text text (paid_with (pos 1000)) ≡ some "k1"
unfolding Create.key_of
has_key = refl

has_key_again : Create.key_of text text (paid_with (pos 900)) ≡ some "k1"
unfolding Create.key_of
has_key_again = refl

-- An order of the same tenant in between.
abbrev next_register : Create.Env
next_register = record register { order_id = 22 }

abbrev keyless : NewOrder
keyless = record (paid_with (pos 900)) { idempotency_key = none }

create_order_replays_example :
    create_order text text offline_register (paid_with (pos 900)) (
      create_all text text
        ((next_register, keyless) ∷ [])
        (create_order text text register (paid_with (pos 1000)) empty_world).1)
    ≡ (
      ok stored_order,
      create_all text text
          ((next_register, keyless) ∷ [])
          (create_order text text register (paid_with (pos 1000)) empty_world).1,
    )
unfolding Role.role_eq
create_order_replays_example =
    create_order_replays text text register offline_register (paid_with (pos 1000))
      (paid_with (pos 900)) ((next_register, keyless) ∷ []) empty_world stored_order "k1" has_key
      has_key_again order_created refl refl (λ e. ground arith) refl

abbrev failing_commit : Create.Env
failing_commit = record register { fails = λ s. elim s [ commits ↦ true | _ ↦ false ] }

commit_fails :
    (create_order text text failing_commit (paid_with (pos 1000)) empty_world).0 ≡ err internal
unfolding create_order
commit_fails = refl

accepted_cash :
    Create.payment_status
      (Create.method_of text text (paid_with (pos 1000)))
      (paid_with (pos 1000)).payment
      (paid_with (pos 1000)).total
    ≡ ok "COMPLETED"
unfolding Create.payment_status Create.method_of
accepted_cash = refl

create_order_compensates_example :
    (create_order text text failing_commit (paid_with (pos 1000)) empty_world).1 ≡ empty_world
unfolding Table.delete
create_order_compensates_example =
    create_order_compensates text text failing_commit (paid_with (pos 1000)) empty_world internal
      "COMPLETED" accepted_cash (refl, refl, refl) refl commit_fails
