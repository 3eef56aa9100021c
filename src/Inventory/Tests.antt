-- ===== src/Inventory/Tests.antt =====
-- Runs of the reservation handlers, and the theorems at them.
use text.Mathlib.Text.{◌==◌ as str_eq}
use peanut_pos.Base.{ℕ, ◌≡◌, ◌≢◌, ap, refl, true, false, none, some, [], ◌∷◌, arith, if◌then◌else◌}
use peanut_pos.Base.Int
use peanut_pos.Base.Int.{ℤ, pos, ◌≤ℤ◌, ◌+ℤ◌, i32_max}
use peanut_pos.Base.Table
use peanut_pos.Base.Api.{ok}
use peanut_pos.Security.Role.{SecurityContext, manager}
use peanut_pos.Inventory.Store.{Db, Stock, Item, Reservation, active, quantity_of, sum_reserved}
use peanut_pos.Inventory.Reserve
use peanut_pos.Inventory.Reserve.{CreateRequest, ReservationItem, create_reservation}
use peanut_pos.Inventory.Reserve.Cover.{Covered, create_reservation-Covered}
use peanut_pos.Inventory.Release
use peanut_pos.Inventory.Release.{release_reservation}
use peanut_pos.Inventory.Consumer
use peanut_pos.Inventory.Events.{OrderCompletedEvent, handle_order_completed}
use peanut_pos.Inventory.Consumer.{Codec, Message, World}
use peanut_pos.Inventory.Events.Completed.{ordered, of_lines, completed_settles}
use peanut_pos.Inventory.Expiry
use peanut_pos.Inventory.Expiry.{expire_reservations, is_due}
use peanut_pos.Inventory.Expiry.Located.{HasItem, available_at, placed, expiry_returns_twice}
use peanut_pos.Inventory.Release.Twice.{HasRow, available, release_returns_twice}

abbrev boss : SecurityContext
boss = record { tenant_id = 7; roles = manager ∷ [] }

abbrev ten_teas : Stock
ten_teas = record { tenant_id = 7; product_id = 3; quantity = pos 10; threshold = pos 5 }

abbrev stocked : Db
stocked = record { inventory = ten_teas ∷ []; items = []; reservations = [] }

abbrev desk : Reserve.Env
desk = record {
  sec = boss;
  multi_location_enabled = false;
  int4_as_i64 = false;
  reservation_default_ttl = 900;
  now = 100;
  fails = λ s. false;
  iteration = λ ts. ts;
}

abbrev four_teas : CreateRequest
four_teas = record {
  order_id = 1;
  items = record { product_id = 3; quantity = pos 4; location_id = none } ∷ [];
}

ten_teas_cover : (t p : ℕ) → pos 0 ≤ℤ quantity_of (ten_teas ∷ []) t p
unfolding quantity_of Table.first
ten_teas_cover t p = ground arith

ten_teas_narrow : (t p : ℕ) → quantity_of (ten_teas ∷ []) t p ≤ℤ i32_max
unfolding quantity_of Table.first
ten_teas_narrow t p = ground arith

stocked-Covered : Covered stocked
unfolding sum_reserved
stocked-Covered = record { positive = tt; within = ten_teas_cover; narrow = ten_teas_narrow }

create_reservation-Covered_example : Covered (create_reservation desk four_teas stocked).1
create_reservation-Covered_example =
    create_reservation-Covered desk four_teas stocked refl stocked-Covered

abbrev four_held : Reservation
four_held = record {
  order_id = 1;
  tenant_id = 7;
  product_id = 3;
  quantity = pos 4;
  location_id = none;
  status = active;
  expires_at = none;
}

abbrev reserved : Db
reserved = record stocked { reservations = four_held ∷ [] }

abbrev counter : Release.Env
counter = record { sec = boss; multi_location_enabled = false; fails = λ s. false }

tea_row : HasRow 7 3 (ten_teas ∷ [])
unfolding Table.first
tea_row = (ten_teas, refl)

released :
    (release_reservation counter 1 reserved).0
    ≡ ok (record { product_id = 3; quantity = pos 4; location_id = none } ∷ [])
unfolding release_reservation Int.◌+ℤ◌
released = refl

-- Six of ten are available before the release, and fourteen after it.
release_returns_twice_example :
    available 7 3 (release_reservation counter 1 reserved).1
    ≡ available 7 3 reserved +ℤ pos 4 +ℤ pos 4
unfolding sum_reserved Table.select Int.◌+ℤ◌
release_returns_twice_example =
    release_returns_twice counter 1 3 reserved
      (record { product_id = 3; quantity = pos 4; location_id = none } ∷ []) refl (omega arith, tt)
      (tea_row, tt) tea_row released

abbrev tea_order : OrderCompletedEvent
tea_order = record {
  order_id = 1;
  tenant_id = 7;
  items = record { product_id = 3; quantity = pos 4 } ∷ [];
}

-- Six remain, which is above the threshold of five: no alert.
completed : (handle_order_completed (λ s. false) false tea_order reserved).0 ≡ ok []
unfolding handle_order_completed Int.◌+ℤ◌ Int.◌-ℤ◌ Int.wrap32
completed = refl

completed_settles_example :
    (quantity_of (handle_order_completed (λ s. false) false tea_order reserved).1.inventory 7 3
        +ℤ ordered 3 tea_order.items
      ≡ quantity_of reserved.inventory 7 3)
    × ((handle_order_completed (λ s. false) false tea_order reserved).1.reservations
        ≡ Table.delete (of_lines 1 7 tea_order.items) reserved.reservations)
completed_settles_example = completed_settles (λ s. false) tea_order reserved [] 3 completed

abbrev six_order : OrderCompletedEvent
six_order = record {
  order_id = 2;
  tenant_id = 7;
  items = record { product_id = 3; quantity = pos 1 } ∷ [];
}

abbrev json : Codec
json = record {
  order_completed = λ s. if str_eq s "first" then some tea_order else some six_order;
  order_voided = λ s. none;
  product_created = λ s. none;
  tenant_text = λ s. some "t7";
  sha1 = λ s. s;
  int4_as_i64 = false;
}

abbrev listening : Consumer.Env
listening = record {
  multi_location_enabled = false;
  inbox_enabled = true;
  lookup_fails = false;
  insert_fails = false;
  fails = λ s. false;
}

abbrev quiet : World
quiet = record { db = reserved; inbox = [] }

abbrev first_message : Message
first_message = record { topic = "order.completed"; key = some "k1"; text = "first" }

abbrev shelf : Item
shelf = record {
  tenant_id = 7;
  product_id = 3;
  location_id = 9;
  quantity = pos 10;
  threshold = pos 5;
}

abbrev four_due : Reservation
four_due = record four_held { location_id = some 9; expires_at = some 50 }

abbrev shelved : Db
shelved = record { inventory = []; items = shelf ∷ []; reservations = four_due ∷ [] }

abbrev sweeper : Expiry.Env
sweeper = record { multi_location_enabled = true; now = 60; fails = λ s. false }

swept : (expire_reservations sweeper shelved).1 ≢ shelved
unfolding expire_reservations Int.◌+ℤ◌
swept = λ e. ground (arith, ap (λ (db : Db). Table.select (is_due 60) db.reservations) e)

shelf_found : HasItem 7 3 9 (shelf ∷ [])
unfolding Table.first
shelf_found = (shelf, refl)

-- Six of ten are available before the sweep, and fourteen after it.
expiry_returns_twice_example :
    available_at 7 3 9 (expire_reservations sweeper shelved).1
    ≡ available_at 7 3 9 shelved
      +ℤ sum_reserved (placed 7 3 9) (Table.select (is_due 60) shelved.reservations)
      +ℤ sum_reserved (placed 7 3 9) (Table.select (is_due 60) shelved.reservations)
expiry_returns_twice_example = expiry_returns_twice sweeper 7 3 9 shelved refl shelf_found swept
