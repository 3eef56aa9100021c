-- ===== src/Inventory/Consumer.antt =====
-- services/inventory-service/src/main.rs: the consumer of events with its inbox. Parsers and the hash are
-- arguments.
pub mod Inbox
use Prim.Native.String.{◌++◌ as append}
use text.Mathlib.Text.{◌==◌ as str_eq}
use peanut_pos.Base.{String, Bool, not, ◌&&◌, Option, none, some, List, [], ◌∷◌, if◌then◌else◌}
use peanut_pos.Base.Lists.{any}
use peanut_pos.Base.Table.{insert_absent}
use peanut_pos.Inventory.Store.{Db}
use peanut_pos.Inventory.Release
use peanut_pos.Inventory.Events.{
  OrderCompletedEvent, OrderVoidedEvent, ProductCreatedEvent, Site, handle_order_completed,
  handle_order_voided, handle_product_created,
}

-- A message of the stream. A payload that is no text is skipped by the consumer.
pub record Message : Type 0 where
  pub topic : String
  pub key : Option String
  pub text : String

-- JSON and SHA-1, and whether sqlx gives a column of type INT4 as an i64: it gives a column only as a
-- type that is compatible, and an error otherwise.
pub record Codec : Type 0 where
  pub order_completed : String → Option OrderCompletedEvent
  pub order_voided : String → Option OrderVoidedEvent
  pub product_created : String → Option ProductCreatedEvent
  pub tenant_text : String → Option String
  pub sha1 : String → String
  pub int4_as_i64 : Bool

-- A row of the table inbox.
pub record Seen : Type 0 where
  pub tenant : String
  pub message_key : String
  pub topic : String

pub record World : Type 0 where
  pub db : Db
  pub inbox : List Seen

pub record Env : Type 0 where
  pub multi_location_enabled : Bool
  pub inbox_enabled : Bool
  pub lookup_fails : Bool
  pub insert_fails : Bool
  pub fails : Site → Bool

module _ (json : Codec) where
  unfoldable pub dispatch : Env → Message → Db → Db
  unfolding handle_order_completed handle_order_voided handle_product_created
  dispatch env m db =
      if str_eq m.topic "order.completed"
      then elim (json.order_completed m.text) [
        | none ↦ db
        | some e ↦ (handle_order_completed env.fails env.multi_location_enabled e db).1
      ]
      else if str_eq m.topic "order.voided"
      then elim (json.order_voided m.text) [
        | none ↦ db
        | some e ↦ (handle_order_voided env.fails e db).1
      ]
      else if str_eq m.topic "product.created"
      then elim (json.product_created m.text) [
        | none ↦ db
        | some e ↦ handle_product_created env.fails e db
      ]
      else db

  -- The row by which a message is known.
  unfoldable pub seen_as : Message → Seen
  seen_as m = record {
    tenant = elim (json.tenant_text m.text) [ none ↦ "unknown" | some t ↦ t ];
    message_key = elim m.key [ none ↦ append "sha1:" (json.sha1 m.text) | some k ↦ k ];
    topic = m.topic;
  }

abbrev pub same_seen : Seen → Seen → Bool
same_seen a b =
    str_eq a.tenant b.tenant && (str_eq a.message_key b.message_key && str_eq a.topic b.topic)

module _ (json : Codec) where
  -- SELECT 1, read as an i64. A lookup that fails counts as a message not seen, and so does a row that
  -- is found and cannot be read.
  unfoldable pub already : Env → Message → World → Bool
  unfolding seen_as
  already env m w =
      not env.lookup_fails && (any (λ r. same_seen r (seen_as json m)) w.inbox && json.int4_as_i64)

  unfoldable pub consume : Env → Message → World → World
  unfolding dispatch already insert_absent
  consume env m w =
      if env.inbox_enabled
      then (if already env m w then w else record {
        db = dispatch json env m w.db;
        inbox =
            if env.insert_fails
            then w.inbox
            else insert_absent (λ r. same_seen r (seen_as json m)) (seen_as json m) w.inbox;
      })
      else record w { db = dispatch json env m w.db }

  unfoldable pub consume_all : List (Env × Message) → World → World
  unfolding consume
  consume_all [] w = w
  consume_all ((env, m) ∷ ms) w = consume_all ms (consume env m w)
