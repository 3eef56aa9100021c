-- ===== src/Inventory/Consumer/Inbox.antt =====
-- What the inbox does to the messages.
use peanut_pos.Base.{List, [], ◌∷◌}
use peanut_pos.Inventory.Store.{Db}
use peanut_pos.Inventory.Consumer.{Codec, Env, Message, dispatch}

module _ (json : Codec) where
  -- Every message handled, whether or not it came before.
  unfoldable pub dispatch_all : List (Env × Message) → Db → Db
  dispatch_all [] db = db
  dispatch_all ((env, m) ∷ ms) db = dispatch_all ms (dispatch json env m db)
