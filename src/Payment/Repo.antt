-- ===== src/Payment/Repo.antt =====
-- services/payment-service/src/repo.rs: the table payment_intents and its statements. The primary key
-- is `id`; `idempotency_key` is unique where it is not NULL (migrations/8002). `now` is the database's
-- clock. JSON metadata is a text.
use text.Mathlib.Text.{◌==◌ as str_eq}
use text.Mathlib.TextEquality.{eq_iff}
use peanut_pos.Base.{
  ℕ, String, ◌≡◌, inl, inr, Bool, false, Bool-cases, arith, Option, none, some, List, [], ◌∷◌, ◌++◌,
  if◌then◌else◌,
}
use peanut_pos.Base.Int.{ℤ}
use peanut_pos.Base.Table.{first, update, first-update, first-update_ne}
use peanut_pos.Payment.Intent.{IntentState, as_str}

pub record PaymentIntent : Type 0 where
  pub id : String
  pub order_id : String
  pub amount_minor : ℤ
  pub currency : String
  pub state : String
  pub provider : Option String
  pub provider_ref : Option String
  pub idempotency_key : Option String
  pub metadata_json : Option String
  pub created_at : ℕ
  pub updated_at : ℕ

abbrev pub Intents : Type 0
Intents = List PaymentIntent

abbrev pub by_id : String → PaymentIntent → Bool
by_id id r = str_eq r.id id

unfoldable pub get_intent : Intents → String → Option PaymentIntent
unfolding first
get_intent db id = first (by_id id) db

-- COALESCE($n, column).
abbrev pub coalesce : Option String → Option String → Option String
coalesce none old = old
coalesce (some new) old = some new

-- Two idempotency keys clash in the unique index; NULLs never do.
abbrev pub clash : Option String → Option String → Bool
clash (some a) (some b) = str_eq a b
clash _ _ = false

-- `none` is the refusal by the unique index on idempotency_key.
unfoldable pub create_intent :
    ℕ → String → String → ℤ → String → Option String → Intents → Option (PaymentIntent × Intents)
unfolding first update
create_intent now id order_id amount_minor currency key db = elim (first (by_id id) db) [
  | some r ↦
      some
        (record r { updated_at = now }, update (by_id id) (λ r. record r { updated_at = now }) db)
  | none ↦ elim (first (λ r. clash r.idempotency_key key) db) [
    | some other ↦ none
    | none ↦
        let r : PaymentIntent = record {
          id = id;
          order_id = order_id;
          amount_minor = amount_minor;
          currency = currency;
          state = "created";
          provider = none;
          provider_ref = none;
          idempotency_key = key;
          metadata_json = none;
          created_at = now;
          updated_at = now;
        } in
        some (r, db ++ r ∷ [])
  ]
]

abbrev pub set_state : ℕ → IntentState → PaymentIntent → PaymentIntent
set_state now new_state r = record r { state = as_str new_state; updated_at = now }

unfoldable pub transition_state :
    ℕ → String → IntentState → Intents → Option PaymentIntent × Intents
unfolding first update as_str
transition_state now id new_state db =
    let db' = update (by_id id) (set_state now new_state) db in (first (by_id id) db', db')

abbrev pub set_provider :
    ℕ → IntentState → Option String → Option String → Option String → PaymentIntent → PaymentIntent
set_provider now new_state provider provider_ref metadata r = record r {
  state = as_str new_state;
  provider = coalesce provider r.provider;
  provider_ref = coalesce provider_ref r.provider_ref;
  metadata_json = coalesce metadata r.metadata_json;
  updated_at = now;
}

unfoldable pub transition_with_provider :
    ℕ
    → String
    → IntentState
    → Option String
    → Option String
    → Option String
    → Intents
    → Option PaymentIntent × Intents
unfolding first update as_str
transition_with_provider now id new_state provider provider_ref metadata db =
    let db' = update (by_id id) (set_provider now new_state provider provider_ref metadata) db in
    (first (by_id id) db', db')

module _ (id k : String) (f : PaymentIntent → PaymentIntent) (db : Intents)
    (keeps : (r : PaymentIntent) → (f r).id ≡ r.id) where
  -- An UPDATE by id changes the row of that id, and no other.
  pub get_intent-update : get_intent (update (by_id id) f db) k ≡ (
      if str_eq id k
      then elim (get_intent db k) [ none ↦ none | some r ↦ some (f r) ]
      else get_intent db k)
  unfolding get_intent
  get_intent-update = elim (Bool-cases (str_eq id k)) [
    | inl e ↦ rw e (
        first-update (by_id k) (by_id id) f db (λ r. rw (keeps r))
          (λ r h. ground (arith, eq_iff id k, eq_iff r.id k, eq_iff r.id id)))
    | inr e ↦ rw e (
        first-update_ne (by_id k) (by_id id) f db (λ r. rw (keeps r))
          (λ r h. ground (arith, eq_iff id k, eq_iff r.id k, eq_iff r.id id)))
  ]
