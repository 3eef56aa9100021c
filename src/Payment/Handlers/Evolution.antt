-- ===== src/Payment/Handlers/Evolution.antt =====
-- What an intent may become: its terms stay and its state follows documented moves.
use peanut_pos.Base.{ℕ, String, ◌≡◌, refl, ◌∙◌, Option, some}
use peanut_pos.Payment.Intent.{IntentState, as_str, Move}
use peanut_pos.Payment.Repo.{PaymentIntent, set_state, set_provider}

-- A path of documented moves between stored states.
pub data Moves (s : String) : String → Type 0 where
  stay : Moves s s
  move :
      {t u : String} (a b : IntentState)
      → Moves s t
      → t ≡ as_str a
      → Move a b
      → u ≡ as_str b
      → Moves s u

Moves-trans : {s t u : String} → Moves s t → Moves t u → Moves s u
Moves-trans m stay = m
Moves-trans m (move a b n p q e) = move a b (Moves-trans m n) p q e

-- The terms of the payment stay as they were created, and the state follows a path.
pub record Evolves (r r' : PaymentIntent) : Type 0 where
  pub order_id : r'.order_id ≡ r.order_id
  pub amount_minor : r'.amount_minor ≡ r.amount_minor
  pub currency : r'.currency ≡ r.currency
  pub idempotency_key : r'.idempotency_key ≡ r.idempotency_key
  pub created_at : r'.created_at ≡ r.created_at
  pub state : Moves r.state r'.state

pub Evolves-refl : (r : PaymentIntent) → Evolves r r
Evolves-refl r = record {
  order_id = refl;
  amount_minor = refl;
  currency = refl;
  idempotency_key = refl;
  created_at = refl;
  state = stay;
}

pub Evolves-trans : {a b c : PaymentIntent} → Evolves a b → Evolves b c → Evolves a c
Evolves-trans p q = record {
  order_id = q.order_id ∙ p.order_id;
  amount_minor = q.amount_minor ∙ p.amount_minor;
  currency = q.currency ∙ p.currency;
  idempotency_key = q.idempotency_key ∙ p.idempotency_key;
  created_at = q.created_at ∙ p.created_at;
  state = Moves-trans p.state q.state;
}

-- What a lookup finds later, of a row that was found before.
abbrev pub Later : Option PaymentIntent → PaymentIntent → Type 0
Later o r = (r' : PaymentIntent) × (o ≡ some r') × Evolves r r'

pub self-Later : (o : Option PaymentIntent) (r : PaymentIntent) → o ≡ some r → Later o r
self-Later o r h = (r, h, Evolves-refl r)

-- An assignment that sets the state to `to` and leaves the terms and the id.
pub record Sets (to : IntentState) (f : PaymentIntent → PaymentIntent) : Type 0 where
  pub id : (x : PaymentIntent) → (f x).id ≡ x.id
  pub grows : (x : PaymentIntent) → Moves x.state (f x).state → Evolves x (f x)
  pub state : (x : PaymentIntent) → (f x).state ≡ as_str to

pub same_terms :
    (x : PaymentIntent) (state : String) (provider provider_ref metadata : Option String) (at : ℕ)
    → Moves x.state state
    → Evolves x (record x {
      state = state;
      provider = provider;
      provider_ref = provider_ref;
      metadata_json = metadata;
      updated_at = at;
    })
same_terms x state provider provider_ref metadata at m = record {
  order_id = refl;
  amount_minor = refl;
  currency = refl;
  idempotency_key = refl;
  created_at = refl;
  state = m;
}

pub Sets-set_provider :
    (now : ℕ) (to : IntentState) (p q m : Option String) → Sets to (set_provider now to p q m)
Sets-set_provider now to p q m = record {
  id = λ x. refl;
  grows = λ x h. same_terms x _ _ _ _ now h;
  state = λ x. refl;
}

pub Sets-set_state : (now : ℕ) (to : IntentState) → Sets to (set_state now to)
Sets-set_state now to = record {
  id = λ x. refl;
  grows = λ x h. same_terms x _ x.provider x.provider_ref x.metadata_json now h;
  state = λ x. refl;
}
