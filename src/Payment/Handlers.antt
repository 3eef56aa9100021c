-- ===== src/Payment/Handlers.antt =====
-- services/payment-service/src/payment_handlers.rs: the handlers of payment intents. The database is
-- `none` where the service runs without one. A handler's statements are not in one transaction: a
-- move is checked by one statement and written by another.
pub mod Evolution
pub mod Lifecycle
pub mod Replies
pub mod Once
pub mod Races
use Prim.Native.String.{◌++◌}
use peanut_pos.Base.{ℕ, String, Bool, Option, none, some, List, [], ◌∷◌, if◌then◌else◌}
use peanut_pos.Base.Api.{
  ApiError, forbidden_missing_role, conflict, not_found, internal, Result, ok, err,
}
use peanut_pos.Base.Int.{ℤ}
use peanut_pos.Security.Role.{SecurityContext}
use peanut_pos.Security.Policy.{has_capability, payment_process}
use peanut_pos.Payment.Intent.{
  IntentState, authorized, captured, voided, refunded, is_valid_transition,
}
use peanut_pos.Payment.Repo
use peanut_pos.Payment.Repo.{PaymentIntent, Intents}

-- What the outside does during a request: the caller, the database's clock, and whether the
-- statement that reads and the one that writes are refused.
pub record Env : Type 0 where
  pub sec : SecurityContext
  pub now : ℕ
  pub read_fails : Bool
  pub write_fails : Bool

pub record IntentResponse : Type 0 where
  pub id : String
  pub state : String

pub record CreateIntentRequest : Type 0 where
  pub id : String
  pub order_id : String
  pub amount_minor : ℤ
  pub currency : String
  pub idempotency_key : Option String

-- ConfirmIntentRequest and CaptureIntentRequest have the same fields.
pub record MoveRequest : Type 0 where
  pub id : String
  pub provider : Option String
  pub provider_ref : Option String
  pub metadata_json : Option String

abbrev pub Outcome : Type 0
Outcome = Result ApiError IntentResponse × Intents

abbrev pub respond : PaymentIntent → IntentResponse
respond r = record { id = r.id; state = r.state }

-- The row that an UPDATE returned, or 404 where there was none.
abbrev pub updated : Option PaymentIntent × Intents → Outcome
updated (some r, db) = (ok (respond r), db)
updated (none, db) = (err (not_found "payment_intent_not_found"), db)

-- The capability check that every handler begins with, and the reply without a database.
abbrev pub guarded :
    Env
    → IntentResponse
    → (Intents → Outcome)
    → Option Intents
    → Result ApiError IntentResponse × Option Intents
guarded env stub run db =
    if has_capability env.sec payment_process
    then elim db [
      | none ↦ (ok stub, none)
      | some rows ↦ let (reply, rows') = run rows in (reply, some rows')
    ]
    else (err (forbidden_missing_role "payment_access"), db)

-- The read of the current row, and the check of the move.
unfoldable pub check_move : Env → IntentState → String → Intents → Result ApiError PaymentIntent
unfolding Repo.get_intent is_valid_transition
check_move env to id db = if env.read_fails then err internal else elim (Repo.get_intent db id) [
  | none ↦ err (not_found "payment_intent_not_found")
  | some cur ↦
      if is_valid_transition cur.state to then ok cur else err (conflict "invalid_state_transition")
]

-- The write of `confirm_intent` and `capture_intent`.
unfoldable pub write_move : Env → IntentState → MoveRequest → Intents → Outcome
unfolding Repo.transition_with_provider
write_move env to req db =
    if env.write_fails
    then (err internal, db)
    else updated (
        Repo.transition_with_provider env.now req.id to req.provider req.provider_ref
          req.metadata_json db)

abbrev pub then_write :
    Result ApiError PaymentIntent → (PaymentIntent → Intents → Outcome) → Intents → Outcome
then_write (err e) write db = (err e, db)
then_write (ok cur) write db = write cur db

unfoldable pub confirm_rows : Env → MoveRequest → Intents → Outcome
unfolding check_move write_move
confirm_rows env req db =
    then_write (check_move env authorized req.id db) (λ cur. write_move env authorized req) db

unfoldable pub capture_rows : Env → MoveRequest → Intents → Outcome
unfolding check_move write_move
capture_rows env req db =
    then_write (check_move env captured req.id db) (λ cur. write_move env captured req) db

-- gateway.rs, the stub that the handlers use: the reference of the reversal.
unfoldable pub gateway_void : String → String → Result ApiError (Option String)
gateway_void provider provider_ref = ok (some (provider_ref ++ "-void"))

unfoldable pub gateway_refund : String → String → Result ApiError (Option String)
gateway_refund provider provider_ref = ok (some (provider_ref ++ "-refund"))

-- The call of the gateway, made only where the row names a provider and its reference.
abbrev pub call_gateway :
    (String → String → Result ApiError (Option String))
    → Option String
    → Option String
    → Result ApiError (Option String)
call_gateway gateway (some provider) (some provider_ref) = gateway provider provider_ref
call_gateway gateway _ _ = ok none

abbrev pub passthrough :
    (String → String → Result ApiError (Option String))
    → PaymentIntent
    → Result ApiError (Option String)
passthrough gateway cur = call_gateway gateway cur.provider cur.provider_ref

-- The write of `void_intent` and `refund_intent`.
unfoldable pub write_reversal :
    Env
    → IntentState
    → String
    → (String → String → Result ApiError (Option String))
    → PaymentIntent
    → Intents
    → Outcome
unfolding Repo.transition_with_provider Repo.transition_state
write_reversal env to id gateway cur db = elim (passthrough gateway cur) [
  | err e ↦ (err e, db)
  | ok new_ref ↦ if env.write_fails then (err internal, db) else elim new_ref [
    | some r ↦ updated (Repo.transition_with_provider env.now id to cur.provider (some r) none db)
    | none ↦ updated (Repo.transition_state env.now id to db)
  ]
]

unfoldable pub void_rows : Env → String → Intents → Outcome
unfolding check_move write_reversal gateway_void
void_rows env id db =
    then_write (check_move env voided id db) (write_reversal env voided id gateway_void) db

unfoldable pub refund_rows : Env → String → Intents → Outcome
unfolding check_move write_reversal gateway_refund
refund_rows env id db =
    then_write (check_move env refunded id db) (write_reversal env refunded id gateway_refund) db

unfoldable pub create_rows : Env → CreateIntentRequest → Intents → Outcome
unfolding Repo.create_intent
create_rows env req db =
    if env.write_fails
    then (err internal, db)
    else elim (Repo.create_intent env.now req.id req.order_id req.amount_minor req.currency
        req.idempotency_key db) [
          | none ↦ (err internal, db)
          | some (r, db') ↦ (ok (respond r), db')
        ]

unfoldable pub get_rows : Env → String → Intents → Outcome
unfolding Repo.get_intent
get_rows env id db = if env.read_fails then (err internal, db) else elim (Repo.get_intent db id) [
  | none ↦ (err (not_found "payment_intent_not_found"), db)
  | some r ↦ (ok (respond r), db)
]

abbrev pub stub : String → String → IntentResponse
stub id state = record { id = id; state = state }

pub data Request : Type 0 where
  create : CreateIntentRequest → Request
  confirm capture : MoveRequest → Request
  void refund get : String → Request

-- What each handler does with the table.
unfoldable pub serve_rows : Env → Request → Intents → Outcome
unfolding create_rows confirm_rows capture_rows void_rows refund_rows get_rows
serve_rows env (create req) = create_rows env req
serve_rows env (confirm req) = confirm_rows env req
serve_rows env (capture req) = capture_rows env req
serve_rows env (void id) = void_rows env id
serve_rows env (refund id) = refund_rows env id
serve_rows env (get id) = get_rows env id

-- What it answers where no database is configured.
unfoldable pub without_db : Request → IntentResponse
without_db (create req) = stub req.id "created"
without_db (confirm req) = stub req.id "authorized"
without_db (capture req) = stub req.id "captured"
without_db (void id) = stub id "voided"
without_db (refund id) = stub id "refunded"
without_db (get id) = stub id "created"

-- One request to the service.
unfoldable pub serve :
    Env → Request → Option Intents → Result ApiError IntentResponse × Option Intents
unfolding serve_rows without_db has_capability
serve env req = guarded env (without_db req) (serve_rows env req)

-- A session: requests in order, each with its environment.
unfoldable pub session : List (Env × Request) → Option Intents → Option Intents
unfolding serve
session [] db = db
session ((env, req) ∷ rest) db = session rest (serve env req db).1
