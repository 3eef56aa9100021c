-- ===== src/Payment/Tests.antt =====
-- Runs of the payment handlers and of the webhook guard, and the theorems at them.
use text.Mathlib.Text.{starts_with}
use peanut_pos.Base.{String, ◌≡◌, ◌≢◌, ◌↔◌, refl, true, false, Option, none, some, [], ◌∷◌}
use peanut_pos.Base.Int.{ℤ, pos}
use peanut_pos.Base.Api.{ok}
use peanut_pos.Security.Role.{cashier}
use peanut_pos.Payment.Intent.{as_str, authorized, captured, voided}
use peanut_pos.Payment.Repo
use peanut_pos.Payment.Repo.{PaymentIntent, Intents}
use peanut_pos.Payment.Handlers
use peanut_pos.Payment.Handlers.{
  MoveRequest, Request, IntentResponse, capture, refund, void, serve_rows, session, stub,
}
use peanut_pos.Payment.Handlers.Lifecycle.{stored, session-Later}
use peanut_pos.Payment.Handlers.Evolution.{Later}
use peanut_pos.Payment.Handlers.Replies.{captures, Moved, Answer, move_answers}
use peanut_pos.Payment.Handlers.Once.{moves_once}
use peanut_pos.Payment.Handlers.Races.{void_overwrites_capture}
use peanut_pos.Payment.Webhook
use peanut_pos.Payment.Webhook.{
  WebhookRequest, Verdict, passed_on, verify_webhook, guard_all, in_app, all_in_app,
}
use peanut_pos.Payment.Webhook.Replay.{Authentic, verify_webhook_iff}

abbrev card : PaymentIntent
card = record {
  id = "pi_1";
  order_id = "o1";
  amount_minor = pos 500;
  currency = "USD";
  state = "authorized";
  provider = none;
  provider_ref = none;
  idempotency_key = none;
  metadata_json = none;
  created_at = 1;
  updated_at = 1;
}

abbrev terminal : Handlers.Env
terminal = record {
  sec = record { tenant_id = 7; roles = cashier ∷ [] };
  now = 5;
  read_fails = false;
  write_fails = false;
}

abbrev take : MoveRequest
take = record { id = "pi_1"; provider = none; provider_ref = none; metadata_json = none }

card_stored : stored (some (card ∷ [])) "pi_1" ≡ some card
unfolding Repo.get_intent
card_stored = refl

session-Later_example :
    Later
      (stored
        (session ((terminal, capture take) ∷ (terminal, refund "pi_1") ∷ []) (some (card ∷ [])))
        "pi_1")
      card
session-Later_example =
    session-Later ((terminal, capture take) ∷ (terminal, refund "pi_1") ∷ []) "pi_1" card
      (some (card ∷ [])) card_stored

move_answers_example :
    Answer terminal captured "pi_1" (card ∷ []) (serve_rows terminal (capture take) (card ∷ []))
move_answers_example =
    move_answers terminal (card ∷ []) (capture take) "pi_1" captured (captures take) refl refl

capture_succeeds :
    (Handlers.serve terminal (capture take) (some (card ∷ []))).0
    ≡ ok (record { id = "pi_1"; state = "captured" })
unfolding Handlers.serve
capture_succeeds = refl

-- The same capture again, after a refund.
moves_once_example :
    (Handlers.serve terminal (capture take) (
      session
        ((terminal, refund "pi_1") ∷ [])
        (Handlers.serve terminal (capture take) (some (card ∷ []))).1)).0
    ≢ ok (record { id = "pi_1"; state = "captured" })
moves_once_example =
    moves_once terminal terminal ((terminal, refund "pi_1") ∷ []) (card ∷ []) (capture take)
      (capture take) "pi_1" captured (record { id = "pi_1"; state = "captured" })
      (record { id = "pi_1"; state = "captured" }) (captures take) (captures take) capture_succeeds

card_authorized : card.state ≡ as_str authorized
unfolding as_str
card_authorized = refl

void_overwrites_capture_example :
    (Handlers.check_move terminal captured "pi_1" (card ∷ []) ≡ ok card)
    × (Handlers.check_move terminal voided "pi_1" (card ∷ []) ≡ ok card)
    × Moved captured "pi_1" (card ∷ []) (Handlers.write_move terminal captured take (card ∷ []))
    × Moved voided "pi_1" (Handlers.write_move terminal captured take (card ∷ [])).1 (
        Handlers.write_reversal terminal voided "pi_1" Handlers.gateway_void card
          (Handlers.write_move terminal captured take (card ∷ [])).1)
void_overwrites_capture_example =
    void_overwrites_capture terminal terminal take (card ∷ []) card card_stored card_authorized refl
      refl refl refl

abbrev digest : String → String
digest s = s

abbrev mac : String → String → String
mac secret message = "c0ffee"

abbrev number : String → Option ℤ
number s = some (pos 1000)

abbrev guard : Webhook.Env
guard = record {
  now = pos 1100;
  secret = "s";
  max_skew = pos 300;
  has_state = true;
  insert_fails = false;
}

abbrev signed : WebhookRequest
signed = record {
  path = "/webhooks/stripe";
  signature = "sha256=c0ffee";
  timestamp = "1000";
  nonce = "n1";
  body = some "{}";
}

signed_route : starts_with signed.path "/webhooks/" ≡ true
signed_route = refl

signed_accepted :
    verify_webhook digest mac number guard signed (some []) ≡ (passed_on, some ("n1" ∷ []))
unfolding verify_webhook
signed_accepted = refl

verify_webhook_iff_example :
    ((verify_webhook digest mac number guard signed (some ("n1" ∷ []))).0 ≡ passed_on)
    ↔ (Authentic digest mac number guard signed × (true ≡ false))
verify_webhook_iff_example =
    verify_webhook_iff digest mac number guard signed (some ("n1" ∷ [])) signed_route

replay_let_through :
    (verify_webhook digest mac number
      (in_app guard)
      signed
      (guard_all digest mac number (all_in_app ((guard, signed) ∷ [])) (some []))).0
    ≡ passed_on
unfolding verify_webhook guard_all
replay_let_through = refl
