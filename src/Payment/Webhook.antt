-- ===== src/Payment/Webhook.antt =====
-- services/payment-service/src/webhook.rs: the guard before the webhook routes. SHA-256, HMAC and the
-- parser of numbers are parameters; a header that is absent or not text reads as the empty text, as
-- the code reads it.
pub mod Replay
use Prim.Native.String.{◌++◌, len, slice}
use text.Mathlib.Text.{◌==◌ as str_eq, starts_with}
use peanut_pos.Base.{
  String, Bool, false, ◌||◌, Option, none, some, List, [], ◌∷◌, ◌+◌, if◌then◌else◌,
}
use peanut_pos.Base.Int.{ℤ, pos, ◌-ℤ◌, wrap64, ltb_ℤ, pos_part, neg_part}
use peanut_pos.Base.Table.{first}

-- A request as the guard sees it; the body is `none` where it is longer than the cap of 1 MB.
pub record WebhookRequest : Type 0 where
  pub path : String
  pub signature : String
  pub timestamp : String
  pub nonce : String
  pub body : Option String

-- What the guard depends on: the clock, the configured secret and skew, whether the extensions of the
-- request hold the AppState, and whether the INSERT of the nonce is refused.
pub record Env : Type 0 where
  pub now : ℤ
  pub secret : String
  pub max_skew : ℤ
  pub has_state : Bool
  pub insert_fails : Bool

-- WEBHOOK_MAX_SKEW_SECS where it is set and parses.
abbrev pub default_max_skew : ℤ
default_max_skew = pos 300

pub data Verdict : Type 0 where
  passed_on : Verdict
  unauthorized malformed : String → Verdict

-- The nonces that were accepted: the table webhook_nonces, or `none` where no database is configured.
abbrev pub Nonces : Type 0
Nonces = Option (List String)

-- INSERT ... ON CONFLICT (nonce) DO NOTHING RETURNING 1. Where the statement fails the request is let
-- through, and nothing is recorded.
unfoldable pub claim_nonce : Env → String → Nonces → Verdict × Nonces
unfolding first
claim_nonce env nonce none = (passed_on, none)
claim_nonce env nonce (some seen) =
    if env.insert_fails then (passed_on, some seen) else elim (first (λ n. str_eq n nonce) seen) [
      | none ↦ (passed_on, some (nonce ∷ seen))
      | some _ ↦ (unauthorized "sig_replay", some seen)
    ]

-- (now - ts).unsigned_abs() as i64.
unfoldable pub skew : ℤ → ℤ → ℤ
unfolding ◌-ℤ◌ wrap64
skew now ts = let d = wrap64 (now -ℤ ts) in wrap64 (pos (pos_part d + neg_part d))

-- sig.strip_prefix("sha256=").unwrap_or(sig)
unfoldable pub provided : String → String
provided sig = if starts_with sig "sha256=" then slice sig 7 (len sig) else sig

unfoldable pub canonical : String → String → String → String
canonical ts nonce body_hash =
    ("ts:" ++ ts) ++ (("\nnonce:" ++ nonce) ++ ("\nbody_sha256:" ++ body_hash))

module _ (sha256 : String → String) (hmac : String → String → String)
    (parse_i64 : String → Option ℤ) where
  -- The checks that come before the nonce, in order.
  unfoldable pub precheck : Env → WebhookRequest → Verdict
  unfolding canonical provided skew
  precheck env req =
      if str_eq req.signature "" || (str_eq req.timestamp "" || str_eq req.nonce "")
      then unauthorized "sig_missing"
      else elim req.body [
        | none ↦ malformed "malformed"
        | some body ↦
            if str_eq (hmac env.secret (canonical req.timestamp req.nonce (sha256 body)))
              (provided req.signature)
            then elim (parse_i64 req.timestamp) [
              | none ↦ unauthorized "sig_ts_invalid"
              | some ts ↦
                  if ltb_ℤ env.max_skew (skew env.now ts)
                  then unauthorized "sig_skew"
                  else passed_on
            ]
            else unauthorized "sig_mismatch"
      ]

  -- A verdict on the request before the nonce is claimed; only a request that passes claims it, and only
  -- where the state is found in its extensions.
  unfoldable pub then_claim : Verdict → Env → String → Nonces → Verdict × Nonces
  unfolding claim_nonce
  then_claim passed_on env nonce db =
      if env.has_state then claim_nonce env nonce db else (passed_on, db)
  then_claim v env nonce db = (v, db)

  unfoldable pub verify_webhook : Env → WebhookRequest → Nonces → Verdict × Nonces
  unfolding precheck then_claim
  verify_webhook env req db =
      if starts_with req.path "/webhooks/"
      then then_claim (precheck env req) env req.nonce db
      else (passed_on, db)

  -- The requests that come in, in order.
  unfoldable pub guard_all : List (Env × WebhookRequest) → Nonces → Nonces
  unfolding verify_webhook
  guard_all [] db = db
  guard_all ((env, req) ∷ rest) db = guard_all rest (verify_webhook env req db).1

-- services/payment-service/src/main.rs: the guard is a layer made with `from_fn`, and no layer puts the
-- AppState into the extensions; `with_state` of axum hands it to the handlers only.
abbrev pub in_app : Env → Env
in_app env = record env { has_state = false }

abbrev pub all_in_app : List (Env × WebhookRequest) → List (Env × WebhookRequest)
all_in_app [] = []
all_in_app ((env, req) ∷ rest) = (in_app env, req) ∷ all_in_app rest
