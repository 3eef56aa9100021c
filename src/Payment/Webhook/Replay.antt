-- ===== src/Payment/Webhook/Replay.antt =====
-- What gets past the webhook guard, and how often.
use text.Mathlib.Text.{◌==◌ as str_eq, starts_with}
use text.Mathlib.TextEquality.{eq_iff}
use peanut_pos.Base.{
  String, ◌≡◌, ◌≢◌, refl, ◌↔◌, Bool, true, false, not, ◌&&◌, if◌then◌else◌, Option, none, some,
  List, [], ◌∷◌, arith,
}
use peanut_pos.Base.Lists.{any}
use peanut_pos.Base.Int.{ℤ, ◌≤ℤ◌}
use peanut_pos.Base.Table.{first}
use peanut_pos.Payment.Webhook.{
  WebhookRequest, Env, Verdict, passed_on, unauthorized, malformed, Nonces, skew, provided,
  canonical, precheck, claim_nonce, verify_webhook,
}

-- The nonce is recorded already, as far as the guard can tell.
abbrev pub is_replay : Env → String → Nonces → Bool
is_replay env nonce none = false
is_replay env nonce (some seen) =
    env.has_state && (not env.insert_fails && any (λ n. str_eq n nonce) seen)

recorded_before :
    (nonce : String) (seen : List String)
    → (first (λ n. str_eq n nonce) seen ≡ none) ↔ (any (λ n. str_eq n nonce) seen ≡ false)
unfolding first
recorded_before nonce [] = (λ h. refl, λ h. refl)
recorded_before nonce (n ∷ seen) = ground (arith, recorded_before nonce seen)

claim_if_passes :
    (env : Env) (nonce : String) (db : Nonces)
    → ((if env.has_state then claim_nonce env nonce db else (passed_on, db)).0 ≡ passed_on)
      ↔ (is_replay env nonce db ≡ false)
unfolding claim_nonce
claim_if_passes env nonce none = ground arith
claim_if_passes env nonce (some seen) = ground (arith, recorded_before nonce seen)

module _ (sha256 : String → String) (hmac : String → String → String)
    (parse_i64 : String → Option ℤ) where
  -- The three headers are there, the body is within the cap and signed with the secret together with the
  -- timestamp and the nonce, and the timestamp is a number within the allowed skew.
  pub record Authentic (env : Env) (req : WebhookRequest) : Type 0 where
    pub signature : req.signature ≢ ""
    pub timestamp : req.timestamp ≢ ""
    pub nonce : req.nonce ≢ ""
    pub body : String
    pub within_cap : req.body ≡ some body
    pub signed :
        hmac env.secret (canonical req.timestamp req.nonce (sha256 body)) ≡ provided req.signature
    pub at : ℤ
    pub parses : parse_i64 req.timestamp ≡ some at
    pub fresh : skew env.now at ≤ℤ env.max_skew

  precheck-Authentic :
      (env : Env) (req : WebhookRequest)
      → precheck sha256 hmac parse_i64 env req ≡ passed_on
      → Authentic env req
  unfolding precheck
  precheck-Authentic env req h = by_parts req.body refl (parse_i64 req.timestamp) refl
    where
      by_parts :
          (b : Option String)
          → req.body ≡ b
          → (t : Option ℤ) → parse_i64 req.timestamp ≡ t
          → Authentic env req
      by_parts none e t p = absurd (ground arith)
      by_parts (some body) e none p = absurd (ground arith)
      by_parts (some body) e (some at) p = record {
        signature = ground (arith, eq_iff req.signature "");
        timestamp = ground (arith, eq_iff req.timestamp "");
        nonce = ground (arith, eq_iff req.nonce "");
        body = body;
        within_cap = e;
        signed = ground (
          arith,
          eq_iff (hmac env.secret (canonical req.timestamp req.nonce (sha256 body)))
              (provided req.signature),
        );
        at = at;
        parses = p;
        fresh = ground arith;
      }

  Authentic-precheck :
      (env : Env) (req : WebhookRequest)
      → Authentic env req
      → precheck sha256 hmac parse_i64 env req ≡ passed_on
  unfolding precheck
  Authentic-precheck env req a = ground (
    arith,
    eq_iff req.signature "",
    eq_iff req.timestamp "",
    eq_iff req.nonce "",
    eq_iff (hmac env.secret (canonical req.timestamp req.nonce (sha256 a.body)))
        (provided req.signature),
  )

  -- A request to a webhook route is let through exactly when it is authentic and not a replay: where its
  -- extensions hold the state, a database is configured and takes the statement, its nonce is not
  -- recorded.
  pub verify_webhook_iff :
      (env : Env) (req : WebhookRequest) (db : Nonces)
      → starts_with req.path "/webhooks/" ≡ true
      → ((verify_webhook sha256 hmac parse_i64 env req db).0 ≡ passed_on)
        ↔ (Authentic env req × (is_replay env req.nonce db ≡ false))
  unfolding verify_webhook
  verify_webhook_iff env req db route = by_verdict (precheck sha256 hmac parse_i64 env req) refl
    where
      by_verdict :
          (v : Verdict)
          → precheck sha256 hmac parse_i64 env req ≡ v
          → ((verify_webhook sha256 hmac parse_i64 env req db).0 ≡ passed_on)
            ↔ (Authentic env req × (is_replay env req.nonce db ≡ false))
      by_verdict passed_on e =
          let claimed = claim_if_passes env req.nonce db in
          (
            λ h. (precheck-Authentic env req e, claimed.0 (ground arith)),
            λ a. let c = claimed.1 a.1 in ground arith,
          )
      by_verdict v e =
          (λ h. absurd (ground arith), λ a. absurd (ground (arith, Authentic-precheck env req a.0)))

  -- A request that is not authentic is turned away and claims no nonce.
  pub forged_refused :
      (env : Env) (req : WebhookRequest) (db : Nonces)
      → starts_with req.path "/webhooks/" ≡ true
      → ¬ Authentic env req
      → ((verify_webhook sha256 hmac parse_i64 env req db).0 ≢ passed_on)
        × ((verify_webhook sha256 hmac parse_i64 env req db).1 ≡ db)
  unfolding verify_webhook
  forged_refused env req db route forged = by_verdict (precheck sha256 hmac parse_i64 env req) refl
    where
      by_verdict :
          (v : Verdict)
          → precheck sha256 hmac parse_i64 env req ≡ v
          → ((verify_webhook sha256 hmac parse_i64 env req db).0 ≢ passed_on)
            × ((verify_webhook sha256 hmac parse_i64 env req db).1 ≡ db)
      by_verdict passed_on e = absurd (forged (precheck-Authentic env req e))
      by_verdict (unauthorized c) e = ground arith
      by_verdict (malformed c) e = ground arith
