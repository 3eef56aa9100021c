-- ===== src/Payment/Handlers/Once.antt =====
-- How often an intent makes a move over a session.
use mathlib.Core.Option.{some-injective}
use peanut_pos.Base.{
  String, ◌≡◌, ◌≢◌, ◌≤◌, ◌<◌, ◌∙◌, ℕ, sym, ap, subst, inl, inr, some, Bool-cases, Option-cases,
  List, arith,
}
use peanut_pos.Security.Policy.{has_capability, payment_process}
use peanut_pos.Base.Api.{ok}
use peanut_pos.Payment.Intent.{
  IntentState, as_str, created, authorized, captured, voided, refunded, failed, Move,
  is_valid_transition_iff, as_str-injective,
}
use peanut_pos.Payment.Repo.{PaymentIntent, Intents}
use peanut_pos.Payment.Handlers.{Env, Request, IntentResponse, serve_rows, serve, session}
use peanut_pos.Payment.Handlers.Evolution.{Moves, stay, move}
use peanut_pos.Payment.Handlers.Lifecycle.{stored, session-Later}
use peanut_pos.Payment.Handlers.Replies.{Targets, writes, ok_moved, ok_found, serve_rows-check}

-- How many moves lead to a state.
rank : IntentState → ℕ
rank created = 0
rank authorized = 1
rank captured = 2
rank voided = 2
rank refunded = 3
rank failed = 0

Move-rank : {a b : IntentState} → Move a b → rank a < rank b
unfolding rank
Move-rank Move.confirm = omega arith
Move-rank Move.capture = omega arith
Move-rank Move.void = omega arith
Move-rank Move.refund = omega arith

Moves-rank : (a b : IntentState) {t : String} → Moves (as_str a) t → t ≡ as_str b → rank a ≤ rank b
Moves-rank a b stay e = subst (λ x. rank a ≤ rank x) (as_str-injective a b e) (omega arith)
Moves-rank a b (move c d m p q e') e =
    let up = Moves-rank a c m p in
    let step = Move-rank q in
    let same : d ≡ b = as_str-injective d b (sym e' ∙ e) in
    subst (λ x. rank a ≤ rank x) same (omega arith)

served_rows :
    (env : Env) (req : Request) (rows : Intents) (resp : IntentResponse)
    → (serve env req (some rows)).0 ≡ ok resp
    → ((serve_rows env req rows).0 ≡ ok resp)
      × ((serve env req (some rows)).1 ≡ some (serve_rows env req rows).1)
unfolding serve
served_rows env req rows resp h = elim (Bool-cases (has_capability env.sec payment_process)) [
  | inl e ↦ ground arith
  | inr e ↦ absurd (ground arith)
]

-- Where a database is configured, an intent is confirmed, captured, voided or refunded at most once:
-- after a request that succeeded and any further requests, by any callers and with any refusals by the
-- database, no second request for the same move of the same intent succeeds.
pub moves_once :
    (env env' : Env) (es : List (Env × Request)) (rows : Intents) (req req' : Request) (id : String)
    (to : IntentState) (resp resp' : IntentResponse)
    → Targets req id to
    → Targets req' id to
    → (serve env req (some rows)).0 ≡ ok resp
    → (serve env' req' (session es (serve env req (some rows)).1)).0 ≢ ok resp'
moves_once env env' es rows req req' id to resp resp' t t' h h' =
    let (done, after) = served_rows env req rows resp h in
    let (r, found, state) = ok_moved env rows req id to resp t done in
    let here : stored (serve env req (some rows)).1 id ≡ some r = rw after found in
    let (r', later, path) = session-Later es id r (serve env req (some rows)).1 here in
    elim (Option-cases (session es (serve env req (some rows)).1)) [
      | inl e ↦ absurd (ground arith)
      | inr (rows', e) ↦
          let (done', _) = served_rows env' req' rows' resp' (rw e at h') in
          let again = rw (serve_rows-check env' rows' t') at done' in
          let (cur, found', valid, _) = ok_found env' rows' to id (writes env' req') resp' again in
          let same : r' ≡ cur =
            some-injective r' cur (sym later ∙ ap (λ x. stored x id) e ∙ found') in
          let (from, at, m) = (is_valid_transition_iff cur.state to).0 valid in
          let up =
            Moves-rank to from (subst (λ x. Moves x r'.state) state path.state)
              (ap (λ (x : PaymentIntent). x.state) same ∙ at) in
          let step = Move-rank m in absurd (omega arith)
    ]
