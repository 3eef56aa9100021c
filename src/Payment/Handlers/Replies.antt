-- ===== src/Payment/Handlers/Replies.antt =====
-- What each request answers, and what it leaves in the table.
use text.Mathlib.TextEquality.{eq_iff}
use text.Mathlib.TextPositions.{eq_refl}
use peanut_pos.Base.{
  String, ◌≡◌, refl, ap, ◌⊎◌, inl, inr, true, false, Bool-cases, Option-cases, Option, none, some,
  arith,
}
use peanut_pos.Base.Table.{update, first-holds}
use peanut_pos.Base.Api.{ok, err, Result, ApiError, not_found, conflict}
use peanut_pos.Payment.Intent.{
  IntentState, as_str, authorized, captured, voided, refunded, is_valid_transition,
}
use peanut_pos.Payment.Repo.{
  PaymentIntent, Intents, by_id, set_state, set_provider, get_intent, get_intent-update,
}
use peanut_pos.Payment.Handlers.{
  Env, Request, confirm, capture, void, refund, MoveRequest, Outcome, IntentResponse, respond,
  updated, call_gateway, then_write, check_move, write_move, write_reversal, passthrough,
  gateway_void, gateway_refund, confirm_rows, capture_rows, void_rows, refund_rows, serve_rows,
  stub,
}

-- A write after its check: the reply is the id and the new state, and the row is set.
pub record Moved (to : IntentState) (id : String) (db : Intents) (out : Outcome) : Type 0 where
  pub reply : out.0 ≡ ok (stub id (as_str to))
  pub table : (r : PaymentIntent) × (get_intent out.1 id ≡ some r) × (r.state ≡ as_str to)

module _ (to : IntentState) (id : String) (f : PaymentIntent → PaymentIntent) (cur : PaymentIntent)
    (db : Intents) (keeps : (x : PaymentIntent) → (f x).id ≡ x.id)
    (sets : (x : PaymentIntent) → (f x).state ≡ as_str to)
    (found : get_intent db id ≡ some cur) where
  get_intent-update_self : get_intent (update (by_id id) f db) id ≡ some (f cur)
  get_intent-update_self = rw (get_intent-update id id f db keeps, eq_refl id, found) refl

  id_of_row : cur.id ≡ id
  id_of_row = (eq_iff cur.id id).0 (first-holds (by_id id) db cur (unfold get_intent in found))

  reply_of_row : respond (f cur) ≡ stub id (as_str to)
  reply_of_row = ground (arith, keeps cur, sets cur, id_of_row)

  update-Moved :
      (out : Outcome)
      → out ≡ updated (get_intent (update (by_id id) f db) id, update (by_id id) f db)
      → Moved to id db out
  update-Moved out e = record {
    reply = rw (e, get_intent-update_self) (ap ok reply_of_row);
    table = (f cur, rw (e, get_intent-update_self) get_intent-update_self, sets cur);
  }

module _ (env : Env) (to : IntentState) (cur : PaymentIntent) (db : Intents)
    (writes : env.write_fails ≡ false) where
  pub write_move-Moved :
      (req : MoveRequest)
      → get_intent db req.id ≡ some cur
      → Moved to req.id db (write_move env to req db)
  unfolding write_move get_intent
  write_move-Moved req found =
      update-Moved to req.id
        (set_provider env.now to req.provider req.provider_ref req.metadata_json) cur db (λ x. refl)
        (λ x. refl) found _ (rw writes refl)

  -- A gateway that answers, with a new reference or with none.
  pub write_reversal-Moved :
      (id : String) (gateway : String → String → Result ApiError (Option String))
      (row : PaymentIntent) (o : Option String)
      → passthrough gateway cur ≡ ok o
      → get_intent db id ≡ some row
      → Moved to id db (write_reversal env to id gateway cur db)
  unfolding write_reversal get_intent
  write_reversal-Moved id gateway row none h found =
      update-Moved to id (set_state env.now to) row db (λ x. refl) (λ x. refl) found _
        (rw (h, write_reversal, writes) refl)
  write_reversal-Moved id gateway row (some q) h found =
      update-Moved to id (set_provider env.now to cur.provider (some q) none) row db (λ x. refl)
        (λ x. refl) found _ (rw (h, write_reversal, writes) refl)

pub void_answers :
    (p q : Option String) → (o : Option String) × (call_gateway gateway_void p q ≡ ok o)
unfolding gateway_void
void_answers (some p) (some q) = (_, refl)
void_answers _ _ = (none, refl)

refund_answers :
    (p q : Option String) → (o : Option String) × (call_gateway gateway_refund p q ≡ ok o)
unfolding gateway_refund
refund_answers (some p) (some q) = (_, refl)
refund_answers _ _ = (none, refl)

-- The requests that move an intent, with the state that they move it to.
pub data Targets : Request → String → IntentState → Type 0 where
  confirms : (q : MoveRequest) → Targets (confirm q) q.id authorized
  captures : (q : MoveRequest) → Targets (capture q) q.id captured
  voids : (id : String) → Targets (void id) id voided
  refunds : (id : String) → Targets (refund id) id refunded

-- What a request that moves an intent does to the table, by the row that it finds.
abbrev pub Answer : Env → IntentState → String → Intents → Outcome → Type 0
Answer env to id db out =
    ((get_intent db id ≡ none) × (out ≡ (err (not_found "payment_intent_not_found"), db)))
    ⊎ ((cur : PaymentIntent) × (get_intent db id ≡ some cur)
        × (is_valid_transition cur.state to ≡ false)
        × (out ≡ (err (conflict "invalid_state_transition"), db)))
    ⊎ ((cur : PaymentIntent) × (get_intent db id ≡ some cur)
        × (is_valid_transition cur.state to ≡ true)
        × Moved to id db out)

module _ (env : Env) (db : Intents) (reads : env.read_fails ≡ false) where
  answer :
      (to : IntentState) (id : String) (write : PaymentIntent → Intents → Outcome)
      → ((cur : PaymentIntent) → get_intent db id ≡ some cur → Moved to id db (write cur db))
      → Answer env to id db (then_write (check_move env to id db) write db)
  unfolding check_move
  answer to id write moves = elim (Option-cases (get_intent db id)) [
    | inl e ↦ inl (e, rw (reads, e, check_move) refl)
    | inr (cur, e) ↦ elim (Bool-cases (is_valid_transition cur.state to)) [
      | inl v ↦ inr (inr (cur, e, v, rw (reads, e, check_move, v) (moves cur e)))
      | inr v ↦ inr (inl (cur, e, v, rw (reads, e, check_move, v) refl))
    ]
  ]

-- The write that each of these requests makes once its check has passed.
abbrev pub writes : Env → Request → PaymentIntent → Intents → Outcome
writes env (confirm q) = λ cur. write_move env authorized q
writes env (capture q) = λ cur. write_move env captured q
writes env (void id) = write_reversal env voided id gateway_void
writes env (refund id) = write_reversal env refunded id gateway_refund
writes env req = λ cur. serve_rows env req

pub serve_rows-check :
    (env : Env) (db : Intents) {req : Request} {id : String} {to : IntentState}
    → Targets req id to
    → serve_rows env req db ≡ then_write (check_move env to id db) (writes env req) db
unfolding serve_rows confirm_rows capture_rows void_rows refund_rows
serve_rows-check env db (confirms q) = refl
serve_rows-check env db (captures q) = refl
serve_rows-check env db (voids id) = refl
serve_rows-check env db (refunds id) = refl

writes-Moved :
    (env : Env) (db : Intents) (cur : PaymentIntent)
    → env.write_fails ≡ false
    → {req : Request} {id : String} {to : IntentState} → Targets req id to
    → get_intent db id ≡ some cur
    → Moved to id db (writes env req cur db)
writes-Moved env db cur w (confirms q) found = write_move-Moved env authorized cur db w q found
writes-Moved env db cur w (captures q) found = write_move-Moved env captured cur db w q found
writes-Moved env db cur w (voids id) found =
    let (o, h) = void_answers cur.provider cur.provider_ref in
    write_reversal-Moved env voided cur db w id gateway_void cur o h found
writes-Moved env db cur w (refunds id) found =
    let (o, h) = refund_answers cur.provider cur.provider_ref in
    write_reversal-Moved env refunded cur db w id gateway_refund cur o h found

-- Where the database refuses nothing, a request to confirm, capture, void or refund an intent answers
-- 404 and changes nothing if there is no such intent, answers 409 and changes nothing if no
-- documented move leads from its state to the one asked for, and otherwise replies with the new
-- state, which is then the state of the stored row.
pub move_answers :
    (env : Env) (db : Intents) (req : Request) (id : String) (to : IntentState)
    → Targets req id to
    → env.read_fails ≡ false
    → env.write_fails ≡ false
    → Answer env to id db (serve_rows env req db)
move_answers env db req id to t r w =
    rw (serve_rows-check env db t)
      (answer env db r to id (writes env req) (λ cur found. writes-Moved env db cur w t found))

-- A successful write is a write that the database accepted.
accepted :
    (env : Env) (db : Intents) (cur : PaymentIntent) (resp : IntentResponse)
    → {req : Request} {id : String} {to : IntentState} → Targets req id to
    → (writes env req cur db).0 ≡ ok resp
    → env.write_fails ≡ false
unfolding write_move write_reversal
accepted env db cur resp (confirms q) h = ground arith
accepted env db cur resp (captures q) h = ground arith
accepted env db cur resp (voids id) h =
    let (o, e) = void_answers cur.provider cur.provider_ref in ground arith
accepted env db cur resp (refunds id) h =
    let (o, e) = refund_answers cur.provider cur.provider_ref in ground arith

check_move-ok :
    (env : Env) (to : IntentState) (id : String) (db : Intents) (cur : PaymentIntent)
    → check_move env to id db ≡ ok cur
    → (get_intent db id ≡ some cur) × (is_valid_transition cur.state to ≡ true)
unfolding check_move
check_move-ok env to id db cur h = ground arith

pub ok_found :
    (env : Env) (db : Intents) (to : IntentState) (id : String)
    (write : PaymentIntent → Intents → Outcome) (resp : IntentResponse)
    → (then_write (check_move env to id db) write db).0 ≡ ok resp
    → (cur : PaymentIntent) × (get_intent db id ≡ some cur)
      × (is_valid_transition cur.state to ≡ true)
      × (then_write (check_move env to id db) write db ≡ write cur db)
ok_found env db to id write resp h = by_check (check_move env to id db) refl h
  where
    by_check :
        (c : Result ApiError PaymentIntent)
        → check_move env to id db ≡ c
        → (then_write c write db).0 ≡ ok resp
        → (cur : PaymentIntent) × (get_intent db id ≡ some cur)
          × (is_valid_transition cur.state to ≡ true)
          × (then_write c write db ≡ write cur db)
    by_check (err e) k h = cc
    by_check (ok cur) k h =
        let (found, valid) = check_move-ok env to id db cur k in (cur, found, valid, refl)

pub ok_moved :
    (env : Env) (db : Intents) (req : Request) (id : String) (to : IntentState)
    (resp : IntentResponse)
    → Targets req id to
    → (serve_rows env req db).0 ≡ ok resp
    → (r : PaymentIntent) × (get_intent (serve_rows env req db).1 id ≡ some r)
      × (r.state ≡ as_str to)
ok_moved env db req id to resp t h =
    let h' = rw (serve_rows-check env db t) at h in
    let (cur, found, valid, same) = ok_found env db to id (writes env req) resp h' in
    let w = accepted env db cur resp t (rw same at h') in
    rw (serve_rows-check env db t, same) (writes-Moved env db cur w t found).table
