-- ===== src/Payment/Handlers/Lifecycle.antt =====
-- How an intent changes over a session: what stays fixed, and which way its state goes.
use text.Mathlib.Text.{◌==◌ as str_eq}
use text.Mathlib.TextEquality.{eq_iff}
use peanut_pos.Security.Policy.{has_capability, payment_process}
use peanut_pos.Base.{
  subst, String, ◌≡◌, refl, sym, ◌∙◌, ◌⊎◌, inl, inr, true, false, Bool-cases, Option, none, some,
  List, [], ◌∷◌, arith,
}
use peanut_pos.Base.Table.{first, update, first-append}
use peanut_pos.Base.Api.{ok, err, Result, ApiError}
use peanut_pos.Payment.Intent.{
  IntentState, as_str, authorized, captured, voided, refunded, Move, is_valid_transition,
  is_valid_transition_iff, as_str-injective, created, failed,
}
use peanut_pos.Payment.Repo.{
  PaymentIntent, Intents, by_id, clash, set_state, set_provider, get_intent, get_intent-update,
}
use peanut_pos.Payment.Handlers.{
  Env, Request, create, confirm, capture, void, refund, get, CreateIntentRequest, MoveRequest,
  Outcome, then_write, check_move, write_move, write_reversal, passthrough, gateway_void,
  gateway_refund, create_rows, confirm_rows, capture_rows, void_rows, refund_rows, get_rows,
  serve_rows, serve, session,
}
use peanut_pos.Payment.Handlers.Evolution.{
  Moves, stay, move, Evolves-trans, Later, self-Later, Sets, same_terms, Sets-set_provider,
  Sets-set_state,
}

-- The table after a write: as it was, or with the row of one id set.
abbrev Written : IntentState → String → Intents → Intents → Type 0
Written to id db t =
    (t ≡ db) ⊎ ((f : PaymentIntent → PaymentIntent) × Sets to f × (t ≡ update (by_id id) f db))

module _ (env : Env) (to : IntentState) where
  write_move-Written :
      (req : MoveRequest) (db : Intents) → Written to req.id db (write_move env to req db).1
  unfolding write_move
  write_move-Written req db = elim (Bool-cases env.write_fails) [
    | inl e ↦ inl (rw e)
    | inr e ↦ inr (
      set_provider env.now to req.provider req.provider_ref req.metadata_json,
      Sets-set_provider env.now to _ _ _,
      ground arith,
    )
  ]

  write_reversal-Written :
      (id : String) (gateway : String → String → Result ApiError (Option String))
      (cur : PaymentIntent) (db : Intents)
      → Written to id db (write_reversal env to id gateway cur db).1
  unfolding write_reversal
  write_reversal-Written id gateway cur db = by_ref (passthrough gateway cur) refl
    where
      by_ref :
          (o : Result ApiError (Option String))
          → passthrough gateway cur ≡ o
          → Written to id db (write_reversal env to id gateway cur db).1
      by_ref (err e) h = inl (ground arith)
      by_ref (ok none) h = elim (Bool-cases env.write_fails) [
        | inl e ↦ inl (ground arith)
        | inr e ↦ inr (set_state env.now to, Sets-set_state env.now to, ground arith)
      ]
      by_ref (ok (some q)) h = elim (Bool-cases env.write_fails) [
        | inl e ↦ inl (ground arith)
        | inr e ↦ inr (
          set_provider env.now to cur.provider (some q) none,
          Sets-set_provider env.now to cur.provider (some q) none,
          ground arith,
        )
      ]

module _ (env : Env) (k : String) (r : PaymentIntent) (db : Intents)
    (here : get_intent db k ≡ some r) where
  checked :
      (to : IntentState) (id : String) (cur : PaymentIntent)
      → check_move env to id db ≡ ok cur
      → (get_intent db id ≡ some cur) × (is_valid_transition cur.state to ≡ true)
  unfolding check_move
  checked to id cur h = ground arith

  -- A row that the write sets was in a state from which a documented move leads to the new one.
  Written-Later :
      (id : String) (to : IntentState) (cur : PaymentIntent) (t : Intents)
      → check_move env to id db ≡ ok cur
      → Written to id db t
      → Later (get_intent t k) r
  Written-Later id to cur t h (inl e) = rw e (self-Later _ r here)
  Written-Later id to cur t h (inr (f, s, e)) =
      let (found, valid) = checked to id cur h in
      elim (Bool-cases (str_eq id k)) [
        | inl at ↦
            let same : r ≡ cur = ground (arith, eq_iff id k) in
            let (a, p, m) = (is_valid_transition_iff cur.state to).0 valid in
            (
              f r,
              rw (e, get_intent-update id k f db s.id, at, here) refl,
              s.grows r (move a to stay (rw same p) m (s.state r)),
            )
        | inr off ↦ rw e (self-Later _ r (rw (get_intent-update id k f db s.id, off) here))
      ]

  then_write-Later :
      (id : String) (to : IntentState) (write : PaymentIntent → Intents → Outcome)
      → ((cur : PaymentIntent) → Written to id db (write cur db).1)
      → Later (get_intent (then_write (check_move env to id db) write db).1 k) r
  then_write-Later id to write w = by_check (check_move env to id db) refl
    where
      by_check :
          (c : Result ApiError PaymentIntent)
          → check_move env to id db ≡ c
          → Later (get_intent (then_write c write db).1 k) r
      by_check (err e) h = self-Later _ r here
      by_check (ok cur) h = Written-Later id to cur _ h (w cur)

  -- The upsert touches the clock of a row that is there, and adds no second row of its id.
  create-Later : (req : CreateIntentRequest) → Later (get_intent (create_rows env req db).1 k) r
  unfolding create_rows get_intent
  create-Later req = elim (Bool-cases env.write_fails) [
    | inl e ↦ rw e (self-Later _ r here)
    | inr e ↦
        by_row e (first (by_id req.id) db) refl
          (first (λ x. clash x.idempotency_key req.idempotency_key) db) refl
  ]
    where
      touch : PaymentIntent → PaymentIntent
      touch x = record x { updated_at = env.now }

      touched : Later (first (by_id k) (update (by_id req.id) touch db)) r
      touched = elim (Bool-cases (str_eq req.id k)) [
        | inl at ↦ (
          touch r,
          rw (get_intent-update req.id k touch db (λ x. refl), at, here) refl,
          same_terms r r.state r.provider r.provider_ref r.metadata_json env.now stay,
        )
        | inr off ↦ self-Later _ r (rw (get_intent-update req.id k touch db (λ x. refl), off) here)
      ]

      by_row :
          env.write_fails ≡ false
          → (o : Option PaymentIntent) → first (by_id req.id) db ≡ o
          → (p : Option PaymentIntent)
          → first (λ x. clash x.idempotency_key req.idempotency_key) db ≡ p
          → Later (first (by_id k) (create_rows env req db).1) r
      by_row e (some x) h p q = rw (e, h) touched
      by_row e none h (some y) q = rw (e, h, q) (self-Later _ r here)
      by_row e none h none q =
          rw (e, h, q) (self-Later _ r (rw (first-append (by_id k) db, here) refl))

  -- Whatever the request, a row that was there is there afterwards, with the same order, amount,
  -- currency, idempotency key and time of creation, and with a state that is reached by documented moves.
  pub serve_rows-Later : (req : Request) → Later (get_intent (serve_rows env req db).1 k) r
  unfolding serve_rows confirm_rows capture_rows void_rows refund_rows get_rows
  serve_rows-Later (create req) = create-Later req
  serve_rows-Later (confirm req) =
      then_write-Later req.id authorized _ λ cur. write_move-Written env authorized req db
  serve_rows-Later (capture req) =
      then_write-Later req.id captured _ λ cur. write_move-Written env captured req db
  serve_rows-Later (void id) =
      then_write-Later id voided _ λ cur. write_reversal-Written env voided id gateway_void cur db
  serve_rows-Later (refund id) =
      then_write-Later id refunded _
        λ cur. write_reversal-Written env refunded id gateway_refund cur db
  serve_rows-Later (get id) = self-Later _ r (ground arith)

-- The row of an id, where a database is configured.
abbrev pub stored : Option Intents → String → Option PaymentIntent
stored none k = none
stored (some rows) k = get_intent rows k

pub serve-Later :
    (env : Env) (req : Request) (k : String) (r : PaymentIntent) (db : Option Intents)
    → stored db k ≡ some r
    → Later (stored (serve env req db).1 k) r
unfolding serve
serve-Later env req k r none h = cc
serve-Later env req k r (some rows) h = elim (Bool-cases (has_capability env.sec payment_process)) [
  | inl e ↦ rw e (serve_rows-Later env k r rows h req)
  | inr e ↦ rw e (self-Later _ r h)
]

-- Over any session, with any callers and any refusals by the database, an intent that is stored stays
-- stored, its order, amount, currency, idempotency key and time of creation never change, and its
-- state only ever goes along the documented moves.
pub session-Later :
    (es : List (Env × Request)) (k : String) (r : PaymentIntent) (db : Option Intents)
    → stored db k ≡ some r
    → Later (stored (session es db) k) r
unfolding session
session-Later [] k r db h = self-Later _ r h
session-Later ((env, req) ∷ es) k r db h =
    let (m, found, p) = serve-Later env req k r db h in
    let (r', found', q) = session-Later es k m (serve env req db).1 found in
    (r', found', Evolves-trans p q)

-- No documented move leaves a final state.
Moves-final :
    (f : IntentState) {t : String}
    → ((to : IntentState) → ¬ Move f to)
    → Moves (as_str f) t
    → t ≡ as_str f
Moves-final f final stay = refl
Moves-final f final (move a b m p q e) =
    let at : as_str f ≡ as_str a = sym (Moves-final f final m) ∙ p in
    absurd (final b (subst (λ x. Move x b) (sym (as_str-injective f a at)) q))

-- An intent that is refunded, voided or failed stays so over any session.
session_final :
    (es : List (Env × Request)) (k : String) (r : PaymentIntent) (db : Option Intents)
    (f : IntentState)
    → (f ≡ refunded) ⊎ (f ≡ voided) ⊎ (f ≡ failed)
    → stored db k ≡ some r
    → r.state ≡ as_str f
    → (r' : PaymentIntent) × (stored (session es db) k ≡ some r') × (r'.state ≡ as_str f)
session_final es k r db f w h s =
    let (r', found, p) = session-Later es k r db h in
    (r', found, Moves-final f (no_move f w) (subst (λ x. Moves x r'.state) s p.state))
  where
    no_move :
        (f : IntentState)
        → (f ≡ refunded) ⊎ (f ≡ voided) ⊎ (f ≡ failed)
        → (to : IntentState) → ¬ Move f to
    no_move created w to Move.confirm = ground arith
    no_move authorized w to Move.capture = ground arith
    no_move authorized w to Move.void = ground arith
    no_move captured w to Move.refund = ground arith
    no_move refunded w to m = elim m [ ]
    no_move voided w to m = elim m [ ]
    no_move failed w to m = elim m [ ]
