-- ===== src/Payment/Handlers/Races.antt =====
-- Two requests whose checks both come before either write: the UPDATE names the id only, so the second
-- write goes through from a state that its check never saw.
use peanut_pos.Base.{◌≡◌, refl, false, some}
use peanut_pos.Base.Api.{ok}
use peanut_pos.Payment.Intent.{authorized, captured, voided, as_str, is_valid_transition_iff, Move}
use peanut_pos.Payment.Repo.{PaymentIntent, Intents, get_intent}
use peanut_pos.Payment.Handlers.{
  Env, MoveRequest, Outcome, check_move, write_move, write_reversal, gateway_void,
}
use peanut_pos.Payment.Handlers.Replies.{
  Moved, write_move-Moved, write_reversal-Moved, void_answers,
}

-- On any authorized intent, a capture and a void that are both checked before either writes both
-- succeed: the captured payment is then recorded as voided, which no documented move allows.
pub void_overwrites_capture :
    (env env' : Env) (q : MoveRequest) (db : Intents) (cur : PaymentIntent)
    → get_intent db q.id ≡ some cur
    → cur.state ≡ as_str authorized
    → env.read_fails ≡ false
    → env.write_fails ≡ false
    → env'.read_fails ≡ false
    → env'.write_fails ≡ false
    → let first : Outcome = write_move env captured q db in
      let second : Outcome = write_reversal env' voided q.id gateway_void cur first.1 in
      (check_move env captured q.id db ≡ ok cur)
      × (check_move env' voided q.id db ≡ ok cur)
      × Moved captured q.id db first
      × Moved voided q.id first.1 second
unfolding check_move
void_overwrites_capture env env' q db cur found state r w r' w' =
    let first = write_move-Moved env captured cur db w q found in
    let (o, h) = void_answers cur.provider cur.provider_ref in
    let (row, stored, _) = first.table in
    (
      rw
          (
            r,
            found,
            check_move,
            (is_valid_transition_iff cur.state captured).1 (authorized, state, Move.capture),
          )
          refl,
      rw
          (
            r',
            found,
            check_move,
            (is_valid_transition_iff cur.state voided).1 (authorized, state, Move.void),
          )
          refl,
      first,
      write_reversal-Moved env' voided cur _ w' q.id gateway_void row o h stored,
    )
