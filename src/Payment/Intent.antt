-- ===== src/Payment/Intent.antt =====
-- services/payment-service/src/repo.rs: the states of an intent and the moves between them. The
-- state is a text in the table and an enum in the code.
use text.Mathlib.Text.{◌==◌ as str_eq}
use text.Mathlib.TextEquality.{eq_iff}
use mathlib.Core.Option.{some-injective}
use peanut_pos.Base.{
  ap, ◌∙◌, String, ◌≡◌, refl, sym, ◌↔◌, Bool, true, false, Option, none, some, arith, if◌then◌else◌,
}

pub data IntentState : Type 0 where
  created authorized captured refunded voided failed : IntentState

unfoldable pub as_str : IntentState → String
as_str created = "created"
as_str authorized = "authorized"
as_str captured = "captured"
as_str refunded = "refunded"
as_str voided = "voided"
as_str failed = "failed"

unfoldable pub from_str : String → Option IntentState
from_str s =
    if str_eq s "created"
    then some created
    else if str_eq s "authorized"
    then some authorized
    else if str_eq s "captured"
    then some captured
    else if str_eq s "refunded"
    then some refunded
    else if str_eq s "voided"
    then some voided
    else if str_eq s "failed"
    then some failed
    else none

-- The match on the parsed state, and on the target.
unfoldable pub may_move : Option IntentState → IntentState → Bool
may_move (some created) authorized = true
may_move (some authorized) captured = true
may_move (some authorized) voided = true
may_move (some captured) refunded = true
may_move _ _ = false

unfoldable pub is_valid_transition : String → IntentState → Bool
unfolding may_move from_str
is_valid_transition from_state to = may_move (from_str from_state) to

-- Writing a state and reading it back.
pub from_str-as_str : (s : IntentState) → from_str (as_str s) ≡ some s
unfolding from_str as_str
from_str-as_str created = refl
from_str-as_str authorized = refl
from_str-as_str captured = refl
from_str-as_str refunded = refl
from_str-as_str voided = refl
from_str-as_str failed = refl

-- A text that reads as a state is the text that the state is written as.
pub as_str-from_str : (t : String) (s : IntentState) → from_str t ≡ some s → as_str s ≡ t
unfolding from_str as_str
as_str-from_str t s h = ground (
  arith,
  eq_iff t "created",
  eq_iff t "authorized",
  eq_iff t "captured",
  eq_iff t "refunded",
  eq_iff t "voided",
  eq_iff t "failed",
)

-- The documented moves of an intent, as a relation.
pub data Move : IntentState → IntentState → Type 0 where
  confirm : Move created authorized
  capture : Move authorized captured
  void : Move authorized voided
  refund : Move captured refunded

may_move-Move :
    (o : Option IntentState) (to : IntentState)
    → may_move o to ≡ true
    → (from : IntentState) × (o ≡ some from) × Move from to
unfolding may_move
may_move-Move (some created) authorized h = (created, refl, confirm)
may_move-Move (some authorized) captured h = (authorized, refl, capture)
may_move-Move (some authorized) voided h = (authorized, refl, void)
may_move-Move (some captured) refunded h = (captured, refl, refund)
may_move-Move _ _ h = cc

Move-may_move : {from to : IntentState} → Move from to → may_move (some from) to ≡ true
unfolding may_move
Move-may_move confirm = refl
Move-may_move capture = refl
Move-may_move void = refl
Move-may_move refund = refl

-- The test accepts a stored text and a target exactly when the text names a state from which a
-- documented move leads to the target.
pub is_valid_transition_iff :
    (t : String) (to : IntentState)
    → (is_valid_transition t to ≡ true) ↔ ((from : IntentState) × (t ≡ as_str from) × Move from to)
unfolding is_valid_transition
is_valid_transition_iff t to = (
  λ h.
      let (from, e, m) = may_move-Move (from_str t) to h in
      (from, sym (as_str-from_str t from e), m),
  λ (from, e, m). rw (e, from_str-as_str from) (Move-may_move m),
)

-- Two states are not written alike.
pub as_str-injective : (a b : IntentState) → as_str a ≡ as_str b → a ≡ b
as_str-injective a b h =
    some-injective a b (sym (from_str-as_str a) ∙ ap from_str h ∙ from_str-as_str b)
