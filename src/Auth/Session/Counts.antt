-- ===== src/Auth/Session/Counts.antt =====
-- The tokens that are stored under a hash, and the refreshes that are accepted, as they are counted.
use text.Mathlib.Text.{◌==◌ as str_eq}
use peanut_pos.Base.{
  ℕ, String, suc, ◌+◌, ◌≤◌, ◌<◌, ◌≡◌, Bool, true, false, ◌&&◌, none, some, List, [], ◌∷◌, ◌++◌,
  arith, ◌==◌, ==_refl, if◌then◌else◌,
}
use peanut_pos.Base.Table.{delete}
use peanut_pos.Base.Api.{Result, ok, err}
use peanut_pos.Auth.Store.{AuthRow, RefreshRow, World, Crates}
use peanut_pos.Auth.Tokens.{RefreshTokenAccount, find_token, owner}
use peanut_pos.Auth.Session.{
  Call, login, refresh, logout, serve, refresh_session, extract_refresh_cookie,
}

-- How many stored tokens have a hash.
unfoldable pub copies : String → List RefreshRow → ℕ
copies h [] = 0
copies h (r ∷ rs) = if str_eq r.token_hash h then suc (copies h rs) else copies h rs

abbrev pub is_ok {ℓ κ} : {E : Type κ} {A : Type ℓ} → Result E A → Bool
is_ok r = elim r [ ok _ ↦ true | err _ ↦ false ]

module _ (lib : Crates) where
  -- Whether a call draws the text of a token that hashes alike.
  unfoldable pub mints : String → Call → ℕ
  mints h (login env req) = if str_eq (lib.sha256 env.signer.refresh_token) h then 1 else 0
  mints h (refresh env header) = if str_eq (lib.sha256 env.signer.refresh_token) h then 1 else 0
  mints h (logout env header) = 0

  unfoldable pub minted : String → List Call → ℕ
  unfolding mints
  minted h [] = 0
  minted h (c ∷ cs) = mints h c + minted h cs

  -- Whether a call is a refresh with the token that answers with new tokens.
  unfoldable pub accepts : String → Call → World → ℕ
  unfolding refresh_session
  accepts t (refresh env header) w = elim (extract_refresh_cookie lib env.cookie_name header) [
    | none ↦ 0
    | some cookie ↦ if str_eq cookie t && is_ok (refresh_session lib env header w).0 then 1 else 0
  ]
  accepts t (login env req) w = 0
  accepts t (logout env header) w = 0

  unfoldable pub accepted : String → List Call → World → ℕ
  unfolding accepts serve
  accepted t [] w = 0
  accepted t (c ∷ cs) w = accepts t c w + accepted t cs (serve lib c w)

pub copies-append :
    (h : String) (rs : List RefreshRow) (r : RefreshRow)
    → copies h (rs ++ r ∷ []) ≡ copies h rs + (if str_eq r.token_hash h then 1 else 0)
unfolding copies
copies-append h [] r = ground arith
copies-append h (x ∷ rs) r = ground (arith, copies-append h rs r)

pub copies-delete :
    (h : String) (p : RefreshRow → Bool) (rs : List RefreshRow)
    → copies h (delete p rs) ≤ copies h rs
unfolding copies delete
copies-delete h p [] = omega arith
copies-delete h p (x ∷ rs) = ground (arith, copies-delete h p rs)

owner-token :
    (users : List AuthRow) (r : RefreshRow) (a : RefreshTokenAccount)
    → owner users r ≡ some a
    → a.token ≡ r
unfolding owner
owner-token users r a h = ground arith

-- The row that is found is deleted.
pub copies-found :
    (h : String) (users : List AuthRow) (rs : List RefreshRow) (a : RefreshTokenAccount)
    → find_token h users rs ≡ some a
    → copies h (delete (λ r. r.jti == a.token.jti) rs) < copies h rs
unfolding copies delete find_token
copies-found h users [] a e = ground arith
copies-found h users (x ∷ rs) a e = ground (
  arith,
  copies-found h users rs a,
  copies-delete h (λ (r : RefreshRow). r.jti == a.token.jti) rs,
  owner-token users x a,
  ==_refl x.jti,
)
