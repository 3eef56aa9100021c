-- ===== src/Auth/Session/Tests.antt =====
-- Runs of sessions, and the theorems at them.
use peanut_pos.Base.{◌+◌, ◌≤◌, ◌≡◌, refl, false, some, [], ◌∷◌}
use peanut_pos.Auth.Store.{RefreshRow, World}
use peanut_pos.Auth.Session
use peanut_pos.Auth.Session.{Call, refresh, logout, extract_refresh_cookie, refresh_session}
use peanut_pos.Auth.Session.SingleUse.{accepted-le}
use peanut_pos.Auth.Session.Counts.{copies, minted, accepted}
use peanut_pos.Auth.Tests.{crates, ann, signer}

abbrev stored : RefreshRow
stored = record {
  jti = 4;
  user_id = 1;
  tenant_id = 7;
  token_hash = "old";
  issued_at = 0;
  expires_at = 100;
}

abbrev browser : Session.Env
browser = record { cookie_name = "session"; signer = signer; cookie_fails = false }

abbrev carrying : World
carrying = record { users = ann ∷ []; tokens = stored ∷ [] }

accepted-le_example :
    accepted crates "old"
      (refresh browser (some "session=old") ∷ refresh browser (some "session=old") ∷ [])
      carrying
    ≤ copies (crates.sha256 "old") carrying.tokens
      + minted crates
          (crates.sha256 "old")
          (refresh browser (some "session=old") ∷ refresh browser (some "session=old") ∷ [])
accepted-le_example =
    accepted-le crates "old"
      (refresh browser (some "session=old") ∷ refresh browser (some "session=old") ∷ []) carrying

accepted_once :
    accepted crates "old"
      (refresh browser (some "session=old") ∷ refresh browser (some "session=old") ∷ [])
      carrying
    ≡ 1
unfolding accepted
accepted_once = refl
