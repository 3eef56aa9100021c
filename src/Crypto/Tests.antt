-- ===== src/Crypto/Tests.antt =====
-- A cipher that marks what it seals.
use peanut_pos.Base.{◌≡◌, refl, Option, none, some, [], ◌∷◌, ◌++◌, arith}
use peanut_pos.Crypto.{Bytes, Ciphers}
use peanut_pos.Crypto.RoundTrip.{IsAead}

abbrev unmark : Bytes → Option Bytes
unmark [] = none
unmark (b ∷ bs) = some bs

abbrev pub ciphers : Ciphers
ciphers = record {
  encrypt = λ key nonce text. some (0 ∷ text);
  decrypt = λ key nonce sealed. unmark sealed;
  sha256 = λ text. text;
  hmac_sha256 = λ key text. key ++ text;
}

pub ciphers-IsAead : IsAead ciphers
ciphers-IsAead = record {
  opens =
      λ key nonce text sealed e. let same : 0 ∷ text ≡ sealed = ground arith in rw (← same) refl;
  tagged = λ key nonce text sealed e.
      let same : 0 ∷ text ≡ sealed = ground arith in rw (← same) (omega arith);
}
