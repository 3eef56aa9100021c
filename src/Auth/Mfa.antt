-- ===== src/Auth/Mfa.antt =====
-- services/auth-service/src/mfa.rs: time-based codes. A code is the list of its characters' ASCII
-- codes.
pub mod Totp
use Prim.Native.Char.{code}
use peanut_pos.Base.{
  ℕ, zero, suc, String, ◌+◌, ◌-◌, ◌*◌, ◌/◌, ◌%◌, ◌^◌, Bool, true, false, ◌&&◌, ◌||◌, Option, none,
  some, List, [], ◌∷◌, ◌==◌, leb, ltb, if◌then◌else◌,
}
use peanut_pos.Base.Lists.{length}
use peanut_pos.Auth.Store.{Crates}

abbrev pub totp_period : ℕ
totp_period = 30

abbrev pub codes : String → List ℕ
codes String.[] = []
codes (String.◌∷◌ c s) = code c ∷ codes s

unfoldable pub digits_only : List ℕ → List ℕ
digits_only [] = []
digits_only (c ∷ cs) = if leb 48 c && leb c 57 then c ∷ digits_only cs else digits_only cs

unfoldable pub normalize_mfa_code : List ℕ → Option (List ℕ)
unfolding digits_only
normalize_mfa_code input =
    if length (digits_only input) == 6 then some (digits_only input) else none

-- An index out of range, where Rust panics, does not come up: the digest has 20 bytes, and the offset
-- is at most 15.
unfoldable pub byte : List ℕ → ℕ → ℕ
byte [] i = 0
byte (b ∷ bs) zero = b
byte (b ∷ bs) (suc i) = byte bs i

module _ (lib : Crates) where
  unfoldable pub hotp : List ℕ → ℕ → ℕ
  unfolding byte
  hotp secret counter =
      let result = lib.hmac_sha1 secret counter in
      let offset = byte result (length result - 1) % 16 in
      (byte result offset % 128 * 2 ^ 24
        + byte result (offset + 1) * 2 ^ 16
        + byte result (offset + 2) * 2 ^ 8
        + byte result (offset + 3))
      % 10 ^ 6

-- `{:06}` of a number below 10^6.
unfoldable pub zero_padded : ℕ → List ℕ
zero_padded n =
    (48 + n / 100000 % 10)
    ∷ (48 + n / 10000 % 10)
    ∷ (48 + n / 1000 % 10)
    ∷ (48 + n / 100 % 10)
    ∷ (48 + n / 10 % 10)
    ∷ (48 + n % 10)
    ∷ []

unfoldable pub same_code : List ℕ → List ℕ → Bool
same_code [] [] = true
same_code (a ∷ xs) (b ∷ ys) = (a == b) && same_code xs ys
same_code _ _ = false

abbrev pub saturating_add_u64 : ℕ → ℕ → ℕ
saturating_add_u64 a b = if ltb (a + b) (2 ^ 64) then a + b else 2 ^ 64 - 1

module _ (lib : Crates) where
  -- The code of the last period, of this one or of the next.
  unfoldable pub verify_totp_code : ℕ → String → List ℕ → Bool
  unfolding hotp zero_padded same_code
  verify_totp_code now secret code =
      elim (lib.base32_decode (lib.to_ascii_uppercase (lib.trim secret))) [
        | none ↦ false
        | some bytes ↦
            let counter = now / totp_period in
            same_code (zero_padded (hotp lib bytes (counter - 1))) code
            || same_code (zero_padded (hotp lib bytes counter)) code
            || same_code (zero_padded (hotp lib bytes (saturating_add_u64 counter 1))) code
      ]
