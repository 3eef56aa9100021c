-- ===== src/Auth/Mfa/Totp.antt =====
-- The codes that a second factor accepts.
use peanut_pos.Base.{
  ℕ, String, ◌+◌, ◌-◌, ◌/◌, ◌^◌, ◌≤◌, ◌<◌, ◌≡◌, refl, ◌↔◌, ◌⊎◌, inl, inr, ◌∙◌, Bool, true, false,
  ◌||◌, some, List, [], ◌∷◌, ◌==◌, arith, Bool-cases,
}
use peanut_pos.Auth.Store.{Crates}
use peanut_pos.Auth.Mfa.{
  normalize_mfa_code, hotp, zero_padded, same_code, verify_totp_code, digits_only, totp_period,
  saturating_add_u64,
}

same_code_iff : (xs ys : List ℕ) → (same_code xs ys ≡ true) ↔ (xs ≡ ys)
unfolding same_code
same_code_iff [] [] = ground arith
same_code_iff [] (y ∷ ys) = ground arith
same_code_iff (x ∷ xs) [] = ground arith
same_code_iff (x ∷ xs) (y ∷ ys) = ground (arith, same_code_iff xs ys)

-- A code that is printed from a number is taken as it stands.
normalize-zero_padded : (n : ℕ) → normalize_mfa_code (zero_padded n) ≡ some (zero_padded n)
unfolding normalize_mfa_code zero_padded digits_only
normalize-zero_padded n = ground arith

or-cases : (a b c : Bool) → (a || b || c) ≡ true → (a ≡ true) ⊎ ((b ≡ true) ⊎ (c ≡ true))
or-cases true b c h = inl refl
or-cases false true c h = inr (inl refl)
or-cases false false c h = inr (inr h)

or-true : (a b c : Bool) → (a ≡ true) ⊎ ((b ≡ true) ⊎ (c ≡ true)) → (a || b || c) ≡ true
or-true true b c h = refl
or-true false true c h = refl
or-true false false c h = ground arith

-- The periods beside one are the three that are tried.
near : (k n : ℕ) → k ≤ n + 1 → n ≤ k + 1 → (n - 1 ≡ k) ⊎ ((n ≡ k) ⊎ (n + 1 ≡ k))
near k n h g = elim (Bool-cases (n == k)) [
  | inl e ↦ inr (inl (ground arith))
  | inr e ↦ elim (Bool-cases (n + 1 == k)) [
    | inl d ↦ inr (inr (ground arith))
    | inr d ↦ inl (ground arith)
  ]
]

saturating_add_u64_id : (n : ℕ) → n + 1 < 2 ^ 64 → saturating_add_u64 n 1 ≡ n + 1
saturating_add_u64_id n h = ground arith

-- A period beside the current one whose code is the one given.
abbrev pub Matches : Crates → ℕ → List ℕ → List ℕ → ℕ → Type 0
Matches lib now bytes code k =
    (k ≤ now / totp_period + 1)
    × (now / totp_period ≤ k + 1)
    × (zero_padded (hotp lib bytes k) ≡ code)

module _ (lib : Crates) (now : ℕ) (secret : String) (bytes : List ℕ) (code : List ℕ)
    (early : now < 2 ^ 64)
    (decoded : lib.base32_decode (lib.to_ascii_uppercase (lib.trim secret)) ≡ some bytes) where
  shown_by :
      (n k : ℕ)
      → n ≡ k
      → zero_padded (hotp lib bytes k) ≡ code
      → same_code (zero_padded (hotp lib bytes n)) code ≡ true
  shown_by n k e m = rw e ((same_code_iff (zero_padded (hotp lib bytes k)) code).1 m)

  accepts : (k : ℕ) → Matches lib now bytes code k → verify_totp_code lib now secret code ≡ true
  unfolding verify_totp_code
  accepts k (below, above, m) =
      let n = now / totp_period in
      rw (decoded, verify_totp_code)
        (or-true (same_code (zero_padded (hotp lib bytes (n - 1))) code)
          (same_code (zero_padded (hotp lib bytes n)) code)
          (same_code (zero_padded (hotp lib bytes (saturating_add_u64 n 1))) code)
          (elim (near k n below above) [
            | inl e ↦ inl (shown_by (n - 1) k e m)
            | inr (inl e) ↦ inr (inl (shown_by n k e m))
            | inr (inr e) ↦ inr (
                inr (
                  shown_by (saturating_add_u64 n 1) k (saturating_add_u64_id n (omega arith) ∙ e)
                    m))
          ]))

  accepted : verify_totp_code lib now secret code ≡ true → (k : ℕ) × Matches lib now bytes code k
  unfolding verify_totp_code
  accepted h =
      elim (or-cases (same_code (zero_padded (hotp lib bytes (now / totp_period - 1))) code)
        (same_code (zero_padded (hotp lib bytes (now / totp_period))) code)
        (same_code (zero_padded (hotp lib bytes (saturating_add_u64 (now / totp_period) 1))) code)
        (ground arith)) [
          | inl e ↦ (now / totp_period - 1, (omega arith, omega arith, (same_code_iff _ code).0 e))
          | inr (inl e) ↦
              (now / totp_period, (omega arith, omega arith, (same_code_iff _ code).0 e))
          | inr (inr e) ↦ (
            saturating_add_u64 (now / totp_period) 1,
            (ground arith, ground arith, (same_code_iff _ code).0 e),
          )
        ]

  -- A code passes exactly when it is the printed code of the current period of 30 seconds or of one
  -- beside it, for a secret that decodes and a clock below 2^64 seconds.
  pub verify_totp_code_iff :
      (verify_totp_code lib now secret code ≡ true) ↔ ((k : ℕ) × Matches lib now bytes code k)
  verify_totp_code_iff = (accepted, λ m. accepts m.0 m.1)

-- The code that an authenticator shows is accepted: as its six digits are entered it is normalized to
-- itself, and it passes in its own period and in the next, for a secret that decodes and a clock
-- below 2^64 seconds.
shown_code_accepted :
    (lib : Crates) (shown now : ℕ) (secret : String) (bytes : List ℕ)
    → now < 2 ^ 64
    → lib.base32_decode (lib.to_ascii_uppercase (lib.trim secret)) ≡ some bytes
    → shown / totp_period ≤ now / totp_period
    → now / totp_period ≤ shown / totp_period + 1
    → (code : List ℕ) × (normalize_mfa_code (zero_padded (hotp lib bytes (shown / totp_period)))
        ≡ some code)
      × (verify_totp_code lib now secret code ≡ true)
shown_code_accepted lib shown now secret bytes early decoded after before = (
  zero_padded (hotp lib bytes (shown / totp_period)),
  normalize-zero_padded (hotp lib bytes (shown / totp_period)),
  accepts lib now secret bytes (zero_padded (hotp lib bytes (shown / totp_period))) early decoded
      (shown / totp_period) (omega arith, before, refl),
)
