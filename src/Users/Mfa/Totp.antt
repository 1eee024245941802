-- ===== src/Users/Mfa/Totp.antt =====
-- Which steps of the clock a TOTP code is accepted for.
use customer_portal.Prelude.{ℕ, ◌+◌, ◌≤◌, String, ◌≡◌, true, false, Option, none, some, arith}
use customer_portal.Users.World.{Libraries}
use customer_portal.Users.Mfa.{current_totp_step, is_code, verify_totp_code}

module _ (l : Libraries) (at_ : ℕ) (secret code : String) where
  -- Within one step of the clock.
  abbrev pub Near : ℕ → Type 0
  Near step = (current_totp_step at_ ≤ step + 1) × (step ≤ current_totp_step at_ + 1)

  abbrev pub Matches : Option ℕ → Type 0
  Matches (some step) = (is_code l secret code step ≡ true) × Near step
  Matches none = (step : ℕ) → Near step → is_code l secret code step ≡ false

  -- A code is accepted for a step that it is the code of and that is at most one away from the clock's,
  -- and it is refused only if it is the code of no such step.
  verify_totp_code-Matches : Matches (verify_totp_code l at_ secret code)
  unfolding verify_totp_code
  verify_totp_code-Matches = ground (arith)
