-- ===== src/Users/Rows.antt =====
-- The WHERE and SET clauses of app/modules/users/repository.py, and its GROUP BY.
use text.Mathlib.Text.{◌==◌ as str_eq}
use customer_portal.Prelude.{
  ℕ, String, Bool, not, ◌&&◌, Option, none, some, List, [], ◌∷◌, is_some, ◌==◌, ltb, leb,
  update_rows, if◌then◌else◌,
}
use customer_portal.Users.Models.{
  Db, User, UserSession, RefreshToken, PasswordResetToken, MfaRecoveryCode,
}

-- `func.now()` where the row matches.
abbrev pub set_user : ℕ → (User → User) → Db → Db
set_user id f d = record d { users = update_rows (λ (u : User). u.id == id) f d.users }

-- WHERE token_hash = …
abbrev pub has_hash : String → RefreshToken → Bool
has_hash h t = str_eq t.token_hash h

abbrev pub is_unconsumed : RefreshToken → Bool
is_unconsumed t = not (is_some t.consumed_at)

abbrev pub consume_set : ℕ → RefreshToken → RefreshToken
consume_set now t = record t { consumed_at = some now }

abbrev pub revoke_set : ℕ → RefreshToken → RefreshToken
revoke_set now t = record t { revoked_at = some now }

abbrev pub has_reset_hash : String → PasswordResetToken → Bool
has_reset_hash h t = str_eq t.token_hash h

abbrev pub reset_unconsumed : PasswordResetToken → Bool
reset_unconsumed t = not (is_some t.consumed_at)

abbrev pub reset_consume_set : ℕ → PasswordResetToken → PasswordResetToken
reset_consume_set now t = record t { consumed_at = some now }

-- `except_jti` None leaves out no session.
abbrev pub is_other : Option ℕ → UserSession → Bool
is_other none s = not (is_some s.revoked_at)
is_other (some jti) s = not (is_some s.revoked_at) && not (s.jti == jti)

abbrev pub code_unconsumed : MfaRecoveryCode → Bool
code_unconsumed r = not (is_some r.consumed_at)

abbrev pub has_code_id : ℕ → MfaRecoveryCode → Bool
has_code_id id r = r.id == id

abbrev pub code_consume_set : ℕ → MfaRecoveryCode → MfaRecoveryCode
code_consume_set now r = record r { consumed_at = some now }

-- `user_id = … AND revoked_at IS NULL AND expires_at > now()`
abbrev pub is_live : ℕ → ℕ → RefreshToken → Bool
is_live now user t = t.user_id == user && not (is_some t.revoked_at) && ltb now t.expires_at

-- GROUP BY family_id with MIN(issued_at): one entry for each family, in the order of first occurrence.
unfoldable pub add_family : ℕ → ℕ → List (ℕ × ℕ) → List (ℕ × ℕ)
add_family family issued [] = (family, issued) ∷ []
add_family family issued ((f, i) ∷ rest) =
    if f == family
    then (f, if leb i issued then i else issued) ∷ rest
    else (f, i) ∷ add_family family issued rest

unfoldable pub family_created_at : List RefreshToken → List (ℕ × ℕ)
unfolding add_family
family_created_at [] = []
family_created_at (t ∷ ts) = add_family t.family_id t.issued_at (family_created_at ts)
