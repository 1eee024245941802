-- ===== src/Tests/Directory.antt =====
-- Sample roles, grants and tokens, and what the administration's services call.
use text.Mathlib.TextEquality.{eq_iff}
use customer_portal.Prelude.{
  String, none, [], ◌∷◌, ◌≡◌, refl, inl, inr, arith, ap, sym, false, Member, ◌∙◌,
}
use customer_portal.Administration.Models.{Role, EmailVerificationToken}
use customer_portal.Users.Models.{User, Db, pending_verification}
use customer_portal.Users.World.{World, Moment}
use customer_portal.Roles.Scopes.{RoleKeys}
use customer_portal.AdminUsers.Payloads.{Texts, Caller, Drawn}
use customer_portal.Tests.Accounts.{user, mfa_user, accounts, tables, moment}

abbrev pub admin_role : Role
admin_role = record { id = 1; name = "admin"; permissions = "users:write" ∷ "users:read" ∷ [] }

abbrev pub customer_role : Role
customer_role = record { id = 2; name = "customer"; permissions = "tickets:read" ∷ [] }

-- Registered, and not verified.
abbrev pub new_user : User
new_user = record user {
  id = 9;
  email = "new@example.org";
  status = pending_verification;
  email_verified = false;
}

abbrev pub verification_token : EmailVerificationToken
verification_token = record {
  id = 1;
  user_id = 9;
  token_hash = "link";
  issued_at = 10;
  expires_at = 1000;
  consumed_at = none;
}

-- Users 7 and 8 are administrators.
abbrev pub directory : Db
directory = record accounts {
  users = user ∷ mfa_user ∷ new_user ∷ [];
  administration = record tables {
    roles = admin_role ∷ customer_role ∷ [];
    user_roles =
        record { user_id = 7; role_id = 1; granted_at = 1 }
        ∷ record { user_id = 8; role_id = 1; granted_at = 1 }
        ∷ [];
    verification_tokens = verification_token ∷ [];
  };
}

abbrev pub portal : {Store : Type 0} → Store → World Store
portal s = record { db = directory; committed = directory; store = s; outbox = [] }

names_differ : ◌≡◌ {A = String} "admin" "customer" → ⊥
names_differ e = ground (arith, eq_iff "admin" "customer", e)

names_unique :
    (r x : Role)
    → Member r directory.administration.roles
    → Member x directory.administration.roles
    → r.name ≡ x.name
    → r ≡ x
names_unique r x (inl e) (inl f) h = e ∙ sym f
names_unique r x (inl e) (inr (inl f)) h =
    absurd (names_differ (sym (ap (λ (y : Role). y.name) e) ∙ h ∙ ap (λ (y : Role). y.name) f))
names_unique r x (inr (inl e)) (inl f) h =
    absurd (names_differ (sym (ap (λ (y : Role). y.name) f) ∙ sym h ∙ ap (λ (y : Role). y.name) e))
names_unique r x (inr (inl e)) (inr (inl f)) h = e ∙ sym f
names_unique r x (inl e) (inr (inr n)) h = absurd n
names_unique r x (inr (inl e)) (inr (inr n)) h = absurd n
names_unique r x (inr (inr m)) n h = absurd m

pub directory-RoleKeys : RoleKeys directory.administration.roles
directory-RoleKeys = (
  λ r m. elim m [ inl e ↦ rw e refl | inr n ↦ elim n [ inl e ↦ rw e refl | inr k ↦ absurd k ] ],
  names_unique,
)

abbrev pub texts : Texts
texts = record { json_dumps = λ fields. "{}"; uuid_text = λ id. "id" }

abbrev pub admin : Caller
admin = record {
  actor_id = 7;
  actor_scopes = "users:read" ∷ "users:write" ∷ "tickets:read" ∷ [];
  request_id = "r";
}

abbrev pub drawn : Drawn
drawn = record { user_id = 10; token_id = 2; raw_token = "drawn" }

-- When the link of 10 has been issued for more than a minute.
abbrev pub later : Moment
later = record moment { utc_now = 70000000; db_now = 70000000 }

abbrev pub weeks_later : Moment
weeks_later = record moment { utc_now = 700000000000; db_now = 700000000000 }
