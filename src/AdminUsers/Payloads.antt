-- ===== src/AdminUsers/Payloads.antt =====
-- The requests and answers of app/modules/admin_users/schemas.py, and the ETag of an account.
use customer_portal.Roles.Rows.{in_texts}
use customer_portal.Users.World.{Libraries}
use text.Mathlib.Text.{◌==◌ as str_eq}
use Prim.Native.String.{◌++◌ as append}
use customer_portal.Users.Models.{User, UserStatus, invited}
use customer_portal.Prelude.{
  true, false, none, some, [], ◌∷◌, String, Option, List, ℕ, Bool, sorted_texts, ◌||◌,
}
use customer_portal.AdminUsers.Repository.{
  EditableField, display_name, locale, timezone, avatar_url,
}

-- `UserRead`
pub record UserRead : Type 0 where
  pub id : ℕ
  pub email : String
  pub display_name : Option String
  pub status : UserStatus
  pub roles : List String
  pub created_at : ℕ
  pub last_login_at : Option ℕ

abbrev pub to_user_read : User → List String → UserRead
to_user_read u roles = record {
  id = u.id;
  email = u.email;
  display_name = u.display_name;
  status = u.status;
  roles = sorted_texts roles;
  created_at = u.created_at;
  last_login_at = u.last_login_at;
}

-- Who sends a request.
pub record Caller : Type 0 where
  pub actor_id : ℕ
  pub actor_scopes : List String
  pub request_id : String

-- `UpdateUserRequest`: the fields that are set, and the reason.
pub record UpdateUserRequest : Type 0 where
  pub fields : List (EditableField × Option String)
  pub reason : String

-- The names in a request's body, and what pydantic makes of it.
pub record Body : Type 0 where
  pub names : List String
  pub validated : Option UpdateUserRequest

pub record CreateUserRequest : Type 0 where
  pub email : String
  pub display_name : String
  pub roles : List String

-- What a request draws at random: the ids of its rows, and a token.
pub record Drawn : Type 0 where
  pub user_id : ℕ
  pub token_id : ℕ
  pub raw_token : String

abbrev pub hourly_cap_retry_after_seconds : ℕ
hourly_cap_retry_after_seconds = 3600

abbrev pub field_name : EditableField → String
field_name display_name = "display_name"
field_name locale = "locale"
field_name timezone = "timezone"
field_name avatar_url = "avatar_url"

abbrev pub admin_user_immutable_field_names : List String
admin_user_immutable_field_names = "id" ∷ "created_at" ∷ "email_verified" ∷ "roles" ∷ []

abbrev pub any_immutable : List String → Bool
any_immutable [] = false
any_immutable (name ∷ names) = in_texts name admin_user_immutable_field_names || any_immutable names

abbrev pub etag_fields : User → List (String × Option String)
etag_fields u =
    ("display_name", u.display_name)
    ∷ ("locale", u.locale)
    ∷ ("timezone", u.timezone)
    ∷ ("avatar_url", u.avatar_url)
    ∷ []

-- The texts of a JSON document with sorted keys, and of a UUID.
pub record Texts : Type 0 where
  pub json_dumps : List (String × Option String) → String
  pub uuid_text : ℕ → String

-- `compute_profile_etag` of app/core/etag.py
abbrev pub compute_profile_etag : Libraries → Texts → List (String × Option String) → String
compute_profile_etag l x fields = append "\"" (append (l.sha256 (x.json_dumps fields)) "\"")

abbrev pub matches : Option String → String → Bool
matches none etag = false
matches (some given) etag = str_eq given "*" || str_eq given etag

abbrev pub is_invited : UserStatus → Bool
is_invited invited = true
is_invited _ = false
