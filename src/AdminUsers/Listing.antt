-- ===== src/AdminUsers/Listing.antt =====
-- The list of users: `AdminUserService.list_users` of app/modules/admin_users/service.py, `list_users`
-- of its repository.py, and the cursor.
use text.Mathlib.Text.{◌==◌ as str_eq}
use Prim.Native.String.{◌++◌ as append}
use customer_portal.Prelude.{
  ℕ, suc, String, Bool, true, false, not, ◌&&◌, ◌||◌, ◌≡◌, Option, none, some, List, [], ◌∷◌, ◌==◌,
  ltb, is_some, keep, take, length, find_row, ℤ, pos, negsuc, if◌then◌else◌,
}
use customer_portal.Administration.Models.{Role, UserRole}
use customer_portal.Users.Models.{
  Db, User, UserStatus, active, deactivated, invited, pending_verification, validation_failed,
  server_error,
}
use customer_portal.Users.World.{
  Action, Result, ok, err, ◌>>=◌, ◌>>◌, pure, raise, raise_if, query, in_session,
}
use customer_portal.AdminUsers.Order.{is_below, newest_first}
use customer_portal.AdminUsers.Payloads.{UserRead, to_user_read}
use customer_portal.AdminUsers.Repository.{role_names}

-- The texts of moments and UUIDs, base64, and `split("|", 1)`; a ValueError is `none`.
pub record CursorTexts : Type 0 where
  pub isoformat : ℕ → String
  pub fromisoformat : String → Option ℕ
  pub uuid_text : ℕ → String
  pub uuid_of : String → Option ℕ
  pub b64encode : String → String
  pub b64decode : String → Option String
  pub split_bar : String → Option (String × String)
  pub fromisoformat-isoformat : (t : ℕ) → fromisoformat (isoformat t) ≡ some t
  pub uuid_of-uuid_text : (id : ℕ) → uuid_of (uuid_text id) ≡ some id
  pub b64decode-b64encode : (raw : String) → b64decode (b64encode raw) ≡ some raw
  -- no moment's text has a bar
  pub split_bar-isoformat :
      (t : ℕ) (rest : String)
      → split_bar (append (isoformat t) (append "|" rest)) ≡ some (isoformat t, rest)

-- ILIKE, with the pattern of the text: whether the address, or the name, matches.
abbrev pub Ilike : Type 0
Ilike = String → Option String → Bool

pub record Filters : Type 0 where
  pub q : Option String
  pub status : Option String
  pub role : Option String

pub record Page : Type 0 where
  pub items : List (User × List String)
  pub next_cursor : Option String

abbrev pub status_text : UserStatus → String
status_text pending_verification = "PENDING_VERIFICATION"
status_text active = "active"
status_text deactivated = "deactivated"
status_text invited = "invited"

abbrev pub has_status : Option String → User → Bool
has_status none u = true
has_status (some status) u = str_eq (status_text u.status) status

abbrev pub has_text : Ilike → Option String → User → Bool
has_text ilike none u = true
has_text ilike (some q) u = ilike q (some u.email) || ilike q u.display_name

-- `id IN (SELECT user_id FROM user_roles WHERE role_id = …)`
abbrev pub holds_role : ℕ → List UserRole → User → Bool
holds_role role [] u = false
holds_role role (g ∷ gs) u = g.role_id == role && g.user_id == u.id || holds_role role gs u

abbrev pub role_row : String → Db → Option Role
role_row name d = find_row (λ (r : Role). str_eq r.name name) d.administration.roles

-- None where there is no role of that name.
abbrev pub in_role : Option String → Db → Option (User → Bool)
in_role none d = some λ u. true
in_role (some name) d = elim (role_row name d) [
  | none ↦ none
  | some r ↦ some λ u. holds_role r.id d.administration.user_roles u
]

abbrev pub matching : Ilike → Filters → (User → Bool) → User → Bool
matching ilike f role u = has_status f.status u && has_text ilike f.q u && role u

abbrev pub known_status : Option String → Bool
known_status none = true
known_status (some s) = str_eq s "invited" || str_eq s "active" || str_eq s "deactivated"

abbrev pub last_of {ℓ} : {A : Type ℓ} → List A → Option A
last_of [] = none
last_of (x ∷ xs) = elim (last_of xs) [ none ↦ some x | some y ↦ some y ]

module _ (x : CursorTexts) where
  abbrev pub encode_cursor : ℕ → ℕ → String
  encode_cursor created user =
      x.b64encode (append (x.isoformat created) (append "|" (x.uuid_text user)))

  abbrev pub read_parts : Option ℕ → Option ℕ → Option (ℕ × ℕ)
  read_parts (some created) (some user) = some (created, user)
  read_parts (some created) none = none
  read_parts none user = none

  abbrev pub read_split : Option (String × String) → Option (ℕ × ℕ)
  read_split none = none
  read_split (some (created, user)) = read_parts (x.fromisoformat created) (x.uuid_of user)

  unfoldable pub decode_cursor : String → Option (ℕ × ℕ)
  decode_cursor cursor = elim (x.b64decode cursor) [
    | none ↦ none
    | some raw ↦ read_split (x.split_bar raw)
  ]

  -- The keyset condition; None for a malformed cursor.
  unfoldable pub after_cursor : Option String → Option (User → Bool)
  unfolding decode_cursor
  after_cursor none = some λ u. true
  after_cursor (some cursor) = elim (decode_cursor cursor) [
    | none ↦ none
    | some k ↦ some λ u. is_below k.0 k.1 u
  ]

  abbrev pub with_names : Db → List User → List (User × List String)
  with_names d [] = []
  with_names d (u ∷ us) = (u, role_names d u.id) ∷ with_names d us

  -- `rows[-1]` of an empty list is an IndexError.
  unfoldable pub page_of : Db → ℕ → List User → Result Page
  page_of d limit rows =
      if ltb limit (length rows)
      then elim (last_of (take limit rows)) [
        | none ↦ err server_error
        | some u ↦ ok (record {
          items = with_names d (take limit rows);
          next_cursor = some (encode_cursor u.created_at u.id);
        })
      ]
      else ok (record { items = with_names d rows; next_cursor = none })

  unfoldable pub select_page :
      Db → Ilike → Filters → ℕ → Option (User → Bool) → Option (User → Bool) → Result (Option Page)
  unfolding page_of newest_first
  select_page d ilike f limit none after_ = ok none
  select_page d ilike f limit (some role) none = ok none
  select_page d ilike f limit (some role) (some below) =
      elim (page_of d limit
        (take (suc limit) (newest_first (keep below (keep (matching ilike f role) d.users))))) [
          | ok page ↦ ok (some page)
          | err e ↦ err e
        ]

  -- LIMIT and `rows[:limit]` with a negative number: an error of the server or of `rows[-1]`.
  unfoldable pub list_rows : Db → Ilike → Filters → Option String → ℤ → Result (Option Page)
  unfolding select_page after_cursor
  list_rows d ilike f cursor (pos limit) =
      select_page d ilike f limit (in_role f.role d) (after_cursor cursor)
  list_rows d ilike f cursor (negsuc n) =
      elim (select_page d ilike f 0 (in_role f.role d) (after_cursor cursor)) [
        | ok none ↦ ok none
        | _ ↦ err server_error
      ]

  abbrev pub exceeds : ℤ → ℕ → Bool
  exceeds (pos n) most = ltb most n
  exceeds (negsuc n) most = false

  abbrev pub read_items : List (User × List String) → List UserRead
  read_items [] = []
  read_items ((u, roles) ∷ rest) = to_user_read u roles ∷ read_items rest

  module _ {Store : Type 0} where
    abbrev pub answer_page :
        Option String → Result (Option Page) → Action Store (List UserRead × Option String)
    answer_page cursor (err e) = raise e
    answer_page cursor (ok none) =
        raise (validation_failed (if is_some cursor then "cursor" else "role"))
    answer_page cursor (ok (some page)) = pure (read_items page.items, page.next_cursor)

    unfoldable pub list_users :
        Ilike → Filters → Option String → ℤ → Action Store (List UserRead × Option String)
    unfolding list_rows
    list_users ilike f cursor limit = in_session do
      raise_if (exceeds limit 100) (validation_failed "limit")
      raise_if (not (known_status f.status)) (validation_failed "status")
      page ← query λ d. list_rows d ilike f cursor limit
      answer_page cursor page
