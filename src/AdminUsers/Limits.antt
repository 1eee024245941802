-- ===== src/AdminUsers/Limits.antt =====
-- Limits of the list of users that are not positive.
use customer_portal.Prelude.{
  Bool, true, ◌≡◌, none, some, List, [], ◌∷◌, arith, keep, ℤ, pos, negsuc, max_zero, ap, refl,
}
use customer_portal.Users.Models.{User, server_error}
use customer_portal.Users.World.{World, err, ◌>>=◌}
use customer_portal.AdminUsers.Order.{newest_first}
use customer_portal.AdminUsers.Listing.{
  CursorTexts, Ilike, Filters, in_role, matching, known_status, after_cursor, page_of, select_page,
  list_rows, list_users,
}

selected_nil : (us : List User) → keep (λ u. true) us ≡ us
selected_nil [] = refl
selected_nil (u ∷ us) = ap (λ xs. u ∷ xs) (selected_nil us)

-- A list request with a limit of zero or less is not refused as invalid: it is answered with an internal
-- error where the filters match an account.
pub list_users-server_error :
    {Store : Type 0} (x : CursorTexts) (ilike : Ilike) (f : Filters) (limit : ℤ)
    (role : User → Bool) (u : User) (us : List User) (w : World Store)
    → max_zero limit ≡ 0
    → known_status f.status ≡ true
    → in_role f.role w.committed ≡ some role
    → newest_first (keep (matching ilike f role) w.committed.users) ≡ u ∷ us
    → (list_users x ilike f none limit w).0 ≡ err server_error
unfolding list_users list_rows select_page page_of after_cursor ◌>>=◌
list_users-server_error x ilike f (pos n) role u us w zero_ known roles rows = ground (
  arith,
  zero_,
  known,
  roles,
  rows,
  selected_nil (keep (matching ilike f role) w.committed.users),
)
list_users-server_error x ilike f (negsuc n) role u us w zero_ known roles rows = ground (
  arith,
  zero_,
  known,
  roles,
  rows,
  selected_nil (keep (matching ilike f role) w.committed.users),
)
