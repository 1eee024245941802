-- ===== src/Tests/Listing.antt =====
-- The list of users at concrete inputs, with moments and ids as unary texts.
use customer_portal.Prelude.{◌≡◌, refl, true, none, some, [], ◌∷◌, pos, arith}
use customer_portal.Tests.Cursor.{cursor_texts}
use customer_portal.Users.World.{World, err}
use customer_portal.Users.Models.{server_error}
use customer_portal.AdminUsers.Listing.{Filters, list_users}
use customer_portal.AdminUsers.Order.{newest_first, insert_user}
use customer_portal.AdminUsers.Pages.{walk, reads, walk-newest_first}
use customer_portal.AdminUsers.Limits.{list_users-server_error}
use customer_portal.Tests.Accounts.{user, mfa_user}
use customer_portal.Tests.Directory.{portal, directory, new_user}
use customer_portal.Tests.Cache.{valkey, valkey_start}

abbrev filters : Filters
filters = record { q = none; status = none; role = none }

abbrev start : World valkey.Store
start = portal valkey_start

walk-newest_first_example :
    walk cursor_texts (λ q text. true) filters 2 start 4 none
    ≡ some (reads cursor_texts (λ q text. true) filters 2 start (newest_first directory.users))
walk-newest_first_example =
    walk-newest_first cursor_texts (λ q text. true) filters 2 start (λ u. true) refl (omega arith)
      refl refl ((refl, (refl, tt)), ((refl, tt), (tt, tt))) 4 (omega arith)

sorted : newest_first directory.users ≡ new_user ∷ mfa_user ∷ user ∷ []
unfolding newest_first insert_user
sorted = refl

list_users-server_error_example :
    (list_users cursor_texts (λ q text. true) filters none (pos 0) start).0 ≡ err server_error
list_users-server_error_example =
    list_users-server_error cursor_texts (λ q text. true) filters (pos 0) (λ u. true) new_user
      (mfa_user ∷ user ∷ []) start refl refl refl sorted
