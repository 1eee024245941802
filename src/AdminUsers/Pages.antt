-- ===== src/AdminUsers/Pages.antt =====
-- A client that follows the cursors of the list of users.
use customer_portal.AdminUsers.Repository.{role_names}
use mathlib.Core.List.{append_assoc}
use customer_portal.Prelude.{
  ℕ, zero, suc, ◌≤◌, ◌<◌, String, Bool, true, false, ◌≡◌, refl, sym, subst, ap, ◌∙◌, inl, inr,
  Option, none, some, List, [], ◌∷◌, ◌++◌, ltb, arith, keep, take, length, pos,
}
use customer_portal.Users.Models.{User}
use customer_portal.Users.World.{World, Result, ok, err, ◌>>=◌}
use customer_portal.AdminUsers.Order.{
  before, newest_first, Strict, UniqueIds, UniqueIds-keep, newest_first-Strict, keep-newest_first,
  keep-is_below,
}
use customer_portal.AdminUsers.Payloads.{UserRead, to_user_read}
use customer_portal.AdminUsers.Cuts.{
  Cuts-pos, last_of-append, length-suffix, keep-true, length-keep, length-newest_first,
  after_cursor-encode_cursor,
}
use customer_portal.AdminUsers.Listing.{
  CursorTexts, Ilike, Filters, in_role, matching, known_status, encode_cursor, after_cursor,
  with_names, page_of, select_page, list_rows, read_items, list_users,
}

module _ {Store : Type 0} (x : CursorTexts) (ilike : Ilike) (f : Filters) (n : ℕ)
    (w : World Store) where
  abbrev follow :
      Result (List UserRead × Option String)
      → (Option String → Option (List UserRead))
      → Option (List UserRead)
  follow (err e) next = none
  follow (ok (items, none)) next = some items
  follow (ok (items, some cursor)) next = elim (next (some cursor)) [
    | none ↦ none
    | some rest ↦ some (items ++ rest)
  ]

  -- Requests with the cursor of the last answer, until there is none, or the fuel ends.
  unfoldable pub walk : ℕ → Option String → Option (List UserRead)
  walk zero cursor = none
  walk (suc fuel) cursor = follow (list_users x ilike f cursor (pos n) w).0 (walk fuel)

  -- What the client is to see.
  abbrev pub reads : List User → List UserRead
  reads us = read_items x (with_names x w.committed us)

  reads-append : (us vs : List User) → reads (us ++ vs) ≡ reads us ++ reads vs
  reads-append [] vs = refl
  reads-append (u ∷ us) vs =
      ap (λ rs. to_user_read u (role_names w.committed u.id) ∷ rs) (reads-append us vs)

  abbrev pub listed : (User → Bool) → List User
  listed role = newest_first (keep (matching ilike f role) w.committed.users)

  abbrev selected : (User → Bool) → (User → Bool) → List User
  selected role below = newest_first (keep below (keep (matching ilike f role) w.committed.users))

  list_users-page :
      (cursor : Option String) (role below : User → Bool) (us : List User)
      → ltb 100 n ≡ false
      → known_status f.status ≡ true
      → in_role f.role w.committed ≡ some role
      → after_cursor x cursor ≡ some below
      → selected role below ≡ us
      → (list_users x ilike f cursor (pos n) w).0
        ≡ elim (page_of x w.committed n (take (suc n) us)) [
          | ok page ↦ ok (read_items x page.items, page.next_cursor)
          | err e ↦ err e
        ]
  unfolding list_users list_rows select_page ◌>>=◌
  list_users-page cursor role below us small known roles cursor_ rows =
      ground (arith, small, known, roles, cursor_, rows)

  follow-last :
      (us : List User) (next : Option String → Option (List UserRead))
      → ltb n (length (take (suc n) us)) ≡ false
      → take (suc n) us ≡ us
      → follow
          (elim (page_of x w.committed n (take (suc n) us)) [
            | ok page ↦ ok (read_items x page.items, page.next_cursor)
            | err e ↦ err e
          ])
          next
        ≡ some (reads us)
  unfolding page_of
  follow-last us next few all_ = ground (arith, few, all_)

  follow-more :
      (us cs : List User) (u : User) (next : Option String → Option (List UserRead))
      → ltb n (length (take (suc n) us)) ≡ true
      → take n (take (suc n) us) ≡ cs ++ u ∷ []
      → follow
          (elim (page_of x w.committed n (take (suc n) us)) [
            | ok page ↦ ok (read_items x page.items, page.next_cursor)
            | err e ↦ err e
          ])
          next
        ≡ elim (next (some (encode_cursor x u.created_at u.id))) [
          | none ↦ none
          | some rest ↦ some (reads (cs ++ u ∷ []) ++ rest)
        ]
  unfolding page_of
  follow-more us cs u next more cut = ground (arith, more, cut, last_of-append cs u)

  joined :
      (cs : List User) (u : User) (vs us : List User)
      → us ≡ cs ++ u ∷ vs
      → reads (cs ++ u ∷ []) ++ reads vs ≡ reads us
  joined cs u vs us e =
      sym (reads-append (cs ++ u ∷ []) vs) ∙ ap reads (append_assoc cs (u ∷ []) vs ∙ sym e)

  module _ (role : User → Bool) (small : ltb 100 n ≡ false) (one : 1 ≤ n)
      (known : known_status f.status ≡ true) (roles : in_role f.role w.committed ≡ some role)
      (keys : UniqueIds w.committed.users) where
    selected-before :
        (as_ : List User) (u : User) (vs : List User)
        → listed role ≡ as_ ++ u ∷ vs
        → selected role (before u) ≡ vs
    selected-before as_ u vs e =
        let rows = keep (matching ilike f role) w.committed.users in
        let unique = UniqueIds-keep (matching ilike f role) w.committed.users keys in
        sym (keep-newest_first (before u) rows unique)
        ∙ ap (keep (before u)) e
        ∙ keep-is_below as_ u vs (subst Strict e (newest_first-Strict rows unique))

    walk_rest :
        (fuel : ℕ) (cursor : Option String) (below : User → Bool) (as_ us : List User)
        → after_cursor x cursor ≡ some below
        → selected role below ≡ us
        → listed role ≡ as_ ++ us
        → length us < fuel
        → walk fuel cursor ≡ some (reads us)
    unfolding walk
    walk_rest zero cursor below as_ us read sel suffix short = absurd (omega arith)
    walk_rest (suc fuel) cursor below as_ us read sel suffix short =
        ap (λ r. follow r (walk fuel))
          (list_users-page cursor role below us small known roles read sel)
        ∙ elim (Cuts-pos n us one) [
          | inl (few, all_) ↦ follow-last us (walk fuel) few all_
          | inr (cs, u, vs, e, cut, more) ↦
              let whole : listed role ≡ (as_ ++ cs) ++ u ∷ vs =
                suffix ∙ ap (λ zs. as_ ++ zs) e ∙ sym (append_assoc as_ cs (u ∷ vs)) in
              let fewer = length-suffix cs u vs in
              let next =
                walk_rest fuel (some (encode_cursor x u.created_at u.id)) (before u)
                  ((as_ ++ cs) ++ u ∷ []) vs (after_cursor-encode_cursor x u)
                  (selected-before (as_ ++ cs) u vs whole)
                  (whole ∙ sym (append_assoc (as_ ++ cs) (u ∷ []) vs))
                  (ground (arith, fewer, short, ap (length {A = User}) e)) in
              follow-more us cs u (walk fuel) more cut ∙ rw next (ap some (joined cs u vs us e))
        ]

    -- With pages of one to a hundred rows the client comes to an end, whatever number of pages there
    -- are, and has then seen every account that the filters match, once, the newest first. The table
    -- users has its primary key and does not change, and a role that is asked for is there.
    pub walk-newest_first :
        (fuel : ℕ)
        → length w.committed.users < fuel
        → walk fuel none
          ≡ some (reads (newest_first (keep (matching ilike f role) w.committed.users)))
    unfolding after_cursor
    walk-newest_first fuel enough =
        let rows = keep (matching ilike f role) w.committed.users in
        let all_ : selected role (λ u. true) ≡ listed role = ap newest_first (keep-true rows) in
        walk_rest fuel none (λ u. true) [] (listed role) refl all_ refl
          (ground (
            arith,
            enough,
            length-newest_first rows,
            length-keep (matching ilike f role) w.committed.users,
          ))
