-- ===== src/AdminUsers/Cuts.antt =====
-- How a page is cut off from the rows that are left, and its cursor read back.
use Prim.Native.String.{◌++◌ as append}
use customer_portal.Prelude.{
  ℕ, zero, suc, ◌≤◌, ◌<◌, Bool, true, false, ◌≡◌, refl, ap, ◌⊎◌, inl, inr, some, List, [], ◌∷◌,
  ◌++◌, ltb, arith, keep, take, length,
}
use customer_portal.Users.Models.{User}
use customer_portal.AdminUsers.Order.{before, newest_first, insert_user}
use customer_portal.AdminUsers.Listing.{
  CursorTexts, last_of, encode_cursor, decode_cursor, after_cursor,
}

-- The rows of a page, and whether there are more.
abbrev pub Cuts : ℕ → List User → Type 0
Cuts n us =
    ((ltb n (length (take (suc n) us)) ≡ false) × (take (suc n) us ≡ us))
    ⊎ ((cs : List User) × (u : User) × (vs : List User) × (us ≡ cs ++ u ∷ vs)
        × (take n (take (suc n) us) ≡ cs ++ u ∷ [])
        × (ltb n (length (take (suc n) us)) ≡ true))

cuts : (k : ℕ) (us : List User) → Cuts (suc k) us
cuts k [] = inl (ground arith, refl)
cuts k (u ∷ []) = inl (ground arith, refl)
cuts zero (u ∷ v ∷ us) = inr ([], u, v ∷ us, refl, refl, ground arith)
cuts (suc k) (u ∷ v ∷ us) = elim (cuts k (v ∷ us)) [
  | inl (few, all_) ↦ inl (ground (arith, few), ap (λ xs. u ∷ xs) all_)
  | inr (cs, x, vs, e, cut, more) ↦
      inr (u ∷ cs, x, vs, ap (λ xs. u ∷ xs) e, ap (λ xs. u ∷ xs) cut, ground (arith, more))
]

pub Cuts-pos : (n : ℕ) (us : List User) → 1 ≤ n → Cuts n us
Cuts-pos zero us h = absurd (omega arith)
Cuts-pos (suc k) us h = cuts k us

pub last_of-append : (cs : List User) (u : User) → last_of (cs ++ u ∷ []) ≡ some u
last_of-append [] u = refl
last_of-append (c ∷ cs) u = ground (arith, last_of-append cs u)

pub length-suffix : (cs : List User) (u : User) (vs : List User) → length vs < length (cs ++ u ∷ vs)
length-suffix [] u vs = omega arith
length-suffix (c ∷ cs) u vs = let h = length-suffix cs u vs in ground (arith, h)

pub keep-true : (us : List User) → keep (λ u. true) us ≡ us
keep-true [] = refl
keep-true (u ∷ us) = ap (λ xs. u ∷ xs) (keep-true us)

pub length-keep : (p : User → Bool) (us : List User) → length (keep p us) ≤ length us
length-keep p [] = omega arith
length-keep p (u ∷ us) = ground (arith, length-keep p us)

length-insert_user : (u : User) (us : List User) → length (insert_user u us) ≡ suc (length us)
unfolding insert_user
length-insert_user u [] = refl
length-insert_user u (v ∷ us) = ground (arith, length-insert_user u us)

pub length-newest_first : (us : List User) → length (newest_first us) ≡ length us
unfolding newest_first
length-newest_first [] = refl
length-newest_first (u ∷ us) =
    ground (arith, length-insert_user u (newest_first us), length-newest_first us)

-- A cursor is read back as the row that it was made from.
pub after_cursor-encode_cursor :
    (x : CursorTexts) (u : User)
    → after_cursor x (some (encode_cursor x u.created_at u.id)) ≡ some (before u)
unfolding after_cursor decode_cursor
after_cursor-encode_cursor x u = ground (
  arith,
  x.b64decode-b64encode (append (x.isoformat u.created_at) (append "|" (x.uuid_text u.id))),
  x.split_bar-isoformat u.created_at (x.uuid_text u.id),
  x.fromisoformat-isoformat u.created_at,
  x.uuid_of-uuid_text u.id,
)
