-- ===== src/Tests/Cursor.antt =====
-- Moments and ids as unary texts, for cursors.
use Prim.Native.Nat.{ℕ, zero, suc}
use Prim.Native.Char.{Char, code}
use Prim.Native.String.{String, [], ◌∷◌, count, char_at, ◌++◌ as append}
use Prim.Native.String.count
use Prim.Native.String.append
use customer_portal.Prelude.{◌≡◌, refl, ap, ◌∙◌, Option, none, some, ◌==◌, if◌then◌else◌}
use customer_portal.AdminUsers.Listing.{CursorTexts}

abbrev pub one : Char
one = char_at "1" 0

abbrev bar : Char
bar = char_at "|" 0

abbrev pub unary : ℕ → String
unary zero = ""
unary (suc n) = one ∷ unary n

pub count-unary : (n : ℕ) → count (unary n) ≡ n
count-unary zero = refl
count-unary (suc n) = count.cons one (unary n) ∙ ap suc (count-unary n)

abbrev pub before_bar : Char → Option (String × String) → Option (String × String)
before_bar c none = none
before_bar c (some (a, b)) = some (c ∷ a, b)

-- 124 is the number of the bar.
abbrev pub split_bar : String → Option (String × String)
split_bar [] = none
split_bar (c ∷ s) =
    let rest = split_bar s in if code c == 124 then some ("", s) else before_bar c rest

pub split_bar-unary :
    (n : ℕ) (rest : String) → split_bar (append (unary n) (append "|" rest)) ≡ some (unary n, rest)
split_bar-unary zero rest =
    ap split_bar
      (append.nil (append "|" rest) ∙ append.cons bar "" rest ∙ ap (λ s. bar ∷ s) (append.nil rest))
split_bar-unary (suc n) rest =
    ap split_bar (append.cons one (unary n) (append "|" rest))
    ∙ ap (before_bar one) (split_bar-unary n rest)

abbrev pub cursor_texts : CursorTexts
cursor_texts = record {
  isoformat = unary;
  fromisoformat = λ s. some (count s);
  uuid_text = unary;
  uuid_of = λ s. some (count s);
  b64encode = λ s. s;
  b64decode = λ s. some s;
  split_bar = split_bar;
  fromisoformat-isoformat = λ t. ap some (count-unary t);
  uuid_of-uuid_text = λ id. ap some (count-unary id);
  b64decode-b64encode = λ raw. refl;
  split_bar-isoformat = split_bar-unary;
}
