-- ===== src/Tests/Cache.antt =====
-- A cache server as a function, which shows that the assumptions on the server can be met.
use text.Mathlib.TextEquality.{eq_iff}
use text.Mathlib.Text.{◌==◌ as str_eq}
use mathlib.Core.Bool.{false≢true}
use native.Mathlib.Decide.{ℕ_discrete}
use mathlib.Core.Logic.{ite, if_pos, if_neg}
use customer_portal.Prelude.{
  Bool-cases, inl, inr, none, some, suc, pos, true, false, ℕ, Option, String, Bool, ◌≡◌, refl, ◌≢◌,
  ap, sym, ◌∙◌,
}
use customer_portal.Valkey.{CacheKey, CacheValue, counter, Valkey}

String_discrete : Discrete String
String_discrete a b = elim (Bool-cases (str_eq a b)) [
  | inl e ↦ yes ((eq_iff a b).0 e)
  | inr e ↦ no (λ q. false≢true (sym e ∙ (eq_iff a b).1 q))
]

key_discrete : Discrete CacheKey
key_discrete = hlevel (ℕ_discrete, String_discrete)

abbrev pub Entries : Type 0
Entries = CacheKey → Option CacheValue

pub put : CacheKey → Option CacheValue → Entries → Entries
put k v s j = ite (key_discrete j k) v (s j)

pub put_self : (k : CacheKey) (v : Option CacheValue) (s : Entries) → put k v s k ≡ v
unfolding put
put_self k v s = if_pos (key_discrete k k) refl _ _

pub put_ne : (j k : CacheKey) (v : Option CacheValue) (s : Entries) → j ≢ k → put k v s j ≡ s j
unfolding put
put_ne j k v s h = if_neg (key_discrete j k) h _ _

-- The number that INCR counts from.
abbrev pub counted : Option CacheValue → ℕ
counted (some (counter n)) = n
counted _ = 0

abbrev pub set_nx : CacheKey → CacheValue → Entries → Option CacheValue → Bool × Entries
set_nx k v s none = (true, put k (some v) s)
set_nx k v s (some w) = (false, s)

-- Nothing expires here, and no key has a time to live.
abbrev pub valkey : Valkey
valkey = record {
  Store = Entries;
  get = λ k s. s k;
  set_ex = λ k v n s. put k (some v) s;
  set_nx_ex = λ k v n s. set_nx k v s (s k);
  delete = λ k s. put k none s;
  incr = λ k s. (suc (counted (s k)), put k (some (counter (suc (counted (s k))))) s);
  expire = λ k n s. s;
  ttl = λ k s. pos 0;
  get-set_ex = λ k v n s. put_self k (some v) s;
  get-set_ex_ne = λ j k v n s h. put_ne j k (some v) s h;
  set_nx_ex-absent = λ k v n s e. ap (set_nx k v s) e;
  set_nx_ex-present = λ k v w n s e. ap (set_nx k v s) e;
  get-delete = λ k s. put_self k none s;
  get-delete_ne = λ j k s h. put_ne j k none s h;
  incr-absent = λ k s e. ap (λ o. suc (counted o)) e;
  incr-counter = λ k n s e. ap (λ o. suc (counted o)) e;
  get-incr-absent = λ k s e.
      put_self k (some (counter (suc (counted (s k))))) s
      ∙ ap (λ o. some (counter (suc (counted o)))) e;
  get-incr-counter = λ k n s e.
      put_self k (some (counter (suc (counted (s k))))) s
      ∙ ap (λ o. some (counter (suc (counted o)))) e;
  get-incr_ne = λ j k s h. put_ne j k (some (counter (suc (counted (s k))))) s h;
  get-expire = λ j k n s h. refl;
}

-- The empty cache.
abbrev pub valkey_start : Entries
valkey_start k = none
