-- ===== src/Redis/Client/Keys.antt =====
-- RedisClient::BuildRedisKey: the key of an id behind a prefix.
use Prim.Native.Char.{code}
use Prim.Native.String.{◌++◌ as ◌+++◌}
use text.Mathlib.TextLemmas.{append_cancel_left, cons-append}
use shooting_star.Base.{
  ℕ, String, ◌≡◌, ◌↔◌, refl, sym, ◌∙◌, ap, ◌≤◌, ◌==◌, ◌&&◌, if◌then◌else◌, some, arith,
}
use shooting_star.Base.Text.{to_string, is_empty}
use shooting_star.Base.Decimal.{uint64_max, parse_uint64, parse_uint64-to_string}

-- `while (!key.empty() && key.back() == ':') key.pop_back();`
pub trim_colons : String → String
trim_colons String.[] = ""
trim_colons (String.◌∷◌ c s) =
    let rest = trim_colons s in if is_empty rest && code c == b':' then "" else String.◌∷◌ c rest

unfoldable pub build_redis_key : String → ℕ → String
unfolding trim_colons
build_redis_key key_prefix item_id = (trim_colons key_prefix +++ ":") +++ to_string item_id

keys :
    (build_redis_key "item_cf" 42 ≡ "item_cf:42")
    × (build_redis_key "item_cf::" 42 ≡ "item_cf:42")
    × (build_redis_key ":" 7 ≡ ":7")
unfolding build_redis_key to_string
keys = (refl, refl, refl)

-- The number of a text of one to twenty digits is the only one of that text.
to_string_inj : (a b : ℕ) → a ≤ uint64_max → b ≤ uint64_max → to_string a ≡ to_string b → a ≡ b
to_string_inj a b ha hb e =
    let p : some a ≡ some b =
      sym (parse_uint64-to_string a ha) ∙ ap parse_uint64 e ∙ parse_uint64-to_string b hb in
    ground (arith, p)

trim_colons-append : (s : String) → trim_colons (s +++ ":") ≡ trim_colons s
unfolding trim_colons
trim_colons-append String.[] = refl
trim_colons-append (String.◌∷◌ c s) =
    rw (cons-append c s ":", trim_colons, trim_colons-append s) refl

build_redis_key-colon :
    (key_prefix : String) (a : ℕ)
    → build_redis_key (key_prefix +++ ":") a ≡ build_redis_key key_prefix a
unfolding build_redis_key
build_redis_key-colon key_prefix a = rw (trim_colons-append key_prefix) refl

-- Behind one prefix, written with or without one more colon at its end, two ids of 64 bits have the
-- same key exactly when they are the same id.
pub build_redis_key_inj :
    (key_prefix : String) (a b : ℕ)
    → a ≤ uint64_max
    → b ≤ uint64_max
    → (build_redis_key (key_prefix +++ ":") a ≡ build_redis_key key_prefix b) ↔ (a ≡ b)
unfolding build_redis_key
build_redis_key_inj key_prefix a b ha hb = (
  λ e. to_string_inj a b ha hb (
      append_cancel_left (trim_colons key_prefix +++ ":") (to_string a) (to_string b)
        (sym (build_redis_key-colon key_prefix a) ∙ e)),
  λ e. build_redis_key-colon key_prefix a ∙ ap (build_redis_key key_prefix) e,
)
