-- ===== src/Runs/Sanitize.antt =====
-- `_sanitize_event_value` (backend/run_service.py): bounds event payloads and redacts secrets.
-- `str.lower` is modelled on ASCII letters; other characters are left as they are.
pub mod Bounds
pub mod Safety
pub mod Faithful
use Prim.Native.Nat.{◌/◌, ◌%◌}
use Prim.Native.Char.{len_utf8}
use Prim.Native.String.{◌++◌, len}
use ambient_agent.Prelude.Texts.{codes}
use ambient_agent.Prelude.{
  ℕ, zero, suc, ◌+◌, ◌-◌, String, Bool, true, false, ◌&&◌, ◌||◌, Option, none, some, List, [], ◌∷◌,
  map, any, ltb, leb, ◌==◌, if◌then◌else◌,
}
use ambient_agent.Json.{
  Json, Items, Fields, null, bool, num, real, str, arr, obj, nil, cons, end, field, put,
}

abbrev pub event_max_string_bytes : ℕ
event_max_string_bytes = 65536

abbrev pub event_max_collection_items : ℕ
event_max_collection_items = 256

-- One character of `key.lower().replace("-", "_")`.
unfoldable pub normalize_code : ℕ → ℕ
normalize_code c = if leb 65 c && leb c 90 then c + 32 else if c == 45 then 95 else c

abbrev same_codes : List ℕ → List ℕ → Bool
same_codes [] [] = true
same_codes (x ∷ xs) (y ∷ ys) = x == y && same_codes xs ys
same_codes _ _ = false

-- `text.endswith(suffix)`
abbrev ends_with : List ℕ → List ℕ → Bool
ends_with suffix [] = same_codes [] suffix
ends_with suffix (x ∷ xs) = same_codes (x ∷ xs) suffix || ends_with suffix xs

-- _EVENT_SENSITIVE_KEYS
abbrev event_sensitive_keys : List String
event_sensitive_keys =
    "api_key" ∷ "authorization" ∷ "cookie" ∷ "credential" ∷ "credentials" ∷ "password"
    ∷ "refresh_token" ∷ "secret" ∷ "token" ∷ []

unfoldable pub is_sensitive_name : List ℕ → Bool
is_sensitive_name name =
    any (λ k. same_codes name (codes k)) event_sensitive_keys
    || any (λ k. ends_with (codes k) name) ("_password" ∷ "_secret" ∷ "_token" ∷ [])

unfoldable pub is_sensitive : Option String → Bool
unfolding is_sensitive_name normalize_code
is_sensitive none = false
is_sensitive (some key) = is_sensitive_name (map normalize_code (codes key))

-- `encoded[:limit].decode("utf-8", errors="ignore")`: the characters that fit whole.
unfoldable pub utf8_prefix : ℕ → String → String
utf8_prefix limit String.[] = String.[]
utf8_prefix limit (String.◌∷◌ c s) =
    let rest = utf8_prefix (limit - len_utf8 c) s in
    if leb (len_utf8 c) limit then String.◌∷◌ c rest else String.[]

abbrev digit : ℕ → String
digit zero = "0"
digit (suc zero) = "1"
digit (suc (suc zero)) = "2"
digit (suc (suc (suc zero))) = "3"
digit (suc (suc (suc (suc zero)))) = "4"
digit (suc (suc (suc (suc (suc zero))))) = "5"
digit (suc (suc (suc (suc (suc (suc zero)))))) = "6"
digit (suc (suc (suc (suc (suc (suc (suc zero))))))) = "7"
digit (suc (suc (suc (suc (suc (suc (suc (suc zero)))))))) = "8"
digit _ = "9"

-- The decimal digits of a number; its own size is fuel enough, since a division by ten shrinks it.
unfoldable pub decimal_from : ℕ → ℕ → String → String
decimal_from zero n acc = acc
decimal_from (suc fuel) n acc =
    let rest = decimal_from fuel (n / 10) (digit (n % 10) ++ acc) in
    if ltb n 10 then digit n ++ acc else rest

unfoldable pub truncation_suffix : ℕ → String
unfolding decimal_from
truncation_suffix size = "\n...[TRUNCATED: original_bytes=" ++ (decimal_from (suc size) size "]")

unfoldable pub sanitize_text : String → Json × Bool
unfolding utf8_prefix truncation_suffix
sanitize_text value =
    let size = len value in
    let suffix = truncation_suffix size in
    if leb size event_max_string_bytes
    then (str value, false)
    else (str (utf8_prefix (event_max_string_bytes - len suffix) value ++ suffix), true)

-- The two tests that come before any look at the value.
unfoldable pub guarded : Option String → ℕ → Json × Bool → Json × Bool
guarded key depth result =
    if is_sensitive key
    then (str "[REDACTED]", true)
    else if leb 12 depth
    then (str "[TRUNCATED: maximum event depth]", true)
    else result

unfoldable pub count_items : Items → ℕ
count_items nil = 0
count_items (cons x xs) = suc (count_items xs)

unfoldable pub count_fields : Fields → ℕ
count_fields end = 0
count_fields (field k v d) = suc (count_fields d)

unfoldable pub append_item : Items → Json → Items
append_item nil v = cons v nil
append_item (cons x xs) v = cons x (append_item xs v)

-- The mark that closes a collection of which items were left out.
unfoldable pub close_fields : ℕ → Fields → Fields
close_fields size d =
    if ltb event_max_collection_items size
    then put "_truncated_items" (num (size - event_max_collection_items)) d
    else d

unfoldable pub close_items : ℕ → Items → Items
unfolding append_item
close_items size xs =
    if ltb event_max_collection_items size
    then append_item xs
        (obj (field "_truncated_items" (num (size - event_max_collection_items)) end))
    else xs

-- `capacity` is how many more items the collection may keep. A Python dict has each key once, so
-- that writing `sanitized[key]` appends.
unfoldable mutual
  pub sanitize_event_value : Option String → ℕ → Json → Json × Bool
  sanitize_event_value key depth (obj d) =
      let (kept, changed) = sanitize_fields (suc depth) event_max_collection_items d in
      guarded key depth (obj (close_fields (count_fields d) kept), changed)
  sanitize_event_value key depth (arr xs) =
      let (kept, changed) = sanitize_items (suc depth) event_max_collection_items xs in
      guarded key depth (arr (close_items (count_items xs) kept), changed)
  sanitize_event_value key depth (str s) = guarded key depth (sanitize_text s)
  sanitize_event_value key depth null = guarded key depth (null, false)
  sanitize_event_value key depth (bool b) = guarded key depth (bool b, false)
  sanitize_event_value key depth (num n) = guarded key depth (num n, false)
  sanitize_event_value key depth (real neg n) = guarded key depth (real neg n, false)

  pub sanitize_fields : ℕ → ℕ → Fields → Fields × Bool
  sanitize_fields depth capacity end = (end, false)
  sanitize_fields depth zero (field k v d) = (end, true)
  sanitize_fields depth (suc capacity) (field k v d) =
      let (v', changed) = sanitize_event_value (some k) depth v in
      let (d', more) = sanitize_fields depth capacity d in (field k v' d', changed || more)

  pub sanitize_items : ℕ → ℕ → Items → Items × Bool
  sanitize_items depth capacity nil = (nil, false)
  sanitize_items depth zero (cons x xs) = (nil, true)
  sanitize_items depth (suc capacity) (cons x xs) =
      let (x', changed) = sanitize_event_value none depth x in
      let (xs', more) = sanitize_items depth capacity xs in (cons x' xs', changed || more)
