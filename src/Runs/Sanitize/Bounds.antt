-- ===== src/Runs/Sanitize/Bounds.antt =====
-- What `_sanitize_event_value` may return, and that its marks keep to it.
use Prim.Native.String.{len}
use ambient_agent.Prelude.{
  ℕ, zero, suc, ◌-◌, ◌≤◌, String, ◌≡◌, refl, ap, inl, inr, Bool, true, false, not, ◌&&◌, ◌||◌,
  Option, some, arith, eq_iff, any, ltb, leb, ◌=ₛ◌, Bool-cases, and_intro, and_left, and_right,
}
use ambient_agent.Json.{
  Json, Items, Fields, null, bool, num, real, str, arr, obj, nil, cons, end, field, put,
}
use ambient_agent.Runs.Sanitize.{
  event_max_collection_items, event_max_string_bytes, is_sensitive, sanitize_text, guarded,
  count_items, count_fields, append_item, close_fields, close_items, sanitize_event_value,
  sanitize_fields, sanitize_items,
}

abbrev is_redacted : Json → Bool
is_redacted (str t) = t =ₛ "[REDACTED]"
is_redacted _ = false

abbrev pub keeps_secret : String → Json → Bool
keeps_secret k v = not (is_sensitive (some k)) || is_redacted v

-- No value under a secret's name but the mark, at any depth; no collection of more than 256 items
-- and the mark; no value nested deeper than the fuel.
unfoldable mutual
  pub is_safe : ℕ → Json → Bool
  is_safe zero (obj d) = false
  is_safe (suc n) (obj d) = leb (count_fields d) 257 && safe_fields n d
  is_safe zero (arr xs) = false
  is_safe (suc n) (arr xs) = leb (count_items xs) 257 && safe_items n xs
  is_safe n _ = true

  pub safe_fields : ℕ → Fields → Bool
  safe_fields n end = true
  safe_fields n (field k v d) = keeps_secret k v && (is_safe n v && safe_fields n d)

  pub safe_items : ℕ → Items → Bool
  safe_items n nil = true
  safe_items n (cons x xs) = is_safe n x && safe_items n xs

safe_str : (n : ℕ) (t : String) → is_safe n (str t) ≡ true
unfolding is_safe
safe_str zero t = refl
safe_str (suc n) t = refl

pub text-safe : (n : ℕ) (t : String) → is_safe n (sanitize_text t).0 ≡ true
unfolding sanitize_text
text-safe n t = elim (Bool-cases (leb (len t) event_max_string_bytes)) [
  | inl short ↦ rw short (safe_str n t)
  | inr long ↦ rw long (safe_str n _)
]

-- A guarded result is safe if the result is, below the greatest depth.
pub guarded-safe :
    (key : Option String) (depth n : ℕ) (v : Json) (b : Bool)
    → (leb 12 depth ≡ false → is_safe n v ≡ true)
    → is_safe n (guarded key depth (v, b)).0 ≡ true
unfolding guarded
guarded-safe key depth n v b h = elim (Bool-cases (is_sensitive key)) [
  | inl secret ↦ rw secret (safe_str n "[REDACTED]")
  | inr plain ↦ elim (Bool-cases (leb 12 depth)) [
    | inl deep ↦ rw plain (rw deep (safe_str n _))
    | inr fine ↦ rw plain (rw fine (h fine))
  ]
]

guarded-redacted :
    (key : Option String) (depth : ℕ) (result : Json × Bool)
    → is_sensitive key ≡ true
    → is_redacted (guarded key depth result).0 ≡ true
unfolding guarded
guarded-redacted key depth result h = rw h refl

module _ (k : String) (depth : ℕ) where
  secret-redacted :
      (v : Json)
      → is_sensitive (some k) ≡ true
      → is_redacted (sanitize_event_value (some k) depth v).0 ≡ true
  unfolding sanitize_event_value
  secret-redacted (obj d) h = guarded-redacted (some k) depth _ h
  secret-redacted (arr xs) h = guarded-redacted (some k) depth _ h
  secret-redacted (str s) h = guarded-redacted (some k) depth (sanitize_text s) h
  secret-redacted null h = guarded-redacted (some k) depth (null, false) h
  secret-redacted (bool b) h = guarded-redacted (some k) depth (bool b, false) h
  secret-redacted (num n) h = guarded-redacted (some k) depth (num n, false) h
  secret-redacted (real neg n) h = guarded-redacted (some k) depth (real neg n, false) h

  pub sanitize-redacted :
      (v : Json) → keeps_secret k (sanitize_event_value (some k) depth v).0 ≡ true
  sanitize-redacted v = elim (Bool-cases (is_sensitive (some k))) [
    | inr plain ↦ rw plain refl
    | inl secret ↦ rw (secret, secret-redacted v secret) refl
  ]

count-put : (k : String) (v : Json) (d : Fields) → count_fields (put k v d) ≤ suc (count_fields d)
unfolding put count_fields
count-put k v end = omega arith
count-put k v (field j w d) = ground (arith, count-put k v d)

count-append : (xs : Items) (v : Json) → count_items (append_item xs v) ≡ suc (count_items xs)
unfolding append_item count_items
count-append nil v = refl
count-append (cons x xs) v = ap suc (count-append xs v)

pub count-sanitize_fields :
    (depth n : ℕ) (d : Fields) → count_fields (sanitize_fields depth n d).0 ≤ n
unfolding sanitize_fields count_fields
count-sanitize_fields depth n end = omega arith
count-sanitize_fields depth zero (field k v d) = omega arith
count-sanitize_fields depth (suc n) (field k v d) = omega (arith, count-sanitize_fields depth n d)

pub count-sanitize_items :
    (depth n : ℕ) (xs : Items) → count_items (sanitize_items depth n xs).0 ≤ n
unfolding sanitize_items count_items
count-sanitize_items depth n nil = omega arith
count-sanitize_items depth zero (cons x xs) = omega arith
count-sanitize_items depth (suc n) (cons x xs) = omega (arith, count-sanitize_items depth n xs)

mark-plain : is_sensitive (some "_truncated_items") ≡ false
unfolding is_sensitive any
mark-plain = refl

pub safe_num : (n m : ℕ) → is_safe n (num m) ≡ true
unfolding is_safe
safe_num zero m = refl
safe_num (suc n) m = refl

mark-kept : (j : String) (v : Json) → j ≡ "_truncated_items" → keeps_secret j v ≡ true
mark-kept j v e = rw e (rw mark-plain refl)

pub field-safe :
    (n : ℕ) (k : String) (v : Json) (d : Fields)
    → keeps_secret k v ≡ true
    → is_safe n v ≡ true
    → safe_fields n d ≡ true
    → safe_fields n (field k v d) ≡ true
unfolding is_safe
field-safe n k v d p q r = and_intro (keeps_secret k v) _ p (and_intro (is_safe n v) _ q r)

safe-put :
    (n m : ℕ) (d : Fields)
    → safe_fields n d ≡ true
    → safe_fields n (put "_truncated_items" (num m) d) ≡ true
unfolding put is_safe
safe-put n m end h =
    field-safe n "_truncated_items" (num m) end (mark-kept "_truncated_items" (num m) refl)
      (safe_num n m) refl
safe-put n m (field j w d) h =
    let rest = and_right (is_safe n w) (safe_fields n d) (and_right (keeps_secret j w) _ h) in
    elim (Bool-cases (j =ₛ "_truncated_items")) [
      | inl same ↦ rw same (
          field-safe n j (num m) d (mark-kept j (num m) ((eq_iff j "_truncated_items").0 same))
            (safe_num n m) rest)
      | inr other ↦ rw other (
          field-safe n j w _ (and_left (keeps_secret j w) _ h)
            (and_left (is_safe n w) (safe_fields n d) (and_right (keeps_secret j w) _ h))
            (safe-put n m d rest))
    ]

item-safe : (n m : ℕ) → is_safe (suc n) (obj (field "_truncated_items" (num m) end)) ≡ true
unfolding is_safe count_fields
item-safe n m =
    field-safe n "_truncated_items" (num m) end (mark-kept "_truncated_items" (num m) refl)
      (safe_num n m) refl

safe-append :
    (n m : ℕ) (xs : Items)
    → safe_items (suc n) xs ≡ true
    → safe_items (suc n) (append_item xs (obj (field "_truncated_items" (num m) end))) ≡ true
unfolding append_item is_safe
safe-append n m nil h = and_intro _ true (item-safe n m) refl
safe-append n m (cons x xs) h =
    and_intro (is_safe (suc n) x) _ (and_left (is_safe (suc n) x) _ h)
      (safe-append n m xs (and_right (is_safe (suc n) x) _ h))

few : (n : ℕ) → n ≤ 257 → leb n 257 ≡ true
few n h = ground arith

pub closed_fields-safe :
    (n size : ℕ) (d : Fields)
    → count_fields d ≤ 256
    → safe_fields n d ≡ true
    → is_safe (suc n) (obj (close_fields size d)) ≡ true
unfolding is_safe close_fields
closed_fields-safe n size d small h = elim (Bool-cases (ltb event_max_collection_items size)) [
  | inl cut ↦
      let grown = count-put "_truncated_items" (num (size - 256)) d in
      rw cut (and_intro _ _ (few _ (omega (arith, grown, small))) (safe-put n (size - 256) d h))
  | inr whole ↦ rw whole (and_intro _ _ (few _ (omega (arith, small))) h)
]

pub closed_items-safe :
    (n size : ℕ) (xs : Items)
    → count_items xs ≤ 256
    → safe_items (suc n) xs ≡ true
    → is_safe (suc (suc n)) (arr (close_items size xs)) ≡ true
unfolding is_safe close_items
closed_items-safe n size xs small h = elim (Bool-cases (ltb event_max_collection_items size)) [
  | inl cut ↦
      let grown = count-append xs (obj (field "_truncated_items" (num (size - 256)) end)) in
      rw cut (and_intro _ _ (few _ (omega (arith, grown, small))) (safe-append n (size - 256) xs h))
  | inr whole ↦ rw whole (and_intro _ _ (few _ (omega (arith, small))) h)
]
