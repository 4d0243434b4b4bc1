-- ===== src/Runs/Sanitize/Safety.antt =====
-- What `_sanitize_event_value` returns passes the test of Bounds.
use ambient_agent.Prelude.{
  ℕ, zero, suc, ◌+◌, ◌≤◌, String, ◌≡◌, refl, Bool, true, false, Option, none, some, arith, leb,
  and_intro,
}
use ambient_agent.Json.{
  Json, Items, Fields, null, bool, num, real, str, arr, obj, nil, cons, end, field,
}
use ambient_agent.Runs.Sanitize.{
  count_items, count_fields, sanitize_event_value, sanitize_fields, sanitize_items,
}
use ambient_agent.Runs.Sanitize.Bounds.{
  is_safe, safe_fields, safe_items, text-safe, guarded-safe, sanitize-redacted,
  count-sanitize_fields, count-sanitize_items, safe_num, field-safe, closed_fields-safe,
  closed_items-safe,
}

safe_null : (n : ℕ) → is_safe n null ≡ true
unfolding is_safe
safe_null zero = refl
safe_null (suc n) = refl

safe_bool : (n : ℕ) (b : Bool) → is_safe n (bool b) ≡ true
unfolding is_safe
safe_bool zero b = refl
safe_bool (suc n) b = refl

safe_real : (n : ℕ) (neg : Bool) (m : ℕ) → is_safe n (real neg m) ≡ true
unfolding is_safe
safe_real zero neg m = refl
safe_real (suc n) neg m = refl

shallow : {A : Type 0} (depth : ℕ) → 12 ≤ depth → leb 12 depth ≡ false → A
shallow depth deep fine = absurd (ground arith)

-- A nested value has a unit of fuel less, a level of depth more.
mutual
  unfolding sanitize_event_value is_safe

  value-safe :
      (key : Option String) (depth n : ℕ) (v : Json)
      → n + depth ≡ 13
      → is_safe n (sanitize_event_value key depth v).0 ≡ true
  value-safe key depth zero (obj d) e =
      guarded-safe key depth zero _ _ λ fine. shallow depth (omega arith) fine
  value-safe key depth (suc zero) (obj d) e =
      guarded-safe key depth 1 _ _ λ fine. shallow depth (omega arith) fine
  value-safe key depth (suc (suc n)) (obj d) e = guarded-safe key depth (suc (suc n)) _ _ λ fine.
      closed_fields-safe (suc n) (count_fields d) _ (count-sanitize_fields (suc depth) 256 d)
        (fields-safe (suc depth) (suc n) 256 d (omega arith))
  value-safe key depth zero (arr xs) e =
      guarded-safe key depth zero _ _ λ fine. shallow depth (omega arith) fine
  value-safe key depth (suc zero) (arr xs) e =
      guarded-safe key depth 1 _ _ λ fine. shallow depth (omega arith) fine
  value-safe key depth (suc (suc n)) (arr xs) e = guarded-safe key depth (suc (suc n)) _ _ λ fine.
      closed_items-safe n (count_items xs) _ (count-sanitize_items (suc depth) 256 xs)
        (items-safe (suc depth) (suc n) 256 xs (omega arith))
  value-safe key depth n (str t) e = guarded-safe key depth n _ _ λ fine. text-safe n t
  value-safe key depth n null e = guarded-safe key depth n null false λ fine. safe_null n
  value-safe key depth n (bool b) e = guarded-safe key depth n (bool b) false λ fine. safe_bool n b
  value-safe key depth n (num m) e = guarded-safe key depth n (num m) false λ fine. safe_num n m
  value-safe key depth n (real neg m) e =
      guarded-safe key depth n (real neg m) false λ fine. safe_real n neg m

  fields-safe :
      (depth n capacity : ℕ) (d : Fields)
      → n + depth ≡ 13
      → safe_fields n (sanitize_fields depth capacity d).0 ≡ true
  fields-safe depth n capacity end e = refl
  fields-safe depth n zero (field k v d) e = refl
  fields-safe depth n (suc capacity) (field k v d) e =
      field-safe n k _ _ (sanitize-redacted k depth v) (value-safe (some k) depth n v e)
        (fields-safe depth n capacity d e)

  items-safe :
      (depth n capacity : ℕ) (xs : Items)
      → n + depth ≡ 13
      → safe_items n (sanitize_items depth capacity xs).0 ≡ true
  items-safe depth n capacity nil e = refl
  items-safe depth n zero (cons x xs) e = refl
  items-safe depth n (suc capacity) (cons x xs) e =
      and_intro _ _ (value-safe none depth n x e) (items-safe depth n capacity xs e)

-- The payload that an event stores is safe: under a secret's name, at any depth, there is only the
-- redaction mark; each list and object has at most 257 members; and values nest at most 13 deep.
pub sanitize_event_value_safe :
    (payload : Json) → is_safe 13 (sanitize_event_value none 0 payload).0 ≡ true
sanitize_event_value_safe payload = value-safe none 0 13 payload refl
