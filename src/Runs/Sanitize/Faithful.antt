-- ===== src/Runs/Sanitize/Faithful.antt =====
-- The `redacted` flag of an event tells whether `_sanitize_event_value` changed the payload.
use ambient_agent.Prelude.{
  ℕ, zero, suc, ◌≤◌, String, ◌≡◌, refl, ap, ◌∙◌, inl, inr, Bool, false, ◌||◌, Option, none, some,
  arith, leb, Bool-cases,
}
use ambient_agent.Json.{
  Json, Items, Fields, null, bool, num, real, str, arr, obj, nil, cons, end, field,
}
use ambient_agent.Runs.Sanitize.{
  is_sensitive, sanitize_text, guarded, count_items, count_fields, close_fields, close_items,
  sanitize_event_value, sanitize_fields, sanitize_items,
}

guarded-kept :
    (key : Option String) (depth : ℕ) (result : Json × Bool)
    → (guarded key depth result).1 ≡ false
    → guarded key depth result ≡ result
unfolding guarded
guarded-kept key depth result h = elim (Bool-cases (is_sensitive key)) [
  | inl secret ↦ ground (arith, secret)
  | inr plain ↦ elim (Bool-cases (leb 12 depth)) [
    | inl deep ↦ ground (arith, plain, deep)
    | inr fine ↦ rw plain (rw fine refl)
  ]
]

-- A guarded result that is flagged as unchanged is the value, if the result inside says so.
guarded-same :
    (key : Option String) (depth : ℕ) (v w : Json) (b : Bool)
    → (b ≡ false → w ≡ v)
    → (guarded key depth (w, b)).1 ≡ false
    → (guarded key depth (w, b)).0 ≡ v
guarded-same key depth v w b same h =
    let e = guarded-kept key depth (w, b) h in
    let flag : b ≡ false = ground (arith, ap (λ x. x.1) e, h) in ap (λ x. x.0) e ∙ same flag

text-same : (t : String) → (sanitize_text t).1 ≡ false → (sanitize_text t).0 ≡ str t
unfolding sanitize_text
text-same t h = ground arith

whole_fields : (size : ℕ) (d : Fields) → size ≤ 256 → close_fields size d ≡ d
unfolding close_fields
whole_fields size d few = ground arith

whole_items : (size : ℕ) (xs : Items) → size ≤ 256 → close_items size xs ≡ xs
unfolding close_items
whole_items size xs few = ground arith

or-left : (a b : Bool) → (a || b) ≡ false → a ≡ false
or-left a b h = ground arith

or-right : (a b : Bool) → (a || b) ≡ false → b ≡ false
or-right a b h = ground arith

mutual
  unfolding sanitize_event_value count_items count_fields

  value-same :
      (key : Option String) (depth : ℕ) (v : Json)
      → (sanitize_event_value key depth v).1 ≡ false
      → (sanitize_event_value key depth v).0 ≡ v
  value-same key depth (obj d) h =
      guarded-same key depth (obj d) _ _
        (λ b.
          let (same, few) = fields-same (suc depth) 256 d b in
          ap obj (whole_fields (count_fields d) _ few ∙ same))
        h
  value-same key depth (arr xs) h =
      guarded-same key depth (arr xs) _ _
        (λ b.
          let (same, few) = items-same (suc depth) 256 xs b in
          ap arr (whole_items (count_items xs) _ few ∙ same))
        h
  value-same key depth (str t) h = guarded-same key depth (str t) _ _ (text-same t) h
  value-same key depth null h = guarded-same key depth null null false (λ b. refl) h
  value-same key depth (bool x) h = guarded-same key depth (bool x) (bool x) false (λ b. refl) h
  value-same key depth (num n) h = guarded-same key depth (num n) (num n) false (λ b. refl) h
  value-same key depth (real neg n) h =
      guarded-same key depth (real neg n) (real neg n) false (λ b. refl) h

  fields-same :
      (depth capacity : ℕ) (d : Fields)
      → (sanitize_fields depth capacity d).1 ≡ false
      → ((sanitize_fields depth capacity d).0 ≡ d) × (count_fields d ≤ capacity)
  fields-same depth capacity end h = (refl, omega arith)
  fields-same depth zero (field k v d) h = ground arith
  fields-same depth (suc capacity) (field k v d) h =
      let (same, few) =
        fields-same depth capacity d (or-right (sanitize_event_value (some k) depth v).1 _ h) in
      let e = value-same (some k) depth v (or-left _ (sanitize_fields depth capacity d).1 h) in
      (rw (e, same) refl, omega (arith, few))

  items-same :
      (depth capacity : ℕ) (xs : Items)
      → (sanitize_items depth capacity xs).1 ≡ false
      → ((sanitize_items depth capacity xs).0 ≡ xs) × (count_items xs ≤ capacity)
  items-same depth capacity nil h = (refl, omega arith)
  items-same depth zero (cons x xs) h = ground arith
  items-same depth (suc capacity) (cons x xs) h =
      let (same, few) =
        items-same depth capacity xs (or-right (sanitize_event_value none depth x).1 _ h) in
      let e = value-same none depth x (or-left _ (sanitize_items depth capacity xs).1 h) in
      (rw (e, same) refl, omega (arith, few))

-- If the sanitizer does not flag a value as changed, at whatever depth and under whatever key, the
-- value it returns is the one it was given.
pub sanitize_event_value_faithful :
    (key : Option String) (depth : ℕ) (v : Json)
    → (sanitize_event_value key depth v).1 ≡ false
    → (sanitize_event_value key depth v).0 ≡ v
sanitize_event_value_faithful key depth v h = value-same key depth v h
