-- ===== src/Runs/Idempotency.antt =====
-- A request to create a Run may be sent again under its idempotency key (`create_run`).
use Prim.Native.Nat.{◌*◌}
use mathlib.Core.Path.{subst, sym}
use ambient_agent.Prelude.{
  ◌==◌, not, ◌&&◌, ℕ, String, ◌≡◌, refl, ap, ◌∙◌, inl, inr, Bool, true, false, none, some, [], ◌∷◌,
  ◌++◌, arith, text_refl, and_intro, Bool-cases, Option-cases,
}
use ambient_agent.Prelude.Table.{Table}
use ambient_agent.Json.{
  equal_fields, equal_items, same_bool, same_number, taken, equal_json, Json, Items, Fields, null,
  bool, num, real, str, arr, obj, nil, cons, end, field,
}
use ambient_agent.Runs.Rows.{Run, Store}
use ambient_agent.Runs.Errors.{ok}
use ambient_agent.Runs.Events.{insert_event}
use ambient_agent.Runs.Create.{
  is_correlation, keyed_run, NewRun, create_run, find_key, has_key, insert_run, new_run,
  same_request, used_key, column_value, correlation_column,
}

bool-reflects : (b : Bool) → same_bool b b ≡ true
bool-reflects true = refl
bool-reflects false = refl

number-reflects : (b : Bool) (m : ℕ) → same_number (some (b, m)) (some (b, m)) ≡ true
number-reflects b m = and_intro (same_bool b b) (m == m) (bool-reflects b) (ground arith)

taken-first : (k : String) (v : Json) (d : Fields) → taken k (field k v d) ≡ some (v, d)
unfolding taken
taken-first k v d = rw (text_refl k) refl

mutual
  unfolding equal_json

  equal_json_refl : (j : Json) → equal_json j j ≡ true
  equal_json_refl null = refl
  equal_json_refl (bool true) = number-reflects false 1000000
  equal_json_refl (bool false) = number-reflects false 0
  equal_json_refl (num n) = number-reflects false (n * 1000000)
  equal_json_refl (real neg n) = number-reflects (neg && not (n == 0)) n
  equal_json_refl (str t) = text_refl t
  equal_json_refl (arr xs) = equal_items_refl xs
  equal_json_refl (obj d) = equal_fields_refl d

  equal_items_refl : (xs : Items) → equal_items xs xs ≡ true
  equal_items_refl nil = refl
  equal_items_refl (cons x xs) = rw (equal_json_refl x, equal_items_refl xs) refl

  equal_fields_refl : (d : Fields) → equal_fields d d ≡ true
  equal_fields_refl end = refl
  equal_fields_refl (field k v d) =
      subst
        (λ o.
          (elim o [ none ↦ false | some (w, rest) ↦ equal_json v w && equal_fields d rest ]) ≡ true)
        (sym (taken-first k v d))
        (and_intro (equal_json v v) (equal_fields d d) (equal_json_refl v) (equal_fields_refl d))

column_value-correlation : (j : Json) → column_value (correlation_column j) ≡ j
column_value-correlation null = refl
column_value-correlation (bool b) = refl
column_value-correlation (num n) = refl
column_value-correlation (real neg n) = refl
column_value-correlation (str t) = refl
column_value-correlation (arr xs) = refl
column_value-correlation (obj d) = refl

correlation-same : (n : NewRun) (now : ℕ) → same_request n (new_run n now) ≡ true
unfolding same_request new_run
correlation-same n now = and_intro (equal_json n.input n.input) _ (equal_json_refl n.input) (
    ap (λ j. equal_json j n.correlation) (column_value-correlation n.correlation)
    ∙ equal_json_refl n.correlation)

find_key-append :
    (n : NewRun) (key : String) (t : Table Run) (id : String) (r : Run)
    → find_key n key t ≡ none
    → has_key n key r ≡ true
    → find_key n key (t ++ (id, r) ∷ []) ≡ some (id, r)
unfolding find_key
find_key-append n key [] id r h own = rw own refl
find_key-append n key ((j, x) ∷ t) id r h own = elim (Bool-cases (has_key n key x)) [
  | inl hit ↦ ground (arith, hit)
  | inr miss ↦ rw miss (find_key-append n key t id r (rw miss at h) own)
]

-- What the INSERT found and wrote.
insert_run-wrote :
    (n : NewRun) (id : String) (now : ℕ) (s s' : Store) (made : String)
    → insert_run n id now s ≡ ok (s', made)
    → (made ≡ id) × (s'.runs ≡ s.runs ++ (id, new_run n now) ∷ [])
unfolding insert_run insert_event
insert_run-wrote n id now s s' made h = ground arith

new_run-keyed :
    (n : NewRun) (now : ℕ) (key : String)
    → used_key n ≡ some key
    → has_key n key (new_run n now) ≡ true
unfolding has_key new_run used_key
new_run-keyed n now key h =
    ground (arith, text_refl n.owner_id, text_refl n.action_id, text_refl key)

repeated :
    (n : NewRun) (key id old : String) (now : ℕ) (s : Store) (r : Run)
    → used_key n ≡ some key
    → find_key n key s.runs ≡ some (old, r)
    → same_request n r ≡ true
    → keyed_run n id now s ≡ ok (s, old)
unfolding keyed_run
repeated n key id old now s r h e same = ground (arith, h, e, same)

keyed_run_idempotent :
    (n : NewRun) (key id again : String) (now later : ℕ) (s s' : Store) (made : String)
    → used_key n ≡ some key
    → keyed_run n id now s ≡ ok (s', made)
    → keyed_run n again later s' ≡ ok (s', made)
unfolding keyed_run
keyed_run_idempotent n key id again now later s s' made used h =
    elim (Option-cases (find_key n key s.runs)) [
      | inl e ↦
          let inserted : insert_run n id now s ≡ ok (s', made) = ground (arith, used, e) in
          let (same, w) = insert_run-wrote n id now s s' made inserted in
          let found : find_key n key s'.runs ≡ some (id, new_run n now) =
            rw w
              (find_key-append n key s.runs id (new_run n now) e (new_run-keyed n now key used)) in
          rw same
            (repeated n key again id later s' (new_run n now) used found (correlation-same n now))
      | inr ((old, r), e) ↦ ground (arith, used, e)
    ]

-- What a creation that succeeded had to pass.
create_run-passed :
    (n : NewRun) (id : String) (now : ℕ) (s s' : Store) (made : String)
    → create_run n id now s ≡ ok (s', made)
    → (is_correlation n.correlation ≡ true) × (keyed_run n id now s ≡ ok (s', made))
unfolding create_run
create_run-passed n id now s s' made h = elim (Bool-cases (is_correlation n.correlation)) [
  | inl e ↦ (e, ground (arith, h, e))
  | inr e ↦ ground (arith, h, e)
]

-- A request with an idempotency key that succeeded can be sent again in the new store, with any new
-- id: it returns the Run of the first call, and the store stays as it is.
pub create_run_idempotent :
    (n : NewRun) (key id again : String) (now later : ℕ) (s s' : Store) (made : String)
    → used_key n ≡ some key
    → create_run n id now s ≡ ok (s', made)
    → create_run n again later s' ≡ ok (s', made)
unfolding create_run
create_run_idempotent n key id again now later s s' made used h =
    let (passes, done) = create_run-passed n id now s s' made h in
    rw passes (keyed_run_idempotent n key id again now later s s' made used done)
