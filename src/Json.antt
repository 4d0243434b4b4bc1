-- ===== src/Json.antt =====
-- JSON values as the backend handles them: `dict[str, Any]`, `list`, `str`, numbers, `None`.
-- A number that is no natural number (a negative or a fraction) is carried in millionths with its
-- sign. An object is a list of fields in insertion order, as a Python dict.
use ambient_agent.Prelude.{
  ℕ, zero, String, ◌≡◌, refl, Bool, true, false, List, [], ◌∷◌, Option, none, some, arith, eq_iff,
  not, ◌&&◌, ◌==◌, ◌=ₛ◌, if◌then◌else◌,
}
use Prim.Native.Nat.{◌*◌}

mutual
  pub data Json : Type 0 where
    null : Json
    bool : Bool → Json
    num : ℕ → Json
    real : Bool → ℕ → Json
    str : String → Json
    arr : Items → Json
    obj : Fields → Json

  pub data Items : Type 0 where
    nil : Items
    cons : Json → Items → Items

  pub data Fields : Type 0 where
    end : Fields
    field : String → Json → Fields → Fields

-- `d.get(k)`, where a missing key and `None` are told apart.
unfoldable pub get : String → Fields → Option Json
get k end = none
get k (field j v d) = if j =ₛ k then some v else get k d

-- `d.get(k, default)`
unfoldable pub get_or : Fields → String → Json → Json
get_or d k default = elim (get k d) [ none ↦ default | some v ↦ v ]

-- `d[k] = v`: in place, or at the end.
unfoldable pub put : String → Json → Fields → Fields
put k v end = field k v end
put k v (field j w d) = if j =ₛ k then field j v d else field j w (put k v d)

-- `d.pop(k, None)`
unfoldable pub pop : String → Fields → Fields
pop k end = end
pop k (field j v d) = let rest = pop k d in if j =ₛ k then rest else field j v rest

-- `bool(v)`
unfoldable pub truthy : Json → Bool
truthy null = false
truthy (bool b) = b
truthy (num zero) = false
truthy (real neg zero) = false
truthy (str String.[]) = false
truthy (arr nil) = false
truthy (obj end) = false
truthy _ = true

-- `a or b`
infixr 30 ◌∣∣◌
unfoldable pub ◌∣∣◌ : Json → Json → Json
◌∣∣◌ a b = if truthy a then a else b

-- `v if isinstance(v, dict) else {}`
unfoldable pub fields_of : Json → Fields
fields_of (obj d) = d
fields_of _ = end

unfoldable pub is_object : Json → Bool
is_object (obj d) = true
is_object _ = false

abbrev pub object : List (String × Json) → Fields
object [] = end
object ((k, v) ∷ d) = field k v (object d)

-- A column or an attribute that is a text or `None`.
unfoldable pub of_text : Option String → Json
of_text none = null
of_text (some s) = str s

pub get-put :
    (k j : String) (v : Json) (d : Fields)
    → get j (put k v d) ≡ (if k =ₛ j then some v else get j d)
unfolding get put
get-put k j v end = refl
get-put k j v (field i w d) = ground (arith, eq_iff k j, eq_iff i k, eq_iff i j, get-put k j v d)

pub get-pop : (k j : String) (d : Fields) → get j (pop k d) ≡ (if k =ₛ j then none else get j d)
unfolding get pop
get-pop k j end = ground arith
get-pop k j (field i w d) = ground (arith, eq_iff k j, eq_iff i k, eq_iff i j, get-pop k j d)

abbrev pub same_bool : Bool → Bool → Bool
same_bool true b = b
same_bool false true = false
same_bool false false = true

-- A number or a bool by its sign and its millionths, as Python compares them.
abbrev pub millionths : Json → Option (Bool × ℕ)
millionths (bool false) = some (false, 0)
millionths (bool true) = some (false, 1000000)
millionths (num n) = some (false, n * 1000000)
millionths (real neg n) = some (neg && not (n == 0), n)
millionths v = none

abbrev pub same_number : Option (Bool × ℕ) → Option (Bool × ℕ) → Bool
same_number (some (a, m)) (some (b, n)) = same_bool a b && m == n
same_number x y = false

-- The value of a key, and the other fields.
unfoldable pub taken : String → Fields → Option (Json × Fields)
taken k end = none
taken k (field j v d) =
    if j =ₛ k
    then some (v, d)
    else (elim (taken k d) [ none ↦ none | some (w, rest) ↦ some (w, field j v rest) ])

abbrev pub is_end : Fields → Bool
is_end end = true
is_end (field k v d) = false

-- Python's `==`: an object has its keys in no order.
unfoldable mutual
  pub equal_json : Json → Json → Bool
  equal_json null null = true
  equal_json (str s) (str t) = s =ₛ t
  equal_json (arr xs) (arr ys) = equal_items xs ys
  equal_json (obj d) (obj e) = equal_fields d e
  equal_json v w = same_number (millionths v) (millionths w)

  pub equal_items : Items → Items → Bool
  equal_items nil nil = true
  equal_items (cons x xs) (cons y ys) = equal_json x y && equal_items xs ys
  equal_items _ _ = false

  pub equal_fields : Fields → Fields → Bool
  equal_fields end e = is_end e
  equal_fields (field j v d) e = elim (taken j e) [
    | none ↦ false
    | some (w, rest) ↦ equal_json v w && equal_fields d rest
  ]

-- Whether two values have one serialization.
unfoldable mutual
  pub same_json : Json → Json → Bool
  same_json null null = true
  same_json (bool a) (bool b) = same_bool a b
  same_json (num m) (num n) = m == n
  same_json (real a m) (real b n) = same_bool a b && m == n
  same_json (str s) (str t) = s =ₛ t
  same_json (arr xs) (arr ys) = same_items xs ys
  same_json (obj d) (obj e) = same_fields d e
  same_json _ _ = false

  pub same_items : Items → Items → Bool
  same_items nil nil = true
  same_items (cons x xs) (cons y ys) = same_json x y && same_items xs ys
  same_items _ _ = false

  pub same_fields : Fields → Fields → Bool
  same_fields end end = true
  same_fields (field j v d) (field k w e) = j =ₛ k && same_json v w && same_fields d e
  same_fields _ _ = false
