-- ===== src/Json.antt =====
-- serde_json's `Value` as the program reads it: `get`, `as_str`, `as_array`, `as_object`. A map
-- keeps its members in a list and the first member of a name is the one that `get` finds (serde's
-- map has each name once). The type of the numbers is a parameter, as serde_json reads them.
use deko.Prelude.{
  ◌>>=◌, Option, none, some, String, Bool, List, [], ◌∷◌, ◌==◌, string_eq, if◌then◌else◌,
}

mutual
  pub data Value (N : Type 0) : Type 0 where
    null : Value N
    bool : Bool → Value N
    number : N → Value N
    text : String → Value N
    arr : Items N → Value N
    obj : Fields N → Value N

  pub data Items (N : Type 0) : Type 0 where
    nil : Items N
    cons : Value N → Items N → Items N

  pub data Fields (N : Type 0) : Type 0 where
    end : Fields N
    field : String → Value N → Fields N → Fields N

module _ {N : Type 0} where
  abbrev pub to_list : Items N → List (Value N)
  to_list nil = []
  to_list (cons v vs) = v ∷ to_list vs

  abbrev pub from_list : List (Value N) → Items N
  from_list [] = nil
  from_list (v ∷ vs) = cons v (from_list vs)

  abbrev pub get_field : String → Fields N → Option (Value N)
  get_field k end = none
  get_field k (field j v fs) = if j == k then some v else get_field k fs

  abbrev pub fields : List (String × Value N) → Fields N
  fields [] = end
  fields ((k, v) ∷ ms) = field k v (fields ms)

  -- `Value::get` with a name: only an object has members.
  abbrev pub get : String → Value N → Option (Value N)
  get k (obj fs) = get_field k fs
  get k _ = none

  abbrev pub as_str : Value N → Option String
  as_str (text s) = some s
  as_str _ = none

  abbrev pub as_array : Value N → Option (List (Value N))
  as_array (arr xs) = some (to_list xs)
  as_array _ = none

  abbrev pub as_number : Value N → Option N
  as_number (number n) = some n
  as_number _ = none

  abbrev pub text_at : String → Value N → Option String
  text_at k v = do x ← get k v; as_str x

  -- `json!` of an object, and of an `Option`.
  abbrev pub object : List (String × Value N) → Value N
  object ms = obj (fields ms)

  abbrev pub optional : Option String → Value N
  optional none = null
  optional (some s) = text s
