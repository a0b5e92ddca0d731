-- ===== src/Json.antt =====
-- JSON values, as `json.loads` and the request bodies give them, and the operations of Python on them.
use noxis_api_provider.Prelude.{
  String, Bool, true, false, not, Option, none, some, List, [], ◌∷◌, ℤ, pos, eq_ℤ, str_eq,
  if◌then◌else◌,
}

-- A number that is not an integer is kept as its literal: the gateway only passes it on.
mutual
  pub data Json : Type 0 where
    null : Json
    bool : Bool → Json
    int : ℤ → Json
    float : String → Json
    str : String → Json
    arr : Items → Json
    obj : Fields → Json

  pub data Items : Type 0 where
    nil : Items
    cons : Json → Items → Items

  pub data Fields : Type 0 where
    end : Fields
    field : String → Json → Fields → Fields

unfoldable pub to_list : Items → List Json
to_list nil = []
to_list (cons j js) = j ∷ to_list js

unfoldable pub get : String → Fields → Option Json
get k end = none
get k (field j v fs) = if str_eq j k then some v else get k fs

-- The `dict` that a value is; any other has no `.get`, and raises.
unfoldable pub as_dict : Json → Option Fields
as_dict (obj fs) = some fs
as_dict _ = none

-- fs.get(k, default)
unfoldable pub get_or : String → Json → Fields → Json
unfolding get
get_or k default fs = elim (get k fs) [ none ↦ default | some v ↦ v ]

unfoldable pub keys : Fields → List Json
keys end = []
keys (field k v fs) = str k ∷ keys fs

unfoldable pub chars : String → List Json
chars String.[] = []
chars (String.◌∷◌ c s) = str (String.◌∷◌ c "") ∷ chars s

-- What `for x in value` runs over; a value that is not iterable raises.
unfoldable pub iterate : Json → Option (List Json)
unfolding to_list keys chars
iterate (arr js) = some (to_list js)
iterate (obj fs) = some (keys fs)
iterate (str s) = some (chars s)
iterate _ = none

-- bool(value), where `is_zero` tells of a literal whether it is a zero.
unfoldable pub is_truthy : (String → Bool) → Json → Bool
is_truthy is_zero null = false
is_truthy is_zero (bool b) = b
is_truthy is_zero (int n) = not (eq_ℤ n (pos 0))
is_truthy is_zero (float s) = not (is_zero s)
is_truthy is_zero (str s) = not (str_eq s "")
is_truthy is_zero (arr nil) = false
is_truthy is_zero (arr (cons j js)) = true
is_truthy is_zero (obj end) = false
is_truthy is_zero (obj (field k v fs)) = true

-- d[k] = v
unfoldable pub put : String → Json → Fields → Fields
put k v end = field k v end
put k v (field j w fs) = if str_eq j k then field j v fs else field j w (put k v fs)

-- d.setdefault(k, v)
unfoldable pub set_default : String → Json → Fields → Fields
unfolding get put
set_default k v fs = elim (get k fs) [ none ↦ put k v fs | some w ↦ fs ]
