-- ===== src/Json.antt =====
-- JSON values as Go's encoding/json reads and writes them, and the readers of one field of a struct.
-- A key that is absent, or whose value does not fit the field's type, leaves the field at its zero
-- value (a number out of the range of its type included): `json.Unmarshal` skips it, and the decoders of protocol/messages.go drop its error. The keys of an object
-- are distinct, and spelled as the tags of the struct are.
use rackspace_monitoring_pol.Base.{
  ℕ, ◌^◌, String, Bool, true, false, ◌&&◌, Option, none, some, List, [], ◌∷◌, ltb, str_eq,
  if◌then◌else◌,
}
use rackspace_monitoring_pol.Base.Int.{ℤ, pos, negsuc}

mutual
  pub data Fields : Type 0 where
    end : Fields
    field : String → Value → Fields → Fields

  pub data Items : Type 0 where
    nil : Items
    cons : Value → Items → Items

  pub data Value : Type 0 where
    null : Value
    bool : Bool → Value
    num : ℤ → Value
    str : String → Value
    arr : Items → Value
    obj : Fields → Value

pub find_field : String → Fields → Value
find_field k end = null
find_field k (field j v r) = if str_eq j k then v else find_field k r

-- The value of a key of an object; null where there is none.
unfoldable pub get : String → Value → Value
unfolding find_field
get k (obj fs) = find_field k fs
get k _ = null

abbrev pub as_string : Value → String
as_string (str s) = s
as_string _ = ""

abbrev pub as_int : Value → ℤ
as_int (num (pos n)) = if ltb n (2 ^ 63) then pos n else pos 0
as_int (num (negsuc n)) = if ltb n (2 ^ 63) then negsuc n else pos 0
as_int _ = pos 0

-- An unsigned field refuses a negative number too.
abbrev pub as_uint : Value → ℕ
as_uint (num (pos n)) = if ltb n (2 ^ 64) then n else 0
as_uint _ = 0

abbrev pub as_bool : Value → Bool
as_bool (bool b) = b
as_bool _ = false

-- A pointer field: null is nil.
abbrev pub as_string_ptr : Value → Option String
as_string_ptr (str s) = some s
as_string_ptr _ = none

abbrev pub as_raw_ptr : Value → Option Value
as_raw_ptr null = none
as_raw_ptr v = some v

unfoldable pub list_items {ℓ} : {A : Type ℓ} → (Value → A) → Items → List A
list_items f nil = []
list_items f (cons v r) = f v ∷ list_items f r

unfoldable pub as_list {ℓ} : {A : Type ℓ} → (Value → A) → Value → List A
unfolding list_items
as_list f (arr xs) = list_items f xs
as_list f _ = []

unfoldable pub from_list {ℓ} : {A : Type ℓ} → (A → Value) → List A → Items
from_list f [] = nil
from_list f (x ∷ xs) = cons (f x) (from_list f xs)

-- A struct, written as the list of its fields.
abbrev pub struct : List (String × Value) → Fields
struct [] = end
struct ((k, v) ∷ r) = field k v (struct r)

abbrev pub object : List (String × Value) → Value
object l = obj (struct l)

-- Whether a value fits the type of a field: null, or a value of that type within its range.
abbrev pub fits_string : Value → Bool
fits_string null = true
fits_string (str s) = true
fits_string _ = false

abbrev pub fits_bool : Value → Bool
fits_bool null = true
fits_bool (bool b) = true
fits_bool _ = false

unfoldable pub fits_int : Value → Bool
fits_int null = true
fits_int (num (pos n)) = ltb n (2 ^ 63)
fits_int (num (negsuc n)) = ltb n (2 ^ 63)
fits_int _ = false

abbrev pub fits_uint : ℕ → Value → Bool
fits_uint width null = true
fits_uint width (num (pos n)) = ltb n (2 ^ width)
fits_uint width _ = false

abbrev pub all_items : (Value → Bool) → Items → Bool
all_items f nil = true
all_items f (cons v r) = f v && all_items f r

abbrev pub all_fields : (Value → Bool) → Fields → Bool
all_fields f end = true
all_fields f (field k v r) = f v && all_fields f r

-- `[]string` and `map[string]string`
abbrev pub fits_strings : Value → Bool
fits_strings null = true
fits_strings (arr xs) = all_items fits_string xs
fits_strings _ = false

abbrev pub fits_string_map : Value → Bool
fits_string_map null = true
fits_string_map (obj fs) = all_fields fits_string fs
fits_string_map _ = false

-- A struct: an object, each of whose fields fits.
abbrev pub is_object : Value → Bool
is_object null = true
is_object (obj fs) = true
is_object _ = false
