-- ===== src/Json.antt =====
-- The values that `json.load` gives, and the accessors of Python that the runtimes apply to them
-- (`d.get(k)`, `isinstance`, `==`). Numbers are integers: no file of the program holds a fraction.
mod Equality
pub mod Lookup
unfoldable pub use Equality.{json_eq, items_eq, fields_within}
pub use Equality.Values.{
  Json, Items, Fields, null, bool, num, text, arr, obj, nil, cons, end, field,
}
use xaac_thin_client_os.Base.{
  Bool, true, false, String, Option, none, some, List, [], ◌∷◌, str_eq, if◌then◌else◌, is_empty,
  not, eqb_ℤ, pos,
}

-- The elements of a JSON array.
abbrev pub elements : Items → List Json
elements nil = []
elements (cons x xs) = x ∷ elements xs

abbrev pub items : List Json → Items
items [] = nil
items (x ∷ xs) = cons x (items xs)

-- `d.get(k)` on the fields of an object; the program writes each key once.
abbrev pub lookup : String → Fields → Option Json
lookup k end = none
lookup k (field j v fs) = if str_eq j k then some v else lookup k fs

-- `isinstance(v, dict)`, with the dict
abbrev pub as_obj : Json → Option Fields
as_obj (obj fs) = some fs
as_obj _ = none

-- `isinstance(v, list)`, with the list
abbrev pub as_list : Json → Option (List Json)
as_list (arr xs) = some (elements xs)
as_list _ = none

-- `for x in v`, for a loop that skips what is no dict: a text or a dict gives texts alone.
abbrev pub iterated : Json → Option (List Json)
iterated (arr xs) = some (elements xs)
iterated (obj fs) = some []
iterated (text s) = some []
iterated _ = none

-- `isinstance(v, str)`, with the text
abbrev pub as_text : Json → Option String
as_text (text s) = some s
as_text _ = none

-- `v` of `d.get(k)`, where a missing key gives `None`
abbrev pub or_null : Option Json → Json
or_null none = null
or_null (some v) = v

abbrev pub get : String → Fields → Json
get k fs = or_null (lookup k fs)

-- `d[k] = v`
abbrev pub set_field : String → Json → Fields → Fields
set_field k v end = field k v end
set_field k v (field j w fs) = if str_eq j k then field k v fs else field j w (set_field k v fs)

-- Object literals.
abbrev pub fields : List (String × Json) → Fields
fields [] = end
fields ((k, v) ∷ kvs) = field k v (fields kvs)

abbrev pub text_items : List String → Items
text_items [] = nil
text_items (s ∷ ss) = cons (text s) (text_items ss)

abbrev pub texts : List String → Json
texts ss = arr (text_items ss)

-- `x or None` on a text
abbrev pub text_or_none : String → Json
text_or_none s = if is_empty s then null else text s

-- `None`, or the text
abbrev pub optional_text : Option String → Json
optional_text none = null
optional_text (some s) = text s

-- `bool(v)`
abbrev pub truthy : Json → Bool
truthy null = false
truthy (bool b) = b
truthy (num n) = not (eqb_ℤ n (pos 0))
truthy (text s) = not (is_empty s)
truthy (arr nil) = false
truthy (arr (cons x xs)) = true
truthy (obj end) = false
truthy (obj (field k v fs)) = true
