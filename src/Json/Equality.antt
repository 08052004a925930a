-- ===== src/Json/Equality.antt =====
-- Python's `==` on the values of `json.load`: `True == 1`, and dicts compare without order.
pub mod Values
use xaac_thin_client_os.Base.{
  Bool, true, false, ◌&&◌, ℕ, suc, Option, none, some, pos, String, str_eq, eqb_ℤ, ◌==◌,
  if◌then◌else◌,
}
use Values.{Json, Items, Fields, null, bool, num, text, arr, obj, nil, cons, end, field}

abbrev bool_eq : Bool → Bool → Bool
bool_eq true b = b
bool_eq false true = false
bool_eq false false = true

abbrev bit : Bool → ℕ
bit true = 1
bit false = 0

abbrev size : Fields → ℕ
size end = 0
size (field k v fs) = suc (size fs)

find : String → Fields → Option Json
find k end = none
find k (field j v fs) = if str_eq j k then some v else find k fs

unfoldable mutual
  unfolding find

  pub json_eq : Json → Json → Bool
  json_eq null null = true
  json_eq (bool a) (bool b) = bool_eq a b
  json_eq (bool a) (num n) = eqb_ℤ (pos (bit a)) n
  json_eq (num n) (bool b) = eqb_ℤ n (pos (bit b))
  json_eq (num m) (num n) = eqb_ℤ m n
  json_eq (text s) (text t) = str_eq s t
  json_eq (arr xs) (arr ys) = items_eq xs ys
  json_eq (obj fs) (obj gs) = size fs == size gs && fields_within fs gs
  json_eq _ _ = false

  pub items_eq : Items → Items → Bool
  items_eq nil nil = true
  items_eq (cons x xs) (cons y ys) = json_eq x y && items_eq xs ys
  items_eq _ _ = false

  -- every field of the first stands in the second, with an equal value
  pub fields_within : Fields → Fields → Bool
  fields_within end gs = true
  fields_within (field k v fs) gs =
      (elim (find k gs) [ none ↦ false | some w ↦ json_eq v w ]) && fields_within fs gs
