-- ===== src/Json/Lookup.antt =====
-- What a lookup finds after a key was set.
use xaac_thin_client_os.Base.{
  String, List, [], ◌∷◌, ◌≡◌, refl, ap, false, str_eq, eq_iff, eq_refl, arith,
}
use xaac_thin_client_os.Json.{Json, Fields, end, field, get, set_field, elements, items}

pub elements-items : (vs : List Json) → elements (items vs) ≡ vs
elements-items [] = refl
elements-items (v ∷ vs) = ap (λ (l : List Json). v ∷ l) (elements-items vs)

pub get-set_field : (k : String) (v : Json) (fs : Fields) → get k (set_field k v fs) ≡ v
get-set_field k v end = rw (eq_refl k)
get-set_field k v (field j u fs) = ground (arith, eq_iff j k, eq_refl k, get-set_field k v fs)

pub get-set_other :
    (k j : String) (v : Json) (fs : Fields)
    → str_eq k j ≡ false
    → get j (set_field k v fs) ≡ get j fs
get-set_other k j v end h = rw h
get-set_other k j v (field i u fs) h = ground (arith, eq_iff i k, h, get-set_other k j v fs h)
