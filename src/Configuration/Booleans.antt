-- ===== src/Configuration/Booleans.antt =====
-- Boolean tests that passed or failed.
use xaac_thin_client_os.Base.{
  Bool, true, false, not, ◌≡◌, sym, ◌||◌, String, str_eq, eq_iff, Bool-cases, inl, inr, arith,
}

pub yes : (b : Bool) → not b ≡ false → b ≡ true
yes b h = ground arith

pub denied : (b : Bool) → b ≡ false → not b ≡ true
denied b h = ground arith

-- A failed disjunction.
pub neither_of : (a b : Bool) → a || b ≡ false → (a ≡ false) × (b ≡ false)
neither_of a b h = (ground arith, ground arith)

pub neither : (a b : Bool) → a ≡ false → b ≡ false → a || b ≡ false
neither a b h k = ground arith

-- A disjunction that passed.
pub behind : (a b : Bool) → a ≡ false → a || b ≡ true → b ≡ true
behind a b h k = ground arith

pub sooner : (a b : Bool) → a ≡ true → a || b ≡ true
sooner a b h = ground arith

pub later : (a b : Bool) → b ≡ true → a || b ≡ true
later a b h = ground arith

pub unlike_sym : (s t : String) → str_eq s t ≡ false → str_eq t s ≡ false
unlike_sym s t h = elim (Bool-cases (str_eq t s)) [
  | inl same ↦
      let e : str_eq s t ≡ true = (eq_iff s t).1 (sym ((eq_iff t s).0 same)) in
      absurd (ground (arith, h, e))
  | inr unlike ↦ unlike
]
