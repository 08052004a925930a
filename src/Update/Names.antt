-- ===== src/Update/Names.antt =====
-- No recovery point has the path of the state file.
use Prim.Native.String.append
use Prim.Native.Char.{code}
use xaac_thin_client_os.Base.{
  String, List, [], ◌∷◌, ◌++◌, ◌≡◌, sym, ap, ◌∙◌, false, Bool-cases, inl, inr, ℕ, ◌<>◌, str_eq,
  eq_iff, reverse, arith,
}
use mathlib.Core.List.{reverse-append}
use xaac_thin_client_os.Update.Policy.{state_path}

abbrev codes : String → List ℕ
codes String.[] = []
codes (String.◌∷◌ c s) = code c ∷ codes s

codes-append : (s t : String) → codes (s <> t) ≡ codes s ++ codes t
codes-append String.[] t = rw (append.nil t)
codes-append (String.◌∷◌ c s) t =
    rw (append.cons c s t) (ap (λ (l : List ℕ). code c ∷ l) (codes-append s t))

-- the lists end alike: `.json`
abbrev sixth : List ℕ → ℕ
sixth (a ∷ b ∷ c ∷ d ∷ e ∷ f ∷ rest) = f
sixth _ = 0

abbrev metadata_name : String
metadata_name = "/recovery-point.json"

backwards :
    (r : String)
    → r <> metadata_name ≡ state_path
    → reverse (codes metadata_name) ++ reverse (codes r) ≡ reverse (codes state_path)
backwards r e =
    sym (reverse-append (codes r) (codes metadata_name))
    ∙ ap reverse (sym (codes-append r metadata_name) ∙ ap codes e)

differs : (r : String) → r <> metadata_name ≡ state_path → ⊥
differs r e =
    let p : sixth (reverse (codes metadata_name) ++ reverse (codes r))
        ≡ sixth (reverse (codes state_path)) =
      ap sixth (backwards r e) in
    omega (arith, p)

pub recovery_point_path : (r : String) → str_eq (r <> "/recovery-point.json") state_path ≡ false
recovery_point_path r = elim (Bool-cases (str_eq (r <> "/recovery-point.json") state_path)) [
  | inr other ↦ other
  | inl same ↦ absurd (differs r ((eq_iff _ _).0 same))
]
