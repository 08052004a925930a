-- ===== src/BaseOs/Plan.antt =====
-- `validate_plan`: what a simulated plan may do.
pub mod Accepted
use xaac_thin_client_os.Base.{
  ℕ, pos, Bool, true, false, String, Option, none, some, List, [], ◌∷◌, ◌+◌, any, length, ltb_ℤ,
  if◌then◌else◌, starts_with, ◌==◌,
}
use xaac_thin_client_os.Json.{Json, Fields, text, as_list, as_text, json_eq}
use xaac_thin_client_os.Machine.{
  M, runtime_error, failure, pure, or_raise, ◌>>=◌, ◌>>◌, raise_if, run, traverse,
}
use xaac_thin_client_os.Update.{setting, int_setting}

-- An element of `plan["changes"]`; it is new where nothing is installed.
pub record Change : Type 0 where
  pub pkg : String
  pub base_package : String
  pub installed : Option String
  pub candidate : String

-- An element of `plan["removals"]`.
pub record Removal : Type 0 where
  pub removed_package : String
  pub removed_version : Option String

pub record Plan : Type 0 where
  pub changes : List Change
  pub removals : List Removal

-- The dict that `validate_plan` returns, without its constant entries; its status is `current`
-- where nothing changes, and `available` elsewhere.
pub record Approval : Type 0 where
  pub status : String
  pub changed_packages : ℕ
  pub new_packages : ℕ
  pub reboot_recommended : Bool
  pub packages : List Change

-- `bool(xs)` of a list
abbrev pub some_left : {A : Type 0} → List A → Bool
some_left [] = false
some_left (x ∷ xs) = true

abbrev pub is_new : Change → Bool
is_new c = elim c.installed [ none ↦ true | some v ↦ false ]

-- `sum(1 for item in changes if item["new"])`
abbrev pub new_count : List Change → ℕ
new_count [] = 0
new_count (c ∷ cs) = (if is_new c then 1 else 0) + new_count cs

abbrev pub is_protected : List Json → Change → Bool
is_protected protected c = any (json_eq (text c.base_package)) protected

-- `_dpkg_compare`
unfoldable pub dpkg_compare : String → String → String → M Bool
dpkg_compare left relation right = do
  result ← run ("/usr/bin/dpkg" ∷ "--compare-versions" ∷ left ∷ relation ∷ right ∷ [])
  pure (result.returncode == 0)

unfoldable pub is_kept_up : Change → Option String → M Bool
is_kept_up c none = pure true
is_kept_up c (some version) = dpkg_compare c.candidate "ge" version

unfoldable pub downgrades : List Change → M (List String)
downgrades [] = pure []
downgrades (c ∷ cs) = do
  fine ← is_kept_up c c.installed
  others ← downgrades cs
  pure (if fine then others else c.pkg ∷ others)

unfoldable pub prefix_of : Json → M String
prefix_of value = or_raise (as_text value) (failure "TypeError")

abbrev recommends : List String → List Change → Bool
recommends prefixes changes = any (λ c. any (λ p. starts_with p c.base_package) prefixes) changes

-- `tuple(rules["reboot_package_prefixes"])`, a list of texts
unfoldable pub approve : Fields → List Change → M Approval
approve policy changes = do
  value ← setting policy "policy" "reboot_package_prefixes"
  found ← or_raise (as_list value) (failure "TypeError")
  prefixes ← traverse found prefix_of
  pure (record {
    status = if some_left changes then "available" else "current";
    changed_packages = length changes;
    new_packages = new_count changes;
    reboot_recommended = recommends prefixes changes;
    packages = changes;
  })

unfoldable pub validate_plan : Fields → Plan → M Approval
unfolding approve
validate_plan policy plan = do
  raise_if (some_left plan.removals)
      (runtime_error "El pla APT intenta eliminar paquets; operació bloquejada")
  most ← int_setting policy "policy" "maximum_changed_packages"
  raise_if (ltb_ℤ most (pos (length plan.changes)))
      (runtime_error "El pla APT supera el màxim de paquets modificats")
  most_new ← int_setting policy "policy" "maximum_new_packages"
  raise_if (ltb_ℤ most_new (pos (new_count plan.changes)))
      (runtime_error "El pla APT supera el màxim de dependències noves")
  value ← setting policy "policy" "protected_packages"
  protected ← or_raise (as_list value) (failure "TypeError")
  raise_if (any (is_protected protected) plan.changes)
      (runtime_error "APT intenta modificar paquets XAAC protegits")
  down ← downgrades plan.changes
  raise_if (some_left down) (runtime_error "Downgrade APT bloquejat")
  approve policy plan.changes
