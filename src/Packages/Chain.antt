-- ===== src/Packages/Chain.antt =====
-- `_load_profile` and `load_profile_chain`: a profile and those that it inherits from.
use xaac_thin_client_os.Base.{
  ℕ, zero, suc, Bool, not, String, Option, none, some, List, [], ◌∷◌, ◌++◌, any, member, str_eq,
  if◌then◌else◌,
}
use xaac_thin_client_os.Machine.{join}
use xaac_thin_client_os.Configuration.{
  Validated, valid, invalid, reject, reject_if, ◌>>=◌, ◌>>◌, HardwareProfile, hardware_profile,
  Project, load_yaml,
}

abbrev pub profile_path : String → String → String
profile_path root name = join (join (join root "profiles") name) "profile.yaml"

-- `set(profile.packages).intersection(profile.exclude_packages)` has an element.
abbrev pub contradicts : HardwareProfile → Bool
contradicts profile = any (λ name. member name profile.exclude_packages) profile.packages

-- `_load_profile`
unfoldable pub load_profile : Project → String → String → Validated HardwareProfile
load_profile project root name = do
  reject_if (not (project.is_file (profile_path root name))) "El perfil heretat no existeix"
  document ← load_yaml project (profile_path root name)
  profile ← hardware_profile document
  reject_if (not (str_eq profile.name name)) "profile.name no coincideix amb el directori"
  reject_if (contradicts profile) "El perfil inclou i exclou els mateixos paquets"
  valid profile

-- A visit that ended, or one that has run out of fuel.
abbrev pub Visit : Type 0
Visit = Option (Validated (List HardwareProfile))

-- `chain.append(profile)`, behind the visit of the profile that it extends
abbrev pub appended : HardwareProfile → Visit → Visit
appended profile none = none
appended profile (some (invalid e)) = some (invalid e)
appended profile (some (valid chain)) = some (valid (chain ++ profile ∷ []))

abbrev pub has_name : String → List HardwareProfile → Bool
has_name name chain = any (λ existing. str_eq existing.name name) chain

-- How a visit begins: a cycle, a profile that is in the chain, or one to be visited.
pub data Start : Type 0 where
  cyclic known fresh : Start

abbrev pub start_of : List String → List HardwareProfile → HardwareProfile → Start
start_of visiting chain profile =
    if member profile.name visiting
    then cyclic
    else if has_name profile.name chain
    then known
    else fresh

-- Behind the loading of the profile that is extended
abbrev pub from_parent :
    HardwareProfile → (HardwareProfile → Visit) → Validated HardwareProfile → Visit
from_parent profile again (invalid e) = some (invalid e)
from_parent profile again (valid parent) = appended profile (again parent)

abbrev pub from_extends :
    HardwareProfile
    → List HardwareProfile
    → (String → Validated HardwareProfile)
    → (HardwareProfile → Visit)
    → Option String
    → Visit
from_extends profile chain load again none = some (valid (chain ++ profile ∷ []))
from_extends profile chain load again (some name) = from_parent profile again (load name)

abbrev pub from_start : List HardwareProfile → Visit → Start → Visit
from_start chain v cyclic = some (reject "Cicle d'herència de perfils detectat")
from_start chain v known = some (valid chain)
from_start chain v fresh = v

module _ (project : Project) (root : String) where
  -- `visit`, with the names that are being visited and the chain so far
  unfoldable pub visit : ℕ → List String → List HardwareProfile → HardwareProfile → Visit
  visit zero visiting chain profile = none
  visit (suc fuel) visiting chain profile =
      from_start chain
        (from_extends profile chain (load_profile project root)
          (visit fuel (profile.name ∷ visiting) chain) profile.extends)
        (start_of visiting chain profile)

  -- `load_profile_chain`, from the oldest ancestor to the selected profile
  unfoldable pub load_profile_chain : ℕ → HardwareProfile → Visit
  unfolding visit
  load_profile_chain fuel selected =
      if contradicts selected
      then some (reject "El perfil inclou i exclou els mateixos paquets")
      else visit fuel [] [] selected
