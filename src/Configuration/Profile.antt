-- ===== src/Configuration/Profile.antt =====
-- `HardwareProfile` of configuration/model.py.
use xaac_thin_client_os.Base.{ℕ, true, String, Option, List, [], ◌∷◌}
use xaac_thin_client_os.Configuration.Value.{Yaml}
use xaac_thin_client_os.Configuration.Validation.{Validated, valid, ◌>>=◌, ◌>>◌}
use xaac_thin_client_os.Configuration.Checks.{
  mapping, value_of, required_text, optional_text, positive_int, enum, text_tuple, reject_unknown,
}
use xaac_thin_client_os.Configuration.Build.{Architecture, architectures}

pub record HardwareProfile : Type 0 where
  pub name : String
  pub description : String
  pub extends : Option String
  pub architecture : Architecture
  pub memory_mib : ℕ
  pub storage_mib : ℕ
  pub kernel_parameters : List String
  pub packages : List String
  pub exclude_packages : List String

abbrev pub profile_fields : List String
profile_fields =
    "name" ∷ "description" ∷ "extends" ∷ "architecture" ∷ "memory_mib" ∷ "storage_mib"
    ∷ "kernel_parameters" ∷ "packages" ∷ "exclude_packages" ∷ []

-- `HardwareProfile.from_mapping`
unfoldable pub hardware_profile : Yaml → Validated HardwareProfile
hardware_profile raw = do
  entries ← mapping raw
  reject_unknown entries profile_fields
  name ← required_text entries "name"
  description ← required_text entries "description"
  extends ← optional_text entries "extends"
  architecture ← enum architectures (value_of "architecture" entries)
  memory ← positive_int entries "memory_mib"
  storage ← positive_int entries "storage_mib"
  kernel_parameters ← text_tuple true (value_of "kernel_parameters" entries)
  packages ← text_tuple true (value_of "packages" entries)
  exclude_packages ← text_tuple true (value_of "exclude_packages" entries)
  valid (record {
    name = name;
    description = description;
    extends = extends;
    architecture = architecture;
    memory_mib = memory;
    storage_mib = storage;
    kernel_parameters = kernel_parameters;
    packages = packages;
    exclude_packages = exclude_packages;
  })
