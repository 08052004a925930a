-- ===== src/Update/Quiet.antt =====
-- The calls of the updater that write no state file, for any property of the effects that ignores
-- theirs.
use xaac_thin_client_os.Base.{Bool, true, false, String, Option, none, some, List, ◌∷◌, ◌≡◌, str_eq}
use xaac_thin_client_os.Json.{Json, Fields, bool, num, text}
use xaac_thin_client_os.Machine.{Event, ran, wrote, archived, extracted, audited, locked}
use xaac_thin_client_os.Machine.Keeps.{Keeps, keeps_rules}
use xaac_thin_client_os.Machine.Quiet
use xaac_thin_client_os.Machine.Quiet.{Ignores, IsUsual, look_rules}
use xaac_thin_client_os.Update.Policy.{
  load_policy, setting, path_setting, int_setting, to_int, state_path,
}
use xaac_thin_client_os.Update.Manifest.{
  safe_relative_filename, safe_version_path_component, package_cache_path, manifest_components,
  target_os_version, required_text, component, release_of,
}

-- A kind of effect that takes in all that the updater does, but for the writing of the state file
-- and the change of packages.
pub record IsSpared (quiet : Event → Bool) : Type 0 where
  pub usual : IsUsual quiet
  pub wrote_lem : (p : String) (v : Json) → str_eq p state_path ≡ false → quiet (wrote p v) ≡ true
  pub archived_lem : (p : String) → quiet (archived p) ≡ true
  pub extracted_lem : (p : String) → quiet (extracted p) ≡ true
  pub audited_lem : (n : String) → quiet (audited n) ≡ true
  pub locked_lem : quiet locked ≡ true
  pub pkill_lem : (c : String) (cs : List String) → quiet (ran ("/usr/bin/pkill" ∷ c ∷ cs)) ≡ true

module _ {P : List Event → Type 0} where
  pub Keeps-setting : (p : Fields) (a b : String) → Keeps P (setting p a b)
  unfolding setting
  Keeps-setting p a b = search keeps_rules

  pub Keeps-path_setting : (p : Fields) (a b : String) → Keeps P (path_setting p a b)
  unfolding path_setting
  Keeps-path_setting p a b = search (keeps_rules, Keeps-setting)

  pub Keeps-to_int : (v : Json) → Keeps P (to_int v)
  unfolding to_int
  Keeps-to_int (num n) = search keeps_rules
  Keeps-to_int (bool b) = search keeps_rules
  Keeps-to_int (text s) = search keeps_rules
  Keeps-to_int _ = search keeps_rules

  pub Keeps-int_setting : (p : Fields) (a b : String) → Keeps P (int_setting p a b)
  unfolding int_setting
  Keeps-int_setting p a b = search (keeps_rules, Keeps-setting, Keeps-to_int)

  pub Keeps-load_policy : Keeps P load_policy
  unfolding load_policy
  Keeps-load_policy = search look_rules

  pub Keeps-safe_relative_filename : (s : String) → Keeps P (safe_relative_filename s)
  unfolding safe_relative_filename
  Keeps-safe_relative_filename s = search keeps_rules

  pub Keeps-package_cache_path : (p : Fields) (a b : String) → Keeps P (package_cache_path p a b)
  unfolding package_cache_path safe_version_path_component
  Keeps-package_cache_path p a b = search (keeps_rules, Keeps-path_setting)

  Keeps-required_text : (item : Fields) (k : String) → Keeps P (required_text item k)
  unfolding required_text
  Keeps-required_text item k = search keeps_rules

  Keeps-component : (v : Json) → Keeps P (component v)
  unfolding component
  Keeps-component v =
      search (keeps_rules, Keeps-required_text, Keeps-safe_relative_filename) depth 16

  pub Keeps-manifest_components : (m : Fields) → Keeps P (manifest_components m)
  unfolding manifest_components
  Keeps-manifest_components m = search (keeps_rules, Keeps-component)

  Keeps-release_of : (v : Option Json) → Keeps P (release_of v)
  unfolding release_of
  Keeps-release_of none = search keeps_rules
  Keeps-release_of (some v) = search keeps_rules

  pub Keeps-target_os_version : (m : Fields) → Keeps P (target_os_version m)
  unfolding target_os_version
  Keeps-target_os_version m = search (keeps_rules, Keeps-release_of)

pub ruleset read_rules = (
  look_rules, Keeps-setting, Keeps-path_setting, Keeps-int_setting, Keeps-load_policy,
  Keeps-safe_relative_filename, Keeps-package_cache_path, Keeps-manifest_components,
  Keeps-target_os_version,
)
