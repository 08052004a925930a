-- ===== src/Update/Manifest.antt =====
-- `_manifest_components` and the names that become parts of paths.
use xaac_thin_client_os.Base.{
  Bool, String, Option, none, some, List, [], ◌∷◌, ◌==◌, ◌||◌, not, str_eq, ◌<>◌, is_empty,
  has_char, starts_char, member, replace_char, length, if◌then◌else◌,
}
use xaac_thin_client_os.Json.{Json, Fields, null, get, lookup, as_obj, as_list, as_text}
use xaac_thin_client_os.Machine.{
  M, runtime_error, failure, pure, or_raise, ◌>>=◌, ◌>>◌, raise_if, traverse, parts, join,
}
use xaac_thin_client_os.Update.Policy.{path_setting}

-- An element of the manifest's `components`, with the fields that the runtime reads.
pub record Component : Type 0 where
  pub pkg : String
  pub version : String
  pub filename : String
  pub sha256 : String

-- `relative.is_absolute() or len(relative.parts) != 1 or ".." in relative.parts`, for a text that
-- is not empty
unfoldable pub unsafe_filename : String → Bool
unfolding parts
unsafe_filename s = starts_char b'/' s || not (length (parts s) == 1) || member ".." (parts s)

-- `safe_relative_filename` of a text
unfoldable pub safe_relative_filename : String → M String
unfolding unsafe_filename
safe_relative_filename value = do
  raise_if (is_empty value) (runtime_error "Nom d'artefacte invàlid")
  raise_if (unsafe_filename value) (runtime_error "Nom d'artefacte insegur")
  pure value

unfoldable pub unsafe_version : String → Bool
unsafe_version value =
    is_empty value || member value ("." ∷ ".." ∷ []) || has_char b'/' value || has_char 0 value

unfoldable pub safe_version_path_component : String → M String
unfolding unsafe_version
safe_version_path_component value = do
  raise_if (unsafe_version value) (runtime_error "Versió de paquet insegura")
  pure (replace_char b':' "_" value)

unfoldable pub package_cache_path : Fields → String → String → M String
package_cache_path policy pkg version = do
  root ← path_setting policy "recovery_point" "package_cache"
  name ← safe_version_path_component version
  pure (join (join root pkg) (name <> ".deb"))

-- `isinstance(item.get(key), str)` and `item[key]` is not empty
unfoldable pub required_text : Fields → String → M String
required_text item key = do
  value ← or_raise (as_text (get key item)) (runtime_error "Camp invàlid al manifest")
  raise_if (is_empty value) (runtime_error "Camp invàlid al manifest")
  pure value

unfoldable pub component : Json → M Component
unfolding required_text
component value = do
  item ← or_raise (as_obj value) (runtime_error "Component de manifest invàlid")
  pkg ← required_text item "package"
  version ← required_text item "version"
  filename ← required_text item "filename"
  sha256 ← required_text item "sha256"
  safe_relative_filename filename
  pure (record { pkg = pkg; version = version; filename = filename; sha256 = sha256 })

nonempty_list : Json → Option (List Json)
nonempty_list value = elim (as_list value) [ some (x ∷ xs) ↦ some (x ∷ xs) | _ ↦ none ]

unfoldable pub manifest_components : Fields → M (List Component)
unfolding nonempty_list component
manifest_components manifest = do
  found ←
      or_raise (nonempty_list (get "components" manifest))
        (runtime_error "Manifest sense components")
  traverse found component

unfoldable pub release_of : Option Json → M Json
release_of none = pure null
release_of (some value) = do
  entries ← or_raise (as_obj value) (failure "AttributeError")
  pure (get "os_version" entries)

-- `manifest.get("release", {}).get("os_version")`
unfoldable pub target_os_version : Fields → M Json
unfolding release_of
target_os_version manifest = release_of (lookup "release" manifest)

-- A dict from package names to versions, in the order in which the names were first set.
unfoldable pub set_version : String → String → List (String × String) → List (String × String)
set_version pkg version [] = (pkg, version) ∷ []
set_version pkg version ((p, v) ∷ rest) =
    let others = set_version pkg version rest in
    if str_eq p pkg then (pkg, version) ∷ rest else (p, v) ∷ others

unfoldable pub versions_from : List (String × String) → List Component → List (String × String)
unfolding set_version
versions_from seen [] = seen
versions_from seen (c ∷ cs) = versions_from (set_version c.pkg c.version seen) cs

-- `{item["package"]: item["version"] for item in components}`
unfoldable pub expected_versions : List Component → List (String × String)
unfolding versions_from
expected_versions cs = versions_from [] cs

abbrev pub names : List (String × String) → List String
names [] = []
names ((pkg, version) ∷ rest) = pkg ∷ names rest

abbrev pub package_names : List Component → List String
package_names [] = []
package_names (c ∷ cs) = c.pkg ∷ package_names cs
