-- ===== src/Configuration/Sources.antt =====
-- `PackageConfig` and `RepositoryConfig` of configuration/model.py, and `load_repositories` of
-- configuration/loader.py.
use xaac_thin_client_os.Base.{
  Bool, true, false, not, String, List, [], ◌∷◌, ◌++◌, any, map, str_eq, starts_char, starts_with,
  rstrip_char, member, if◌then◌else◌,
}
use xaac_thin_client_os.Configuration.Value.{
  Yaml, bool, text, list, dict, Elements, none_left, element, Entries, no_more, entry,
}
use xaac_thin_client_os.Configuration.Validation.{Validated, valid, reject, reject_if, ◌>>=◌, ◌>>◌}
use xaac_thin_client_os.Configuration.Checks.{
  Data, mapping, value_of, required_text, text_tuple, reject_unknown,
}
use xaac_thin_client_os.Configuration.Build.{repeats}

pub record PackageConfig : Type 0 where
  pub base : List String
  pub graphical : List String
  pub xaac : List String
  pub optional : List String
  pub exclude : List String

pub record RepositoryConfig : Type 0 where
  pub name : String
  pub uri : String
  pub suites : List String
  pub components : List String
  pub signed_by : String
  pub enabled : Bool

abbrev pub selected : PackageConfig → List String
selected config = config.base ++ (config.graphical ++ (config.xaac ++ config.optional))

-- A package that is selected and excluded.
abbrev pub overlaps : PackageConfig → Bool
overlaps config = any (λ name. member name config.exclude) (selected config)

abbrev pub package_fields : List String
package_fields = "base" ∷ "graphical" ∷ "xaac" ∷ "optional" ∷ "exclude" ∷ []

-- `PackageConfig.from_mapping`
unfoldable pub package_config : Yaml → Validated PackageConfig
package_config raw = do
  entries ← mapping raw
  reject_unknown entries package_fields
  base ← text_tuple false (value_of "base" entries)
  graphical ← text_tuple true (value_of "graphical" entries)
  xaac ← text_tuple true (value_of "xaac" entries)
  optional ← text_tuple true (value_of "optional" entries)
  exclude ← text_tuple true (value_of "exclude" entries)
  let config : PackageConfig = record {
    base = base;
    graphical = graphical;
    xaac = xaac;
    optional = optional;
    exclude = exclude;
  }
  reject_if (overlaps config) "packages.exclude també conté paquets seleccionats"
  valid config

-- `data.get("enabled", True)`
unfoldable pub value_or_true : String → Data → Yaml
value_or_true key [] = bool true
value_or_true key ((k, v) ∷ entries) =
    let rest = value_or_true key entries in if str_eq k key then v else rest

abbrev bool_of : Yaml → Validated Bool
bool_of (bool b) = valid b
bool_of _ = reject "ha de ser booleà"

abbrev pub repository_fields : List String
repository_fields = "name" ∷ "uri" ∷ "suites" ∷ "components" ∷ "signed_by" ∷ "enabled" ∷ []

-- `RepositoryConfig.from_mapping`
unfoldable pub repository_config : Yaml → Validated RepositoryConfig
unfolding value_or_true
repository_config raw = do
  entries ← mapping raw
  reject_unknown entries repository_fields
  uri ← required_text entries "uri"
  reject_if (not (starts_with "https://" uri)) "ha d'utilitzar HTTPS"
  enabled ← bool_of (value_or_true "enabled" entries)
  signed_by ← required_text entries "signed_by"
  reject_if (not (starts_char b'/' signed_by)) "ha de ser una ruta absoluta"
  name ← required_text entries "name"
  suites ← text_tuple false (value_of "suites" entries)
  components ← text_tuple false (value_of "components" entries)
  valid (record {
    name = name;
    uri = rstrip_char b'/' uri;
    suites = suites;
    components = components;
    signed_by = signed_by;
    enabled = enabled;
  })

unfoldable pub repository_values : Elements → Validated (List RepositoryConfig)
unfolding repository_config
repository_values none_left = valid []
repository_values (element value values) = do
  repository ← repository_config value
  rest ← repository_values values
  valid (repository ∷ rest)

-- The value of the key `repositories`, where it is the only one.
unfoldable pub only_repositories : Entries → Validated Yaml
only_repositories (entry (text key) value no_more) =
    if str_eq key "repositories"
    then valid value
    else reject "ha de contindre únicament la clau repositories"
only_repositories _ = reject "ha de contindre únicament la clau repositories"

unfoldable pub repository_entries : Yaml → Validated Yaml
unfolding only_repositories
repository_entries (dict entries) = only_repositories entries
repository_entries _ = reject "ha de contindre únicament la clau repositories"

unfoldable pub repository_list : Yaml → Validated (List RepositoryConfig)
unfolding repository_values
repository_list (list (element value values)) = repository_values (element value values)
repository_list _ = reject "repositories ha de ser una llista no buida"

abbrev pub repository_names : List RepositoryConfig → List String
repository_names repositories = map (λ repository. repository.name) repositories

-- `load_repositories`
unfoldable pub load_repositories : Yaml → Validated (List RepositoryConfig)
unfolding repository_entries repository_list
load_repositories raw = do
  entries ← repository_entries raw
  repositories ← repository_list entries
  reject_if (repeats (repository_names repositories)) "repositories conté noms duplicats"
  valid repositories
