-- ===== src/Configuration/Loader.antt =====
-- configuration/loader.py: the documents of a project, and the checks between them.
use xaac_thin_client_os.Base.{Bool, not, true, String, Option, none, some, List, ltb, str_eq}
use xaac_thin_client_os.Machine.{join}
use xaac_thin_client_os.Configuration.Value.{Yaml}
use xaac_thin_client_os.Configuration.Validation.{
  Validated, valid, invalid, file_error, reject_if, ◌>>=◌, ◌>>◌,
}
use xaac_thin_client_os.Configuration.Build.{BuildConfig, build_config, Architecture, amd64}
use xaac_thin_client_os.Configuration.Sources.{
  PackageConfig, RepositoryConfig, package_config, load_repositories,
}
use xaac_thin_client_os.Configuration.Profile.{HardwareProfile, hardware_profile}

-- `PROJECT_NAME` of metadata.py
abbrev pub project_name : String
project_name = "XAAC Thin Client OS"

pub record ProjectConfiguration : Type 0 where
  pub build : BuildConfig
  pub packages : PackageConfig
  pub repositories : List RepositoryConfig
  pub profile : HardwareProfile

abbrev pub same_architecture : Architecture → Architecture → Bool
same_architecture amd64 amd64 = true

-- The files of the project, `yaml.safe_load`, and the version of metadata.py.
pub record Project : Type 0 where
  pub is_file : String → Bool
  pub contents : String → Option String  -- none where opening or reading raises `OSError`
  pub safe_load : String → Option Yaml  -- none where it raises `YAMLError`
  pub version : String

abbrev decoded : Option Yaml → Validated Yaml
decoded none = invalid (file_error "YAML invàlid")
decoded (some value) = valid value

abbrev parsed : Project → Option String → Validated Yaml
parsed project none = invalid (file_error "No s'ha pogut llegir")
parsed project (some content) = decoded (project.safe_load content)

unfoldable pub load_yaml : Project → String → Validated Yaml
load_yaml project path = parsed project (project.contents path)

-- The checks between the documents.
unfoldable pub cross_check : Project → ProjectConfiguration → Validated ProjectConfiguration
cross_check project c = do
  reject_if (not (str_eq c.build.project project_name)) "build.project ha de ser"
  reject_if (not (str_eq c.build.version project.version)) "build.version no coincideix amb VERSION"
  reject_if (not (same_architecture c.build.architecture c.profile.architecture))
      "L'arquitectura de build.yaml no coincideix amb la del perfil"
  reject_if (not (str_eq c.profile.name c.build.profile))
      "profile.name no coincideix amb build.profile"
  reject_if (ltb c.profile.storage_mib c.build.image.size_mib)
      "La mida de la imatge supera l'emmagatzematge declarat pel perfil"
  valid c

-- `load_project_configuration`, of a root that is resolved
unfoldable pub load_project_configuration : Project → String → Validated ProjectConfiguration
unfolding load_yaml cross_check
load_project_configuration project root = do
  build_document ← load_yaml project (join (join root "config") "build.yaml")
  build ← build_config build_document
  packages_document ← load_yaml project (join (join root "config") "packages.yaml")
  packages ← package_config packages_document
  repositories_document ← load_yaml project (join (join root "config") "repositories.yaml")
  repositories ← load_repositories repositories_document
  profile_document ←
      load_yaml project (join (join (join root "profiles") build.profile) "profile.yaml")
  profile ← hardware_profile profile_document
  cross_check project (record {
    build = build;
    packages = packages;
    repositories = repositories;
    profile = profile;
  })
