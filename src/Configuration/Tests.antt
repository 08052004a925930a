-- ===== src/Configuration/Tests.antt =====
-- A project that is accepted, documents that are refused, and the theorems applied to them.
use xaac_thin_client_os.Base.{
  pos, true, String, Option, none, some, List, [], ◌∷◌, ◌≡◌, refl, str_eq, strip, strip_prefix,
  split_char, distinct, rstrip_char, push, if◌then◌else◌,
}
use xaac_thin_client_os.Machine.{parts}
use xaac_thin_client_os.Configuration.Value.{
  Yaml, int, text, list, dict, Elements, none_left, element, Entries, no_more, entry,
}
use xaac_thin_client_os.Configuration.Validation.{valid, ◌>>=◌}
use xaac_thin_client_os.Configuration.Checks.{
  text_keys, mapping, value_of, required_text, optional_text, positive_int, enum, text_tuple,
  reject_unknown,
}
use xaac_thin_client_os.Configuration.Build.{
  build_config, debian_config, image_config, amd64, stable, iso,
}
use xaac_thin_client_os.Configuration.Sources.{package_config, repository_config, load_repositories}
use xaac_thin_client_os.Configuration.Profile.{hardware_profile}
use xaac_thin_client_os.Configuration.Loader.{
  Project, ProjectConfiguration, load_project_configuration,
}
use xaac_thin_client_os.Configuration.Sound.{IsConsistent, load_project_configuration-IsConsistent}
use xaac_thin_client_os.Configuration.Reread.{profile_yaml, hardware_profile-reread}
use xaac_thin_client_os.Configuration.Unknown.{unknown_field, documents-RefuseUnknown}

-- A dict, and a list of texts.
abbrev dict_of : List (String × Yaml) → Entries
dict_of [] = no_more
dict_of ((key, value) ∷ rest) = entry (text key) value (dict_of rest)

abbrev texts_of : List String → Elements
texts_of [] = none_left
texts_of (s ∷ ss) = element (text s) (texts_of ss)

abbrev debian_document : Yaml
debian_document = dict (
    dict_of (
      ("suite", text "trixie")
      ∷ ("mirror", text "https://deb.debian.org/debian/")
      ∷ ("components", list (texts_of ("main" ∷ [])))
      ∷ []))

abbrev image_document : Yaml
image_document = dict (
    dict_of (
      ("formats", list (texts_of ("iso" ∷ [])))
      ∷ ("size_mib", int (pos 4096))
      ∷ ("output_directory", text "out/images")
      ∷ []))

abbrev build_document : Yaml
build_document = dict (
    dict_of (
      ("schema_version", int (pos 1))
      ∷ ("project", text "XAAC Thin Client OS")
      ∷ ("version", text "1.1.0")
      ∷ ("architecture", text "amd64")
      ∷ ("channel", text "stable")
      ∷ ("profile", text "wyse3040")
      ∷ ("debian", debian_document)
      ∷ ("image", image_document)
      ∷ []))

abbrev packages_document : Yaml
packages_document = dict (
    dict_of (
      ("base", list (texts_of ("systemd" ∷ " dbus " ∷ [])))
      ∷ ("exclude", list (texts_of ("telnetd" ∷ [])))
      ∷ []))

abbrev repository_document : Yaml
repository_document = dict (
    dict_of (
      ("name", text "debian")
      ∷ ("uri", text "https://deb.debian.org/debian")
      ∷ ("suites", list (texts_of ("trixie" ∷ [])))
      ∷ ("components", list (texts_of ("main" ∷ [])))
      ∷ ("signed_by", text "/usr/share/keyrings/debian.gpg")
      ∷ []))

abbrev repositories_document : Yaml
repositories_document =
    dict (dict_of (("repositories", list (element repository_document none_left)) ∷ []))

abbrev profile_document : Yaml
profile_document = dict (
    dict_of (
      ("name", text "wyse3040")
      ∷ ("description", text "Dell Wyse 3040")
      ∷ ("architecture", text "amd64")
      ∷ ("memory_mib", int (pos 2048))
      ∷ ("storage_mib", int (pos 8192))
      ∷ []))

-- Each file holds its path, and the parser knows what stands there.
abbrev documents : String → Option Yaml
documents path =
    if str_eq path "/p/config/build.yaml"
    then some build_document
    else if str_eq path "/p/config/packages.yaml"
    then some packages_document
    else if str_eq path "/p/config/repositories.yaml"
    then some repositories_document
    else if str_eq path "/p/profiles/wyse3040/profile.yaml"
    then some profile_document
    else none

abbrev project : Project
project = record {
  is_file = λ path. true;
  contents = λ path. some path;
  safe_load = documents;
  version = "1.1.0";
}

abbrev loaded : ProjectConfiguration
loaded = record {
  build = record {
    schema_version = 1;
    project = "XAAC Thin Client OS";
    version = "1.1.0";
    architecture = amd64;
    channel = stable;
    profile = "wyse3040";
    debian = record {
      suite = "trixie";
      mirror = "https://deb.debian.org/debian";
      components = "main" ∷ [];
    };
    image = record { formats = iso ∷ []; size_mib = 4096; output_directory = "out/images" };
  };
  packages = record {
    base = "systemd" ∷ "dbus" ∷ [];
    graphical = [];
    xaac = [];
    optional = [];
    exclude = "telnetd" ∷ [];
  };
  repositories =
      record {
        name = "debian";
        uri = "https://deb.debian.org/debian";
        suites = "trixie" ∷ [];
        components = "main" ∷ [];
        signed_by = "/usr/share/keyrings/debian.gpg";
        enabled = true;
      }
      ∷ [];
  profile = record {
    name = "wyse3040";
    description = "Dell Wyse 3040";
    extends = none;
    architecture = amd64;
    memory_mib = 2048;
    storage_mib = 8192;
    kernel_parameters = [];
    packages = [];
    exclude_packages = [];
  };
}

build_read : build_config build_document ≡ valid loaded.build
unfolding build_config debian_config image_config mapping value_of required_text positive_int enum
    text_tuple reject_unknown ◌>>=◌ strip strip_prefix rstrip_char split_char distinct push parts
build_read = refl

packages_read : package_config packages_document ≡ valid loaded.packages
unfolding package_config mapping value_of text_tuple reject_unknown ◌>>=◌ strip
packages_read = refl

repositories_read : load_repositories repositories_document ≡ valid loaded.repositories
unfolding load_repositories repository_config mapping value_of required_text text_tuple
    reject_unknown ◌>>=◌ strip strip_prefix rstrip_char distinct
repositories_read = refl

profile_read : hardware_profile profile_document ≡ valid loaded.profile
unfolding hardware_profile mapping value_of required_text optional_text positive_int enum text_tuple
    reject_unknown ◌>>=◌ strip
profile_read = refl

project_loaded : load_project_configuration project "/p" ≡ valid loaded
unfolding load_project_configuration ◌>>=◌
project_loaded = rw (build_read, packages_read, repositories_read, profile_read) refl

load_project_configuration-IsConsistent_example : IsConsistent project loaded
load_project_configuration-IsConsistent_example =
    load_project_configuration-IsConsistent project "/p" loaded project_loaded

-- A document with a field of a wrong name.
abbrev misspelt : Entries
misspelt = dict_of (("bases", list (texts_of ("systemd" ∷ []))) ∷ [])

misspelt_read : text_keys misspelt ≡ some (("bases", list (texts_of ("systemd" ∷ []))) ∷ [])
unfolding text_keys
misspelt_read = refl

documents-RefuseUnknown_example :
    (build_config (dict misspelt) ≡ unknown_field)
    × (debian_config (dict misspelt) ≡ unknown_field)
    × (image_config (dict misspelt) ≡ unknown_field)
    × (package_config (dict misspelt) ≡ unknown_field)
    × (repository_config (dict misspelt) ≡ unknown_field)
    × (hardware_profile (dict misspelt) ≡ unknown_field)
documents-RefuseUnknown_example =
    documents-RefuseUnknown misspelt (("bases", list (texts_of ("systemd" ∷ []))) ∷ []) "bases"
      misspelt_read refl refl

-- An address of slashes alone loses them.
mirror_of_slashes :
    debian_config (
      dict (
        dict_of (
          ("suite", text "trixie")
          ∷ ("mirror", text "https://")
          ∷ ("components", list (texts_of ("main" ∷ [])))
          ∷ [])))
    ≡ valid (record { suite = "trixie"; mirror = "https:"; components = "main" ∷ [] })
unfolding debian_config mapping value_of required_text text_tuple reject_unknown ◌>>=◌ strip
    strip_prefix rstrip_char
mirror_of_slashes = refl

hardware_profile-reread_example :
    hardware_profile (profile_yaml loaded.profile) ≡ valid loaded.profile
hardware_profile-reread_example =
    hardware_profile-reread profile_document loaded.profile profile_read
