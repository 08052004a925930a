-- ===== src/Packages/Tests.antt =====
-- Projects whose profiles extend each other, and the theorems applied to them.
use xaac_thin_client_os.Base.{
  ℕ, ◌+◌, pos, Bool, if◌then◌else◌, subst, sym, true, false, String, none, some, List, [], ◌∷◌, ◌≡◌,
  refl, str_eq, strip, distinct, sorted, member,
}
use xaac_thin_client_os.Configuration.{
  Yaml, text, list, int, dict, none_left, element, no_more, entry, Validated, valid, ◌>>=◌,
  HardwareProfile, Project, ProjectConfiguration, amd64, stable, iso, hardware_profile, mapping,
  value_of, required_text, optional_text, positive_int, enum, text_tuple, reject_unknown, load_yaml,
}
use xaac_thin_client_os.Configuration.Gives.{Gives, Gives-valid, Gives-bind, Gives-checked}
use xaac_thin_client_os.Packages.Chain.{profile_path, load_profile, visit, load_profile_chain}
use xaac_thin_client_os.Packages.Resolve.{ResolvedPackages, resolve_packages, resolved}
use xaac_thin_client_os.Packages.Finite.{load_profile_chain-Ends}
use xaac_thin_client_os.Packages.Lineage.{IsLineage, load_profile_chain-IsLineage}
use xaac_thin_client_os.Packages.Refinement.{Implements, resolve_packages-Implements}

abbrev generic : HardwareProfile
generic = record {
  name = "generic";
  description = "d";
  extends = none;
  architecture = amd64;
  memory_mib = 1;
  storage_mib = 1;
  kernel_parameters = [];
  packages = "zram" ∷ "ssh" ∷ [];
  exclude_packages = "nano" ∷ [];
}

abbrev wyse : HardwareProfile
wyse = record generic {
  name = "wyse";
  extends = some "generic";
  packages = "firmware" ∷ [];
  exclude_packages = "ssh" ∷ [];
}

abbrev generic_document : Yaml
generic_document = dict (
    entry (text "name") (text "generic") (
      entry (text "description") (text "d") (
        entry (text "architecture") (text "amd64") (
          entry (text "memory_mib") (int (pos 1)) (
            entry (text "storage_mib") (int (pos 1)) (
              entry (text "packages")
                (list (element (text "zram") (element (text "ssh") none_left)))
                (entry (text "exclude_packages") (list (element (text "nano") none_left))
                  no_more)))))))

-- There is a file for the profile `generic` alone.
abbrev generic_path : String
generic_path = "/p/profiles/generic/profile.yaml"

abbrev project : Project
project = record {
  is_file = λ path. str_eq path generic_path;
  contents = λ path. some path;
  safe_load = λ content. some generic_document;
  version = "1.1.0";
}

generic_read : hardware_profile generic_document ≡ valid generic
unfolding hardware_profile mapping value_of required_text optional_text positive_int enum text_tuple
    reject_unknown ◌>>=◌ strip
generic_read = refl

generic_loaded : load_profile project "/p" "generic" ≡ valid generic
unfolding load_profile load_yaml ◌>>=◌
generic_loaded = rw (generic_read) refl

chain_loaded : load_profile_chain project "/p" 3 wyse ≡ some (valid (generic ∷ wyse ∷ []))
unfolding load_profile_chain visit
chain_loaded = rw (generic_loaded) refl

load_profile_chain-IsLineage_example : IsLineage (generic ∷ wyse ∷ []) wyse
load_profile_chain-IsLineage_example =
    load_profile_chain-IsLineage project "/p" 3 wyse (generic ∷ wyse ∷ []) chain_loaded

abbrev configuration : ProjectConfiguration
configuration = record {
  build = record {
    schema_version = 1;
    project = "XAAC Thin Client OS";
    version = "1.1.0";
    architecture = amd64;
    channel = stable;
    profile = "wyse";
    debian = record {
      suite = "trixie";
      mirror = "https://deb.debian.org/debian";
      components = "main" ∷ [];
    };
    image = record { formats = iso ∷ []; size_mib = 1; output_directory = "out" };
  };
  packages = record {
    base = "systemd" ∷ "nano" ∷ [];
    graphical = [];
    xaac = "xaac-agent" ∷ [];
    optional = [];
    exclude = "telnetd" ∷ [];
  };
  repositories = [];
  profile = wyse;
}

abbrev image_packages : ResolvedPackages
image_packages = record {
  packages = "firmware" ∷ "systemd" ∷ "xaac-agent" ∷ "zram" ∷ [];
  excluded = "nano" ∷ "ssh" ∷ "telnetd" ∷ [];
  profile_chain = "generic" ∷ "wyse" ∷ [];
  sources =
      ("base", "systemd" ∷ [])
      ∷ ("graphical", [])
      ∷ ("xaac", "xaac-agent" ∷ [])
      ∷ ("optional", [])
      ∷ ("profile:generic", "zram" ∷ [])
      ∷ ("profile:wyse", "firmware" ∷ [])
      ∷ [];
}

packages_resolved : resolve_packages project "/p" 3 configuration ≡ some (valid image_packages)
unfolding resolve_packages resolved sorted distinct
packages_resolved = rw (chain_loaded) refl

resolve_packages-Implements_example :
    (chain : List HardwareProfile) × (IsLineage chain wyse
      × Implements configuration chain image_packages)
resolve_packages-Implements_example =
    resolve_packages-Implements project "/p" 3 configuration image_packages packages_resolved

-- A project of two profiles that extend each other: every path is a file, that of `a` holds the first
-- and any other the second.
abbrev circular : String → String → Yaml
circular name parent = dict (
    entry (text "name") (text name) (
      entry (text "description") (text "d") (
        entry (text "extends") (text parent) (
          entry (text "architecture") (text "amd64") (
            entry (text "memory_mib") (int (pos 1))
              (entry (text "storage_mib") (int (pos 1)) no_more))))))

abbrev circle : Project
circle = record {
  is_file = λ path. true;
  contents = λ path. some path;
  safe_load = λ content.
      some (
        if str_eq content "/p/profiles/a/profile.yaml" then circular "a" "b" else circular "b" "a");
  version = "1.1.0";
}

abbrev circular_profile : String → String → HardwareProfile
circular_profile name parent = record {
  name = name;
  description = "d";
  extends = some parent;
  architecture = amd64;
  memory_mib = 1;
  storage_mib = 1;
  kernel_parameters = [];
  packages = [];
  exclude_packages = [];
}

circular_read :
    (hardware_profile (circular "a" "b") ≡ valid (circular_profile "a" "b"))
    × (hardware_profile (circular "b" "a") ≡ valid (circular_profile "b" "a"))
unfolding hardware_profile mapping value_of required_text optional_text positive_int enum text_tuple
    reject_unknown ◌>>=◌ strip
circular_read = (refl, refl)

circular_names :
    (b : Bool)
    → Gives
        (λ p. member p.name ("a" ∷ "b" ∷ []) ≡ true)
        (hardware_profile (if b then circular "a" "b" else circular "b" "a"))
circular_names true = rw (circular_read.0) (Gives-valid _ refl)
circular_names false = rw (circular_read.1) (Gives-valid _ refl)

circle_document :
    (name : String)
    → Gives
        (λ d. d ≡ (
          if str_eq (profile_path "/p" name) "/p/profiles/a/profile.yaml"
          then circular "a" "b"
          else circular "b" "a"))
        (load_yaml circle (profile_path "/p" name))
unfolding load_yaml
circle_document name = Gives-valid _ refl

two_names :
    (name : String)
    → Gives (λ p. member p.name ("a" ∷ "b" ∷ []) ≡ true) (load_profile circle "/p" name)
unfolding load_profile
two_names name = Gives-checked false "El perfil heretat no existeix" _ (λ there.
    Gives-bind (load_yaml circle (profile_path "/p" name)) _ (circle_document name)
      (λ document same.
        Gives-bind (hardware_profile document) _
          (subst (λ d. Gives (λ p. member p.name ("a" ∷ "b" ∷ []) ≡ true) (hardware_profile d))
            (sym same)
            (circular_names (str_eq (profile_path "/p" name) "/p/profiles/a/profile.yaml")))
          (λ p known.
            Gives-checked _ _ _ (λ named. Gives-checked _ _ _ (λ fine. Gives-valid p known)))))

load_profile_chain-Ends_example :
    (r : Validated (List HardwareProfile)) × ((extra : ℕ)
      → load_profile_chain circle "/p" (extra + 4) (circular_profile "a" "b") ≡ some r)
load_profile_chain-Ends_example =
    load_profile_chain-Ends circle "/p" ("a" ∷ "b" ∷ []) (λ name p e. (two_names name).at p e)
      (circular_profile "a" "b")
