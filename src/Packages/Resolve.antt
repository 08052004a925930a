-- ===== src/Packages/Resolve.antt =====
-- `resolve_packages`: the packages of the groups and of the profiles, less the excluded ones.
use xaac_thin_client_os.Base.{
  ℕ, not, String, Option, none, some, List, [], ◌∷◌, ◌++◌, ◌<>◌, map, filter, member, distinct,
  sorted,
}
use xaac_thin_client_os.Configuration.{
  Validated, valid, invalid, HardwareProfile, Project, ProjectConfiguration,
}
use xaac_thin_client_os.Packages.Chain.{Visit, load_profile_chain}

pub record ResolvedPackages : Type 0 where
  pub packages : List String
  pub excluded : List String
  pub profile_chain : List String
  pub sources : List (String × List String)

-- Each group of packages with the name of its source.
abbrev pub groups : ProjectConfiguration → List HardwareProfile → List (String × List String)
groups configuration chain =
    ("base", configuration.packages.base)
    ∷ ("graphical", configuration.packages.graphical)
    ∷ ("xaac", configuration.packages.xaac)
    ∷ ("optional", configuration.packages.optional)
    ∷ map (λ profile. ("profile:" <> profile.name, profile.packages)) chain

abbrev pub exclusions : List HardwareProfile → List String
exclusions [] = []
exclusions (profile ∷ chain) = profile.exclude_packages ++ exclusions chain

-- The elements of the set `excluded`.
abbrev pub excluded_by : ProjectConfiguration → List HardwareProfile → List String
excluded_by configuration chain = distinct (configuration.packages.exclude ++ exclusions chain)

-- `sorted(set(values) - excluded)`
abbrev pub accepted : List String → List String → List String
accepted excluded values = sorted (filter (λ name. not (member name excluded)) (distinct values))

abbrev pub source_map : List String → List (String × List String) → List (String × List String)
source_map excluded [] = []
source_map excluded ((source, values) ∷ rest) =
    (source, accepted excluded values) ∷ source_map excluded rest

abbrev pub all_accepted : List (String × List String) → List String
all_accepted [] = []
all_accepted ((source, values) ∷ rest) = values ++ all_accepted rest

unfoldable pub resolved : ProjectConfiguration → List HardwareProfile → ResolvedPackages
resolved configuration chain =
    let excluded = excluded_by configuration chain in
    let sources = source_map excluded (groups configuration chain) in
    record {
      packages = sorted (distinct (all_accepted sources));
      excluded = sorted excluded;
      profile_chain = map (λ profile. profile.name) chain;
      sources = sources;
    }

abbrev pub resolved_visit : ProjectConfiguration → Visit → Option (Validated ResolvedPackages)
resolved_visit configuration none = none
resolved_visit configuration (some (invalid e)) = some (invalid e)
resolved_visit configuration (some (valid chain)) = some (valid (resolved configuration chain))

-- `resolve_packages`, where the fuel is for the chain of profiles
unfoldable pub resolve_packages :
    Project → String → ℕ → ProjectConfiguration → Option (Validated ResolvedPackages)
unfolding resolved
resolve_packages project root fuel configuration =
    resolved_visit configuration (load_profile_chain project root fuel configuration.profile)
