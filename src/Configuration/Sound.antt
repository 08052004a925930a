-- ===== src/Configuration/Sound.antt =====
-- What a configuration that is loaded is.
use xaac_thin_client_os.Base.{
  ℕ, ◌<◌, ◌≤◌, Bool, true, false, not, String, List, [], ◌∷◌, ◌≡◌, refl, ◌==◌, ◌&&◌, ◌||◌, any, all,
  map, member, str_eq, eq_iff, ltb, starts_with, starts_char, Bool-cases, inl, inr, arith,
}
use xaac_thin_client_os.Configuration.Value.{
  Yaml, null, bool, int, text, other, list, dict, Elements, none_left, element,
}
use xaac_thin_client_os.Configuration.Validation.{Validated, valid, reject_if}
use xaac_thin_client_os.Configuration.Build.{
  Architecture, amd64, ImageFormat, DebianConfig, ImageConfig, BuildConfig, debian_config,
  format_text, format_values, formats_of, is_unsafe_path, image_config, is_version, build_config,
  repeats,
}
use xaac_thin_client_os.Configuration.Sources.{
  PackageConfig, RepositoryConfig, selected, overlaps, package_config, repository_config,
  repository_values, repository_list, repository_names, load_repositories,
}
use xaac_thin_client_os.Configuration.Profile.{HardwareProfile, hardware_profile}
use xaac_thin_client_os.Configuration.Loader.{
  ProjectConfiguration, Project, project_name, same_architecture, cross_check,
  load_project_configuration,
}
use xaac_thin_client_os.Configuration.Gives.{
  Gives, Gives-valid, Gives-invalid, Gives-bind, Gives-then, Gives-checked,
}
use xaac_thin_client_os.Configuration.Texts.{
  IsFilled, IsPositive, IsDistinct, IsTextTuple, required_text-IsFilled, positive_int-IsPositive,
  text_tuple-IsTextTuple, repeats-IsDistinct, https-rstrip,
}
use xaac_thin_client_os.Configuration.Booleans.{yes}
pub mod Build
pub mod Sources
use Build.{IsBuild, build_config-IsBuild}
use Sources.{
  IsPackages, package_config-IsPackages, IsRepositoryList, load_repositories-IsRepositoryList,
  IsProfile, hardware_profile-IsProfile,
}

-- The documents are well formed and agree with each other, with the name of the project and with
-- its version.
pub record IsConsistent (project : Project) (c : ProjectConfiguration) : Type 0 where
  pub build_lem : IsBuild c.build
  pub packages_lem : IsPackages c.packages
  pub repositories_lem : IsRepositoryList c.repositories
  pub profile_lem : IsProfile c.profile
  pub project_same : c.build.project ≡ project_name
  pub version_same : c.build.version ≡ project.version
  pub profile_same : c.profile.name ≡ c.build.profile
  pub image_fits : c.build.image.size_mib ≤ c.profile.storage_mib

equal : (s t : String) → not (str_eq s t) ≡ false → s ≡ t
equal s t h = (eq_iff s t).0 (yes (str_eq s t) h)

at_most : (m n : ℕ) → ltb m n ≡ false → n ≤ m
at_most m n h = ground arith

module _ (project : Project) (c : ProjectConfiguration) where
  cross_check-IsConsistent :
      IsBuild c.build
      → IsPackages c.packages
      → IsRepositoryList c.repositories
      → IsProfile c.profile
      → Gives (IsConsistent project) (cross_check project c)
  unfolding cross_check
  cross_check-IsConsistent b p r h = Gives-checked _ _ _ (λ name. Gives-checked _ _ _ (λ version.
      Gives-checked _ _ _ (λ architecture. Gives-checked _ _ _ (λ profile.
        Gives-checked _ _ _ (λ fits. Gives-valid c (record {
          build_lem = b;
          packages_lem = p;
          repositories_lem = r;
          profile_lem = h;
          project_same = equal _ _ name;
          version_same = equal _ _ version;
          profile_same = equal _ _ profile;
          image_fits = at_most _ _ fits;
        }))))))

load_project-IsConsistent :
    (project : Project) (root : String)
    → Gives (IsConsistent project) (load_project_configuration project root)
unfolding load_project_configuration
load_project-IsConsistent project root = Gives-then _ _ (λ build_document.
    Gives-bind _ _ (build_config-IsBuild build_document) (λ build b.
      Gives-then _ _ (λ packages_document.
        Gives-bind _ _ (package_config-IsPackages packages_document) (λ packages p.
          Gives-then _ _ (λ repositories_document.
            Gives-bind _ _ (load_repositories-IsRepositoryList repositories_document)
              (λ repositories r. Gives-then _ _ (λ profile_document.
                Gives-bind _ _ (hardware_profile-IsProfile profile_document)
                  (λ profile h. cross_check-IsConsistent project _ b p r h))))))))

-- A configuration that is loaded is well formed in each of its documents, and they agree: the
-- project, the version and the profile are those that are asked for, and the image fits into the
-- storage of the profile.
pub load_project_configuration-IsConsistent :
    (project : Project) (root : String) (c : ProjectConfiguration)
    → load_project_configuration project root ≡ valid c
    → IsConsistent project c
load_project_configuration-IsConsistent project root c e =
    (load_project-IsConsistent project root).at c e
