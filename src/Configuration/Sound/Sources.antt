-- ===== src/Configuration/Sound/Sources.antt =====
-- What a `PackageConfig`, the repositories and a `HardwareProfile` that are accepted are.
use xaac_thin_client_os.Base.{
  Option, none, some, Bool, true, false, String, List, [], ◌∷◌, ◌≡◌, refl, any, member, str_eq,
  eq_iff, starts_char, Bool-cases, inl, inr, arith, sym, subst,
}
use xaac_thin_client_os.Configuration.Value.{
  Yaml, null, bool, int, text, other, list, dict, Elements, none_left, element,
}
use xaac_thin_client_os.Configuration.Validation.{valid, ◌>>=◌}
use xaac_thin_client_os.Configuration.Checks.{
  Data, text_of, optional_text_of, optional_text, value_of,
}
use xaac_thin_client_os.Configuration.Sources.{
  PackageConfig, RepositoryConfig, selected, package_config, repository_config, repository_values,
  repository_list, repository_names, load_repositories,
}
use xaac_thin_client_os.Configuration.Profile.{HardwareProfile, hardware_profile}
use xaac_thin_client_os.Configuration.Gives.{
  Gives, Gives-valid, Gives-invalid, Gives-bind, Gives-then, Gives-checked,
}
use xaac_thin_client_os.Configuration.Texts.{
  text_of-IsFilled, IsFilled, IsPositive, IsDistinct, IsTextTuple, required_text-IsFilled,
  positive_int-IsPositive, text_tuple-IsTextTuple, repeats-IsDistinct, https-rstrip,
}
use xaac_thin_client_os.Configuration.Sound.Build.{IsHttps}
use xaac_thin_client_os.Configuration.Booleans.{yes, neither_of, behind}

-- Every list has no text twice, and nothing that is selected is excluded.
pub record IsPackages (c : PackageConfig) : Type 0 where
  pub base_lem : IsTextTuple false c.base
  pub graphical_lem : IsTextTuple true c.graphical
  pub xaac_lem : IsTextTuple true c.xaac
  pub optional_lem : IsTextTuple true c.optional
  pub exclude_lem : IsTextTuple true c.exclude
  pub disjoint : (name : String) → member name (selected c) ≡ true → member name c.exclude ≡ false

-- A test that no member of a list passes.
none_passes :
    (p : String → Bool) (names : List String) (name : String)
    → any p names ≡ false
    → member name names ≡ true
    → p name ≡ false
none_passes p [] name h k = absurd (ground (arith, k))
none_passes p (s ∷ ss) name h k =
    let (first, rest) = neither_of (p s) (any p ss) h in
    elim (Bool-cases (str_eq name s)) [
      | inl same ↦ subst (λ t. p t ≡ false) (sym ((eq_iff name s).0 same)) first
      | inr unlike ↦ none_passes p ss name rest (behind (str_eq name s) (member name ss) unlike k)
    ]

pub package_config-IsPackages : (raw : Yaml) → Gives IsPackages (package_config raw)
unfolding package_config
package_config-IsPackages raw = Gives-then _ _ (λ entries. Gives-then _ _ (λ _.
    Gives-bind _ _ (text_tuple-IsTextTuple false _) (λ base b.
      Gives-bind _ _ (text_tuple-IsTextTuple true _) (λ graphical g.
        Gives-bind _ _ (text_tuple-IsTextTuple true _) (λ xaac x.
          Gives-bind _ _ (text_tuple-IsTextTuple true _) (λ optional o.
            Gives-bind _ _ (text_tuple-IsTextTuple true _) (λ exclude e.
              Gives-checked _ _ _ (λ apart. Gives-valid _ (record {
                base_lem = b;
                graphical_lem = g;
                xaac_lem = x;
                optional_lem = o;
                exclude_lem = e;
                disjoint = λ name h. none_passes (λ n. member n exclude) _ name apart h;
              })))))))))

pub record IsRepository (c : RepositoryConfig) : Type 0 where
  pub name_filled : IsFilled c.name
  pub uri_https : IsHttps c.uri
  pub suites_lem : IsTextTuple false c.suites
  pub components_lem : IsTextTuple false c.components
  pub signed_by_absolute : starts_char b'/' c.signed_by ≡ true

repository_config-IsRepository : (raw : Yaml) → Gives IsRepository (repository_config raw)
unfolding repository_config
repository_config-IsRepository raw = Gives-then _ _ (λ entries. Gives-then _ _ (λ _.
    Gives-then _ _ (λ uri. Gives-checked _ _ _ (λ https. Gives-then _ _ (λ enabled.
      Gives-then _ _ (λ signed_by. Gives-checked _ _ _ (λ absolute.
        Gives-bind _ _ (required_text-IsFilled entries "name") (λ name filled.
          Gives-bind _ _ (text_tuple-IsTextTuple false _) (λ suites s.
            Gives-bind _ _ (text_tuple-IsTextTuple false _) (λ components c. Gives-valid _ (record {
              name_filled = filled;
              uri_https = https-rstrip uri https;
              suites_lem = s;
              components_lem = c;
              signed_by_absolute = yes (starts_char b'/' signed_by) absolute;
            })))))))))))

abbrev pub AreRepositories : List RepositoryConfig → Type 0
AreRepositories [] = Unit
AreRepositories (r ∷ rs) = IsRepository r × AreRepositories rs

repository_values-AreRepositories :
    (values : Elements) → Gives AreRepositories (repository_values values)
unfolding repository_values
repository_values-AreRepositories none_left = Gives-valid [] tt
repository_values-AreRepositories (element value values) =
    Gives-bind _ _ (repository_config-IsRepository value) (λ r i.
      Gives-bind _ _ (repository_values-AreRepositories values)
        (λ rs is. Gives-valid (r ∷ rs) (i, is)))

abbrev pub no_repositories : List RepositoryConfig → Bool
no_repositories [] = true
no_repositories (r ∷ rs) = false

-- There is a repository, each is well formed, and no name stands twice.
pub record IsRepositoryList (rs : List RepositoryConfig) : Type 0 where
  pub given : no_repositories rs ≡ false
  pub each : AreRepositories rs
  pub names_distinct : IsDistinct (repository_names rs)

abbrev AreGiven : List RepositoryConfig → Type 0
AreGiven rs = (no_repositories rs ≡ false) × AreRepositories rs

repository_list-AreGiven : (value : Yaml) → Gives AreGiven (repository_list value)
unfolding repository_list repository_values
repository_list-AreGiven (list (element value values)) =
    Gives-bind _ _ (repository_config-IsRepository value) (λ r i.
      Gives-bind _ _ (repository_values-AreRepositories values)
        (λ rs is. Gives-valid (r ∷ rs) (refl, (i, is))))
repository_list-AreGiven (list none_left) = Gives-invalid _
repository_list-AreGiven null = Gives-invalid _
repository_list-AreGiven (bool b) = Gives-invalid _
repository_list-AreGiven (int n) = Gives-invalid _
repository_list-AreGiven (text s) = Gives-invalid _
repository_list-AreGiven other = Gives-invalid _
repository_list-AreGiven (dict entries) = Gives-invalid _

pub load_repositories-IsRepositoryList :
    (raw : Yaml) → Gives IsRepositoryList (load_repositories raw)
unfolding load_repositories
load_repositories-IsRepositoryList raw = Gives-then _ _ (λ entries.
    Gives-bind _ _ (repository_list-AreGiven entries) (λ rs is. Gives-checked _ _ _ (λ apart.
      Gives-valid rs
        (record { given = is.0; each = is.1; names_distinct = repeats-IsDistinct _ apart }))))

-- No text, or one that is filled.
abbrev pub IsOptional : Option String → Type 0
IsOptional none = Unit
IsOptional (some s) = IsFilled s

some_text-IsOptional : (value : Yaml) → Gives IsOptional (text_of value >>= λ s. valid (some s))
some_text-IsOptional value =
    Gives-bind (text_of value) _ (text_of-IsFilled value) (λ s f. Gives-valid (some s) f)

optional_text_of-IsOptional : (value : Yaml) → Gives IsOptional (optional_text_of value)
optional_text_of-IsOptional null = Gives-valid none tt
optional_text_of-IsOptional (bool b) = some_text-IsOptional (bool b)
optional_text_of-IsOptional (int n) = some_text-IsOptional (int n)
optional_text_of-IsOptional (text s) = some_text-IsOptional (text s)
optional_text_of-IsOptional other = some_text-IsOptional other
optional_text_of-IsOptional (list values) = some_text-IsOptional (list values)
optional_text_of-IsOptional (dict entries) = some_text-IsOptional (dict entries)

optional_text-IsOptional :
    (entries : Data) (key : String) → Gives IsOptional (optional_text entries key)
unfolding optional_text
optional_text-IsOptional entries key = optional_text_of-IsOptional (value_of key entries)

pub record IsProfile (c : HardwareProfile) : Type 0 where
  pub name_filled : IsFilled c.name
  pub description_filled : IsFilled c.description
  pub extends_lem : IsOptional c.extends
  pub memory_positive : IsPositive c.memory_mib
  pub storage_positive : IsPositive c.storage_mib
  pub kernel_parameters_lem : IsTextTuple true c.kernel_parameters
  pub packages_lem : IsTextTuple true c.packages
  pub exclude_packages_lem : IsTextTuple true c.exclude_packages

pub hardware_profile-IsProfile : (raw : Yaml) → Gives IsProfile (hardware_profile raw)
unfolding hardware_profile
hardware_profile-IsProfile raw = Gives-then _ _ (λ entries. Gives-then _ _ (λ _.
    Gives-bind _ _ (required_text-IsFilled entries "name") (λ name n.
      Gives-bind _ _ (required_text-IsFilled entries "description") (λ description d.
        Gives-bind _ _ (optional_text-IsOptional entries "extends") (λ extends x.
          Gives-then _ _ (λ architecture.
            Gives-bind _ _ (positive_int-IsPositive entries "memory_mib") (λ memory m.
              Gives-bind _ _ (positive_int-IsPositive entries "storage_mib") (λ storage s.
                Gives-bind _ _ (text_tuple-IsTextTuple true _) (λ parameters k.
                  Gives-bind _ _ (text_tuple-IsTextTuple true _) (λ packages p.
                    Gives-bind _ _ (text_tuple-IsTextTuple true _) (λ excluded e.
                      Gives-valid _ (record {
                        name_filled = n;
                        description_filled = d;
                        extends_lem = x;
                        memory_positive = m;
                        storage_positive = s;
                        kernel_parameters_lem = k;
                        packages_lem = p;
                        exclude_packages_lem = e;
                      }))))))))))))
