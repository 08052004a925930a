-- ===== src/Configuration/Unknown.antt =====
-- Documents with a field that nobody knows.
use xaac_thin_client_os.Base.{
  Bool, true, false, not, String, some, List, [], ◌∷◌, ◌++◌, ◌≡◌, refl, sym, subst, ◌||◌, any,
  member, str_eq, eq_iff, Bool-cases, inl, inr,
}
use xaac_thin_client_os.Configuration.Value.{dict, Entries}
use xaac_thin_client_os.Configuration.Validation.{Validated, valid, reject, ◌>>=◌}
use xaac_thin_client_os.Configuration.Checks.{Data, text_keys, mapping, reject_unknown}
use xaac_thin_client_os.Configuration.Build.{
  build_fields, debian_fields, image_fields, build_config, debian_config, image_config,
}
use xaac_thin_client_os.Configuration.Sources.{
  package_fields, repository_fields, package_config, repository_config,
}
use xaac_thin_client_os.Configuration.Profile.{profile_fields, hardware_profile}
use xaac_thin_client_os.Configuration.Booleans.{denied, neither_of, neither, behind, sooner, later}

-- The fields of all documents.
abbrev pub known_fields : List String
known_fields =
    build_fields
    ++ (debian_fields
        ++ (image_fields ++ (package_fields ++ (repository_fields ++ profile_fields))))

abbrev pub has_field : String → Data → Bool
has_field key [] = false
has_field key ((k, v) ∷ entries) = str_eq k key || has_field key entries

abbrev unknown_in : List String → Data → Bool
unknown_in allowed entries = any (λ field. not (member field.0 allowed)) entries

unknown-found :
    (allowed : List String) (key : String) (entries : Data)
    → member key allowed ≡ false
    → has_field key entries ≡ true
    → unknown_in allowed entries ≡ true
unknown-found allowed key [] h q = q
unknown-found allowed key ((k, v) ∷ entries) h q = elim (Bool-cases (str_eq k key)) [
  | inl same ↦
      let k_unknown : member k allowed ≡ false =
        subst (λ t. member t allowed ≡ false) (sym ((eq_iff k key).0 same)) h in
      sooner (not (member k allowed)) (unknown_in allowed entries)
        (denied (member k allowed) k_unknown)
  | inr unlike ↦
      later (not (member k allowed)) (unknown_in allowed entries) (
        unknown-found allowed key entries h
          (behind (str_eq k key) (has_field key entries) unlike q))
]

apart :
    (key : String) (xs ys : List String)
    → member key (xs ++ ys) ≡ false
    → (member key xs ≡ false) × (member key ys ≡ false)
apart key [] ys h = (refl, h)
apart key (x ∷ xs) ys h =
    let (one, rest) = neither_of (str_eq key x) (member key (xs ++ ys)) h in
    let (first, second) = apart key xs ys rest in
    (neither (str_eq key x) (member key xs) one first, second)

abbrev pub unknown_field : {A : Type 0} → Validated A
unknown_field = reject "conté camps desconeguts"

module _ (entries : Entries) (fields : Data) (key : String) (read : text_keys entries ≡ some fields)
    (there : has_field key fields ≡ true) where
  mapping_lem : mapping (dict entries) ≡ valid fields
  unfolding mapping
  mapping_lem = rw (read) refl

  module _ {A : Type 0} (allowed : List String) (h : member key allowed ≡ false)
      (f : Data → Unit {0} → Validated A) where
    refused_field :
        mapping (dict entries) >>= (λ fs. reject_unknown fs allowed >>= f fs) ≡ unknown_field
    unfolding reject_unknown ◌>>=◌
    refused_field = rw (mapping_lem, unknown-found allowed key fields h there) refl

-- Every kind of document refuses a dict with a text for each key where one of the keys is no field
-- of any document.
pub documents-RefuseUnknown :
    (entries : Entries) (fields : Data) (key : String)
    → text_keys entries ≡ some fields
    → has_field key fields ≡ true
    → member key known_fields ≡ false
    → (build_config (dict entries) ≡ unknown_field)
      × (debian_config (dict entries) ≡ unknown_field)
      × (image_config (dict entries) ≡ unknown_field)
      × (package_config (dict entries) ≡ unknown_field)
      × (repository_config (dict entries) ≡ unknown_field)
      × (hardware_profile (dict entries) ≡ unknown_field)
unfolding build_config debian_config image_config package_config repository_config hardware_profile
documents-RefuseUnknown entries fields key read there h =
    let (build, h1) =
      apart key build_fields
        (debian_fields
          ++ (image_fields ++ (package_fields ++ (repository_fields ++ profile_fields))))
        h in
    let (debian, h2) =
      apart key debian_fields
        (image_fields ++ (package_fields ++ (repository_fields ++ profile_fields))) h1 in
    let (image, h3) =
      apart key image_fields (package_fields ++ (repository_fields ++ profile_fields)) h2 in
    let (packages, h4) = apart key package_fields (repository_fields ++ profile_fields) h3 in
    let (repository, profile) = apart key repository_fields profile_fields h4 in
    (
      refused_field entries fields key read there build_fields build _,
      refused_field entries fields key read there debian_fields debian _,
      refused_field entries fields key read there image_fields image _,
      refused_field entries fields key read there package_fields packages _,
      refused_field entries fields key read there repository_fields repository _,
      refused_field entries fields key read there profile_fields profile _,
    )
