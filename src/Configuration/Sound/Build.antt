-- ===== src/Configuration/Sound/Build.antt =====
-- What a `BuildConfig` that is accepted is.
use xaac_thin_client_os.Base.{
  ℕ, Bool, true, false, not, String, List, [], ◌∷◌, ◌≡◌, refl, ◌==◌, map, strip_prefix, arith,
}
use xaac_thin_client_os.Configuration.Value.{
  Yaml, null, bool, int, text, other, list, dict, none_left, element,
}
use xaac_thin_client_os.Configuration.Build.{
  ImageFormat, DebianConfig, ImageConfig, BuildConfig, debian_config, format_text, format_values,
  formats_of, is_unsafe_path, image_config, is_version, build_config,
}
use xaac_thin_client_os.Configuration.Gives.{
  Gives, Gives-valid, Gives-invalid, Gives-bind, Gives-then, Gives-checked,
}
use xaac_thin_client_os.Configuration.Texts.{
  IsFilled, IsPositive, IsDistinct, IsTextTuple, required_text-IsFilled, positive_int-IsPositive,
  text_tuple-IsTextTuple, repeats-IsDistinct, has_slashes, https-rstrip,
}
use xaac_thin_client_os.Configuration.Booleans.{yes}

-- The address begins with `https://`, or is `https:` alone, which is what is left of `https://` and
-- of more slashes.
abbrev pub IsHttps : String → Type 0
IsHttps uri = has_slashes (strip_prefix "https:" uri) ≡ true

pub record IsDebian (c : DebianConfig) : Type 0 where
  pub suite_filled : IsFilled c.suite
  pub mirror_https : IsHttps c.mirror
  pub components_lem : IsTextTuple false c.components

debian_config-IsDebian : (raw : Yaml) → Gives IsDebian (debian_config raw)
unfolding debian_config
debian_config-IsDebian raw = Gives-then _ _ (λ entries. Gives-then _ _ (λ _.
    Gives-then _ _ (λ mirror. Gives-checked _ _ _ (λ https.
      Gives-bind _ _ (required_text-IsFilled entries "suite") (λ suite filled.
        Gives-bind _ _ (text_tuple-IsTextTuple false _) (λ components tuple. Gives-valid _ (record {
          suite_filled = filled;
          mirror_https = https-rstrip mirror https;
          components_lem = tuple;
        })))))))

abbrev pub no_formats : List ImageFormat → Bool
no_formats [] = true
no_formats (f ∷ fs) = false

pub record IsImage (c : ImageConfig) : Type 0 where
  pub formats_given : no_formats c.formats ≡ false
  pub formats_distinct : IsDistinct (map format_text c.formats)
  pub size_positive : IsPositive c.size_mib
  pub output_safe : is_unsafe_path c.output_directory ≡ false

formats_of-given : (value : Yaml) → Gives (λ fs. no_formats fs ≡ false) (formats_of value)
unfolding formats_of format_values
formats_of-given (list (element value values)) =
    Gives-then _ _ (λ format. Gives-then _ _ (λ rest. Gives-valid (format ∷ rest) refl))
formats_of-given (list none_left) = Gives-invalid _
formats_of-given null = Gives-invalid _
formats_of-given (bool b) = Gives-invalid _
formats_of-given (int n) = Gives-invalid _
formats_of-given (text s) = Gives-invalid _
formats_of-given other = Gives-invalid _
formats_of-given (dict entries) = Gives-invalid _

image_config-IsImage : (raw : Yaml) → Gives IsImage (image_config raw)
unfolding image_config
image_config-IsImage raw = Gives-then _ _ (λ entries. Gives-then _ _ (λ _.
    Gives-bind _ _ (formats_of-given _) (λ formats given. Gives-checked _ _ _ (λ new.
      Gives-then _ _ (λ output. Gives-checked _ _ _ (λ safe.
        Gives-bind _ _ (positive_int-IsPositive entries "size_mib") (λ size positive.
          Gives-valid _ (record {
            formats_given = given;
            formats_distinct = repeats-IsDistinct _ new;
            size_positive = positive;
            output_safe = safe;
          }))))))))

pub record IsBuild (c : BuildConfig) : Type 0 where
  pub schema_known : c.schema_version ≡ 1
  pub version_lem : is_version c.version ≡ true
  pub debian_lem : IsDebian c.debian
  pub image_lem : IsImage c.image

pub same_number : (m n : ℕ) → not (m == n) ≡ false → m ≡ n
same_number m n h = ground arith

pub build_config-IsBuild : (raw : Yaml) → Gives IsBuild (build_config raw)
unfolding build_config
build_config-IsBuild raw = Gives-then _ _ (λ entries. Gives-then _ _ (λ _. Gives-then _ _ (λ schema.
    Gives-checked _ _ _ (λ known. Gives-then _ _ (λ version. Gives-checked _ _ _ (λ numbers.
      Gives-then _ _ (λ project. Gives-then _ _ (λ architecture. Gives-then _ _ (λ channel.
        Gives-then _ _ (λ profile. Gives-bind _ _ (debian_config-IsDebian _) (λ debian d.
          Gives-bind _ _ (image_config-IsImage _) (λ image i. Gives-valid _ (record {
            schema_known = same_number schema 1 known;
            version_lem = yes (is_version version) numbers;
            debian_lem = d;
            image_lem = i;
          })))))))))))))
