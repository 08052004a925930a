-- ===== src/Configuration/Build.antt =====
-- `DebianConfig`, `ImageConfig` and `BuildConfig` of configuration/model.py.
use xaac_thin_client_os.Base.{
  ℕ, Bool, true, false, not, String, List, [], ◌∷◌, ◌&&◌, ◌||◌, ◌==◌, leb, all, map, length,
  is_empty, starts_char, starts_with, rstrip_char, split_char, distinct, member,
}
use Prim.Native.Char.{code}
use xaac_thin_client_os.Machine.{parts}
use xaac_thin_client_os.Configuration.Value.{Yaml, list, Elements, none_left, element}
use xaac_thin_client_os.Configuration.Validation.{Validated, valid, reject, reject_if, ◌>>=◌, ◌>>◌}
use xaac_thin_client_os.Configuration.Checks.{
  mapping, value_of, required_text, positive_int, enum, text_tuple, reject_unknown,
}

pub data Architecture : Type 0 where
  amd64 : Architecture

pub data ReleaseChannel : Type 0 where
  development testing candidate stable long_term : ReleaseChannel

pub data ImageFormat : Type 0 where
  iso img recovery pxe : ImageFormat

abbrev pub architectures : List (String × Architecture)
architectures = ("amd64", amd64) ∷ []

abbrev pub channels : List (String × ReleaseChannel)
channels =
    ("development", development)
    ∷ ("testing", testing)
    ∷ ("candidate", candidate)
    ∷ ("stable", stable)
    ∷ ("long-term", long_term)
    ∷ []

abbrev pub image_formats : List (String × ImageFormat)
image_formats = ("iso", iso) ∷ ("img", img) ∷ ("recovery-img", recovery) ∷ ("pxe", pxe) ∷ []

-- A member of `StrEnum` is the text of its value.
abbrev pub format_text : ImageFormat → String
format_text iso = "iso"
format_text img = "img"
format_text recovery = "recovery-img"
format_text pxe = "pxe"

-- `len(set(values)) != len(values)`
abbrev pub repeats : List String → Bool
repeats values = not (length (distinct values) == length values)

pub record DebianConfig : Type 0 where
  pub suite : String
  pub mirror : String
  pub components : List String

-- A path is kept as its text.
pub record ImageConfig : Type 0 where
  pub formats : List ImageFormat
  pub size_mib : ℕ
  pub output_directory : String

pub record BuildConfig : Type 0 where
  pub schema_version : ℕ
  pub project : String
  pub version : String
  pub architecture : Architecture
  pub channel : ReleaseChannel
  pub profile : String
  pub debian : DebianConfig
  pub image : ImageConfig

abbrev pub debian_fields : List String
debian_fields = "suite" ∷ "mirror" ∷ "components" ∷ []

-- `DebianConfig.from_mapping`
unfoldable pub debian_config : Yaml → Validated DebianConfig
debian_config raw = do
  entries ← mapping raw
  reject_unknown entries debian_fields
  mirror ← required_text entries "mirror"
  reject_if (not (starts_with "https://" mirror)) "build.debian.mirror ha d'utilitzar HTTPS"
  suite ← required_text entries "suite"
  components ← text_tuple false (value_of "components" entries)
  valid (record { suite = suite; mirror = rstrip_char b'/' mirror; components = components })

unfoldable pub format_values : Elements → Validated (List ImageFormat)
format_values none_left = valid []
format_values (element value values) = do
  format ← enum image_formats value
  rest ← format_values values
  valid (format ∷ rest)

-- `build.image.formats`: a list that is not empty
unfoldable pub formats_of : Yaml → Validated (List ImageFormat)
unfolding format_values
formats_of (list (element value values)) = format_values (element value values)
formats_of _ = reject "build.image.formats ha de ser una llista no buida"

-- An absolute path, or one with a part `..`
abbrev pub is_unsafe_path : String → Bool
is_unsafe_path path = starts_char b'/' path || member ".." (parts path)

abbrev pub image_fields : List String
image_fields = "formats" ∷ "size_mib" ∷ "output_directory" ∷ []

-- `ImageConfig.from_mapping`
unfoldable pub image_config : Yaml → Validated ImageConfig
unfolding formats_of
image_config raw = do
  entries ← mapping raw
  reject_unknown entries image_fields
  formats ← formats_of (value_of "formats" entries)
  reject_if (repeats (map format_text formats)) "build.image.formats conté valors duplicats"
  output ← required_text entries "output_directory"
  reject_if (is_unsafe_path output)
      "build.image.output_directory ha de ser una ruta relativa segura"
  size ← positive_int entries "size_mib"
  valid (record { formats = formats; size_mib = size; output_directory = output })

abbrev pub all_digits : String → Bool
all_digits String.[] = true
all_digits (String.◌∷◌ c s) = leb b'0' (code c) && leb (code c) b'9' && all_digits s

-- `s.isdigit()`, for ASCII
abbrev pub is_number : String → Bool
is_number s = not (is_empty s) && all_digits s

-- MAJOR.MINOR.PATCH
abbrev pub is_version : String → Bool
is_version version =
    length (split_char b'.' version) == 3 && all is_number (split_char b'.' version)

abbrev pub build_fields : List String
build_fields =
    "schema_version" ∷ "project" ∷ "version" ∷ "architecture" ∷ "channel" ∷ "profile" ∷ "debian"
    ∷ "image" ∷ []

-- `BuildConfig.from_mapping`
unfoldable pub build_config : Yaml → Validated BuildConfig
unfolding debian_config image_config
build_config raw = do
  entries ← mapping raw
  reject_unknown entries build_fields
  schema_version ← positive_int entries "schema_version"
  reject_if (not (schema_version == 1)) "build.schema_version no està suportada; s'espera 1"
  version ← required_text entries "version"
  reject_if (not (is_version version)) "build.version ha de seguir MAJOR.MINOR.PATCH"
  project ← required_text entries "project"
  architecture ← enum architectures (value_of "architecture" entries)
  channel ← enum channels (value_of "channel" entries)
  profile ← required_text entries "profile"
  debian ← debian_config (value_of "debian" entries)
  image ← image_config (value_of "image" entries)
  valid (record {
    schema_version = schema_version;
    project = project;
    version = version;
    architecture = architecture;
    channel = channel;
    profile = profile;
    debian = debian;
    image = image;
  })
