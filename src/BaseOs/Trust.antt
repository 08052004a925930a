-- ===== src/BaseOs/Trust.antt =====
-- `validate_sources`: which APT sources may be used.
pub mod Trusted
use xaac_thin_client_os.Base.{
  ℕ, pos, Bool, true, false, not, String, Option, none, some, List, [], ◌∷◌, ◌++◌, ◌&&◌, any, all,
  length, str_eq, starts_with, contains_folded, rstrip_char, is_empty, sorted, distinct,
}
use xaac_thin_client_os.Json.{
  Json, Fields, num, as_list, as_obj, as_text, lookup, bool, obj, fields, texts,
}
use xaac_thin_client_os.Machine.{
  M, runtime_error, failure, pure, or_raise, ◌>>=◌, ◌>>◌, raise_if, traverse, is_file,
}
use xaac_thin_client_os.Machine.{str_value}
use xaac_thin_client_os.BaseOs.Sources.{Source, source_files, parse_file}

abbrev pub keyring : String
keyring = "/usr/share/keyrings/debian-archive-keyring.gpg"

-- An element of the sets `allowed` and `actual`.
pub record Origin : Type 0 where
  pub at_uri : String
  pub at_suite : String
  pub of_components : List String

abbrev texts_eq : List String → List String → Bool
texts_eq [] [] = true
texts_eq (s ∷ ss) (t ∷ ts) = str_eq s t && texts_eq ss ts
texts_eq _ _ = false

abbrev pub origin_eq : Origin → Origin → Bool
origin_eq a b =
    str_eq a.at_uri b.at_uri
    && (str_eq a.at_suite b.at_suite && texts_eq a.of_components b.of_components)

abbrev pub all_in : List Origin → List Origin → Bool
all_in xs ys = all (λ x. any (origin_eq x) ys) xs

unfoldable pub list_of : String → Fields → M (List Json)
list_of key item = do
  value ← or_raise (lookup key item) (failure "KeyError")
  or_raise (as_list value) (failure "TypeError")

unfoldable pub text_of : Json → M String
text_of value = or_raise (as_text value) (failure "TypeError")

unfoldable pub allowed_suite : Fields → Json → M Origin
unfolding list_of text_of
allowed_suite repository value = do
  uri ← or_raise (lookup "uri" repository) (failure "KeyError")
  at ← str_value uri
  suite ← str_value value
  listed ← list_of "components" repository
  components ← traverse listed text_of
  pure (record { at_uri = rstrip_char b'/' at; at_suite = suite; of_components = components })

unfoldable pub allowed_of : List Json → M (List Origin)
unfolding allowed_suite
allowed_of [] = pure []
allowed_of (value ∷ rest) = do
  repository ← or_raise (as_obj value) (failure "TypeError")
  suites ← list_of "suites" repository
  some_of ← traverse suites (allowed_suite repository)
  others ← allowed_of rest
  pure (some_of ++ others)

unfoldable pub parse_files : List String → M (List Source)
parse_files [] = pure []
parse_files (path ∷ rest) = do
  sources ← parse_file path
  others ← parse_files rest
  pure (sources ++ others)

abbrev pub is_signed : Option String → Bool
is_signed none = false
is_signed (some s) = str_eq s keyring

abbrev pub is_insecure : Source → Bool
is_insecure s = not (is_empty s.options) && contains_folded "trusted=yes" s.options

-- One round of the loop over the entries.
unfoldable pub check_source : Source → M Origin
check_source s = do
  raise_if (not (starts_with "https://" s.uri)) (runtime_error "Font APT sense HTTPS")
  raise_if (is_insecure s) (runtime_error "Font APT marcada com trusted=yes")
  raise_if (not (is_signed s.signed_by))
      (runtime_error "Falta Signed-By o usa un keyring no autoritzat")
  pure (record { at_uri = s.uri; at_suite = s.suite; of_components = s.components })

abbrev pub nothing : List String → Bool
nothing [] = true
nothing (s ∷ ss) = false

-- The dict that `validate_sources` returns.
pub record Report : Type 0 where
  pub files : List String
  pub entries : ℕ
  pub suites : List String

abbrev pub report_json : Report → Json
report_json r = obj (
    fields (
      ("ok", bool true)
      ∷ ("files", texts r.files)
      ∷ ("entries", num (pos r.entries))
      ∷ ("suites", texts r.suites)
      ∷ []))

abbrev suite_names : List Source → List String
suite_names [] = []
suite_names (s ∷ ss) = s.suite ∷ suite_names ss

-- What `validate_sources` does with the sources that it has read.
unfoldable pub accept_sources : List Origin → List String → List Source → M Report
unfolding check_source
accept_sources allowed files sources = do
  actual ← traverse sources check_source
  raise_if (not (all_in actual allowed && all_in allowed actual))
      (runtime_error "Fonts APT fora de política")
  there ← is_file keyring
  raise_if (not there) (runtime_error "No existeix el keyring Debian")
  pure (record {
    files = files;
    entries = length sources;
    suites = sorted (distinct (suite_names sources));
  })

unfoldable pub validate_sources : Fields → M Report
unfolding allowed_of parse_files
validate_sources policy = do
  repositories ← list_of "repositories" policy
  allowed ← allowed_of repositories
  files ← source_files
  raise_if (nothing files) (runtime_error "No hi ha fonts APT configurades")
  sources ← parse_files files
  accept_sources allowed files sources
