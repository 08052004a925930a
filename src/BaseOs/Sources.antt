-- ===== src/BaseOs/Sources.antt =====
-- The APT sources: `_source_files`, `_parse_list_sources` and `_parse_deb822_sources`.
use xaac_thin_client_os.Base.{
  Bool, true, false, not, String, Option, none, some, List, [], ◌∷◌, ◌++◌, ◌||◌, ◌==◌, ltb, map,
  if◌then◌else◌, str_eq, is_empty, is_space, starts_char, strip, strip_folded, eq_folded,
  starts_with, ends_with, contains, contains_folded, words, lines, cut, rstrip_char, join_with,
  sorted, filter, length,
}
use Prim.Native.Char.{code}
use xaac_thin_client_os.Machine.{
  M, runtime_error, pure, raise, ◌>>=◌, ◌>>◌, raise_if, is_file, is_dir, iterdir, file_size,
  read_text, join,
}

-- An entry of the list that the parsers return, without the path that only messages show.
pub record Source : Type 0 where
  pub uri : String
  pub suite : String
  pub components : List String
  pub options : String
  pub signed_by : Option String

unfoldable pub with_size : String → Bool → M Bool
with_size path false = pure false
with_size path true = do size ← file_size path; pure (ltb 0 size)

unfoldable pub present_files : List String → M (List String)
unfolding with_size
present_files [] = pure []
present_files (path ∷ rest) = do
  there ← is_file path
  counts ← with_size path there
  others ← present_files rest
  pure (if counts then path ∷ others else others)

abbrev pub source_directory : String
source_directory = "/etc/apt/sources.list.d"

-- `sorted(directory.glob("*" + suffix))`
unfoldable pub globbed : String → List String → List String
globbed suffix names = map (join source_directory) (sorted (filter (ends_with suffix) names))

unfoldable pub listed_files : Bool → M (List String)
unfolding globbed
listed_files false = pure []
listed_files true = do
  names ← iterdir source_directory
  pure (globbed ".list" names ++ globbed ".sources" names)

unfoldable pub source_files : M (List String)
unfolding listed_files present_files
source_files = do
  there ← is_dir source_directory
  listed ← listed_files there
  present_files ("/etc/apt/sources.list" ∷ listed)

-- From the word that opens the brackets to the one that closes them, and the words behind it.
take_options : List String → List String × List String
take_options [] = ([], [])
take_options (w ∷ ws) =
    let (taken, rest) = take_options ws in
    if ends_with "]" w then (w ∷ [], ws) else (w ∷ taken, rest)

unfoldable pub options_of : List String → List String × List String
unfolding take_options
options_of [] = ([], [])
options_of (w ∷ ws) = if starts_char b'[' w then take_options (w ∷ ws) else ([], w ∷ ws)

-- `[^\s\]]+`, from the start of the text
until_close : String → String
until_close String.[] = String.[]
until_close (String.◌∷◌ c s) =
    let rest = until_close s in
    if is_space c || code c == b']' then String.[] else String.◌∷◌ c rest

group_of : Option String → Option String
unfolding until_close
group_of none = none
group_of (some s) = if is_empty (until_close s) then none else some (until_close s)

first_of : Option String → Option String → Option String
first_of (some s) o = some s
first_of none o = o

-- `re.search(r"(?:^|[\s[])signed-by=([^\s\]]+)", options, re.IGNORECASE)`; the test says whether the
-- text stands at the start, behind a blank or behind a bracket
search_signed_by : Bool → String → Option String
unfolding group_of first_of
search_signed_by b String.[] = none
search_signed_by b (String.◌∷◌ c s) =
    let rest = search_signed_by (is_space c || code c == b'[') s in
    if b then first_of (group_of (strip_folded "signed-by=" (String.◌∷◌ c s))) rest else rest

unfoldable pub signed_by_of : String → Option String
unfolding search_signed_by
signed_by_of options = search_signed_by true options

unfoldable pub entry : List String → List String → M Source
entry options (uri ∷ suite ∷ c ∷ cs) = pure (record {
  uri = rstrip_char b'/' uri;
  suite = suite;
  components = c ∷ cs;
  options = join_with " " options;
  signed_by = signed_by_of (join_with " " options);
})
entry options _ = raise (runtime_error "Entrada APT incompleta")

unfoldable pub parse_words : List String → M Source
unfolding entry options_of
parse_words (deb ∷ rest) = do
  raise_if (ltb (length rest) 3) (runtime_error "Entrada APT incompleta")
  entry (options_of rest).0 (options_of rest).1
parse_words [] = raise (runtime_error "Entrada APT incompleta")

-- A line of a .list file that is no comment.
unfoldable pub parse_entry : String → M Source
unfolding parse_words
parse_entry line = do
  raise_if (not (starts_with "deb " line)) (runtime_error "Entrada APT no suportada")
  raise_if (contains "[trusted=yes]" line || contains_folded "allow-insecure" line)
      (runtime_error "Font APT insegura")
  parse_words (words line)

abbrev pub is_comment : String → Bool
is_comment line = is_empty line || starts_char b'#' line

unfoldable pub parse_list : List String → M (List Source)
unfolding parse_entry
parse_list [] = pure []
parse_list (raw ∷ rest) = elim (is_comment (strip raw)) [
  | true ↦ parse_list rest
  | false ↦ do source ← parse_entry (strip raw); others ← parse_list rest; pure (source ∷ others)
]

-- The fields of a block: lines without a colon are passed over, and the last value of a key counts.
unfoldable pub field_line : String → List (String × String) → List (String × String)
field_line line fields = elim (cut b':' line) [
  | none ↦ fields
  | some (key, value) ↦ (strip key, strip value) ∷ fields
]

unfoldable pub block_fields : List (String × String) → List String → List (String × String)
unfolding field_line
block_fields fields [] = fields
block_fields fields (raw ∷ rest) =
    block_fields (if is_comment (strip raw) then fields else field_line (strip raw) fields) rest

-- `fields.get(k)`, where keys were put in lower case
abbrev pub field_of : String → List (String × String) → Option String
field_of k [] = none
field_of k ((j, v) ∷ rest) = if eq_folded k j then some v else field_of k rest

abbrev or_empty : Option String → String
or_empty none = ""
or_empty (some s) = s

abbrev is_disabled : Option String → Bool
is_disabled none = false
is_disabled (some s) = eq_folded "no" s

abbrev is_deb : Option String → Bool
is_deb none = false
is_deb (some s) = str_eq s "deb"

abbrev per_suite : String → List String → Option String → List String → List Source
per_suite uri components signed [] = []
per_suite uri components signed (suite ∷ rest) =
    record {
      uri = rstrip_char b'/' uri;
      suite = suite;
      components = components;
      options = "";
      signed_by = signed;
    }
    ∷ per_suite uri components signed rest

abbrev missing : List String → Bool
missing [] = true
missing (s ∷ ss) = false

unfoldable pub block_sources : List String → List (String × String) → M (List Source)
block_sources (uri ∷ []) fields = do
  let suites = words (or_empty (field_of "suites" fields))
  let components = words (or_empty (field_of "components" fields))
  raise_if (missing suites || missing components) (runtime_error "Font Deb822 incompleta")
  pure (per_suite uri components (field_of "signed-by" fields) suites)
block_sources _ fields = raise (runtime_error "Font Deb822 incompleta")

unfoldable pub enabled_sources : Bool → List (String × String) → M (List Source)
unfolding block_sources
enabled_sources true fields = pure []
enabled_sources false fields = do
  raise_if (not (is_deb (field_of "types" fields))) (runtime_error "Tipus APT no suportat")
  block_sources (words (or_empty (field_of "uris" fields))) fields

unfoldable pub parse_block : List (String × String) → M (List Source)
unfolding enabled_sources
parse_block [] = pure []
parse_block (f ∷ fs) = enabled_sources (is_disabled (field_of "enabled" (f ∷ fs))) (f ∷ fs)

-- The runs of lines between blank ones, which is where `re.split(r"\n\s*\n", content)` cuts; the
-- first list is the run that is being read.
unfoldable pub blocks : List String → List String → List (List String)
blocks current [] = current ∷ []
blocks current (line ∷ rest) = elim (is_empty (strip line)) [
  | true ↦ current ∷ blocks [] rest
  | false ↦ blocks (current ++ line ∷ []) rest
]

unfoldable pub parse_blocks : List (List String) → M (List Source)
unfolding block_fields parse_block
parse_blocks [] = pure []
parse_blocks (b ∷ bs) = do
  sources ← parse_block (block_fields [] b)
  others ← parse_blocks bs
  pure (sources ++ others)

unfoldable pub parse_text : Bool → String → M (List Source)
unfolding parse_blocks parse_list blocks
parse_text true content = parse_blocks (blocks [] (lines content))
parse_text false content = parse_list (lines content)

-- One file, by its suffix.
unfoldable pub parse_file : String → M (List Source)
unfolding parse_text
parse_file path = do content ← read_text path; parse_text (ends_with ".sources" path) content
