-- ===== src/Machine/Files.antt =====
-- The calls of `pathlib`, `shutil` and `os` that the runtimes make, on the disk of the model.
-- Permissions, owners and time stamps of files are left out, and so are the directories above a
-- path: only its last part may be a symbolic link.
use xaac_thin_client_os.Base.{
  ℕ, zero, suc, Bool, true, false, String, Option, none, some, List, [], ◌∷◌, ◌&&◌, ◌||◌, str_eq,
  ◌<>◌, starts_char, has_char, is_empty, not, strip_prefix, split_char, member, if◌then◌else◌,
}
use xaac_thin_client_os.Json.{text, Json, Fields, as_obj}
use xaac_thin_client_os.Machine.State.{
  Node, file, link, dir, Host, Content, json, blob, Disk, wrote, made_dir, copied, removed,
}
use xaac_thin_client_os.Machine.Monad.{
  M, Exc, Result, ok, err, runtime_error, failure, pure, raise, gets, or_raise, ◌>>=◌, ◌>>◌,
  raise_if, effect,
}

-- `Path(p) / q`
abbrev pub join : String → String → String
join p q = if starts_char b'/' q then q else p <> "/" <> q

drop_dots : List String → List String
drop_dots [] = []
drop_dots (s ∷ ss) =
    let rest = drop_dots ss in if is_empty s || str_eq s "." then rest else s ∷ rest

-- `PurePosixPath(s).parts` of a relative path
unfoldable pub parts : String → List String
unfolding drop_dots split_char
parts s = drop_dots (split_char b'/' s)

abbrev pub node_at : String → Disk → Option Node
node_at p [] = none
node_at p ((q, n) ∷ d) = if str_eq q p then some n else node_at p d

abbrev pub put : String → Node → Disk → Disk
put p n d = (p, n) ∷ d

abbrev pub is_below : String → String → Bool
is_below root p = elim (strip_prefix (root <> "/") p) [ none ↦ false | some _ ↦ true ]

-- `unlink` of a file, `shutil.rmtree` of a directory
unfoldable pub remove_tree : String → Disk → Disk
remove_tree p [] = []
remove_tree p ((q, n) ∷ d) =
    let rest = remove_tree p d in if str_eq q p || is_below p q then rest else (q, n) ∷ rest

-- The path that a chain of symbolic links ends at: Linux gives up after forty.
unfoldable pub real_path : ℕ → String → Disk → String
real_path zero p d = p
real_path (suc n) p d = elim (node_at p d) [ some (link q) ↦ real_path n q d | _ ↦ p ]

abbrev pub max_links : ℕ
max_links = 40

-- A path with something below it is a directory, listed or not.
abbrev pub holds_files : String → Disk → Bool
holds_files p [] = false
holds_files p ((q, n) ∷ d) = is_below p q || holds_files p d

abbrev directory_of : Bool → Option Node
directory_of true = some dir
directory_of false = none

-- What stands at a path, a symbolic link not followed.
unfoldable pub present : String → Disk → Option Node
present p d = elim (node_at p d) [ some n ↦ some n | none ↦ directory_of (holds_files p d) ]

unfoldable pub target_of : String → Disk → Option Node
target_of p d = elim (present (real_path max_links p d) d) [ some (link q) ↦ none | other ↦ other ]

unfoldable pub is_file : String → M Bool
unfolding target_of
is_file p = gets (λ w. elim (target_of p w.disk) [ some (file _) ↦ true | _ ↦ false ])

unfoldable pub is_dir : String → M Bool
unfolding target_of
is_dir p = gets (λ w. elim (target_of p w.disk) [ some dir ↦ true | _ ↦ false ])

abbrev pub is_link : Option Node → Bool
is_link (some (link q)) = true
is_link _ = false

unfoldable pub is_symlink : String → M Bool
is_symlink p = gets (λ w. is_link (node_at p w.disk))

abbrev pub is_present : Option Node → Bool
is_present none = false
is_present (some n) = true

unfoldable pub exists : String → M Bool
unfolding target_of
exists p = gets (λ w. is_present (target_of p w.disk))

unfoldable pub resolve : String → M String
unfolding real_path
resolve p = gets (λ w. real_path max_links p w.disk)

abbrev pub content_of : Option Node → Option Content
content_of (some (file c)) = some c
content_of _ = none

-- The bytes of a file; a missing one raises `OSError`.
unfoldable pub read : String → M Content
unfolding target_of
read p = do
  content ← gets (λ w. content_of (target_of p w.disk))
  or_raise content (failure "OSError")

-- `path.read_text()`: bytes that are no UTF-8 raise another exception than a missing file
unfoldable pub read_text : String → M String
unfolding read
read_text p = do
  content ← read p
  decoded ← gets (λ w. w.host.text_of content)
  or_raise decoded (failure "UnicodeDecodeError")

-- `path.write_text(s)`
unfoldable pub write_text : String → String → M (Unit {0})
write_text p s = do
  content ← gets (λ w. w.host.encode s)
  effect (wrote p (text s)) (put p (file content))

-- Bytes that are no JSON: only those that are UTF-8 raise the runtime's own exception.
abbrev pub no_json : Option String → Exc
no_json none = failure "UnicodeDecodeError"
no_json (some s) = runtime_error "No s'ha pogut llegir"

abbrev pub document : Host → Option Content → Result Json
document h none = err (runtime_error "No s'ha pogut llegir")
document h (some (json v)) = ok v
document h (some (blob n)) = err (no_json (h.text_of (blob n)))

abbrev pub parsed : Result Json → M Fields
parsed (err e) = raise e
parsed (ok v) = or_raise (as_obj v) (runtime_error "invàlid")

-- `load_json`
unfoldable pub load_json : String → M Fields
unfolding target_of
load_json p = do found ← gets (λ w. document w.host (content_of (target_of p w.disk))); parsed found

-- `atomic_json`. The temporary file is not modelled: `os.replace` puts the new file in place whole.
unfoldable pub atomic_json : String → Json → M (Unit {0})
atomic_json p payload = do
  unsafe ← is_symlink p
  raise_if unsafe (runtime_error "Destinació insegura (symlink)")
  effect (wrote p payload) (put p (file (json payload)))

-- `sha256(path)`
unfoldable pub sha256 : String → M String
sha256 p = do content ← read p; gets (λ w. w.host.sha256 content)

-- `path.stat().st_size`
unfoldable pub file_size : String → M ℕ
file_size p = do content ← read p; gets (λ w. w.host.size content)

-- `path.mkdir(parents=True)`: a path that is there raises `FileExistsError`
unfoldable pub make_dir : String → M (Unit {0})
unfolding present
make_dir p = do
  there ← gets (λ w. is_present (present p w.disk))
  raise_if there (failure "FileExistsError")
  effect (made_dir p) (put p dir)

-- `path.mkdir(parents=True, exist_ok=True)`: only a path that is no directory raises
unfoldable pub ensure_dir : String → M (Unit {0})
unfolding present
ensure_dir p = do
  there ← gets (λ w. is_present (present p w.disk))
  directory ← is_dir p
  raise_if (there && not directory) (failure "FileExistsError")
  if there then pure tt else effect (made_dir p) (put p dir)

-- `shutil.copy2(source, target, follow_symlinks=False)`: a symbolic link is copied as a link
unfoldable pub copy : String → String → M (Unit {0})
copy source target = do
  found ← gets (λ w. node_at source w.disk)
  node ← or_raise found (failure "FileNotFoundError")
  effect (copied source target) (put target node)

-- `path.unlink(missing_ok=True)`, `shutil.rmtree(path)`
unfoldable pub remove : String → M (Unit {0})
remove p = effect (removed p) (remove_tree p)

child_name : String → String → Option String
child_name root p = elim (strip_prefix (root <> "/") p) [
  | none ↦ none
  | some name ↦ if is_empty name || has_char b'/' name then none else some name
]

children : String → Disk → List String → List String
children root [] seen = []
children root ((p, n) ∷ d) seen = elim (child_name root p) [
  | none ↦ children root d seen
  | some name ↦
      if member name seen then children root d seen else name ∷ children root d (name ∷ seen)
]

-- `root.iterdir()`: the names in a directory, each once
unfoldable pub iterdir : String → M (List String)
unfolding child_name children
iterdir root = gets (λ w. children root w.disk [])
