-- ===== src/Update/Point.antt =====
-- The recovery point: the archive of the configuration, `_create_recovery_point`, and the restore.
use xaac_thin_client_os.Base.{
  Bool, true, false, String, List, [], ◌∷◌, ◌<>◌, ◌||◌, not, starts_char, member, pos, ◌++◌,
  is_char, if◌then◌else◌,
}
use xaac_thin_client_os.Json.{
  Json, Fields, Items, num, text, arr, obj, nil, cons, fields, texts, get, lookup, as_list, as_text,
  json_eq,
}
use xaac_thin_client_os.Machine.{
  archived, extracted, TarMember, MemberKind, symbolic_link, hard_link, character_device,
  block_device, fifo, file, M, runtime_error, failure, pure, gets, or_raise, ◌>>=◌, ◌>>◌, raise_if,
  when, effect, fresh, for_each, traverse, fold, join, parts, put, exists, is_symlink, is_file,
  read, sha256, make_dir, copy, atomic_json, installed_version,
}
use xaac_thin_client_os.Update.Policy.{setting, path_setting, current_release_path}
use xaac_thin_client_os.Update.Manifest.{
  Component, manifest_components, package_cache_path, target_os_version,
}

-- A package of the recovery point, as `recovery-point.json` lists it.
pub record Saved : Type 0 where
  pub pkg : String
  pub version : String
  pub deb : String
  pub sha256 : String

abbrev saved_json : Saved → Json
saved_json s = obj (
    fields (
      ("package", text s.pkg)
      ∷ ("version", text s.version)
      ∷ ("deb", text s.deb)
      ∷ ("sha256", text s.sha256)
      ∷ []))

abbrev pub saved_items : List Saved → Items
saved_items [] = nil
saved_items (s ∷ ss) = cons (saved_json s) (saved_items ss)

-- `value.lstrip("/")`
strip_slashes : String → String
strip_slashes String.[] = String.[]
strip_slashes (String.◌∷◌ c s) =
    let rest = strip_slashes s in if is_char b'/' c then rest else String.◌∷◌ c s

unsafe_path : String → Bool
unsafe_path value = not (starts_char b'/' value) || member ".." (parts value)

unfoldable pub add_member : List String → Json → M (List String)
unfolding unsafe_path strip_slashes
add_member members value = do
  path ← or_raise (as_text value) (runtime_error "Ruta de configuració insegura")
  raise_if (unsafe_path path) (runtime_error "Ruta de configuració insegura")
  there ← exists path
  linked ← is_symlink path
  pure (if there || linked then members ++ strip_slashes path ∷ [] else members)

-- `_configuration_members`
unfoldable pub configuration_members : Fields → M (List String)
unfolding add_member
configuration_members policy = do
  value ← setting policy "recovery_point" "configuration_paths"
  paths ← or_raise (as_list value) (failure "TypeError")
  fold [] paths add_member

-- `_archive_configuration`
unfoldable pub archive_configuration : Fields → String → M Json
unfolding configuration_members
archive_configuration policy destination = do
  members ← configuration_members policy
  let archive = join destination "configuration.tar"
  packed ← gets (λ w. w.host.pack members w.disk)
  effect (archived archive) (put archive (file packed))
  digest ← sha256 archive
  pure (
      obj (
        fields (
          ("archive", text "configuration.tar")
          ∷ ("sha256", text digest)
          ∷ ("members", texts members)
          ∷ [])))

is_absolute : String → Bool
is_absolute s = starts_char b'/' s

is_special : MemberKind → Bool
is_special character_device = true
is_special block_device = true
is_special fifo = true
is_special _ = false

is_link_member : MemberKind → Bool
is_link_member symbolic_link = true
is_link_member hard_link = true
is_link_member _ = false

-- `_validate_tar_member`
unfoldable pub validate_tar_member : TarMember → M (Unit {0})
unfolding is_absolute is_special is_link_member
validate_tar_member m = do
  raise_if (is_absolute m.name || member ".." (parts m.name))
      (runtime_error "Entrada insegura al backup")
  raise_if (is_special m.kind) (runtime_error "Tipus especial no permès al backup")
  when (is_link_member m.kind) (
      raise_if (is_absolute m.linkname || member ".." (parts m.linkname))
        (runtime_error "Enllaç insegur al backup"))

-- `str(metadata["archive"])`, for a text
unfoldable pub restore_configuration : String → Fields → M (Unit {0})
unfolding validate_tar_member
restore_configuration recovery metadata = do
  value ← or_raise (lookup "archive" metadata) (failure "KeyError")
  name ← or_raise (as_text value) (runtime_error "Backup de configuració absent o corrupte")
  let archive = join recovery name
  there ← is_file archive
  raise_if (not there) (runtime_error "Backup de configuració absent o corrupte")
  digest ← sha256 archive
  raise_if (not (json_eq (text digest) (get "sha256" metadata)))
      (runtime_error "Backup de configuració absent o corrupte")
  content ← read archive
  members ← gets (λ w. w.host.members content)
  for_each members validate_tar_member
  host ← gets (λ w. w.host)
  effect (extracted archive) (host.unpack content)

-- The loop of `_create_recovery_point`, for one component.
unfoldable pub save_package : Fields → Component → M Saved
save_package policy item = do
  found ← installed_version item.pkg
  version ← or_raise found (runtime_error "No es pot recuperar: no està instal·lat")
  cached ← package_cache_path policy item.pkg version
  there ← is_file cached
  linked ← is_symlink cached
  raise_if (not there || linked) (runtime_error "No existeix el .deb de rollback")
  digest ← sha256 cached
  pure (record { pkg = item.pkg; version = version; deb = cached; sha256 = digest })

unfoldable pub copy_current : String → Bool → M (List (String × Json))
copy_current recovery false = pure []
copy_current recovery true = do
  let current_copy = join recovery "current-release.json"
  copy current_release_path current_copy
  digest ← sha256 current_copy
  pure (
      (
        "current_release",
        obj (fields (("file", text "current-release.json") ∷ ("sha256", text digest) ∷ [])),
      )
      ∷ [])

pub record Point : Type 0 where
  pub recovery : String
  pub packages : List Saved

unfoldable pub create_recovery_point : Fields → String → Fields → M Point
unfolding archive_configuration save_package copy_current
create_recovery_point policy txid manifest = do
  root ← path_setting policy "recovery_point" "root"
  let recovery = join root txid
  make_dir recovery
  components ← manifest_components manifest
  old_packages ← traverse components (save_package policy)
  config ← archive_configuration policy recovery
  created ← fresh (λ h. h.now)
  target ← target_os_version manifest
  there ← is_file current_release_path
  current ← copy_current recovery there
  atomic_json (recovery <> "/recovery-point.json") (
      obj (
        fields (
          ("schema_version", num (pos 1))
          ∷ ("transaction_id", text txid)
          ∷ ("created_at", text created)
          ∷ ("target_os_version", target)
          ∷ ("packages", arr (saved_items old_packages))
          ∷ ("configuration", config)
          ∷ current)))
  pure (record { recovery = recovery; packages = old_packages })
