-- ===== src/Update/Cache/Present.antt =====
-- What `_cache_candidates` does where the package's directory in the cache is there already.
use Prim.Native.String.append
use xaac_thin_client_os.Base.{
  true, false, String, some, [], ◌∷◌, ◌≡◌, ◌<>◌, str_eq, eq_iff, strip_prefix, arith, is_empty,
  Bool-cases, inl, inr,
}
use xaac_thin_client_os.Json.{Fields}
use xaac_thin_client_os.Machine.{
  World, Node, Disk, node_at, holds_files, is_below, present, is_present, make_dir, join, ok, err,
  failure, ◌>>=◌, pure, gets, raise,
}
use xaac_thin_client_os.Update.Policy.{path_setting}
use xaac_thin_client_os.Update.Manifest.{
  Component, unsafe_filename, unsafe_version, safe_relative_filename, safe_version_path_component,
  package_cache_path,
}
use xaac_thin_client_os.Update.Cache.{cache_candidate}

strip_prefix-append : (s t : String) → strip_prefix s (s <> t) ≡ some t
unfolding strip_prefix
strip_prefix-append String.[] t = rw (append.nil t)
strip_prefix-append (String.◌∷◌ c s) t =
    rw (append.cons c s t) (ground (arith, strip_prefix-append s t))

is_below-join : (root name : String) → is_below root (root <> "/" <> name) ≡ true
is_below-join root name = ground (arith, strip_prefix-append (root <> "/") name)

holds_files-node_at :
    (root name : String) (n : Node) (d : Disk)
    → node_at (root <> "/" <> name) d ≡ some n
    → holds_files root d ≡ true
holds_files-node_at root name n [] h = cc
holds_files-node_at root name n ((q, m) ∷ d) h =
    elim (Bool-cases (str_eq q (root <> "/" <> name))) [
      | inl same ↦ ground (arith, (eq_iff q (root <> "/" <> name)).0 same, is_below-join root name)
      | inr other ↦ ground (arith, other, holds_files-node_at root name n d)
    ]

is_present-holds :
    (p : String) (d : Disk) → holds_files p d ≡ true → is_present (present p d) ≡ true
unfolding present
is_present-holds p d h = ground arith

make_dir_present :
    (p : String) (w : World)
    → holds_files p w.disk ≡ true
    → make_dir p w ≡ (err (failure "FileExistsError"), w)
unfolding make_dir ◌>>=◌ gets raise
make_dir_present p w h = rw (is_present-holds p w.disk h)

-- A cached version stops the next one: where the package's directory in the cache holds any file,
-- such as the .deb of the installed version that a recovery point needs, `_cache_candidates` raises
-- `FileExistsError` at that package and changes nothing, for any safe file name and version.
pub cache_candidate-FileExists :
    (policy : Fields) (staging : String) (item : Component) (root old : String) (n : Node)
    (w : World)
    → path_setting policy "recovery_point" "package_cache" w ≡ (ok root, w)
    → is_empty item.filename ≡ false
    → unsafe_filename item.filename ≡ false
    → unsafe_version item.version ≡ false
    → node_at (join root item.pkg <> "/" <> old) w.disk ≡ some n
    → cache_candidate policy staging item w ≡ (err (failure "FileExistsError"), w)
unfolding cache_candidate safe_relative_filename package_cache_path safe_version_path_component
    ◌>>=◌ pure
cache_candidate-FileExists policy staging item root old n w setting named safe version there = rw (
  named,
  safe,
  setting,
  version,
  setting,
  make_dir_present _ w (holds_files-node_at _ old n w.disk there),
)
