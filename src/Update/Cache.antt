-- ===== src/Update/Cache.antt =====
-- `_cache_candidates`: what was installed is kept for a later rollback.
pub mod Present
use xaac_thin_client_os.Base.{Bool, true, false, String, not, str_eq}
use xaac_thin_client_os.Json.{Fields}
use xaac_thin_client_os.Machine.{
  ◌>>=◌, ◌>>◌, M, runtime_error, raise, raise_if, when, for_each, join, exists, is_symlink,
  make_dir, copy, remove, sha256,
}
use xaac_thin_client_os.Update.Policy.{path_setting}
use xaac_thin_client_os.Update.Manifest.{
  Component, manifest_components, safe_relative_filename, package_cache_path,
}

unfoldable pub keep_cached : String → String → Component → Bool → M (Unit {0})
keep_cached source target item true = do
  linked ← is_symlink target
  raise_if linked (runtime_error "Cache de paquets incoherent")
  digest ← sha256 target
  raise_if (not (str_eq digest item.sha256)) (runtime_error "Cache de paquets incoherent")
keep_cached source target item false = do
  copy source target
  digest ← sha256 target
  when (not (str_eq digest item.sha256))
      do remove target; raise (runtime_error "No s'ha pogut preservar al cache")

-- The body of the loop of `_cache_candidates`. `target.parent` is the package's directory, and its
-- `mkdir` has no `exist_ok`.
unfoldable pub cache_candidate : Fields → String → Component → M (Unit {0})
unfolding keep_cached
cache_candidate policy staging item = do
  name ← safe_relative_filename item.filename
  target ← package_cache_path policy item.pkg item.version
  root ← path_setting policy "recovery_point" "package_cache"
  make_dir (join root item.pkg)
  there ← exists target
  keep_cached (join staging name) target item there

-- `_cache_candidates`
unfoldable pub cache_candidates : Fields → String → Fields → M (Unit {0})
cache_candidates policy staging manifest = do
  components ← manifest_components manifest
  for_each components (cache_candidate policy staging)
