-- ===== src/Update/Staging.antt =====
-- `_copy_verified_bundle`: the bundle goes to a staging directory of its own, and is hashed there.
use xaac_thin_client_os.Base.{
  ℕ, ◌+◌, pos, Bool, String, none, some, ◌<>◌, ◌||◌, ◌&&◌, true, false, not, str_eq, ltb_ℤ,
  strip_prefix,
}
use xaac_thin_client_os.Json.{Fields}
use xaac_thin_client_os.Machine.{
  M, runtime_error, pure, ◌>>=◌, ◌>>◌, raise_if, fold, join, load_json, exists, make_dir, copy,
  resolve, is_symlink, is_file, file_size, sha256,
}
use xaac_thin_client_os.Update.Policy.{path_setting, int_setting}
use xaac_thin_client_os.Update.Manifest.{Component, manifest_components, safe_relative_filename}

pub record Staged : Type 0 where
  pub staging : String
  pub manifest : Fields

-- `source.relative_to(root)` raises
unfoldable pub is_outside : String → String → Bool
is_outside source root =
    not (str_eq source root)
    && (elim (strip_prefix (root <> "/") source) [ none ↦ true | some _ ↦ false ])

unfoldable pub copy_artifact : String → String → ℕ → Component → M ℕ
unfolding is_outside
copy_artifact bundle staging total item = do
  name ← safe_relative_filename item.filename
  source ← resolve (join bundle name)
  root ← resolve bundle
  raise_if (is_outside source root) (runtime_error "Artefacte fora del bundle")
  linked ← is_symlink source
  there ← is_file source
  raise_if (linked || not there) (runtime_error "Artefacte absent o insegur")
  let target = join staging name
  copy source target
  size ← file_size target
  digest ← sha256 target
  raise_if (not (str_eq digest item.sha256))
      (runtime_error "L'artefacte ha canviat després de verificar-lo")
  pure (total + size)

unfoldable pub copy_verified_bundle : Fields → String → String → String → String → M Staged
unfolding copy_artifact
copy_verified_bundle policy manifest_path signature_path bundle txid = do
  manifest ← load_json manifest_path
  components ← manifest_components manifest
  staging_root ← path_setting policy "staging" "root"
  let staging = join staging_root txid
  duplicate ← exists staging
  raise_if duplicate (runtime_error "Staging duplicat")
  make_dir staging
  copy manifest_path (join staging "update-manifest.json")
  copy signature_path (join staging "update-manifest.json.asc")
  total ← fold 0 components (copy_artifact bundle staging)
  maximum ← int_setting policy "staging" "maximum_bundle_bytes"
  raise_if (ltb_ℤ maximum (pos total)) (runtime_error "El bundle supera la mida màxima permesa")
  pure (record { staging = staging; manifest = manifest })
