-- ===== src/Update/Sample.antt =====
-- Concrete machines for the tests.
use xaac_thin_client_os.Machine.Sample.{plain_host}
use xaac_thin_client_os.Base.{
  ℕ, pos, Bool, true, false, String, List, [], ◌∷◌, str_eq, if◌then◌else◌,
}
use xaac_thin_client_os.Json.{Json, Fields, bool, num, text, arr, obj, nil, cons, fields}
use xaac_thin_client_os.Machine.{
  World, Host, Disk, file, blob, json, Outcome, completed, remove_tree,
}
use xaac_thin_client_os.Update.Policy.{policy_path}

-- A host on which `dpkg --configure` installs version 2 of the package `app`.
abbrev pub policy : Fields
policy = fields (
    ("schema_version", num (pos 2))
    ∷ ("transaction_id", text "xaac-transactional-update")
    ∷ (
      "recovery_point",
      obj (
          fields (
            ("root", text "/points")
            ∷ ("package_cache", text "/cache")
            ∷ ("configuration_paths", arr nil)
            ∷ ("max_points", num (pos 2))
            ∷ [])),
    )
    ∷ (
      "staging",
      obj (
          fields (
            ("root", text "/staging")
            ∷ ("maximum_bundle_bytes", num (pos 100))
            ∷ ("preserve_on_success", bool true)
            ∷ [])),
    )
    ∷ ("installation", obj (fields (("lock_timeout_seconds", num (pos 9)) ∷ [])))
    ∷ ("health", obj (fields (("timeout_seconds", num (pos 5)) ∷ [])))
    ∷ [])

abbrev pub app : Json
app = obj (
    fields (
      ("package", text "app")
      ∷ ("version", text "2")
      ∷ ("filename", text "app.deb")
      ∷ ("sha256", text "h")
      ∷ []))

abbrev pub manifest : Fields
manifest = fields (
    ("release", obj (fields (("os_version", text "2") ∷ [])))
    ∷ ("components", arr (cons app nil))
    ∷ [])

abbrev pub disk : Disk
disk =
    (policy_path, file (json (obj policy)))
    ∷ ("/manifest", file (json (obj manifest)))
    ∷ ("/manifest.asc", file (blob 0))
    ∷ ("/bundle/app.deb", file (blob 2))
    ∷ ("/cache/app/1.deb", file (blob 1))
    ∷ []

abbrev pub quiet : Disk → Outcome × Disk
quiet d = (completed 0 "" "", d)

abbrev pub version_in : Disk → String
version_in [] = "install ok installed\n1"
version_in ((p, n) ∷ d) = if str_eq p "/installed" then "install ok installed\n2" else version_in d

abbrev pub dpkg : Bool → Disk → Outcome × Disk
dpkg true d = (completed 0 "" "", ("/installed", file (blob 2)) ∷ remove_tree "/cache/app" d)
dpkg false d = quiet d

-- `dpkg --configure` of this host also empties the cache of the package.
abbrev pub exec : ℕ → List String → Disk → Outcome × Disk
exec n (c ∷ a ∷ rest) d =
    if str_eq c "/usr/bin/dpkg-query"
    then (completed 0 (version_in d) "", d)
    else dpkg (str_eq a "--configure") d
exec n _ d = quiet d

-- On the other host `dpkg` leaves the cache as it is, and `--configure` installs what was unpacked.
abbrev pub unpacked : List String → Disk → Disk
unpacked (p ∷ ps) d =
    if str_eq p "/cache/app/1.deb"
    then remove_tree "/installed" d
    else ("/installed", file (blob 2)) ∷ d
unpacked [] d = d

abbrev pub keeping : ℕ → List String → Disk → Outcome × Disk
keeping n (c ∷ a ∷ rest) d =
    if str_eq c "/usr/bin/dpkg-query"
    then (completed 0 (version_in d) "", d)
    else if str_eq a "--unpack"
    then (completed 0 "" "", unpacked rest d)
    else quiet d
keeping n _ d = quiet d

abbrev pub host : Host
host = record plain_host { exec = exec; new_id = λ n. "txid" }

abbrev pub start : World
start = record { host = host; time = 0; disk = disk; trace = [] }
