-- ===== src/BaseOs/Sample.antt =====
-- A policy of the base updater and a machine on which one package is to be upgraded.
use xaac_thin_client_os.Machine.Sample.{plain_host}
use xaac_thin_client_os.Base.{
  ℕ, pos, String, List, Option, none, some, [], ◌∷◌, ◌==◌, str_eq, if◌then◌else◌,
}
use xaac_thin_client_os.Json.{Fields, Json, num, text, arr, obj, cons, nil, fields}
use xaac_thin_client_os.Machine.{World, Host, Disk, Content, json, Outcome, completed, file, blob}

abbrev repository : Json
repository = obj (
    fields (
      ("uri", text "https://deb.debian.org/debian")
      ∷ ("suites", arr (cons (text "trixie") nil))
      ∷ ("components", arr (cons (text "main") nil))
      ∷ []))

abbrev rules : Json
rules = obj (
    fields (
      ("minimum_free_bytes", num (pos 5))
      ∷ ("minimum_free_after_download_bytes", num (pos 3))
      ∷ ("maximum_changed_packages", num (pos 5))
      ∷ ("maximum_new_packages", num (pos 1))
      ∷ ("protected_packages", arr (cons (text "xaac-agent") nil))
      ∷ ("reboot_package_prefixes", arr (cons (text "linux-image") nil))
      ∷ []))

abbrev outputs : Json
outputs = obj (
    fields (
      ("state", text "/state")
      ∷ ("audit", text "/audit")
      ∷ ("checkpoint", text "/checkpoint")
      ∷ []))

abbrev pub base_policy : Fields
base_policy = fields (
    ("repositories", arr (cons repository nil))
    ∷ (
      "platform",
      obj (
          fields (
            ("os_id", text "debian")
            ∷ ("debian_major", num (pos 13))
            ∷ ("architecture", text "amd64")
            ∷ [])),
    )
    ∷ ("policy", rules)
    ∷ ("outputs", outputs)
    ∷ (
      "health",
      obj (
          fields (
            ("required_services", arr (cons (text "ssh.service") nil))
            ∷ ("installed_services", arr nil)
            ∷ [])),
    )
    ∷ ("hardware_profile", text "t630")
    ∷ [])

abbrev source_line : String
source_line =
    "deb [signed-by=/usr/share/keyrings/debian-archive-keyring.gpg] https://deb.debian.org/debian trixie main"

abbrev contents : Content → Option String
contents (json v) = none
contents (blob n) = some (
    if n == 10
    then "ID=debian"
    else if n == 11
    then "13.1"
    else if n == 12
    then "quiet"
    else source_line)

abbrev disk : Disk
disk =
    ("/etc/os-release", file (blob 10))
    ∷ ("/etc/debian_version", file (blob 11))
    ∷ ("/proc/cmdline", file (blob 12))
    ∷ ("/etc/apt/sources.list", file (blob 13))
    ∷ ("/usr/share/keyrings/debian-archive-keyring.gpg", file (blob 14))
    ∷ ("/var/lib/dpkg/status", file (blob 15))
    ∷ []

abbrev says : String → Disk → Outcome × Disk
says output d = (completed 0 output "", d)

-- The commands are told apart by their first two words.
abbrev commands : ℕ → List String → Disk → Outcome × Disk
commands n (c ∷ a ∷ rest) d =
    if str_eq a "--print-architecture"
    then says "amd64" d
    else if str_eq a "is-enabled"
    then says "masked" d
    else if str_eq a "-s"
    then says "Inst tool [1] (2 Debian:13 [amd64])" d
    else if str_eq c "/usr/bin/dpkg-query"
    then says "install ok installed\n2" d
    else says "" d
commands n _ d = says "" d

abbrev host : Host
host = record plain_host { exec = commands; text_of = contents }

abbrev pub base_start : World
base_start = record { host = host; time = 0; disk = disk; trace = [] }
