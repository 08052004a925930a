-- ===== src/Maintenance/Reports/Storage.antt =====
-- `network_report` and `storage_report`
use xaac_thin_client_os.Base.{
  ℕ, zero, suc, Bool, true, false, not, String, Option, none, some, List, [], ◌∷◌, ◌++◌, ◌<>◌, ◌&&◌,
  ◌||◌, map, is_empty, starts_with, contains, strip, lines, decimal, sorted, filter, if◌then◌else◌,
}
use xaac_thin_client_os.Machine.{M, pure, gets, ◌>>=◌, try, traverse, read, exists, iterdir, join}
use xaac_thin_client_os.Maintenance.Runtime.{disk_usage, or_text, shown, unless_missing}
use xaac_thin_client_os.Maintenance.Reports.Status.{active_line, ended, mebibytes}

-- A section of the network report.
unfoldable pub section_lines : String → List String → M (List String)
section_lines title command = do
  content ← shown command
  pure ("" ∷ ("[" <> (title <> "]")) ∷ or_text content "sense dades" ∷ [])

unfoldable pub network_report : M String
unfolding section_lines active_line
network_report = do
  devices ←
      section_lines "Dispositius NetworkManager"
        ("/usr/bin/nmcli" ∷ "-f" ∷ "DEVICE,TYPE,STATE,CONNECTION" ∷ "device" ∷ "status" ∷ [])
  addresses ← section_lines "Adreces" ("/usr/sbin/ip" ∷ "-brief" ∷ "address" ∷ "show" ∷ [])
  routes ← section_lines "Rutes IPv4" ("/usr/sbin/ip" ∷ "-4" ∷ "route" ∷ "show" ∷ [])
  others ← section_lines "Rutes IPv6" ("/usr/sbin/ip" ∷ "-6" ∷ "route" ∷ "show" ∷ [])
  manager ← active_line "NetworkManager" "NetworkManager.service"
  vpn ← active_line "VPN manager" "xaac-vpn-manager.service"
  shell ← active_line "SSH" "ssh.service"
  pure (
      ended (
        "XAAC Thin Client OS — Xarxa" ∷ "===========================" ∷ devices
        ++ (addresses ++ (routes ++ (others ++ "" ∷ "[Serveis]" ∷ manager ∷ vpn ∷ shell ∷ [])))))

-- `_read_optional`
unfoldable pub read_optional : String → M (Option String)
unfolding unless_missing
read_optional path =
    try (read path) (λ content. do s ← gets (λ w. w.host.replaced content); pure (some (strip s)))
      (unless_missing none)

abbrev labelled : String → Option String → List String
labelled label none = []
labelled label (some value) =
    if is_empty value then [] else ("  " <> (label <> (": " <> value))) ∷ []

unfoldable pub device_line : String → (String × String) → M (List String)
unfolding read_optional
device_line device (name, label) = do
  value ← read_optional (join device name)
  pure (labelled label value)

-- The first `n` lines.
abbrev first_lines : ℕ → List String → List String
first_lines zero ls = []
first_lines (suc n) [] = []
first_lines (suc n) (l ∷ ls) = l ∷ first_lines n ls

abbrev smart_lines : String → List String
smart_lines output =
    if is_empty output
    then []
    else "  SMART:" ∷ map (λ l. "    " <> l) (first_lines 20 (lines output))

unfoldable pub smart_output : Bool → String → String → M (List String)
smart_output false tool node = pure []
smart_output true tool node = do output ← shown (tool ∷ "-H" ∷ node ∷ []); pure (smart_lines output)

unfoldable pub smart_report : Option String → String → M (List String)
unfolding smart_output
smart_report none node = pure []
smart_report (some tool) node = do there ← exists node; smart_output there tool node

abbrev concat : List (List String) → List String
concat [] = []
concat (ls ∷ rest) = ls ++ concat rest

unfoldable pub device_lines : String → M (List String)
unfolding device_line smart_report
device_lines name = do
  values ←
      traverse
        (("device/name", "nom")
          ∷ ("device/pre_eol_info", "pre-EOL")
          ∷ ("device/life_time", "vida estimada")
          ∷ [])
        (device_line (join "/sys/block" name))
  tool ← gets (λ w. w.host.which "smartctl")
  smart ← smart_report tool (join "/dev" name)
  pure ((name <> ":") ∷ concat values ++ smart)

-- The devices that are no boot or replay-protected partitions.
abbrev is_device : String → Bool
is_device name = starts_with "mmcblk" name && not (contains "boot" name || contains "rpmb" name)

abbrev or_none : List String → List String
or_none [] = "No s'ha detectat informació eMMC/SMART disponible." ∷ []
or_none (l ∷ ls) = l ∷ ls

unfoldable pub emmc_health_lines : M (List String)
unfolding device_lines
emmc_health_lines = do
  names ← iterdir "/sys/block"
  parts ← traverse (filter is_device (sorted names)) device_lines
  pure (or_none (concat parts))

unfoldable pub storage_report : M String
unfolding emmc_health_lines
storage_report = do
  (total, free, percent) ← disk_usage
  df ← shown ("/usr/bin/df" ∷ "-h" ∷ "/" ∷ [])
  blocks ← shown ("/usr/bin/lsblk" ∷ "-o" ∷ "NAME,TYPE,SIZE,FSTYPE,FSUSE%,MOUNTPOINTS,MODEL" ∷ [])
  devices ← emmc_health_lines
  pure (
      ended (
        "XAAC Thin Client OS — Emmagatzematge"
        ∷ "====================================="
        ∷ ("Arrel: "
            <> (decimal percent
                <> ("% usat; "
                    <> (mebibytes free <> (" MiB lliures / " <> (mebibytes total <> " MiB"))))))
        ∷ ""
        ∷ "[df]"
        ∷ or_text df "sense dades"
        ∷ ""
        ∷ "[Dispositius]"
        ∷ or_text blocks "sense dades"
        ∷ ""
        ∷ "[eMMC / SMART]"
        ∷ devices))
