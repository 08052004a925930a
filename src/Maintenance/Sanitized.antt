-- ===== src/Maintenance/Sanitized.antt =====
-- What a bundle of diagnostics writes.
use xaac_thin_client_os.Base.{
  Bool, true, false, String, List, [], ◌∷◌, ◌≡◌, refl, arith, ◌⊎◌, inl, inr,
}
use xaac_thin_client_os.Json.{Json, Fields, text, obj}
use xaac_thin_client_os.Machine.{
  World, Event, wrote, made_dir, removed, archived, Disk, M, run, write_text, ◌>>◌, for_each, join,
  effect, remove, ensure_dir,
}
use xaac_thin_client_os.Machine.Keeps.{Keeps, Keeps-effect, Keeps-bind, Keeps-for_each, keeps_rules}
use xaac_thin_client_os.Machine.Quiet.{
  Ignores, Ignores-run, Ignores-effect, Keeps-atomic_json, look_rules,
}
use xaac_thin_client_os.Update.Quiet.{Keeps-setting, Keeps-int_setting}
use xaac_thin_client_os.Maintenance.Patterns.{sanitize_text}
use xaac_thin_client_os.Maintenance.Clean.{IsClean, sanitize_text-IsClean}
use xaac_thin_client_os.Maintenance.Quiet.{
  Keeps-unless_missing, Keeps-optional_state, Keeps-release_names, Keeps-package_version_text,
  Keeps-maintenance_status, Keeps-network_report, Keeps-storage_report, Keeps-services_report,
  Keeps-logs_report, Keeps-health_report,
}
use xaac_thin_client_os.Maintenance.Reports.{
  maintenance_status, network_report, storage_report, services_report, logs_report,
}
use xaac_thin_client_os.Maintenance.Health.{health_report}
use xaac_thin_client_os.Maintenance.Cleanup.{diagnostics_root, record_time}
use xaac_thin_client_os.Maintenance.Diagnostics.{
  write_report_of, update_state_names, write_report, write_json_report, state_file_text,
  safe_update_state_text, write_update_state, component_version, diagnostic_manifest,
  write_other_reports, write_reports, size_if, total_size, check_member, archive_members,
  refuse_large, bundle, discard, discarding, make_build_dir, diagnostics,
}

abbrev IsCleanJson : Json → Type 0
IsCleanJson (text s) = IsClean s
IsCleanJson v = Unit

-- The manifest of a bundle in some directory.
abbrev pub IsManifest : String → Type 0
IsManifest path = (build : String) × (path ≡ join build "manifest.json")

-- Whether the effect writes no text that has a sensitive line, but for a manifest.
abbrev pub IsCleanEvent : Event → Type 0
IsCleanEvent (wrote path v) = IsManifest path ⊎ IsCleanJson v
IsCleanEvent e = Unit

abbrev pub AreClean : List Event → Type 0
AreClean [] = Unit
AreClean (e ∷ t) = IsCleanEvent e × AreClean t

abbrev no_text : Json → Bool
no_text (text s) = false
no_text v = true

abbrev writes_no_text : Event → Bool
writes_no_text (wrote path v) = no_text v
writes_no_text e = true

no_text-IsCleanJson : (v : Json) → no_text v ≡ true → IsCleanJson v
no_text-IsCleanJson (text s) q = absurd (ground (arith, q))
no_text-IsCleanJson _ q = tt

writes_no_text-IsCleanEvent : (e : Event) → writes_no_text e ≡ true → IsCleanEvent e
writes_no_text-IsCleanEvent (wrote path v) q = inr (no_text-IsCleanJson v q)
writes_no_text-IsCleanEvent _ q = tt

Ignores-AreClean : Ignores writes_no_text AreClean
Ignores-AreClean = record { past = λ e q t h. (writes_no_text-IsCleanEvent e q, h) }

runs : (c : List String) → Keeps AreClean (run c)
runs c = Ignores-run Ignores-AreClean c refl

Keeps-write_report : (p s : String) → Keeps AreClean (write_report p s)
unfolding write_report write_text
Keeps-write_report p s = search (
  look_rules,
  λ (f : Disk → Disk).
      Keeps-effect {P = AreClean} (wrote p (text (sanitize_text s))) f
        (λ t h. (inr (sanitize_text-IsClean s), h)),
)

Keeps-write_json_report :
    (build : String) (fs : Fields)
    → Keeps AreClean (write_json_report (join build "manifest.json") fs)
unfolding write_json_report write_text
Keeps-write_json_report build fs =
    search
      (
        look_rules,
        λ (s : String) (f : Disk → Disk).
            Keeps-effect {P = AreClean} (wrote (join build "manifest.json") (text s)) f
              (λ t h. (inl (build, refl), h)),
      )
      depth 14

Keeps-state_file_text : (p : String) (b : Bool) → Keeps AreClean (state_file_text p b)
unfolding state_file_text
Keeps-state_file_text p false = search keeps_rules
Keeps-state_file_text p true = search (look_rules, Keeps-unless_missing)

Keeps-write_update_state : (build name : String) → Keeps AreClean (write_update_state build name)
unfolding write_update_state safe_update_state_text
Keeps-write_update_state build name = search (look_rules, Keeps-state_file_text, Keeps-write_report)

Keeps-component_version : (n : String) → Keeps AreClean (component_version n)
unfolding component_version
Keeps-component_version n = search (keeps_rules, Keeps-package_version_text runs)

Keeps-diagnostic_manifest : (p : Fields) → Keeps AreClean (diagnostic_manifest p)
unfolding diagnostic_manifest
Keeps-diagnostic_manifest p =
    search (look_rules, Keeps-release_names, Keeps-component_version, Keeps-setting) depth 20

after :
    {A : Type 0} (m : M (Unit {0})) (n : M A)
    → Keeps AreClean m
    → Keeps AreClean n
    → Keeps AreClean (m >> n)
after m n k l = Keeps-bind m _ k (λ _. l)

Keeps-write_report_of :
    (p : String) (m : M String) → Keeps AreClean m → Keeps AreClean (write_report_of p m)
Keeps-write_report_of p m k = Keeps-bind m _ k (λ s. Keeps-write_report p s)

Keeps-update_states :
    (build : String) → Keeps AreClean (for_each update_state_names (write_update_state build))
Keeps-update_states build =
    Keeps-for_each update_state_names _ (λ name. Keeps-write_update_state build name)

Keeps-write_other_reports :
    (p : Fields) (build : String) → Keeps AreClean (write_other_reports p build)
unfolding write_other_reports
Keeps-write_other_reports p build =
    let network =
      Keeps-write_report_of (join build "network.txt") network_report (Keeps-network_report runs) in
    let storage =
      Keeps-write_report_of (join build "storage.txt") storage_report (Keeps-storage_report runs) in
    let services =
      Keeps-write_report_of (join build "services.txt") (services_report p)
        (Keeps-services_report runs p) in
    let logs =
      Keeps-write_report_of (join build "logs.txt") (logs_report p) (Keeps-logs_report runs p) in
    after _ _ network (
      after _ _ storage (
        after _ _ services (
          after _ _ logs (
            Keeps-bind _ _ (runs _)
              (λ d. after _ _ (Keeps-write_report _ _) (Keeps-update_states build))))))

Keeps-write_reports : (p : Fields) (build : String) → Keeps AreClean (write_reports p build)
unfolding write_reports
Keeps-write_reports p build =
    let status =
      Keeps-write_report_of (join build "status.txt") maintenance_status
        (Keeps-maintenance_status runs) in
    after _ _ status (
      Keeps-bind (health_report p) _ (Keeps-health_report runs p) (λ h.
        after _ _ (Keeps-write_report _ _) (
          after _ _ (Keeps-write_other_reports p build)
            (Keeps-bind _ _ (Keeps-diagnostic_manifest p) (λ m. Keeps-write_json_report build _)))))

Keeps-size_if : (b : Bool) (p : String) → Keeps AreClean (size_if b p)
unfolding size_if
Keeps-size_if false p = search look_rules
Keeps-size_if true p = search look_rules

Keeps-total_size : (build : String) (names : List String) → Keeps AreClean (total_size build names)
unfolding total_size
Keeps-total_size build [] = search look_rules
Keeps-total_size build (name ∷ rest) =
    search (look_rules, Keeps-size_if, λ (b : String). Keeps-total_size b rest) depth 20

Keeps-check_member : (build name : String) → Keeps AreClean (check_member build name)
unfolding check_member
Keeps-check_member build name = search look_rules

quiet_effect : (e : Event) (f : Disk → Disk) → writes_no_text e ≡ true → Keeps AreClean (effect e f)
quiet_effect = Ignores-effect Ignores-AreClean

Keeps-archive_members : (build p : String) → Keeps AreClean (archive_members build p)
unfolding archive_members
Keeps-archive_members build p =
    search (look_rules, Keeps-check_member, λ (f : Disk → Disk). quiet_effect (archived p) f refl)
      depth 20

Keeps-remove : (p : String) → Keeps AreClean (remove p)
unfolding remove
Keeps-remove p = quiet_effect (removed p) _ refl

Keeps-refuse_large : (b : Bool) (p : String) → Keeps AreClean (refuse_large b p)
unfolding refuse_large
Keeps-refuse_large false p = search keeps_rules
Keeps-refuse_large true p = search (keeps_rules, Keeps-remove)

Keeps-record_time : (kvs : List (String × Json)) (k : String) → Keeps AreClean (record_time kvs k)
unfolding record_time
Keeps-record_time kvs k = search (
  look_rules,
  Keeps-optional_state,
  λ (p : String) (fs : Fields). Keeps-atomic_json Ignores-AreClean p (obj fs) refl,
)

Keeps-bundle :
    (p : Fields) (build destination : String) → Keeps AreClean (bundle p build destination)
unfolding bundle
Keeps-bundle p build destination =
    search
      (
        look_rules, Keeps-write_reports, Keeps-int_setting, Keeps-total_size, Keeps-archive_members,
        Keeps-refuse_large, Keeps-record_time,
      )
      depth 30

Keeps-discarding :
    {A : Type 0} (build : String) (m : M A) → Keeps AreClean m → Keeps AreClean (discarding build m)
unfolding discarding discard
Keeps-discarding build m k = search (keeps_rules, Keeps-remove)

Keeps-ensure_root : Keeps AreClean (ensure_dir diagnostics_root)
unfolding ensure_dir
Keeps-ensure_root = search (look_rules, quiet_effect (made_dir diagnostics_root) _ refl)

Keeps-make_build_dir : Keeps AreClean make_build_dir
unfolding make_build_dir
Keeps-make_build_dir =
    search (keeps_rules, λ (p : String) (f : Disk → Disk). quiet_effect (made_dir p) f refl)

Keeps-diagnostics : (p : Fields) → Keeps AreClean (diagnostics p)
unfolding diagnostics
Keeps-diagnostics p =
    search (look_rules, Keeps-ensure_root, Keeps-make_build_dir, Keeps-bundle, Keeps-discarding)
      depth 20

-- However `diagnostics` ends, and whatever the host answers: where no text written before it had a
-- sensitive line, but for the text of a `manifest.json`, none does after it. So every report that it
-- writes is sanitized, except the manifest; the state file, which is no text here but a JSON value, is
-- not looked at.
pub diagnostics-AreClean :
    (policy : Fields) (w : World) → AreClean w.trace → AreClean (diagnostics policy w).1.trace
diagnostics-AreClean policy w h = (Keeps-diagnostics policy).at w h
