-- ===== src/Update/Spares.antt =====
-- The same for the calls that have effects on the disk and on processes.
use xaac_thin_client_os.Base.{Bool, true, false, String, List, ◌≡◌, str_eq, ℕ}
use xaac_thin_client_os.Json.{Json, Fields}
use xaac_thin_client_os.Machine.{
  Event, archived, extracted, audited, locked, TarMember, Disk, atomic_json, copy, make_dir,
}
use xaac_thin_client_os.Machine.Keeps.{Keeps, keeps_rules}
use xaac_thin_client_os.Machine.Quiet.{
  Ignores, Ignores-effect, Keeps-atomic_json, Keeps-make_dir, Keeps-copy, Keeps-installed_version,
}
use xaac_thin_client_os.Update.Policy.{state_path, audit_event, acquire}
use xaac_thin_client_os.Update.Manifest.{Component}
use xaac_thin_client_os.Update.Staging.{copy_artifact, copy_verified_bundle}
use xaac_thin_client_os.Update.Point.{
  configuration_members, add_member, archive_configuration, validate_tar_member,
  restore_configuration, save_package, copy_current, create_recovery_point,
}
use xaac_thin_client_os.Update.Quiet.{IsSpared, read_rules}
use xaac_thin_client_os.Update.Names.{recovery_point_path}

module _ {P : List Event → Type 0} where
  Keeps-add_member : (ms : List String) (v : Json) → Keeps P (add_member ms v)
  unfolding add_member
  Keeps-add_member ms v = search read_rules

  Keeps-validate_tar_member : (m : TarMember) → Keeps P (validate_tar_member m)
  unfolding validate_tar_member
  Keeps-validate_tar_member m = search read_rules

  Keeps-configuration_members : (p : Fields) → Keeps P (configuration_members p)
  unfolding configuration_members
  Keeps-configuration_members p = search (read_rules, Keeps-add_member)

module _ {quiet : Event → Bool} {P : List Event → Type 0} (i : Ignores quiet P)
    (s : IsSpared quiet) where
  Keeps-write : (p : String) (v : Json) → str_eq p state_path ≡ false → Keeps P (atomic_json p v)
  Keeps-write p v other = Keeps-atomic_json i p v (s.wrote_lem p v other)

  Keeps-copies : (p q : String) → Keeps P (copy p q)
  Keeps-copies = Keeps-copy i s.usual

  Keeps-makes : (p : String) → Keeps P (make_dir p)
  Keeps-makes = Keeps-make_dir i s.usual

  pub Keeps-audit_event : (b : Bool) (n : String) → Keeps P (audit_event b n)
  unfolding audit_event
  Keeps-audit_event b n = search (keeps_rules, Ignores-effect i (audited n) _ (s.audited_lem n))

  pub Keeps-acquire : Keeps P acquire
  unfolding acquire
  Keeps-acquire = search (keeps_rules, Ignores-effect i locked _ s.locked_lem)

  Keeps-copy_artifact : (b d : String) (n : ℕ) (c : Component) → Keeps P (copy_artifact b d n c)
  unfolding copy_artifact
  Keeps-copy_artifact b d n c = search (read_rules, Keeps-copies) depth 16

  pub Keeps-copy_verified_bundle :
      (p : Fields) (a b c d : String) → Keeps P (copy_verified_bundle p a b c d)
  unfolding copy_verified_bundle
  Keeps-copy_verified_bundle p a b c d =
      search (read_rules, Keeps-copies, Keeps-makes, Keeps-copy_artifact) depth 16

  Keeps-archive_configuration : (p : Fields) (d : String) → Keeps P (archive_configuration p d)
  unfolding archive_configuration
  Keeps-archive_configuration p d =
      search
        (
          read_rules,
          Keeps-configuration_members,
          λ (q : String) (f : Disk → Disk). Ignores-effect i (archived q) f (s.archived_lem q),
        )
        depth 16

  pub Keeps-restore_configuration : (r : String) (m : Fields) → Keeps P (restore_configuration r m)
  unfolding restore_configuration
  Keeps-restore_configuration r m =
      search
        (
          read_rules,
          Keeps-validate_tar_member,
          λ (q : String) (f : Disk → Disk). Ignores-effect i (extracted q) f (s.extracted_lem q),
        )
        depth 16

  Keeps-save_package : (p : Fields) (c : Component) → Keeps P (save_package p c)
  unfolding save_package
  Keeps-save_package p c = search (read_rules, Keeps-installed_version i s.usual) depth 16

  Keeps-copy_current : (r : String) (b : Bool) → Keeps P (copy_current r b)
  unfolding copy_current
  Keeps-copy_current r false = search read_rules
  Keeps-copy_current r true = search (read_rules, Keeps-copies)

  pub Keeps-create_recovery_point :
      (p : Fields) (t : String) (m : Fields) → Keeps P (create_recovery_point p t m)
  unfolding create_recovery_point
  Keeps-create_recovery_point p t m =
      search
        (
          read_rules, Keeps-makes, Keeps-save_package, Keeps-archive_configuration,
          Keeps-copy_current, Keeps-write, recovery_point_path,
        )
        depth 20
