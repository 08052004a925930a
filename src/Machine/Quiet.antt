-- ===== src/Machine/Quiet.antt =====
-- The calls that leave a property of the effects alone because all their effects are of a kind
-- that the property does not look at.
use xaac_thin_client_os.Base.{Bool, true, String, List, [], ◌∷◌, ◌≡◌}
use xaac_thin_client_os.Json.{Json}
use xaac_thin_client_os.Machine.State.{Event, ran, wrote, made_dir, copied, removed, Disk}
use xaac_thin_client_os.Machine.Monad.{effect, Result, ok, err}
use xaac_thin_client_os.Machine.Values.{str_value}
use xaac_thin_client_os.Machine.Files.{
  is_file, is_dir, is_symlink, exists, resolve, read, read_text, load_json, parsed, atomic_json,
  sha256, file_size, make_dir, ensure_dir, copy, remove, iterdir,
}
use xaac_thin_client_os.Machine.Commands.{
  run, run_checked, installed_version, process_running, unit_exists, unit_active, dpkg_audit,
  apt_check,
}
use xaac_thin_client_os.Machine.Keeps.{Keeps, Keeps-run, Keeps-effect, keeps_rules}

-- `P` is not changed by an effect of the kind `quiet`.
pub record Ignores (quiet : Event → Bool) (P : List Event → Type 0) : Type 0 where
  pub past : (e : Event) → quiet e ≡ true → (t : List Event) → P t → P (e ∷ t)

module _ {quiet : Event → Bool} {P : List Event → Type 0} (i : Ignores quiet P) where
  pub Ignores-run : (c : List String) → quiet (ran c) ≡ true → Keeps P (run c)
  Ignores-run c q = Keeps-run c (i.past (ran c) q)

  pub Ignores-effect : (e : Event) (f : Disk → Disk) → quiet e ≡ true → Keeps P (effect e f)
  Ignores-effect e f q = Keeps-effect e f (i.past e q)

  pub Ignores-run_checked : (c : List String) → quiet (ran c) ≡ true → Keeps P (run_checked c)
  unfolding run_checked
  Ignores-run_checked c q = search (keeps_rules, Ignores-run)

module _ {P : List Event → Type 0} where
  pub Keeps-is_file : (p : String) → Keeps P (is_file p)
  unfolding is_file
  Keeps-is_file p = search keeps_rules

  pub Keeps-is_dir : (p : String) → Keeps P (is_dir p)
  unfolding is_dir
  Keeps-is_dir p = search keeps_rules

  pub Keeps-is_symlink : (p : String) → Keeps P (is_symlink p)
  unfolding is_symlink
  Keeps-is_symlink p = search keeps_rules

  pub Keeps-exists : (p : String) → Keeps P (exists p)
  unfolding exists
  Keeps-exists p = search keeps_rules

  pub Keeps-resolve : (p : String) → Keeps P (resolve p)
  unfolding resolve
  Keeps-resolve p = search keeps_rules

  pub Keeps-read : (p : String) → Keeps P (read p)
  unfolding read
  Keeps-read p = search keeps_rules

  pub Keeps-read_text : (p : String) → Keeps P (read_text p)
  unfolding read_text
  Keeps-read_text p = search (keeps_rules, Keeps-read)

  Keeps-parsed : (r : Result Json) → Keeps P (parsed r)
  Keeps-parsed (err e) = search keeps_rules
  Keeps-parsed (ok v) = search keeps_rules

  pub Keeps-load_json : (p : String) → Keeps P (load_json p)
  unfolding load_json
  Keeps-load_json p = search (keeps_rules, Keeps-parsed)

  pub Keeps-sha256 : (p : String) → Keeps P (sha256 p)
  unfolding sha256
  Keeps-sha256 p = search (keeps_rules, Keeps-read)

  pub Keeps-file_size : (p : String) → Keeps P (file_size p)
  unfolding file_size
  Keeps-file_size p = search (keeps_rules, Keeps-read)

  pub Keeps-iterdir : (p : String) → Keeps P (iterdir p)
  unfolding iterdir
  Keeps-iterdir p = search keeps_rules

  pub Keeps-str_value : (v : Json) → Keeps P (str_value v)
  unfolding str_value
  Keeps-str_value v = search keeps_rules

pub ruleset look_rules = (
  keeps_rules, Keeps-is_file, Keeps-is_dir, Keeps-is_symlink, Keeps-exists, Keeps-resolve,
  Keeps-read, Keeps-read_text, Keeps-load_json, Keeps-sha256, Keeps-file_size, Keeps-iterdir,
)

-- A kind of effect that takes in what the shared helpers of the runtimes do, but for the writing
-- of JSON files.
pub record IsUsual (quiet : Event → Bool) : Type 0 where
  pub made_dir_lem : (p : String) → quiet (made_dir p) ≡ true
  pub copied_lem : (p q : String) → quiet (copied p q) ≡ true
  pub removed_lem : (p : String) → quiet (removed p) ≡ true
  pub query_lem :
      (c : String) (cs : List String) → quiet (ran ("/usr/bin/dpkg-query" ∷ c ∷ cs)) ≡ true
  pub pgrep_lem : (c : String) (cs : List String) → quiet (ran ("/usr/bin/pgrep" ∷ c ∷ cs)) ≡ true
  pub systemctl_lem :
      (c : String) (cs : List String) → quiet (ran ("/usr/bin/systemctl" ∷ c ∷ cs)) ≡ true
  pub audit_lem : quiet (ran ("/usr/bin/dpkg" ∷ "--audit" ∷ [])) ≡ true
  pub check_lem :
      quiet (ran ("/usr/bin/apt-get" ∷ "-o" ∷ "Debug::NoLocking=true" ∷ "check" ∷ [])) ≡ true

module _ {quiet : Event → Bool} {P : List Event → Type 0} (i : Ignores quiet P) where
  pub Keeps-atomic_json :
      (p : String) (v : Json) → quiet (wrote p v) ≡ true → Keeps P (atomic_json p v)
  unfolding atomic_json
  Keeps-atomic_json p v q = search (look_rules, Ignores-effect i _ _ q)

module _ {quiet : Event → Bool} {P : List Event → Type 0} (i : Ignores quiet P)
    (u : IsUsual quiet) where
  pub Keeps-make_dir : (p : String) → Keeps P (make_dir p)
  unfolding make_dir
  Keeps-make_dir p = search (look_rules, Ignores-effect i (made_dir p) _ (u.made_dir_lem p))

  pub Keeps-ensure_dir : (p : String) → Keeps P (ensure_dir p)
  unfolding ensure_dir
  Keeps-ensure_dir p = search (look_rules, Ignores-effect i (made_dir p) _ (u.made_dir_lem p))

  pub Keeps-copy : (p q : String) → Keeps P (copy p q)
  unfolding copy
  Keeps-copy p q =
      search (look_rules, λ (f : Disk → Disk). Ignores-effect i (copied p q) f (u.copied_lem p q))

  pub Keeps-remove : (p : String) → Keeps P (remove p)
  unfolding remove
  Keeps-remove p = Ignores-effect i (removed p) _ (u.removed_lem p)

  pub Keeps-installed_version : (p : String) → Keeps P (installed_version p)
  unfolding installed_version
  Keeps-installed_version p = search (keeps_rules, Ignores-run i _ (u.query_lem _ _))

  pub Keeps-process_running : (p : String) → Keeps P (process_running p)
  unfolding process_running
  Keeps-process_running p = search (keeps_rules, Ignores-run i _ (u.pgrep_lem _ _))

  pub Keeps-unit_exists : (p : String) → Keeps P (unit_exists p)
  unfolding unit_exists
  Keeps-unit_exists p = search (keeps_rules, Ignores-run i _ (u.systemctl_lem _ _))

  pub Keeps-unit_active : (p : String) → Keeps P (unit_active p)
  unfolding unit_active
  Keeps-unit_active p = search (keeps_rules, Ignores-run i _ (u.systemctl_lem _ _))

  pub Keeps-dpkg_audit : Keeps P dpkg_audit
  unfolding dpkg_audit
  Keeps-dpkg_audit = search (keeps_rules, Ignores-run i _ u.audit_lem)

  pub Keeps-apt_check : Keeps P apt_check
  unfolding apt_check
  Keeps-apt_check = search (keeps_rules, Ignores-run i _ u.check_lem)
