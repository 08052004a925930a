-- ===== src/Machine/Commands.antt =====
-- `run` of the runtimes: a command, its outcome, and the checks that several of them share.
use xaac_thin_client_os.Base.{
  ℕ, suc, Bool, String, Option, none, some, List, [], ◌∷◌, ◌==◌, ◌&&◌, str_eq, ◌<>◌, is_empty,
  strip, stripped_lines, not, if◌then◌else◌,
}
use xaac_thin_client_os.Machine.State.{Outcome, refused, completed, ran, Disk}
use xaac_thin_client_os.Machine.Monad.{M, runtime_error, ok, err, pure, ◌>>=◌, ◌>>◌, raise_if}

-- `subprocess.CompletedProcess`
pub record Completed : Type 0 where
  pub returncode : ℕ
  pub stdout : String
  pub stderr : String

abbrev pub answer : Outcome × Disk → List String → M Completed
answer (refused why, d) command w = (
  err (runtime_error "No s'ha pogut executar"),
  record w { time = suc w.time; disk = d; trace = ran command ∷ w.trace },
)
answer (completed code out error, d) command w = (
  ok (record { returncode = code; stdout = out; stderr = error }),
  record w { time = suc w.time; disk = d; trace = ran command ∷ w.trace },
)

-- `run(command)`. The limit on the time is the host's: a command that exceeds it is `refused`.
unfoldable pub run : List String → M Completed
run command w = answer (w.host.exec w.time command w.disk) command w

-- `run(command, check=True)`
unfoldable pub run_checked : List String → M Completed
run_checked command = do
  result ← run command
  raise_if (not (result.returncode == 0)) (runtime_error "Ha fallat")
  pure result

abbrev version_line : List String → Option String
version_line (status ∷ version ∷ []) =
    if str_eq status "install ok installed" then some version else none
version_line _ = none

-- `installed_version`
unfoldable pub installed_version : String → M (Option String)
installed_version pkg = do
  result ← run ("/usr/bin/dpkg-query" ∷ "-W" ∷ "-f=${Status}\n${Version}\n" ∷ pkg ∷ [])
  pure (if result.returncode == 0 then version_line (stripped_lines result.stdout) else none)

unfoldable pub process_running : String → M Bool
process_running pattern = do
  result ← run ("/usr/bin/pgrep" ∷ "-f" ∷ pattern ∷ [])
  pure (result.returncode == 0)

unfoldable pub unit_exists : String → M Bool
unit_exists unit = do
  result ← run ("/usr/bin/systemctl" ∷ "show" ∷ "-p" ∷ "LoadState" ∷ "--value" ∷ unit ∷ [])
  pure (result.returncode == 0 && str_eq (strip result.stdout) "loaded")

unfoldable pub unit_active : String → M Bool
unit_active unit = do
  result ← run ("/usr/bin/systemctl" ∷ "is-active" ∷ "--quiet" ∷ unit ∷ [])
  pure (result.returncode == 0)

-- `dpkg --audit`, with whether it found nothing
unfoldable pub dpkg_audit : M Bool
dpkg_audit = do
  result ← run ("/usr/bin/dpkg" ∷ "--audit" ∷ [])
  pure (result.returncode == 0 && is_empty (strip (result.stdout <> result.stderr)))

unfoldable pub apt_check : M Bool
apt_check = do
  result ← run ("/usr/bin/apt-get" ∷ "-o" ∷ "Debug::NoLocking=true" ∷ "check" ∷ [])
  pure (result.returncode == 0)
