-- ===== src/Lib.antt =====
-- The runtimes of the XAAC thin client, the programs of assets/runtime that change an installed
-- appliance as root, the loop that restarts its session, the configuration that its image is built
-- from, and what they promise.
--
-- The program's parts and the files that model them:
--
--   assets/runtime/xaac_update_runtime.py, the transactional updater: Update and its children.
--     `apply_update` stages a verified bundle (`_copy_verified_bundle`, Update/Staging), makes a
--     recovery point (`_create_recovery_point`, Update/Point), installs with dpkg (`_install_debs`
--     and `_restart_changed`, Update/Packages), checks (`_health_check`, Update/Health), keeps the
--     packages (`_cache_candidates`, Update/Cache) and confirms (Update/Apply), or rolls back
--     (`_rollback_from_recovery`, Update/Rollback and Update/Undo) and blocks the version
--     (`_block_failed`, Update/Registry). Update/Prune has the retention of recovery points,
--     Update/Manual the rollback by hand and `recover_interrupted`, which runs at boot.
--     Update/Policy, Update/Manifest and Update/Transaction have the files that they share.
--     Update/Sample, Update/Tests and Update/RecoveryTests are concrete machines and runs on them.
--     Update/Crash defines what a crash leaves behind, and Update/Crash/Safety is about the whole.
--
--   assets/runtime/xaac_base_os_update_runtime.py, the updater of the base system: BaseOs and its
--     children. `check_updates` (BaseOs/Check) makes the preflight (BaseOs/Checks), which reads
--     the APT sources (BaseOs/Sources) and holds them against the policy (`validate_sources`,
--     BaseOs/Trust), simulates the upgrade (`parse_plan`, BaseOs/Simulation) and approves it
--     (`validate_plan`, BaseOs/Plan). `apply_update` (BaseOs/Apply) makes a checkpoint, downloads,
--     approves a second simulation, installs and checks. BaseOs/Runtime has the policy, the state
--     file and what the host says of itself; BaseOs/Looks and BaseOs/Quiet what each operation
--     leaves alone. BaseOs/Sample is a concrete machine, BaseOs/Tests and BaseOs/UpgradeTests are
--     runs.
--
--   assets/runtime/xaac_recovery_runtime.py, the recovery environment: Recovery and its children.
--     Recovery/Runtime has the policy, the audit log, the state file and the mode of the boot,
--     Recovery/Report what `status_report` shows, Recovery/Actions `rollback` and
--     `restore_configuration`, which call the transactional updater, `repair_system` and
--     `set_network`, and Recovery/Menu `interactive_menu`, whose input is a list of lines.
--     Recovery/Quiet is about what asks only, Recovery/Refuses about the mode, Recovery/Ready and
--     Recovery/Count about the state file, Recovery/Harmless about the menu; Recovery/Tests are runs.
--
--   assets/runtime/xaac_maintenance_runtime.py, the maintenance: Maintenance and its children.
--     Maintenance/Patterns has the regular expressions, as matchers of their own, and
--     `sanitize_text`; Maintenance/Runtime the policy and what is asked of the machine;
--     Maintenance/Reports `status_report` (here `maintenance_status`), `network_report`,
--     `storage_report`, `services_report` and `logs_report`; Maintenance/Health `health_report`;
--     Maintenance/Cleanup `cleanup`; Maintenance/Diagnostics `diagnostics`, the bundle of all
--     reports. Maintenance/Clean is about sanitized text, Maintenance/Quiet about what asks only,
--     Maintenance/Sanitized about what a bundle writes, Maintenance/Retention about what a cleanup
--     removes, Maintenance/Discarded about the build directory, Maintenance/Worst about the result
--     of the health report; Maintenance/Tests are runs. Letters, digits, blanks and word characters
--     are those of ASCII, the floating-point numbers and the clock are the host's.
--
--   src/xaac_thin_client_os/session_supervisor.py, which writes the supervisor of the kiosk
--     session, a shell script: Session/Restarts has the loop of that script, a round of which
--     starts the client, waits for its end and counts the failure, as a function of what the
--     rounds amount to, and the statuses that it writes. Session/Profile checks the section `supervision` of the profile, as
--     `load_session_supervisor_profile` does, and fills in the settings. Session/Budget,
--     Session/Accepted and Session/Written are about its restarts and its statuses, Session/Tests
--     has runs. The other sections of the profile, the surfaces that it waits for, its heartbeat
--     and its events are left out.
--
--   src/xaac_thin_client_os/configuration, the configuration of the image builder: Configuration and
--     its children. Configuration/Value is what the YAML parser returns, Configuration/Validation a
--     value or the exception of a validation, Configuration/Checks the checks of single values,
--     Configuration/Build `BuildConfig` with its parts, Configuration/Sources `PackageConfig`,
--     `RepositoryConfig` and `load_repositories`, Configuration/Profile `HardwareProfile`, and
--     Configuration/Loader `load_project_configuration`, with the files, the parser and the version
--     as parameters. Configuration/Gives has the rules for what a validation accepts,
--     Configuration/Booleans, Configuration/Texts and Configuration/Trimmed are about single values,
--     Configuration/Sound about what is accepted, Configuration/Unknown about unknown fields,
--     Configuration/Reread about a profile that is written down again; Configuration/Tests has a
--     project. A path is kept as its text, and which value a message names is left out.
--
--   src/xaac_thin_client_os/packages.py, the packages of an image: Packages and its children.
--     Packages/Chain has `load_profile_chain`, which follows `extends` from profile to profile, with
--     fuel for the visits, and Packages/Resolve `resolve_packages`. Packages/Finite and
--     Packages/Fuel are about the end of the visits, Packages/Lineage about the chain,
--     Packages/Members and Packages/Refinement about the packages as a set; Packages/Tests has
--     projects, one of them with a circle of profiles.
--
-- Beneath them, Machine is the appliance as the runtimes see it: Machine/State has the disk, the
-- host and the record of effects, Machine/Sample a host for runs, Machine/Monad a run that may
-- raise, Machine/Files the calls of pathlib, shutil and os, Machine/Commands the commands,
-- Machine/Values the text of a value. Machine/Keeps, Machine/Quiet, Machine/Yields, Machine/Status,
-- Machine/Returns, Machine/Inversion and Machine/Ends are the rules for what a run keeps, what its
-- state file says, what its steps returned and how it ends. Json has the values of json.load, Base
-- the names that all files share.
--
-- The operating system is a parameter, the record Host: commands answer anything and may change any
-- file, and may answer each call in another way; every effect may be refused. Python's exceptions
-- are the values of Exc, and what was done before a raise stays done. A crash is a prefix of the
-- record of effects. What is bounded: a chain of symbolic links is followed forty times, which is
-- where Linux gives up, the visits of profiles have fuel for two more than there are names of
-- profiles that load (Packages/Finite), and the loop that waits for the client makes at most as many rounds as
-- seconds, since each round sleeps for one.
--
-- Left out: permissions and owners of files, their time stamps but for what the host says of them,
-- the directories above a path (only the last part of a path may be a symbolic link), temporary
-- files of atomic_json, what the constant part of a message is filled with, the detail texts of
-- health checks and of audit events, what is printed, the prefix and the checks that the recovery's
-- audit callback adds to the updater's events, the last thousand characters of a reason, and
-- `main`, which parses arguments. The lines of a text end with "\n" and nothing else, a text that
-- is not UTF-8 cannot be read, and how Python prints a list or a dict is the host's. A limit on the time of a command is the host's: a command that exceeds it is refused. The other
-- programs of the repository, the builder of images and its other validators under
-- src/xaac_thin_client_os, are not modelled.
pub mod Base
pub mod BaseOs
pub mod Configuration
pub mod Json
pub mod Machine
pub mod Maintenance
pub mod Packages
pub mod Recovery
pub mod Session
pub mod Update
