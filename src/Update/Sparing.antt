-- ===== src/Update/Sparing.antt =====
-- The same for the services, the health check, the registry, the cache and the prune, and for the
-- rollback where changes of packages are ignored too.
use xaac_thin_client_os.Base.{
  Bool, true, false, String, Option, none, some, List, [], ◌∷◌, ◌≡◌, refl, ℕ, zero, suc, ℤ,
}
use xaac_thin_client_os.Json.{Json, Fields, null, bool, num, text, arr, obj}
use xaac_thin_client_os.Machine.{Event, ran, M, dpkg_audit, apt_check}
use xaac_thin_client_os.Machine.Keeps.{
  Keeps, keeps_rules, Keeps-bind, Keeps-pure, Keeps-ask, Keeps-elim,
}
use xaac_thin_client_os.Machine.Quiet.{
  Keeps-ensure_dir, Ignores, Ignores-run, Ignores-run_checked, Keeps-atomic_json, Keeps-make_dir,
  Keeps-copy, Keeps-remove, Keeps-installed_version, Keeps-process_running, Keeps-unit_exists,
  Keeps-str_value, Keeps-unit_active, Keeps-dpkg_audit, Keeps-apt_check,
}
use xaac_thin_client_os.Update.Policy.{blocked_path, rollback_state_path}
use xaac_thin_client_os.Update.Manifest.{Component}
use xaac_thin_client_os.Update.Packages.{
  Before, service_active, snapshot_runtime_state, restart_service, stop_client, restart_changed,
  install_debs,
}
use xaac_thin_client_os.Update.Health.{
  Verdict, check_package, check_all, check_path, check_executable, executable_of, check_service,
  wait_for_client, check_session, health_check,
}
use xaac_thin_client_os.Update.Registry.{
  read_registry, blocked_registry, packages_of, same_packages, matches, any_entry, is_blocked,
  block_failed, Pair,
}
use xaac_thin_client_os.Update.Prune.{
  real_dirs, prune_below, prune_recovery_points, with_metadata, first_point, latest_recovery_point,
}
use xaac_thin_client_os.Update.Rollback.{
  Restore, verified_deb, verify_debs, copy_if, restore_current, rollback_from_recovery,
}
use xaac_thin_client_os.Update.Cache.{keep_cached, cache_candidate, cache_candidates}
use xaac_thin_client_os.Update.Quiet.{IsSpared, read_rules}
use xaac_thin_client_os.Update.Spares.{Keeps-restore_configuration}

module _ {P : List Event → Type 0} where
  Keeps-read_registry : (b : Bool) → Keeps P (read_registry b)
  unfolding read_registry
  Keeps-read_registry false = search read_rules
  Keeps-read_registry true = search read_rules

  Keeps-blocked_registry : Keeps P blocked_registry
  unfolding blocked_registry
  Keeps-blocked_registry = search (read_rules, Keeps-read_registry)

  Keeps-packages_of : (v : Option Json) → Keeps P (packages_of v)
  unfolding packages_of
  Keeps-packages_of none = search read_rules
  Keeps-packages_of (some v) = search read_rules

  Keeps-same_packages : (b : Bool) (w : List Pair) (f : Fields) → Keeps P (same_packages b w f)
  unfolding same_packages
  Keeps-same_packages false w f = search keeps_rules
  Keeps-same_packages true w f = search (keeps_rules, Keeps-packages_of)

  Keeps-matches : (t : Json) (w : List Pair) (f : Fields) → Keeps P (matches t w f)
  unfolding matches
  Keeps-matches t w f = Keeps-same_packages _ w f

  Keeps-any_entry : (t : Json) (w : List Pair) (vs : List Json) → Keeps P (any_entry t w vs)
  unfolding any_entry
  Keeps-any_entry t w [] = search read_rules
  Keeps-any_entry t w (obj f ∷ vs) =
      Keeps-bind _ _ (Keeps-matches t w f)
        (λ b. Keeps-elim b _ _ (Keeps-pure true) (Keeps-any_entry t w vs))
  Keeps-any_entry t w (null ∷ vs) = Keeps-any_entry t w vs
  Keeps-any_entry t w (bool b ∷ vs) = Keeps-any_entry t w vs
  Keeps-any_entry t w (num n ∷ vs) = Keeps-any_entry t w vs
  Keeps-any_entry t w (text x ∷ vs) = Keeps-any_entry t w vs
  Keeps-any_entry t w (arr xs ∷ vs) = Keeps-any_entry t w vs

  pub Keeps-is_blocked : (m : Fields) → Keeps P (is_blocked m)
  unfolding is_blocked
  Keeps-is_blocked m = search (read_rules, Keeps-blocked_registry, Keeps-any_entry)

  Keeps-real_dirs : (r : String) (ns : List String) → Keeps P (real_dirs r ns)
  unfolding real_dirs
  Keeps-real_dirs r [] = search read_rules
  Keeps-real_dirs r (n ∷ ns) = search (read_rules, λ (q : String). Keeps-real_dirs q ns)

  Keeps-with_metadata : (r : String) (ns : List String) → Keeps P (with_metadata r ns)
  unfolding with_metadata
  Keeps-with_metadata r [] = search read_rules
  Keeps-with_metadata r (n ∷ ns) = search (read_rules, λ (q : String). Keeps-with_metadata q ns)

  Keeps-first_point : (r : String) (ns : List String) → Keeps P (first_point r ns)
  unfolding first_point
  Keeps-first_point r [] = search read_rules
  Keeps-first_point r (n ∷ ns) = search read_rules

  pub Keeps-latest_recovery_point : (p : Fields) → Keeps P (latest_recovery_point p)
  unfolding latest_recovery_point
  Keeps-latest_recovery_point p =
      search (read_rules, Keeps-real_dirs, Keeps-with_metadata, Keeps-first_point) depth 12

  Keeps-verified_deb : (item : Fields) → Keeps P (verified_deb item)
  unfolding verified_deb
  Keeps-verified_deb item = search (read_rules, Keeps-str_value) depth 20

  Keeps-verify_debs : (vs : List Json) (acc : Restore) → Keeps P (verify_debs vs acc)
  unfolding verify_debs
  Keeps-verify_debs [] acc = search read_rules
  Keeps-verify_debs (v ∷ vs) acc = search (read_rules, Keeps-verified_deb, Keeps-verify_debs vs)

module _ {quiet : Event → Bool} {P : List Event → Type 0} (i : Ignores quiet P)
    (s : IsSpared quiet) where
  pub Keeps-service_active : (ps : List String) (a b : String) → Keeps P (service_active ps a b)
  unfolding service_active
  Keeps-service_active ps a b =
      search (keeps_rules, Keeps-unit_exists i s.usual, Keeps-unit_active i s.usual)

  pub Keeps-snapshot_runtime_state : (ps : List String) → Keeps P (snapshot_runtime_state ps)
  unfolding snapshot_runtime_state
  Keeps-snapshot_runtime_state ps =
      search (keeps_rules, Keeps-service_active, Keeps-process_running i s.usual)

  Keeps-restart_service : (b : Bool) (u : String) → Keeps P (restart_service b u)
  unfolding restart_service
  Keeps-restart_service false u = search keeps_rules
  Keeps-restart_service true u =
      search (keeps_rules, Ignores-run_checked i _ (s.usual.systemctl_lem _ _))

  Keeps-stop_client : (b : Bool) → Keeps P (stop_client b)
  unfolding stop_client
  Keeps-stop_client false = search keeps_rules
  Keeps-stop_client true = search (keeps_rules, Ignores-run i _ (s.pkill_lem _ _))

  pub Keeps-restart_changed : (ps : List String) (b : Before) → Keeps P (restart_changed ps b)
  unfolding restart_changed
  Keeps-restart_changed ps b =
      search
        (
          keeps_rules,
          Ignores-run i _ (s.usual.systemctl_lem _ _),
          Keeps-unit_exists i s.usual,
          Keeps-restart_service,
          Keeps-stop_client,
        )
        depth 12

  Keeps-check_package : (v : Verdict) (e : String × String) → Keeps P (check_package v e)
  unfolding check_package
  Keeps-check_package v (a, b) = search (keeps_rules, Keeps-installed_version i s.usual)

  Keeps-check_all :
      (f : Verdict → String × String → M Verdict) (v : Verdict) (es : List (String × String))
      → ((v : Verdict) (e : String × String) → Keeps P (f v e))
      → Keeps P (check_all f v es)
  unfolding check_all
  Keeps-check_all f v [] k = Keeps-pure v
  Keeps-check_all f v (e ∷ es) k = Keeps-bind (f v e) _ (k v e) (λ v'. Keeps-check_all f v' es k)

  Keeps-check_path : (v : Verdict) (p : String) (o : Option String) → Keeps P (check_path v p o)
  unfolding check_path
  Keeps-check_path v p none = search keeps_rules
  Keeps-check_path v p (some q) = search read_rules

  Keeps-check_executable : (v : Verdict) (e : String × String) → Keeps P (check_executable v e)
  unfolding check_executable
  Keeps-check_executable v (a, b) = Keeps-check_path v a (executable_of a)

  Keeps-check_service : (v : Verdict) (b : Bool) (n u : String) → Keeps P (check_service v b n u)
  unfolding check_service
  Keeps-check_service v false n u = search keeps_rules
  Keeps-check_service v true n u = search (keeps_rules, Keeps-unit_active i s.usual)

  Keeps-wait_for_client : (n : ℕ) → Keeps P (wait_for_client n)
  unfolding wait_for_client
  Keeps-wait_for_client zero = search keeps_rules
  Keeps-wait_for_client (suc n) = Keeps-bind _ _ (Keeps-ask _) (λ late.
      Keeps-elim late _ _ (Keeps-pure false) (
        Keeps-bind _ _ (Keeps-process_running i s.usual _)
          (λ running. Keeps-elim running _ _ (Keeps-pure true) (Keeps-wait_for_client n))))

  Keeps-check_session : (v : Verdict) (b : Bool) (t : ℤ) → Keeps P (check_session v b t)
  unfolding check_session
  Keeps-check_session v false t = search keeps_rules
  Keeps-check_session v true t = search (keeps_rules, Keeps-wait_for_client)

  Keeps-audits : Keeps P dpkg_audit
  Keeps-audits = Keeps-dpkg_audit i s.usual

  Keeps-checks : Keeps P apt_check
  Keeps-checks = Keeps-apt_check i s.usual

  pub Keeps-health_check :
      (es : List (String × String)) (b : Before) (t : ℤ) → Keeps P (health_check es b t)
  unfolding health_check
  Keeps-health_check es b t =
      search
        (
          keeps_rules, Keeps-check_all, Keeps-check_package, Keeps-check_executable,
          Keeps-check_service, Keeps-check_session, Keeps-audits, Keeps-checks,
        )
        depth 16

  pub Keeps-block_failed : (m : Fields) (t r : String) → Keeps P (block_failed m t r)
  unfolding block_failed
  Keeps-block_failed m t r =
      search
        (
          read_rules,
          Keeps-blocked_registry,
          λ (v : Json). Keeps-atomic_json i blocked_path v (s.wrote_lem blocked_path v refl),
        )
        depth 12

  Keeps-prune_below : (p : Fields) (k r : String) (b : Bool) → Keeps P (prune_below p k r b)
  unfolding prune_below
  Keeps-prune_below p k r false = search read_rules
  Keeps-prune_below p k r true =
      search (read_rules, Keeps-real_dirs, Keeps-remove i s.usual) depth 12

  pub Keeps-prune_recovery_points : (p : Fields) (k : String) → Keeps P (prune_recovery_points p k)
  unfolding prune_recovery_points
  Keeps-prune_recovery_points p k = search (read_rules, Keeps-prune_below)

  Keeps-keep_cached : (a b : String) (c : Component) (t : Bool) → Keeps P (keep_cached a b c t)
  unfolding keep_cached
  Keeps-keep_cached a b c true = search read_rules
  Keeps-keep_cached a b c false = search (read_rules, Keeps-copy i s.usual, Keeps-remove i s.usual)

  Keeps-cache_candidate :
      (p : Fields) (d : String) (c : Component) → Keeps P (cache_candidate p d c)
  unfolding cache_candidate
  Keeps-cache_candidate p d c =
      search (read_rules, Keeps-make_dir i s.usual, Keeps-keep_cached) depth 12

  pub Keeps-cache_candidates :
      (p : Fields) (d : String) (m : Fields) → Keeps P (cache_candidates p d m)
  unfolding cache_candidates
  Keeps-cache_candidates p d m = search (read_rules, Keeps-cache_candidate)

  Keeps-copy_if : (b : Bool) (q : String) (v : Json) → Keeps P (copy_if b q v)
  unfolding copy_if
  Keeps-copy_if false q v = search read_rules
  Keeps-copy_if true q v =
      search (read_rules, Keeps-copy i s.usual, Keeps-ensure_dir i s.usual) depth 12

  Keeps-restore_current : (r : String) (o : Option Fields) → Keeps P (restore_current r o)
  unfolding restore_current
  Keeps-restore_current r none = search read_rules
  Keeps-restore_current r (some f) = search (read_rules, Keeps-str_value, Keeps-copy_if) depth 20

  module _
      (dpkg : (a : String) (cs : List String) → quiet (ran ("/usr/bin/dpkg" ∷ a ∷ cs)) ≡ true) where
    pub Keeps-install_debs : (ps ns : List String) → Keeps P (install_debs ps ns)
    unfolding install_debs
    Keeps-install_debs ps ns = search (
      keeps_rules,
      λ (a : String) (cs : List String).
          Ignores-run_checked i ("/usr/bin/dpkg" ∷ a ∷ cs) (dpkg a cs),
    )

    pub Keeps-rollback_from_recovery :
        (p : Fields) (r : String) (b : Before) (c : String)
        → Keeps P (rollback_from_recovery p r b c)
    unfolding rollback_from_recovery
    Keeps-rollback_from_recovery p r b c =
        search
          (
            read_rules,
            Keeps-verify_debs,
            Keeps-install_debs,
            Keeps-restore_configuration i s,
            Keeps-restart_changed,
            Keeps-health_check,
            Keeps-restore_current,
            λ (v : Json).
                Keeps-atomic_json i rollback_state_path v (s.wrote_lem rollback_state_path v refl),
          )
          depth 20
