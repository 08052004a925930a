-- ===== src/Maintenance/Retention.antt =====
-- What a cleanup removes.
use xaac_thin_client_os.Base.{
  ℕ, ℤ, Bool, true, false, String, List, [], ◌∷◌, ◌≡◌, refl, ◌&&◌, ◌+◌, arith,
}
use xaac_thin_client_os.Json.{Json, Fields, obj}
use xaac_thin_client_os.Machine.{Event, removed, World, run, remove, join}
use xaac_thin_client_os.Machine.Keeps.{Keeps, Keeps-pure, Keeps-bind, Keeps-effect, keeps_rules}
use xaac_thin_client_os.Machine.Quiet.{
  Ignores, Ignores-run, Keeps-atomic_json, Keeps-iterdir, look_rules,
}
use xaac_thin_client_os.Update.Quiet.{Keeps-int_setting}
use xaac_thin_client_os.Maintenance.Quiet.{Keeps-optional_state}
use xaac_thin_client_os.Maintenance.Cleanup.{
  diagnostics_root, is_bundle, remove_if, remove_expired, remove_each, remove_below,
  remove_old_diagnostics, record_time, cleanup,
}

-- A path of a bundle of diagnostics in the directory of the bundles.
abbrev pub IsBundlePath : String → Type 0
IsBundlePath path =
    (name : String) × ((path ≡ join diagnostics_root name) × (is_bundle name ≡ true))

abbrev pub IsSparing : Event → Type 0
IsSparing (removed path) = IsBundlePath path
IsSparing e = Unit

-- No effect removes anything but a bundle.
abbrev pub AreSparing : List Event → Type 0
AreSparing [] = Unit
AreSparing (e ∷ t) = IsSparing e × AreSparing t

abbrev removes_nothing : Event → Bool
removes_nothing (removed path) = false
removes_nothing e = true

removes_nothing-IsSparing : (e : Event) → removes_nothing e ≡ true → IsSparing e
removes_nothing-IsSparing (removed path) q = absurd (ground (arith, q))
removes_nothing-IsSparing _ q = tt

Ignores-AreSparing : Ignores removes_nothing AreSparing
Ignores-AreSparing = record { past = λ e q t h. (removes_nothing-IsSparing e q, h) }

runs : (c : List String) → Keeps AreSparing (run c)
runs c = Ignores-run Ignores-AreSparing c refl

both : (b c : Bool) → b && c ≡ true → b ≡ true
both b c h = ground arith

Keeps-remove_if :
    (b : Bool) (name : String)
    → (b ≡ true → is_bundle name ≡ true)
    → Keeps AreSparing (remove_if b (join diagnostics_root name))
unfolding remove_if remove
Keeps-remove_if false name h = Keeps-pure 0
Keeps-remove_if true name h =
    Keeps-bind _ _
      (Keeps-effect {P = AreSparing} (removed (join diagnostics_root name)) _
        (λ t k. ((name, (refl, h refl)), k)))
      (λ _. Keeps-pure 1)

Keeps-remove_expired :
    (days : ℤ) (now : ℕ) (name : String) → Keeps AreSparing (remove_expired days now name)
unfolding remove_expired
Keeps-remove_expired days now name =
    search
      (
        look_rules,
        λ (b c : Bool).
            Keeps-remove_if (is_bundle name && (b && c)) name (both (is_bundle name) (b && c)),
      )
      depth 16

Keeps-remove_each :
    (days : ℤ) (now : ℕ) (names : List String) → Keeps AreSparing (remove_each days now names)
unfolding remove_each
Keeps-remove_each days now [] = Keeps-pure 0
Keeps-remove_each days now (name ∷ rest) =
    Keeps-bind _ _ (Keeps-remove_expired days now name) (λ one.
      Keeps-bind _ _ (Keeps-remove_each days now rest) (λ others. Keeps-pure (one + others)))

Keeps-remove_below : (b : Bool) (days : ℤ) (now : ℕ) → Keeps AreSparing (remove_below b days now)
unfolding remove_below
Keeps-remove_below false days now = Keeps-pure 0
Keeps-remove_below true days now =
    Keeps-bind _ _ (Keeps-iterdir diagnostics_root) (λ names. Keeps-remove_each days now names)

Keeps-remove_old_diagnostics : (days : ℤ) → Keeps AreSparing (remove_old_diagnostics days)
unfolding remove_old_diagnostics
Keeps-remove_old_diagnostics days = search (look_rules, Keeps-remove_below)

Keeps-record_time : (kvs : List (String × Json)) (k : String) → Keeps AreSparing (record_time kvs k)
unfolding record_time
Keeps-record_time kvs k = search (
  look_rules,
  Keeps-optional_state,
  λ (p : String) (fs : Fields). Keeps-atomic_json Ignores-AreSparing p (obj fs) refl,
)

Keeps-cleanup : (p : Fields) → Keeps AreSparing (cleanup p)
unfolding cleanup
Keeps-cleanup p =
    search (keeps_rules, runs, Keeps-int_setting, Keeps-remove_old_diagnostics, Keeps-record_time)
      depth 30

-- However `cleanup` ends, and whatever the host answers and the policy says: where the runtime had
-- removed nothing before it but bundles of diagnostics, entries `xaac-diagnostics-*.tar.gz` of their
-- directory, it has removed nothing else after it. What the commands that it runs remove is not
-- counted.
pub cleanup-AreSparing :
    (policy : Fields) (w : World) → AreSparing w.trace → AreSparing (cleanup policy w).1.trace
cleanup-AreSparing policy w h = (Keeps-cleanup policy).at w h
