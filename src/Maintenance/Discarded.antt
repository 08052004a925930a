-- ===== src/Maintenance/Discarded.antt =====
-- The build directory of a bundle after the `finally` clause.
use xaac_thin_client_os.Base.{
  Bool, true, false, suc, ◌<>◌, String, none, [], ◌∷◌, ◌≡◌, refl, ap, ◌∙◌, sym, ◌||◌, str_eq,
  eq_iff, subst, Bool-cases, inl, inr, arith,
}
use xaac_thin_client_os.Machine.{
  World, M, Result, ok, err, settle, apply_effect, removed, Disk, node_at, is_below, remove_tree,
  pure, raise, ◌>>=◌, ◌>>◌, effect, remove, try, join, exists, is_symlink, ensure_dir, fresh,
}
use xaac_thin_client_os.Maintenance.Diagnostics.{
  discard, discarding, make_build_dir, bundle, diagnostics,
}
use xaac_thin_client_os.Maintenance.Cleanup.{diagnostics_root}
use xaac_thin_client_os.Json.{Fields}

-- The path itself, or one below it.
abbrev pub is_within : String → String → Bool
is_within root p = str_eq p root || is_below root p

other_path :
    (root p q : String) → is_within root p ≡ true → is_within root q ≡ false → str_eq q p ≡ false
other_path root p q h k = elim (Bool-cases (str_eq q p)) [
  | inl same ↦
      let l : is_within root q ≡ true =
        subst (λ r. is_within root r ≡ true) (sym ((eq_iff q p).0 same)) h in
      absurd (ground (arith, k, l))
  | inr other ↦ other
]

remove_tree-Removes :
    (root p : String) (d : Disk) → is_within root p ≡ true → node_at p (remove_tree root d) ≡ none
unfolding remove_tree
remove_tree-Removes root p [] h = refl
remove_tree-Removes root p ((q, n) ∷ d) h = elim (Bool-cases (is_within root q)) [
  | inl within ↦ rw (within) (remove_tree-Removes root p d h)
  | inr outside ↦ rw (outside, other_path root p q h outside) (remove_tree-Removes root p d h)
]

-- The world that the removal leaves behind.
abbrev removed_from : String → World → World
removed_from build w = (apply_effect none (removed build) (remove_tree build) w).1

module _ {A : Type 0} (build : String) where
  settled :
      (r : Result A) (w : World)
      → w.host.fault w.time (removed build) ≡ none
      → settle r (λ a. do discard build; pure a) (λ e. do discard build; raise e) w
        ≡ (r, removed_from build w)
  unfolding discard remove effect try ◌>>=◌ pure raise
  settled (ok a) w h = rw (h) refl
  settled (err e) w h = rw (h) refl

  discarding_lem :
      (m : M A) (w : World)
      → (m w).1.host.fault (m w).1.time (removed build) ≡ none
      → discarding build m w ≡ ((m w).0, removed_from build (m w).1)
  unfolding discarding try
  discarding_lem m w h = settled (m w).0 (m w).1 h

  discarding-IsFinal :
      (m : M A) (w : World)
      → (m w).1.host.fault (m w).1.time (removed build) ≡ none
      → ((discarding build m w).0 ≡ (m w).0)
        × ((p : String) → is_within build p ≡ true → node_at p (discarding build m w).1.disk ≡ none)
  discarding-IsFinal m w h =
      let e = discarding_lem m w h in
      (
        ap (λ r. r.0) e,
        (λ p k. ap (λ r. node_at p r.1.disk) e ∙ remove_tree-Removes build p (m w).1.disk k),
      )

-- The file of the bundle, and the machine once its name is made up.
abbrev pub bundle_path : World → String
bundle_path w = join diagnostics_root ("xaac-diagnostics-" <> (w.host.now w.time <> ".tar.gz"))

abbrev pub named : World → World
named w = record w { time = suc w.time }

-- Once `diagnostics` has its build directory and the bundle is not there yet, it returns or raises
-- what the making of the bundle does, and leaves nothing on the disk at the build directory or below
-- it, however the bundle ends: where the host does not refuse the removal of the directory.
pub diagnostics-IsDiscarded :
    (policy : Fields) (build : String) (w v u : World)
    → ensure_dir diagnostics_root w ≡ (ok tt, v)
    → make_build_dir v ≡ (ok build, u)
    → exists (bundle_path u) (named u) ≡ (ok false, named u)
    → is_symlink (bundle_path u) (named u) ≡ (ok false, named u)
    → (bundle policy build (bundle_path u) (named u)).1.host.fault
        (bundle policy build (bundle_path u) (named u)).1.time
        (removed build)
      ≡ none
    → ((diagnostics policy w).0 ≡ (bundle policy build (bundle_path u) (named u)).0)
      × ((p : String) → is_within build p ≡ true → node_at p (diagnostics policy w).1.disk ≡ none)
unfolding diagnostics ◌>>=◌ fresh pure
diagnostics-IsDiscarded policy build w v u root made absent unlinked h =
    rw (root, made, absent, unlinked)
      (discarding-IsFinal build (bundle policy build (bundle_path u)) (named u) h)
