-- ===== src/Update/Prune/Retention.antt =====
-- What `_prune_recovery_points` keeps, and the order in which it looks.
use xaac_thin_client_os.Base.{
  ℕ, suc, ◌+◌, ◌-◌, ◌≤◌, ℤ, pos_part, String, List, [], ◌∷◌, ◌≡◌, refl, str_eq, arith, length,
  if◌then◌else◌,
}
use xaac_thin_client_os.Machine.{World, ok, join, is_dir, iterdir}
use xaac_thin_client_os.Update.Prune.{expired, real_dirs, with_metadata}

-- How often a name stands in a list.
abbrev pub occurrences : String → List String → ℕ
occurrences k [] = 0
occurrences k (p ∷ ps) = (if str_eq p k then 1 else 0) + occurrences k ps

keep_not_expired :
    (maximum : ℤ) (keep : String) (retained : ℕ) (ps : List String)
    → occurrences keep (expired maximum keep retained ps) ≡ 0
unfolding expired
keep_not_expired m k r [] = refl
keep_not_expired m k r (p ∷ ps) =
    ground (arith, keep_not_expired m k r ps, keep_not_expired m k (suc r) ps)

survivors_bound :
    (maximum : ℤ) (keep : String) (retained : ℕ) (ps : List String)
    → length ps + retained
      ≤ length (expired maximum keep retained ps)
        + (retained + (pos_part maximum - retained))
        + occurrences keep ps
unfolding expired
survivors_bound m k r [] = omega arith
survivors_bound m k r (p ∷ ps) =
    ground (arith, survivors_bound m k r ps, survivors_bound m k (suc r) ps)

-- Where the point of the transaction that calls the prune is listed at most once, the prune does not
-- delete it, and leaves at most one point more than the policy's maximum.
pub expired_lem :
    (maximum : ℤ) (keep : String) (ps : List String)
    → occurrences keep ps ≤ 1
    → (occurrences keep (expired maximum keep 0 ps) ≡ 0)
      × (length ps ≤ length (expired maximum keep 0 ps) + pos_part maximum + 1)
expired_lem m k ps once = (keep_not_expired m k 0 ps, omega (arith, survivors_bound m k 0 ps))

abbrev IsBelow : (String → ℕ) → ℕ → List String → Type 0
IsBelow key n [] = Unit
IsBelow key n (q ∷ qs) = (key q ≤ n) × IsBelow key n qs

-- Every element is at least as new as those behind it.
abbrev pub IsDescending : (String → ℕ) → List String → Type 0
IsDescending key [] = Unit
IsDescending key (p ∷ ps) = IsBelow key (key p) ps × IsDescending key ps

-- When a point below the root was modified.
abbrev pub modified : String → World → String → ℕ
modified root w name = w.host.mtime w.time (join root name)

-- Where `_latest_recovery_point` looks: the world after each look.
abbrev pub listed : String → World → World
listed root w = (iterdir root (is_dir root w).1).1

abbrev pub checked : String → List String → World → World
checked root names w = (real_dirs root names (listed root w)).1

-- The names of the root that are directories, and hold the metadata of a point, as the run finds them.
pub record IsNewest (root path : String) (w : World) : Type 0 where
  pub names : List String
  pub names_lem : (iterdir root (is_dir root w).1).0 ≡ ok names
  pub dirs : List String
  pub dirs_lem : (real_dirs root names (listed root w)).0 ≡ ok dirs
  pub points : List String
  pub points_lem : (with_metadata root dirs (checked root names w)).0 ≡ ok points
  pub newest : String
  pub newest_lem : path ≡ join root newest
  pub found : 1 ≤ occurrences newest points
  pub latest :
      (q : String)
      → 1 ≤ occurrences q points
      → modified root (with_metadata root dirs (checked root names w)).1 q
        ≤ modified root (with_metadata root dirs (checked root names w)).1 newest
