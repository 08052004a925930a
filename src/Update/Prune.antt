-- ===== src/Update/Prune.antt =====
-- `_prune_recovery_points` and `_latest_recovery_point`: recovery points, newest first.
pub mod Retention
use xaac_thin_client_os.Base.{
  ℕ, suc, ℤ, pos, Bool, true, false, String, List, [], ◌∷◌, ◌&&◌, ◌||◌, not, str_eq, ltb, ltb_ℤ,
  ◌<>◌, if◌then◌else◌,
}
use xaac_thin_client_os.Json.{Fields}
use xaac_thin_client_os.Machine.{
  ◌>>=◌, ◌>>◌, M, runtime_error, pure, raise, gets, raise_if, for_each, join, is_file, is_dir,
  is_symlink, iterdir, remove,
}
use xaac_thin_client_os.Update.Policy.{path_setting, int_setting}

-- `points.sort(key=…, reverse=True)`: descending, and equal keys keep their order
unfoldable pub insert_newest : (String → ℕ) → String → List String → List String
insert_newest key p [] = p ∷ []
insert_newest key p (q ∷ qs) =
    let later = insert_newest key p qs in if ltb (key p) (key q) then q ∷ later else p ∷ q ∷ qs

unfoldable pub newest_first : (String → ℕ) → List String → List String
unfolding insert_newest
newest_first key [] = []
newest_first key (p ∷ ps) = insert_newest key p (newest_first key ps)

-- The points that the loop deletes: `retained` grows with each one kept.
unfoldable pub expired : ℤ → String → ℕ → List String → List String
expired maximum keep retained [] = []
expired maximum keep retained (p ∷ ps) =
    let kept = expired maximum keep (suc retained) ps in
    let gone = p ∷ expired maximum keep retained ps in
    if str_eq p keep || ltb_ℤ (pos retained) maximum then kept else gone

unfoldable pub real_dirs : String → List String → M (List String)
real_dirs root [] = pure []
real_dirs root (name ∷ rest) = do
  directory ← is_dir (join root name)
  linked ← is_symlink (join root name)
  others ← real_dirs root rest
  pure (if directory && not linked then name ∷ others else others)

unfoldable pub sorted_points : String → List String → M (List String)
sorted_points root points =
    gets (λ w. newest_first (λ name. w.host.mtime w.time (join root name)) points)

unfoldable pub prune_below : Fields → String → String → Bool → M (Unit {0})
unfolding sorted_points
prune_below policy keep root false = pure tt
prune_below policy keep root true = do
  maximum ← int_setting policy "recovery_point" "max_points"
  listed ← iterdir root
  dirs ← real_dirs root listed
  points ← sorted_points root dirs
  for_each (expired maximum keep 0 points) (λ name. remove (join root name))

-- `_prune_recovery_points(policy, keep_txid=keep)`
unfoldable pub prune_recovery_points : Fields → String → M (Unit {0})
unfolding prune_below
prune_recovery_points policy keep = do
  root ← path_setting policy "recovery_point" "root"
  there ← is_dir root
  prune_below policy keep root there

unfoldable pub with_metadata : String → List String → M (List String)
with_metadata root [] = pure []
with_metadata root (name ∷ rest) = do
  there ← is_file (join root name <> "/recovery-point.json")
  others ← with_metadata root rest
  pure (if there then name ∷ others else others)

unfoldable pub first_point : String → List String → M String
first_point root [] = raise (runtime_error "No hi ha cap punt de recuperació disponible")
first_point root (name ∷ rest) = pure (join root name)

unfoldable pub latest_recovery_point : Fields → M String
unfolding sorted_points first_point
latest_recovery_point policy = do
  root ← path_setting policy "recovery_point" "root"
  there ← is_dir root
  raise_if (not there) (runtime_error "No hi ha cap punt de recuperació disponible")
  listed ← iterdir root
  dirs ← real_dirs root listed
  points ← with_metadata root dirs
  sorted ← sorted_points root points
  first_point root sorted
