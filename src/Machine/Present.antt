-- ===== src/Machine/Present.antt =====
-- A file that stands at a path is what a run finds there.
use xaac_thin_client_os.Base.{ℕ, zero, suc, String, some, true, ◌≡◌, refl}
use xaac_thin_client_os.Json.{Fields, obj}
use xaac_thin_client_os.Machine.{
  World, Disk, Content, file, json, ok, ◌>>=◌, pure, gets, node_at, is_file, load_json, target_of,
  real_path, present, max_links,
}

real_path_file :
    (n : ℕ) (p : String) (c : Content) (d : Disk)
    → node_at p d ≡ some (file c)
    → real_path n p d ≡ p
unfolding real_path
real_path_file zero p c d h = refl
real_path_file (suc n) p c d h = rw (h, real_path) refl

present_file :
    (p : String) (c : Content) (d : Disk)
    → node_at p d ≡ some (file c)
    → present p d ≡ some (file c)
unfolding present
present_file p c d h = rw (h, present) refl

target_of_file :
    (p : String) (c : Content) (d : Disk)
    → node_at p d ≡ some (file c)
    → target_of p d ≡ some (file c)
unfolding target_of
target_of_file p c d h = rw (real_path_file max_links p c d h, present_file p c d h, target_of) refl

pub is_file_file :
    (p : String) (c : Content) (w : World)
    → node_at p w.disk ≡ some (file c)
    → is_file p w ≡ (ok true, w)
unfolding is_file gets
is_file_file p c w h = rw (target_of_file p c w.disk h) refl

pub load_json_file :
    (p : String) (state : Fields) (w : World)
    → node_at p w.disk ≡ some (file (json (obj state)))
    → load_json p w ≡ (ok state, w)
unfolding load_json gets ◌>>=◌ pure
load_json_file p state w h = rw (target_of_file p (json (obj state)) w.disk h) refl
