-- ===== src/Update/Rollback/Verified.antt =====
-- What `_rollback_from_recovery` checks before it lets dpkg change anything.
use xaac_thin_client_os.Base.{
  Bool, true, false, String, Option, some, List, [], ◌∷◌, ◌++◌, ◌≡◌, refl, ◌&&◌, not, all, str_eq,
  ◌<>◌, arith, Bool-cases, inl, inr,
}
use xaac_thin_client_os.Json.{Json, Fields, null, bool, num, text, arr, obj, get, items, as_list}
use xaac_thin_client_os.Json.Lookup.{elements-items}
use xaac_thin_client_os.Machine.{
  World, Content, M, ok, err, Exc, runtime_error, ◌>>=◌, pure, raise, gets, node_at, is_file,
  is_symlink, is_link, str_of, str_value, target_of, content_of, read, sha256, load_json,
}
use xaac_thin_client_os.Update.Packages.{Before}
use xaac_thin_client_os.Update.Manifest.{set_version}
use xaac_thin_client_os.Update.Rollback.{
  nonempty, Restore, verified_deb, verify_debs, rollback_from_recovery,
}

abbrev has_digest : World → Option Content → Json → Bool
has_digest w (some c) (text digest) = str_eq (w.host.sha256 c) digest
has_digest w _ _ = false

-- A saved package whose file is there, is no symbolic link, and has the digest that was recorded.
abbrev pub is_verified : World → Json → Bool
is_verified w (obj item) =
    not (is_link (node_at (str_of w.host (get "deb" item)) w.disk))
    && has_digest w (content_of (target_of (str_of w.host (get "deb" item)) w.disk))
        (get "sha256" item)
is_verified w _ = false

-- A run that raises and has changed nothing.
abbrev pub Refuses : {A : Type 0} → M A → World → Type 0
Refuses m w = (e : Exc) × (m w ≡ (err e, w))

Refuses-bind :
    {A B : Type 0} (m : M A) (f : A → M B) (w : World) → Refuses m w → Refuses (m >>= f) w
unfolding ◌>>=◌ raise
Refuses-bind m f w (e, h) = (e, rw h refl)

then-Refuses :
    {A B : Type 0} (m : M A) (f : A → M B) (w : World) (a : A)
    → m w ≡ (ok a, w)
    → Refuses (f a) w
    → Refuses (m >>= f) w
unfolding ◌>>=◌
then-Refuses m f w a h (e, r) = (e, rw (h) r)

verified_deb-passes :
    (item : Fields) (w : World)
    → is_verified w (obj item) ≡ true
    → verified_deb item w ≡ (
      ok (
        str_of w.host (get "deb" item),
        (str_of w.host (get "package" item), str_of w.host (get "version" item)),
      ),
      w,
    )
unfolding verified_deb is_file is_symlink sha256 read gets str_value ◌>>=◌ pure raise
verified_deb-passes item w h = ground arith

verified_deb-fails :
    (item : Fields) (w : World)
    → is_verified w (obj item) ≡ false
    → verified_deb item w ≡ (err (runtime_error "Paquet de rollback absent o corrupte"), w)
unfolding verified_deb is_file is_symlink sha256 read gets str_value ◌>>=◌ pure raise
verified_deb-fails item w h = ground arith

abbrev extended : World → Restore → Fields → Restore
extended w acc item = record {
  debs = acc.debs ++ str_of w.host (get "deb" item) ∷ [];
  versions =
      set_version (str_of w.host (get "package" item)) (str_of w.host (get "version" item))
        acc.versions;
}

verify_debs-Refuses :
    (values : List Json) (acc : Restore) (w : World)
    → all (is_verified w) values ≡ false
    → Refuses (verify_debs values acc) w
unfolding verify_debs ◌>>=◌ pure raise
verify_debs-Refuses [] acc w h = cc
verify_debs-Refuses (obj item ∷ vs) acc w h = elim (Bool-cases (is_verified w (obj item))) [
  | inl good ↦
      let (e, later) = verify_debs-Refuses vs (extended w acc item) w (ground (arith, good, h)) in
      (e, rw (verified_deb-passes item w good) later)
  | inr bad ↦ (
    runtime_error "Paquet de rollback absent o corrupte",
    rw (verified_deb-fails item w bad) refl,
  )
]
verify_debs-Refuses (null ∷ vs) acc w h = (runtime_error "Metadades de rollback invàlides", refl)
verify_debs-Refuses (bool b ∷ vs) acc w h = (runtime_error "Metadades de rollback invàlides", refl)
verify_debs-Refuses (num n ∷ vs) acc w h = (runtime_error "Metadades de rollback invàlides", refl)
verify_debs-Refuses (text t ∷ vs) acc w h = (runtime_error "Metadades de rollback invàlides", refl)
verify_debs-Refuses (arr xs ∷ vs) acc w h = (runtime_error "Metadades de rollback invàlides", refl)

nonempty-items :
    (w : World) (md : Fields) (l : List Json)
    → get "packages" md ≡ arr (items l)
    → all (is_verified w) l ≡ false
    → nonempty (as_list (get "packages" md)) ≡ some l
nonempty-items w md [] hp h = cc
nonempty-items w md (v ∷ l) hp h = rw (hp, elements-items l) refl

-- A rollback touches nothing unless every package can be restored: where one of the packages that
-- the recovery point lists is no object, or its file is missing, a symbolic link or not of the
-- recorded digest, `_rollback_from_recovery` raises before any command or effect.
pub rollback_from_recovery-Refuses :
    (policy : Fields) (recovery : String) (before : Before) (cause : String) (w : World)
    (md : Fields) (l : List Json)
    → load_json (recovery <> "/recovery-point.json") w ≡ (ok md, w)
    → get "packages" md ≡ arr (items l)
    → all (is_verified w) l ≡ false
    → Refuses (rollback_from_recovery policy recovery before cause) w
unfolding rollback_from_recovery pure
rollback_from_recovery-Refuses policy recovery before cause w md l hl hp h =
    then-Refuses _ _ w md hl (
      then-Refuses _ _ w l (rw (nonempty-items w md l hp h) refl)
        (Refuses-bind _ _ w (verify_debs-Refuses l _ w h)))
