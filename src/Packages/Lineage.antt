-- ===== src/Packages/Lineage.antt =====
-- The chain of a profile is its line of ancestors.
use xaac_thin_client_os.Base.{
  ℕ, zero, suc, false, String, Option, none, some, List, [], ◌∷◌, ◌++◌, ◌≡◌, refl, sym, subst,
  eq_iff, member, Bool-cases, inl, inr,
}
use xaac_thin_client_os.Configuration.{Validated, valid, invalid, HardwareProfile, Project}
use xaac_thin_client_os.Configuration.Booleans.{yes}
use xaac_thin_client_os.Configuration.Gives.{Gives, Gives-valid, Gives-then, Gives-checked}
use xaac_thin_client_os.Packages.Chain.{
  contradicts, load_profile, Visit, appended, from_parent, from_extends, visit, load_profile_chain,
}

-- From the oldest ancestor, which extends nothing, each profile is the one that the next extends,
-- down to the profile itself. None of them includes and excludes the same package.
pub data IsLineage : List HardwareProfile → HardwareProfile → Type 0 where
  oldest : (p : HardwareProfile) → p.extends ≡ none → contradicts p ≡ false → IsLineage (p ∷ []) p
  child :
      (chain : List HardwareProfile) (parent p : HardwareProfile)
      → IsLineage chain parent
      → p.extends ≡ some parent.name
      → contradicts p ≡ false
      → IsLineage (chain ++ p ∷ []) p

-- A profile that was loaded has the name that was asked for.
abbrev IsLoaded : String → HardwareProfile → Type 0
IsLoaded name p = (p.name ≡ name) × (contradicts p ≡ false)

load_profile-IsLoaded :
    (project : Project) (root name : String)
    → Gives (IsLoaded name) (load_profile project root name)
unfolding load_profile
load_profile-IsLoaded project root name = Gives-checked _ _ _ (λ there. Gives-then _ _ (λ document.
    Gives-then _ _ (λ profile. Gives-checked _ _ _ (λ same. Gives-checked _ _ _ (λ consistent.
      Gives-valid profile ((eq_iff profile.name name).0 (yes _ same), consistent))))))

appended-inversion :
    (p : HardwareProfile) (v : Visit) (chain : List HardwareProfile)
    → appended p v ≡ some (valid chain)
    → (older : List HardwareProfile) × ((v ≡ some (valid older)) × (older ++ p ∷ [] ≡ chain))
appended-inversion p none chain e = cc
appended-inversion p (some (invalid x)) chain e = cc
appended-inversion p (some (valid older)) chain e = (older, (refl, cc))

module _ (project : Project) (root : String) where
  module _ (p : HardwareProfile) (apart : contradicts p ≡ false) (again : HardwareProfile → Visit)
      (older : (parent : HardwareProfile) (chain : List HardwareProfile)
        → contradicts parent ≡ false
        → again parent ≡ some (valid chain)
        → IsLineage chain parent) where
    from_parent-IsLineage :
        (name : String) (r : Validated HardwareProfile) (chain : List HardwareProfile)
        → p.extends ≡ some name
        → ((parent : HardwareProfile) → r ≡ valid parent → IsLoaded name parent)
        → from_parent p again r ≡ some (valid chain)
        → IsLineage chain p
    from_parent-IsLineage name (invalid x) chain x_name l e = cc
    from_parent-IsLineage name (valid parent) chain extends l e =
        let (named, consistent) = l parent refl in
        let (line, (run, whole)) = appended-inversion p (again parent) chain e in
        let by_name : p.extends ≡ some parent.name =
          subst (λ n. p.extends ≡ some n) (sym named) extends in
        subst (λ c. IsLineage c p) whole
          (child line parent p (older parent line consistent run) by_name apart)

    from_extends-IsLineage :
        (o : Option String) (chain : List HardwareProfile)
        → p.extends ≡ o
        → from_extends p [] (load_profile project root) again o ≡ some (valid chain)
        → IsLineage chain p
    from_extends-IsLineage none chain extends e =
        let whole : p ∷ [] ≡ chain = cc in subst (λ c. IsLineage c p) whole (oldest p extends apart)
    from_extends-IsLineage (some name) chain extends e =
        from_parent-IsLineage name (load_profile project root name) chain extends
          (λ parent h. (load_profile-IsLoaded project root name).at parent h) e

  visit-IsLineage :
      (fuel : ℕ) (visiting : List String) (p : HardwareProfile) (chain : List HardwareProfile)
      → contradicts p ≡ false
      → visit project root fuel visiting [] p ≡ some (valid chain)
      → IsLineage chain p
  unfolding visit
  visit-IsLineage zero visiting p chain apart e = cc
  visit-IsLineage (suc fuel) visiting p chain apart e = elim (Bool-cases (member p.name visiting)) [
    | inl cycle ↦ let k = rw (cycle) at e in cc
    | inr free ↦
        let k = rw (free) at e in
        from_extends-IsLineage p apart (visit project root fuel (p.name ∷ visiting) [])
          (λ parent line consistent run.
            visit-IsLineage fuel (p.name ∷ visiting) parent line consistent run)
          p.extends chain refl k
  ]

  -- A chain that `load_profile_chain` returns is the line of ancestors of the selected profile,
  -- from the oldest, which extends nothing, down to itself; no profile of it includes and excludes
  -- the same package.
  pub load_profile_chain-IsLineage :
      (fuel : ℕ) (selected : HardwareProfile) (chain : List HardwareProfile)
      → load_profile_chain project root fuel selected ≡ some (valid chain)
      → IsLineage chain selected
  unfolding load_profile_chain
  load_profile_chain-IsLineage fuel selected chain e = elim (Bool-cases (contradicts selected)) [
    | inl bad ↦ let k = rw (bad) at e in cc
    | inr apart ↦ let k = rw (apart) at e in visit-IsLineage fuel [] selected chain apart k
  ]
