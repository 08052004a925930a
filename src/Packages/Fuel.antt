-- ===== src/Packages/Fuel.antt =====
-- A visit that ended gives the same with more fuel.
use xaac_thin_client_os.Base.{
  ℕ, zero, suc, ◌+◌, Bool, true, false, String, Option, none, some, List, [], ◌∷◌, ◌≡◌, refl, subst,
  sym, arith, if◌then◌else◌,
}
use xaac_thin_client_os.Configuration.{Validated, valid, invalid, HardwareProfile, Project}
use xaac_thin_client_os.Packages.Chain.{
  contradicts, load_profile, Visit, appended, Start, cyclic, known, fresh, start_of, from_start,
  from_parent, from_extends, visit, load_profile_chain,
}

-- Where the first visit ends, the second one ends alike.
Extends : Visit → Visit → Type 0
Extends v w = (r : Validated (List HardwareProfile)) → v ≡ some r → w ≡ some r

appended-Extends :
    (p : HardwareProfile) (v w : Visit) → Extends v w → Extends (appended p v) (appended p w)
unfolding Extends
appended-Extends p none w h r e = cc
appended-Extends p (some (invalid x)) w h r e = rw (h (invalid x) refl) e
appended-Extends p (some (valid chain)) w h r e = rw (h (valid chain) refl) e

from_start-Extends :
    (chain : List HardwareProfile) (v w : Visit) (s : Start)
    → Extends v w
    → Extends (from_start chain v s) (from_start chain w s)
unfolding Extends
from_start-Extends chain v w cyclic h r e = e
from_start-Extends chain v w known h r e = e
from_start-Extends chain v w fresh h r e = h r e

module _ (p : HardwareProfile) (chain : List HardwareProfile)
    (load : String → Validated HardwareProfile) (again further : HardwareProfile → Visit)
    (h : (parent : HardwareProfile) → Extends (again parent) (further parent)) where
  from_parent-Extends :
      (r : Validated HardwareProfile) → Extends (from_parent p again r) (from_parent p further r)
  unfolding Extends
  from_parent-Extends (invalid x) r e = e
  from_parent-Extends (valid parent) r e =
      appended-Extends p (again parent) (further parent) (h parent) r e

  from_extends-Extends :
      (o : Option String)
      → Extends (from_extends p chain load again o) (from_extends p chain load further o)
  unfolding Extends
  from_extends-Extends none r e = e
  from_extends-Extends (some name) r e = from_parent-Extends (load name) r e

module _ (project : Project) (root : String) where
  visit-Extends :
      (fuel : ℕ) (visiting : List String) (chain : List HardwareProfile) (p : HardwareProfile)
      → Extends
          (visit project root fuel visiting chain p)
          (visit project root (suc fuel) visiting chain p)
  unfolding visit Extends
  visit-Extends zero visiting chain p r e = cc
  visit-Extends (suc fuel) visiting chain p r e =
      from_start-Extends chain _ _ (start_of visiting chain p)
        (from_extends-Extends p chain (load_profile project root)
          (visit project root fuel (p.name ∷ visiting) chain)
          (visit project root (suc fuel) (p.name ∷ visiting) chain)
          (λ parent. visit-Extends fuel (p.name ∷ visiting) chain parent) p.extends)
        r e

  more :
      (b : Bool) (u v w : Visit) → Extends v w → Extends (if b then u else v) (if b then u else w)
  unfolding Extends
  more true u v w h r e = e
  more false u v w h r e = h r e

  pub load_profile_chain-more :
      (extra fuel : ℕ) (selected : HardwareProfile) (r : Validated (List HardwareProfile))
      → load_profile_chain project root fuel selected ≡ some r
      → load_profile_chain project root (extra + fuel) selected ≡ some r
  unfolding load_profile_chain Extends
  load_profile_chain-more zero fuel selected r e =
      let same : zero + fuel ≡ fuel = omega arith in
      subst (λ n. load_profile_chain project root n selected ≡ some r) (sym same) e
  load_profile_chain-more (suc extra) fuel selected r e =
      let same : suc extra + fuel ≡ suc (extra + fuel) = omega arith in
      subst (λ n. load_profile_chain project root n selected ≡ some r) (sym same)
        (more (contradicts selected) _ _ _ (visit-Extends (extra + fuel) [] [] selected) r
          (load_profile_chain-more extra fuel selected r e))
