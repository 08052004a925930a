-- ===== src/Packages/Finite.antt =====
-- The visit of the profiles ends.
use xaac_thin_client_os.Base.{
  ◌+◌, ℕ, zero, suc, ◌<◌, ◌≤◌, Bool, true, false, not, String, Option, none, some, List, [], ◌∷◌,
  ◌++◌, ◌≡◌, refl, sym, subst, length, filter, member, str_eq, eq_iff, Bool-cases, inl, inr, arith,
  if◌then◌else◌,
}
use xaac_thin_client_os.Configuration.{Validated, valid, invalid, HardwareProfile, Project}
use xaac_thin_client_os.Configuration.Booleans.{behind, unlike_sym}
use xaac_thin_client_os.Packages.Fuel.{load_profile_chain-more}
use xaac_thin_client_os.Packages.Chain.{
  contradicts, load_profile, Visit, appended, has_name, Start, cyclic, known, fresh, start_of,
  from_start, from_parent, from_extends, visit, load_profile_chain,
}

-- The names that are not being visited.
abbrev unvisited : List String → List String → ℕ
unvisited names visiting = length (filter (λ name. not (member name visiting)) names)

unvisited-bound : (names visiting : List String) → unvisited names visiting ≤ length names
unvisited-bound [] visiting = omega arith
unvisited-bound (n ∷ names) visiting =
    let h = unvisited-bound names visiting in
    elim (Bool-cases (member n visiting)) [
      | inl there ↦ rw (there) omega arith
      | inr new ↦ rw (new) omega arith
    ]

unvisited-fewer :
    (names visiting : List String) (x : String)
    → unvisited names (x ∷ visiting) ≤ unvisited names visiting
unvisited-fewer [] visiting x = omega arith
unvisited-fewer (n ∷ names) visiting x =
    let h = unvisited-fewer names visiting x in
    elim (Bool-cases (str_eq n x)) [
      | inl same ↦ elim (Bool-cases (member n visiting)) [
        | inl there ↦ rw (same, there) h
        | inr new ↦ rw (same, new) omega arith
      ]
      | inr unlike ↦ elim (Bool-cases (member n visiting)) [
        | inl there ↦ rw (unlike, there) h
        | inr new ↦ rw (unlike, new) omega arith
      ]
    ]

unvisited-visit :
    (names visiting : List String) (x : String)
    → member x names ≡ true
    → member x visiting ≡ false
    → unvisited names (x ∷ visiting) < unvisited names visiting
unvisited-visit [] visiting x h new = absurd (ground (arith, h))
unvisited-visit (n ∷ names) visiting x h new =
    let fewer = unvisited-fewer names visiting x in
    elim (Bool-cases (str_eq n x)) [
      | inl same ↦
          let n_new : member n visiting ≡ false =
            subst (λ t. member t visiting ≡ false) (sym ((eq_iff n x).0 same)) new in
          rw (same, n_new) omega arith
      | inr unlike ↦
          let later =
            unvisited-visit names visiting x
              (behind (str_eq x n) (member x names) (unlike_sym n x unlike) h) new in
          elim (Bool-cases (member n visiting)) [
            | inl there ↦ rw (unlike, there) later
            | inr free ↦ rw (unlike, free) omega arith
          ]
    ]

-- The visit has an end: the chain, or an exception.
abbrev pub Ends : Visit → Type 0
Ends v = (r : Validated (List HardwareProfile)) × (v ≡ some r)

appended-Ends : (p : HardwareProfile) (v : Visit) → Ends v → Ends (appended p v)
appended-Ends p v (invalid e, h) = (invalid e, rw (h) refl)
appended-Ends p v (valid chain, h) = (valid (chain ++ p ∷ []), rw (h) refl)

from_start-Ends :
    (chain : List HardwareProfile) (v : Visit) (s : Start)
    → (s ≡ fresh → Ends v)
    → Ends (from_start chain v s)
from_start-Ends chain v cyclic h = (_, refl)
from_start-Ends chain v known h = (_, refl)
from_start-Ends chain v fresh h = h refl

choice : (a b : Bool) → (if a then cyclic else if b then known else fresh) ≡ fresh → a ≡ false
choice true b h = cc
choice false b h = refl

module _ (project : Project) (root : String) (names : List String)
    (finite : (name : String) (p : HardwareProfile)
      → load_profile project root name ≡ valid p
      → member p.name names ≡ true) where
  from_parent-Ends :
      (p : HardwareProfile) (again : HardwareProfile → Visit) (r : Validated HardwareProfile)
      → ((parent : HardwareProfile) → r ≡ valid parent → Ends (again parent))
      → Ends (from_parent p again r)
  from_parent-Ends p again (invalid e) h = (invalid e, refl)
  from_parent-Ends p again (valid parent) h = appended-Ends p (again parent) (h parent refl)

  from_extends-Ends :
      (p : HardwareProfile) (chain : List HardwareProfile) (again : HardwareProfile → Visit)
      (o : Option String)
      → ((parent : HardwareProfile) → member parent.name names ≡ true → Ends (again parent))
      → Ends (from_extends p chain (load_profile project root) again o)
  from_extends-Ends p chain again none h = (_, refl)
  from_extends-Ends p chain again (some name) h =
      from_parent-Ends p again (load_profile project root name)
        (λ parent e. h parent (finite name parent e))

  visit-Ends :
      (fuel : ℕ) (visiting : List String) (chain : List HardwareProfile) (p : HardwareProfile)
      → member p.name names ≡ true
      → unvisited names visiting < fuel
      → Ends (visit project root fuel visiting chain p)
  unfolding visit
  visit-Ends zero visiting chain p there h = absurd (omega arith)
  visit-Ends (suc fuel) visiting chain p there h =
      from_start-Ends chain _ (start_of visiting chain p) (λ e.
        from_extends-Ends p chain (visit project root fuel (p.name ∷ visiting) chain) p.extends
          (λ parent known_name.
            let fewer =
              unvisited-visit names visiting p.name there
                (choice (member p.name visiting) (has_name p.name chain) e) in
            visit-Ends fuel (p.name ∷ visiting) chain parent known_name (omega arith)))

  refused-Ends : (b : Bool) (v w : Visit) → Ends v → Ends w → Ends (if b then v else w)
  refused-Ends true v w h k = h
  refused-Ends false v w h k = k

  chain-Ends :
      (selected : HardwareProfile)
      → Ends (load_profile_chain project root (suc (suc (length names))) selected)
  unfolding load_profile_chain visit
  chain-Ends selected =
      refused-Ends (contradicts selected) _ _ (_, refl)
        (from_start-Ends [] _ (start_of [] [] selected) (λ e.
          from_extends-Ends selected []
            (visit project root (suc (length names)) (selected.name ∷ []) []) selected.extends
            (λ parent known_name.
              let bound = unvisited-bound names (selected.name ∷ []) in
              visit-Ends (suc (length names)) (selected.name ∷ []) [] parent known_name
                (omega arith))))

  -- Where every profile of the project that can be loaded has one of finitely many names,
  -- `load_profile_chain` ends, with a
  -- chain or an exception, also where profiles extend each other in a circle: fuel for two more
  -- visits than there are names is enough, and any more of it gives the same.
  pub load_profile_chain-Ends :
      (selected : HardwareProfile)
      → (r : Validated (List HardwareProfile)) × ((extra : ℕ)
          → load_profile_chain project root (extra + suc (suc (length names))) selected ≡ some r)
  load_profile_chain-Ends selected =
      let (r, e) = chain-Ends selected in
      (
        r,
        λ extra. load_profile_chain-more project root extra (suc (suc (length names))) selected r e,
      )
