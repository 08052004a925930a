-- ===== src/Packages/Refinement.antt =====
-- The packages of an image against the set that they are to be.
use xaac_thin_client_os.Base.{
  none, some, subst, ℕ, false, not, String, List, [], ◌∷◌, ◌≡◌, refl, ◌∙◌, ◌&&◌, member, distinct,
  sorted, insert_text, text_leb, str_eq, Bool-cases, inl, inr,
}
use xaac_thin_client_os.Configuration.{
  HardwareProfile, Project, ProjectConfiguration, valid, invalid,
}
use xaac_thin_client_os.Configuration.Booleans.{neither, neither_of, unlike_sym}
use xaac_thin_client_os.Configuration.Texts.{IsDistinct}
use xaac_thin_client_os.Packages.Resolve.{
  ResolvedPackages, resolve_packages, resolved_visit, resolved, excluded_by, source_map,
  all_accepted, groups,
}
use xaac_thin_client_os.Packages.Chain.{Visit, load_profile_chain}
use xaac_thin_client_os.Packages.Lineage.{IsLineage, load_profile_chain-IsLineage}
use xaac_thin_client_os.Packages.Members.{
  member-sorted, member-distinct, member-insert_text, member-packages, member-excluded, is_wanted,
  is_unwanted,
}

insert_text-IsDistinct :
    (s : String) (ts : List String)
    → member s ts ≡ false
    → IsDistinct ts
    → IsDistinct (insert_text s ts)
unfolding insert_text
insert_text-IsDistinct s [] h d = (refl, tt)
insert_text-IsDistinct s (t ∷ ts) h (new, rest) = elim (Bool-cases (text_leb s t)) [
  | inl first ↦ rw (first) (h, (new, rest))
  | inr behind ↦
      let (unlike, others) = neither_of (str_eq s t) (member s ts) h in
      rw (behind) (
        member-insert_text t s ts ∙ neither (str_eq t s) (member t ts) (unlike_sym s t unlike) new,
        insert_text-IsDistinct s ts others rest,
      )
]

sorted-IsDistinct : (ss : List String) → IsDistinct ss → IsDistinct (sorted ss)
unfolding sorted
sorted-IsDistinct [] d = tt
sorted-IsDistinct (s ∷ ss) (new, rest) =
    insert_text-IsDistinct s (sorted ss) (member-sorted s ss ∙ new) (sorted-IsDistinct ss rest)

distinct-IsDistinct : (ss : List String) → IsDistinct (distinct ss)
unfolding distinct
distinct-IsDistinct [] = tt
distinct-IsDistinct (s ∷ ss) = elim (Bool-cases (member s ss)) [
  | inl there ↦ rw (there) (distinct-IsDistinct ss)
  | inr new ↦ rw (new) (member-distinct s ss ∙ new, distinct-IsDistinct ss)
]

-- The packages are those that some group or profile asks for and that nothing excludes, each once;
-- the excluded ones are those that the configuration or some profile excludes, each once.
pub record Implements (c : ProjectConfiguration) (chain : List HardwareProfile)
    (r : ResolvedPackages) : Type 0 where
  pub packages_lem :
      (name : String)
      → member name r.packages ≡ is_wanted name c chain && not (is_unwanted name c chain)
  pub packages_distinct : IsDistinct r.packages
  pub excluded_lem : (name : String) → member name r.excluded ≡ is_unwanted name c chain
  pub excluded_distinct : IsDistinct r.excluded

resolved-Implements :
    (c : ProjectConfiguration) (chain : List HardwareProfile)
    → Implements c chain (resolved c chain)
unfolding resolved
resolved-Implements c chain = record {
  packages_lem = λ name. member-packages name c chain;
  packages_distinct =
      sorted-IsDistinct _
        (distinct-IsDistinct (all_accepted (source_map (excluded_by c chain) (groups c chain))));
  excluded_lem = λ name. member-excluded name c chain;
  excluded_distinct = sorted-IsDistinct _ (distinct-IsDistinct _);
}

found :
    (c : ProjectConfiguration) (v : Visit) (r : ResolvedPackages)
    → resolved_visit c v ≡ some (valid r)
    → (chain : List HardwareProfile) × ((v ≡ some (valid chain)) × (resolved c chain ≡ r))
found c none r e = cc
found c (some (invalid x)) r e = cc
found c (some (valid chain)) r e = (chain, (refl, cc))

-- Where `resolve_packages` returns, with the line of ancestors of the configured profile as chain:
-- the packages are the set of those that some group or profile of the chain asks for and that
-- neither the configuration nor a profile of the chain excludes, each listed once, and the excluded
-- ones are the set of all these exclusions, each listed once.
pub resolve_packages-Implements :
    (project : Project) (root : String) (fuel : ℕ) (c : ProjectConfiguration) (r : ResolvedPackages)
    → resolve_packages project root fuel c ≡ some (valid r)
    → (chain : List HardwareProfile) × (IsLineage chain c.profile × Implements c chain r)
unfolding resolve_packages
resolve_packages-Implements project root fuel c r e =
    let (chain, (run, same)) = found c (load_profile_chain project root fuel c.profile) r e in
    (
      chain,
      (
        load_profile_chain-IsLineage project root fuel c.profile chain run,
        subst (λ q. Implements c chain q) same (resolved-Implements c chain),
      ),
    )
