-- ===== src/Packages/Members.antt =====
-- The packages of an image as a set.
use xaac_thin_client_os.Base.{
  Bool, true, false, not, String, List, [], ◌∷◌, ◌++◌, ◌<>◌, ◌≡◌, refl, sym, ap, ◌∙◌, subst, ◌&&◌,
  ◌||◌, map, filter, member, distinct, sorted, insert_text, text_leb, str_eq, eq_iff, Bool-cases,
  inl, inr, arith,
}
use xaac_thin_client_os.Configuration.{HardwareProfile, ProjectConfiguration}
use xaac_thin_client_os.Packages.Resolve.{
  groups, exclusions, excluded_by, accepted, source_map, all_accepted, resolved,
}

or_swap : (a b c : Bool) → a || (b || c) ≡ b || (a || c)
or_swap a b c = ground arith

or_again : (a b : Bool) → (a ≡ true → b ≡ true) → b ≡ a || b
or_again true b h = h refl
or_again false b h = refl

or_assoc : (a b c : Bool) → a || (b || c) ≡ (a || b) || c
or_assoc a b c = ground arith

and_or : (a b c : Bool) → (a && c) || (b && c) ≡ (a || b) && c
and_or a b c = ground arith

or_in : (a b c : Bool) → (a ≡ true → c ≡ true) → a || (b && c) ≡ (a || b) && c
or_in true b c h = let e = h refl in ground (arith, e)
or_in false b c h = refl

or_out : (a b c : Bool) → (a ≡ true → c ≡ false) → b && c ≡ (a || b) && c
or_out true b c h = let e = h refl in ground (arith, e)
or_out false b c h = refl

module _ (x : String) where
  pub member-insert_text :
      (s : String) (ts : List String) → member x (insert_text s ts) ≡ str_eq x s || member x ts
  unfolding insert_text
  member-insert_text s [] = refl
  member-insert_text s (t ∷ ts) = elim (Bool-cases (text_leb s t)) [
    | inl first ↦ rw (first) refl
    | inr behind ↦
        rw (behind, member-insert_text s ts) (or_swap (str_eq x t) (str_eq x s) (member x ts))
  ]

  pub member-sorted : (ss : List String) → member x (sorted ss) ≡ member x ss
  unfolding sorted
  member-sorted [] = refl
  member-sorted (s ∷ ss) =
      member-insert_text s (sorted ss) ∙ ap (λ b. str_eq x s || b) (member-sorted ss)

  -- A text that stands again later
  again :
      (s : String) (ss : List String) → member s ss ≡ true → str_eq x s ≡ true → member x ss ≡ true
  again s ss h e = subst (λ t. member t ss ≡ true) (sym ((eq_iff x s).0 e)) h

  pub member-distinct : (ss : List String) → member x (distinct ss) ≡ member x ss
  unfolding distinct
  member-distinct [] = refl
  member-distinct (s ∷ ss) = elim (Bool-cases (member s ss)) [
    | inl there ↦
        rw (there, member-distinct ss) (or_again (str_eq x s) (member x ss) (again s ss there))
    | inr new ↦ rw (new, member-distinct ss) refl
  ]

  member-append : (xs ys : List String) → member x (xs ++ ys) ≡ member x xs || member x ys
  member-append [] ys = refl
  member-append (s ∷ xs) ys =
      rw (member-append xs ys) (or_assoc (str_eq x s) (member x xs) (member x ys))

  -- A member of a list that a filter leaves out
  filtered_out : (q : String → Bool) (s : String) → q s ≡ false → str_eq x s ≡ true → q x ≡ false
  filtered_out q s h e = subst (λ t. q t ≡ false) (sym ((eq_iff x s).0 e)) h

  filtered_in : (q : String → Bool) (s : String) → q s ≡ true → str_eq x s ≡ true → q x ≡ true
  filtered_in q s h e = subst (λ t. q t ≡ true) (sym ((eq_iff x s).0 e)) h

  member-filter :
      (q : String → Bool) (ss : List String) → member x (filter q ss) ≡ member x ss && q x
  member-filter q [] = refl
  member-filter q (s ∷ ss) = elim (Bool-cases (q s)) [
    | inl kept ↦
        rw (kept, member-filter q ss)
          (or_in (str_eq x s) (member x ss) (q x) (filtered_in q s kept))
    | inr dropped ↦
        rw (dropped, member-filter q ss)
          (or_out (str_eq x s) (member x ss) (q x) (filtered_out q s dropped))
  ]

  member-accepted :
      (excluded values : List String)
      → member x (accepted excluded values) ≡ member x values && not (member x excluded)
  member-accepted excluded values =
      member-sorted (filter (λ name. not (member name excluded)) (distinct values))
      ∙ (member-filter (λ name. not (member name excluded)) (distinct values)
          ∙ ap (λ b. b && not (member x excluded)) (member-distinct values))

  -- The name is in one of the groups.
  abbrev in_groups : List (String × List String) → Bool
  in_groups [] = false
  in_groups ((source, values) ∷ rest) = member x values || in_groups rest

  member-all_accepted :
      (excluded : List String) (gs : List (String × List String))
      → member x (all_accepted (source_map excluded gs)) ≡ in_groups gs && not (member x excluded)
  member-all_accepted excluded [] = refl
  member-all_accepted excluded ((source, values) ∷ gs) =
      member-append (accepted excluded values) (all_accepted (source_map excluded gs))
      ∙ rw (member-accepted excluded values, member-all_accepted excluded gs)
          (and_or (member x values) (in_groups gs) (not (member x excluded)))

  -- A profile of the chain brings the package in, or excludes it.
  abbrev pub in_profiles : List HardwareProfile → Bool
  in_profiles [] = false
  in_profiles (profile ∷ chain) = member x profile.packages || in_profiles chain

  abbrev pub out_of_profiles : List HardwareProfile → Bool
  out_of_profiles [] = false
  out_of_profiles (profile ∷ chain) = member x profile.exclude_packages || out_of_profiles chain

  -- Some group or profile asks for the package.
  abbrev pub is_wanted : ProjectConfiguration → List HardwareProfile → Bool
  is_wanted c chain =
      member x c.packages.base
      || (member x c.packages.graphical
          || (member x c.packages.xaac || (member x c.packages.optional || in_profiles chain)))

  -- The configuration or some profile excludes it.
  abbrev pub is_unwanted : ProjectConfiguration → List HardwareProfile → Bool
  is_unwanted c chain = member x c.packages.exclude || out_of_profiles chain

  in_groups-profiles :
      (chain : List HardwareProfile)
      → in_groups (map (λ profile. ("profile:" <> profile.name, profile.packages)) chain)
        ≡ in_profiles chain
  in_groups-profiles [] = refl
  in_groups-profiles (profile ∷ chain) =
      ap (λ b. member x profile.packages || b) (in_groups-profiles chain)

  member-exclusions :
      (chain : List HardwareProfile) → member x (exclusions chain) ≡ out_of_profiles chain
  member-exclusions [] = refl
  member-exclusions (profile ∷ chain) =
      member-append profile.exclude_packages (exclusions chain)
      ∙ ap (λ b. member x profile.exclude_packages || b) (member-exclusions chain)

  member-excluded_by :
      (c : ProjectConfiguration) (chain : List HardwareProfile)
      → member x (excluded_by c chain) ≡ is_unwanted c chain
  member-excluded_by c chain =
      member-distinct (c.packages.exclude ++ exclusions chain)
      ∙ (member-append c.packages.exclude (exclusions chain)
          ∙ ap (λ b. member x c.packages.exclude || b) (member-exclusions chain))

  pub member-packages :
      (c : ProjectConfiguration) (chain : List HardwareProfile)
      → member x (resolved c chain).packages ≡ is_wanted c chain && not (is_unwanted c chain)
  unfolding resolved
  member-packages c chain =
      let excluded = excluded_by c chain in
      let sources = all_accepted (source_map excluded (groups c chain)) in
      member-sorted (distinct sources)
      ∙ (member-distinct sources
          ∙ (member-all_accepted excluded (groups c chain)
              ∙ rw (in_groups-profiles chain, member-excluded_by c chain) refl))

  pub member-excluded :
      (c : ProjectConfiguration) (chain : List HardwareProfile)
      → member x (resolved c chain).excluded ≡ is_unwanted c chain
  unfolding resolved
  member-excluded c chain = member-sorted (excluded_by c chain) ∙ member-excluded_by c chain
