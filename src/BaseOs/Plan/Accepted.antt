-- ===== src/BaseOs/Plan/Accepted.antt =====
-- What an accepted plan is known to do.
use xaac_thin_client_os.Base.{
  ℕ, ℤ, pos, Bool, true, false, String, Option, none, ◌+◌, ◌==◌, if◌then◌else◌, arith, List, [],
  ◌∷◌, ◌≡◌, refl, subst, some, ap, sym, any, length, ltb_ℤ,
}
use xaac_thin_client_os.Json.{Json, Fields, text, as_list, json_eq}
use xaac_thin_client_os.Machine.{World, ok, Exc, pure, or_raise, run, Completed}
use xaac_thin_client_os.Machine.Inversion.{bind-ok, passed, known, pure-ok}
use xaac_thin_client_os.Update.{setting, int_setting}
use xaac_thin_client_os.Configuration.Booleans.{neither_of}
use xaac_thin_client_os.BaseOs.Plan.{
  Change, Plan, Approval, some_left, is_new, new_count, is_protected, dpkg_compare, is_kept_up,
  downgrades, approve, validate_plan,
}

listed :
    (value : Json) (names : List Json) (x : Exc) (w : World)
    → as_list value ≡ some names
    → or_raise (as_list value) x w ≡ (ok names, w)
unfolding pure
listed value names x w h = rw h refl

none_left : {A : Type 0} (xs : List A) → some_left xs ≡ false → xs ≡ []
none_left [] h = refl
none_left (x ∷ xs) h = cc

approved_changes :
    (policy : Fields) (changes : List Change) (w : World) (a : Approval)
    → (approve policy changes w).0 ≡ ok a
    → a.packages ≡ changes
unfolding approve
approved_changes policy changes w a e =
    let (value, (h1, e1)) = bind-ok _ _ w a e in
    let (found, (h2, e2)) = bind-ok _ _ _ a e1 in
    let (prefixes, (h3, e3)) = bind-ok _ _ _ a e2 in
    sym (ap (λ (r : Approval). r.packages) (pure-ok _ a _ e3))

abbrev pub one_if_new : Option String → ℕ
one_if_new none = 1
one_if_new (some v) = 0

-- How many of the changes install a package that is not there yet.
abbrev pub additions : List Change → ℕ
additions [] = 0
additions (c ∷ cs) = one_if_new c.installed + additions cs

is_new_lem :
    (o : Option String) (c : Change) → c.installed ≡ o → (if is_new c then 1 else 0) ≡ one_if_new o
is_new_lem none c h = rw (h) refl
is_new_lem (some v) c h = rw (h) refl

new_count_lem : (cs : List Change) → new_count cs ≡ additions cs
new_count_lem [] = refl
new_count_lem (c ∷ cs) = rw (is_new_lem c.installed c refl, new_count_lem cs) refl

-- No change is made to one of the packages that the policy protects.
abbrev pub AreUnprotected : List Json → List Change → Type 0
AreUnprotected protected [] = Unit
AreUnprotected protected (c ∷ cs) =
    (any (json_eq (text c.base_package)) protected ≡ false) × AreUnprotected protected cs

none_protected :
    (protected : List Json) (cs : List Change)
    → any (is_protected protected) cs ≡ false
    → AreUnprotected protected cs
none_protected protected [] h = tt
none_protected protected (c ∷ cs) h =
    let (one, others) = neither_of (is_protected protected c) (any (is_protected protected) cs) h in
    (one, none_protected protected cs others)

-- Asked whether the candidate is at least the installed version, dpkg answers with the code 0.
abbrev pub IsKept : String → Option String → World → Type 0
IsKept candidate none w = Unit
IsKept candidate (some version) w =
    (answer : Completed) × (((run
          ("/usr/bin/dpkg" ∷ "--compare-versions" ∷ candidate ∷ "ge" ∷ version ∷ []) w).0
        ≡ ok answer)
      × (answer.returncode ≡ 0))

-- Each change is asked about in the world that the question before it has left.
abbrev pub AreKept : List Change → World → Type 0
AreKept [] w = Unit
AreKept (c ∷ cs) w = IsKept c.candidate c.installed w × AreKept cs (is_kept_up c c.installed w).1

zero_code : (n : ℕ) → (n == 0) ≡ true → n ≡ 0
zero_code n h = ground arith

is_kept_up-IsKept :
    (c : Change) (o : Option String) (w : World)
    → (is_kept_up c o w).0 ≡ ok true
    → IsKept c.candidate o w
unfolding is_kept_up dpkg_compare
is_kept_up-IsKept c none w h = tt
is_kept_up-IsKept c (some version) w h =
    let (answer, (h1, e1)) = bind-ok _ _ w true h in
    (answer, (h1, zero_code answer.returncode (pure-ok (answer.returncode == 0) true _ e1)))

nothing_added :
    (fine : Bool) (name : String) (others : List String)
    → (if fine then others else name ∷ others) ≡ []
    → (fine ≡ true) × (others ≡ [])
nothing_added true name others h = (refl, h)
nothing_added false name others h = cc

downgrades-AreKept : (cs : List Change) (w : World) → (downgrades cs w).0 ≡ ok [] → AreKept cs w
unfolding downgrades
downgrades-AreKept [] w h = tt
downgrades-AreKept (c ∷ cs) w h =
    let (fine, (h1, e1)) = bind-ok (is_kept_up c c.installed) _ w [] h in
    let v : World = (is_kept_up c c.installed w).1 in
    let (others, (h2, e2)) = bind-ok (downgrades cs) _ v [] e1 in
    let (kept, left) = nothing_added fine c.pkg others (pure-ok _ [] (downgrades cs v).1 e2) in
    (
      is_kept_up-IsKept c c.installed w
          (subst (λ b. (is_kept_up c c.installed w).0 ≡ ok b) kept h1),
      downgrades-AreKept cs v (subst (λ d. (downgrades cs v).0 ≡ ok d) left h2),
    )

-- What the rules of the policy say of a plan.
pub record IsAllowed (most most_new : ℤ) (protected : List Json) (plan : Plan) (a : Approval)
    (w : World) : Type 0 where
  pub no_removals : plan.removals ≡ []
  pub bounded : ltb_ℤ most (pos (length plan.changes)) ≡ false
  pub bounded_new : ltb_ℤ most_new (pos (additions plan.changes)) ≡ false
  pub unprotected : AreUnprotected protected plan.changes
  pub no_downgrades : AreKept plan.changes w
  pub same_changes : a.packages ≡ plan.changes

-- A plan that `validate_plan` approves removes nothing, changes and adds no more packages than the
-- policy allows, touches no protected package, by the name of its base package, and holds no package for which dpkg answers that the
-- candidate is older than what is installed: asked whether the candidate is at least the installed
-- version, dpkg answers with the code 0; the approval lists exactly the plan's changes.
pub validate_plan-IsAllowed :
    (policy : Fields) (plan : Plan) (most most_new : ℤ) (value : Json) (protected : List Json)
    (w : World) (a : Approval)
    → int_setting policy "policy" "maximum_changed_packages" w ≡ (ok most, w)
    → int_setting policy "policy" "maximum_new_packages" w ≡ (ok most_new, w)
    → setting policy "policy" "protected_packages" w ≡ (ok value, w)
    → as_list value ≡ some protected
    → (validate_plan policy plan w).0 ≡ ok a
    → IsAllowed most most_new protected plan a w
unfolding validate_plan
validate_plan-IsAllowed policy plan most most_new value protected w a hm hn hs hl e =
    let (removals, e1) = passed _ _ _ w a e in
    let (changed, e2) = passed _ _ _ w a (known _ _ w most a hm e1) in
    let (added, e3) = passed _ _ _ w a (known _ _ w most_new a hn e2) in
    let (untouched, e4) =
      passed _ _ _ w a
        (known _ _ w protected a (listed value protected _ w hl) (known _ _ w value a hs e3)) in
    let (down, (found, e5)) = bind-ok _ _ w a e4 in
    let (fine, e6) = passed _ _ _ _ a e5 in
    record {
      no_removals = none_left _ removals;
      bounded = changed;
      bounded_new = subst (λ n. ltb_ℤ most_new (pos n) ≡ false) (new_count_lem plan.changes) added;
      unprotected = none_protected protected plan.changes untouched;
      no_downgrades =
          downgrades-AreKept plan.changes w
            (subst (λ d. (downgrades plan.changes w).0 ≡ ok d) (none_left down fine) found);
      same_changes = approved_changes policy plan.changes _ a e6;
    }
