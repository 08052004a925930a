-- ===== src/BaseOs/Trust/Trusted.antt =====
-- What accepted sources are.
use xaac_thin_client_os.Base.{
  Bool, true, false, not, String, List, [], ◌∷◌, ◌≡◌, refl, ◌&&◌, all, length, starts_with, arith,
  Option, none, some, str_eq, is_empty, contains_folded, ap, ◌∙◌, sym, subst,
}
use xaac_thin_client_os.Json.{Fields, Json}
use xaac_thin_client_os.Machine.{World, ok, ◌>>=◌, pure, traverse}
use xaac_thin_client_os.Machine.Inversion.{bind-ok, passed, pure-ok}
use xaac_thin_client_os.BaseOs.Sources.{Source, source_files}
use xaac_thin_client_os.BaseOs.Trust.{
  Origin, Report, all_in, is_signed, check_source, accept_sources, list_of, allowed_of, parse_files,
  validate_sources,
}

-- Over HTTPS, signed by Debian's keyring, and without the word `trusted=yes`, in any case of letters,
-- among the options in brackets.
abbrev pub is_trusted : Source → Bool
is_trusted s =
    starts_with "https://" s.uri
    && (not (contains_folded "trusted=yes" s.options) && elim s.signed_by [
      | none ↦ false
      | some path ↦ str_eq path "/usr/share/keyrings/debian-archive-keyring.gpg"
    ])

-- Options that the test of the code lets through.
without_word :
    (options : String)
    → not (is_empty options) && contains_folded "trusted=yes" options ≡ false
    → contains_folded "trusted=yes" options ≡ false
unfolding contains_folded
without_word String.[] h = refl
without_word (String.◌∷◌ c s) h = h

signed_lem :
    (path : Option String)
    → not (is_signed path) ≡ false
    → elim path [
      | none ↦ false
      | some p ↦ str_eq p "/usr/share/keyrings/debian-archive-keyring.gpg"
    ]
      ≡ true
signed_lem none h = absurd (ground (arith, h))
signed_lem (some p) h = ground (arith, h)

abbrev pub origin_of : Source → Origin
origin_of s = record { at_uri = s.uri; at_suite = s.suite; of_components = s.components }

abbrev pub origins : List Source → List Origin
origins [] = []
origins (s ∷ ss) = origin_of s ∷ origins ss

all_three : (a b c : Bool) → not a ≡ false → b ≡ false → c ≡ true → a && (not b && c) ≡ true
all_three a b c h k l = ground arith

check_source_lem :
    (s : Source) (w : World) (o : Origin)
    → (check_source s w).0 ≡ ok o
    → (is_trusted s ≡ true) × (o ≡ origin_of s)
unfolding check_source
check_source_lem s w o e =
    let (https, e1) = passed _ _ _ w o e in
    let (secure, e2) = passed _ _ _ _ o e1 in
    let (signed, e3) = passed _ _ _ _ o e2 in
    (
      all_three (starts_with "https://" s.uri) (contains_folded "trusted=yes" s.options) _ https
          (without_word s.options secure) (signed_lem s.signed_by signed),
      sym (pure-ok _ o _ e3),
    )

check_sources_lem :
    (ss : List Source) (w : World) (os : List Origin)
    → (traverse ss check_source w).0 ≡ ok os
    → (all is_trusted ss ≡ true) × (os ≡ origins ss)
unfolding traverse
check_sources_lem [] w os e = (refl, sym (pure-ok [] os w e))
check_sources_lem (s ∷ ss) w os e =
    let (o, (h1, e1)) =
      bind-ok (check_source s) (λ o. traverse ss check_source >>= λ rest. pure (o ∷ rest)) w os e in
    let (rest, (h2, e2)) =
      bind-ok (traverse ss check_source) (λ rest. pure (o ∷ rest)) (check_source s w).1 os e1 in
    let (first, same) = check_source_lem s w o h1 in
    let (others, same') = check_sources_lem ss (check_source s w).1 rest h2 in
    (
      ground (arith, first, others),
      sym (pure-ok (o ∷ rest) os (traverse ss check_source (check_source s w).1).1 e2)
          ∙ (ap (λ x. x ∷ rest) same ∙ ap (λ xs. origin_of s ∷ xs) same'),
    )

-- Where the policy's repositories have been read, and where the sources are read.
abbrev pub listed : Fields → World → World
listed policy w = (list_of "repositories" policy w).1

abbrev pub found : Fields → List Json → World → World
found policy repositories w = (source_files (allowed_of repositories (listed policy w)).1).1

-- The origins that the policy allows, and the sources of the files that a report names, each as the
-- run from the world `w` reads them.
pub record IsTrusted (policy : Fields) (w : World) (report : Report) : Type 0 where
  pub repositories : List Json
  pub repositories_lem : (list_of "repositories" policy w).0 ≡ ok repositories
  pub allowed : List Origin
  pub allowed_lem : (allowed_of repositories (listed policy w)).0 ≡ ok allowed
  pub sources : List Source
  pub sources_lem : (parse_files report.files (found policy repositories w)).0 ≡ ok sources
  pub trusted : all is_trusted sources ≡ true
  pub inside : all_in (origins sources) allowed ≡ true
  pub covered : all_in allowed (origins sources) ≡ true
  pub counted : report.entries ≡ length sources

both_in : (a b : Bool) → not (a && b) ≡ false → (a ≡ true) × (b ≡ true)
both_in a b h = ground arith

accept_sources_lem :
    (allowed : List Origin) (files : List String) (ss : List Source) (w : World) (r : Report)
    → (accept_sources allowed files ss w).0 ≡ ok r
    → (all is_trusted ss ≡ true)
      × (all_in (origins ss) allowed ≡ true)
      × (all_in allowed (origins ss) ≡ true)
      × (r.files ≡ files)
      × (r.entries ≡ length ss)
unfolding accept_sources
accept_sources_lem allowed files ss w r e =
    let (actual, (h1, e1)) = bind-ok _ _ w r e in
    let (within, e2) = passed _ _ _ _ r e1 in
    let (there, (h3, e3)) = bind-ok _ _ _ r e2 in
    let (kept, e4) = passed _ _ _ _ r e3 in
    let (trusted, same) = check_sources_lem ss w actual h1 in
    let (one, two) = both_in (all_in actual allowed) (all_in allowed actual) within in
    let made = pure-ok _ r _ e4 in
    (
      trusted,
      subst (λ os. all_in os allowed ≡ true) same one,
      subst (λ os. all_in allowed os ≡ true) same two,
      sym (ap (λ (x : Report). x.files) made),
      sym (ap (λ (x : Report). x.entries) made),
    )

-- Where `validate_sources` accepts, every source of the files that it names is reached over HTTPS, is
-- signed by Debian's keyring and has no `trusted=yes`, in any case of letters, among its options in
-- brackets, and the sources are those that the policy allows: none outside it, and none of it missing.
-- Other ways to mark a source as trusted are not excluded: the field `Trusted: yes` of a Deb822 source,
-- and `trusted=true` or `trusted=1`.
pub validate_sources-IsTrusted :
    (policy : Fields) (w : World) (r : Report)
    → (validate_sources policy w).0 ≡ ok r
    → IsTrusted policy w r
unfolding validate_sources
validate_sources-IsTrusted policy w r e =
    let (repositories, (h1, e1)) = bind-ok _ _ w r e in
    let (allowed, (h2, e2)) = bind-ok _ _ (listed policy w) r e1 in
    let (files, (h3, e3)) = bind-ok _ _ (allowed_of repositories (listed policy w)).1 r e2 in
    let (some_files, e4) = passed _ _ _ (found policy repositories w) r e3 in
    let (sources, (h5, e5)) = bind-ok _ _ (found policy repositories w) r e4 in
    let (trusted, one, two, named, counted) = accept_sources_lem allowed files sources _ r e5 in
    record {
      repositories = repositories;
      repositories_lem = h1;
      allowed = allowed;
      allowed_lem = h2;
      sources = sources;
      sources_lem =
          subst (λ fs. (parse_files fs (found policy repositories w)).0 ≡ ok sources) (sym named)
            h5;
      trusted = trusted;
      inside = one;
      covered = two;
      counted = counted;
    }
