-- ===== src/Maintenance/Clean.antt =====
-- What the lines of a sanitized text are.
use xaac_thin_client_os.Base.{
  ℕ, Bool, true, false, not, List, [], ◌∷◌, ◌++◌, ◌≡◌, refl, ap, ◌∙◌, sym, subst, ◌<>◌, ◌||◌, all,
  map, is_char, has_char, push, split_char, lines, drop_last_empty, join_with, ends_with,
  Bool-cases, inl, inr, arith,
}
use Prim.Native.Char.{Char}
use Prim.Native.String.{String}
use text.Mathlib.TextLemmas.{nil-append, cons-append, append_assoc, append-nil}
use xaac_thin_client_os.Maintenance.Patterns.{
  is_sensitive, redacted_line, redact_line, substituted, sanitize_text, names_p12,
}
use xaac_thin_client_os.Base.{contains_folded, strip_folded}

abbrev newline : ℕ
newline = 10

abbrev plain : String → Bool
plain line = not (has_char newline line)

-- The parts of a text between its line ends.
abbrev parts : String → List String
parts s = split_char newline s

push-plain :
    (c : Char) (ss : List String)
    → is_char newline c ≡ false
    → all plain ss ≡ true
    → all plain (push c ss) ≡ true
unfolding push
push-plain c [] h a = ground arith
push-plain c (s ∷ ss) h a = ground arith

-- No part has a line end in it.
split_char-plain : (s : String) → all plain (parts s) ≡ true
unfolding split_char
split_char-plain String.[] = refl
split_char-plain (String.◌∷◌ c s) = elim (Bool-cases (is_char newline c)) [
  | inl ends ↦ rw (ends) (split_char-plain s)
  | inr inside ↦ rw (inside) (push-plain c (parts s) inside (split_char-plain s))
]

abbrev safe : String → Bool
safe line = not (is_sensitive line)

redacted_line-safe : safe redacted_line ≡ true
unfolding is_sensitive contains_folded strip_folded names_p12
redacted_line-safe = refl

redact_line-safe : (line : String) → safe (redact_line line) ≡ true
unfolding redact_line
redact_line-safe line = elim (Bool-cases (is_sensitive line)) [
  | inl found ↦ rw (found) redacted_line-safe
  | inr fine ↦ rw (fine, fine) refl
]

redact_line-plain : (line : String) → plain line ≡ true → plain (redact_line line) ≡ true
unfolding redact_line
redact_line-plain line h = elim (Bool-cases (is_sensitive line)) [
  | inl found ↦ rw (found) refl
  | inr fine ↦ rw (fine) h
]

map-plain : (ls : List String) → all plain ls ≡ true → all plain (map redact_line ls) ≡ true
map-plain [] h = refl
map-plain (l ∷ ls) h = ground (arith, redact_line-plain l, map-plain ls)

map-safe : (ls : List String) → all safe (map redact_line ls) ≡ true
map-safe [] = refl
map-safe (l ∷ ls) = ground (arith, redact_line-safe l, map-safe ls)

drop_last_empty-all :
    (p : String → Bool) (ss : List String) → all p ss ≡ true → all p (drop_last_empty ss) ≡ true
unfolding drop_last_empty
drop_last_empty-all p [] h = refl
drop_last_empty-all p (s ∷ []) h = ground arith
drop_last_empty-all p (s ∷ t ∷ ss) h = ground (arith, drop_last_empty-all p (t ∷ ss))

all-append :
    (p : String → Bool) (xs ys : List String)
    → all p xs ≡ true
    → all p ys ≡ true
    → all p (xs ++ ys) ≡ true
all-append p [] ys h k = k
all-append p (x ∷ xs) ys h k = ground (arith, all-append p xs ys)

neither : (a b : Bool) → not (a || b) ≡ true → (a ≡ false) × (not b ≡ true)
neither a b h = (ground arith, ground arith)

-- A text without a line end is one part.
parts-plain : (s : String) → plain s ≡ true → parts s ≡ s ∷ []
unfolding split_char push
parts-plain String.[] h = refl
parts-plain (String.◌∷◌ c s) h =
    let (one, others) = neither (is_char newline c) (has_char newline s) h in
    rw (one, parts-plain s others) refl

abbrev end_char : Char
end_char = "\n"

newline-append : (t : String) → "\n" <> t ≡ String.◌∷◌ end_char t
newline-append t = cons-append end_char "" t ∙ ap (String.◌∷◌ end_char) (nil-append t)

parts-append : (s t : String) → plain s ≡ true → parts (s <> ("\n" <> t)) ≡ s ∷ parts t
unfolding split_char push
parts-append String.[] t h = ap parts (nil-append ("\n" <> t) ∙ newline-append t)
parts-append (String.◌∷◌ c s) t h =
    let (one, others) = neither (is_char newline c) (has_char newline s) h in
    ap parts (cons-append c s ("\n" <> t)) ∙ rw (one, parts-append s t others) refl

parts-join :
    (s : String) (ss : List String)
    → all plain (s ∷ ss) ≡ true
    → parts (join_with "\n" (s ∷ ss)) ≡ s ∷ ss
unfolding join_with
parts-join s [] h = parts-plain s (ground arith)
parts-join s (t ∷ ss) h =
    ap parts (append_assoc s "\n" (join_with "\n" (t ∷ ss)))
    ∙ (parts-append s (join_with "\n" (t ∷ ss)) (ground arith)
        ∙ ap (λ ls. s ∷ ls) (parts-join t ss (ground arith)))

parts-join-end :
    (s : String) (ss : List String)
    → all plain (s ∷ ss) ≡ true
    → parts (join_with "\n" (s ∷ ss) <> "\n") ≡ (s ∷ ss) ++ "" ∷ []
unfolding join_with split_char
parts-join-end s [] h =
    ap (λ e. parts (s <> e)) (sym (append-nil "\n")) ∙ parts-append s "" (ground arith)
parts-join-end s (t ∷ ss) h =
    ap parts (
      append_assoc (s <> "\n") (join_with "\n" (t ∷ ss)) "\n"
      ∙ append_assoc s "\n" (join_with "\n" (t ∷ ss) <> "\n"))
    ∙ (parts-append s (join_with "\n" (t ∷ ss) <> "\n") (ground arith)
        ∙ ap (λ ls. s ∷ ls) (parts-join-end t ss (ground arith)))

empty-safe : all safe ("" ∷ []) ≡ true
unfolding is_sensitive contains_folded strip_folded names_p12
empty-safe = refl

-- The lines that are joined are the lines of the text, but for an empty one in the end.
joined-safe :
    (ls : List String)
    → all plain ls ≡ true
    → all safe ls ≡ true
    → all safe (lines (join_with "\n" ls)) ≡ true
unfolding lines join_with
joined-safe [] h k = refl
joined-safe (l ∷ ls) h k =
    subst (λ ss. all safe (drop_last_empty ss) ≡ true) (sym (parts-join l ls h))
      (drop_last_empty-all safe (l ∷ ls) k)

ended-safe :
    (ls : List String)
    → all plain ls ≡ true
    → all safe ls ≡ true
    → all safe (lines (join_with "\n" ls <> "\n")) ≡ true
unfolding lines join_with
ended-safe [] h k = empty-safe
ended-safe (l ∷ ls) h k =
    subst (λ ss. all safe (drop_last_empty ss) ≡ true) (sym (parts-join-end l ls h))
      (drop_last_empty-all safe ((l ∷ ls) ++ "" ∷ [])
        (all-append safe (l ∷ ls) ("" ∷ []) k empty-safe))

lines-plain : (s : String) → all plain (lines s) ≡ true
unfolding lines
lines-plain s = drop_last_empty-all plain (parts s) (split_char-plain s)

-- No line matches the pattern of sensitive lines.
abbrev pub IsClean : String → Type 0
IsClean s = all (λ line. not (is_sensitive line)) (lines s) ≡ true

-- Whatever text is sanitized, no line of the result matches the pattern of sensitive lines: none of
-- the words that it looks for is left, in any case of letters.
pub sanitize_text-IsClean : (value : String) → IsClean (sanitize_text value)
unfolding sanitize_text
sanitize_text-IsClean value =
    let ls = map redact_line (lines (substituted value)) in
    let fine = map-plain (lines (substituted value)) (lines-plain (substituted value)) in
    let clean = map-safe (lines (substituted value)) in
    elim (Bool-cases (ends_with "\n" value)) [
      | inl ended ↦ rw (ended) (ended-safe ls fine clean)
      | inr open_end ↦ rw (open_end) (joined-safe ls fine clean)
    ]
