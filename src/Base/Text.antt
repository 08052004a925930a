-- ===== src/Base/Text.antt =====
-- Python's `str` as the native text: the operations that the program makes on it.
use Prim.Native.Nat.{ℕ, Ordering}
use Prim.Native.Char.{Char, code}
use Prim.Native.String
use Prim.Native.String.{String}
use mathlib.Core.Bool.{Bool, true, false, ◌&&◌, ◌||◌}
use mathlib.Core.Option.{Option, none, some}
use mathlib.Core.List.{List, [], ◌∷◌}
use text.Mathlib.Text
use xaac_thin_client_os.Base.Tests.{leb, ◌==◌, if◌then◌else◌}

infixl 65 ◌<>◌
abbrev pub ◌<>◌ : String → String → String
s <> t = String.◌++◌ s t

abbrev pub str_eq : String → String → Bool
str_eq s t = Text.◌==◌ s t

abbrev pub is_char : ℕ → Char → Bool
is_char k c = code c == k

-- `not s`
abbrev pub is_empty : String → Bool
is_empty String.[] = true
is_empty (String.◌∷◌ c s) = false

-- `"x" in s`, for one character
abbrev pub has_char : ℕ → String → Bool
has_char k String.[] = false
has_char k (String.◌∷◌ c s) = is_char k c || has_char k s

-- `s in names`, for a list or a set of texts
abbrev pub member : String → List String → Bool
member s [] = false
member s (t ∷ ts) = str_eq s t || member s ts

-- `s.startswith(c)`, for one character
abbrev pub starts_char : ℕ → String → Bool
starts_char k String.[] = false
starts_char k (String.◌∷◌ c s) = is_char k c

-- `s.replace(a, b)`, for single characters
unfoldable pub replace_char : ℕ → Char → String → String
replace_char k d String.[] = String.[]
replace_char k d (String.◌∷◌ c s) = String.◌∷◌ (if is_char k c then d else c) (replace_char k d s)

unfoldable pub is_space : Char → Bool
is_space c = is_char 32 c || (leb 9 (code c) && leb (code c) 13)

unfoldable pub strip_left : String → String
strip_left String.[] = String.[]
strip_left (String.◌∷◌ c s) = let rest = strip_left s in if is_space c then rest else String.◌∷◌ c s

unfoldable pub strip_right : String → String
strip_right String.[] = String.[]
strip_right (String.◌∷◌ c s) =
    let rest = strip_right s in if is_empty rest && is_space c then String.[] else String.◌∷◌ c rest

-- `s.strip()`, for ASCII blanks
unfoldable pub strip : String → String
unfolding strip_left strip_right is_space
strip s = strip_right (strip_left s)

unfoldable pub push : Char → List String → List String
push c [] = String.◌∷◌ c String.[] ∷ []
push c (part ∷ parts) = String.◌∷◌ c part ∷ parts

-- `s.split(k)`, for one character: never the empty list
unfoldable pub split_char : ℕ → String → List String
unfolding push
split_char k String.[] = String.[] ∷ []
split_char k (String.◌∷◌ c s) =
    let rest = split_char k s in if is_char k c then String.[] ∷ rest else push c rest

drop_blank : List String → List String
drop_blank [] = []
drop_blank (s ∷ ss) =
    let rest = drop_blank ss in if is_empty (strip s) then rest else strip s ∷ rest

-- `[line.strip() for line in s.splitlines() if line.strip()]`
unfoldable pub stripped_lines : String → List String
unfolding split_char strip drop_blank
stripped_lines s = drop_blank (split_char 10 s)

-- What follows a prefix, where `s` begins with it.
unfoldable pub strip_prefix : String → String → Option String
strip_prefix String.[] s = some s
strip_prefix (String.◌∷◌ p ps) String.[] = none
strip_prefix (String.◌∷◌ p ps) (String.◌∷◌ c s) =
    let rest = strip_prefix ps s in if is_char (code p) c then rest else none

unfoldable pub text_leb : String → String → Bool
text_leb s t = elim (String.compare s t) [ Ordering.gt ↦ false | _ ↦ true ]

unfoldable pub insert_text : String → List String → List String
insert_text s [] = s ∷ []
insert_text s (t ∷ ts) =
    let later = insert_text s ts in if text_leb s t then s ∷ t ∷ ts else t ∷ later

-- `sorted(texts)`
unfoldable pub sorted : List String → List String
unfolding text_leb insert_text
sorted [] = []
sorted (s ∷ ss) = insert_text s (sorted ss)
