-- ===== src/Base/Words.antt =====
-- More of Python's `str`: words, lines, cuts, searches, and the text of a number.
use Prim.Native.Nat.{ℕ, zero, suc, ◌+◌, ◌/◌, ◌%◌}
use Prim.Native.Char.{Char, code}
use Prim.Native.String.{String}
use mathlib.Core.Bool.{Bool, true, false, ◌&&◌, ◌||◌}
use mathlib.Core.Option.{Option, none, some}
use mathlib.Core.List.{List, [], ◌∷◌}
use xaac_thin_client_os.Base.Tests.{leb, ltb, ◌==◌, if◌then◌else◌}
use xaac_thin_client_os.Base.Text.{
  ◌<>◌, is_char, is_empty, is_space, str_eq, member, split_char, push, strip_prefix,
}

-- The code of `c.lower()`, for ASCII letters.
abbrev fold_code : Char → ℕ
fold_code c = if leb b'A' (code c) && leb (code c) b'Z' then code c + 32 else code c

-- `strip_prefix` up to the case of letters
unfoldable pub strip_folded : String → String → Option String
strip_folded String.[] s = some s
strip_folded (String.◌∷◌ p ps) String.[] = none
strip_folded (String.◌∷◌ p ps) (String.◌∷◌ c s) =
    let rest = strip_folded ps s in if fold_code p == fold_code c then rest else none

abbrev pub is_whole : Option String → Bool
is_whole none = false
is_whole (some s) = is_empty s

-- `s.lower() == t`, for a `t` in lower case
unfoldable pub eq_folded : String → String → Bool
unfolding strip_folded
eq_folded t s = is_whole (strip_folded t s)

abbrev pub is_found : {A : Type 0} → Option A → Bool
is_found none = false
is_found (some a) = true

-- `s.startswith(p)`
abbrev pub starts_with : String → String → Bool
starts_with p s = is_found (strip_prefix p s)

-- `p in s`
unfoldable pub contains : String → String → Bool
contains p String.[] = is_empty p
contains p (String.◌∷◌ c s) = starts_with p (String.◌∷◌ c s) || contains p s

-- `p in s.lower()`, for a `p` in lower case
unfoldable pub contains_folded : String → String → Bool
unfolding strip_folded
contains_folded p String.[] = is_empty p
contains_folded p (String.◌∷◌ c s) =
    is_found (strip_folded p (String.◌∷◌ c s)) || contains_folded p s

-- `s.endswith(p)`
unfoldable pub ends_with : String → String → Bool
ends_with p String.[] = is_empty p
ends_with p (String.◌∷◌ c s) = str_eq p (String.◌∷◌ c s) || ends_with p s

drop_empty : List String → List String
drop_empty [] = []
drop_empty (s ∷ ss) = let rest = drop_empty ss in if is_empty s then rest else s ∷ rest

split_space : String → List String
split_space String.[] = String.[] ∷ []
split_space (String.◌∷◌ c s) =
    let rest = split_space s in if is_space c then String.[] ∷ rest else push c rest

-- `s.split()`
unfoldable pub words : String → List String
unfolding drop_empty split_space is_space push
words s = drop_empty (split_space s)

unfoldable pub drop_last_empty : List String → List String
drop_last_empty [] = []
drop_last_empty (s ∷ []) = if is_empty s then [] else s ∷ []
drop_last_empty (s ∷ t ∷ ss) = s ∷ drop_last_empty (t ∷ ss)

-- `s.splitlines()`, for lines that "\n" ends
unfoldable pub lines : String → List String
unfolding drop_last_empty split_char
lines s = drop_last_empty (split_char b'\n' s)

before : Char → Option (String × String) → Option (String × String)
before c none = none
before c (some (s, t)) = some (String.◌∷◌ c s, t)

-- `s.split(k, 1)`, where the character `k` is in `s`
unfoldable pub cut : ℕ → String → Option (String × String)
unfolding before
cut k String.[] = none
cut k (String.◌∷◌ c s) =
    let rest = cut k s in if is_char k c then some (String.[], s) else before c rest

-- `s.rstrip(k)`, for one character
unfoldable pub rstrip_char : ℕ → String → String
rstrip_char k String.[] = String.[]
rstrip_char k (String.◌∷◌ c s) =
    let rest = rstrip_char k s in
    if is_empty rest && is_char k c then String.[] else String.◌∷◌ c rest

unfoldable pub lstrip_char : ℕ → String → String
lstrip_char k String.[] = String.[]
lstrip_char k (String.◌∷◌ c s) =
    let rest = lstrip_char k s in if is_char k c then rest else String.◌∷◌ c s

-- `s.strip(k)`, for one character
unfoldable pub strip_char : ℕ → String → String
unfolding rstrip_char lstrip_char
strip_char k s = rstrip_char k (lstrip_char k s)

-- `sep.join(ss)`
unfoldable pub join_with : String → List String → String
join_with sep [] = ""
join_with sep (s ∷ []) = s
join_with sep (s ∷ t ∷ ss) = s <> sep <> join_with sep (t ∷ ss)

-- the elements of `set(ss)`, in some order
unfoldable pub distinct : List String → List String
distinct [] = []
distinct (s ∷ ss) = let rest = distinct ss in if member s ss then rest else s ∷ rest

nth : ℕ → List String → String
nth n [] = ""
nth zero (s ∷ ss) = s
nth (suc n) (s ∷ ss) = nth n ss

digit : ℕ → String
unfolding nth
digit n = nth n ("0" ∷ "1" ∷ "2" ∷ "3" ∷ "4" ∷ "5" ∷ "6" ∷ "7" ∷ "8" ∷ "9" ∷ [])

digits : ℕ → ℕ → String
unfolding digit
digits zero n = digit n
digits (suc fuel) n =
    let more = digits fuel (n / 10) <> digit (n % 10) in if ltb n 10 then digit n else more

-- `str(n)`: a number has fewer digits than it counts
unfoldable pub decimal : ℕ → String
unfolding digits
decimal n = digits n n
