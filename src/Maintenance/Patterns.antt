-- ===== src/Maintenance/Patterns.antt =====
-- The regular expressions of the maintenance runtime, and `sanitize_text`, which applies them.
use xaac_thin_client_os.Base.{
  ℕ, zero, suc, ◌-◌, Bool, true, false, not, Option, none, some, List, [], ◌∷◌, leb, ◌||◌, ◌&&◌,
  ◌<>◌, any, map, is_char, is_space, is_empty, strip_folded, strip_prefix, contains_folded,
  ends_with, lines, join_with, if◌then◌else◌, eq_folded,
}
use Prim.Native.Char.{Char, code}
use Prim.Native.String.{String}

-- `\w`, for ASCII
unfoldable pub is_word : Char → Bool
is_word c =
    (leb b'a' (code c) && leb (code c) b'z')
    || (leb b'A' (code c) && leb (code c) b'Z')
    || (leb b'0' (code c) && leb (code c) b'9')
    || is_char b'_' c

-- The longest start of a text whose characters pass a test, and what follows it.
unfoldable pub span : (Char → Bool) → String → String × String
span p String.[] = (String.[], String.[])
span p (String.◌∷◌ c s) =
    let rest = span p s in
    if p c then (String.◌∷◌ c rest.0, rest.1) else (String.[], String.◌∷◌ c s)

unfoldable pub size : String → ℕ
size String.[] = 0
size (String.◌∷◌ c s) = suc (size s)

-- What a pattern matches at some place: what is put there, and what follows.
abbrev pub Match : Type 0
Match = Option (String × String)

-- `pattern.sub`: from left to right, matches do not overlap. The matcher gets whether a word
-- character stands before the place; the number counts the characters that a match still covers.
unfoldable pub substitute : (Bool → String → Match) → Bool → ℕ → String → String
unfolding is_word size
substitute at b n String.[] = String.[]
substitute at b (suc n) (String.◌∷◌ c s) = substitute at (is_word c) n s
substitute at b zero (String.◌∷◌ c s) = elim (at b (String.◌∷◌ c s)) [
  | none ↦ String.◌∷◌ c (substitute at (is_word c) zero s)
  | some (put, rest) ↦ put <> substitute at (is_word c) (size s - size rest) s
]

-- A text that ends in `p`, up to case
unfoldable pub ends_folded : String → String → Bool
unfolding strip_folded
ends_folded p String.[] = is_empty p
ends_folded p (String.◌∷◌ c s) = eq_folded p (String.◌∷◌ c s) || ends_folded p s

abbrev in_header : Char → Bool
in_header c = not (is_char b'-' c || is_char 10 c)

abbrev header_end : String × String → Option String
header_end (run, rest) = if ends_folded "private key" run then strip_prefix "-----" rest else none

-- `-----BEGIN [^-\n]*PRIVATE KEY-----`, or the one with END, at the start of the text. The run of
-- other characters ends where a dash stands, so that there is one way to match.
unfoldable pub header : String → String → Option String
unfolding span ends_folded
header word s = elim (strip_folded word s) [
  | none ↦ none
  | some rest ↦ header_end (span in_header rest)
]

-- `.*?` and the end of the key
unfoldable pub key_end : String → Option String
unfolding header
key_end String.[] = none
key_end (String.◌∷◌ c s) = elim (header "-----end " (String.◌∷◌ c s)) [
  | some rest ↦ some rest
  | none ↦ key_end s
]

abbrev replaced_by : String → Option String → Match
replaced_by put none = none
replaced_by put (some rest) = some (put, rest)

-- `_PEM_PRIVATE`
unfoldable pub pem_private : Bool → String → Match
unfolding header key_end
pem_private b s = elim (header "-----begin " s) [
  | none ↦ none
  | some rest ↦ replaced_by "[REDACTED PRIVATE KEY]" (key_end rest)
]

abbrev in_user : Char → Bool
in_user c = not (is_space c || is_char b'/' c || is_char b':' c || is_char b'@' c)

abbrev in_password : Char → Bool
in_password c = not (is_space c || is_char b'/' c || is_char b'@' c)

abbrev with_password : String → String × String → Match
with_password user (password, rest) =
    if is_empty password
    then none
    else replaced_by ("://" <> (user <> ":[REDACTED]@")) (strip_prefix "@" rest)

abbrev with_user : String × String → Match
with_user (user, rest) = if is_empty user then none else elim (strip_prefix ":" rest) [
  | none ↦ none
  | some s ↦ with_password user (span in_password s)
]

-- `_URL_CREDENTIALS`
unfoldable pub url_credentials : Bool → String → Match
unfolding span is_space
url_credentials b s = elim (strip_prefix "://" s) [
  | none ↦ none
  | some rest ↦ with_user (span in_user rest)
]

abbrev in_bearer : Char → Bool
in_bearer c =
    (leb b'a' (code c) && leb (code c) b'z')
    || (leb b'A' (code c) && leb (code c) b'Z')
    || (leb b'0' (code c) && leb (code c) b'9')
    || is_char b'+' c
    || is_char b'/' c
    || is_char b'=' c
    || is_char b'_' c
    || is_char b':' c
    || is_char b'.' c
    || is_char b'~' c
    || is_char b'-' c

-- The first `n` characters.
unfoldable pub start : ℕ → String → String
start zero s = String.[]
start (suc n) String.[] = String.[]
start (suc n) (String.◌∷◌ c s) = String.◌∷◌ c (start n s)

-- `\s+` and the value
abbrev bearer_value : String → String × String → Match
bearer_value scheme (blanks, rest) =
    if is_empty blanks
    then none
    else (let (value, more) = span in_bearer rest in
        if is_empty value then none else some (scheme <> " [REDACTED]", more))

abbrev scheme_value : String → ℕ → Option String → Match
scheme_value s n none = none
scheme_value s n (some rest) = bearer_value (start n s) (span is_space rest)

abbrev or_else : Match → Match → Match
or_else (some m) other = some m
or_else none other = other

-- `_BEARER_VALUE`
unfoldable pub bearer : Bool → String → Match
unfolding span start is_space
bearer true s = none
bearer false s =
    or_else (scheme_value s 6 (strip_folded "bearer" s)) (scheme_value s 5 (strip_folded "basic" s))

abbrev begins_word : String → Bool
begins_word String.[] = false
begins_word (String.◌∷◌ c s) = is_word c

abbrev in_secret : Char → Bool
in_secret c = not (is_space c || is_char b',' c || is_char b';' c)

-- `[:=]`
abbrev sign : String → Option String
sign String.[] = none
sign (String.◌∷◌ c s) = if is_char b':' c || is_char b'=' c then some s else none

abbrev secret_value : String → Option String → Match
secret_value word none = none
secret_value word (some s) =
    let (value, rest) = span in_secret (span is_space s).1 in
    if is_empty value then none else some (word <> "=[REDACTED]", rest)

abbrev secret_word : String → ℕ → Option String → Match
secret_word s n none = none
secret_word s n (some rest) =
    if begins_word rest then none else secret_value (start n s) (sign (span is_space rest).1)

-- `_ASSIGNMENT_SECRET`
unfoldable pub assignment : Bool → String → Match
unfolding span start is_space is_word
assignment true s = none
assignment false s = or_else (secret_word s 8 (strip_folded "password" s)) (
    or_else (secret_word s 6 (strip_folded "passwd" s)) (
      or_else (secret_word s 10 (strip_folded "passphrase" s)) (
        or_else (secret_word s 5 (strip_folded "token" s)) (
          or_else (secret_word s 3 (strip_folded "otp" s))
            (secret_word s 6 (strip_folded "secret" s))))))

-- The words of `_SENSITIVE_LINE`, the sets `[-_ ]` written out.
abbrev pub sensitive_words : List String
sensitive_words =
    "password" ∷ "passwd" ∷ "passphrase" ∷ "credential" ∷ "authorization" ∷ "bearer" ∷ "token"
    ∷ "otp" ∷ "one-time" ∷ "one_time" ∷ "one time" ∷ "secret" ∷ "privatekey" ∷ "private-key"
    ∷ "private_key" ∷ "private key" ∷ "auth-user-pass" ∷ "pkcs12" ∷ "enrollment.token"
    ∷ "client.key" ∷ []

abbrev closes_word : Option String → Bool
closes_word none = false
closes_word (some rest) = not (begins_word rest)

-- `\.p12\b`
unfoldable pub names_p12 : String → Bool
unfolding is_word
names_p12 String.[] = false
names_p12 (String.◌∷◌ c s) = closes_word (strip_folded ".p12" (String.◌∷◌ c s)) || names_p12 s

-- `_SENSITIVE_LINE.search(line)`
unfoldable pub is_sensitive : String → Bool
unfolding names_p12
is_sensitive line = any (λ word. contains_folded word line) sensitive_words || names_p12 line

abbrev pub redacted_line : String
redacted_line = "[REDACTED sensitive line]"

unfoldable pub redact_line : String → String
redact_line line = if is_sensitive line then redacted_line else line

-- The four substitutions, one after the other.
unfoldable pub substituted : String → String
unfolding substitute
substituted value = substitute assignment false 0 (
    substitute bearer false 0
      (substitute url_credentials false 0 (substitute pem_private false 0 value)))

unfoldable pub sanitize_text : String → String
unfolding substituted redact_line
sanitize_text value =
    let result = join_with "\n" (map redact_line (lines (substituted value))) in
    if ends_with "\n" value then result <> "\n" else result
