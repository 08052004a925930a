-- ===== src/Configuration/Texts.antt =====
-- The texts and the lists of texts that the checks of single values accept.
use xaac_thin_client_os.Base.{
  ℕ, Option, none, some, ap, ◌||◌, pos, suc, ◌<◌, ◌≤◌, Bool, true, false, not, String, List, [],
  ◌∷◌, ◌≡◌, refl, subst, ◌&&◌, ◌==◌, length, member, distinct, str_eq, is_empty, strip, is_char,
  starts_with, strip_prefix, is_found, rstrip_char, has_char, eq_iff, Bool-cases, inl, inr, arith,
  if◌then◌else◌,
}
use Prim.Native.Char.{Char, code}
use xaac_thin_client_os.Configuration.Value.{
  Yaml, null, int, text, list, Elements, none_left, element,
}
use xaac_thin_client_os.Configuration.Checks.{
  Data, text_of, filled_text, required_text, positive_int, positive, value_of, text_values,
  text_tuple, no_texts,
}
use xaac_thin_client_os.Configuration.Build.{repeats}
use xaac_thin_client_os.Configuration.Trimmed.{strip-again}
use xaac_thin_client_os.Configuration.Gives.{
  Gives, Gives-valid, Gives-invalid, Gives-bind, Gives-checked,
}
use xaac_thin_client_os.Configuration.Booleans.{later, neither, neither_of, yes}

-- A text that is not empty and has no blanks at its ends.
abbrev pub IsFilled : String → Type 0
IsFilled s = (is_empty s ≡ false) × (strip s ≡ s)

-- No text stands twice.
abbrev pub IsDistinct : List String → Type 0
IsDistinct [] = Unit
IsDistinct (s ∷ ss) = (member s ss ≡ false) × IsDistinct ss

abbrev pub AreFilled : List String → Type 0
AreFilled [] = Unit
AreFilled (s ∷ ss) = IsFilled s × AreFilled ss

-- What a list of texts in the configuration is.
pub record IsTextList (texts : List String) : Type 0 where
  pub filled : AreFilled texts
  pub distinct_lem : IsDistinct texts

filled_text-IsFilled : (s : String) → Gives IsFilled (filled_text s)
unfolding filled_text
filled_text-IsFilled s = elim (Bool-cases (is_empty (strip s))) [
  | inl blank ↦ rw (blank) (Gives-invalid _)
  | inr filled ↦ rw (filled) (Gives-valid _ (filled, strip-again s))
]

pub text_of-IsFilled : (value : Yaml) → Gives IsFilled (text_of value)
text_of-IsFilled (text s) = filled_text-IsFilled s
text_of-IsFilled _ = Gives-invalid _

pub required_text-IsFilled :
    (entries : Data) (key : String) → Gives IsFilled (required_text entries key)
unfolding required_text
required_text-IsFilled entries key = text_of-IsFilled (value_of key entries)

abbrev pub IsPositive : ℕ → Type 0
IsPositive n = 0 < n

positive-IsPositive : (value : Yaml) → Gives IsPositive (positive value)
positive-IsPositive (int (pos (suc n))) = Gives-valid (suc n) (omega arith)
positive-IsPositive _ = Gives-invalid _

pub positive_int-IsPositive :
    (entries : Data) (key : String) → Gives IsPositive (positive_int entries key)
unfolding positive_int
positive_int-IsPositive entries key = positive-IsPositive (value_of key entries)

abbrev text_or : String → Option String → String
text_or s none = s
text_or s (some t) = t

-- What `text_values` gives: texts that are distinct, and that are not among those before them.
record IsFresh (seen texts : List String) : Type 0 where
  pub texts_lem : IsTextList texts
  pub unseen : (s : String) → member s seen ≡ true → member s texts ≡ false

pub member_self : (s : String) (ss : List String) → member s (s ∷ ss) ≡ true
member_self s ss = rw ((eq_iff s s).1 refl) refl

unlike-seen :
    (s t : String) (seen : List String)
    → member s seen ≡ false
    → member t seen ≡ true
    → str_eq t s ≡ false
unlike-seen s t seen h k = elim (Bool-cases (str_eq t s)) [
  | inl same ↦
      let l : member s seen ≡ true = subst (λ u. member u seen ≡ true) ((eq_iff t s).0 same) k in
      absurd (ground (arith, h, l))
  | inr unlike ↦ unlike
]

put_first :
    (seen texts : List String) (s : String)
    → IsFilled s
    → member s seen ≡ false
    → IsFresh (s ∷ seen) texts
    → IsFresh seen (s ∷ texts)
put_first seen texts s f h r = record {
  texts_lem = record {
    filled = (f, r.texts_lem.filled);
    distinct_lem = (r.unseen s (member_self s seen), r.texts_lem.distinct_lem);
  };
  unseen = λ t k.
      neither (str_eq t s) (member t texts) (unlike-seen s t seen h k)
        (r.unseen t (later (str_eq t s) (member t seen) k));
}

text_values-IsFresh :
    (seen : List String) (values : Elements) → Gives (IsFresh seen) (text_values seen values)
unfolding text_values
text_values-IsFresh seen none_left =
    Gives-valid []
      (record { texts_lem = record { filled = tt; distinct_lem = tt }; unseen = λ s h. refl })
text_values-IsFresh seen (element value values) =
    Gives-bind (text_of value) _ (text_of-IsFilled value) (λ s f.
      Gives-checked (member s seen) _ _ (λ h.
        Gives-bind (text_values (s ∷ seen) values) _ (text_values-IsFresh (s ∷ seen) values)
          (λ rest r. Gives-valid (s ∷ rest) (put_first seen rest s f h r))))

-- A list of texts, which is not empty where it must not be.
abbrev pub IsTextTuple : Bool → List String → Type 0
IsTextTuple allow_empty texts = IsTextList texts × (not allow_empty && no_texts texts ≡ false)

empty_list : IsTextList []
empty_list = record { filled = tt; distinct_lem = tt }

pub text_tuple-IsTextTuple :
    (allow_empty : Bool) (value : Yaml)
    → Gives (IsTextTuple allow_empty) (text_tuple allow_empty value)
unfolding text_tuple
text_tuple-IsTextTuple true null = Gives-valid [] (empty_list, refl)
text_tuple-IsTextTuple false null = Gives-invalid _
text_tuple-IsTextTuple allow_empty (list values) =
    Gives-bind (text_values [] values) _ (text_values-IsFresh [] values) (λ texts r.
      Gives-checked (not allow_empty && no_texts texts) "no pot estar buida" _
        (λ h. Gives-valid texts (r.texts_lem, h)))
text_tuple-IsTextTuple allow_empty _ = Gives-invalid _

-- `len(set(values)) == len(values)` where no value stands twice.
distinct-length : (ss : List String) → length (distinct ss) ≤ length ss
unfolding distinct
distinct-length [] = omega arith
distinct-length (s ∷ ss) = elim (Bool-cases (member s ss)) [
  | inl there ↦ rw (there) (let h = distinct-length ss in omega arith)
  | inr new ↦ rw (new) (let h = distinct-length ss in omega arith)
]

counted : (ss : List String) → length ss ≤ length (distinct ss) → IsDistinct ss
unfolding distinct
counted [] h = tt
counted (s ∷ ss) h = elim (Bool-cases (member s ss)) [
  | inl there ↦
      let short : suc (length ss) ≤ length (distinct ss) = rw (there) at h in
      let bound = distinct-length ss in absurd (omega arith)
  | inr new ↦
      let long : suc (length ss) ≤ suc (length (distinct ss)) = rw (new) at h in
      (new, counted ss (omega arith))
]

all_there : (m n : ℕ) → not (m == n) ≡ false → n ≤ m
all_there m n h = ground arith

pub repeats-IsDistinct : (ss : List String) → repeats ss ≡ false → IsDistinct ss
repeats-IsDistinct ss h = counted ss (all_there (length (distinct ss)) (length ss) h)

matched :
    (b : Bool) (o : Option String)
    → is_found (if b then o else none) ≡ true
    → (b ≡ true) × (is_found o ≡ true)
matched true o h = (refl, h)
matched false o h = absurd (ground (arith, h))

off_end : (e b : Bool) → b ≡ false → e && b ≡ false
off_end e b h = ground arith

unlike_char :
    (k : ℕ) (c d : Char) → is_char k c ≡ false → is_char (code c) d ≡ true → is_char k d ≡ false
unlike_char k c d h q = ground arith

same_char :
    (c e d : Char)
    → is_char (code c) e ≡ true
    → is_char (code e) d ≡ true
    → is_char (code c) d ≡ true
same_char c e d h q = ground arith

matched_some :
    (b : Bool) (o : Option String) (t : String)
    → (if b then o else none) ≡ some t
    → (b ≡ true) × (o ≡ some t)
matched_some true o t h = (refl, h)
matched_some false o t h = cc

-- What is behind a prefix, where other characters are taken off the end.
strip_prefix-rstrip :
    (k : ℕ) (p s t : String)
    → has_char k p ≡ false
    → strip_prefix p s ≡ some t
    → strip_prefix p (rstrip_char k s) ≡ some (rstrip_char k t)
unfolding strip_prefix rstrip_char
strip_prefix-rstrip k String.[] s t h q =
    ap (λ (o : Option String). some (rstrip_char k (text_or s o))) q
strip_prefix-rstrip k (String.◌∷◌ c p) String.[] t h q = cc
strip_prefix-rstrip k (String.◌∷◌ c p) (String.◌∷◌ d s) t h q =
    let (first, rest) = matched_some (is_char (code c) d) (strip_prefix p s) t q in
    let (one, others) = neither_of (is_char k c) (has_char k p) h in
    rw (off_end (is_empty (rstrip_char k s)) (is_char k d) (unlike_char k c d one first), first)
      (strip_prefix-rstrip k p s t others rest)

-- A text that begins with `r` begins with the prefix `p` of `r`, and goes on with the rest of `r`.
strip_prefix_part :
    (p r s q : String)
    → strip_prefix p r ≡ some q
    → starts_with r s ≡ true
    → (t : String) × ((strip_prefix p s ≡ some t) × (starts_with q t ≡ true))
unfolding strip_prefix
strip_prefix_part String.[] r s q h k =
    (s, (refl, subst (λ u. starts_with u s ≡ true) (ap (text_or r) h) k))
strip_prefix_part (String.◌∷◌ c p) String.[] s q h k = cc
strip_prefix_part (String.◌∷◌ c p) (String.◌∷◌ e r) String.[] q h k = absurd (ground (arith, k))
strip_prefix_part (String.◌∷◌ c p) (String.◌∷◌ e r) (String.◌∷◌ d s) q h k =
    let (first, rest) = matched_some (is_char (code c) e) (strip_prefix p r) q h in
    let (second, others) = matched (is_char (code e) d) (strip_prefix r s) k in
    let (t, (stripped, found)) = strip_prefix_part p r s q rest others in
    (t, (rw (same_char c e d first second) stripped, found))

-- Nothing, or a text that begins with two slashes.
abbrev pub has_slashes : Option String → Bool
has_slashes none = false
has_slashes (some s) = is_empty s || starts_with "//" s

has_slashes-rstrip :
    (s : String) → starts_with "//" s ≡ true → has_slashes (some (rstrip_char b'/' s)) ≡ true
unfolding strip_prefix rstrip_char
has_slashes-rstrip String.[] h = refl
has_slashes-rstrip (String.◌∷◌ c String.[]) h = absurd (ground (arith, h))
has_slashes-rstrip (String.◌∷◌ c (String.◌∷◌ d s)) h =
    elim (Bool-cases (is_empty (rstrip_char b'/' s))) [
      | inl empty ↦ ground (arith, h, empty)
      | inr more ↦ ground (arith, h, more)
    ]

-- An address with HTTPS keeps the scheme, and loses the slashes behind it only together.
pub https-rstrip :
    (uri : String)
    → not (starts_with "https://" uri) ≡ false
    → has_slashes (strip_prefix "https:" (rstrip_char b'/' uri)) ≡ true
unfolding strip_prefix
https-rstrip uri h =
    let (t, (stripped, found)) = strip_prefix_part "https:" "https://" uri "//" refl (yes _ h) in
    rw (strip_prefix-rstrip b'/' "https:" uri t refl stripped) (has_slashes-rstrip t found)
