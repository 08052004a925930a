-- ===== src/Configuration/Checks.antt =====
-- The checks of single values, the functions of configuration/model.py whose names begin with "_".
use xaac_thin_client_os.Base.{
  ℕ, suc, pos, Bool, true, false, not, String, Option, none, some, List, [], ◌∷◌, ◌&&◌, str_eq,
  is_empty, strip, member, any, if◌then◌else◌,
}
use xaac_thin_client_os.Configuration.Value.{
  Yaml, null, int, text, list, dict, Elements, none_left, element, Entries, no_more, entry,
}
use xaac_thin_client_os.Configuration.Validation.{Validated, valid, reject, reject_if, ◌>>=◌, ◌>>◌}

-- A dict whose keys are texts.
abbrev pub Data : Type 0
Data = List (String × Yaml)

-- The entries, where all the keys are texts.
unfoldable pub text_keys : Entries → Option Data
text_keys no_more = some []
text_keys (entry (text key) value rest) = elim (text_keys rest) [
  | none ↦ none
  | some entries ↦ some ((key, value) ∷ entries)
]
text_keys (entry _ value rest) = none

abbrev with_text_keys : Option Data → Validated Data
with_text_keys none = reject "només pot contindre claus de text"
with_text_keys (some entries) = valid entries

-- `_mapping`
unfoldable pub mapping : Yaml → Validated Data
unfolding text_keys
mapping (dict entries) = with_text_keys (text_keys entries)
mapping _ = reject "ha de ser un mapa"

-- `data.get(key)`, with null for a missing key
unfoldable pub value_of : String → Data → Yaml
value_of key [] = null
value_of key ((k, v) ∷ entries) =
    let rest = value_of key entries in if str_eq k key then v else rest

-- `value.strip()` of a text that is not blank
unfoldable pub filled_text : String → Validated String
filled_text s = if is_empty (strip s) then reject "ha de ser text no buit" else valid (strip s)

abbrev pub text_of : Yaml → Validated String
text_of (text s) = filled_text s
text_of _ = reject "ha de ser text no buit"

-- `_required_text`
unfoldable pub required_text : Data → String → Validated String
unfolding filled_text
required_text entries key = text_of (value_of key entries)

abbrev pub optional_text_of : Yaml → Validated (Option String)
optional_text_of null = valid none
optional_text_of value = do s ← text_of value; valid (some s)

-- `_optional_text`
unfoldable pub optional_text : Data → String → Validated (Option String)
unfolding filled_text
optional_text entries key = optional_text_of (value_of key entries)

abbrev pub positive : Yaml → Validated ℕ
positive (int (pos (suc n))) = valid (suc n)
positive _ = reject "ha de ser un enter positiu"

-- `_positive_int`
unfoldable pub positive_int : Data → String → Validated ℕ
positive_int entries key = positive (value_of key entries)

module _ {A : Type 0} where
  unfoldable pub named : List (String × A) → String → Validated A
  named [] raw = reject "té el valor desconegut"
  named ((name, a) ∷ names) raw =
      let rest = named names raw in if str_eq name raw then valid a else rest

  -- `_enum`, for an enumeration that is the list of its values
  unfoldable pub enum : List (String × A) → Yaml → Validated A
  unfolding named
  enum names (text raw) = named names raw
  enum names _ = reject "ha de ser text"

-- The texts of a list, none of them twice.
unfoldable pub text_values : List String → Elements → Validated (List String)
unfolding filled_text
text_values seen none_left = valid []
text_values seen (element value values) = do
  normalized ← text_of value
  reject_if (member normalized seen) "conté el duplicat"
  rest ← text_values (normalized ∷ seen) values
  valid (normalized ∷ rest)

abbrev pub no_texts : List String → Bool
no_texts [] = true
no_texts (s ∷ ss) = false

abbrev absent : Bool → Validated (List String)
absent true = valid []
absent false = reject "ha de ser una llista"

-- `_text_tuple`
unfoldable pub text_tuple : Bool → Yaml → Validated (List String)
unfolding text_values
text_tuple allow_empty null = absent allow_empty
text_tuple allow_empty (list values) = do
  texts ← text_values [] values
  reject_if (not allow_empty && no_texts texts) "no pot estar buida"
  valid texts
text_tuple allow_empty _ = reject "ha de ser una llista"

-- `_reject_unknown`
unfoldable pub reject_unknown : Data → List String → Validated (Unit {0})
reject_unknown entries allowed =
    reject_if (any (λ field. not (member field.0 allowed)) entries) "conté camps desconeguts"
