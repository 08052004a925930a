-- ===== src/Configuration/Reread.antt =====
-- A hardware profile that is written down again.
use xaac_thin_client_os.Base.{
  ℕ, zero, suc, pos, Bool, true, false, String, Option, none, some, List, [], ◌∷◌, ◌≡◌, refl, sym,
  subst, member, str_eq, eq_iff, Bool-cases, inl, inr, arith,
}
use xaac_thin_client_os.Configuration.Value.{
  Yaml, null, int, text, list, dict, Elements, none_left, element, Entries, no_more, entry,
}
use xaac_thin_client_os.Configuration.Validation.{valid, ◌>>=◌}
use xaac_thin_client_os.Configuration.Checks.{
  filled_text, mapping, value_of, required_text, optional_text, optional_text_of, positive_int,
  positive, enum, text_values, text_tuple, reject_unknown,
}
use xaac_thin_client_os.Configuration.Build.{Architecture, amd64, architectures}
use xaac_thin_client_os.Configuration.Profile.{HardwareProfile, hardware_profile}
use xaac_thin_client_os.Configuration.Booleans.{neither_of, behind}
use xaac_thin_client_os.Configuration.Texts.{
  IsFilled, AreFilled, IsDistinct, IsPositive, IsTextTuple, member_self,
}
use xaac_thin_client_os.Configuration.Sound.Sources.{
  IsOptional, IsProfile, hardware_profile-IsProfile,
}

-- The document of a profile, an independent description of the format.
abbrev pub texts_yaml : List String → Elements
texts_yaml [] = none_left
texts_yaml (s ∷ ss) = element (text s) (texts_yaml ss)

abbrev pub optional_yaml : Option String → Yaml
optional_yaml none = null
optional_yaml (some s) = text s

abbrev pub architecture_yaml : Architecture → Yaml
architecture_yaml amd64 = text "amd64"

abbrev pub dict_yaml : List (String × Yaml) → Entries
dict_yaml [] = no_more
dict_yaml ((key, value) ∷ rest) = entry (text key) value (dict_yaml rest)

abbrev pub profile_yaml : HardwareProfile → Yaml
profile_yaml p = dict (
    dict_yaml (
      ("name", text p.name)
      ∷ ("description", text p.description)
      ∷ ("extends", optional_yaml p.extends)
      ∷ ("architecture", architecture_yaml p.architecture)
      ∷ ("memory_mib", int (pos p.memory_mib))
      ∷ ("storage_mib", int (pos p.storage_mib))
      ∷ ("kernel_parameters", list (texts_yaml p.kernel_parameters))
      ∷ ("packages", list (texts_yaml p.packages))
      ∷ ("exclude_packages", list (texts_yaml p.exclude_packages))
      ∷ []))

filled_text-IsFilled : (s : String) → IsFilled s → filled_text s ≡ valid s
unfolding filled_text
filled_text-IsFilled s (filled, same) = rw (same, filled) refl

optional-IsOptional :
    (o : Option String) → IsOptional o → optional_text_of (optional_yaml o) ≡ valid o
unfolding ◌>>=◌
optional-IsOptional none h = refl
optional-IsOptional (some s) h = rw (filled_text-IsFilled s h) refl

positive-IsPositive : (n : ℕ) → IsPositive n → positive (int (pos n)) ≡ valid n
positive-IsPositive zero h = absurd (omega arith)
positive-IsPositive (suc n) h = refl

architecture_lem : (a : Architecture) → enum architectures (architecture_yaml a) ≡ valid a
unfolding enum
architecture_lem amd64 = refl

-- None of the texts is among those before them.
abbrev AreNew : List String → List String → Type 0
AreNew seen texts = (s : String) → member s seen ≡ true → member s texts ≡ false

head-IsNew :
    (seen texts : List String) (s : String) → AreNew seen (s ∷ texts) → member s seen ≡ false
head-IsNew seen texts s new = elim (Bool-cases (member s seen)) [
  | inl there ↦ absurd (let h = new s there in let k = member_self s texts in ground (arith, h, k))
  | inr unseen ↦ unseen
]

rest-AreNew :
    (seen texts : List String) (s : String)
    → AreNew seen (s ∷ texts)
    → member s texts ≡ false
    → AreNew (s ∷ seen) texts
rest-AreNew seen texts s new apart t h = elim (Bool-cases (str_eq t s)) [
  | inl same ↦ subst (λ u. member u texts ≡ false) (sym ((eq_iff t s).0 same)) apart
  | inr unlike ↦
      (neither_of (str_eq t s) (member t texts)
        (new t (behind (str_eq t s) (member t seen) unlike h))).1
]

text_values-written :
    (seen texts : List String)
    → AreFilled texts
    → IsDistinct texts
    → AreNew seen texts
    → text_values seen (texts_yaml texts) ≡ valid texts
unfolding text_values ◌>>=◌
text_values-written seen [] f d new = refl
text_values-written seen (s ∷ texts) (f, fs) (d, ds) new =
    rw
      (
        filled_text-IsFilled s f,
        head-IsNew seen texts s new,
        text_values-written (s ∷ seen) texts fs ds (rest-AreNew seen texts s new d),
      )
      refl

text_tuple-written :
    (allow_empty : Bool) (texts : List String)
    → IsTextTuple allow_empty texts
    → text_tuple allow_empty (list (texts_yaml texts)) ≡ valid texts
unfolding text_tuple ◌>>=◌
text_tuple-written allow_empty texts (h, given) =
    rw
      (
        text_values-written [] texts h.filled h.distinct_lem (λ s k. absurd (ground (arith, k))),
        given,
      )
      refl

profile-written : (p : HardwareProfile) → IsProfile p → hardware_profile (profile_yaml p) ≡ valid p
unfolding hardware_profile mapping value_of required_text optional_text positive_int reject_unknown
    ◌>>=◌
profile-written p h =
    rw
      (
        filled_text-IsFilled p.name h.name_filled,
        filled_text-IsFilled p.description h.description_filled,
        optional-IsOptional p.extends h.extends_lem,
        architecture_lem p.architecture,
        positive-IsPositive p.memory_mib h.memory_positive,
        positive-IsPositive p.storage_mib h.storage_positive,
        text_tuple-written true p.kernel_parameters h.kernel_parameters_lem,
        text_tuple-written true p.packages h.packages_lem,
        text_tuple-written true p.exclude_packages h.exclude_packages_lem,
      )
      refl

-- A hardware profile that was read from a document, and written down field by field, is read back
-- as it was.
pub hardware_profile-reread :
    (raw : Yaml) (p : HardwareProfile)
    → hardware_profile raw ≡ valid p
    → hardware_profile (profile_yaml p) ≡ valid p
hardware_profile-reread raw p e = profile-written p ((hardware_profile-IsProfile raw).at p e)
