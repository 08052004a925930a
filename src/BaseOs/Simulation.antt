-- ===== src/BaseOs/Simulation.antt =====
-- `parse_plan`: the lines that `apt-get -s` prints, and the two regular expressions that read them.
use Prim.Native.Char.{code}
use xaac_thin_client_os.Base.{
  String, Option, none, some, List, [], ◌∷◌, ◌==◌, is_empty, is_space, strip_left, strip_prefix,
  cut, lines, if◌then◌else◌,
}
use xaac_thin_client_os.BaseOs.Plan.{Change, Removal, Plan}

-- `\s+`: what follows the blanks, of which there is one at least
blanks : String → Option String
blanks String.[] = none
blanks (String.◌∷◌ c s) = if is_space c then some (strip_left s) else none

-- `\S*`, greedy, and what follows
word : String → String × String
word String.[] = (String.[], String.[])
word (String.◌∷◌ c s) =
    let (w, rest) = word s in
    if is_space c then (String.[], String.◌∷◌ c s) else (String.◌∷◌ c w, rest)

nonempty_word : String → Option (String × String)
unfolding word
nonempty_word s = if is_empty (word s).0 then none else some (word s)

-- `[^\]]*\]`
to_close : String → Option (String × String)
to_close s = cut b']' s

filled : Option (String × String) → Option (String × String)
filled none = none
filled (some (v, rest)) = if is_empty v then none else some (v, rest)

opened : String → Option (String × String)
unfolding filled to_close
opened String.[] = none
opened (String.◌∷◌ c s) = if code c == b'[' then filled (to_close s) else none

-- `(?:\s+\[([^\]]+)\])?`: where the brackets are not there, nothing is read
version : String → Option String × String
unfolding blanks opened
version s = elim (blanks s) [
  | none ↦ (none, s)
  | some t ↦ elim (opened t) [ none ↦ (none, s) | some (v, rest) ↦ (some v, rest) ]
]

parenthesis : String → Option String
parenthesis String.[] = none
parenthesis (String.◌∷◌ c s) = if code c == b'(' then some s else none

abbrev bind : {A B : Type 0} → Option A → (A → Option B) → Option B
bind none f = none
bind (some a) f = f a

-- `package.split(":", 1)[0]`
abbrev base_of : String → String
base_of package_name = elim (cut b':' package_name) [
  | none ↦ package_name
  | some (base, rest) ↦ base
]

-- `_INST_RE.match(raw)`
unfoldable pub inst_line : String → Option Change
unfolding blanks nonempty_word version parenthesis
inst_line raw = bind (strip_prefix "Inst" raw) λ s. bind (blanks s) λ t. bind (nonempty_word t) λ p.
    bind (blanks (version p.1).1) λ u. bind (parenthesis u) λ v. bind (nonempty_word v) λ q.
      some (record {
        pkg = p.0;
        base_package = base_of p.0;
        installed = (version p.1).0;
        candidate = q.0;
      })

-- `_REMV_RE.match(raw)`
unfoldable pub remv_line : String → Option Removal
unfolding blanks nonempty_word version
remv_line raw = bind (strip_prefix "Remv" raw) λ s. bind (blanks s) λ t.
    bind (nonempty_word t)
      λ p. some (record { removed_package = p.0; removed_version = (version p.1).0 })

abbrev with_change : Change → Plan → Plan
with_change c p = record p { changes = c ∷ p.changes }

abbrev with_removal : Option Removal → Plan → Plan
with_removal none p = p
with_removal (some r) p = record p { removals = r ∷ p.removals }

unfoldable pub plan_of : List String → Plan
unfolding inst_line remv_line
plan_of [] = record { changes = []; removals = [] }
plan_of (raw ∷ rest) = elim (inst_line raw) [
  | some c ↦ with_change c (plan_of rest)
  | none ↦ with_removal (remv_line raw) (plan_of rest)
]

unfoldable pub parse_plan : String → Plan
unfolding plan_of
parse_plan output = plan_of (lines output)
