-- ===== src/Update/Registry.antt =====
-- The registry of blocked versions: `_blocked_registry`, `is_blocked` and `_block_failed`.
pub mod Blocking
use xaac_thin_client_os.Base.{
  Bool, true, false, pos, String, Option, none, some, List, [], ◌∷◌, ◌++◌, ◌&&◌, any, all,
}
use xaac_thin_client_os.Json.{
  Json, Fields, Items, num, text, arr, obj, nil, cons, fields, items, get, lookup, as_list,
  iterated, json_eq, set_field,
}
use xaac_thin_client_os.Machine.{
  ◌>>=◌, ◌>>◌, M, runtime_error, failure, pure, or_raise, fresh, is_file, load_json, atomic_json,
}
use xaac_thin_client_os.Update.Policy.{blocked_path}
use xaac_thin_client_os.Update.Manifest.{Component, manifest_components, target_os_version}

abbrev pub empty_registry : Fields
empty_registry = fields (("schema_version", num (pos 1)) ∷ ("blocked", arr nil) ∷ [])

unfoldable pub read_registry : Bool → M Fields
read_registry false = pure empty_registry
read_registry true = do
  value ← load_json blocked_path
  or_raise (as_list (get "blocked" value))
      (runtime_error "Registre de versions bloquejades invàlid")
  pure value

unfoldable pub blocked_registry : M Fields
unfolding read_registry
blocked_registry = do there ← is_file blocked_path; read_registry there

-- A pair of the set that `is_blocked` compares: the two values of a dict, or the two texts.
abbrev pub Pair : Type 0
Pair = Json × Json

abbrev pub pair_eq : Pair → Pair → Bool
pair_eq (p, v) (q, u) = json_eq p q && json_eq v u

abbrev pub within : List Pair → List Pair → Bool
within xs ys = all (λ x. any (pair_eq x) ys) xs

-- `==` on sets
abbrev pub same_set : List Pair → List Pair → Bool
same_set xs ys = within xs ys && within ys xs

abbrev pub candidates : List Component → List Pair
candidates [] = []
candidates (c ∷ cs) = (text c.pkg, text c.version) ∷ candidates cs

abbrev pub hashable : Json → Bool
hashable (arr xs) = false
hashable (obj fs) = false
hashable _ = true

abbrev pub with_pair : Bool → Pair → Option (List Pair) → Option (List Pair)
with_pair true p (some ps) = some (p ∷ ps)
with_pair _ p _ = none

-- `{(p.get("package"), p.get("version")) for p in … if isinstance(p, dict)}`
-- A list or a dict cannot be put into a set.
abbrev pub entry_pairs : List Json → Option (List Pair)
entry_pairs [] = some []
entry_pairs (obj p ∷ ps) =
    with_pair (hashable (get "package" p) && hashable (get "version" p))
      (get "package" p, get "version" p) (entry_pairs ps)
entry_pairs (_ ∷ ps) = entry_pairs ps

unfoldable pub packages_of : Option Json → M (List Json)
packages_of none = pure []
packages_of (some value) = or_raise (iterated value) (failure "TypeError")

unfoldable pub same_packages : Bool → List Pair → Fields → M Bool
same_packages false wanted item = pure false
same_packages true wanted item = do
  packages ← packages_of (lookup "packages" item)
  pairs ← or_raise (entry_pairs packages) (failure "TypeError")
  pure (same_set pairs wanted)

-- The body of the loop of `is_blocked`.
unfoldable pub matches : Json → List Pair → Fields → M Bool
unfolding packages_of same_packages
matches target wanted item =
    same_packages (json_eq (get "target_os_version" item) target) wanted item

unfoldable pub any_entry : Json → List Pair → List Json → M Bool
unfolding matches
any_entry target wanted [] = pure false
any_entry target wanted (obj item ∷ rest) = do
  found ← matches target wanted item
  elim found [ true ↦ pure true | false ↦ any_entry target wanted rest ]
any_entry target wanted (_ ∷ rest) = any_entry target wanted rest

unfoldable pub blocked_list : Fields → M (List Json)
blocked_list registry = or_raise (as_list (get "blocked" registry)) (failure "KeyError")

unfoldable pub is_blocked : Fields → M Bool
unfolding any_entry blocked_list
is_blocked manifest = do
  target ← target_os_version manifest
  components ← manifest_components manifest
  registry ← blocked_registry
  entries ← blocked_list registry
  any_entry target (candidates components) entries

abbrev pub package_items : List Component → Items
package_items [] = nil
package_items (c ∷ cs) =
    cons (obj (fields (("package", text c.pkg) ∷ ("version", text c.version) ∷ [])))
      (package_items cs)

abbrev pub blocked_entry : String → String → Json → List Component → String → Json
blocked_entry txid now target components reason = obj (
    fields (
      ("transaction_id", text txid)
      ∷ ("blocked_at", text now)
      ∷ ("target_os_version", target)
      ∷ ("packages", arr (package_items components))
      ∷ ("reason", text reason)
      ∷ []))

-- `_block_failed`; the reason is kept whole, where the code keeps its last thousand characters.
unfoldable pub block_failed : Fields → String → String → M (Unit {0})
unfolding blocked_list
block_failed manifest txid reason = do
  registry ← blocked_registry
  now ← fresh (λ h. h.now)
  target ← target_os_version manifest
  components ← manifest_components manifest
  entries ← blocked_list registry
  atomic_json blocked_path (
      obj (
        set_field "blocked"
          (arr (items (entries ++ blocked_entry txid now target components reason ∷ []))) registry))
