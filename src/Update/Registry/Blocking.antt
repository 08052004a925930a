-- ===== src/Update/Registry/Blocking.antt =====
-- A version that `_block_failed` records is a version that `is_blocked` finds.
use xaac_thin_client_os.Base.{
  ℕ, Bool, true, false, String, Option, none, some, List, [], ◌∷◌, ◌++◌, ◌≡◌, refl, all, eq_refl,
  arith, suc,
}
use xaac_thin_client_os.Json.{
  Json, Fields, null, bool, num, text, arr, obj, json_eq, lookup, get, set_field, iterated,
  elements, items,
}
use xaac_thin_client_os.Json.Lookup.{elements-items, get-set_field}
use xaac_thin_client_os.Machine.{
  World, Event, wrote, file, json, ok, ◌>>=◌, pure, node_at, is_file, is_symlink, load_json,
  atomic_json, effect, fresh, gets, target_of, real_path, present, is_link, raise,
}
use xaac_thin_client_os.Update.Policy.{blocked_path}
use xaac_thin_client_os.Update.Manifest.{Component, manifest_components, target_os_version}
use xaac_thin_client_os.Update.Registry.{
  Pair, pair_eq, within, candidates, entry_pairs, packages_of, same_packages, matches, any_entry,
  blocked_list, blocked_registry, read_registry, is_blocked, block_failed, blocked_entry,
  package_items,
}

within-cons :
    (xs : List Pair) (y : Pair) (ys : List Pair) → within xs ys ≡ true → within xs (y ∷ ys) ≡ true
within-cons [] y ys h = refl
within-cons (x ∷ xs) y ys h = ground (arith, within-cons xs y ys)

pair_eq-texts : (a b : String) → pair_eq (text a, text b) (text a, text b) ≡ true
unfolding json_eq
pair_eq-texts a b = rw (eq_refl a, eq_refl b)

within-candidates : (cs : List Component) → within (candidates cs) (candidates cs) ≡ true
within-candidates [] = refl
within-candidates (c ∷ cs) = rw (pair_eq-texts c.pkg c.version) (
    within-cons (candidates cs) (text c.pkg, text c.version) (candidates cs) (within-candidates cs))

entry_pairs-package_items :
    (cs : List Component) → entry_pairs (elements (package_items cs)) ≡ some (candidates cs)
entry_pairs-package_items [] = refl
entry_pairs-package_items (c ∷ cs) = rw (entry_pairs-package_items cs) refl

-- An entry that the loop can read: its packages are missing, or can be iterated, and none of them names
-- a list or a dict as its package or version.
abbrev is_some : Option (List Pair) → Bool
is_some none = false
is_some (some l) = true

abbrev pub readable : Json → Bool
readable (obj item) = elim (lookup "packages" item) [
  | none ↦ true
  | some v ↦ elim (iterated v) [ none ↦ false | some l ↦ is_some (entry_pairs l) ]
]
readable _ = true

abbrev all_readable : List Json → Bool
all_readable = all readable

matches_blocked :
    (txid now reason : String) (target : Json) (cs : List Component) (w : World)
    → json_eq target target ≡ true
    → any_entry target (candidates cs) (blocked_entry txid now target cs reason ∷ []) w
      ≡ (ok true, w)
unfolding any_entry ◌>>=◌ pure
matches_blocked txid now reason target cs w same =
    rw (same, entry_pairs-package_items cs, within-candidates cs)

any_entry-append :
    (target : Json) (wanted : List Pair) (entries last : List Json) (w : World)
    → all_readable entries ≡ true
    → any_entry target wanted last w ≡ (ok true, w)
    → any_entry target wanted (entries ++ last) w ≡ (ok true, w)
unfolding any_entry matches packages_of same_packages ◌>>=◌ pure raise
any_entry-append t ws [] last w r h = h
any_entry-append t ws (obj item ∷ es) last w r h = ground (arith, any_entry-append t ws es last w)
any_entry-append t ws (null ∷ es) last w r h = any_entry-append t ws es last w r h
any_entry-append t ws (bool b ∷ es) last w r h = any_entry-append t ws es last w r h
any_entry-append t ws (num n ∷ es) last w r h = any_entry-append t ws es last w r h
any_entry-append t ws (text x ∷ es) last w r h = any_entry-append t ws es last w r h
any_entry-append t ws (arr xs ∷ es) last w r h = any_entry-append t ws es last w r h

-- The registry with one more entry.
abbrev with_entry : Fields → List Json → Json → Json
with_entry registry entries entry =
    obj (set_field "blocked" (arr (items (entries ++ entry ∷ []))) registry)

-- The machine after one value was made up and one file written.
abbrev after_write : World → Json → World
after_write w payload = record w {
  time = suc (suc w.time);
  disk = (blocked_path, file (json payload)) ∷ w.disk;
  trace = wrote blocked_path payload ∷ w.trace;
}

block_failed-writes :
    (manifest registry : Fields) (txid reason : String) (target : Json) (cs : List Component)
    (entries : List Json) (w : World)
    → ((v : World) → target_os_version manifest v ≡ (ok target, v))
    → ((v : World) → manifest_components manifest v ≡ (ok cs, v))
    → blocked_registry w ≡ (ok registry, w)
    → get "blocked" registry ≡ arr (items entries)
    → is_link (node_at blocked_path w.disk) ≡ false
    → ((n : ℕ) (e : Event) → w.host.fault n e ≡ none)
    → block_failed manifest txid reason w ≡ (
      ok tt,
      after_write w
          (with_entry registry entries (blocked_entry txid (w.host.now w.time) target cs reason)),
    )
unfolding block_failed blocked_list ◌>>=◌ pure gets atomic_json fresh effect is_symlink
block_failed-writes m reg txid reason target cs entries w ht hc hr hb nolink nofault =
    rw (hr, ht, hc, hb, elements-items entries, nolink, nofault) refl

blocked_registry-after_write :
    (w : World) (payload : Fields) (entries : List Json)
    → get "blocked" payload ≡ arr (items entries)
    → blocked_registry (after_write w (obj payload)) ≡ (ok payload, after_write w (obj payload))
unfolding blocked_registry is_file target_of real_path present read_registry load_json ◌>>=◌ pure
    gets
blocked_registry-after_write w payload entries hb = rw (hb) refl

is_blocked-after :
    (manifest registry : Fields) (target : Json) (cs : List Component) (entries : List Json)
    (v : World)
    → target_os_version manifest v ≡ (ok target, v)
    → manifest_components manifest v ≡ (ok cs, v)
    → blocked_registry v ≡ (ok registry, v)
    → get "blocked" registry ≡ arr (items entries)
    → any_entry target (candidates cs) entries v ≡ (ok true, v)
    → (is_blocked manifest v).0 ≡ ok true
unfolding is_blocked blocked_list ◌>>=◌ pure
is_blocked-after m reg target cs entries v ht hc hr hb found =
    rw (ht, hc, hr, hb, elements-items entries, found) refl

-- After `_block_failed` has recorded a failed update, `is_blocked` is true of its manifest, whatever
-- was blocked before: on a host that refuses no effect, where the registry is no symbolic link and can
-- be read, the packages of each of its entries are missing or can be iterated and name no list or dict
-- as package or version, the manifest's target and components can be read, and the target is equal to
-- itself.
pub block_failed-is_blocked :
    (manifest registry : Fields) (txid reason : String) (target : Json) (cs : List Component)
    (entries : List Json) (w : World)
    → ((v : World) → target_os_version manifest v ≡ (ok target, v))
    → ((v : World) → manifest_components manifest v ≡ (ok cs, v))
    → blocked_registry w ≡ (ok registry, w)
    → get "blocked" registry ≡ arr (items entries)
    → all_readable entries ≡ true
    → json_eq target target ≡ true
    → is_link (node_at blocked_path w.disk) ≡ false
    → ((n : ℕ) (e : Event) → w.host.fault n e ≡ none)
    → (is_blocked manifest (block_failed manifest txid reason w).1).0 ≡ ok true
block_failed-is_blocked m reg txid reason target cs entries w ht hc hr hb rd same nolink nofault =
    let entry = blocked_entry txid (w.host.now w.time) target cs reason in
    let all_entries = entries ++ entry ∷ [] in
    let reg' = set_field "blocked" (arr (items all_entries)) reg in
    let v = after_write w (obj reg') in
    let stored = get-set_field "blocked" (arr (items all_entries)) reg in
    rw (block_failed-writes m reg txid reason target cs entries w ht hc hr hb nolink nofault) (
      is_blocked-after m reg' target cs all_entries v (ht v) (hc v)
        (blocked_registry-after_write w reg' all_entries stored) stored
        (any_entry-append target (candidates cs) entries (entry ∷ []) v rd
          (matches_blocked txid (w.host.now w.time) reason target cs v same)))
