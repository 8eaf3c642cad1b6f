-- ===== src/Seal/Plugins/Laws.antt =====
-- When the plugins let seal() go on, and when a list of plugins is accepted.
use phalnx.Base.{
  ℕ, suc, ◌≡◌, ◌≢◌, ◌↔◌, refl, sym, ap, true, false, ◌||◌, List, [], ◌∷◌, ◌++◌, none, some, String,
  str_eq, Result, ok, err, has, All, arith, eq_iff,
}
use phalnx.Seal.{SealError}
use phalnx.Seal.Plugins.{
  PluginContext, PluginResult, allow, reject, SigilPolicyPlugin, conclude, run_plugins, Entry,
  no_object, object, array, check_entry, check_entries, validate_plugin_list,
}

module _ {ℓ} {World : Type ℓ} (ctx : PluginContext) where
  -- The plugins allow the operation one after the other, from the first world to the second.
  pub data Allowed : List (SigilPolicyPlugin World) → World → World → Type ℓ where
    finished : {w : World} → Allowed [] w w
    allowed :
        {plugin : SigilPolicyPlugin World} {plugins : List (SigilPolicyPlugin World)}
        {w w1 w2 : World}
        → plugin.check ctx w ≡ (ok allow, w1)
        → Allowed plugins w1 w2
        → Allowed (plugin ∷ plugins) w w2

  allow-run :
      {plugins : List (SigilPolicyPlugin World)} {w w' : World}
      → Allowed plugins w w'
      → run_plugins plugins ctx w ≡ (ok tt, w')
  unfolding run_plugins
  allow-run finished = refl
  allow-run (allowed h rest) = rw h (allow-run rest)

  conclude-eq-ok :
      (name : String) (r : Result String PluginResult × World)
      (rest : World → Result SealError (Unit {0}) × World) {w' : World}
      → conclude name r rest ≡ (ok tt, w')
      → (w1 : World) × (r ≡ (ok allow, w1)) × (rest w1 ≡ (ok tt, w'))
  conclude-eq-ok name (err message, w) rest h = cc
  conclude-eq-ok name (ok (reject reason), w) rest h = cc
  conclude-eq-ok name (ok allow, w) rest h = (w, refl, h)

  run-allow :
      (plugins : List (SigilPolicyPlugin World)) (w w' : World)
      → run_plugins plugins ctx w ≡ (ok tt, w')
      → Allowed plugins w w'
  unfolding run_plugins
  run-allow [] w w' h = rw (sym (ap (λ p. p.1) h)) finished
  run-allow (plugin ∷ plugins) w w' h =
      let (w1, checked, rest) =
        conclude-eq-ok plugin.name (plugin.check ctx w) (run_plugins plugins ctx) h in
      allowed checked (run-allow plugins w1 w' rest)

  -- The plugins let the operation go on exactly if each, in the order of the list and in the world
  -- that the ones before it left, allows it.
  pub run_plugins_iff :
      (plugins : List (SigilPolicyPlugin World)) (w w' : World)
      → (run_plugins plugins ctx w ≡ (ok tt, w')) ↔ Allowed plugins w w'
  run_plugins_iff plugins w w' = (run-allow plugins w w', allow-run)

-- An object with a name that is not empty and with a `check`.
abbrev pub IsPlugin : Entry → Type 0
IsPlugin no_object = ⊥
IsPlugin (object none has_check) = ⊥
IsPlugin (object (some name) has_check) = (name ≢ "") × (has_check ≡ true)

abbrev pub name_of : Entry → String
name_of (object (some name) has_check) = name
name_of _ = ""

abbrev pub AllNew : List String → List Entry → Type 0
AllNew names = All λ entry. has names (name_of entry) ≡ false

-- No name twice.
abbrev pub AreUnique : List Entry → Type 0
AreUnique [] = Unit
AreUnique (entry ∷ entries) =
    All (λ other. str_eq (name_of entry) (name_of other) ≡ false) entries × AreUnique entries

has-append :
    (names : List String) (a x : String) → has (names ++ a ∷ []) x ≡ (str_eq a x || has names x)
has-append [] a x = ground (arith, eq_iff x a, eq_iff a x)
has-append (n ∷ names) a x = ground (arith, has-append names a x)

-- New to the names with one more is new to the names and different from that one.
AllNew-append :
    (names : List String) (a : String) (entries : List Entry)
    → AllNew (names ++ a ∷ []) entries
      ↔ (AllNew names entries × All (λ other. str_eq a (name_of other) ≡ false) entries)
AllNew-append names a [] = ground arith
AllNew-append names a (entry ∷ entries) =
    ground (arith, AllNew-append names a entries, has-append names a (name_of entry))

all_new : (entries : List Entry) → AllNew [] entries
all_new [] = tt
all_new (entry ∷ entries) = (refl, all_new entries)

check_entries_iff :
    (names : List String) (i : ℕ) (entries : List Entry)
    → (check_entries names i entries ≡ ok tt)
      ↔ (All IsPlugin entries × (AllNew names entries × AreUnique entries))
unfolding check_entries check_entry
check_entries_iff names i [] = ground arith
check_entries_iff names i (no_object ∷ entries) = ground arith
check_entries_iff names i (object none has_check ∷ entries) = ground arith
check_entries_iff names i (object (some name) has_check ∷ entries) = ground (
  arith,
  eq_iff name "",
  check_entries_iff (names ++ name ∷ []) (suc i) entries,
  AllNew-append names name entries,
)

-- A list of plugins is accepted exactly if it is an array of objects that have a name, not the empty
-- one, and a `check`, and no two of them have the same name.
pub validate_plugin_list_iff :
    (entries : List Entry)
    → (validate_plugin_list (array entries) ≡ ok tt) ↔ (All IsPlugin entries × AreUnique entries)
unfolding validate_plugin_list
validate_plugin_list_iff entries = ground (arith, check_entries_iff [] 0 entries, all_new entries)
