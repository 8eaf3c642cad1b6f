-- ===== src/Seal/Plugins.antt =====
-- sdk/kit/src/plugin.ts: the policy plugins of a client, checked as a list when it is made and run
-- by seal(). The logger's warning about a slow plugin is left out.
pub mod Laws
use phalnx.Base.{
  ℕ, suc, ◌+◌, Bool, true, false, List, [], ◌∷◌, Option, none, some, String, str_eq, Result, ok,
  err, ◌>>=◌, Task, pure, if◌then◌else◌, has, add,
}
use phalnx.Network.{Network}
use phalnx.Budget.{EffectiveBudget}
use phalnx.X402.{ℤ}
use phalnx.Seal.{Instruction, VaultStatus, SealError, plugin_rejected}

-- The frozen snapshot of the vault's state.
pub record PluginState : Type 0 where
  pub global_budget : EffectiveBudget
  pub agent_budget : Option EffectiveBudget
  pub vault_status : VaultStatus
  pub capability_tier : ℕ
  pub max_transaction_usd : ℕ
  pub resolved_at_timestamp : ℕ

pub record PluginContext : Type 0 where
  pub vault : String
  pub agent : String
  pub token_mint : String
  pub amount : ℤ
  pub network : Network
  pub instructions : List Instruction
  pub correlation_id : String
  pub state : PluginState

-- (The metadata that a result may carry goes to the error's context alone.)
pub data PluginResult : Type 0 where
  allow : PluginResult
  reject : String → PluginResult

-- `check` throws an error by its message.
pub record SigilPolicyPlugin {ℓ} (World : Type ℓ) : Type ℓ where
  pub name : String
  pub check : PluginContext → Task World String PluginResult

module _ {ℓ} {World : Type ℓ} where
  -- The plugin's answer, and the rest of the loop.
  abbrev pub conclude :
      String
      → Result String PluginResult × World
      → Task World SealError (Unit {0})
      → Result SealError (Unit {0}) × World
  conclude name (err message, w) rest = (err (plugin_rejected name message), w)
  conclude name (ok (reject reason), w) rest = (err (plugin_rejected name reason), w)
  conclude name (ok allow, w) rest = rest w

  unfoldable pub run_plugins :
      List (SigilPolicyPlugin World) → PluginContext → Task World SealError (Unit {0})
  run_plugins [] ctx w = (ok tt, w)
  run_plugins (plugin ∷ plugins) ctx w =
      conclude plugin.name (plugin.check ctx w) (run_plugins plugins ctx)

-- What a caller passes as an entry of the list: no object, or an object by its name, if that is a
-- text, and whether its `check` is a function.
pub data Entry : Type 0 where
  no_object : Entry
  object : Option String → Bool → Entry

-- And as the list.
pub data Entries : Type 0 where
  no_array : Entries
  array : List Entry → Entries

-- SIGIL_ERROR__SDK__INVALID_CONFIG, by the check that throws it.
pub data ListError : Type 0 where
  not_an_array : ListError
  not_an_object missing_name : ℕ → ListError
  missing_check duplicate_name : String → ListError

-- The checks on entry `i`, with the names before it; the name, where they pass.
unfoldable pub check_entry : List String → ℕ → Entry → Result ListError String
check_entry names i no_object = err (not_an_object i)
check_entry names i (object none has_check) = err (missing_name i)
check_entry names i (object (some name) has_check) =
    if str_eq name ""
    then err (missing_name i)
    else if has_check
    then (if has names name then err (duplicate_name name) else ok name)
    else err (missing_check name)

unfoldable pub check_entries : List String → ℕ → List Entry → Result ListError (Unit {0})
unfolding check_entry
check_entries names i [] = ok tt
check_entries names i (entry ∷ entries) =
    check_entry names i entry >>= λ name. check_entries (add names name) (suc i) entries

unfoldable pub validate_plugin_list : Entries → Result ListError (Unit {0})
unfolding check_entries
validate_plugin_list no_array = err not_an_array
validate_plugin_list (array entries) = check_entries [] 0 entries
