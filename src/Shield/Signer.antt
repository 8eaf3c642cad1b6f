-- ===== src/Shield/Signer.antt =====
-- sdk/kit/src/shield.ts, createShieldedSigner: the checks before a signature. The signer records each
-- transaction that passes, and then hands all of them to the base signer, a parameter's business.
pub mod Laws
pub mod Session
mod Tests
use phalnx.Base.{
  ℕ, zero, suc, ◌+◌, ◌-◌, Bool, true, false, not, ◌&&◌, List, [], ◌∷◌, ◌++◌, Option, none, some,
  String, str_eq, Result, ok, err, ◌>>=◌, ◌>>◌, throw_if, guard, ltb, leb, ◌==◌, if◌then◌else◌,
  length, get_elem?, filter_by,
}
use phalnx.Core.Policies.{hour_ms}
use phalnx.Violations.{PolicyViolation}
use phalnx.Inspector.{InspectableInstruction, analyze_instructions}
use phalnx.Shield.State.{ShieldState, get_transaction_count_in_window, get_total_spend_in_window}
use phalnx.Shield.Context.{Context, check, record_analysis}
use phalnx.Shield.Compiled.{CompiledInstruction, CompiledMessage, extract_instructions}

-- sdk/kit/src/generated: the program, and the discriminators of its two instructions around a session.
abbrev pub sigil_program_address : String
sigil_program_address = "4ZeVCqnjUgUtFrHHPG7jELUxvJeoVGHhGNgPrhBPwrHL"

abbrev pub validate_and_authorize_discriminator : List ℕ
validate_and_authorize_discriminator = 22 ∷ 183 ∷ 48 ∷ 222 ∷ 218 ∷ 11 ∷ 197 ∷ 152 ∷ []

abbrev pub finalize_session_discriminator : List ℕ
finalize_session_discriminator = 34 ∷ 148 ∷ 144 ∷ 47 ∷ 37 ∷ 130 ∷ 206 ∷ 161 ∷ []

pub record VelocityThresholds : Type 0 where
  pub max_tx_per_hour : Option ℕ
  pub max_usd_per_hour : Option ℕ

pub data Severity : Type 0 where
  soft hard : Severity

-- ShieldDeniedError, by the rule of its violation, or the violations of the policies.
pub data SignerError : Type 0 where
  velocity_ceiling simulation session_binding : SignerError
  denied : List PolicyViolation → SignerError

unfoldable pub check_tx_ceiling : Option ℕ → ShieldState → ℕ → Result SignerError (Unit {0})
check_tx_ceiling none state now = ok tt
check_tx_ceiling (some ceiling) state now =
    throw_if (leb ceiling (get_transaction_count_in_window hour_ms now state)) velocity_ceiling

unfoldable pub check_usd_ceiling :
    Option ℕ
    → ShieldState
    → List InspectableInstruction
    → String
    → ℕ
    → Result SignerError (Unit {0})
check_usd_ceiling none state instructions signer now = ok tt
check_usd_ceiling (some ceiling) state instructions signer now =
    throw_if
      (ltb ceiling (
        get_total_spend_in_window hour_ms now state
        + (analyze_instructions instructions signer).estimated_value))
      velocity_ceiling

unfoldable pub check_velocity_ceiling :
    ShieldState
    → List InspectableInstruction
    → String
    → VelocityThresholds
    → ℕ
    → Result SignerError (Unit {0})
unfolding check_tx_ceiling check_usd_ceiling
check_velocity_ceiling state instructions signer thresholds now =
    check_tx_ceiling thresholds.max_tx_per_hour state now
    >> check_usd_ceiling thresholds.max_usd_per_hour state instructions signer now

unfoldable pub matches_discriminator : List ℕ → List ℕ → Bool
matches_discriminator bytes [] = true
matches_discriminator [] (d ∷ disc) = false
matches_discriminator (b ∷ bytes) (d ∷ disc) = b == d && matches_discriminator bytes disc

abbrev pub is_at : Option String → Bool
is_at none = false
is_at (some a) = str_eq a sigil_program_address

-- `msg.staticAccounts[ix.programAddressIndex] === programAddress`.
abbrev pub is_sigil : CompiledMessage → CompiledInstruction → Bool
is_sigil msg ix = is_at (get_elem? msg.static_accounts ix.program_address_index)

abbrev pub last_of : CompiledInstruction → List CompiledInstruction → CompiledInstruction
last_of ix [] = ix
last_of ix (jx ∷ rest) = last_of jx rest

-- The first instruction of the program validates, and the last one finalizes.
unfoldable pub is_sandwich : List CompiledInstruction → Bool
is_sandwich [] = false
is_sandwich (ix ∷ rest) =
    matches_discriminator ix.bytes validate_and_authorize_discriminator
    && matches_discriminator (last_of ix rest).bytes finalize_session_discriminator

unfoldable pub is_bound : Option CompiledMessage → Bool
unfolding is_sandwich
is_bound none = false
is_bound (some msg) =
    not (length msg.static_accounts == 0)
    && (not (length msg.instructions == 0)
        && is_sandwich (filter_by (is_sigil msg) msg.instructions))

-- A soft failure is a log line.
unfoldable pub check_session_binding :
    Option CompiledMessage → Severity → Result SignerError (Unit {0})
check_session_binding msg soft = ok tt
check_session_binding msg hard = guard (is_bound msg) session_binding

-- The part of the options that the checks read: `simulates` says that an RPC is given and the
-- simulation not skipped, `session_context` that a context is given. Where no severity is given, it
-- is hard.
pub record ShieldedSignerOptions : Type 0 where
  pub velocity_thresholds : Option VelocityThresholds
  pub simulates : Bool
  pub session_context : Bool
  pub session_binding_severity : Severity

abbrev check_thresholds :
    Option VelocityThresholds
    → ShieldState
    → List InspectableInstruction
    → String
    → ℕ
    → Result SignerError (Unit {0})
check_thresholds none state instructions signer now = ok tt
check_thresholds (some t) state instructions signer now =
    check_velocity_ceiling state instructions signer t now

-- The parameters: the addresses that the cache of lookup tables holds, and whether the transaction
-- encodes and its simulation succeeds.
module _ (cache : Option (String → Option (List String)))
    (simulation_succeeds : Option CompiledMessage → Bool) where
  -- The four checks of one transaction, before anything is recorded.
  unfoldable pub check_transaction :
      ShieldedSignerOptions
      → String
      → ℕ
      → Option CompiledMessage
      → Context
      → Result SignerError (Unit {0})
  check_transaction options signer now msg c =
      let instructions = extract_instructions cache msg in
      let result = check instructions signer now c in
      check_thresholds options.velocity_thresholds c.state instructions signer now
      >> throw_if (options.simulates && not (simulation_succeeds msg)) simulation
      >> throw_if (not result.allowed) (denied result.violations)
      >> (if options.session_context
          then check_session_binding msg options.session_binding_severity
          else ok tt)

  -- What is recorded of it, on the network that the state was synced with.
  unfoldable pub record_signed : String → ℕ → Option CompiledMessage → Context → Context
  record_signed signer now msg c = record c {
    state =
        record_analysis (analyze_instructions (extract_instructions cache msg) signer) signer
          c.state.network now c.state;
  }

  abbrev pub continue :
      Result SignerError (Unit {0})
      → Result SignerError (Unit {0}) × Context
      → Context
      → Result SignerError (Unit {0}) × Context
  continue (err e) rest c = (err e, c)
  continue (ok u) rest c = rest

  -- The loop over the transactions: an error ends it, and what was recorded before stays recorded.
  unfoldable pub check_transactions :
      ShieldedSignerOptions
      → String
      → ℕ
      → List (Option CompiledMessage)
      → Context
      → Result SignerError (Unit {0}) × Context
  unfolding check_transaction record_signed
  check_transactions options signer now [] c = (ok tt, c)
  check_transactions options signer now (msg ∷ msgs) c =
      let rest = check_transactions options signer now msgs (record_signed signer now msg c) in
      continue (check_transaction options signer now msg c) rest c
