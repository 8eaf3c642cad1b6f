-- ===== src/Shield/Signer/Laws.antt =====
-- What the signer lets through, and what its records keep.
use phalnx.Base.{false, ℕ, ◌≡◌, Bool, List, ◌∷◌, Option, String}
use phalnx.Inspector.{analyze_instructions}
use phalnx.Network.{Network}
use phalnx.Shield.Evaluate.Laws.{IsApproved}
use phalnx.Shield.Context.{Context}
use phalnx.Shield.Compiled.{CompiledMessage, extract_instructions}
use phalnx.Shield.Signer.{ShieldedSignerOptions, record_signed}

module _ (cache : Option (String → Option (List String)))
    (simulation_succeeds : Option CompiledMessage → Bool) (options : ShieldedSignerOptions)
    (signer : String) (now : ℕ) where
  -- The transactions that are recorded: some at the front of the list, in order, each of which met the
  -- policies in the context that the ones before it left, which was not paused.
  pub data Accepted : List (Option CompiledMessage) → Context → Context → Type 0 where
    stopped : {msgs : List (Option CompiledMessage)} {c : Context} → Accepted msgs c c
    passed :
        {msg : Option CompiledMessage} {msgs : List (Option CompiledMessage)} {c c' : Context}
        → c.is_paused ≡ false
        → IsApproved
            (analyze_instructions (extract_instructions cache msg) signer)
            signer
            c.resolved
            c.state
            c.sync_network
            now
        → Accepted msgs (record_signed cache simulation_succeeds signer now msg c) c'
        → Accepted (msg ∷ msgs) c c'
