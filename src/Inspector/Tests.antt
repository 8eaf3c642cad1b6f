-- ===== src/Inspector/Tests.antt =====
-- A concrete transaction: a transfer of 500 units of USDC by the agent, whose runs other tests use.
use phalnx.Base.{◌≡◌, refl, List, [], ◌∷◌, String, has, sum_by}
use phalnx.Inspector.{InspectableInstruction, analyze_instructions, token_program_address}
use phalnx.Inspector.Laws.{analyze_instructions_sound, is_called, outgoing}
use phalnx.Inspector.Transfers.{Transfers}

abbrev pub usdc : String
usdc = "EPjFWdd5AufqSSqeM2qN1xzybapC8G4wEGGkZwyTDt1v"

-- TransferChecked of 500 = 244 + 256 units.
abbrev pub payment : InspectableInstruction
payment = record {
  program_address = token_program_address;
  accounts = "source" ∷ usdc ∷ "shop" ∷ "agent" ∷ [];
  bytes = 12 ∷ 244 ∷ 1 ∷ 0 ∷ 0 ∷ 0 ∷ 0 ∷ 0 ∷ 0 ∷ 6 ∷ [];
}

-- Approve, by another authority.
abbrev approval : InspectableInstruction
approval = record {
  program_address = token_program_address;
  accounts = "source" ∷ "delegate" ∷ "owner" ∷ [];
  bytes = 4 ∷ 1 ∷ 0 ∷ 0 ∷ 0 ∷ 0 ∷ 0 ∷ 0 ∷ 0 ∷ [];
}

abbrev transaction : List InspectableInstruction
transaction = payment ∷ approval ∷ payment ∷ []

value : (analyze_instructions transaction "agent").estimated_value ≡ 1000
unfolding analyze_instructions
value = refl

analyze_instructions_sound_example :
    ((p : String)
      → has (analyze_instructions transaction "agent").program_ids p ≡ is_called transaction p)
    × Transfers transaction (analyze_instructions transaction "agent").token_transfers
    × ((analyze_instructions transaction "agent").estimated_value
        ≡ sum_by (outgoing "agent") (analyze_instructions transaction "agent").token_transfers)
analyze_instructions_sound_example = analyze_instructions_sound transaction "agent"
