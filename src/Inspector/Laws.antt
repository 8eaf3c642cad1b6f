-- ===== src/Inspector/Laws.antt =====
-- What the analysis of a list of instructions reports.
use phalnx.Base.{
  ℕ, ◌≡◌, refl, ◌∙◌, sym, Bool, false, ◌||◌, List, [], ◌∷◌, ◌++◌, Option, none, some, String,
  str_eq, eq_iff, if◌then◌else◌, sum_by, sum_by-append, has, add, arith, inl, inr, Option-cases,
}
use mathlib.Core.List.{append-nil, append_assoc}
use mathlib.Core.Path.{subst}
use phalnx.Inspector.Reading.{transfer_of_iff}
use phalnx.Inspector.Transfers.{Transfers, done, makes, makes_none}
use phalnx.Inspector.{
  InspectableInstruction, InstructionAnalysis, TokenTransferInfo, analyze_from, analyze_instruction,
  analyze_instructions, transfer_of, push, empty_analysis,
}

-- What leaves the signer by a transfer.
abbrev pub outgoing : String → TokenTransferInfo → ℕ
outgoing signer t = if str_eq t.authority signer then t.amount else 0

abbrev pub cons_some {ℓ} : {A : Type ℓ} → Option A → List A → List A
cons_some none xs = xs
cons_some (some x) xs = x ∷ xs

push-append {ℓ} :
    {A : Type ℓ} (xs : List A) (o : Option A) (ys : List A) → push xs o ++ ys ≡ xs ++ cons_some o ys
push-append xs none ys = refl
push-append xs (some x) ys = append_assoc xs (x ∷ []) ys

-- All transfers of the instructions, in order.
abbrev pub transfers_of : List InspectableInstruction → List TokenTransferInfo
transfers_of [] = []
transfers_of (ix ∷ ixs) = cons_some (transfer_of ix) (transfers_of ixs)

has-append : (s : List String) (a b : String) → has (s ++ a ∷ []) b ≡ (has s b || str_eq a b)
has-append [] a b = ground arith
has-append (x ∷ s) a b = ground (arith, has-append s a b)

has-add : (s : List String) (a b : String) → has (add s a) b ≡ (has s b || str_eq a b)
has-add s a b = ground (arith, has-append s a b, eq_iff a b)

-- A program is called by one of the instructions.
abbrev pub is_called : List InspectableInstruction → String → Bool
is_called [] p = false
is_called (ix ∷ ixs) p = str_eq ix.program_address p || is_called ixs p

module _ (signer : String) where
  analyze_instruction-value :
      (acc : InstructionAnalysis) (ix : InspectableInstruction)
      → acc.estimated_value ≡ sum_by (outgoing signer) acc.token_transfers
      → (analyze_instruction signer acc ix).estimated_value
        ≡ sum_by (outgoing signer) (analyze_instruction signer acc ix).token_transfers
  unfolding analyze_instruction
  analyze_instruction-value acc ix h = elim (Option-cases (transfer_of ix)) [
    | inl none_made ↦ ground arith
    | inr (t, made) ↦ ground (arith, sum_by-append (outgoing signer) acc.token_transfers (t ∷ []))
  ]

  analyze_from-value :
      (acc : InstructionAnalysis) (ixs : List InspectableInstruction)
      → acc.estimated_value ≡ sum_by (outgoing signer) acc.token_transfers
      → (analyze_from signer acc ixs).estimated_value
        ≡ sum_by (outgoing signer) (analyze_from signer acc ixs).token_transfers
  unfolding analyze_from
  analyze_from-value acc [] h = h
  analyze_from-value acc (ix ∷ ixs) h =
      analyze_from-value (analyze_instruction signer acc ix) ixs
        (analyze_instruction-value acc ix h)

  analyze_from-transfers :
      (acc : InstructionAnalysis) (ixs : List InspectableInstruction)
      → (analyze_from signer acc ixs).token_transfers ≡ acc.token_transfers ++ transfers_of ixs
  unfolding analyze_from analyze_instruction
  analyze_from-transfers acc [] = sym (append-nil _)
  analyze_from-transfers acc (ix ∷ ixs) =
      analyze_from-transfers (analyze_instruction signer acc ix) ixs
      ∙ push-append acc.token_transfers (transfer_of ix) (transfers_of ixs)

  analyze_from-programs :
      (acc : InstructionAnalysis) (ixs : List InspectableInstruction) (p : String)
      → has (analyze_from signer acc ixs).program_ids p ≡ (has acc.program_ids p || is_called ixs p)
  unfolding analyze_from analyze_instruction
  analyze_from-programs acc [] p = ground arith
  analyze_from-programs acc (ix ∷ ixs) p = ground (
    arith,
    analyze_from-programs (analyze_instruction signer acc ix) ixs p,
    has-add acc.program_ids ix.program_address p,
  )

next-Transfers :
    (ix : InspectableInstruction) (ixs : List InspectableInstruction) (o : Option TokenTransferInfo)
    → transfer_of ix ≡ o
    → Transfers ixs (transfers_of ixs)
    → Transfers (ix ∷ ixs) (cons_some o (transfers_of ixs))
next-Transfers ix ixs none e rest =
    makes_none (λ t h. let read = (transfer_of_iff ix t).1 h in cc) rest
next-Transfers ix ixs (some t) e rest = makes ((transfer_of_iff ix t).0 e) rest

transfers_of-Transfers : (ixs : List InspectableInstruction) → Transfers ixs (transfers_of ixs)
transfers_of-Transfers [] = done
transfers_of-Transfers (ix ∷ ixs) =
    next-Transfers ix ixs (transfer_of ix) refl (transfers_of-Transfers ixs)

-- The analysis lists exactly the programs that the instructions call and, in order, the transfers
-- that their bytes and accounts spell: of a token program, a Transfer or TransferChecked with its
-- amount in 8 bytes, the lowest first, and its accounts in their places. The estimated value is the
-- sum of those transfers that the signer authorises.
pub analyze_instructions_sound :
    (ixs : List InspectableInstruction) (signer : String)
    → ((p : String) → has (analyze_instructions ixs signer).program_ids p ≡ is_called ixs p)
      × Transfers ixs (analyze_instructions ixs signer).token_transfers
      × ((analyze_instructions ixs signer).estimated_value
          ≡ sum_by (outgoing signer) (analyze_instructions ixs signer).token_transfers)
unfolding analyze_instructions
analyze_instructions_sound ixs signer =
    let transfers = analyze_from-transfers signer empty_analysis ixs in
    (
      analyze_from-programs signer empty_analysis ixs,
      subst (Transfers ixs) (sym transfers) (transfers_of-Transfers ixs),
      analyze_from-value signer empty_analysis ixs refl,
    )
