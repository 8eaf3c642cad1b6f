-- ===== src/Seal/Rewrite/Laws.antt =====
-- What the replacement of the agent's accounts changes, and that no caller can change it.
use phalnx.Base.{
  ◌≡◌, ◌≢◌, refl, sym, ap, ◌∙◌, List, [], ◌∷◌, Option, none, some, String, Result, ok, lookup,
  insert, All, arith, eq_iff, lookup-insert,
}
use phalnx.Seal.{Instruction, SealError}
use phalnx.Seal.Rewrite.{
  unless_present, replace_instruction, replace_agent_atas, merge_replacements, with_stablecoin,
  ata_replacements,
}

-- The programs and the data of the instructions stay.
pub replace_agent_atas-All :
    (P : String → Type 0) (instructions : List Instruction) (replacements : List (String × String))
    → All (λ ix. P ix.program_address) instructions
    → All (λ ix. P ix.program_address) (replace_agent_atas instructions replacements)
unfolding replace_agent_atas replace_instruction
replace_agent_atas-All P instructions [] h = h
replace_agent_atas-All P [] (r ∷ rs) h = tt
replace_agent_atas-All P (ix ∷ instructions) (r ∷ rs) (first, rest) =
    (first, replace_agent_atas-All P instructions (r ∷ rs) rest)

unless_present-eq-ok {ℓ} :
    {A : Type ℓ} (present : Option String) (key : String) (rest : Result SealError A) (a : A)
    → unless_present present key rest ≡ ok a
    → (present ≡ none) × (rest ≡ ok a)
unless_present-eq-ok none key rest a h = (refl, h)
unless_present-eq-ok (some value) key rest a h = cc

insert-keeps :
    (key other value added : String) (replacements : List (String × String))
    → lookup other replacements ≡ none
    → lookup key replacements ≡ some value
    → lookup key (insert other added replacements) ≡ some value
insert-keeps key other value added replacements free present =
    ground (arith, lookup-insert other key added replacements, eq_iff other key, free, present)

-- A replacement of the map stays in it, whatever replacements are merged into it.
merge_replacements-keeps :
    (replacements more merged : List (String × String)) (key value : String)
    → merge_replacements replacements more ≡ ok merged
    → lookup key replacements ≡ some value
    → lookup key merged ≡ some value
unfolding merge_replacements
merge_replacements-keeps replacements [] merged key value h present =
    let same : replacements ≡ merged = ground (arith, h) in ap (lookup key) (sym same) ∙ present
merge_replacements-keeps replacements ((agent_ata, vault_ata) ∷ more) merged key value h present =
    let (free, rest) = unless_present-eq-ok (lookup agent_ata replacements) agent_ata _ merged h in
    merge_replacements-keeps (insert agent_ata vault_ata replacements) more merged key value rest
      (insert-keeps key agent_ata value vault_ata replacements free present)

stablecoin-keeps :
    (agent_ata vault_ata : String) (stablecoin output : Option String)
    → (stablecoin ≢ some agent_ata)
    → lookup agent_ata (with_stablecoin ((agent_ata, vault_ata) ∷ []) stablecoin output)
      ≡ some vault_ata
stablecoin-keeps agent_ata vault_ata none output h = ground (arith, eq_iff agent_ata agent_ata)
stablecoin-keeps agent_ata vault_ata (some other) none h =
    ground (arith, eq_iff agent_ata agent_ata)
stablecoin-keeps agent_ata vault_ata (some other) (some account) h =
    ground (arith, h, eq_iff agent_ata agent_ata, eq_iff agent_ata other)

-- Whatever replacements the caller adds, the agent's account for the token is replaced by the
-- vault's, if it is not the agent's account for the stablecoin.
pub ata_replacements-keeps :
    (agent_ata vault_ata : String) (stablecoin output : Option String)
    (additional replacements : List (String × String))
    → stablecoin ≢ some agent_ata
    → ata_replacements agent_ata vault_ata stablecoin output additional ≡ ok replacements
    → lookup agent_ata replacements ≡ some vault_ata
unfolding ata_replacements
ata_replacements-keeps agent_ata vault_ata stablecoin output additional replacements h accepted =
    merge_replacements-keeps _ additional replacements agent_ata vault_ata accepted
      (stablecoin-keeps agent_ata vault_ata stablecoin output h)
