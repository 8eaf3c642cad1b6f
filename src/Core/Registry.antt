-- ===== src/Core/Registry.antt =====
-- sdk/kit/src/core/registry.ts: the known protocols, system programs and tokens.
use phalnx.Base.{ℕ, Bool, List, [], ◌∷◌, Option, none, some, String, has, lookup}

pub record TokenInfo : Type 0 where
  pub symbol : String
  pub decimals : ℕ

-- KNOWN_PROTOCOLS, by program id.
unfoldable pub known_protocols : List (String × String)
known_protocols =
    ("JUP6LkbZbjS1jKKwapdHNy74zcZ3tLUZoi5QNyVTaV4", "Jupiter V6")
    ∷ ("JUP4Fb2cqiRUcaTHdrPC8h2gNsA2ETXiPDD33WcPX7a", "Jupiter V4")
    ∷ ("JUP2jxvXaqu7NQY1GmNF4m1vodw12LVXYxbFL2uN4e7", "Jupiter V2")
    ∷ ("JLend2fEim9xUFcaHsyGePEoBzFLvkjMi3MnPcSuCdu", "Jupiter Lend")
    ∷ ("j1to2GQCsfSHNPfVKMcrUNyRBK8DPYECpEVPLkz1MKv", "Jupiter Trigger")
    ∷ ("DCA265Vj8a9CEuX1eb1LWRnDT7uK6q1xMipnNyatn23M", "Jupiter Recurring")
    ∷ ("whirLbMiicVdio4qvUfM5KAg6Ct8VwpYzGff3uctyCc", "Orca Whirlpool")
    ∷ ("9W959DqEETiGZocYWCQPaJ6sBmUzgfxXfqGeTEdp3aQP", "Orca Whirlpool V2")
    ∷ ("675kPX9MHTjS2zt1qfr1NYHuzeLXfQM9H24wFSUt1Mp8", "Raydium AMM V4")
    ∷ ("CAMMCzo5YL8w4VFF8KVHrK22GGUsp5VTaW7grrKgrWqK", "Raydium CLMM")
    ∷ ("CPMMoo8L3F4NbTegBCKVNunggL7H1ZpdTHKxQB5qKP1C", "Raydium CPMM")
    ∷ ("LBUZKhRxPF3XUpBCjp4YzTKgLccjZhTSDM9YuVaPwxo", "Meteora DLMM")
    ∷ ("Eo7WjKq67rjJQSZxS6z3YkapzY3eMj6Xy8X5EQVn5UaB", "Meteora Pools")
    ∷ ("SSwpkEEcbUqx4vtoEByFjSkhKdCT862DNVb52nZg1UZ", "Saber Stable Swap")
    ∷ ("DecZY86MU5Gj7kppfUCEmd4LbXXuyZH1yHaP2NTqdiZB", "Openbook V2")
    ∷ ("FLASH6Lo6h3iasJKWDs2F8TkW2UKf3s15C8PMGuVfgBn", "Flash Trade")
    ∷ ("FSWAPViR8ny5K96hezav8jynVubP2dJ2L7SbKzds2hwm", "Flash Composability")
    ∷ ("dRiftyHA39MWEi3m9aunc5MzRF1JYuBsbn6VPcn33UH", "Drift Protocol")
    ∷ ("MNGOHoFrnGrovWiCc9kHZB8xEBKM1XPYnZCpWFbRCev", "Mango Markets V4")
    ∷ ("KLend2g3cP87ber8CzRaqeECGwNvLFM9acPVcRkRHvM", "Kamino Lending")
    ∷ ("MFv2hWf31Z9kbCa1snEPYctwafyhdvnV7FZnsebVacA", "Marginfi V2")
    ∷ ("So1endDq2YkqhipRh3WViPa8hFMqDSRbsHTE15WSnBt", "Solend")
    ∷ ("MarBmsSgKXdrN1egZf5sqe1TMai9K1rChYNDJgjq7aD", "Marinade Finance")
    ∷ ("SPoo1Ku8WFXoNDMHPsrGSTSG1Y47rzgn41SLUNakuHy", "Stake Pool Program")
    ∷ ("J1toso1uCk3RLmjorhTtrVwY9HJ7X8V9yYac6Y7kGCPn", "Jito Staking")
    ∷ ("11111111111111111111111111111111", "System Program")
    ∷ ("TokenkegQfeZyiNwAJbNbGKPFXCWuBvf9Ss623VQ5DA", "Token Program")
    ∷ ("ATokenGPvbdGVxr1b2hvZbsiqW5xWH25efTNsLJA8knL", "Associated Token")
    ∷ ("TokenzQdBNbLqP5VEhdkAS6EPFLC1PHnBqCXEpPxuEb", "Token 2022")
    ∷ ("ComputeBudget111111111111111111111111111111", "Compute Budget")
    ∷ ("SysvarRent111111111111111111111111111111111", "Sysvar Rent")
    ∷ ("SysvarC1ock11111111111111111111111111111111", "Sysvar Clock")
    ∷ []

-- SYSTEM_PROGRAMS.
unfoldable pub system_programs : List String
system_programs =
    "11111111111111111111111111111111" ∷ "TokenkegQfeZyiNwAJbNbGKPFXCWuBvf9Ss623VQ5DA"
    ∷ "ATokenGPvbdGVxr1b2hvZbsiqW5xWH25efTNsLJA8knL" ∷ "TokenzQdBNbLqP5VEhdkAS6EPFLC1PHnBqCXEpPxuEb"
    ∷ "ComputeBudget111111111111111111111111111111" ∷ "SysvarRent111111111111111111111111111111111"
    ∷ "SysvarC1ock11111111111111111111111111111111" ∷ []

abbrev token : String → ℕ → TokenInfo
token symbol decimals = record { symbol = symbol; decimals = decimals }

-- KNOWN_TOKENS, by mint.
unfoldable pub known_tokens : List (String × TokenInfo)
known_tokens =
    ("EPjFWdd5AufqSSqeM2qN1xzybapC8G4wEGGkZwyTDt1v", token "USDC" 6)
    ∷ ("Es9vMFrzaCERmJfrF4H2FYD4KCoNkY11McCe8BenwNYB", token "USDT" 6)
    ∷ ("USDSwr9ApdHk5bvJKMjzff41FfuX8bSxdKcR81vTwcA", token "USDS" 6)
    ∷ ("So11111111111111111111111111111111111111112", token "SOL" 9)
    ∷ ("3NZ9JMVBmGAqocybic2c7LQCJScmgsAZ6vQqTDzcqmJh", token "wBTC" 8)
    ∷ ("cbbtcf3aa214zXHbiAZQwf4122FBYbraNdFqgw4iMij", token "cbBTC" 8)
    ∷ ("7vfCXTUXx5WJV5JADk17DUJ4ksgau7utNKj4b963voxs", token "wETH" 8)
    ∷ ("mSoLzYCxHdYgdzU16g5QSh3i5K3z3KZK7ytfqcJm7So", token "mSOL" 9)
    ∷ ("J1toso1uCk3RLmjorhTtrVwY9HJ7X8V9yYac6Y7kGCPn", token "jitoSOL" 9)
    ∷ ("bSo13r4TkiE4KumL71LsHTPpL2euBYLFx6h9HP3piy1", token "bSOL" 9)
    ∷ []

unfoldable pub get_token_info : String → Option TokenInfo
get_token_info mint = lookup mint known_tokens

unfoldable pub get_protocol_name : String → Option String
get_protocol_name program_id = lookup program_id known_protocols

unfoldable pub is_system_program : String → Bool
is_system_program program_id = has system_programs program_id

abbrev has_key {ℓ} : {V : Type ℓ} → Option V → Bool
has_key none = Bool.false
has_key (some v) = Bool.true

unfoldable pub is_known_protocol : String → Bool
is_known_protocol program_id = has_key (lookup program_id known_protocols)
