-- ===== src/Network.antt =====
-- sdk/kit/src/types.ts: networks, and the stablecoin mints of each.
use phalnx.Base.{Bool, ◌||◌, String, str_eq}

pub data Network : Type 0 where
  devnet mainnet_beta : Network

abbrev pub usdc_mint_devnet : String
usdc_mint_devnet = "DMFEQFCRsvGrYzoL2gfwTEd9J8eVBQEjg7HjbJHd6oGH"

abbrev pub usdc_mint_mainnet : String
usdc_mint_mainnet = "EPjFWdd5AufqSSqeM2qN1xzybapC8G4wEGGkZwyTDt1v"

abbrev pub usdt_mint_devnet : String
usdt_mint_devnet = "43cd9ma7P968BssTtAKNs5qu6zgsErupwxwdjkiuMHze"

abbrev pub usdt_mint_mainnet : String
usdt_mint_mainnet = "Es9vMFrzaCERmJfrF4H2FYD4KCoNkY11McCe8BenwNYB"

unfoldable pub is_stablecoin_mint : String → Network → Bool
is_stablecoin_mint mint devnet = str_eq mint usdc_mint_devnet || str_eq mint usdt_mint_devnet
is_stablecoin_mint mint mainnet_beta =
    str_eq mint usdc_mint_mainnet || str_eq mint usdt_mint_mainnet
