-- ===== src/Seal/Genesis.antt =====
-- sdk/kit/src/seal.ts, createSigilClientAsync: the RPC node must be on the configured cluster. The
-- observed hashes are cached by RPC client, which a text names here. The logger is left out.
pub mod Laws
use Prim.Native.String.{len}
use phalnx.Base.{
  ℕ, zero, suc, ◌+◌, ◌*◌, ◌^◌, Bool, true, false, List, Option, none, some, String, str_eq, Result,
  ok, err, ◌>>=◌, Task, guard, lift, ◌>=>◌, if◌then◌else◌, ltb, ◌==◌, lookup, insert,
}
use phalnx.Network.{Network, devnet, mainnet_beta}
use phalnx.Seal.Plugins.{Entries, ListError, validate_plugin_list}

abbrev solana_devnet_genesis_hash : String
solana_devnet_genesis_hash = "EtWTRABZaYq6iMfeYKouRu166VU2xqa1wcaWoxPkrZBG"

abbrev solana_mainnet_genesis_hash : String
solana_mainnet_genesis_hash = "5eykt4UsFv8P8NJdTREpY1vzqKqZKvdpKuc147dw2N9d"

abbrev pub expected_hash : Network → String
expected_hash mainnet_beta = solana_mainnet_genesis_hash
expected_hash devnet = solana_devnet_genesis_hash

-- The first and third are of the RPC node, the second and fourth of the configuration.
pub data ClientError : Type 0 where
  genesis_unavailable : ClientError
  genesis_mismatch : String → ClientError
  genesis_malformed : String → ClientError
  vault_required : ClientError
  invalid_plugins : ListError → ClientError

-- The parameters: the timer, and the operation.
module _ {ℓ} {World : Type ℓ} (sleep : ℕ → World → World) where
  abbrev pub base_delay_ms : ℕ
  base_delay_ms = 200

  -- An attempt that fails, and is not the last, is followed by a wait and the others.
  abbrev pub after_attempt {κ μ} :
      {E : Type κ} {A : Type μ}
      → ℕ
      → Result E A × World
      → (World → Result E A × World)
      → Result E A × World
  after_attempt i (ok a, w) again = (ok a, w)
  after_attempt i (err e, w) again = again (sleep (base_delay_ms * 2 ^ i) w)

  -- withRetry with `suc left` attempts, from attempt `i` on.
  unfoldable pub with_retry {κ μ} :
      {E : Type κ} {A : Type μ} → Task World E A → ℕ → ℕ → Task World E A
  with_retry op zero i w = op w
  with_retry op (suc left) i w = after_attempt i (op w) (with_retry op left (suc i))

  abbrev pub HashCache : Type 0
  HashCache = List (String × String)

  -- A hash that is too short is not cached.
  abbrev pub remembered :
      Bool → String → String → HashCache → World → Result ClientError String × (HashCache × World)
  remembered true rpc hash cache w = (err (genesis_malformed hash), (cache, w))
  remembered false rpc hash cache w = (ok hash, (insert rpc hash cache, w))

  abbrev pub fetched :
      String
      → HashCache
      → Result String String × World
      → Result ClientError String × (HashCache × World)
  fetched rpc cache (err e, w) = (err genesis_unavailable, (cache, w))
  fetched rpc cache (ok hash, w) = remembered (ltb (len hash) 32) rpc hash cache w

  -- (A cached hash is not empty, being no shorter than 32.)
  abbrev pub observe :
      Task World String String
      → String
      → Option String
      → Task (HashCache × World) ClientError String
  observe get_genesis_hash rpc (some hash) w = (ok hash, w)
  observe get_genesis_hash rpc none (cache, w) =
      fetched rpc cache (with_retry get_genesis_hash 2 0 w)

  unfoldable pub assert_genesis_hash :
      Task World String String → String → Network → Task (HashCache × World) ClientError (Unit {0})
  unfolding with_retry
  assert_genesis_hash get_genesis_hash rpc network (cache, w) =
      (observe get_genesis_hash rpc (lookup rpc cache) >=> λ observed.
      lift (guard (str_eq observed (expected_hash network)) (genesis_mismatch observed)))
        (cache, w)
