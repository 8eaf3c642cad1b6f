-- ===== src/Lib.antt =====
-- Phalnx (Sigil): the client-side guardrails of an agent's wallet, in TypeScript.
--
-- An owner keeps funds in an on-chain vault and lets agents spend from it. The kit under sdk/kit/src
-- holds the agent to the owner's policies before anything is signed: it inspects the instructions,
-- keeps a record of what was spent, mirrors the vault's on-chain budgets, and bounds payments over
-- x402. All times are arguments: what the code reads from the clock is passed in, in milliseconds for
-- the client's windows and in seconds for the on-chain ones.
--
-- Parts, and the files that model them:
--
--   Base             vocabulary: tests on numbers, lists, sums, results of code that throws.
--   Budget           state-resolver.ts: the account data and the constants of types.ts. Rolling is
--                    getRolling24hUsd and getSpendingHistory, Agent is getAgentRolling24hUsd and
--                    findAgentOverlaySlot, Protocol is bytesMatchAddress and getProtocolSpend, Resolve
--                    is resolveVaultState and resolveVaultBudget behind the fetched accounts. OnChain
--                    is record_spend and get_rolling_24h_usd of programs/sigil/src/state/tracker.rs,
--                    with its saturating arithmetic written out.
--   Inspector        inspector.ts: analyzeInstructions. Transfers is the layout of the two transfer
--                    instructions, which the parser is compared with.
--   Core             core/: Registry, Policies, State and Engine, the platform-independent engine.
--   Violations       core/errors.ts: the rules, without message texts.
--   Network, Policies  types.ts and policies.ts: stablecoin mints and the kit's policies.
--   Shield           shield.ts: State is the class ShieldState, Evaluate is evaluateInstructions, and
--                    Context is the object of shield(): check, enforce, pause, resume, sync and the
--                    rest. Compiled is _extractInstructionsFromCompiled with the cache of alt-loader.ts,
--                    and Signer the checks of createShieldedSigner before the base signer. A call that
--                    throws is an error value, and a Context is the two variables and the state that the
--                    closure holds. Context/History runs sequences of calls.
--   Velocity         velocity-tracker.ts: the class VelocityTracker.
--   PostAssertions   dashboard/post-assertion-validation.ts and post-assertions/cross-field-lte.ts;
--                    OnChain is validate_entries of programs/sigil/src/state/post_assertions.rs.
--   Seal             seal.ts and what it calls. Hooks is hooks.ts and Plugins plugin.ts; Rewrite is
--                    replaceAgentAtas and the map of replacements; Gates the checks of seal(), steps 1
--                    to 6; Composer is composer.ts with estimateComposedCU; Lookup is alt-loader.ts and
--                    alt-config.ts; Build is seal() itself: Steps up to the instructions, Run the
--                    transaction and the whole. Genesis is createSigilClientAsync's check of the cluster,
--                    Confirm is sendAndConfirmTransaction of rpc-helpers.ts, Drain the drain detection of
--                    simulation.ts. Async code is a task in a world that it takes and returns.
--   X402             x402/: Selector is selectPaymentOption, Nonces is NonceTracker, Amounts is the
--                    amount guard, Bridge is the policy bridge. Codec is decodePaymentRequiredHeader and Fetch
--                    is shieldedFetch, as a task in a state that holds the nonce tracker and the recent
--                    amounts of the modules, the context of the shield and the world outside: Checks are
--                    its steps 1 and 9 to 11, Payment its steps 12 to 17, Run the whole, and Approved
--                    says what the checks mean. Which
--                    transaction a response names, the signing and the poll for the settlement are
--                    parameters, in the record FetchServices.
--
-- How they interact: Shield reads Inspector's analysis, Policies, and the ResolvedVaultState of
-- Budget.Resolve; Velocity and X402.Bridge read the same ShieldState; Shield reuses the entries of
-- Core.State. Seal reads the budgets of Budget, and its drain detection the context that Seal.Build
-- answers.
--
-- Numbers are natural numbers where the source has a bigint or number that is never negative; u64, i64
-- and u128 bounds are written out where the code or the program clamps or saturates. Loops over lists
-- are recursions on the list. The loops with a fixed number of rounds count them down: the 24
-- epochs of an agent's overlay, the 32 bytes of an address, and the 8 bytes of an amount. The retries
-- count their attempts down. The poll for a confirmation has one round of fuel for every millisecond of
-- its timeout and one more, which is enough because every round waits.
--
-- Parameters: the address encoder of @solana/kit, BigInt's parse of a text, the URL class, the external
-- storage of a nonce tracker, whether a transaction's simulation succeeds, and, for seal(), the RPC
-- node, the key derivations, the builders of the program's instructions, the compiler and the wire
-- format, in the record Services. For shieldedFetch they are the clock, the HTTP requests, atob and
-- JSON.parse.
--
-- Not modelled: RPC calls, signing, message texts, callbacks and logs, persistent storage of the core's
-- state, the text form of a spend limit, generated codecs, the base signer that shield.ts wraps, the
-- client object around seal(), the dashboard, attestation, and the on-chain program but for its two mirrored parts.
pub mod Base
pub mod Budget
pub mod Inspector
pub mod Core
pub mod Violations
pub mod Network
pub mod Policies
pub mod Shield
pub mod Velocity
pub mod PostAssertions
pub mod X402
pub mod Seal
