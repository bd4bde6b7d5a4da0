-- ===== src/Lib.antt =====
-- ChainPipe lets a consumer lock USDC in a pipeline of jobs (nodes of a dependency graph) on Solana;
-- staked agents claim and do the jobs, and a facilitator checks a delivery and settles the node. This
-- library models the three programs (programs) and the TypeScript of the repository: their client
-- (sdk/src), the settling service (facilitator/src), the indexer (indexer/src) and parts of the
-- dashboard's logic.
--
-- How the parts interact: the facilitator and the indexer read the chain and send transactions only
-- through the client. The facilitator answers HTTP requests, keeps one set in memory (the jobs it has
-- seen recorded) and decides, from what the chain and a fetch answer, whether a transaction is sent.
-- On the chain, dag_escrow holds the money of a pipeline and calls bonded_registry (open jobs, slashes)
-- and reputation_bridge (outcomes) in the same transaction, which is taken back as a whole on an error.
-- The indexer polls the chain into a store and merges the job specs that were posted to it.
--
-- Files:
--   Base and its children: lists, tests and results over native numbers; UTF-8 with TextDecoder's
--     error states, hexadecimal, the base64 reader of Node's Buffer, decimal numbers.
--   Idl: what sdk/src/idl/*.ts says of each instruction: program, accounts, signers, derived and
--     fixed addresses, arguments.
--   Sdk/Platform: the functions that come from packages (hashes, signatures, address derivation), as
--     a record that every definition takes; Sdk/Network: the RPC node and fetch, as functions of
--     how many questions were asked before, so that the chain may change between two awaits,
--     with the log of the transactions that were sent.
--   Sdk/Accounts, Deployment, Pdas, Uri, Delivery, Calls, Client: sdk/src/addresses.ts, pdas.ts, pipeline.ts,
--     stake.ts, reputation.ts and discovery.ts. `complete_node_call` and its like are the transaction
--     alone, `complete_node` the function that fetches and sends; names follow the source, in
--     snake case. Sdk/Conforms: what it is for a call to fit its instruction, and its
--     children, one for each group of calls, that they do.
--   Facilitator/Scorer, Replay, Verifier, Input, Service, Server: facilitator/src/scorer.ts,
--     replay.ts, verifier.ts, config.ts, server.ts and settler.ts, one function per route.
--   Indexer/Stats, Store, Specs, Poller: computeStats of indexer/src/decoder.ts, store.ts, POST /spec
--     and withSpecs of api.ts, and poller.ts.
--   Dashboard/Masks, Builder, Work: depsOf of dashboard/lib/adapt.ts, the edits and masks of
--     dashboard/components/PipelineBuilder.tsx and the lists of dashboard/app/work/page.tsx.
--   Programs/Runtime: what the programs take from the token program, as a record with the law
--     TransferLaw (a transfer is carried out exactly if the source holds the amount, and moves just
--     that); Programs/Registry, Bridge, Escrow: programs/bonded_registry, reputation_bridge and
--     dag_escrow, one function per instruction from the accounts to the accounts or an error, with
--     the checks of the account constraints. Amounts are summed per owner and mint; signer, mint and
--     the accounts passed are arguments. Escrow/Opening, Settling and Expiring hold the instructions,
--     Calls runs them one after another; Money, Solvency, Disputes and Runs follow the vault; Fates,
--     Lifecycle, Verdicts and Histories the status of a node; Expiring/Laws, Rounds, Closure, Fallen,
--     Marking and Cascade the loop of expire_node; Budget, Payout and Recovery the money of one instruction. In
--     Registry and Bridge, Operator holds the operator's instructions, Calls runs all of them; Kept,
--     Runs and Tokens follow the stakes, Unbound and Bridge/Once are named for what they show. Ledger is a
--     runtime that obeys the law, and Cases the accounts on which the theorems are applied.
--   Laws (and Mismatch, Overdue, Silence, Places, Cascade) below each part hold its theorems, Tests
--     apply them to the chain of Samples.
--
-- A handler is a function of the guard's set and of the session with the network, and a thrown error
-- is a value that carries what was written before it. Loops are structural recursion over the list
-- or the number of rounds; fuel is that of `decimal`, one unit more than the number, which has no
-- more digits than that, and that of the loop of expire_node, one pass more than there are nodes:
-- each pass but the last takes a pending node away.
--
-- Bodies of requests are taken with fields of the expected JSON types. The route /faucet, the
-- HTTP layer, the loading of keys and the environment (facilitator/src/config.ts) and the file behind
-- the indexer's store are not modelled; nor are `serialize`, the filters of the indexer's lists and the
-- rest of the dashboard; nor, of the programs, the migrations of old accounts, rent, bumps and events.
-- Token accounts are taken to exist and not to be frozen: a transfer fails for want of the amount only,
-- and stake_and_register does not fail because the vault of the stake was made before. The address
-- of an owner's token account is a total function; the package throws for an owner off the curve.
pub mod Base
pub mod Idl
pub mod Sdk
pub mod Facilitator
pub mod Indexer
pub mod Dashboard
pub mod Programs
mod Samples
