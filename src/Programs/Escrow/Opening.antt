-- ===== src/Programs/Escrow/Opening.antt =====
-- Creating a pipeline, claiming a node and cancelling, from programs/dag_escrow/src/lib.rs.
use chainpipe.Base.{
  ℕ, suc, ◌-◌, ◌^◌, not, ◌&&◌, List, [], ◌∷◌, Option, none, some, ltb, leb, length, set, replicate,
}
use chainpipe.Base.Results.{Result, ok, ◌>>=◌, ◌>>◌}
use chainpipe.Base.Encodings.{text_eq}
use chainpipe.Sdk.Platform.{PublicKey}
use chainpipe.Sdk.Accounts.{
  PipelineNode, NodeSettlement, pending, claimed, active, cancelled, is_pending, is_active,
}
use chainpipe.Sdk.Pdas.{le_bytes}
use chainpipe.Programs.Runtime.{Runtime, require, present, saturating_add, checked_add, find}
use chainpipe.Programs.Registry.{Registry, increment_open_jobs}
use chainpipe.Programs.Bridge.{Bridge}
use chainpipe.Programs.Escrow.{
  EscrowConfig, Escrow, max_nodes, node_account, account_at, within, pay_some,
}

pub record NodeConfig : Type 0 where
  pub allocation_usdc : ℕ
  pub deadline_slots_from_now : ℕ
  pub dependency_mask : ℕ
  pub required_tier : ℕ

-- The loop that checks the graph and adds up; `mask & !allowed == 0` with the i lowest bits allowed
-- means that the mask is below 2 ^ i.
abbrev pub check_dag : ℕ → List NodeConfig → ℕ → Result ℕ
check_dag i [] total = ok total
check_dag i (c ∷ rest) total = do
  require (ltb c.dependency_mask (2 ^ i)) "InvalidDag"
  total' ← checked_add 64 total c.allocation_usdc
  check_dag (suc i) rest total'

abbrev pub new_node : Runtime → PublicKey → ℕ → ℕ → NodeConfig → PipelineNode
new_node rt key slot i c = record {
  pipeline = key;
  node_index = i;
  agent = rt.default_key;
  allocation_usdc = c.allocation_usdc;
  deadline_slot = saturating_add (2 ^ 64 - 1) slot c.deadline_slots_from_now;
  dependency_mask = c.dependency_mask;
  status = pending;
  settled_at_slot = 0;
  job_id = replicate 32 0;
  required_tier = c.required_tier;
  bump = 0;
}

abbrev pub new_nodes : Runtime → PublicKey → ℕ → ℕ → List NodeConfig → List (Option PipelineNode)
new_nodes rt key slot i [] = []
new_nodes rt key slot i (c ∷ rest) =
    some (new_node rt key slot i c) ∷ new_nodes rt key slot (suc i) rest

abbrev pub no_settlements : List NodeConfig → List (Option NodeSettlement)
no_settlements [] = []
no_settlements (c ∷ rest) = none ∷ no_settlements rest

-- Consumer, mint, key of the new pipeline (`init`, so not yet in use), node configs, nonce and slot.
-- The accounts of the nodes are the derived ones.
unfoldable pub create_pipeline :
    Runtime
    → EscrowConfig
    → PublicKey
    → Registry
    → Bridge
    → PublicKey
    → PublicKey
    → PublicKey
    → List NodeConfig
    → ℕ
    → ℕ
    → Result Escrow
create_pipeline rt config dag_authority registry bridge consumer mint key configs nonce slot = do
  require (not config.paused) "Paused"
  require (leb 1 (length configs) && leb (length configs) max_nodes) "InvalidNodeCount"
  total ← check_dag 0 configs 0
  require (ltb 0 total) "EmptyPipeline"
  tokens ← rt.transfer mint consumer key total registry.tokens
  ok (record {
    config = config;
    dag_authority = dag_authority;
    key = key;
    pipeline = record {
      consumer = consumer;
      total_nodes = length configs;
      total_usdc_locked = total;
      nodes_settled = 0;
      nodes_expired = 0;
      status = active;
      nonce = nonce;
      stake_mint = mint;
      settled_mask = 0;
      bump = 0;
    };
    nodes = new_nodes rt key slot 0 configs;
    settlements = no_settlements configs;
    registry = record registry { tokens = tokens };
    bridge = bridge;
  })

abbrev pub claimed_node : Runtime → PublicKey → ℕ → PublicKey → ℕ → PipelineNode → PipelineNode
claimed_node rt key i agent slot node = record node {
  agent = agent;
  status = claimed;
  job_id = rt.hashv (key ∷ (i ∷ []) ∷ agent ∷ le_bytes 8 slot ∷ []);
}

-- Agent, who signs, node index and slot.
unfoldable pub claim_node : Runtime → PublicKey → ℕ → ℕ → Escrow → Result Escrow
claim_node rt agent i slot e = do
  require (not e.config.paused) "Paused"
  require (is_active e.pipeline.status) "PipelineNotActive"
  node ← node_account i e
  require (is_pending node.status) "NodeNotClaimable"
  require (within node.dependency_mask e.pipeline.settled_mask) "DependenciesNotMet"
  stake ← present (find agent e.registry.stakes) "AccountNotInitialized"
  require (text_eq stake.agent agent) "AgentMismatch"
  require (leb node.required_tier stake.tier) "TierInsufficient"
  registry ← increment_open_jobs rt e.dag_authority agent e.registry
  ok (record e {
    nodes = set e.nodes i (some (claimed_node rt e.key i agent slot node));
    registry = registry;
  })

-- Every account that was passed must be a pending node of this pipeline.
abbrev pub all_pending : List ℕ → Escrow → Result (Unit {0})
all_pending [] e = ok tt
all_pending (i ∷ rest) e = do
  node ← present (account_at e.nodes i) "AccountDidNotDeserialize"
  require (text_eq node.pipeline e.key) "InvalidNodeAccount"
  require (is_pending node.status) "PipelineHasActivity"
  all_pending rest e

abbrev pub close_nodes : List ℕ → List (Option PipelineNode) → List (Option PipelineNode)
close_nodes [] nodes = nodes
close_nodes (i ∷ rest) nodes = close_nodes rest (set nodes i none)

-- Signer, mint, and the indices of the node accounts that are passed.
unfoldable pub cancel_pipeline : Runtime → PublicKey → PublicKey → List ℕ → Escrow → Result Escrow
cancel_pipeline rt consumer mint passed e = do
  require (text_eq consumer e.pipeline.consumer) "ConstraintHasOne"
  require (is_active e.pipeline.status) "PipelineNotActive"
  all_pending passed e
  paid ← pay_some rt mint consumer (e.registry.tokens mint e.key) e
  ok (record paid {
    nodes = close_nodes passed paid.nodes;
    pipeline = record paid.pipeline { status = cancelled };
  })
