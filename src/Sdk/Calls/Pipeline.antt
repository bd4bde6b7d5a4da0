-- ===== src/Sdk/Calls/Pipeline.antt =====
-- createPipeline, claimNode, expireNode and cancelPipeline of sdk/src/pipeline.ts.
use chainpipe.Base.{
  ℕ, zero, suc, String, true, false, List, [], ◌∷◌, Option, none, some, map, ◌==◌, if◌then◌else◌,
}
use chainpipe.Base.Text.{to_uint8}
use chainpipe.Sdk.Platform.{Platform, PublicKey}
use chainpipe.Sdk.Accounts.{Addresses, PipelineNode, PipelineAccount, is_claimed}
use chainpipe.Sdk.Pdas.{
  registry_config_pda, agent_stake_pda, bridge_config_pda, reputation_pda, job_record_pda,
  pipeline_config_pda, dag_authority_pda, node_pda, vault_ata,
}
use chainpipe.Sdk.Calls.Shape.{number, node_configs, AccountMeta, NodeInput, Call}

module _ (pf : Platform) (a : Addresses) where
  open pf use {
    associated_token_address, token_program_id, associated_token_program_id, system_program_id,
  }
  open a use {bonded_registry, dag_escrow, reputation_bridge, usdc_mint}

  abbrev pub writable_meta : PublicKey → AccountMeta
  writable_meta key = record { pubkey = key; is_writable = true; is_signer = false }

  -- `nodes.map((_, i) => nodePda(addresses, pipeline, i))`, from index i on.
  abbrev pub node_pdas_from : PublicKey → ℕ → List NodeInput → List PublicKey
  node_pdas_from pipeline i [] = []
  node_pdas_from pipeline i (_ ∷ nodes) =
      node_pda pf a pipeline i ∷ node_pdas_from pipeline (suc i) nodes

  abbrev pub create_pipeline_call : PublicKey → List NodeInput → ℕ → PublicKey → Call
  create_pipeline_call consumer nodes nonce pipeline = record {
    program = dag_escrow;
    method = "createPipeline";
    args = node_configs nodes ∷ number nonce ∷ [];
    accounts =
        ("pipelineConfig", some (pipeline_config_pda pf a))
        ∷ ("pipeline", some pipeline)
        ∷ ("consumer", some consumer)
        ∷ ("stakeMint", some usdc_mint)
        ∷ ("consumerTokenAccount", some (associated_token_address usdc_mint consumer))
        ∷ ("vault", some (vault_ata pf a usdc_mint pipeline))
        ∷ ("tokenProgram", some token_program_id)
        ∷ ("associatedTokenProgram", some associated_token_program_id)
        ∷ ("systemProgram", some system_program_id)
        ∷ [];
    remaining = map writable_meta (node_pdas_from pipeline 0 nodes);
    signers = consumer ∷ [];
  }

  abbrev pub claim_node_call : PublicKey → PublicKey → ℕ → Call
  claim_node_call agent pipeline node_index = record {
    program = dag_escrow;
    method = "claimNode";
    args = number node_index ∷ [];
    accounts =
        ("pipelineConfig", some (pipeline_config_pda pf a))
        ∷ ("pipeline", some pipeline)
        ∷ ("node", some (node_pda pf a pipeline node_index))
        ∷ ("agent", some agent)
        ∷ ("agentStake", some (agent_stake_pda pf a agent))
        ∷ ("registryConfig", some (registry_config_pda pf a))
        ∷ ("dagAuthority", some (dag_authority_pda pf a))
        ∷ ("bondedRegistryProgram", some bonded_registry)
        ∷ [];
    remaining = [];
    signers = agent ∷ [];
  }

  -- The loops over `pipelineAcc.totalNodes`: k rounds are left, the next index is i.
  abbrev pub all_metas_from : PublicKey → ℕ → ℕ → List AccountMeta
  all_metas_from pipeline zero i = []
  all_metas_from pipeline (suc k) i =
      writable_meta (node_pda pf a pipeline i) ∷ all_metas_from pipeline k (suc i)

  abbrev pub other_metas_from : PublicKey → ℕ → ℕ → ℕ → List AccountMeta
  other_metas_from pipeline node_index zero i = []
  other_metas_from pipeline node_index (suc k) i =
      let others = other_metas_from pipeline node_index k (suc i) in
      if i == node_index then others else writable_meta (node_pda pf a pipeline i) ∷ others

  -- `slashAccounts`: given for a claimed node, null for any other.
  abbrev pub slash_accounts : PipelineNode → List (String × Option PublicKey)
  slash_accounts target =
      let given = λ (key : PublicKey). if is_claimed target.status then some key else none in
      ("registryConfig", given (registry_config_pda pf a))
      ∷ ("agentStake", given (agent_stake_pda pf a target.agent))
      ∷ ("agentStakeVault", given (vault_ata pf a usdc_mint (agent_stake_pda pf a target.agent)))
      ∷ ("bondedRegistryProgram", given bonded_registry)
      ∷ ("bridgeConfig", given (bridge_config_pda pf a))
      ∷ ("agentReputation", given (reputation_pda pf a target.agent))
      ∷ ("jobRecord", given (job_record_pda pf a (to_uint8 target.job_id)))
      ∷ ("agent", given target.agent)
      ∷ ("reputationBridgeProgram", given reputation_bridge)
      ∷ []

  abbrev pub expire_node_call : PublicKey → PublicKey → ℕ → PipelineNode → PipelineAccount → Call
  expire_node_call caller pipeline node_index target pipeline_acc = record {
    program = dag_escrow;
    method = "expireNode";
    args = number node_index ∷ [];
    accounts =
        ("pipelineConfig", some (pipeline_config_pda pf a))
        ∷ ("pipeline", some pipeline)
        ∷ ("node", some (node_pda pf a pipeline node_index))
        ∷ ("vault", some (vault_ata pf a usdc_mint pipeline))
        ∷ ("stakeMint", some usdc_mint)
        ∷ ("consumerTokenAccount", some (associated_token_address usdc_mint pipeline_acc.consumer))
        ∷ ("caller", some caller)
        ∷ ("dagAuthority", some (dag_authority_pda pf a))
        ∷ ("tokenProgram", some token_program_id)
        ∷ ("systemProgram", some system_program_id)
        ∷ slash_accounts target;
    remaining = other_metas_from pipeline node_index pipeline_acc.total_nodes 0;
    signers = caller ∷ [];
  }

  abbrev pub cancel_pipeline_call : PublicKey → PublicKey → PipelineAccount → Call
  cancel_pipeline_call consumer pipeline pipeline_acc = record {
    program = dag_escrow;
    method = "cancelPipeline";
    args = [];
    accounts =
        ("pipeline", some pipeline)
        ∷ ("consumer", some consumer)
        ∷ ("stakeMint", some usdc_mint)
        ∷ ("vault", some (vault_ata pf a usdc_mint pipeline))
        ∷ ("consumerTokenAccount", some (associated_token_address usdc_mint consumer))
        ∷ ("tokenProgram", some token_program_id)
        ∷ [];
    remaining = all_metas_from pipeline pipeline_acc.total_nodes 0;
    signers = consumer ∷ [];
  }
