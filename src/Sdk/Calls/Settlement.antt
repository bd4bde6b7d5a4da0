-- ===== src/Sdk/Calls/Settlement.antt =====
-- completeNode, submitCompletion, disputeNode, finalizeNode and resolveDispute of
-- sdk/src/pipeline.ts.
use chainpipe.Base.{ℕ, Bool, [], ◌∷◌, some}
use chainpipe.Base.Text.{Bytes, to_uint8}
use chainpipe.Sdk.Platform.{Platform, PublicKey}
use chainpipe.Sdk.Accounts.{Addresses, PipelineNode, PipelineAccount}
use chainpipe.Sdk.Uri.{EncodedUri}
use chainpipe.Sdk.Pdas.{
  registry_config_pda, agent_stake_pda, bridge_config_pda, reputation_pda, job_record_pda,
  pipeline_config_pda, dag_authority_pda, node_pda, settlement_pda, vault_ata,
}
use chainpipe.Sdk.Calls.Shape.{number, byte_list, flag, Call}

module _ (pf : Platform) (a : Addresses) where
  open pf use {associated_token_address, token_program_id, system_program_id}
  open a use {bonded_registry, dag_escrow, reputation_bridge, usdc_mint}

  abbrev pub complete_node_call :
      PublicKey → PublicKey → ℕ → PublicKey → ℕ → PublicKey → Bytes → PipelineNode → Call
  complete_node_call facilitator pipeline node_index agent score_delta treasury result_hash node =
      record {
        program = dag_escrow;
        method = "completeNode";
        args = number node_index ∷ number score_delta ∷ byte_list result_hash ∷ [];
        accounts =
            ("pipelineConfig", some (pipeline_config_pda pf a))
            ∷ ("pipeline", some pipeline)
            ∷ ("node", some (node_pda pf a pipeline node_index))
            ∷ ("facilitator", some facilitator)
            ∷ ("vault", some (vault_ata pf a usdc_mint pipeline))
            ∷ ("stakeMint", some usdc_mint)
            ∷ ("agent", some agent)
            ∷ ("agentTokenAccount", some (associated_token_address usdc_mint agent))
            ∷ ("operatorTreasury", some treasury)
            ∷ ("dagAuthority", some (dag_authority_pda pf a))
            ∷ ("registryConfig", some (registry_config_pda pf a))
            ∷ ("agentStake", some (agent_stake_pda pf a agent))
            ∷ ("bondedRegistryProgram", some bonded_registry)
            ∷ ("bridgeConfig", some (bridge_config_pda pf a))
            ∷ ("agentReputation", some (reputation_pda pf a agent))
            ∷ ("jobRecord", some (job_record_pda pf a (to_uint8 node.job_id)))
            ∷ ("reputationBridgeProgram", some reputation_bridge)
            ∷ ("tokenProgram", some token_program_id)
            ∷ ("systemProgram", some system_program_id)
            ∷ [];
        remaining = [];
        signers = facilitator ∷ [];
      }

  abbrev pub submit_completion_call :
      PublicKey → PublicKey → ℕ → PublicKey → ℕ → Bytes → EncodedUri → Call
  submit_completion_call facilitator pipeline node_index agent score_delta result_hash uri =
      record {
        program = dag_escrow;
        method = "submitCompletion";
        args =
            number node_index
            ∷ number score_delta
            ∷ byte_list result_hash
            ∷ byte_list uri.bytes
            ∷ number uri.len
            ∷ [];
        accounts =
            ("pipelineConfig", some (pipeline_config_pda pf a))
            ∷ ("pipeline", some pipeline)
            ∷ ("node", some (node_pda pf a pipeline node_index))
            ∷ ("facilitator", some facilitator)
            ∷ ("agent", some agent)
            ∷ ("settlement", some (settlement_pda pf a (node_pda pf a pipeline node_index)))
            ∷ ("systemProgram", some system_program_id)
            ∷ [];
        remaining = [];
        signers = facilitator ∷ [];
      }

  abbrev pub dispute_node_call : PublicKey → PublicKey → ℕ → Bytes → ℕ → Call
  dispute_node_call consumer pipeline node_index reason_hash reason_code = record {
    program = dag_escrow;
    method = "disputeNode";
    args = number node_index ∷ byte_list reason_hash ∷ number reason_code ∷ [];
    accounts =
        ("pipeline", some pipeline)
        ∷ ("node", some (node_pda pf a pipeline node_index))
        ∷ ("settlement", some (settlement_pda pf a (node_pda pf a pipeline node_index)))
        ∷ ("consumer", some consumer)
        ∷ [];
    remaining = [];
    signers = consumer ∷ [];
  }

  abbrev pub finalize_node_call :
      PublicKey → PublicKey → ℕ → PublicKey → PublicKey → PipelineNode → Call
  finalize_node_call caller pipeline node_index agent treasury node = record {
    program = dag_escrow;
    method = "finalizeNode";
    args = number node_index ∷ [];
    accounts =
        ("pipelineConfig", some (pipeline_config_pda pf a))
        ∷ ("pipeline", some pipeline)
        ∷ ("node", some (node_pda pf a pipeline node_index))
        ∷ ("settlement", some (settlement_pda pf a (node_pda pf a pipeline node_index)))
        ∷ ("caller", some caller)
        ∷ ("vault", some (vault_ata pf a usdc_mint pipeline))
        ∷ ("stakeMint", some usdc_mint)
        ∷ ("agent", some agent)
        ∷ ("agentTokenAccount", some (associated_token_address usdc_mint agent))
        ∷ ("operatorTreasury", some treasury)
        ∷ ("dagAuthority", some (dag_authority_pda pf a))
        ∷ ("registryConfig", some (registry_config_pda pf a))
        ∷ ("agentStake", some (agent_stake_pda pf a agent))
        ∷ ("bondedRegistryProgram", some bonded_registry)
        ∷ ("bridgeConfig", some (bridge_config_pda pf a))
        ∷ ("agentReputation", some (reputation_pda pf a agent))
        ∷ ("jobRecord", some (job_record_pda pf a (to_uint8 node.job_id)))
        ∷ ("reputationBridgeProgram", some reputation_bridge)
        ∷ ("tokenProgram", some token_program_id)
        ∷ ("systemProgram", some system_program_id)
        ∷ [];
    remaining = [];
    signers = caller ∷ [];
  }

  abbrev pub resolve_dispute_call :
      PublicKey
      → PublicKey
      → ℕ
      → PublicKey
      → Bool
      → PublicKey
      → PipelineNode
      → PipelineAccount
      → Call
  resolve_dispute_call facilitator pipeline node_index agent upheld treasury node pipeline_acc =
      record {
        program = dag_escrow;
        method = "resolveDispute";
        args = number node_index ∷ flag upheld ∷ [];
        accounts =
            ("pipelineConfig", some (pipeline_config_pda pf a))
            ∷ ("pipeline", some pipeline)
            ∷ ("node", some (node_pda pf a pipeline node_index))
            ∷ ("settlement", some (settlement_pda pf a (node_pda pf a pipeline node_index)))
            ∷ ("facilitator", some facilitator)
            ∷ ("vault", some (vault_ata pf a usdc_mint pipeline))
            ∷ ("stakeMint", some usdc_mint)
            ∷ ("agent", some agent)
            ∷ ("agentTokenAccount", some (associated_token_address usdc_mint agent))
            ∷ ("operatorTreasury", some treasury)
            ∷ (
              "consumerTokenAccount",
              some (associated_token_address usdc_mint pipeline_acc.consumer),
            )
            ∷ ("dagAuthority", some (dag_authority_pda pf a))
            ∷ ("registryConfig", some (registry_config_pda pf a))
            ∷ ("agentStake", some (agent_stake_pda pf a agent))
            ∷ ("agentStakeVault", some (vault_ata pf a usdc_mint (agent_stake_pda pf a agent)))
            ∷ ("bondedRegistryProgram", some bonded_registry)
            ∷ ("bridgeConfig", some (bridge_config_pda pf a))
            ∷ ("agentReputation", some (reputation_pda pf a agent))
            ∷ ("jobRecord", some (job_record_pda pf a (to_uint8 node.job_id)))
            ∷ ("reputationBridgeProgram", some reputation_bridge)
            ∷ ("tokenProgram", some token_program_id)
            ∷ ("systemProgram", some system_program_id)
            ∷ [];
        remaining = [];
        signers = facilitator ∷ [];
      }
