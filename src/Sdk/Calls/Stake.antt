-- ===== src/Sdk/Calls/Stake.antt =====
-- stakeAndRegister, addStake, requestUnstake and executeUnstake of sdk/src/stake.ts.
use chainpipe.Base.{ℕ, [], ◌∷◌, some}
use chainpipe.Sdk.Platform.{Platform, PublicKey}
use chainpipe.Sdk.Accounts.{Addresses}
use chainpipe.Sdk.Pdas.{registry_config_pda, agent_stake_pda, vault_ata}
use chainpipe.Sdk.Calls.Shape.{number, Call}

module _ (pf : Platform) (a : Addresses) where
  open pf use {
    associated_token_address, token_program_id, associated_token_program_id, system_program_id,
  }
  open a use {bonded_registry}

  abbrev pub stake_and_register_call : PublicKey → ℕ → PublicKey → Call
  stake_and_register_call agent stake_amount stake_mint = record {
    program = bonded_registry;
    method = "stakeAndRegister";
    args = number stake_amount ∷ [];
    accounts =
        ("agentStake", some (agent_stake_pda pf a agent))
        ∷ ("agent", some agent)
        ∷ ("stakeMint", some stake_mint)
        ∷ ("agentTokenAccount", some (associated_token_address stake_mint agent))
        ∷ ("vault", some (vault_ata pf a stake_mint (agent_stake_pda pf a agent)))
        ∷ ("tokenProgram", some token_program_id)
        ∷ ("associatedTokenProgram", some associated_token_program_id)
        ∷ ("systemProgram", some system_program_id)
        ∷ [];
    remaining = [];
    signers = agent ∷ [];
  }

  abbrev pub add_stake_call : PublicKey → ℕ → PublicKey → Call
  add_stake_call agent additional_amount stake_mint = record {
    program = bonded_registry;
    method = "addStake";
    args = number additional_amount ∷ [];
    accounts =
        ("agentStake", some (agent_stake_pda pf a agent))
        ∷ ("agent", some agent)
        ∷ ("stakeMint", some stake_mint)
        ∷ ("agentTokenAccount", some (associated_token_address stake_mint agent))
        ∷ ("vault", some (vault_ata pf a stake_mint (agent_stake_pda pf a agent)))
        ∷ ("tokenProgram", some token_program_id)
        ∷ [];
    remaining = [];
    signers = agent ∷ [];
  }

  abbrev pub request_unstake_call : PublicKey → Call
  request_unstake_call agent = record {
    program = bonded_registry;
    method = "requestUnstake";
    args = [];
    accounts = ("agentStake", some (agent_stake_pda pf a agent)) ∷ ("agent", some agent) ∷ [];
    remaining = [];
    signers = agent ∷ [];
  }

  abbrev pub execute_unstake_call : PublicKey → PublicKey → Call
  execute_unstake_call agent stake_mint = record {
    program = bonded_registry;
    method = "executeUnstake";
    args = [];
    accounts =
        ("config", some (registry_config_pda pf a))
        ∷ ("agentStake", some (agent_stake_pda pf a agent))
        ∷ ("agent", some agent)
        ∷ ("stakeMint", some stake_mint)
        ∷ ("vault", some (vault_ata pf a stake_mint (agent_stake_pda pf a agent)))
        ∷ ("agentTokenAccount", some (associated_token_address stake_mint agent))
        ∷ ("tokenProgram", some token_program_id)
        ∷ [];
    remaining = [];
    signers = agent ∷ [];
  }
