-- ===== src/Sdk/Conforms/Staking.antt =====
-- The calls of the functions of sdk/src/stake.ts fit their
-- instructions.
use chainpipe.Base.{ℕ, ◌<◌, ◌^◌, refl, [], ◌∷◌, arith}
use chainpipe.Idl.BondedRegistry
use chainpipe.Sdk.Platform.{Platform, PublicKey}
use chainpipe.Sdk.Accounts.{Addresses}
use chainpipe.Sdk.Pdas.{agent_stake_pda}
use chainpipe.Sdk.Calls.Shape.{number}
use chainpipe.Sdk.Calls.Stake.{
  stake_and_register_call, add_stake_call, request_unstake_call, execute_unstake_call,
}
use chainpipe.Sdk.Conforms.{Conforms}
use chainpipe.Sdk.Conforms.Deployed.{TokenAccountLaw, ProgramIdsLaw, IsDeployed}

module _ (pf : Platform) (a : Addresses) where
  pub stakes-Conforms :
      TokenAccountLaw pf
      → ProgramIdsLaw pf
      → IsDeployed pf a
      → (agent : PublicKey) (amount : ℕ) (mint : PublicKey) → amount < 2 ^ 64
      → Conforms pf BondedRegistry.stake_and_register
          (stake_and_register_call pf a agent amount mint)
          (("stakeAmount", number amount) ∷ [])
  stakes-Conforms law ids live agent amount mint h0 = record {
    program_called = live.registry_at;
    method_named = refl;
    accounts_supplied = ground (arith, h0, law mint (agent_stake_pda pf a agent), law mint agent);
    none_extra = refl;
    arguments_fit = ground (arith, h0, law mint (agent_stake_pda pf a agent), law mint agent);
    arguments_given = ground arith;
    accounts_signed = ground arith;
    accounts_placed = ground (arith, h0, law mint (agent_stake_pda pf a agent), law mint agent);
    accounts_fixed = ground (arith, ids.token, ids.associated, ids.system);
  }

  pub adds_stake-Conforms :
      TokenAccountLaw pf
      → ProgramIdsLaw pf
      → IsDeployed pf a
      → (agent : PublicKey) (amount : ℕ) (mint : PublicKey) → amount < 2 ^ 64
      → Conforms pf BondedRegistry.add_stake
          (add_stake_call pf a agent amount mint)
          (("additionalAmount", number amount) ∷ [])
  adds_stake-Conforms law ids live agent amount mint h0 = record {
    program_called = live.registry_at;
    method_named = refl;
    accounts_supplied = ground (arith, h0, law mint (agent_stake_pda pf a agent));
    none_extra = refl;
    arguments_fit = ground (arith, h0, law mint (agent_stake_pda pf a agent));
    arguments_given = ground arith;
    accounts_signed = ground arith;
    accounts_placed = ground (arith, h0, law mint (agent_stake_pda pf a agent));
    accounts_fixed = ground (arith, ids.token);
  }

  pub requests_unstake-Conforms :
      TokenAccountLaw pf
      → ProgramIdsLaw pf
      → IsDeployed pf a
      → (agent : PublicKey)
      → Conforms pf BondedRegistry.request_unstake (request_unstake_call pf a agent) ([])
  requests_unstake-Conforms law ids live agent = record {
    program_called = live.registry_at;
    method_named = refl;
    accounts_supplied = ground arith;
    none_extra = refl;
    arguments_fit = ground arith;
    arguments_given = ground arith;
    accounts_signed = ground arith;
    accounts_placed = ground arith;
    accounts_fixed = ground arith;
  }

  pub executes_unstake-Conforms :
      TokenAccountLaw pf
      → ProgramIdsLaw pf
      → IsDeployed pf a
      → (agent mint : PublicKey)
      → Conforms pf BondedRegistry.execute_unstake (execute_unstake_call pf a agent mint) ([])
  executes_unstake-Conforms law ids live agent mint = record {
    program_called = live.registry_at;
    method_named = refl;
    accounts_supplied = ground (arith, law mint (agent_stake_pda pf a agent), law mint agent);
    none_extra = refl;
    arguments_fit = ground (arith, law mint (agent_stake_pda pf a agent), law mint agent);
    arguments_given = ground arith;
    accounts_signed = ground arith;
    accounts_placed = ground (arith, law mint (agent_stake_pda pf a agent), law mint agent);
    accounts_fixed = ground (arith, ids.token);
  }
