-- ===== src/Sdk/Conforms/Resolving.antt =====
-- The calls of finalizeNode and resolveDispute of sdk/src/pipeline.ts fit their
-- instructions.
use chainpipe.Base.{ℕ, ◌<◌, refl, Bool, [], ◌∷◌, arith}
use chainpipe.Idl.DagEscrow
use chainpipe.Sdk.Platform.{Platform, PublicKey}
use chainpipe.Sdk.Accounts.{Addresses, PipelineNode, PipelineAccount}
use chainpipe.Sdk.Calls.Shape.{number, flag}
use chainpipe.Sdk.Calls.Settlement.{finalize_node_call, resolve_dispute_call}
use chainpipe.Sdk.Conforms.{Conforms}
use chainpipe.Sdk.Conforms.Deployed.{TokenAccountLaw, ProgramIdsLaw, IsDeployed}

module _ (pf : Platform) (a : Addresses) where
  pub finalizes-Conforms :
      TokenAccountLaw pf
      → ProgramIdsLaw pf
      → IsDeployed pf a
      → (caller pipeline : PublicKey) (i : ℕ) (agent treasury : PublicKey) (n : PipelineNode)
      → i < 256
      → Conforms pf DagEscrow.finalize_node
          (finalize_node_call pf a caller pipeline i agent treasury n)
          (("nodeIndex", number i) ∷ [])
  finalizes-Conforms law ids live caller pipeline i agent treasury n h0 = record {
    program_called = live.escrow_at;
    method_named = refl;
    accounts_supplied = ground (arith, h0, law a.usdc_mint pipeline);
    none_extra = refl;
    arguments_fit = ground (arith, h0, law a.usdc_mint pipeline);
    arguments_given = ground arith;
    accounts_signed = ground arith;
    accounts_placed = ground (arith, h0, law a.usdc_mint pipeline);
    accounts_fixed = ground (arith, ids.token, ids.system, live.registry_at, live.bridge_at);
  }

  pub resolves-Conforms :
      TokenAccountLaw pf
      → ProgramIdsLaw pf
      → IsDeployed pf a
      → (facilitator pipeline : PublicKey) (i : ℕ) (agent : PublicKey) (upheld : Bool)
        (treasury : PublicKey) (n : PipelineNode) (p : PipelineAccount)
      → i < 256
      → Conforms pf DagEscrow.resolve_dispute
          (resolve_dispute_call pf a facilitator pipeline i agent upheld treasury n p)
          (("nodeIndex", number i) ∷ ("upheld", flag upheld) ∷ [])
  resolves-Conforms law ids live facilitator pipeline i agent upheld treasury n p h0 = record {
    program_called = live.escrow_at;
    method_named = refl;
    accounts_supplied = ground (arith, h0, law a.usdc_mint pipeline);
    none_extra = refl;
    arguments_fit = ground (arith, h0, law a.usdc_mint pipeline);
    arguments_given = ground arith;
    accounts_signed = ground arith;
    accounts_placed = ground (arith, h0, law a.usdc_mint pipeline);
    accounts_fixed = ground (arith, ids.token, ids.system, live.registry_at, live.bridge_at);
  }
