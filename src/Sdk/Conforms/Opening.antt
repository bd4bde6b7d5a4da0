-- ===== src/Sdk/Conforms/Opening.antt =====
-- The calls of createPipeline, claimNode, expireNode and cancelPipeline of sdk/src/pipeline.ts fit their
-- instructions.
use chainpipe.Base.{
  ℕ, ◌≡◌, ◌<◌, ◌^◌, refl, String, true, false, Bool, none, some, if◌then◌else◌, List, [], ◌∷◌,
  arith,
}
use chainpipe.Base.Results.{ok}
use chainpipe.Base.Text.{codes}
use chainpipe.Idl.DagEscrow
use chainpipe.Sdk.Platform.{Platform, PublicKey}
use chainpipe.Sdk.Accounts.{Addresses, PipelineNode, PipelineAccount, is_claimed}
use chainpipe.Sdk.Pdas.{pipeline_pda, le_bytes, write_big_uint64_le}
use chainpipe.Sdk.Calls.Shape.{number, node_configs, NodeInput}
use chainpipe.Sdk.Calls.Pipeline.{
  create_pipeline_call, claim_node_call, expire_node_call, cancel_pipeline_call,
}
use chainpipe.Sdk.Conforms.{Conforms, IsKey, all_nodes_fit}
use chainpipe.Sdk.Conforms.Deployed.{TokenAccountLaw, ProgramIdsLaw, IsDeployed}

module _ (pf : Platform) (a : Addresses) where
  -- A program that expireNode passes for a claimed node only.
  given_or_null :
      (address : String) (b : Bool) (key : PublicKey)
      → pf.parse_key (codes address) ≡ ok key
      → IsKey pf address (some (if b then some key else none))
  given_or_null address true key h = h
  given_or_null address false key h = tt

  -- The derived address that the client passes for a pipeline is the one the program derives.
  pipeline_pda_placed :
      (consumer : PublicKey) (nonce : ℕ) (pipeline : PublicKey)
      → pipeline_pda pf a consumer nonce ≡ ok pipeline
      → (pipeline
          ≡ pf.find_program_address
              (codes "pipeline" ∷ consumer ∷ le_bytes 8 nonce ∷ [])
              a.dag_escrow)
        × (nonce < 2 ^ 64)
  unfolding pipeline_pda write_big_uint64_le
  pipeline_pda_placed consumer nonce pipeline h = ground arith

  pub creates-Conforms :
      TokenAccountLaw pf
      → ProgramIdsLaw pf
      → IsDeployed pf a
      → (consumer : PublicKey) (nodes : List NodeInput) (nonce : ℕ) (pipeline : PublicKey)
      → all_nodes_fit nodes ≡ true
      → pipeline_pda pf a consumer nonce ≡ ok pipeline
      → Conforms pf DagEscrow.create_pipeline
          (create_pipeline_call pf a consumer nodes nonce pipeline)
          (("nodeConfigs", node_configs nodes) ∷ ("nonce", number nonce) ∷ [])
  creates-Conforms law ids live consumer nodes nonce pipeline h0 h1 = record {
    program_called = live.escrow_at;
    method_named = refl;
    accounts_supplied = ground (
      arith,
      h0,
      h1,
      (pipeline_pda_placed consumer nonce pipeline h1),
      law a.usdc_mint pipeline,
      law a.usdc_mint consumer,
    );
    none_extra = refl;
    arguments_fit = ground (
      arith,
      h0,
      h1,
      (pipeline_pda_placed consumer nonce pipeline h1),
      law a.usdc_mint pipeline,
      law a.usdc_mint consumer,
    );
    arguments_given = ground arith;
    accounts_signed = ground arith;
    accounts_placed = ground (
      arith,
      h0,
      h1,
      (pipeline_pda_placed consumer nonce pipeline h1),
      law a.usdc_mint pipeline,
      law a.usdc_mint consumer,
    );
    accounts_fixed =
        (tt, (tt, (tt, (tt, (tt, (tt, (ids.token, (ids.associated, (ids.system, tt)))))))));
  }

  pub claims-Conforms :
      TokenAccountLaw pf
      → ProgramIdsLaw pf
      → IsDeployed pf a
      → (agent pipeline : PublicKey) (i : ℕ) → i < 256
      → Conforms pf DagEscrow.claim_node
          (claim_node_call pf a agent pipeline i)
          (("nodeIndex", number i) ∷ [])
  claims-Conforms law ids live agent pipeline i h0 = record {
    program_called = live.escrow_at;
    method_named = refl;
    accounts_supplied = ground (arith, h0);
    none_extra = refl;
    arguments_fit = ground (arith, h0);
    arguments_given = ground arith;
    accounts_signed = ground arith;
    accounts_placed = ground (arith, h0);
    accounts_fixed = ground (arith, live.registry_at);
  }

  pub expires-Conforms :
      TokenAccountLaw pf
      → ProgramIdsLaw pf
      → IsDeployed pf a
      → (caller pipeline : PublicKey) (i : ℕ) (n : PipelineNode) (p : PipelineAccount) → i < 256
      → Conforms pf DagEscrow.expire_node
          (expire_node_call pf a caller pipeline i n p)
          (("nodeIndex", number i) ∷ [])
  expires-Conforms law ids live caller pipeline i n p h0 = record {
    program_called = live.escrow_at;
    method_named = refl;
    accounts_supplied = ground (arith, h0, law a.usdc_mint pipeline);
    none_extra = refl;
    arguments_fit = ground (arith, h0, law a.usdc_mint pipeline);
    arguments_given = ground arith;
    accounts_signed = ground arith;
    accounts_placed = ground (arith, h0, law a.usdc_mint pipeline);
    accounts_fixed = ground (
      arith,
      ids.token,
      ids.system,
      given_or_null "26AB6S5crQAkhfx928bnWSHfpQE6wp2Sdt4afFtk7crq" (is_claimed n.status)
          a.bonded_registry live.registry_at,
      given_or_null "6RRfs1Ho1bJ3JWXSy3xVth4BTGHWwVwum74ph2LRWWsf" (is_claimed n.status)
          a.reputation_bridge live.bridge_at,
    );
  }

  pub cancels-Conforms :
      TokenAccountLaw pf
      → ProgramIdsLaw pf
      → IsDeployed pf a
      → (consumer pipeline : PublicKey) (p : PipelineAccount)
      → Conforms pf DagEscrow.cancel_pipeline (cancel_pipeline_call pf a consumer pipeline p) ([])
  cancels-Conforms law ids live consumer pipeline p = record {
    program_called = live.escrow_at;
    method_named = refl;
    accounts_supplied = ground (arith, law a.usdc_mint pipeline, law a.usdc_mint consumer);
    none_extra = refl;
    arguments_fit = ground (arith, law a.usdc_mint pipeline, law a.usdc_mint consumer);
    arguments_given = ground arith;
    accounts_signed = ground arith;
    accounts_placed = ground (arith, law a.usdc_mint pipeline, law a.usdc_mint consumer);
    accounts_fixed = ground (arith, ids.token);
  }
