-- ===== src/Sdk/Conforms/Laws.antt =====
-- Every call of the client fits its instruction.
use chainpipe.Base.{ℕ, ◌≡◌, ◌<◌, ◌^◌, String, true, Bool, List, [], ◌∷◌, length}
use chainpipe.Base.Results.{ok}
use chainpipe.Base.Text.{Bytes, Text}
use chainpipe.Idl.Schema.{Instruction}
use chainpipe.Idl.DagEscrow
use chainpipe.Idl.BondedRegistry
use chainpipe.Sdk.Platform.{Platform, PublicKey}
use chainpipe.Sdk.Accounts.{Addresses, PipelineNode, PipelineAccount}
use chainpipe.Sdk.Uri.{EncodedUri, encode_uri}
use chainpipe.Sdk.Pdas.{pipeline_pda}
use chainpipe.Sdk.Calls.Shape.{Arg, number, byte_list, flag, node_configs, Call, NodeInput}
use chainpipe.Sdk.Calls.Pipeline.{
  create_pipeline_call, claim_node_call, expire_node_call, cancel_pipeline_call,
}
use chainpipe.Sdk.Calls.Settlement.{
  complete_node_call, submit_completion_call, dispute_node_call, finalize_node_call,
  resolve_dispute_call,
}
use chainpipe.Sdk.Calls.Stake.{
  stake_and_register_call, add_stake_call, request_unstake_call, execute_unstake_call,
}
use chainpipe.Sdk.Conforms.{Conforms, all_nodes_fit}
use chainpipe.Sdk.Deployment.{devnet_addresses}
use chainpipe.Sdk.Conforms.Deployed.{TokenAccountLaw, ProgramIdsLaw, IsDeployed, devnet-IsDeployed}
use chainpipe.Sdk.Conforms.Opening.{
  creates-Conforms, claims-Conforms, expires-Conforms, cancels-Conforms,
}
use chainpipe.Sdk.Conforms.Settling.{completes-Conforms, submits-Conforms, disputes-Conforms}
use chainpipe.Sdk.Conforms.Resolving.{finalizes-Conforms, resolves-Conforms}
use chainpipe.Sdk.Conforms.Staking.{
  stakes-Conforms, adds_stake-Conforms, requests_unstake-Conforms, executes_unstake-Conforms,
}

module _ (pf : Platform) (a : Addresses) where
  -- The instructions, the calls that sdk/src/pipeline.ts and sdk/src/stake.ts make for them, with any
  -- account contents that were fetched before, and the values that the caller gave, by the names of
  -- the arguments. Numbers are within the range of the program's types and hashes have 32 bytes.
  pub data SdkCall : Instruction → Call → List (String × Arg) → Type 0 where
    creates :
        (consumer : PublicKey) (nodes : List NodeInput) (nonce : ℕ) (pipeline : PublicKey)
        → all_nodes_fit nodes ≡ true
        → pipeline_pda pf a consumer nonce ≡ ok pipeline
        → SdkCall DagEscrow.create_pipeline
            (create_pipeline_call pf a consumer nodes nonce pipeline)
            (("nodeConfigs", node_configs nodes) ∷ ("nonce", number nonce) ∷ [])
    claims :
        (agent pipeline : PublicKey) (i : ℕ)
        → i < 256
        → SdkCall DagEscrow.claim_node
            (claim_node_call pf a agent pipeline i)
            (("nodeIndex", number i) ∷ [])
    expires :
        (caller pipeline : PublicKey) (i : ℕ) (n : PipelineNode) (p : PipelineAccount)
        → i < 256
        → SdkCall DagEscrow.expire_node
            (expire_node_call pf a caller pipeline i n p)
            (("nodeIndex", number i) ∷ [])
    cancels :
        (consumer pipeline : PublicKey) (p : PipelineAccount)
        → SdkCall DagEscrow.cancel_pipeline (cancel_pipeline_call pf a consumer pipeline p) ([])
    completes :
        (facilitator pipeline : PublicKey) (i : ℕ) (agent : PublicKey) (score : ℕ)
        (treasury : PublicKey) (result : Bytes) (n : PipelineNode)
        → i < 256
        → score < 2 ^ 15
        → length result ≡ 32
        → SdkCall DagEscrow.complete_node
            (complete_node_call pf a facilitator pipeline i agent score treasury result n)
            (("nodeIndex", number i)
              ∷ ("scoreDelta", number score)
              ∷ ("resultHash", byte_list result)
              ∷ [])
    submits :
        (facilitator pipeline : PublicKey) (i : ℕ) (agent : PublicKey) (score : ℕ) (result : Bytes)
        (uri : Text) (enc : EncodedUri)
        → i < 256
        → score < 2 ^ 15
        → length result ≡ 32
        → encode_uri uri ≡ ok enc
        → SdkCall DagEscrow.submit_completion
            (submit_completion_call pf a facilitator pipeline i agent score result enc)
            (("nodeIndex", number i)
              ∷ ("scoreDelta", number score)
              ∷ ("resultHash", byte_list result)
              ∷ ("uri", byte_list enc.bytes)
              ∷ ("uriLen", number enc.len)
              ∷ [])
    disputes :
        (consumer pipeline : PublicKey) (i : ℕ) (reason : Bytes) (reason_code : ℕ)
        → i < 256
        → length reason ≡ 32
        → reason_code < 256
        → SdkCall DagEscrow.dispute_node
            (dispute_node_call pf a consumer pipeline i reason reason_code)
            (("nodeIndex", number i)
              ∷ ("reasonHash", byte_list reason)
              ∷ ("reasonCode", number reason_code)
              ∷ [])
    finalizes :
        (caller pipeline : PublicKey) (i : ℕ) (agent treasury : PublicKey) (n : PipelineNode)
        → i < 256
        → SdkCall DagEscrow.finalize_node
            (finalize_node_call pf a caller pipeline i agent treasury n)
            (("nodeIndex", number i) ∷ [])
    resolves :
        (facilitator pipeline : PublicKey) (i : ℕ) (agent : PublicKey) (upheld : Bool)
        (treasury : PublicKey) (n : PipelineNode) (p : PipelineAccount)
        → i < 256
        → SdkCall DagEscrow.resolve_dispute
            (resolve_dispute_call pf a facilitator pipeline i agent upheld treasury n p)
            (("nodeIndex", number i) ∷ ("upheld", flag upheld) ∷ [])
    stakes :
        (agent : PublicKey) (amount : ℕ) (mint : PublicKey)
        → amount < 2 ^ 64
        → SdkCall BondedRegistry.stake_and_register
            (stake_and_register_call pf a agent amount mint)
            (("stakeAmount", number amount) ∷ [])
    adds_stake :
        (agent : PublicKey) (amount : ℕ) (mint : PublicKey)
        → amount < 2 ^ 64
        → SdkCall BondedRegistry.add_stake
            (add_stake_call pf a agent amount mint)
            (("additionalAmount", number amount) ∷ [])
    requests_unstake :
        (agent : PublicKey)
        → SdkCall BondedRegistry.request_unstake (request_unstake_call pf a agent) ([])
    executes_unstake :
        (agent mint : PublicKey)
        → SdkCall BondedRegistry.execute_unstake (execute_unstake_call pf a agent mint) ([])

  SdkCall-Fits :
      TokenAccountLaw pf
      → ProgramIdsLaw pf
      → IsDeployed pf a
      → {ix : Instruction} {c : Call} {given : List (String × Arg)} → SdkCall ix c given
      → Conforms pf ix c given
  SdkCall-Fits law ids live (creates consumer nodes nonce pipeline h0 h1) =
      creates-Conforms pf a law ids live consumer nodes nonce pipeline h0 h1
  SdkCall-Fits law ids live (claims agent pipeline i h0) =
      claims-Conforms pf a law ids live agent pipeline i h0
  SdkCall-Fits law ids live (expires caller pipeline i n p h0) =
      expires-Conforms pf a law ids live caller pipeline i n p h0
  SdkCall-Fits law ids live (cancels consumer pipeline p) =
      cancels-Conforms pf a law ids live consumer pipeline p
  SdkCall-Fits law ids live
        (completes facilitator pipeline i agent score treasury result n h0 h1 h2) =
      completes-Conforms pf a law ids live facilitator pipeline i agent score treasury result n h0
        h1 h2
  SdkCall-Fits law ids live
        (submits facilitator pipeline i agent score result uri enc h0 h1 h2 h3) =
      submits-Conforms pf a law ids live facilitator pipeline i agent score result uri enc h0 h1 h2
        h3
  SdkCall-Fits law ids live (disputes consumer pipeline i reason reason_code h0 h1 h2) =
      disputes-Conforms pf a law ids live consumer pipeline i reason reason_code h0 h1 h2
  SdkCall-Fits law ids live (finalizes caller pipeline i agent treasury n h0) =
      finalizes-Conforms pf a law ids live caller pipeline i agent treasury n h0
  SdkCall-Fits law ids live (resolves facilitator pipeline i agent upheld treasury n p h0) =
      resolves-Conforms pf a law ids live facilitator pipeline i agent upheld treasury n p h0
  SdkCall-Fits law ids live (stakes agent amount mint h0) =
      stakes-Conforms pf a law ids live agent amount mint h0
  SdkCall-Fits law ids live (adds_stake agent amount mint h0) =
      adds_stake-Conforms pf a law ids live agent amount mint h0
  SdkCall-Fits law ids live (requests_unstake agent) =
      requests_unstake-Conforms pf a law ids live agent
  SdkCall-Fits law ids live (executes_unstake agent mint) =
      executes_unstake-Conforms pf a law ids live agent mint

-- If the programs are those of DEVNET_ADDRESSES, with any mint, token accounts and the keys of the
-- packages' programs are as the packages document, and the numbers and hashes that the caller
-- gives have the range and size that the interface declares, then each call of the client goes to
-- the program of its instruction, names the instruction's accounts, all of them and no other,
-- gives null only where the description allows it, is signed by the account that has to sign,
-- passes for each argument the value given under its name, and passes for each derived account the
-- address that the program derives and for each program account its fixed address, or the null
-- that is allowed.
pub SdkCall-Conforms :
    (pf : Platform) (mint : PublicKey) (d : Addresses)
    → TokenAccountLaw pf
    → ProgramIdsLaw pf
    → devnet_addresses pf ≡ ok d
    → {ix : Instruction} {c : Call} {given : List (String × Arg)}
    → SdkCall pf (record d { usdc_mint = mint }) ix c given
    → Conforms pf ix c given
SdkCall-Conforms pf mint d law ids read call =
    SdkCall-Fits pf (record d { usdc_mint = mint }) law ids (devnet-IsDeployed pf mint d read) call
