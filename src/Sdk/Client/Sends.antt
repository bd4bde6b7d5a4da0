-- ===== src/Sdk/Client/Sends.antt =====
-- The functions of sdk/src/pipeline.ts and sdk/src/stake.ts that send a transaction: the accounts
-- that they fetch, the call that they make, and what they return.
use chainpipe.Base.{ℕ, String, Bool, List}
use chainpipe.Base.Text.{Bytes, Text, to_uint8}
use chainpipe.Sdk.Platform.{Platform, PublicKey}
use chainpipe.Sdk.Accounts.{Addresses, AgentStake, PipelineNode, PipelineAccount}
use chainpipe.Sdk.Uri.{encode_uri}
use chainpipe.Sdk.Pdas.{agent_stake_pda, pipeline_pda, node_pda, settlement_pda}
use chainpipe.Sdk.Calls.Shape.{NodeInput}
use chainpipe.Sdk.Calls.Pipeline.{
  node_pdas_from, create_pipeline_call, claim_node_call, expire_node_call, cancel_pipeline_call,
}
use chainpipe.Sdk.Calls.Settlement.{
  complete_node_call, submit_completion_call, dispute_node_call, finalize_node_call,
  resolve_dispute_call,
}
use chainpipe.Sdk.Calls.Stake.{
  stake_and_register_call, add_stake_call, request_unstake_call, execute_unstake_call,
}
use chainpipe.Sdk.Network.{Network, M, pure, lift, ask, existing, send, ◌>>=◌}

pub record Created : Type 0 where
  pub signature : String
  pub pipeline : PublicKey
  pub node_pdas : List PublicKey

module _ (pf : Platform) (a : Addresses) (net : Network) where
  -- `dag.account.pipelineNode.fetch(nodePda(...))` and `dag.account.pipeline.fetch(pipeline)`
  abbrev fetch_node : PublicKey → ℕ → M PipelineNode
  fetch_node pipeline i = ask (λ t. net.node t (node_pda pf a pipeline i)) >>= existing

  abbrev fetch_pipeline : PublicKey → M PipelineAccount
  fetch_pipeline pipeline = ask (λ t. net.pipeline t pipeline) >>= existing

  unfoldable pub create_pipeline : PublicKey → List NodeInput → ℕ → M Created
  create_pipeline consumer nodes nonce = do
    pipeline ← lift (pipeline_pda pf a consumer nonce)
    signature ← send net (create_pipeline_call pf a consumer nodes nonce pipeline)
    pure (record {
      signature = signature;
      pipeline = pipeline;
      node_pdas = node_pdas_from pf a pipeline 0 nodes;
    })

  unfoldable pub claim_node : PublicKey → PublicKey → ℕ → M (String × Bytes)
  claim_node agent pipeline i = do
    signature ← send net (claim_node_call pf a agent pipeline i)
    node ← fetch_node pipeline i
    pure (signature, to_uint8 node.job_id)

  unfoldable pub complete_node :
      PublicKey → PublicKey → ℕ → PublicKey → ℕ → PublicKey → Bytes → M String
  complete_node facilitator pipeline i agent score treasury result = do
    node ← fetch_node pipeline i
    send net (complete_node_call pf a facilitator pipeline i agent score treasury result node)

  unfoldable pub submit_completion :
      PublicKey → PublicKey → ℕ → PublicKey → ℕ → Bytes → Text → M (String × PublicKey)
  submit_completion facilitator pipeline i agent score result uri = do
    enc ← lift (encode_uri uri)
    signature ← send net (submit_completion_call pf a facilitator pipeline i agent score result enc)
    pure (signature, settlement_pda pf a (node_pda pf a pipeline i))

  unfoldable pub dispute_node : PublicKey → PublicKey → ℕ → Bytes → ℕ → M String
  dispute_node consumer pipeline i reason reason_code =
      send net (dispute_node_call pf a consumer pipeline i reason reason_code)

  unfoldable pub finalize_node : PublicKey → PublicKey → ℕ → PublicKey → PublicKey → M String
  finalize_node caller pipeline i agent treasury = do
    node ← fetch_node pipeline i
    send net (finalize_node_call pf a caller pipeline i agent treasury node)

  unfoldable pub resolve_dispute :
      PublicKey → PublicKey → ℕ → PublicKey → Bool → PublicKey → M String
  resolve_dispute facilitator pipeline i agent upheld treasury = do
    node ← fetch_node pipeline i
    p ← fetch_pipeline pipeline
    send net (resolve_dispute_call pf a facilitator pipeline i agent upheld treasury node p)

  -- Returns the signature and the refund that the function reports.
  unfoldable pub expire_node : PublicKey → PublicKey → ℕ → M (String × ℕ)
  expire_node caller pipeline i = do
    target ← fetch_node pipeline i
    p ← fetch_pipeline pipeline
    signature ← send net (expire_node_call pf a caller pipeline i target p)
    pure (signature, target.allocation_usdc)

  unfoldable pub cancel_pipeline : PublicKey → PublicKey → M String
  cancel_pipeline consumer pipeline = do
    p ← fetch_pipeline pipeline
    send net (cancel_pipeline_call pf a consumer pipeline p)

  abbrev fetch_stake : PublicKey → M AgentStake
  fetch_stake agent = ask (λ t. net.stake t (agent_stake_pda pf a agent)) >>= existing

  unfoldable pub stake_and_register : PublicKey → ℕ → PublicKey → M (String × PublicKey × ℕ)
  stake_and_register agent amount mint = do
    signature ← send net (stake_and_register_call pf a agent amount mint)
    stake ← fetch_stake agent
    pure (signature, agent_stake_pda pf a agent, stake.tier)

  unfoldable pub add_stake : PublicKey → ℕ → PublicKey → M (String × ℕ)
  add_stake agent amount mint = do
    signature ← send net (add_stake_call pf a agent amount mint)
    stake ← fetch_stake agent
    pure (signature, stake.tier)

  unfoldable pub request_unstake : PublicKey → M String
  request_unstake agent = send net (request_unstake_call pf a agent)

  unfoldable pub execute_unstake : PublicKey → PublicKey → M String
  execute_unstake agent mint = send net (execute_unstake_call pf a agent mint)
