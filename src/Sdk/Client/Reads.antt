-- ===== src/Sdk/Client/Reads.antt =====
-- getPipeline and getSettlement of sdk/src/pipeline.ts, reputation.ts, getAgentStake of stake.ts
-- and discovery.ts.
use chainpipe.Base.{ℕ, zero, suc, List, [], ◌∷◌, Option, none, some, ltb, if◌then◌else◌}
use chainpipe.Base.Text.{Bytes}
use chainpipe.Sdk.Platform.{Platform, PublicKey}
use chainpipe.Sdk.Accounts.{
  Addresses, PipelineAccount, PipelineNode, NodeSettlement, AgentStake, AgentReputation, JobRecord,
}
use chainpipe.Sdk.Pdas.{agent_stake_pda, reputation_pda, job_record_pda, node_pda, settlement_pda}
use chainpipe.Sdk.Network.{Network, M, pure, ask, ◌>>=◌}

-- `{ ...p, nodes }`
pub record PipelineView : Type 0 where
  pub account : PipelineAccount
  pub nodes : List PipelineNode

pub record AgentWithReputation : Type 0 where
  pub stake : AgentStake
  pub address : PublicKey
  pub reputation : Option AgentReputation

-- `Pipeline & { address }`
pub record PipelineWithAddress : Type 0 where
  pub account : PipelineAccount
  pub address : PublicKey

abbrev pub with_addresses : List (PublicKey × PipelineAccount) → List PipelineWithAddress
with_addresses [] = []
with_addresses ((key, account) ∷ rest) =
    record { account = account; address = key } ∷ with_addresses rest

abbrev pub push_present {ℓ} : {A : Type ℓ} → Option A → List A → List A
push_present none rest = rest
push_present (some a) rest = a ∷ rest

module _ (pf : Platform) (a : Addresses) (net : Network) where
  -- The loop of getPipeline: k rounds are left, the next index is i.
  unfoldable pub fetch_nodes : PublicKey → ℕ → ℕ → M (List PipelineNode)
  fetch_nodes pipeline zero i = pure []
  fetch_nodes pipeline (suc k) i = do
    n ← ask (λ t. net.node t (node_pda pf a pipeline i))
    rest ← fetch_nodes pipeline k (suc i)
    pure (push_present n rest)

  unfoldable pub get_pipeline : PublicKey → M (Option PipelineView)
  unfolding fetch_nodes
  get_pipeline pipeline = do
    p ← ask (λ t. net.pipeline t pipeline)
    elim p [
      | none ↦ pure none
      | some account ↦ do
        nodes ← fetch_nodes pipeline account.total_nodes 0
        pure (some (record { account = account; nodes = nodes }))
    ]

  unfoldable pub get_settlement : PublicKey → ℕ → M (Option NodeSettlement)
  get_settlement pipeline node_index =
      ask (λ t. net.settlement t (settlement_pda pf a (node_pda pf a pipeline node_index)))

  unfoldable pub get_agent_stake : PublicKey → M (Option AgentStake)
  get_agent_stake agent = ask (λ t. net.stake t (agent_stake_pda pf a agent))

  unfoldable pub get_agent_reputation : PublicKey → M (Option AgentReputation)
  get_agent_reputation agent = ask (λ t. net.reputation t (reputation_pda pf a agent))

  unfoldable pub get_job_record : Bytes → M (Option JobRecord)
  get_job_record job_id = ask (λ t. net.job_record t (job_record_pda pf a job_id))

  -- The loop of getAgentsByTier.
  unfoldable pub join_reputation : ℕ → List (PublicKey × AgentStake) → M (List AgentWithReputation)
  join_reputation min_tier [] = pure []
  join_reputation min_tier ((key, stake) ∷ stakes) =
      let rest = join_reputation min_tier stakes in
      if ltb stake.tier min_tier then rest else (do
        rep ← ask (λ t. net.reputation t (reputation_pda pf a stake.agent))
        out ← rest
        pure (record { stake = stake; address = key; reputation = rep } ∷ out))

  unfoldable pub get_agents_by_tier : ℕ → M (List AgentWithReputation)
  unfolding join_reputation
  get_agents_by_tier min_tier = do
    stakes ← ask (λ t. net.all_stakes t)
    join_reputation min_tier stakes

  unfoldable pub get_registered_agents : M (List AgentWithReputation)
  unfolding get_agents_by_tier
  get_registered_agents = get_agents_by_tier 1

  unfoldable pub get_pipelines_by_consumer : PublicKey → M (List PipelineWithAddress)
  get_pipelines_by_consumer consumer = do
    all ← ask (λ t. net.pipelines_at_8 t consumer)
    pure (with_addresses all)
