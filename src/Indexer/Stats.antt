-- ===== src/Indexer/Stats.antt =====
-- computeStats of indexer/src/decoder.ts. A pipeline is given with its nodes as getPipeline
-- returns them.
pub mod Laws
use chainpipe.Base.{ℕ, suc, ◌+◌, List, [], ◌∷◌, if◌then◌else◌, length}
use chainpipe.Base.Text.{Text}
use chainpipe.Base.Encodings.{decimal}
use chainpipe.Sdk.Platform.{PublicKey}
use chainpipe.Sdk.Accounts.{PipelineNode, is_active, is_settled, is_expired}
use chainpipe.Sdk.Client.Reads.{PipelineView, AgentWithReputation}

pub record RawPipeline : Type 0 where
  pub address : PublicKey
  pub view : PipelineView

pub record Stats : Type 0 where
  pub total_pipelines : ℕ
  pub active_pipelines : ℕ
  pub total_nodes_settled : ℕ
  pub total_usdc_settled : Text
  pub total_usdc_refunded : Text
  pub total_agents_staked : ℕ
  pub total_stake_value_usdc : Text

-- The variables of the loops.
pub record Tally : Type 0 where
  pub settled : ℕ
  pub refunded : ℕ
  pub nodes_settled : ℕ
  pub active : ℕ

abbrev pub count_node : PipelineNode → Tally → Tally
count_node n t =
    if is_settled n.status
    then record t { settled = t.settled + n.allocation_usdc; nodes_settled = suc t.nodes_settled }
    else if is_expired n.status
    then record t { refunded = t.refunded + n.allocation_usdc }
    else t

abbrev pub count_nodes : List PipelineNode → Tally → Tally
count_nodes [] t = t
count_nodes (n ∷ ns) t = count_nodes ns (count_node n t)

abbrev pub count_active : RawPipeline → Tally → Tally
count_active p t = if is_active p.view.account.status then record t { active = suc t.active } else t

abbrev pub count_pipelines : List RawPipeline → Tally → Tally
count_pipelines [] t = t
count_pipelines (p ∷ ps) t = count_pipelines ps (count_nodes p.view.nodes (count_active p t))

abbrev pub add_stakes : List AgentWithReputation → ℕ → ℕ
add_stakes [] total = total
add_stakes (a ∷ agents) total = add_stakes agents (total + a.stake.stake_amount)

abbrev pub no_tally : Tally
no_tally = record { settled = 0; refunded = 0; nodes_settled = 0; active = 0 }

unfoldable pub compute_stats : List AgentWithReputation → List RawPipeline → Stats
compute_stats agents pipelines = record {
  total_pipelines = length pipelines;
  active_pipelines = (count_pipelines pipelines no_tally).active;
  total_nodes_settled = (count_pipelines pipelines no_tally).nodes_settled;
  total_usdc_settled = decimal (count_pipelines pipelines no_tally).settled;
  total_usdc_refunded = decimal (count_pipelines pipelines no_tally).refunded;
  total_agents_staked = length agents;
  total_stake_value_usdc = decimal (add_stakes agents 0);
}
