-- ===== src/Indexer/Stats/Laws.antt =====
-- The loops of computeStats in indexer/src/decoder.ts against sums over all nodes.
use chainpipe.Base.{ℕ, ◌+◌, ◌≡◌, List, [], ◌∷◌, ◌++◌, Bool, if◌then◌else◌, length, map, arith}
use chainpipe.Base.Encodings.{decimal}
use chainpipe.Sdk.Accounts.{PipelineNode, NodeStatus, is_active, is_settled, is_expired}
use chainpipe.Sdk.Client.Reads.{AgentWithReputation}
use chainpipe.Indexer.Stats.{
  RawPipeline, Tally, count_node, count_nodes, count_active, count_pipelines, add_stakes, no_tally,
  compute_stats,
}

abbrev pub all_nodes : List RawPipeline → List PipelineNode
all_nodes [] = []
all_nodes (p ∷ ps) = p.view.nodes ++ all_nodes ps

-- The elements with a property.
abbrev pub filter {ℓ} : {A : Type ℓ} → (A → Bool) → List A → List A
filter f [] = []
filter f (a ∷ rest) = if f a then a ∷ filter f rest else filter f rest

abbrev pub sum : List ℕ → ℕ
sum [] = 0
sum (n ∷ ns) = n + sum ns

abbrev pub allocations : (NodeStatus → Bool) → List PipelineNode → ℕ
allocations f ns = sum (map (λ n. n.allocation_usdc) (filter (λ n. f n.status) ns))

allocations-append :
    (f : NodeStatus → Bool) (ms ns : List PipelineNode)
    → allocations f (ms ++ ns) ≡ allocations f ms + allocations f ns
allocations-append f [] ns = omega arith
allocations-append f (m ∷ ms) ns = ground (arith, allocations-append f ms ns)

abbrev settled_count : List PipelineNode → ℕ
settled_count ns = length (filter (λ n. is_settled n.status) ns)

settled_count-append :
    (ms ns : List PipelineNode) → settled_count (ms ++ ns) ≡ settled_count ms + settled_count ns
settled_count-append [] ns = omega arith
settled_count-append (m ∷ ms) ns = ground (arith, settled_count-append ms ns)

count_nodes_lem :
    (ns : List PipelineNode) (t : Tally)
    → let u = count_nodes ns t in
      (u.settled ≡ t.settled + allocations is_settled ns)
      × (u.refunded ≡ t.refunded + allocations is_expired ns)
      × (u.nodes_settled ≡ t.nodes_settled + settled_count ns)
      × (u.active ≡ t.active)
count_nodes_lem [] t = ground arith
count_nodes_lem (n ∷ ns) t = ground (arith, count_nodes_lem ns (count_node n t))

count_pipelines_lem :
    (ps : List RawPipeline) (t : Tally)
    → let u = count_pipelines ps t in
      (u.settled ≡ t.settled + allocations is_settled (all_nodes ps))
      × (u.refunded ≡ t.refunded + allocations is_expired (all_nodes ps))
      × (u.nodes_settled ≡ t.nodes_settled + settled_count (all_nodes ps))
      × (u.active ≡ t.active + length (filter (λ p. is_active p.view.account.status) ps))
count_pipelines_lem [] t = ground arith
count_pipelines_lem (p ∷ ps) t = ground (
  arith,
  count_nodes_lem p.view.nodes (count_active p t),
  count_pipelines_lem ps (count_nodes p.view.nodes (count_active p t)),
  allocations-append is_settled p.view.nodes (all_nodes ps),
  allocations-append is_expired p.view.nodes (all_nodes ps),
  settled_count-append p.view.nodes (all_nodes ps),
)

add_stakes_lem :
    (agents : List AgentWithReputation) (total : ℕ)
    → add_stakes agents total ≡ total + sum (map (λ a. a.stake.stake_amount) agents)
add_stakes_lem [] total = omega arith
add_stakes_lem (a ∷ agents) total =
    ground (arith, add_stakes_lem agents (total + a.stake.stake_amount))

-- The statistics are the sums over all nodes of all pipelines: the active pipelines, the settled
-- nodes and their allocations, the allocations of the expired nodes, and the stakes of the agents.
pub compute_stats_sums :
    (agents : List AgentWithReputation) (ps : List RawPipeline)
    → let t = compute_stats agents ps in
      (t.active_pipelines ≡ length (filter (λ p. is_active p.view.account.status) ps))
      × (t.total_nodes_settled ≡ length (filter (λ n. is_settled n.status) (all_nodes ps)))
      × (t.total_usdc_settled ≡ decimal (allocations is_settled (all_nodes ps)))
      × (t.total_usdc_refunded ≡ decimal (allocations is_expired (all_nodes ps)))
      × (t.total_stake_value_usdc ≡ decimal (sum (map (λ a. a.stake.stake_amount) agents)))
unfolding compute_stats
compute_stats_sums agents ps =
    ground (arith, count_pipelines_lem ps no_tally, add_stakes_lem agents 0)
