-- ===== src/Dashboard/Work.antt =====
-- dashboard/app/work/page.tsx: the jobs that an agent may claim, and those it has claimed. The records
-- of the indexer's list of pipelines stand as the node accounts they show.
pub mod Laws
use chainpipe.Base.{
  ℕ, Bool, true, false, ◌&&◌, List, [], ◌∷◌, Option, none, some, if◌then◌else◌, leb, get_elem?,
}
use chainpipe.Base.Encodings.{text_eq}
use chainpipe.Sdk.Platform.{PublicKey}
use chainpipe.Sdk.Accounts.{PipelineNode, is_pending, is_claimed, is_settled}
use chainpipe.Dashboard.Masks.{deps_of}

-- `statusKey(p.nodes[i]?.status) === "settled"`
abbrev pub settled_at : List PipelineNode → ℕ → Bool
settled_at nodes i = elim (get_elem? nodes i) [ none ↦ false | some n ↦ is_settled n.status ]

-- `every`
abbrev pub every : (ℕ → Bool) → List ℕ → Bool
every f [] = true
every f (i ∷ rest) = f i && every f rest

unfoldable pub deps_settled : List PipelineNode → PipelineNode → Bool
deps_settled nodes n = every (settled_at nodes) (deps_of n.dependency_mask)

-- A pipeline of the list and the index of a node in it.
pub record Job : Type 0 where
  pub nodes : List PipelineNode
  pub n : PipelineNode

abbrev pub is_mine : PublicKey → PipelineNode → Bool
is_mine me n = text_eq n.agent me && is_claimed n.status

-- `system` is the key of the system program, which an account without an agent shows.
unfoldable pub is_claimable : PublicKey → ℕ → List PipelineNode → PipelineNode → Bool
is_claimable system my_tier nodes n =
    is_pending n.status
    && (leb n.required_tier my_tier && (text_eq n.agent system && deps_settled nodes n))

-- `cl` and `pr` after the loops.
pub record Jobs : Type 0 where
  pub claimable : List Job
  pub mine : List Job

abbrev pub sort_job : PublicKey → PublicKey → ℕ → List PipelineNode → PipelineNode → Jobs → Jobs
sort_job system me my_tier nodes n jobs =
    if is_mine me n
    then record jobs { mine = record { nodes = nodes; n = n } ∷ jobs.mine }
    else if is_claimable system my_tier nodes n
    then record jobs { claimable = record { nodes = nodes; n = n } ∷ jobs.claimable }
    else jobs

-- The inner loop over the nodes that are left of a pipeline, before what comes after it.
unfoldable pub sort_nodes :
    PublicKey → PublicKey → ℕ → List PipelineNode → List PipelineNode → Jobs → Jobs
sort_nodes system me my_tier nodes [] jobs = jobs
sort_nodes system me my_tier nodes (n ∷ rest) jobs =
    sort_job system me my_tier nodes n (sort_nodes system me my_tier nodes rest jobs)

unfoldable pub sort_jobs : PublicKey → PublicKey → ℕ → List (List PipelineNode) → Jobs
sort_jobs system me my_tier [] = record { claimable = []; mine = [] }
sort_jobs system me my_tier (nodes ∷ rest) =
    sort_nodes system me my_tier nodes nodes (sort_jobs system me my_tier rest)
