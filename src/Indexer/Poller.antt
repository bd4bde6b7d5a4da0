-- ===== src/Indexer/Poller.antt =====
-- pollOnce and the tick of startPolling in indexer/src/poller.ts. The clock, `Date.now()`, is an
-- argument.
pub mod Laws
use chainpipe.Base.{ℕ, List, [], ◌∷◌, Option, none, some}
use chainpipe.Base.Results.{ok, throws}
use chainpipe.Sdk.Platform.{Platform, PublicKey}
use chainpipe.Sdk.Accounts.{Addresses, PipelineAccount}
use chainpipe.Sdk.Network.{Network, Session, M, pure, ask, ◌>>=◌}
use chainpipe.Sdk.Client.Reads.{PipelineView, get_pipeline, get_agents_by_tier}
use chainpipe.Indexer.Stats.{RawPipeline, compute_stats}
use chainpipe.Indexer.Store.{StoreData, update}

abbrev pub push_full : PublicKey → Option PipelineView → List RawPipeline → List RawPipeline
push_full address none rest = rest
push_full address (some view) rest = record { address = address; view = view } ∷ rest

module _ (pf : Platform) (a : Addresses) (net : Network) where
  -- The loop over the pipelines that were listed.
  unfoldable pub fetch_all : List (PublicKey × PipelineAccount) → M (List RawPipeline)
  fetch_all [] = pure []
  fetch_all ((address, account) ∷ listed) = do
    full ← get_pipeline pf a net address
    rest ← fetch_all listed
    pure (push_full address full rest)

  unfoldable pub poll_once : ℕ → StoreData → M StoreData
  unfolding fetch_all
  poll_once now d = do
    agents ← get_agents_by_tier pf a net 1
    listed ← ask (λ t. net.all_pipelines t)
    raw ← fetch_all listed
    pure (update raw agents (compute_stats agents raw) now d)

  -- An error of a poll is logged and the store is kept.
  unfoldable pub tick : ℕ → StoreData → Session → StoreData × Session
  tick now d s = let (r, s') = poll_once now d s in elim r [ ok d' ↦ (d', s') | throws e ↦ (d, s') ]
