-- ===== src/Indexer/Tests.antt =====
-- The theorems on the indexer applied to one pipeline and its signed specs.
use chainpipe.Base.{◌≡◌, ◌⊎◌, refl, [], ◌∷◌, String, some, get_elem?, length}
use chainpipe.Base.Results.{throws}
use chainpipe.Base.Text.{codes, text_encode}
use chainpipe.Base.Encodings.{decimal, from_base64}
use chainpipe.Samples.{platform, addresses, account, pipeline_key, node, network, start}
use chainpipe.Sdk.Accounts.{settled, is_active, is_settled, is_expired}
use chainpipe.Indexer.Stats.{RawPipeline, compute_stats}
use chainpipe.Indexer.Stats.Laws.{filter, sum, all_nodes, allocations, compute_stats_sums}
use chainpipe.Indexer.Store.{NodeSpec, StoreData, empty, set_specs}
use chainpipe.Indexer.Specs.{SpecBody, spec_message, post_spec, with_specs}
use chainpipe.Indexer.Specs.Laws.{
  Reachable, started, stepped, posted, IsSignedSpec, served_spec_signed,
}
use chainpipe.Indexer.Poller.{poll_once, tick}
use chainpipe.Indexer.Poller.Laws.{IsPolled, tick_lem}

abbrev pipeline : RawPipeline
pipeline = record { address = pipeline_key; view = record { account = account; nodes = node ∷ [] } }

abbrev spec : NodeSpec
spec = record { skill = codes "sum"; description = codes "add"; input_uri = [] }

abbrev posting : SpecBody
posting = record {
  pipeline_pda = some pipeline_key;
  consumer = some account.consumer;
  signature = some (codes "RmM=");
  specs = some (record { node_index = 0; spec = spec } ∷ []);
}

abbrev after_post : StoreData
after_post = (post_spec platform posting empty).1

after_post-Reachable : Reachable platform addresses network after_post
after_post-Reachable = stepped started (posted posting)

spec_served : get_elem? (with_specs platform after_post pipeline) 0 ≡ some (node, some spec)
unfolding with_specs post_spec from_base64 spec_message text_encode set_specs
spec_served = refl

served_spec_signed_example :
    (some node ≡ some node) × IsSignedSpec platform pipeline_key account.consumer 0 spec
served_spec_signed_example =
    served_spec_signed platform addresses network after_post pipeline 0 node spec
      after_post-Reachable (λ k. refl) spec_served

tick_lem_example :
    (((tick platform addresses network 7 empty start).0 ≡ empty)
      × ((e : String) × ((poll_once platform addresses network 7 empty start).0 ≡ throws e)))
    ⊎ IsPolled 7 empty (tick platform addresses network 7 empty start).0
tick_lem_example = tick_lem platform addresses network 7 empty start

abbrev settled_pipeline : RawPipeline
settled_pipeline = record {
  address = pipeline_key;
  view = record { account = account; nodes = record node { status = settled } ∷ node ∷ [] };
}

compute_stats_sums_example :
    let t = compute_stats [] (settled_pipeline ∷ []) in
    (t.active_pipelines
      ≡ length (filter (λ p. is_active p.view.account.status) (settled_pipeline ∷ [])))
    × (t.total_nodes_settled
        ≡ length (filter (λ n. is_settled n.status) (all_nodes (settled_pipeline ∷ []))))
    × (t.total_usdc_settled ≡ decimal (allocations is_settled (all_nodes (settled_pipeline ∷ []))))
    × (t.total_usdc_refunded ≡ decimal (allocations is_expired (all_nodes (settled_pipeline ∷ []))))
    × (t.total_stake_value_usdc ≡ decimal (sum []))
compute_stats_sums_example = compute_stats_sums [] (settled_pipeline ∷ [])
