-- ===== src/Facilitator/Server/Laws/Replayed.antt =====
-- The replay guard before /complete of facilitator/src/server.ts.
use chainpipe.Base.{ℕ, ◌≡◌, some, true, false, arith, get_elem?}
use chainpipe.Base.Results.{ok}
use chainpipe.Base.Text.{Text, to_uint8}
use chainpipe.Base.Encodings.{to_hex}
use chainpipe.Sdk.Platform.{Platform, PublicKey}
use chainpipe.Sdk.Accounts.{PipelineNode}
use chainpipe.Sdk.Network.{Network, Session}
use chainpipe.Sdk.Client.Reads.{PipelineView, get_pipeline}
use chainpipe.Sdk.Client.Silence.{get_pipeline-IsSilent}
use chainpipe.Facilitator.Service.{Config, Seen}
use chainpipe.Facilitator.Replay.{is_replay, has_key}
use chainpipe.Facilitator.Server.Settle.{
  SettleBody, is_incomplete, pre_check, complete, or_empty, or_zero,
}

module _ (pf : Platform) (cfg : Config) (js_byte : Text → ℕ) (net : Network) where
  pre_check_held :
      (i : ℕ) (view : PipelineView) (node : PipelineNode) (seen : Seen) (s : Session)
      → get_elem? view.nodes i ≡ some node
      → has_key (to_hex (to_uint8 node.job_id)) seen ≡ true
      → pre_check pf cfg js_byte net i (some view) seen s ≡ (ok true, seen, s)
  unfolding is_replay
  pre_check_held i view node seen s here held = ground arith

  -- A /complete with all its fields, for a key that can be read and a node that is found and whose
  -- job is already in the guard's memory, is answered with 409, whatever its signature, result and
  -- pointer; it sends nothing and leaves the guard as it was.
  pub complete_replayed :
      (body : SettleBody) (seen : Seen) (s : Session) (pipeline : PublicKey) (view : PipelineView)
      (node : PipelineNode)
      → is_incomplete pf cfg js_byte net body ≡ false
      → pf.parse_key (or_empty body.pipeline_pda) ≡ ok pipeline
      → (get_pipeline pf cfg.addresses net pipeline s).0 ≡ ok (some view)
      → get_elem? view.nodes (or_zero body.node_index) ≡ some node
      → has_key (to_hex (to_uint8 node.job_id)) seen ≡ true
      → let (resp, seen', s') = complete pf cfg js_byte net body seen s in
        (resp.status ≡ 409) × (seen' ≡ seen) × (s'.sent ≡ s.sent)
  unfolding complete
  complete_replayed body seen s pipeline view node full parsed got here held =
      let s1 : Session = (get_pipeline pf cfg.addresses net pipeline s).1 in
      let silent = get_pipeline-IsSilent pf cfg.addresses net pipeline s in
      let first = pre_check_held (or_zero body.node_index) view node seen s1 here held in
      (
        ground (arith, full, parsed, got, first),
        ground (arith, full, parsed, got, first),
        ground (arith, full, parsed, got, first, silent),
      )
