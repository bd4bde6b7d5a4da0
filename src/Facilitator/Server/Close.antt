-- ===== src/Facilitator/Server/Close.antt =====
-- POST /expire, POST /finalize and POST /resolve of facilitator/src/server.ts, with expireOverdue,
-- finalizeOverdue and resolveNode of facilitator/src/settler.ts.
use chainpipe.Base.{ℕ, Bool, true, false, ◌||◌, Option, none, some, get_elem?, if◌then◌else◌}
use chainpipe.Base.Text.{Text}
use chainpipe.Sdk.Platform.{Platform, PublicKey}
use chainpipe.Sdk.Accounts.{PipelineNode, is_claimed, is_submitted, is_disputed}
use chainpipe.Sdk.Network.{Network, Session}
use chainpipe.Sdk.Client.Reads.{PipelineView, get_pipeline}
use chainpipe.Sdk.Client.Sends.{expire_node, finalize_node, resolve_dispute}
use chainpipe.Facilitator.Service.{
  Config, F, lift, call, ◌>>=◌, Seen, Response, respond, answered, error, expired, finalized,
  resolved,
}
use chainpipe.Facilitator.Verifier.{Verification, verify_expirable}
use chainpipe.Facilitator.Server.Settle.{or_empty, or_zero, has_value, is_missing}

-- `upheld` is taken for any JSON value by its truth, `Boolean(upheld)`.
pub record CloseBody : Type 0 where
  pub pipeline_pda : Option Text
  pub node_index : Option ℕ
  pub upheld : Option Bool

abbrev pub is_unnamed : CloseBody → Bool
is_unnamed body =
    is_missing body.pipeline_pda || (if has_value body.node_index then false else true)

abbrev pub or_false : Option Bool → Bool
or_false none = false
or_false (some b) = b

module _ (pf : Platform) (cfg : Config) (net : Network) where
  abbrev pub slashed_agent : PipelineNode → Option Text
  slashed_agent node = if is_claimed node.status then some (pf.to_base58 node.agent) else none

  abbrev pub expire_checked : PublicKey → ℕ → Verification → Bool → Option PipelineNode → F Response
  expire_checked pipeline i v true (some node) = do
    sent ← call (expire_node pf cfg.addresses net cfg.facilitator pipeline i)
    respond 200 (expired sent.0 sent.1 (slashed_agent node))
  expire_checked pipeline i v _ _ =
      respond 400 (error (elim v.reason [ none ↦ "not expirable" | some why ↦ why ]))

  abbrev pub expire_parsed : ℕ → PublicKey → F Response
  expire_parsed i pipeline = do
    v ← call (verify_expirable pf cfg net pipeline i)
    expire_checked pipeline i v v.is_ok v.node

  unfoldable pub expire : CloseBody → Seen → Session → Response × Seen × Session
  expire body = answered 500 (
      if is_unnamed body
      then respond 400 (error "pipelinePda, nodeIndex required")
      else lift (pf.parse_key (or_empty body.pipeline_pda))
        >>= expire_parsed (or_zero body.node_index))

  -- `p?.nodes[idx]`
  abbrev pub node_of : Option PipelineView → ℕ → Option PipelineNode
  node_of none i = none
  node_of (some p) i = get_elem? p.nodes i

  abbrev pub finalize_found : PublicKey → ℕ → Option PipelineNode → F Response
  finalize_found pipeline i none = respond 404 (error "node not found")
  finalize_found pipeline i (some node) =
      if is_submitted node.status
      then (do
        signature ← call (
            finalize_node pf cfg.addresses net cfg.facilitator pipeline i node.agent
              cfg.operator_treasury)
        respond 200 (finalized signature))
      else respond 400 (error "node is not in Submitted state")

  abbrev pub finalize_parsed : ℕ → PublicKey → F Response
  finalize_parsed i pipeline = do
    p ← call (get_pipeline pf cfg.addresses net pipeline)
    finalize_found pipeline i (node_of p i)

  unfoldable pub finalize : CloseBody → Seen → Session → Response × Seen × Session
  finalize body = answered 500 (
      if is_unnamed body
      then respond 400 (error "pipelinePda, nodeIndex required")
      else lift (pf.parse_key (or_empty body.pipeline_pda))
        >>= finalize_parsed (or_zero body.node_index))

  abbrev pub resolve_found : PublicKey → ℕ → Bool → Option PipelineNode → F Response
  resolve_found pipeline i upheld none = respond 404 (error "node not found")
  resolve_found pipeline i upheld (some node) =
      if is_disputed node.status
      then (do
        signature ← call (
            resolve_dispute pf cfg.addresses net cfg.facilitator pipeline i node.agent upheld
              cfg.operator_treasury)
        respond 200 (resolved signature upheld))
      else respond 400 (error "node is not in Disputed state")

  abbrev pub resolve_parsed : ℕ → Bool → PublicKey → F Response
  resolve_parsed i upheld pipeline = do
    p ← call (get_pipeline pf cfg.addresses net pipeline)
    resolve_found pipeline i upheld (node_of p i)

  unfoldable pub resolve : CloseBody → Seen → Session → Response × Seen × Session
  resolve body = answered 500 (
      if is_unnamed body || (if has_value body.upheld then false else true)
      then respond 400 (error "pipelinePda, nodeIndex, upheld required")
      else lift (pf.parse_key (or_empty body.pipeline_pda))
        >>= resolve_parsed (or_zero body.node_index) (or_false body.upheld))
