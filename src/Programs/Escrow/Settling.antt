-- ===== src/Programs/Escrow/Settling.antt =====
-- Completions, disputes and payments, from programs/dag_escrow/src/lib.rs.
use chainpipe.Base.{
  ℕ, ◌+◌, ◌-◌, ◌*◌, ◌/◌, ◌%◌, ◌^◌, Bool, true, false, not, List, none, some, if◌then◌else◌, ltb,
  leb, ◌==◌, set,
}
use chainpipe.Base.Int.{ℤ}
use chainpipe.Base.Results.{Result, ok, ◌>>=◌, ◌>>◌}
use chainpipe.Base.Text.{Bytes}
use chainpipe.Base.Encodings.{text_eq}
use chainpipe.Sdk.Platform.{PublicKey}
use chainpipe.Sdk.Accounts.{
  PipelineAccount, PipelineNode, NodeSettlement, NodeStatus, PipelineStatus, submitted, disputed,
  settled, expired, completed, partially_refunded, is_claimed, is_submitted, is_disputed,
}
use chainpipe.Dashboard.Masks.{set_bit}
use chainpipe.Programs.Runtime.{Runtime, require, present, saturating_add, absent}
use chainpipe.Programs.Registry.{decrement_open_jobs, slash_stake}
use chainpipe.Programs.Bridge.{record_completion, record_failure}
use chainpipe.Programs.Escrow.{
  EscrowConfig, Escrow, node_account, account_at, pay_from_vault, pay_some,
}

abbrev pub fee_of : EscrowConfig → ℕ → ℕ
fee_of config allocation = allocation * config.fee_bps / 10_000

-- The two transfers of a settlement: the agent, then the operator if there is a fee.
abbrev pub pay_settled : Runtime → PublicKey → PipelineNode → Escrow → Result Escrow
pay_settled rt mint node e = do
  paid ←
      pay_from_vault rt mint node.agent
        (node.allocation_usdc - fee_of e.config node.allocation_usdc) e
  pay_some rt mint e.config.operator (fee_of e.config node.allocation_usdc) paid

-- `pipeline.nodes_settled + pipeline.nodes_expired` of at most 16 nodes does not overflow.
abbrev pub status_after : ℕ → PipelineAccount → PipelineStatus
status_after settled_now p =
    if settled_now == p.total_nodes
    then completed
    else if settled_now + p.nodes_expired == p.total_nodes
    then partially_refunded
    else p.status

abbrev pub count_settled : ℕ → PipelineAccount → PipelineAccount
count_settled i p = record p {
  nodes_settled = saturating_add 255 p.nodes_settled 1;
  settled_mask = set_bit p.settled_mask i;
  status = status_after (saturating_add 255 p.nodes_settled 1) p;
}

abbrev pub count_expired : ℕ → PipelineAccount → PipelineAccount
count_expired n p = record p {
  nodes_expired = saturating_add 255 p.nodes_expired (n % 256);
  status = partially_refunded;
}

abbrev pub with_status : NodeStatus → ℕ → PipelineNode → PipelineNode
with_status status slot node = record node { status = status; settled_at_slot = slot }

-- What a settlement does apart from the transfers: node, pipeline, open jobs and reputation.
abbrev pub close_settled : Runtime → ℕ → PipelineNode → ℤ → ℕ → Escrow → Result Escrow
close_settled rt i node score slot e = do
  registry ← decrement_open_jobs rt e.dag_authority node.agent true e.registry
  bridge ← record_completion rt e.dag_authority node.job_id node.agent score slot e.bridge
  ok (record e {
    nodes = set e.nodes i (some (with_status settled slot node));
    pipeline = count_settled i e.pipeline;
    registry = registry;
    bridge = bridge;
  })

-- Signer, mint, agent passed, node index, score, slot.
unfoldable pub complete_node :
    Runtime → PublicKey → PublicKey → PublicKey → ℕ → ℤ → ℕ → Escrow → Result Escrow
complete_node rt signer mint agent i score slot e = do
  require (not e.config.paused) "Paused"
  require (text_eq signer e.config.facilitator_authority) "UnauthorizedFacilitator"
  node ← node_account i e
  require (is_claimed node.status) "NodeNotClaimed"
  require (text_eq node.agent agent) "AgentMismatch"
  paid ← pay_settled rt mint node e
  close_settled rt i node score slot paid

abbrev pub new_settlement :
    Runtime → PublicKey → ℕ → ℤ → Bytes → List ℕ → ℕ → ℕ → ℕ → NodeSettlement
new_settlement rt key i score result_hash uri uri_len slot window = record {
  node = rt.node_key key i;
  result_hash = result_hash;
  uri = uri;
  uri_len = uri_len;
  submitted_at_slot = slot;
  dispute_slots = window;
  score_delta = score;
  disputed = false;
  bump = 0;
}

-- Signer, agent passed, node index, score, hash, pointer and its length, slot.
unfoldable pub submit_completion :
    Runtime → PublicKey → PublicKey → ℕ → ℤ → Bytes → List ℕ → ℕ → ℕ → Escrow → Result Escrow
submit_completion rt signer agent i score result_hash uri uri_len slot e = do
  require (absent (account_at e.settlements i)) "already in use"
  require (not e.config.paused) "Paused"
  require (text_eq signer e.config.facilitator_authority) "UnauthorizedFacilitator"
  require (leb uri_len 96) "InvalidUri"
  node ← node_account i e
  require (is_claimed node.status) "NodeNotClaimed"
  require (text_eq node.agent agent) "AgentMismatch"
  ok (record e {
    nodes = set e.nodes i (some (with_status submitted slot node));
    settlements = set e.settlements i (
        some (new_settlement rt e.key i score result_hash uri uri_len slot e.config.dispute_slots));
  })

abbrev pub window_end : NodeSettlement → ℕ
window_end s = saturating_add (2 ^ 64 - 1) s.submitted_at_slot s.dispute_slots

-- Signer, node index, slot.
unfoldable pub dispute_node : PublicKey → ℕ → ℕ → Escrow → Result Escrow
dispute_node consumer i slot e = do
  require (text_eq consumer e.pipeline.consumer) "ConstraintHasOne"
  s ← present (account_at e.settlements i) "AccountNotInitialized"
  node ← node_account i e
  require (is_submitted node.status) "NodeNotSubmitted"
  require (leb slot (window_end s)) "DisputeWindowClosed"
  ok (record e {
    nodes = set e.nodes i (some (record node { status = disputed }));
    settlements = set e.settlements i (some (record s { disputed = true }));
  })

-- Mint, agent passed, node index, slot; anyone signs. The settlement account is closed.
unfoldable pub finalize_node : Runtime → PublicKey → PublicKey → ℕ → ℕ → Escrow → Result Escrow
finalize_node rt mint agent i slot e = do
  s ← present (account_at e.settlements i) "AccountNotInitialized"
  node ← node_account i e
  require (is_submitted node.status) "NodeNotSubmitted"
  require (text_eq node.agent agent) "AgentMismatch"
  require (not s.disputed) "NodeAlreadyDisputed"
  require (not e.config.paused) "Paused"
  require (ltb (window_end s) slot) "DisputeWindowOpen"
  paid ← pay_settled rt mint node e
  done ← close_settled rt i node s.score_delta slot paid
  ok (record done { settlements = set done.settlements i none })

-- The agent loses: open jobs, stake and reputation, for a node that is refunded.
abbrev pub penalize : Runtime → PublicKey → PipelineNode → ℕ → Escrow → Result Escrow
penalize rt mint node slot e = do
  freed ← decrement_open_jobs rt e.dag_authority node.agent false e.registry
  registry ←
      slash_stake rt e.dag_authority mint node.agent e.pipeline.consumer freed.config.slash_bps
        freed
  bridge ← record_failure rt e.dag_authority node.job_id node.agent slot e.bridge
  ok (record e { registry = registry; bridge = bridge })

abbrev pub resolve_upheld : Runtime → PublicKey → ℕ → PipelineNode → ℕ → Escrow → Result Escrow
resolve_upheld rt mint i node slot e = do
  refunded ← pay_from_vault rt mint e.pipeline.consumer node.allocation_usdc e
  done ← penalize rt mint node slot refunded
  ok (record done {
    nodes = set done.nodes i (some (with_status expired slot node));
    pipeline = count_expired 1 done.pipeline;
    settlements = set done.settlements i none;
  })

abbrev pub resolve_rejected :
    Runtime → PublicKey → ℕ → PipelineNode → ℤ → ℕ → Escrow → Result Escrow
resolve_rejected rt mint i node score slot e = do
  paid ← pay_settled rt mint node e
  done ← close_settled rt i node score slot paid
  ok (record done { settlements = set done.settlements i none })

-- Signer, mint, agent passed, node index, whether the dispute is upheld, slot.
unfoldable pub resolve_dispute :
    Runtime → PublicKey → PublicKey → PublicKey → ℕ → Bool → ℕ → Escrow → Result Escrow
resolve_dispute rt signer mint agent i upheld slot e = do
  s ← present (account_at e.settlements i) "AccountNotInitialized"
  require (text_eq signer e.config.facilitator_authority) "UnauthorizedArbiter"
  node ← node_account i e
  require (is_disputed node.status) "NodeNotDisputed"
  require (text_eq node.agent agent) "AgentMismatch"
  if upheld
      then resolve_upheld rt mint i node slot e
      else resolve_rejected rt mint i node s.score_delta slot e
