-- ===== src/Sdk/Accounts.antt =====
-- The accounts of the programs as the client reads them, from the `types` of sdk/src/idl, and the
-- addresses of a deployment, from sdk/src/addresses.ts.
use chainpipe.Base.{ℕ, Bool, true, false, List}
use chainpipe.Base.Text.{Bytes}
use chainpipe.Base.Int.{ℤ}
use chainpipe.Sdk.Platform.{PublicKey}

pub record Addresses : Type 0 where
  pub bonded_registry : PublicKey
  pub dag_escrow : PublicKey
  pub reputation_bridge : PublicKey
  pub usdc_mint : PublicKey

pub data NodeStatus : Type 0 where
  pending claimed submitted disputed settled expired : NodeStatus

pub data PipelineStatus : Type 0 where
  active completed partially_refunded cancelled : PipelineStatus

-- `"claimed" in node.status`, and so on: a status is an object with one key.
abbrev pub is_pending : NodeStatus → Bool
is_pending pending = true
is_pending _ = false

abbrev pub is_claimed : NodeStatus → Bool
is_claimed claimed = true
is_claimed _ = false

abbrev pub is_submitted : NodeStatus → Bool
is_submitted submitted = true
is_submitted _ = false

abbrev pub is_disputed : NodeStatus → Bool
is_disputed disputed = true
is_disputed _ = false

abbrev pub is_settled : NodeStatus → Bool
is_settled settled = true
is_settled _ = false

abbrev pub is_expired : NodeStatus → Bool
is_expired expired = true
is_expired _ = false

abbrev pub is_active : PipelineStatus → Bool
is_active active = true
is_active _ = false

pub record PipelineAccount : Type 0 where
  pub consumer : PublicKey
  pub total_nodes : ℕ
  pub total_usdc_locked : ℕ
  pub nodes_settled : ℕ
  pub nodes_expired : ℕ
  pub status : PipelineStatus
  pub nonce : ℕ
  pub stake_mint : PublicKey
  pub settled_mask : ℕ
  pub bump : ℕ

pub record PipelineNode : Type 0 where
  pub pipeline : PublicKey
  pub node_index : ℕ
  pub agent : PublicKey
  pub allocation_usdc : ℕ
  pub deadline_slot : ℕ
  pub dependency_mask : ℕ
  pub status : NodeStatus
  pub settled_at_slot : ℕ
  pub job_id : Bytes
  pub required_tier : ℕ
  pub bump : ℕ

pub record NodeSettlement : Type 0 where
  pub node : PublicKey
  pub result_hash : Bytes
  pub uri : List ℕ
  pub uri_len : ℕ
  pub submitted_at_slot : ℕ
  pub dispute_slots : ℕ
  pub score_delta : ℤ
  pub disputed : Bool
  pub bump : ℕ

pub record AgentStake : Type 0 where
  pub agent : PublicKey
  pub stake_mint : PublicKey
  pub stake_amount : ℕ
  pub tier : ℕ
  pub open_jobs : ℕ
  pub total_settled : ℕ
  pub total_slashed : ℕ
  pub unstake_requested_at : ℤ
  pub bump : ℕ

pub record AgentReputation : Type 0 where
  pub agent : PublicKey
  pub ema_score : ℕ
  pub total_settled : ℕ
  pub total_failed : ℕ
  pub last_job_id : Bytes
  pub last_updated_slot : ℕ
  pub bump : ℕ

pub data JobOutcome : Type 0 where
  job_settled job_failed : JobOutcome

pub record JobRecord : Type 0 where
  pub job_id : Bytes
  pub agent : PublicKey
  pub outcome : JobOutcome
  pub score_delta : ℤ
  pub recorded_at_slot : ℕ
  pub bump : ℕ
