-- ===== src/Facilitator/Server/Settle.antt =====
-- POST /complete and POST /submit of facilitator/src/server.ts, with settleNode and submitNode of
-- facilitator/src/settler.ts, which pass their arguments on.
use chainpipe.Base.{
  ℕ, ◌+◌, String, Bool, true, false, ◌||◌, [], Option, none, some, get_elem?, replicate,
  if◌then◌else◌,
}
use chainpipe.Base.Text.{Bytes, Text, to_uint8}
use chainpipe.Sdk.Platform.{Platform, PublicKey}
use chainpipe.Sdk.Accounts.{AgentReputation, PipelineNode}
use chainpipe.Sdk.Network.{Network, Session, ask}
use chainpipe.Sdk.Client.Reads.{PipelineView, get_pipeline, get_agent_reputation}
use chainpipe.Sdk.Client.Sends.{complete_node, submit_completion}
use chainpipe.Facilitator.Scorer.{score_delta}
use chainpipe.Facilitator.Input.{decode_signature, into_hash_buffer}
use chainpipe.Facilitator.Service.{
  Config, F, pure, lift, call, ◌>>=◌, ◌>>◌, Seen, Response, respond, answered, error, completed,
  submitted,
}
use chainpipe.Facilitator.Replay.{is_replay, mark_recorded}
use chainpipe.Facilitator.Verifier.{Verification, is_empty, verify_completion}

-- `DISPUTE_SLOTS` of sdk/src/pipeline.ts.
abbrev pub dispute_slots : ℕ
dispute_slots = 150

pub record SettleBody : Type 0 where
  pub pipeline_pda : Option Text
  pub node_index : Option ℕ
  pub agent_signature : Option Text
  pub result_hash : Option Text
  pub uri : Option Text

-- `typeof uri === "string" ? uri : ""`
abbrev pub or_empty : Option Text → Text
or_empty none = []
or_empty (some t) = t

abbrev pub has_value {ℓ} : {A : Type ℓ} → Option A → Bool
has_value none = false
has_value (some _) = true

abbrev pub or_zero : Option ℕ → ℕ
or_zero none = 0
or_zero (some n) = n

-- `!text` of an optional text.
abbrev pub is_missing : Option Text → Bool
is_missing t = is_empty (or_empty t)

abbrev pub reason_of : Verification → String
reason_of v = elim v.reason [ none ↦ "verification failed" | some why ↦ why ]

module _ (pf : Platform) (cfg : Config) (js_byte : Text → ℕ) (net : Network) where
  -- `resultHashBytes`
  unfoldable pub result_hash_bytes : Option Text → Bytes
  result_hash_bytes t =
      if is_missing t
      then replicate 32 0
      else into_hash_buffer (decode_signature js_byte (or_empty t))

  abbrev pub score_of : Option AgentReputation → Option ℕ
  score_of none = none
  score_of (some r) = some r.ema_score

  -- The transaction of /complete and what follows it.
  abbrev pub settle : PublicKey → ℕ → Bytes → PipelineNode → PublicKey → Bytes → F Response
  settle pipeline i result node agent job_id = do
    slot ← call (ask net.slot)
    deadline ← lift (pf.to_number node.deadline_slot)
    signature ← call (
        complete_node pf cfg.addresses net cfg.facilitator pipeline i agent
          (score_delta slot deadline) cfg.operator_treasury result)
    mark_recorded job_id
    rep ← call (get_agent_reputation pf cfg.addresses net agent)
    respond 200 (completed signature (score_delta slot deadline) (score_of rep))

  -- The transaction of /submit.
  abbrev pub open_window :
      PublicKey → ℕ → Bytes → Text → PipelineNode → PublicKey → Bytes → F Response
  open_window pipeline i result uri node agent job_id = do
    slot ← call (ask net.slot)
    deadline ← lift (pf.to_number node.deadline_slot)
    sent ← call (
        submit_completion pf cfg.addresses net cfg.facilitator pipeline i agent
          (score_delta slot deadline) result uri)
    respond 200
        (submitted sent.0 (pf.to_base58 sent.1) (slot + dispute_slots) (score_delta slot deadline))

  abbrev pub replay_refused : F Response
  replay_refused = respond 409 (error "job already recorded (replay)")

  -- `!v.ok || !v.node || !v.agent || !v.jobId`, the replay guard, then the transaction.
  abbrev pub guarded :
      (PipelineNode → PublicKey → Bytes → F Response)
      → PipelineNode
      → PublicKey
      → Bytes
      → F Response
  guarded act node agent job_id = do
    replayed ← is_replay pf cfg.addresses net job_id
    if replayed then replay_refused else act node agent job_id

  abbrev pub after_check :
      (PipelineNode → PublicKey → Bytes → F Response)
      → Verification
      → Bool
      → Option PipelineNode
      → Option PublicKey
      → Option Bytes
      → F Response
  after_check act v true (some node) (some agent) (some job_id) = guarded act node agent job_id
  after_check act v _ _ _ _ = respond 400 (error (reason_of v))

  abbrev pub checked :
      PublicKey
      → ℕ
      → Text
      → Bytes
      → Text
      → (PipelineNode → PublicKey → Bytes → F Response)
      → F Response
  checked pipeline i signature result uri act = do
    v ←
        call
          (verify_completion pf cfg net pipeline i (decode_signature js_byte signature) result uri)
    after_check act v v.is_ok v.node v.agent v.job_id

  -- The replay check of /complete before all others.
  abbrev pub pre_check : ℕ → Option PipelineView → F Bool
  pre_check i none = pure false
  pre_check i (some p) = elim (get_elem? p.nodes i) [
    | none ↦ pure false
    | some node ↦ is_replay pf cfg.addresses net (to_uint8 node.job_id)
  ]

  abbrev pub is_incomplete : SettleBody → Bool
  is_incomplete body =
      is_missing body.pipeline_pda
      || (if has_value body.node_index then false else true)
      || is_missing body.agent_signature

  abbrev pub complete_viewed : SettleBody → ℕ → PublicKey → Option PipelineView → F Response
  complete_viewed body i pipeline pre = do
    replayed ← pre_check i pre
    if replayed
        then replay_refused
        else checked pipeline i (or_empty body.agent_signature) (result_hash_bytes body.result_hash)
            (or_empty body.uri) (settle pipeline i (result_hash_bytes body.result_hash))

  abbrev pub complete_parsed : SettleBody → ℕ → PublicKey → F Response
  complete_parsed body i pipeline = do
    pre ← call (get_pipeline pf cfg.addresses net pipeline)
    complete_viewed body i pipeline pre

  unfoldable pub complete : SettleBody → Seen → Session → Response × Seen × Session
  complete body = answered 500 (
      if is_incomplete body
      then respond 400 (error "pipelinePda, nodeIndex, agentSignature required")
      else lift (pf.parse_key (or_empty body.pipeline_pda))
        >>= complete_parsed body (or_zero body.node_index))

  abbrev pub submit_parsed : SettleBody → ℕ → PublicKey → F Response
  submit_parsed body i pipeline =
      checked pipeline i (or_empty body.agent_signature) (result_hash_bytes body.result_hash)
        (or_empty body.uri)
        (open_window pipeline i (result_hash_bytes body.result_hash) (or_empty body.uri))

  unfoldable pub submit : SettleBody → Seen → Session → Response × Seen × Session
  submit body = answered 500 (
      if is_incomplete body
      then respond 400 (error "pipelinePda, nodeIndex, agentSignature required")
      else lift (pf.parse_key (or_empty body.pipeline_pda))
        >>= submit_parsed body (or_zero body.node_index))
