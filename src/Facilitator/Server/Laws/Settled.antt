-- ===== src/Facilitator/Server/Laws/Settled.antt =====
-- What stands behind a 200 of /complete in facilitator/src/server.ts.
use chainpipe.Base.{ℕ, ◌≡◌, some, true, List}
use chainpipe.Base.Results.{ok}
use chainpipe.Base.Text.{Bytes, Text}
use chainpipe.Sdk.Platform.{Platform, PublicKey}
use chainpipe.Sdk.Accounts.{PipelineNode}
use chainpipe.Sdk.Calls.Shape.{Call}
use chainpipe.Sdk.Network.{Network, Session}
use chainpipe.Facilitator.Service.{Config, Seen}
use chainpipe.Facilitator.Input.{decode_signature}
use chainpipe.Facilitator.Verifier.{Verification, verify_completion}
use chainpipe.Facilitator.Server.Settle.{SettleBody, or_empty, or_zero, result_hash_bytes}
use chainpipe.Facilitator.Server.Laws.Settling.{IsSettled}

module _ (pf : Platform) (cfg : Config) (js_byte : Text → ℕ) (net : Network) where
  -- The verification that was accepted, made before anything was sent, and the settlement of its agent and job.
  pub record IsVerifiedAndSettled (pipeline : PublicKey) (i : ℕ) (signature result : Bytes)
      (uri : Text) (seen' : Seen) (before after : List Call) : Type 0 where
    pub moment : Session
    pub untouched : moment.sent ≡ before
    pub verification : Verification
    pub node : PipelineNode
    pub agent : PublicKey
    pub job : Bytes
    pub verified :
        (verify_completion pf cfg net pipeline i signature result uri moment).0 ≡ ok verification
    pub accepted_flag : verification.is_ok ≡ true
    pub its_node : verification.node ≡ some node
    pub its_agent : verification.agent ≡ some agent
    pub its_job : verification.job_id ≡ some job
    pub settled_once :
        IsSettled pf cfg js_byte net pipeline i result node agent job seen' before after

  -- What a 200 of /complete rests on: the key it was asked for and the settlement of its node.
  pub record CompleteSettles (body : SettleBody) (seen' : Seen) (before after : List Call)
      : Type 0 where
    pub pipeline : PublicKey
    pub parsed : pf.parse_key (or_empty body.pipeline_pda) ≡ ok pipeline
    pub settled :
        IsVerifiedAndSettled pipeline
          (or_zero body.node_index)
          (decode_signature js_byte (or_empty body.agent_signature))
          (result_hash_bytes pf cfg js_byte net body.result_hash)
          (or_empty body.uri)
          seen'
          before
          after
