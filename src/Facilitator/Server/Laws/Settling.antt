-- ===== src/Facilitator/Server/Laws/Settling.antt =====
-- The transaction of /complete in facilitator/src/server.ts and the replay guard before it.
use chainpipe.Base.{ℕ, suc, ◌≡◌, ap, ◌∙◌, some, true, List, ◌∷◌, arith, inl, inr, Option-cases}
use chainpipe.Base.Results.{ok, Result-cases}
use chainpipe.Base.Text.{Bytes, Text}
use chainpipe.Base.Encodings.{to_hex}
use chainpipe.Sdk.Platform.{Platform, PublicKey}
use chainpipe.Sdk.Accounts.{PipelineNode}
use chainpipe.Sdk.Pdas.{node_pda}
use chainpipe.Facilitator.Scorer.{score_delta}
use chainpipe.Sdk.Calls.Settlement.{complete_node_call}
use chainpipe.Sdk.Calls.Shape.{Call}
use chainpipe.Sdk.Network.{Network, Session}
use chainpipe.Sdk.Client.Sends.{complete_node}
use chainpipe.Sdk.Client.Reads.{get_agent_reputation}
use chainpipe.Facilitator.Service.{Config, Seen, Response}
use chainpipe.Facilitator.Replay.{is_replay, has_key, mark_recorded}
use chainpipe.Facilitator.Replay.Laws.{has_key-add_key}
use chainpipe.Facilitator.Verifier.Silence.{is_replay_silent}
use chainpipe.Facilitator.Server.Settle.{settle, guarded}

module _ (pf : Platform) (cfg : Config) (js_byte : Text → ℕ) (net : Network) where
  -- One transaction was sent, for this agent, with the score of a slot that was read against the
  -- deadline of the node that was verified, and with the job record of the node's account as it
  -- was read next; and the verified job is in the guard's set.
  pub record IsSettled (pipeline : PublicKey) (i : ℕ) (result : Bytes) (node : PipelineNode)
      (agent : PublicKey) (job : Bytes) (seen' : Seen) (before after : List Call) : Type 0 where
    pub slot_at : ℕ
    pub slot : ℕ
    pub slot_read : net.slot slot_at ≡ ok slot
    pub deadline : ℕ
    pub deadline_read : pf.to_number node.deadline_slot ≡ ok deadline
    pub fetched : PipelineNode
    pub fetched_read :
        net.node (suc slot_at) (node_pda pf cfg.addresses pipeline i) ≡ ok (some fetched)
    pub one_sent :
        after
        ≡ complete_node_call pf cfg.addresses cfg.facilitator pipeline i agent
            (score_delta slot deadline)
            cfg.operator_treasury
            result
            fetched
          ∷ before
    pub recorded : has_key (to_hex job) seen' ≡ true

  settle_ok :
      (pipeline : PublicKey) (i : ℕ) (result : Bytes) (node : PipelineNode) (agent : PublicKey)
      (job : Bytes) (seen : Seen) (s : Session) (resp : Response)
      → (settle pf cfg js_byte net pipeline i result node agent job seen s).0 ≡ ok resp
      → IsSettled pipeline i result node agent job
          (settle pf cfg js_byte net pipeline i result node agent job seen s).1
          s.sent
          (settle pf cfg js_byte net pipeline i result node agent job seen s).2.sent
  unfolding complete_node mark_recorded get_agent_reputation
  settle_ok pipeline i result node agent job seen s resp e =
      elim (Result-cases (net.slot s.asked)) [
        | inr bad ↦ ground arith
        | inl (slot, read) ↦ elim (Result-cases (pf.to_number node.deadline_slot)) [
          | inr bad ↦ ground arith
          | inl (deadline, num) ↦
              elim (Result-cases (net.node (suc s.asked) (node_pda pf cfg.addresses pipeline i))) [
                | inr bad ↦ ground arith
                | inl (found, got) ↦ elim (Option-cases found) [
                  | inl missing ↦ ground arith
                  | inr (n, here) ↦ record {
                    slot_at = s.asked;
                    slot = slot;
                    slot_read = read;
                    deadline = deadline;
                    deadline_read = num;
                    fetched = n;
                    fetched_read = got ∙ ap ok here;
                    one_sent = ground arith;
                    recorded = ground (arith, has_key-add_key (to_hex job) seen);
                  }
                ]
              ]
        ]
      ]

  pub guarded_ok :
      (pipeline : PublicKey) (i : ℕ) (result : Bytes) (node : PipelineNode) (agent : PublicKey)
      (job : Bytes) (seen : Seen) (s : Session) (resp : Response)
      → let act = guarded pf cfg js_byte net (settle pf cfg js_byte net pipeline i result) in
        (act node agent job seen s).0 ≡ ok resp
        → resp.status ≡ 200
        → IsSettled pipeline i result node agent job
            (act node agent job seen s).1
            s.sent
            (act node agent job seen s).2.sent
  guarded_ok pipeline i result node agent job seen s resp e h =
      elim (Result-cases (is_replay pf cfg.addresses net job seen s).0) [
        | inr bad ↦ ground arith
        | inl (b, got) ↦ ground (
          arith,
          is_replay_silent pf cfg net job seen s,
          settle_ok pipeline i result node agent job (is_replay pf cfg.addresses net job seen s).1
              (is_replay pf cfg.addresses net job seen s).2 resp,
        )
      ]
