-- ===== src/Facilitator/Server/Laws/Refusal.antt =====
-- Which answers of facilitator/src/server.ts go with a transaction: a refusal sends none.
use chainpipe.Base.{
  ℕ, ◌≡◌, ◌≢◌, refl, Option, none, some, true, Bool, arith, inl, inr, Option-cases, get_elem?,
}
use chainpipe.Base.Results.{ok, Result-cases}
use chainpipe.Base.Text.{Bytes, Text, to_uint8}
use chainpipe.Sdk.Platform.{Platform, PublicKey}
use chainpipe.Sdk.Accounts.{PipelineNode}
use chainpipe.Sdk.Network.{Network, Session}
use chainpipe.Sdk.Client.Reads.{PipelineView, get_pipeline}
use chainpipe.Sdk.Client.Silence.{get_pipeline-IsSilent}
use chainpipe.Facilitator.Service.{Config, Seen, F, Response}
use chainpipe.Facilitator.Replay.{is_replay}
use chainpipe.Facilitator.Input.{decode_signature}
use chainpipe.Facilitator.Verifier.{Verification, verify_completion}
use chainpipe.Facilitator.Verifier.Silence.{verify_completion-IsSilent, is_replay_silent}
use chainpipe.Facilitator.Server.Settle.{
  SettleBody, settle, open_window, guarded, after_check, checked, pre_check, complete_viewed,
  complete_parsed, submit_parsed, complete, submit, or_empty, or_zero, result_hash_bytes,
}

-- What a handler does before its `catch`: if it answers with another status than 200, the log of
-- sent transactions is as before.
abbrev pub IsQuiet : F Response → Type 0
IsQuiet m =
    (seen : Seen) (s : Session) (resp : Response)
    → (m seen s).0 ≡ ok resp
    → resp.status ≢ 200
    → (m seen s).2.sent ≡ s.sent

module _ (pf : Platform) (cfg : Config) (js_byte : Text → ℕ) (net : Network) where
  settle-IsQuiet :
      (pipeline : PublicKey) (i : ℕ) (result : Bytes) (node : PipelineNode) (agent : PublicKey)
      (job : Bytes)
      → IsQuiet (settle pf cfg js_byte net pipeline i result node agent job)
  settle-IsQuiet pipeline i result node agent job seen s resp e h = ground arith

  open_window-IsQuiet :
      (pipeline : PublicKey) (i : ℕ) (result : Bytes) (uri : Text) (node : PipelineNode)
      (agent : PublicKey) (job : Bytes)
      → IsQuiet (open_window pf cfg js_byte net pipeline i result uri node agent job)
  open_window-IsQuiet pipeline i result uri node agent job seen s resp e h = ground arith

  guarded-IsQuiet :
      (act : PipelineNode → PublicKey → Bytes → F Response) (node : PipelineNode)
      (agent : PublicKey) (job : Bytes)
      → IsQuiet (act node agent job)
      → IsQuiet (guarded pf cfg js_byte net act node agent job)
  guarded-IsQuiet act node agent job q seen s resp e h =
      elim (Result-cases (is_replay pf cfg.addresses net job seen s).0) [
        | inr bad ↦ ground arith
        | inl (b, got) ↦ ground (
          arith,
          is_replay_silent pf cfg net job seen s,
          q (is_replay pf cfg.addresses net job seen s).1
              (is_replay pf cfg.addresses net job seen s).2 resp,
        )
      ]

  after_check-IsQuiet :
      (act : PipelineNode → PublicKey → Bytes → F Response) (v : Verification) (b : Bool)
      (node : Option PipelineNode) (agent : Option PublicKey) (job : Option Bytes)
      → ((node : PipelineNode) (agent : PublicKey) (job : Bytes) → IsQuiet (act node agent job))
      → IsQuiet (after_check pf cfg js_byte net act v b node agent job)
  after_check-IsQuiet act v true (some node) (some agent) (some job) q =
      guarded-IsQuiet act node agent job (q node agent job)
  after_check-IsQuiet act v _ _ _ _ q = λ seen s resp e h. refl

  checked-IsQuiet :
      (pipeline : PublicKey) (i : ℕ) (signature : Text) (result : Bytes) (uri : Text)
      (act : PipelineNode → PublicKey → Bytes → F Response)
      → ((node : PipelineNode) (agent : PublicKey) (job : Bytes) → IsQuiet (act node agent job))
      → IsQuiet (checked pf cfg js_byte net pipeline i signature result uri act)
  checked-IsQuiet pipeline i signature result uri act q seen s resp e h =
      elim (Result-cases
        (verify_completion pf cfg net pipeline i (decode_signature js_byte signature) result uri
          s).0) [
            | inr bad ↦ ground arith
            | inl (v, got) ↦
                let s1 : Session =
                  (verify_completion pf cfg net pipeline i (decode_signature js_byte signature)
                    result uri s).1 in
                ground (
                  arith,
                  verify_completion-IsSilent pf cfg net pipeline i
                      (decode_signature js_byte signature) result uri s,
                  after_check-IsQuiet act v v.is_ok v.node v.agent v.job_id q seen s1 resp,
                )
          ]

  pub pre_check_silent :
      (i : ℕ) (view : Option PipelineView) (seen : Seen) (s : Session)
      → (pre_check pf cfg js_byte net i view seen s).2.sent ≡ s.sent
  pre_check_silent i none seen s = refl
  pre_check_silent i (some p) seen s = elim (Option-cases (get_elem? p.nodes i)) [
    | inl missing ↦ ground arith
    | inr (node, here) ↦ ground (arith, is_replay_silent pf cfg net (to_uint8 node.job_id) seen s)
  ]

  -- The part of /complete after the first replay check.
  abbrev verified : SettleBody → ℕ → PublicKey → F Response
  verified body i pipeline =
      checked pf cfg js_byte net pipeline i (or_empty body.agent_signature)
        (result_hash_bytes pf cfg js_byte net body.result_hash) (or_empty body.uri)
        (settle pf cfg js_byte net pipeline i
          (result_hash_bytes pf cfg js_byte net body.result_hash))

  verified-IsQuiet :
      (body : SettleBody) (i : ℕ) (pipeline : PublicKey) → IsQuiet (verified body i pipeline)
  verified-IsQuiet body i pipeline =
      checked-IsQuiet pipeline i (or_empty body.agent_signature) _ (or_empty body.uri) _
        (settle-IsQuiet pipeline i _)

  pre_checked-IsQuiet :
      (body : SettleBody) (i : ℕ) (pipeline : PublicKey) (view : Option PipelineView) (seen : Seen)
      (s : Session) (resp : Response)
      → (complete_viewed pf cfg js_byte net body i pipeline view seen s).0 ≡ ok resp
      → resp.status ≢ 200
      → (complete_viewed pf cfg js_byte net body i pipeline view seen s).2.sent ≡ s.sent
  pre_checked-IsQuiet body i pipeline view seen s resp e h =
      elim (Result-cases (pre_check pf cfg js_byte net i view seen s).0) [
        | inr bad ↦ ground arith
        | inl (b, got) ↦ ground (
          arith,
          pre_check_silent i view seen s,
          verified-IsQuiet body i pipeline (pre_check pf cfg js_byte net i view seen s).1
              (pre_check pf cfg js_byte net i view seen s).2 resp,
        )
      ]

  complete_parsed-IsQuiet :
      (body : SettleBody) (i : ℕ) (pipeline : PublicKey)
      → IsQuiet (complete_parsed pf cfg js_byte net body i pipeline)
  complete_parsed-IsQuiet body i pipeline seen s resp e h =
      elim (Result-cases (get_pipeline pf cfg.addresses net pipeline s).0) [
        | inr bad ↦ ground arith
        | inl (view, got) ↦ ground (
          arith,
          get_pipeline-IsSilent pf cfg.addresses net pipeline s,
          pre_checked-IsQuiet body i pipeline view seen
              (get_pipeline pf cfg.addresses net pipeline s).1 resp,
        )
      ]

  submit_parsed-IsQuiet :
      (body : SettleBody) (i : ℕ) (pipeline : PublicKey)
      → IsQuiet (submit_parsed pf cfg js_byte net body i pipeline)
  submit_parsed-IsQuiet body i pipeline =
      checked-IsQuiet pipeline i (or_empty body.agent_signature) _ (or_empty body.uri) _
        (open_window-IsQuiet pipeline i _ (or_empty body.uri))

  -- A /complete that is answered neither with 200 nor with 500 (which stands for an error that was
  -- thrown) has sent no transaction.
  pub complete_refused :
      (body : SettleBody) (seen : Seen) (s : Session)
      → let (resp, _, s') = complete pf cfg js_byte net body seen s in
        resp.status ≢ 200 → resp.status ≢ 500 → s'.sent ≡ s.sent
  unfolding complete
  complete_refused body seen s h k =
      elim (Result-cases (pf.parse_key (or_empty body.pipeline_pda))) [
        | inr bad ↦ ground arith
        | inl (pipeline, parsed) ↦
            elim (Result-cases
              (complete_parsed pf cfg js_byte net body (or_zero body.node_index) pipeline seen
                s).0) [
                  | inr bad ↦ ground arith
                  | inl (resp, got) ↦ ground (
                    arith,
                    complete_parsed-IsQuiet body (or_zero body.node_index) pipeline seen s resp got,
                  )
                ]
      ]

  -- A /submit that is answered neither with 200 nor with 500 (which stands for an error that was
  -- thrown) has sent no transaction.
  pub submit_refused :
      (body : SettleBody) (seen : Seen) (s : Session)
      → let (resp, _, s') = submit pf cfg js_byte net body seen s in
        resp.status ≢ 200 → resp.status ≢ 500 → s'.sent ≡ s.sent
  unfolding submit
  submit_refused body seen s h k = elim (Result-cases (pf.parse_key (or_empty body.pipeline_pda))) [
    | inr bad ↦ ground arith
    | inl (pipeline, parsed) ↦
        elim (Result-cases
          (submit_parsed pf cfg js_byte net body (or_zero body.node_index) pipeline seen s).0) [
            | inr bad ↦ ground arith
            | inl (resp, got) ↦ ground (
              arith,
              submit_parsed-IsQuiet body (or_zero body.node_index) pipeline seen s resp got,
            )
          ]
  ]
