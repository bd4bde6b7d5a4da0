-- ===== src/Facilitator/Server/Laws/Closed.antt =====
-- /expire, /finalize and /resolve of facilitator/src/server.ts: a refusal sends nothing, and a 200
-- stands for one transaction on a node that the check before it let through.
use chainpipe.Base.{
  ℕ, ◌≡◌, ◌≢◌, ap, ◌∙◌, some, true, List, ◌∷◌, arith, inl, inr, Option-cases, Bool-cases, get_elem?,
}
use chainpipe.Base.Results.{ok, Result-cases}
use chainpipe.Sdk.Platform.{Platform, PublicKey}
use chainpipe.Sdk.Accounts.{PipelineNode, is_submitted}
use chainpipe.Sdk.Calls.Shape.{Call}
use chainpipe.Sdk.Calls.Settlement.{finalize_node_call}
use chainpipe.Sdk.Network.{Network, Session}
use chainpipe.Sdk.Client.Reads.{PipelineView, get_pipeline}
use chainpipe.Sdk.Client.Sends.{finalize_node}
use chainpipe.Sdk.Client.Silence.{get_pipeline-IsSilent}
use chainpipe.Sdk.Pdas.{node_pda}
use chainpipe.Facilitator.Service.{Config, Seen, Response}
use chainpipe.Facilitator.Verifier.{verify_expirable}
use chainpipe.Facilitator.Verifier.Silence.{verify_expirable-IsSilent}
use chainpipe.Facilitator.Server.Settle.{or_empty, or_zero}
use chainpipe.Facilitator.Server.Close.{CloseBody, expire, finalize_parsed, finalize, resolve}

module _ (pf : Platform) (cfg : Config) (net : Network) where
  -- A /expire that is answered neither with 200 nor with 500 has sent no transaction.
  pub expire_refused :
      (body : CloseBody) (seen : Seen) (s : Session)
      → let (resp, _, s') = expire pf cfg net body seen s in
        resp.status ≢ 200 → resp.status ≢ 500 → s'.sent ≡ s.sent
  unfolding expire
  expire_refused body seen s h k = elim (Result-cases (pf.parse_key (or_empty body.pipeline_pda))) [
    | inr bad ↦ ground arith
    | inl (pipeline, parsed) ↦
        elim (Result-cases (verify_expirable pf cfg net pipeline (or_zero body.node_index) s).0) [
          | inr bad ↦ ground arith
          | inl (v, got) ↦
              ground
                (arith, verify_expirable-IsSilent pf cfg net pipeline (or_zero body.node_index) s)
        ]
  ]

  -- The transaction that a 200 of /finalize stands for.
  pub record IsFinalized (body : CloseBody) (s : Session) (after : List Call) : Type 0 where
    pub pipeline : PublicKey
    pub parsed : pf.parse_key (or_empty body.pipeline_pda) ≡ ok pipeline
    pub view : PipelineView
    pub fetched : (get_pipeline pf cfg.addresses net pipeline s).0 ≡ ok (some view)
    pub node : PipelineNode
    pub present : get_elem? view.nodes (or_zero body.node_index) ≡ some node
    pub submitted_node : is_submitted node.status ≡ true
    pub refetched : PipelineNode
    pub one_sent :
        after
        ≡ finalize_node_call pf cfg.addresses cfg.facilitator pipeline
            (or_zero body.node_index)
            node.agent
            cfg.operator_treasury
            refetched
          ∷ s.sent

  finalize_parsed_ok :
      (i : ℕ) (pipeline : PublicKey) (seen : Seen) (s : Session) (resp : Response)
      → (finalize_parsed pf cfg net i pipeline seen s).0 ≡ ok resp
      → resp.status ≡ 200
      → (view : PipelineView) × (node : PipelineNode) × (n : PipelineNode) × ((get_pipeline pf
            cfg.addresses net pipeline s).0
          ≡ ok (some view))
        × (get_elem? view.nodes i ≡ some node)
        × (is_submitted node.status ≡ true)
        × ((finalize_parsed pf cfg net i pipeline seen s).2.sent
            ≡ finalize_node_call pf cfg.addresses cfg.facilitator pipeline i node.agent
                cfg.operator_treasury n
              ∷ s.sent)
  unfolding finalize_node
  finalize_parsed_ok i pipeline seen s resp e h =
      let s1 : Session = (get_pipeline pf cfg.addresses net pipeline s).1 in
      elim (Result-cases (get_pipeline pf cfg.addresses net pipeline s).0) [
        | inr bad ↦ ground arith
        | inl (found, got) ↦ elim (Option-cases found) [
          | inl missing ↦ ground arith
          | inr (view, here) ↦ elim (Option-cases (get_elem? view.nodes i)) [
            | inl missing ↦ ground arith
            | inr (node, present) ↦ elim (Bool-cases (is_submitted node.status)) [
              | inr other ↦ ground arith
              | inl waiting ↦
                  elim (Result-cases (net.node s1.asked (node_pda pf cfg.addresses pipeline i))) [
                    | inr bad ↦ ground arith
                    | inl (again, read) ↦ elim (Option-cases again) [
                      | inl missing ↦ ground arith
                      | inr (n, there) ↦ (
                        view,
                        node,
                        n,
                        got ∙ ap ok here,
                        present,
                        waiting,
                        ground (arith, get_pipeline-IsSilent pf cfg.addresses net pipeline s),
                      )
                    ]
                  ]
            ]
          ]
        ]
      ]

  -- A 200 of /finalize means that exactly one transaction was sent: it finalizes the node asked for,
  -- which was submitted when the pipeline was read, for the agent that the node named then and
  -- with the treasury of the configuration.
  pub finalize_settles :
      (body : CloseBody) (seen : Seen) (s : Session)
      → let (resp, _, s') = finalize pf cfg net body seen s in
        resp.status ≡ 200 → IsFinalized body s s'.sent
  unfolding finalize
  finalize_settles body seen s h = elim (Result-cases (pf.parse_key (or_empty body.pipeline_pda))) [
    | inr bad ↦ ground arith
    | inl (pipeline, parsed) ↦
        elim (Result-cases
          (finalize_parsed pf cfg net (or_zero body.node_index) pipeline seen s).0) [
            | inr bad ↦ ground arith
            | inl (resp, got) ↦
                let (view, node, n, fetched, present, waiting, sent) =
                  finalize_parsed_ok (or_zero body.node_index) pipeline seen s resp got
                    (ground arith) in
                record {
                  pipeline = pipeline;
                  parsed = parsed;
                  view = view;
                  fetched = fetched;
                  node = node;
                  present = present;
                  submitted_node = waiting;
                  refetched = n;
                  one_sent = ground (arith, sent);
                }
          ]
  ]

  -- A /finalize that is answered neither with 200 nor with 500 has sent no transaction.
  pub finalize_refused :
      (body : CloseBody) (seen : Seen) (s : Session)
      → let (resp, _, s') = finalize pf cfg net body seen s in
        resp.status ≢ 200 → resp.status ≢ 500 → s'.sent ≡ s.sent
  unfolding finalize
  finalize_refused body seen s h k =
      elim (Result-cases (pf.parse_key (or_empty body.pipeline_pda))) [
        | inr bad ↦ ground arith
        | inl (pipeline, parsed) ↦
            elim (Result-cases (get_pipeline pf cfg.addresses net pipeline s).0) [
              | inr bad ↦ ground arith
              | inl (view, got) ↦
                  ground (arith, get_pipeline-IsSilent pf cfg.addresses net pipeline s)
            ]
      ]

  -- A /resolve that is answered neither with 200 nor with 500 has sent no transaction.
  pub resolve_refused :
      (body : CloseBody) (seen : Seen) (s : Session)
      → let (resp, _, s') = resolve pf cfg net body seen s in
        resp.status ≢ 200 → resp.status ≢ 500 → s'.sent ≡ s.sent
  unfolding resolve
  resolve_refused body seen s h k =
      elim (Result-cases (pf.parse_key (or_empty body.pipeline_pda))) [
        | inr bad ↦ ground arith
        | inl (pipeline, parsed) ↦
            elim (Result-cases (get_pipeline pf cfg.addresses net pipeline s).0) [
              | inr bad ↦ ground arith
              | inl (view, got) ↦
                  ground (arith, get_pipeline-IsSilent pf cfg.addresses net pipeline s)
            ]
      ]
